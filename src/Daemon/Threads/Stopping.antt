-- ===== src/Daemon/Threads/Stopping.antt =====
-- src/dnf2b/core/Daemon.cpp and Daemon.hpp: all the threads end once isRunning is false.
use doesnotfail2ban.Prelude.{
  ℕ, suc, ◌*◌, ◌≤◌, String, ◌≡◌, refl, Bool, false, some, [], ◌∷◌, length, arith, true, ◌∙◌,
  eq_refl, Option-cases, inl, inr, ◌⊎◌, Bool-cases,
}
use doesnotfail2ban.Prelude.Int.{ℤ, pos}
use doesnotfail2ban.Prelude.Maps.{
  Map, lookup, insert, map_values, IsMap, Above, contains, lookup-insert, AllEntries,
  AllEntries-insert, AllEntries-lookup, AllEntries-mono, AllEntries-both, entries_found,
}
use doesnotfail2ban.Pcre.{Pcre}
use doesnotfail2ban.MessageBuffer.{Pton}
use doesnotfail2ban.BanManager.Whitelist.{Asio}
use doesnotfail2ban.Daemon.{Pipeline}
use doesnotfail2ban.Daemon.Running.{DaemonState}
use doesnotfail2ban.Daemon.Threads.{
  is_starting, Moves-started, woken-started, launch, start_threads, Phase, ends, returns, blocks,
  times_out, woken, System, ThreadStep, reloads, cleans, monitor_moves, handles, poller_moves, stop,
  notify_all, Run, begins, steps, stops, notifies, starting, at_head, in_round, checking, blocking,
  blocked, ended,
}
use doesnotfail2ban.Daemon.Threads.Left.{
  left_bound, all_left_bound, woken-IsMap, ThreadStep-IsMap, Run-Used,
}

abbrev pub PollersEnded : Map Phase → Type 0
PollersEnded = AllEntries (λ file phase. phase ≡ ended)

module _ (inet_pton : Bool → String → Pton) (pcre : Pcre) (ipow : ℤ → ℕ → ℤ) (asio : Asio) where
  -- A thread of a pipeline is past its start, and its file has a pipeline.
  abbrev IsServed : Map (Pipeline pcre.Code) → String → Phase → Type 0
  IsServed pipelines file phase = (is_starting phase ≡ false) × (contains file pipelines ≡ true)

  abbrev AreServed : System inet_pton pcre ipow asio → Type 0
  AreServed s = AllEntries (IsServed s.state.0) s.pollers

  IsServed-insert :
      (file : String) (new : Pipeline pcre.Code) (pipelines : Map (Pipeline pcre.Code)) (k : String)
      (phase : Phase)
      → IsServed pipelines k phase
      → IsServed (insert file new pipelines) k phase
  IsServed-insert file new pipelines k phase h =
      (h.0, rw (lookup-insert file k new pipelines) (ground (arith, h.1)))

  IsServed-woken :
      (pipelines : Map (Pipeline pcre.Code)) (m : Map Phase)
      → AllEntries (IsServed pipelines) m
      → AllEntries (IsServed pipelines) (map_values woken m)
  unfolding map_values
  IsServed-woken pipelines [] h = tt
  IsServed-woken pipelines ((k, phase) ∷ m) h =
      ((woken-started phase ∙ h.0.0, h.0.1), IsServed-woken pipelines m h.1)

  ThreadStep-AreServed :
      {s t : System inet_pton pcre ipow asio}
      → ThreadStep inet_pton pcre ipow asio s t
      → AreServed s
      → AreServed t
  ThreadStep-AreServed (reloads now e) h = h
  ThreadStep-AreServed (cleans now e) h = h
  ThreadStep-AreServed (monitor_moves next e) h = h
  ThreadStep-AreServed {s} (handles clock file pipeline messages e f) h =
      AllEntries-insert (IsServed (insert file _ s.state.0)) file checking s.pollers
        (refl, rw (lookup-insert file file _ s.state.0, eq_refl file) refl)
        (AllEntries-mono (IsServed s.state.0) (IsServed (insert file _ s.state.0))
          (IsServed-insert file _ s.state.0) s.pollers h)
  ThreadStep-AreServed {s} (poller_moves file phase next e m) h =
      AllEntries-insert (IsServed s.state.0) file next s.pollers
        ((Moves-started m).1, (AllEntries-lookup (IsServed s.state.0) file phase s.pollers h e).1) h

  Run-AreServed :
      {start s : System inet_pton pcre ipow asio} {n : ℕ}
      → Run inet_pton pcre ipow asio start n s
      → IsMap start.pollers
      → AreServed start
      → IsMap s.pollers × AreServed s
  unfolding stop notify_all
  Run-AreServed begins m h = (m, h)
  Run-AreServed (steps r up t) m h =
      let (m', h') = Run-AreServed r m h in
      (ThreadStep-IsMap inet_pton pcre ipow asio t m', ThreadStep-AreServed t h')
  Run-AreServed (stops r up) m h = Run-AreServed r m h
  Run-AreServed (notifies {s = s} r up e) m h =
      let (m', h') = Run-AreServed r m h in
      (woken-IsMap s.pollers m', IsServed-woken s.state.0 s.pollers h')

  -- Some thread can take a step.
  abbrev pub GoesOn : System inet_pton pcre ipow asio → Type 0
  GoesOn s = (t : System inet_pton pcre ipow asio) × ThreadStep inet_pton pcre ipow asio s t

  monitor_steps :
      (s : System inet_pton pcre ipow asio)
      → s.is_running ≡ false
      → (phase : Phase) → s.monitor ≡ phase
      → (s.monitor ≡ ended) ⊎ GoesOn s
  monitor_steps s f starting e = inr (_, reloads (pos 0) e)
  monitor_steps s f at_head e = inr (_, monitor_moves ended (rw e (ends f)))
  monitor_steps s f in_round e = inr (_, cleans (pos 0) e)
  monitor_steps s f checking e = inr (_, monitor_moves at_head (rw e (returns f)))
  monitor_steps s f blocking e = inr (_, monitor_moves blocked (rw e blocks))
  monitor_steps s f blocked e = inr (_, monitor_moves at_head (rw e times_out))
  monitor_steps s f ended e = inl e

  poller_steps :
      (s : System inet_pton pcre ipow asio) (file : String) (phase : Phase)
      → s.is_running ≡ false
      → lookup file s.pollers ≡ some phase
      → IsServed s.state.0 file phase
      → (phase ≡ ended) ⊎ GoesOn s
  poller_steps s file starting f e h = let (late, found) = h in absurd cc
  poller_steps s file at_head f e h = inr (_, poller_moves file at_head ended e (ends f))
  poller_steps s file in_round f e h = elim (Option-cases (lookup file s.state.0)) [
    | inl nothing ↦ let c = rw nothing at h.1 in absurd cc
    | inr (pipeline, p) ↦ inr (_, handles (λ str. pos 0) file pipeline [] e p)
  ]
  poller_steps s file checking f e h = inr (_, poller_moves file checking at_head e (returns f))
  poller_steps s file blocking f e h = inr (_, poller_moves file blocking blocked e blocks)
  poller_steps s file blocked f e h = inr (_, poller_moves file blocked at_head e times_out)
  poller_steps s file ended f e h = inl refl

  pollers_step :
      (s : System inet_pton pcre ipow asio)
      → s.is_running ≡ false
      → (m : Map Phase)
      → AllEntries
          (λ file phase. (lookup file s.pollers ≡ some phase) × IsServed s.state.0 file phase)
          m
      → PollersEnded m ⊎ GoesOn s
  pollers_step s f [] h = inl tt
  pollers_step s f ((file, phase) ∷ m) h = elim (poller_steps s file phase f h.0.0 h.0.1) [
    | inr on ↦ inr on
    | inl over ↦ elim (pollers_step s f m h.1) [ inr on ↦ inr on | inl rest ↦ inl (over, rest) ]
  ]

  all_step :
      (s : System inet_pton pcre ipow asio)
      → s.is_running ≡ false
      → IsMap s.pollers
      → AreServed s
      → ((s.monitor ≡ ended) × PollersEnded s.pollers) ⊎ GoesOn s
  all_step s f m h = elim (monitor_steps s f s.monitor refl) [
    | inr on ↦ inr on
    | inl over ↦
        elim (pollers_step s f s.pollers
          (AllEntries-both _ _ s.pollers (entries_found s.pollers m) h)) [
            | inr on ↦ inr on
            | inl rest ↦ inl (over, rest)
          ]
  ]

  start_threads-Above :
      (k : String) (m : Map (Pipeline pcre.Code)) → Above k m → Above k (start_threads m)
  start_threads-Above k [] h = tt
  start_threads-Above k ((j, p) ∷ m) h = (h.0, start_threads-Above k m h.1)

  start_threads-IsMap : (m : Map (Pipeline pcre.Code)) → IsMap m → IsMap (start_threads m)
  start_threads-IsMap [] h = tt
  start_threads-IsMap ((j, p) ∷ m) h = (start_threads-Above j m h.0, start_threads-IsMap m h.1)

  start_threads-IsServed :
      (pipelines : Map (Pipeline pcre.Code)) (m : Map (Pipeline pcre.Code))
      → AllEntries (λ k p. lookup k pipelines ≡ some p) m
      → AllEntries (IsServed pipelines) (start_threads m)
  start_threads-IsServed pipelines [] h = tt
  start_threads-IsServed pipelines ((j, p) ∷ m) h =
      ((refl, rw h.0 refl), start_threads-IsServed pipelines m h.1)

  -- From the launch of a daemon, whose pipelines are a map, with rounds of the threads that do not overlap:
  -- once isRunning is false, wherever each of the threads then is, and in whatever order they go on, they
  -- take at most four steps for each of them, the monitor's thread among them; and after any number of
  -- these steps, either all the threads have ended, or a round has thrown and ended the program, or none
  -- has and some thread can take a step.
  pub Run-ends :
      (start : DaemonState inet_pton pcre ipow asio) (halted s : System inet_pton pcre ipow asio)
      (k n : ℕ)
      → IsMap start.0
      → Run inet_pton pcre ipow asio (launch inet_pton pcre ipow asio start) k halted
      → halted.is_running ≡ false
      → Run inet_pton pcre ipow asio halted n s
      → (n ≤ 4 * suc (length halted.pollers))
        × (((s.monitor ≡ ended) × PollersEnded s.pollers)
            ⊎ (s.has_crashed ≡ true)
            ⊎ ((s.has_crashed ≡ false) × GoesOn s))
  unfolding launch
  Run-ends start halted s k n m first f r =
      let (map_then, served_then) =
        Run-AreServed first (start_threads-IsMap start.0 m)
          (start_threads-IsServed start.0 start.0 (entries_found start.0 m)) in
      let (map_now, served_now) = Run-AreServed r map_then served_then in
      let (g, unused, u) = Run-Used inet_pton pcre ipow asio r f map_then in
      (
        omega (arith, u, left_bound halted.monitor, all_left_bound halted.pollers),
        elim (all_step s g map_now served_now) [
          | inl over ↦ inl over
          | inr on ↦ elim (Bool-cases s.has_crashed) [
            | inl crashed ↦ inr (inl crashed)
            | inr up ↦ inr (inr (up, on))
          ]
        ],
      )
