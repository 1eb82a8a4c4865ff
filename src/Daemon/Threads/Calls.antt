-- ===== src/Daemon/Threads/Calls.antt =====
-- src/dnf2b/core/Daemon.cpp: which calls of bouncers the daemon makes once the monitor has started.
use mathlib.Core.List.{Mem}
use doesnotfail2ban.Prelude.{
  ℕ, String, ◌==◌, ◌≡◌, refl, ◌∙◌, sym, subst, Bool, false, some, ◌⊎◌, inl, inr, Bool-cases,
}
use mathlib.Core.Option.{some-injective}
use doesnotfail2ban.Prelude.Int.{ℤ}
use doesnotfail2ban.Prelude.Maps.{Map, lookup, insert, lookup-insert}
use doesnotfail2ban.Bouncers.{BouncerCall}
use doesnotfail2ban.Pcre.{Pcre}
use doesnotfail2ban.MessageBuffer.{Pton}
use doesnotfail2ban.Watcher.{Watcher}
use doesnotfail2ban.BanManager.Whitelist.{Asio}
use doesnotfail2ban.BanManager.Safety.{
  Grows, same, Grows-trans, SameSetup, SameSetup-trans, IsRightful,
}
use doesnotfail2ban.Daemon.{Pipeline}
use doesnotfail2ban.Daemon.Threads.{
  is_starting, Moves-started, woken-started, System, ThreadStep, reloads, cleans, monitor_moves,
  handles, poller_moves, stop, notify_all, Run, begins, steps, stops, notifies,
}
use doesnotfail2ban.Daemon.Calls.{
  Grows-mono, same_setup, IsUnban, check_unbans_and_cleanup-IsUnban, handle_poll-Rightly,
}

module _ (inet_pton : Bool → String → Pton) (pcre : Pcre) (ipow : ℤ → ℕ → ℤ) (asio : Asio) where
  -- A watcher of one of the pipelines.
  abbrev pub HasWatcher : Map (Pipeline pcre.Code) → Watcher pcre.Code → Type 0
  HasWatcher pipelines w =
      (file : String) × (pipeline : Pipeline pcre.Code) × (lookup file pipelines ≡ some pipeline)
      × Mem w pipeline.watchers

  -- An unban, or a ban by a watcher that the daemon was started with, of an address that is not
  -- whitelisted.
  abbrev pub IsAllowed : System inet_pton pcre ipow asio → BouncerCall → Type 0
  IsAllowed start c =
      IsUnban c
      ⊎ ((w : Watcher pcre.Code) × HasWatcher start.state.0 w × IsRightful ipow w start.state.1 c)

  pub record IsKept (start s : System inet_pton pcre ipow asio) : Type 0 where
    pub started : is_starting s.monitor ≡ false
    pub setup : SameSetup start.state.1 s.state.1
    pub watchers : (w : Watcher pcre.Code) → HasWatcher s.state.0 w → HasWatcher start.state.0 w
    pub calls : Grows (IsAllowed start) start.state.1.calls s.state.1.calls

  pub HasWatcher-insert :
      (file : String) (old new : Pipeline pcre.Code) (pipelines : Map (Pipeline pcre.Code))
      (w : Watcher pcre.Code)
      → lookup file pipelines ≡ some old
      → new.watchers ≡ old.watchers
      → HasWatcher (insert file new pipelines) w
      → HasWatcher pipelines w
  HasWatcher-insert file old new pipelines w e same_watchers (k, line, f, i) =
      elim (Bool-cases (file == k)) [
        | inl t ↦
            let p : some new ≡ some line = rw t at (sym (lookup-insert file k new pipelines) ∙ f) in
            (
              file,
              old,
              e,
              rw same_watchers at
                  (subst (λ l. Mem w l.watchers) (sym (some-injective new line p)) i),
            )
        | inr n ↦ (k, line, rw n at (sym (lookup-insert file k new pipelines) ∙ f), i)
      ]

  ThreadStep-IsKept :
      (start s t : System inet_pton pcre ipow asio)
      → ThreadStep inet_pton pcre ipow asio s t
      → IsKept start s
      → IsKept start t
  ThreadStep-IsKept start s t (reloads now e) h =
      let n = h.started in let c = rw e at n in absurd cc
  ThreadStep-IsKept start s t (cleans now e) h =
      let (g, u) = check_unbans_and_cleanup-IsUnban now s.state.1 in
      record {
        started = refl;
        setup = SameSetup-trans h.setup u;
        watchers = h.watchers;
        calls = Grows-trans h.calls (Grows-mono (λ c i. inl i) g);
      }
  ThreadStep-IsKept start s t (monitor_moves next e) h = record {
    started = (Moves-started e).1;
    setup = h.setup;
    watchers = h.watchers;
    calls = h.calls;
  }
  ThreadStep-IsKept start s t (handles clock file pipeline messages e f) h =
      let ((g, u), same_watchers) =
        handle_poll-Rightly inet_pton pcre ipow asio start.state.1 clock pipeline messages s.state.1
          h.setup in
      record {
        started = h.started;
        setup = u;
        watchers =
            λ w i. h.watchers w (HasWatcher-insert file pipeline _ s.state.0 w f same_watchers i);
        calls =
            Grows-trans h.calls
              (Grows-mono (λ c (w, i, r). inr (w, h.watchers w (file, pipeline, f, i), r)) g);
      }
  ThreadStep-IsKept start s t (poller_moves file phase next e m) h = record {
    started = h.started;
    setup = h.setup;
    watchers = h.watchers;
    calls = h.calls;
  }

  pub Run-IsKept :
      {start s : System inet_pton pcre ipow asio} {n : ℕ}
      → Run inet_pton pcre ipow asio start n s
      → is_starting start.monitor ≡ false
      → IsKept start s
  unfolding stop notify_all
  Run-IsKept {start} begins e = record {
    started = e;
    setup = same_setup start.state.1;
    watchers = λ w i. i;
    calls = same;
  }
  Run-IsKept {start} (steps {s = s} {t = t} r up step) e =
      ThreadStep-IsKept start s t step (Run-IsKept r e)
  Run-IsKept (stops r up) e =
      let h = Run-IsKept r e in
      record { started = h.started; setup = h.setup; watchers = h.watchers; calls = h.calls }
  Run-IsKept (notifies {s = s} r up f) e =
      let h = Run-IsKept r e in
      record {
        started = woken-started s.monitor ∙ h.started;
        setup = h.setup;
        watchers = h.watchers;
        calls = h.calls;
      }

  -- Rounds of the threads that do not overlap, in whatever order they come, whether the daemon is told to
  -- shut down or not, and with a round that throws and so ends the program: once the monitor is past its
  -- start, every call of a bouncer that is made, also in the round that throws, is an unban, or a ban by
  -- the bouncer of a watcher of one of the pipelines, which is loaded, with the watcher's port, of an
  -- address that is not whitelisted; and the bouncers, the whitelist and the settings stay as they are.
  pub Run-IsAllowed :
      (start s : System inet_pton pcre ipow asio) (n : ℕ)
      → is_starting start.monitor ≡ false
      → Run inet_pton pcre ipow asio start n s
      → Grows (IsAllowed start) start.state.1.calls s.state.1.calls
        × SameSetup start.state.1 s.state.1
  Run-IsAllowed start s n e r = let h = Run-IsKept r e in (h.calls, h.setup)
