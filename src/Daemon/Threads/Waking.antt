-- ===== src/Daemon/Threads/Waking.antt =====
-- src/dnf2b/core/Daemon.cpp and Daemon.hpp: which threads notify_all wakes in `shutdown`.
use doesnotfail2ban.Prelude.{ℕ, String, ◌≡◌, refl, Bool, true, false, [], ◌∷◌}
use doesnotfail2ban.Prelude.Int.{ℤ}
use doesnotfail2ban.Prelude.Maps.{Map, map_values, AllEntries, AllEntries-insert, AllEntries-lookup}
use doesnotfail2ban.Pcre.{Pcre}
use doesnotfail2ban.MessageBuffer.{Pton}
use doesnotfail2ban.BanManager.Whitelist.{Asio}
use doesnotfail2ban.Daemon.Threads.{
  Phase, Moves, enters, ends, waits, returns, blocks, times_out, wakes, woken, System, ThreadStep,
  reloads, cleans, monitor_moves, handles, poller_moves, stop, notify_all, Run, begins, steps,
  stops, notifies, starting, at_head, in_round, checking, blocking, blocked, ended,
}

-- Past the test in `wait`, and not yet blocked.
abbrev pub is_blocking : Phase → Bool
is_blocking starting = false
is_blocking at_head = false
is_blocking in_round = false
is_blocking checking = false
is_blocking blocking = true
is_blocking blocked = false
is_blocking ended = false

-- In the wait, or about to begin it.
abbrev pub is_waiting : Phase → Bool
is_waiting starting = false
is_waiting at_head = false
is_waiting in_round = false
is_waiting checking = false
is_waiting blocking = true
is_waiting blocked = true
is_waiting ended = false

Moves-awake :
    {phase next : Phase}
    → Moves false phase next
    → is_waiting phase ≡ false
    → is_waiting next ≡ false
Moves-awake (enters e) h = refl
Moves-awake (ends e) h = refl
Moves-awake (waits e) h = absurd cc
Moves-awake (returns e) h = refl
Moves-awake blocks h = absurd cc
Moves-awake times_out h = refl
Moves-awake wakes h = refl

woken-awake : (phase : Phase) → is_blocking phase ≡ false → is_waiting (woken phase) ≡ false
woken-awake starting h = refl
woken-awake at_head h = refl
woken-awake in_round h = refl
woken-awake checking h = refl
woken-awake blocking h = absurd cc
woken-awake blocked h = refl
woken-awake ended h = refl

not_blocking : (phase : Phase) → is_waiting phase ≡ false → is_blocking phase ≡ false
not_blocking starting h = refl
not_blocking at_head h = refl
not_blocking in_round h = refl
not_blocking checking h = refl
not_blocking blocking h = h
not_blocking blocked h = refl
not_blocking ended h = refl

abbrev pub NoneBlocking : Map Phase → Type 0
NoneBlocking = AllEntries (λ file phase. is_blocking phase ≡ false)

abbrev pub NoneWaiting : Map Phase → Type 0
NoneWaiting = AllEntries (λ file phase. is_waiting phase ≡ false)

all_woken : (m : Map Phase) → NoneBlocking m → NoneWaiting (map_values woken m)
unfolding map_values
all_woken [] h = tt
all_woken ((file, phase) ∷ m) h = (woken-awake phase h.0, all_woken m h.1)

none_blocking : (m : Map Phase) → NoneWaiting m → NoneBlocking m
none_blocking [] h = tt
none_blocking ((file, phase) ∷ m) h = (not_blocking phase h.0, none_blocking m h.1)

module _ (inet_pton : Bool → String → Pton) (pcre : Pcre) (ipow : ℤ → ℕ → ℤ) (asio : Asio) where
  abbrev IsAwake : System inet_pton pcre ipow asio → Type 0
  IsAwake s = (s.is_running ≡ false) × (is_waiting s.monitor ≡ false) × NoneWaiting s.pollers

  ThreadStep-IsAwake :
      {s t : System inet_pton pcre ipow asio}
      → ThreadStep inet_pton pcre ipow asio s t
      → IsAwake s
      → IsAwake t
  ThreadStep-IsAwake (reloads now e) (f, m, p) = (f, refl, p)
  ThreadStep-IsAwake (cleans now e) (f, m, p) = (f, refl, p)
  ThreadStep-IsAwake (monitor_moves next e) (f, m, p) = (f, Moves-awake (rw f at e) m, p)
  ThreadStep-IsAwake {s} (handles clock file pipeline messages e g) (f, m, p) = (
    f,
    m,
    AllEntries-insert (λ file phase. is_waiting phase ≡ false) file checking s.pollers refl p,
  )
  ThreadStep-IsAwake {s} (poller_moves file phase next e g) (f, m, p) = (
    f,
    m,
    AllEntries-insert (λ file phase. is_waiting phase ≡ false) file next s.pollers
        (Moves-awake (rw f at g)
          (AllEntries-lookup (λ file phase. is_waiting phase ≡ false) file phase s.pollers p e))
        p,
  )

  notify_all-IsAwake :
      (s : System inet_pton pcre ipow asio)
      → s.is_running ≡ false
      → is_blocking s.monitor ≡ false
      → NoneBlocking s.pollers
      → IsAwake (notify_all inet_pton pcre ipow asio s)
  unfolding notify_all
  notify_all-IsAwake s f m p = (f, woken-awake s.monitor m, all_woken s.pollers p)

  Run-IsAwake :
      {start s : System inet_pton pcre ipow asio} {n : ℕ}
      → Run inet_pton pcre ipow asio start n s
      → IsAwake start
      → IsAwake s
  unfolding stop
  Run-IsAwake begins h = h
  Run-IsAwake (steps r up t) h = ThreadStep-IsAwake t (Run-IsAwake r h)
  Run-IsAwake (stops r up) h = let (f, m, p) = Run-IsAwake r h in (refl, m, p)
  Run-IsAwake (notifies {s = s} r up e) h =
      let (f, m, p) = Run-IsAwake r h in
      notify_all-IsAwake s f (not_blocking s.monitor m) (none_blocking s.pollers p)

  -- If isRunning is false when notify_all is called, and no thread is then between the test in wait and
  -- the block, then neither the monitor nor a pipeline's thread is in its wait from then on, or about to
  -- begin it: with rounds of the threads that do not overlap, in whatever order they come, none of them
  -- needs its time-out to end.
  pub notify_all-awake :
      (s t : System inet_pton pcre ipow asio) (n : ℕ)
      → s.is_running ≡ false
      → is_blocking s.monitor ≡ false
      → NoneBlocking s.pollers
      → Run inet_pton pcre ipow asio (notify_all inet_pton pcre ipow asio s) n t
      → (is_waiting t.monitor ≡ false) × NoneWaiting t.pollers
  notify_all-awake s t n f m p r =
      let (g, h, k) = Run-IsAwake r (notify_all-IsAwake s f m p) in (h, k)
