-- ===== src/Daemon/Threads/Order.antt =====
-- src/dnf2b/core/Daemon.cpp: the monitor issues the standing bans again once, before its first round.
use doesnotfail2ban.Prelude.{
  ℕ, String, ◌≡◌, refl, ◌∙◌, sym, Bool, true, false, not, inl, inr, map, keep, ◌++◌,
}
use doesnotfail2ban.Prelude.Int.{ℤ}
use doesnotfail2ban.Bouncers.{BouncerCall, ban}
use doesnotfail2ban.Pcre.{Pcre}
use doesnotfail2ban.MessageBuffer.{Pton}
use doesnotfail2ban.Watcher.{Watcher}
use doesnotfail2ban.BanDb.{is_pending, location}
use doesnotfail2ban.BanManager.Whitelist.{Asio}
use doesnotfail2ban.BanManager.{BanManager, load_rebans}
use doesnotfail2ban.BanManager.Invariant.{IsValid, load_rebans-IsValid}
use doesnotfail2ban.BanManager.Cleanup.{calls_for, load_rebans_complete}
use doesnotfail2ban.BanManager.Safety.{
  Grows, same, Grows-trans, SameSetup, IsRightful, IsRightful-SameSetup,
}
use doesnotfail2ban.Daemon.Running.{DaemonState, Reachable-IsValid}
use doesnotfail2ban.Daemon.Calls.{Grows-mono, same_setup, handle_poll-Rightly}
use doesnotfail2ban.Daemon.Threads.{
  is_starting, Moves-started, woken-started, System, launch, reissue, ThreadStep, reloads, cleans,
  monitor_moves, handles, poller_moves, stop, notify_all, Run, begins, steps, stops, notifies,
  Run-Reachable, starting,
}
use doesnotfail2ban.Daemon.Threads.Calls.{HasWatcher, HasWatcher-insert, IsAllowed, Run-IsKept}

module _ (inet_pton : Bool → String → Pton) (pcre : Pcre) (ipow : ℤ → ℕ → ℤ) (asio : Asio) where
  -- A ban by a watcher that the daemon was started with, of an address that is not whitelisted.
  abbrev pub IsWatchersBan : DaemonState inet_pton pcre ipow asio → BouncerCall → Type 0
  IsWatchersBan start c =
      (w : Watcher pcre.Code) × HasWatcher inet_pton pcre ipow asio start.0 w
      × IsRightful ipow w start.1 c

  -- What holds until the monitor starts.
  record Waits (start : DaemonState inet_pton pcre ipow asio) (s : System inet_pton pcre ipow asio)
      : Type 0 where
    setup : SameSetup start.1 s.state.1
    watchers :
        (w : Watcher pcre.Code)
        → HasWatcher inet_pton pcre ipow asio s.state.0 w
        → HasWatcher inet_pton pcre ipow asio start.0 w
    calls : Grows (IsWatchersBan start) start.1.calls s.state.1.calls

  ThreadStep-Waits :
      (start : DaemonState inet_pton pcre ipow asio) (s t : System inet_pton pcre ipow asio)
      → ThreadStep inet_pton pcre ipow asio s t
      → is_starting t.monitor ≡ true
      → (is_starting s.monitor ≡ true → Waits start s)
      → Waits start t
  ThreadStep-Waits start s t (reloads now e) h w = absurd cc
  ThreadStep-Waits start s t (cleans now e) h w = absurd cc
  ThreadStep-Waits start s t (monitor_moves next e) h w =
      let (before, after) = Moves-started e in absurd cc
  ThreadStep-Waits start s t (handles clock file pipeline messages e f) h w =
      let v : Waits start s = w h in
      let ((g, u), same_watchers) =
        handle_poll-Rightly inet_pton pcre ipow asio start.1 clock pipeline messages s.state.1
          v.setup in
      record {
        setup = u;
        watchers = λ k i. v.watchers k (
            HasWatcher-insert inet_pton pcre ipow asio file pipeline _ s.state.0 k f same_watchers
              i);
        calls =
            Grows-trans v.calls
              (Grows-mono (λ c (k, i, r). (k, v.watchers k (file, pipeline, f, i), r)) g);
      }
  ThreadStep-Waits start s t (poller_moves file phase next e m) h w =
      let v : Waits start s = w h in
      record { setup = v.setup; watchers = v.watchers; calls = v.calls }

  Run-Waits :
      (start : DaemonState inet_pton pcre ipow asio) {s : System inet_pton pcre ipow asio} {n : ℕ}
      → Run inet_pton pcre ipow asio (launch inet_pton pcre ipow asio start) n s
      → is_starting s.monitor ≡ true
      → Waits start s
  unfolding launch stop notify_all
  Run-Waits start begins h = record {
    setup = same_setup start.1;
    watchers = λ w i. i;
    calls = same;
  }
  Run-Waits start (steps {s = s} {t = t} r up step) h =
      ThreadStep-Waits start s t step h (Run-Waits start r)
  Run-Waits start (stops r up) h =
      let v : Waits start _ = Run-Waits start r h in
      record { setup = v.setup; watchers = v.watchers; calls = v.calls }
  Run-Waits start (notifies {s = s} r up e) h =
      let v : Waits start s = Run-Waits start r (sym (woken-started s.monitor) ∙ h) in
      record { setup = v.setup; watchers = v.watchers; calls = v.calls }

  IsRightful-load_rebans :
      (now : ℤ) (w : Watcher pcre.Code) (m : BanManager asio) (c : BouncerCall)
      → IsValid m
      → IsRightful ipow w (load_rebans now m) c
      → IsRightful ipow w m c
  IsRightful-load_rebans now w m c v (ip, e, free, loaded) = (
    ip,
    e,
    rw (load_rebans_complete now m v) at free,
    rw (load_rebans_complete now m v) at loaded,
  )

  IsAllowed-reissue :
      (start : DaemonState inet_pton pcre ipow asio) (now : ℤ)
      (before : System inet_pton pcre ipow asio) (c : BouncerCall)
      → Waits start before
      → IsValid before.state.1
      → IsAllowed inet_pton pcre ipow asio (reissue inet_pton pcre ipow asio now before) c
      → IsAllowed inet_pton pcre ipow asio (launch inet_pton pcre ipow asio start) c
  unfolding launch
  IsAllowed-reissue start now before c w v (inl u) = inl u
  IsAllowed-reissue start now before c w v (inr (x, i, g)) = inr (
    x,
    w.watchers x i,
    IsRightful-SameSetup ipow x start.1 before.state.1 c w.setup
        (IsRightful-load_rebans now x before.state.1 c v g),
  )

  again :
      (start : DaemonState inet_pton pcre ipow asio) (before s : System inet_pton pcre ipow asio)
      (now : ℤ)
      → IsValid before.state.1
      → Grows
          (IsAllowed inet_pton pcre ipow asio (launch inet_pton pcre ipow asio start))
          (load_rebans now before.state.1).calls
          s.state.1.calls
      → Grows
          (IsAllowed inet_pton pcre ipow asio (launch inet_pton pcre ipow asio start))
          (before.state.1.calls
            ++ calls_for ban before.state.1
                (map location (keep (λ r. not (is_pending now r)) before.state.1.db.ban_registry)))
          s.state.1.calls
  again start before s now v g = rw (load_rebans_complete now before.state.1 v) at g

  -- From the launch of a daemon with a valid ban manager, with rounds of the threads that do not overlap, in
  -- whatever order they come and whether the daemon is told to shut down or not: until the monitor starts,
  -- every call of a bouncer is a ban by a watcher's bouncer, which is loaded, with its port, of an address
  -- that is not whitelisted. The monitor's first step then calls ban, in the order of the rows, for each
  -- ban of the database that is not over and whose bouncer is loaded, with the port of the row. All the
  -- calls after these are unbans, or bans by watchers as before; the ban manager is valid, and has marked
  -- that the bans are issued again.
  pub Run-ordered :
      (start : DaemonState inet_pton pcre ipow asio) (before s : System inet_pton pcre ipow asio)
      (k n : ℕ) (now : ℤ)
      → IsValid start.1
      → Run inet_pton pcre ipow asio (launch inet_pton pcre ipow asio start) k before
      → before.monitor ≡ starting
      → Run inet_pton pcre ipow asio (reissue inet_pton pcre ipow asio now before) n s
      → Grows (IsWatchersBan start) start.1.calls before.state.1.calls
        × Grows
            (IsAllowed inet_pton pcre ipow asio (launch inet_pton pcre ipow asio start))
            (before.state.1.calls
              ++ calls_for ban before.state.1 (
                  map location (keep (λ r. not (is_pending now r)) before.state.1.db.ban_registry)))
            s.state.1.calls
        × IsValid s.state.1
        × (s.state.1.has_reloaded_bans ≡ true)
        × (is_starting s.monitor ≡ false)
  unfolding launch
  Run-ordered start before s k n now v r e after =
      let w : Waits start before = Run-Waits start r (rw e refl) in
      let kept = Run-IsKept inet_pton pcre ipow asio after refl in
      let valid : IsValid before.state.1 =
        Reachable-IsValid inet_pton pcre ipow asio (Run-Reachable inet_pton pcre ipow asio r) v in
      (
        w.calls,
        again start before s now valid
            (Grows-mono (λ c g. IsAllowed-reissue start now before c w valid g) kept.calls),
        Reachable-IsValid inet_pton pcre ipow asio (Run-Reachable inet_pton pcre ipow asio after)
            (load_rebans-IsValid now before.state.1 valid),
        kept.setup.reloaded ∙ (unfold load_rebans in refl),
        kept.started,
      )
