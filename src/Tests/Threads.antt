-- ===== src/Tests/Threads.antt =====
-- src/dnf2b/core/Daemon.cpp: the threads of a daemon with one pipeline.
use doesnotfail2ban.Prelude.{
  suc, ◌*◌, ◌≤◌, ◌≡◌, refl, Bool, true, false, not, [], ◌∷◌, ◌++◌, map, keep, ◌⊎◌, length,
}
use doesnotfail2ban.Prelude.Int.{pos}
use doesnotfail2ban.Prelude.Maps.{lookup, insert}
use doesnotfail2ban.BanManager.Invariant.{IsValid}
use doesnotfail2ban.BanManager.{load_rebans, check_unbans_and_cleanup}
use doesnotfail2ban.Bouncers.{ban}
use doesnotfail2ban.BanDb.{is_pending, location}
use doesnotfail2ban.BanManager.Cleanup.{calls_for}
use doesnotfail2ban.Daemon.Running.{DaemonState}
use doesnotfail2ban.Daemon.Threads.{
  Phase, System, launch, handled, handles, cleans, poller_moves, stop, notify_all, begins, steps,
  stops, is_starting, starting, at_head, blocked, ended, ends, in_round, checking,
}
use doesnotfail2ban.Daemon.Threads.Order.{IsWatchersBan, Run-ordered}
use doesnotfail2ban.Daemon.Threads.Stopping.{PollersEnded, GoesOn, Run-ends}
use doesnotfail2ban.Daemon.Threads.Waking.{is_waiting, NoneWaiting, notify_all-awake}
use doesnotfail2ban.BanManager.Safety.{Grows, SameSetup}
use doesnotfail2ban.Daemon.Threads.Calls.{IsAllowed, Run-IsAllowed}
use doesnotfail2ban.Tests.Fixtures.{manager, power, two_hosts, literal, any_text}
use doesnotfail2ban.Tests.Manager.{manager-IsValid}
use doesnotfail2ban.Tests.Polling.{at_start, auth_log, one_line}

abbrev TestSystem : Type 0
TestSystem = System any_text literal power two_hosts

-- The database holds two bans.
abbrev with_bans : DaemonState any_text literal power two_hosts
with_bans = (at_start.0, manager)

abbrev reloaded : TestSystem
reloaded = record {
  is_running = true;
  has_crashed = false;
  monitor = at_head;
  pollers = ("auth.log", at_head) ∷ [];
  state = (at_start.0, load_rebans (pos 100) manager);
}

abbrev launched : TestSystem
launched = launch any_text literal power two_hosts with_bans

Run-ordered_example :
    Grows (IsWatchersBan any_text literal power two_hosts with_bans) manager.calls manager.calls
    × Grows
        (IsAllowed any_text literal power two_hosts launched)
        (manager.calls
          ++ calls_for ban manager
              (map location (keep (λ r. not (is_pending (pos 100) r)) manager.db.ban_registry)))
        reloaded.state.1.calls
    × IsValid reloaded.state.1
    × (reloaded.state.1.has_reloaded_bans ≡ true)
    × (is_starting reloaded.monitor ≡ false)
unfolding launch
Run-ordered_example =
    Run-ordered any_text literal power two_hosts with_bans launched reloaded 0 0 (pos 100)
      manager-IsValid begins refl begins

abbrev at_phase : Bool → Phase → Phase → TestSystem
at_phase running monitor poller = record {
  is_running = running;
  has_crashed = false;
  monitor = monitor;
  pollers = ("auth.log", poller) ∷ [];
  state = at_start;
}

-- Told to shut down before any thread has taken a step.
abbrev halted : TestSystem
halted = record {
  is_running = false;
  has_crashed = false;
  monitor = starting;
  pollers = ("auth.log", at_head) ∷ [];
  state = at_start;
}

abbrev one_ended : TestSystem
one_ended = record halted { pollers = ("auth.log", ended) ∷ [] }

Run-ends_example :
    (1 ≤ 4 * suc (length halted.pollers))
    × (((one_ended.monitor ≡ ended) × PollersEnded one_ended.pollers)
        ⊎ (one_ended.has_crashed ≡ true)
        ⊎ ((one_ended.has_crashed ≡ false) × GoesOn any_text literal power two_hosts one_ended))
unfolding launch stop lookup insert
Run-ends_example =
    Run-ends any_text literal power two_hosts at_start halted one_ended 0 1 (tt, tt)
      (stops begins refl) refl
      (steps begins refl (poller_moves "auth.log" at_head ended refl (ends refl)))

-- Both threads are in their wait.
notify_all-awake_example :
    (is_waiting
        (notify_all any_text literal power two_hosts (at_phase false blocked blocked)).monitor
      ≡ false)
    × NoneWaiting
        (notify_all any_text literal power two_hosts (at_phase false blocked blocked)).pollers
notify_all-awake_example =
    notify_all-awake any_text literal power two_hosts (at_phase false blocked blocked)
      (notify_all any_text literal power two_hosts (at_phase false blocked blocked)) 0 refl refl
      (refl, tt) begins

-- The monitor and the pipeline's thread are in their rounds, at 150, when a ban ends and a line is read.
abbrev in_the_round : TestSystem
in_the_round = record (at_phase true in_round in_round) { state = (at_start.0, manager) }

abbrev cleaned : TestSystem
cleaned = record in_the_round {
  monitor = checking;
  state = (at_start.0, check_unbans_and_cleanup (pos 150) manager);
}

abbrev one_handled : TestSystem
one_handled =
    handled any_text literal power two_hosts (λ ip. pos 150) "auth.log" auth_log one_line cleaned

Run-IsAllowed_example :
    Grows (IsAllowed any_text literal power two_hosts in_the_round) [] one_handled.state.1.calls
    × SameSetup manager one_handled.state.1
unfolding lookup
Run-IsAllowed_example =
    Run-IsAllowed any_text literal power two_hosts in_the_round one_handled 2 refl (
      steps (steps begins refl (cleans (pos 150) refl)) refl
        (handles (λ ip. pos 150) "auth.log" auth_log one_line refl refl))
