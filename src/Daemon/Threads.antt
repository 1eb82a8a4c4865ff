-- ===== src/Daemon/Threads.antt =====
-- src/dnf2b/core/Daemon.cpp and Daemon.hpp: `run`, `wait` and `shutdown` as steps of the threads: the
-- monitor's and one for each pipeline. What a thread does between the test of isRunning and the wait, its
-- round, is one step: rounds of two threads do not overlap here, though the source shares the ban manager
-- without a lock. A round that throws ends the program, with the calls that it has made.
-- wait_for with a predicate tests it, blocks until it is woken or the time is over, and tests it again if
-- it was woken; it may be woken for no reason.
pub mod Calls
pub mod Left
pub mod Order
pub mod Stopping
pub mod Waking
use doesnotfail2ban.Prelude.{ℕ, suc, String, ◌≡◌, refl, Bool, true, false, not, some, List, [], ◌∷◌}
use doesnotfail2ban.Prelude.Int.{ℤ}
use doesnotfail2ban.Prelude.Maps.{Map, lookup, insert, map_values}
use doesnotfail2ban.Prelude.Results.{Result, ok, throw}
use doesnotfail2ban.Structs.{Message}
use doesnotfail2ban.Pcre.{Pcre}
use doesnotfail2ban.MessageBuffer.{Pton}
use doesnotfail2ban.BanManager.Whitelist.{Asio}
use doesnotfail2ban.BanManager.{BanManager, check_unbans_and_cleanup, load_rebans}
use doesnotfail2ban.BanManager.Invariant.{IsValid}
use doesnotfail2ban.Daemon.{Pipeline, handle_poll}
use doesnotfail2ban.Daemon.Running.{
  DaemonState, polled, Reachable, starts, rebans, unbans, polls, Reachable-IsValid,
}

-- Where a thread is: before its loop, at the loop's test, in the body, at the test in `wait`, past that
-- test, blocked, or at its end.
pub data Phase : Type 0 where
  starting at_head in_round checking blocking blocked ended : Phase

-- A step of a thread that touches nothing but isRunning.
pub data Moves (running : Bool) : Phase → Phase → Type 0 where
  enters : running ≡ true → Moves running at_head in_round
  ends : running ≡ false → Moves running at_head ended
  waits : running ≡ true → Moves running checking blocking
  returns : running ≡ false → Moves running checking at_head
  blocks : Moves running blocking blocked
  times_out : Moves running blocked at_head
  wakes : Moves running blocked checking

abbrev pub woken : Phase → Phase
woken blocked = checking
woken starting = starting
woken at_head = at_head
woken in_round = in_round
woken checking = checking
woken blocking = blocking
woken ended = ended

-- The threads that `run` starts, one for each pipeline.
abbrev pub start_threads {ℓ} : {A : Type ℓ} → Map A → Map Phase
start_threads [] = []
start_threads ((file, pipeline) ∷ rest) = (file, at_head) ∷ start_threads rest

abbrev pub is_starting : Phase → Bool
is_starting starting = true
is_starting at_head = false
is_starting in_round = false
is_starting checking = false
is_starting blocking = false
is_starting blocked = false
is_starting ended = false

pub Moves-started :
    {running : Bool} {phase next : Phase}
    → Moves running phase next
    → (is_starting phase ≡ false) × (is_starting next ≡ false)
Moves-started (enters e) = (refl, refl)
Moves-started (ends e) = (refl, refl)
Moves-started (waits e) = (refl, refl)
Moves-started (returns e) = (refl, refl)
Moves-started blocks = (refl, refl)
Moves-started times_out = (refl, refl)
Moves-started wakes = (refl, refl)

pub woken-started : (phase : Phase) → is_starting (woken phase) ≡ is_starting phase
woken-started starting = refl
woken-started at_head = refl
woken-started in_round = refl
woken-started checking = refl
woken-started blocking = refl
woken-started blocked = refl
woken-started ended = refl

abbrev pub threw : Result (Unit {0}) → Bool
threw (ok done) = false
threw (throw e) = true

module _ (inet_pton : Bool → String → Pton) (pcre : Pcre) (ipow : ℤ → ℕ → ℤ) (asio : Asio) where
  -- `has_crashed`: an exception has left a thread, which ends the program.
  pub record System : Type 0 where
    pub is_running : Bool
    pub has_crashed : Bool
    pub monitor : Phase
    pub pollers : Map Phase
    pub state : DaemonState inet_pton pcre ipow asio

  -- Daemon::run
  unfoldable pub launch : DaemonState inet_pton pcre ipow asio → System
  launch state = record {
    is_running = true;
    has_crashed = false;
    monitor = starting;
    pollers = start_threads state.0;
    state = state;
  }

  -- The monitor's first step: man.loadRebans().
  abbrev pub reissue : ℤ → System → System
  reissue now s = record s { monitor = at_head; state = (s.state.0, load_rebans now s.state.1) }

  -- The state after a round of the thread of a file, and whether the round threw.
  abbrev pub handled : (String → ℤ) → String → Pipeline pcre.Code → List Message → System → System
  handled clock file pipeline messages s = record s {
    has_crashed = threw (handle_poll inet_pton pcre ipow clock pipeline messages s.state.1).0;
    pollers = insert file checking s.pollers;
    state = polled inet_pton pcre ipow asio clock file pipeline messages s.state;
  }

  -- A step of one of the threads.
  pub data ThreadStep (s : System) : System → Type 0 where
    reloads : (now : ℤ) → s.monitor ≡ starting → ThreadStep s (reissue now s)
    cleans :
        (now : ℤ)
        → s.monitor ≡ in_round
        → ThreadStep s (record s {
          monitor = checking;
          state = (s.state.0, check_unbans_and_cleanup now s.state.1);
        })
    monitor_moves :
        (next : Phase)
        → Moves s.is_running s.monitor next
        → ThreadStep s (record s { monitor = next })
    handles :
        (clock : String → ℤ) (file : String) (pipeline : Pipeline pcre.Code)
        (messages : List Message)
        → lookup file s.pollers ≡ some in_round
        → lookup file s.state.0 ≡ some pipeline
        → ThreadStep s (handled clock file pipeline messages s)
    poller_moves :
        (file : String) (phase next : Phase)
        → lookup file s.pollers ≡ some phase
        → Moves s.is_running phase next
        → ThreadStep s (record s { pollers = insert file next s.pollers })

  -- Daemon::shutdown, up to the join: the flag, and then notify_all.
  unfoldable pub stop : System → System
  stop s = record s { is_running = false }

  unfoldable pub notify_all : System → System
  notify_all s = record s { monitor = woken s.monitor; pollers = map_values woken s.pollers }

  -- The systems that are reached, and after how many steps of the threads. After a crash there is none.
  pub data Run (start : System) : ℕ → System → Type 0 where
    begins : Run start 0 start
    steps :
        {n : ℕ} {s t : System}
        → Run start n s
        → s.has_crashed ≡ false
        → ThreadStep s t
        → Run start (suc n) t
    stops : {n : ℕ} {s : System} → Run start n s → s.has_crashed ≡ false → Run start n (stop s)
    notifies :
        {n : ℕ} {s : System}
        → Run start n s
        → s.has_crashed ≡ false
        → s.is_running ≡ false
        → Run start n (notify_all s)

  -- What the threads do to the daemon's state are polls and rounds of the monitor.
  pub Run-Reachable :
      {start s : System} {n : ℕ}
      → Run start n s
      → Reachable inet_pton pcre ipow asio start.state s.state
  unfolding stop notify_all
  Run-Reachable begins = starts
  Run-Reachable (steps r up (reloads now e)) = rebans now (Run-Reachable r)
  Run-Reachable (steps r up (cleans now e)) = unbans now (Run-Reachable r)
  Run-Reachable (steps r up (monitor_moves next e)) = Run-Reachable r
  Run-Reachable (steps r up (handles clock file pipeline messages e f)) =
      polls clock file pipeline messages f (Run-Reachable r)
  Run-Reachable (steps r up (poller_moves file phase next e h)) = Run-Reachable r
  Run-Reachable (stops r up) = Run-Reachable r
  Run-Reachable (notifies r up e) = Run-Reachable r
