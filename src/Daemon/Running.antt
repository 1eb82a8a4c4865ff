-- ===== src/Daemon/Running.antt =====
-- src/dnf2b/core/Daemon.cpp: the threads of the pipelines and the unban monitor, as steps in any order. A
-- step is one poll, or one round of the monitor, and runs alone.
use doesnotfail2ban.Prelude.{ℕ, String, Bool, ◌≡◌, List, [], ◌∷◌, length, eqb, Bool-cases, inl, inr}
use doesnotfail2ban.Prelude.Int.{ℤ}
use doesnotfail2ban.Prelude.Maps.{Map, lookup, insert}
use doesnotfail2ban.Prelude.Results.{Result, ok, throw, and_then_induction}
use doesnotfail2ban.Structs.{Message}
use doesnotfail2ban.Pcre.{Pcre}
use doesnotfail2ban.MessageBuffer.{MessageBuffer, Pton, Caught}
use doesnotfail2ban.Watcher.{Watcher, process}
use doesnotfail2ban.BanManager.Whitelist.{Asio}
use doesnotfail2ban.BanManager.{BanManager, check_unbans_and_cleanup, load_rebans}
use doesnotfail2ban.BanManager.Invariant.{
  IsValid, log-IsValid, load_rebans-IsValid, check_unbans_and_cleanup-IsValid,
}
use doesnotfail2ban.Daemon.{
  Pipeline, log_result, run_watchers, handle_poll, filtered_messages, some,
}

module _ (inet_pton : Bool → String → Pton) (pcre : Pcre) (ipow : ℤ → ℕ → ℤ) (asio : Asio) where
  log_result-IsValid :
      (clock : String → ℤ) (w : Watcher pcre.Code) (s : MessageBuffer × BanManager asio)
      (r : Result (MessageBuffer × Caught))
      → IsValid s.1
      → IsValid (log_result inet_pton pcre ipow clock w s r).1.1
  unfolding log_result
  log_result-IsValid clock w s (throw e) h = h
  log_result-IsValid clock w s (ok (buff, caught)) h = log-IsValid ipow w clock caught s.1 h

  run_watchers-IsValid :
      (clock : String → ℤ) (multiprocess : Bool) (ws : List (Watcher pcre.Code))
      (messages : List Message) (s : MessageBuffer × BanManager asio)
      → IsValid s.1
      → IsValid (run_watchers inet_pton pcre ipow clock multiprocess ws messages s).1.1
  unfolding run_watchers
  run_watchers-IsValid clock multiprocess [] messages s h = h
  run_watchers-IsValid clock multiprocess (w ∷ ws) messages s h =
      and_then_induction (λ (t : MessageBuffer × BanManager asio). IsValid t.1)
        (log_result inet_pton pcre ipow clock w s (
          process inet_pton pcre w (filtered_messages multiprocess w.multi_process_id messages)
            s.0))
        (run_watchers inet_pton pcre ipow clock multiprocess ws messages)
        (log_result-IsValid clock w s _ h)
        (λ t k. run_watchers-IsValid clock multiprocess ws messages t k)

  handle_poll-IsValid :
      (clock : String → ℤ) (pipeline : Pipeline pcre.Code) (messages : List Message)
      (man : BanManager asio)
      → IsValid man
      → IsValid (handle_poll inet_pton pcre ipow clock pipeline messages man).1.1
  unfolding handle_poll
  handle_poll-IsValid clock pipeline messages man h = elim (Bool-cases (eqb (length messages) 0)) [
    | inl t ↦ rw t h
    | inr f ↦ rw f (
        run_watchers-IsValid clock pipeline.parser.multiprocess pipeline.watchers messages
          (pipeline.buff, man) h)
  ]

  abbrev pub DaemonState : Type 0
  DaemonState = Map (Pipeline pcre.Code) × BanManager asio

  -- The state after a poll of the pipeline of a file.
  abbrev pub polled :
      (String → ℤ) → String → Pipeline pcre.Code → List Message → DaemonState → DaemonState
  polled clock file pipeline messages s =
      let done = (handle_poll inet_pton pcre ipow clock pipeline messages s.1).1 in
      (insert file done.0 s.0, done.1)

  -- The states that the daemon reaches from one.
  pub data Reachable (start : DaemonState) : DaemonState → Type 0 where
    starts : Reachable start start
    rebans :
        {s : DaemonState} (now : ℤ) → Reachable start s → Reachable start (s.0, load_rebans now s.1)
    unbans :
        {s : DaemonState} (now : ℤ)
        → Reachable start s
        → Reachable start (s.0, check_unbans_and_cleanup now s.1)
    polls :
        {s : DaemonState} (clock : String → ℤ) (file : String) (pipeline : Pipeline pcre.Code)
        (messages : List Message)
        → lookup file s.0 ≡ some pipeline
        → Reachable start s
        → Reachable start (polled clock file pipeline messages s)

  -- Whatever the order of the polls and of the rounds of the unban monitor, and whatever messages the
  -- polls bring, the ban manager stays valid.
  pub Reachable-IsValid :
      {start s : DaemonState} → Reachable start s → IsValid start.1 → IsValid s.1
  Reachable-IsValid starts h = h
  Reachable-IsValid (rebans {s} now r) h = load_rebans-IsValid now s.1 (Reachable-IsValid r h)
  Reachable-IsValid (unbans {s} now r) h =
      check_unbans_and_cleanup-IsValid now s.1 (Reachable-IsValid r h)
  Reachable-IsValid (polls {s} clock file pipeline messages e r) h =
      handle_poll-IsValid clock pipeline messages s.1 (Reachable-IsValid r h)
