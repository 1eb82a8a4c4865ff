-- ===== src/Daemon/Polls/Reaching.antt =====
-- src/dnf2b/core/Daemon.cpp: the poll in which an address reaches the limit.
use doesnotfail2ban.Prelude.{
  ℕ, ◌+◌, String, ◌≡◌, ◌≢◌, sym, subst, ◌∙◌, Bool, false, List, [], ◌∷◌, ◌++◌, arith, length, All,
}
use doesnotfail2ban.Prelude.Int.{ℤ, pos, ◌≤ℤ◌}
use doesnotfail2ban.Prelude.Results.{Result, ok, Returns, and_then, and_then-ok}
use doesnotfail2ban.Structs.{Message}
use doesnotfail2ban.Pcre.{Pcre}
use doesnotfail2ban.Filter.{Filter}
use doesnotfail2ban.Filter.Matching.{GroupsSet}
use doesnotfail2ban.MessageBuffer.{Pton, bad_domain, create}
use doesnotfail2ban.MessageBuffer.Caught.{IsAddress}
use doesnotfail2ban.Watcher.{Watcher}
use doesnotfail2ban.BanManager.Whitelist.{Asio, is_whitelisted}
use doesnotfail2ban.BanManager.{BanManager, get_ip_info}
use doesnotfail2ban.BanManager.Safety.{Grows, Grows-trans}
use doesnotfail2ban.BanManager.Counting.{IsWatched, IsBelow, IsOther}
use doesnotfail2ban.BanManager.Due.{IsDue, Bans}
use doesnotfail2ban.Daemon.{Pipeline, handle_poll}
use doesnotfail2ban.Daemon.Banning.{reported_messages, handle_poll-Bans}
use doesnotfail2ban.Daemon.Polls.{
  Poll, run_polls, counted, counted-append, ArePolled, none-ArePolled, handle_poll-ArePolled,
}

module _ (inet_pton : Bool → String → Pton) (pcre : Pcre) (ipow : ℤ → ℕ → ℤ) {asio : Asio}
    (known : (v6 : Bool) (ip : String) → inet_pton v6 ip ≢ bad_domain) (w : Watcher pcre.Code)
    (groups : All (λ (f : Filter pcre.Code). All (GroupsSet pcre) f.patterns) w.filters)
    (ip : String) (pipeline : Pipeline pcre.Code) (one : pipeline.watchers ≡ w ∷ [])
    (clear : pipeline.buff ≡ create false) where
  ArePolled-trans :
      (n k : ℕ) (polls : List Poll) (man : BanManager asio)
      (first : Result (Unit {0}) × (Pipeline pcre.Code × BanManager asio))
      → ArePolled w ip n pipeline man first
      → ArePolled w ip k pipeline first.1.1 (run_polls inet_pton pcre ipow pipeline polls first.1.1)
      → ArePolled w ip
          (n + k)
          pipeline
          man
          (and_then first (λ s. run_polls inet_pton pcre ipow s.0 polls s.1))
  ArePolled-trans n k polls man first p q =
      let rest : Pipeline pcre.Code → Result (Unit {0}) × (Pipeline pcre.Code × BanManager asio) =
        λ line. run_polls inet_pton pcre ipow line polls first.1.1 in
      rw (and_then-ok first (λ s. run_polls inet_pton pcre ipow s.0 polls s.1) p.ended) (
        subst (λ line. ArePolled w ip (n + k) pipeline man (rest line)) (sym p.unchanged)
          (record {
            ended = q.ended;
            unchanged = q.unchanged;
            watched = q.watched;
            whitelist = q.whitelist ∙ p.whitelist;
            fails = omega (arith, p.fails, q.fails);
            calls = Grows-trans p.calls q.calls;
          }))

  run_polls-ArePolled :
      (polls : List Poll) (man : BanManager asio)
      → ((k : String) → IsAddress inet_pton k → Returns (is_whitelisted asio man.whitelist k))
      → IsWatched w ip man
      → IsBelow w ip (counted inet_pton pcre pipeline w ip polls) man
      → ArePolled w ip
          (counted inet_pton pcre pipeline w ip polls)
          pipeline
          man
          (run_polls inet_pton pcre ipow pipeline polls man)
  unfolding run_polls
  run_polls-ArePolled [] man answers h b =
      none-ArePolled inet_pton pcre ipow known w groups ip pipeline one clear man h
  run_polls-ArePolled ((clock, messages) ∷ polls) man answers h b =
      let n = length (reported_messages inet_pton pcre pipeline w ip messages) in
      let first = handle_poll inet_pton pcre ipow clock pipeline messages man in
      let p : ArePolled w ip n pipeline man first =
        handle_poll-ArePolled inet_pton pcre ipow known w groups ip pipeline one clear clock
          messages man answers h (omega (arith, b)) in
      let man' : BanManager asio = first.1.1 in
      ArePolled-trans n (counted inet_pton pcre pipeline w ip polls) polls man first p (
        run_polls-ArePolled polls man'
          (λ k a.
            subst (λ list. Returns (is_whitelisted asio list k)) (sym p.whitelist) (answers k a))
          p.watched (omega (arith, b, p.fails)))

  -- From log lines to the ban, over any number of polls. On a pipeline with one watcher, whose buffer is
  -- disabled, if inet_pton knows both address families, every group of the filters' patterns takes part
  -- in each match, and isWhitelisted answers for every address that inet_pton accepts: in a valid state,
  -- an address is not whitelisted, and the watcher's bouncer, which is loaded, has not banned it. The
  -- fails known of it and the messages that the filters report under it in some polls are fewer than the
  -- watcher's limit; with those of one more poll they are as many as the limit. Then the first polls end
  -- without a call of ban for it on that bouncer with the watcher's port, and the next one ends, has made
  -- that call, and leaves in the database the ban from the time of its round on, with the duration for
  -- its number of bans before.
  pub run_polls-Bans :
      (polls : List Poll) (clock : String → ℤ) (last : List Message) (man : BanManager asio)
      → ((k : String) → IsAddress inet_pton k → Returns (is_whitelisted asio man.whitelist k))
      → IsWatched w ip man
      → IsBelow w ip (counted inet_pton pcre pipeline w ip polls) man
      → w.limit
        ≤ℤ pos (
            length (get_ip_info ip man).curr_fails
            + counted inet_pton pcre pipeline w ip (polls ++ (clock, last) ∷ []))
      → let before = run_polls inet_pton pcre ipow pipeline polls man in
        let after = handle_poll inet_pton pcre ipow clock before.1.0 last before.1.1 in
        (before.0 ≡ ok tt)
        × Grows (IsOther w ip) man.calls before.1.1.calls
        × Bans ipow w clock ip before.1.1 (after.0, after.1.1)
  run_polls-Bans polls clock last man answers h b reached =
      let n = counted inet_pton pcre pipeline w ip polls in
      let messages = reported_messages inet_pton pcre pipeline w ip last in
      let p = run_polls-ArePolled polls man answers h b in
      let man' : BanManager asio = (run_polls inet_pton pcre ipow pipeline polls man).1.1 in
      let total = counted-append inet_pton pcre pipeline w ip polls clock last in
      let due : IsDue ipow w clock ip messages man' = record {
        caught = record {
          valid = p.watched.valid;
          caught = omega (arith, b, reached, total);
          listed = p.watched.listed;
          loaded = p.watched.loaded;
          free = p.watched.free;
        };
        reached = omega (arith, p.fails, reached, total);
      } in
      (
        p.ended,
        p.calls,
        subst
            (λ line.
              let after = handle_poll inet_pton pcre ipow clock line last man' in
              Bans ipow w clock ip man' (after.0, after.1.1))
            (sym p.unchanged)
            (handle_poll-Bans inet_pton pcre ipow clock known man'
              (λ k a.
                subst (λ list. Returns (is_whitelisted asio list k)) (sym p.whitelist)
                  (answers k a))
              pipeline w last ip groups one clear due).0,
      )
