-- ===== src/Daemon/Polls.antt =====
-- src/dnf2b/core/Daemon.cpp: the polls of a pipeline one after the other, and in which of them an address is
-- banned.
pub mod Reaching
use doesnotfail2ban.Prelude.{
  ℕ, ◌+◌, ◌<◌, String, ◌≡◌, ◌≢◌, refl, sym, ap, subst, ◌∙◌, Bool, true, false, List, [], ◌∷◌, ◌++◌,
  arith, length, All, Bool-cases, inl, inr, eqb, length-append, length-replicate, replicate,
}
use doesnotfail2ban.Prelude.Int.{ℤ, pos, ◌≤ℤ◌}
use doesnotfail2ban.Prelude.Maps.{AllEntries, AllEntries-mono}
use doesnotfail2ban.Prelude.Results.{Result, ok, Returns, and_then, and_then-ok}
use doesnotfail2ban.Structs.{IpInfo, Message}
use doesnotfail2ban.Pcre.{Pcre}
use doesnotfail2ban.Filter.{Filter}
use doesnotfail2ban.Filter.Matching.{GroupsSet}
use doesnotfail2ban.MessageBuffer.{MessageBuffer, Pton, bad_domain, Caught, create}
use doesnotfail2ban.MessageBuffer.Caught.{IsAddress, IsCaughtAt}
use doesnotfail2ban.Watcher.{Watcher, process}
use doesnotfail2ban.Watcher.Disabled.{process-disabled}
use doesnotfail2ban.BanManager.Whitelist.{Asio, is_whitelisted}
use doesnotfail2ban.BanManager.{BanManager, get_ip_info, log}
use doesnotfail2ban.BanManager.Invariant.{IsValid, log-IsValid}
use doesnotfail2ban.BanManager.Safety.{SameSetup, Grows, same, Grows-trans, log-Grows}
use doesnotfail2ban.BanManager.Counting.Runs.{log-IsCounted}
use doesnotfail2ban.BanManager.Counting.{IsWatched, IsBelow, IsOther, IsCounted, with_more}
use doesnotfail2ban.BanManager.Due.{IsDue, AllAnswered, Bans}
use doesnotfail2ban.Daemon.{Pipeline, run_watchers, handle_poll, filtered_messages}
use doesnotfail2ban.Daemon.Banning.{
  reported_messages, reported_messages-nil, caught_at, run_watchers-one, handle_poll-Bans,
}

-- The clock in the rounds of a poll, and the messages that it brings.
abbrev pub Poll : Type 0
Poll = (String → ℤ) × List Message

module _ {Code : Type 0} {asio : Asio} (w : Watcher Code) (ip : String) where
  -- The polls have ended, and of the address they have counted so many fails and done nothing else.
  pub record ArePolled (n : ℕ) (pipeline : Pipeline Code) (man : BanManager asio)
      (done : Result (Unit {0}) × (Pipeline Code × BanManager asio)) : Type 0 where
    pub ended : done.0 ≡ ok tt
    pub unchanged : done.1.0 ≡ pipeline
    pub watched : IsWatched w ip done.1.1
    pub whitelist : done.1.1.whitelist ≡ man.whitelist
    pub fails :
        length (get_ip_info ip done.1.1).curr_fails ≡ length (get_ip_info ip man).curr_fails + n
    pub calls : Grows (IsOther w ip) man.calls done.1.1.calls

module _ (inet_pton : Bool → String → Pton) (pcre : Pcre) (ipow : ℤ → ℕ → ℤ) {asio : Asio} where
  -- Rounds of the thread of a pipeline.
  unfoldable pub run_polls :
      Pipeline pcre.Code
      → List Poll
      → BanManager asio
      → Result (Unit {0}) × (Pipeline pcre.Code × BanManager asio)
  unfolding handle_poll
  run_polls pipeline [] man = (ok tt, (pipeline, man))
  run_polls pipeline ((clock, messages) ∷ polls) man =
      and_then (handle_poll inet_pton pcre ipow clock pipeline messages man)
        (λ s. run_polls s.0 polls s.1)

module _ (inet_pton : Bool → String → Pton) (pcre : Pcre) where
  -- How many messages of the polls are reported under an address.
  abbrev pub counted : Pipeline pcre.Code → Watcher pcre.Code → String → List Poll → ℕ
  counted pipeline w ip [] = 0
  counted pipeline w ip ((clock, messages) ∷ polls) =
      length (reported_messages inet_pton pcre pipeline w ip messages) + counted pipeline w ip polls

  pub counted-append :
      (pipeline : Pipeline pcre.Code) (w : Watcher pcre.Code) (ip : String) (polls : List Poll)
      (clock : String → ℤ) (last : List Message)
      → counted pipeline w ip (polls ++ (clock, last) ∷ [])
        ≡ counted pipeline w ip polls + length (reported_messages inet_pton pcre pipeline w ip last)
  counted-append pipeline w ip [] clock last = omega arith
  counted-append pipeline w ip ((c, messages) ∷ polls) clock last =
      omega (arith, counted-append pipeline w ip polls clock last)

  module _ (ipow : ℤ → ℕ → ℤ) {asio : Asio}
      (known : (v6 : Bool) (ip : String) → inet_pton v6 ip ≢ bad_domain) (w : Watcher pcre.Code)
      (groups : All (λ (f : Filter pcre.Code). All (GroupsSet pcre) f.patterns) w.filters)
      (ip : String) where
    module _ (pipeline : Pipeline pcre.Code) (one : pipeline.watchers ≡ w ∷ [])
        (clear : pipeline.buff ≡ create false) where
      handle_poll-log :
          (clock : String → ℤ) (messages : List Message) (caught : Caught) (man : BanManager asio)
          → eqb (length messages) 0 ≡ false
          → process inet_pton pcre w
              (filtered_messages pipeline.parser.multiprocess w.multi_process_id messages)
              (create false)
            ≡ ok (create false, caught)
          → (log ipow clock w caught man).0 ≡ ok tt
          → handle_poll inet_pton pcre ipow clock pipeline messages man
            ≡ (ok tt, (pipeline, (log ipow clock w caught man).1))
      unfolding handle_poll
      handle_poll-log clock messages caught man f e done =
          let after : BanManager asio = (log ipow clock w caught man).1 in
          let ran : run_watchers inet_pton pcre ipow clock pipeline.parser.multiprocess
                pipeline.watchers messages (pipeline.buff, man)
              ≡ (ok tt, (create false, after)) =
            rw (one, clear)
              (run_watchers-one inet_pton pcre ipow clock man pipeline.parser.multiprocess w
                messages caught e done) in
          rw (f, ran)
            (ap (λ (b : MessageBuffer). (ok tt, (record pipeline { buff = b }, after))) (sym clear))

      handle_poll-none :
          (clock : String → ℤ) (messages : List Message) (man : BanManager asio)
          → eqb (length messages) 0 ≡ true
          → handle_poll inet_pton pcre ipow clock pipeline messages man ≡ (ok tt, (pipeline, man))
      unfolding handle_poll
      handle_poll-none clock messages man t = rw t refl

      pub none-ArePolled :
          (man : BanManager asio)
          → IsWatched w ip man
          → ArePolled w ip 0 pipeline man (ok tt, (pipeline, man))
      none-ArePolled man h = record {
        ended = refl;
        unchanged = refl;
        watched = h;
        whitelist = refl;
        fails = omega arith;
        calls = same;
      }

      log-ArePolled :
          (clock : String → ℤ) (n : ℕ) (caught : Caught) (man : BanManager asio)
          → IsWatched w ip man
          → IsCounted ipow w clock ip n man (log ipow clock w caught man)
          → ArePolled w ip n pipeline man (ok tt, (pipeline, (log ipow clock w caught man).1))
      log-ArePolled clock n caught man h c =
          let setup = (log-Grows ipow w clock caught man).1 in
          let fails = (get_ip_info ip man).curr_fails in
          record {
            ended = refl;
            unchanged = refl;
            watched = record {
              valid = log-IsValid ipow w clock caught man h.valid;
              listed = rw setup.whitelist h.listed;
              loaded = rw setup.bouncers h.loaded;
              free = rw c.info h.free;
            };
            whitelist = setup.whitelist;
            fails = rw c.info (
                omega (
                  arith,
                  length-append fails (replicate n (clock ip)),
                  length-replicate n (clock ip),
                ));
            calls = c.calls;
          }

      pub handle_poll-ArePolled :
          (clock : String → ℤ) (messages : List Message) (man : BanManager asio)
          → ((k : String) → IsAddress inet_pton k → Returns (is_whitelisted asio man.whitelist k))
          → IsWatched w ip man
          → IsBelow w ip (length (reported_messages inet_pton pcre pipeline w ip messages)) man
          → ArePolled w ip
              (length (reported_messages inet_pton pcre pipeline w ip messages))
              pipeline
              man
              (handle_poll inet_pton pcre ipow clock pipeline messages man)
      handle_poll-ArePolled clock [] man answers h b =
          subst
            (λ ms.
              ArePolled w ip (length ms) pipeline man
                (handle_poll inet_pton pcre ipow clock pipeline [] man))
            (sym (reported_messages-nil inet_pton pcre pipeline w ip))
            (rw (handle_poll-none clock [] man refl) (none-ArePolled man h))
      handle_poll-ArePolled clock (msg ∷ rest) man answers h b =
          let messages = msg ∷ rest in
          let polled = filtered_messages pipeline.parser.multiprocess w.multi_process_id messages in
          let (caught, e, s, all) = process-disabled inet_pton pcre known w polled groups in
          let c =
            log-IsCounted ipow w clock ip (reported_messages inet_pton pcre pipeline w ip messages)
              caught man s (all ip)
              (AllEntries-mono (IsCaughtAt inet_pton) _ (λ k ms at. answers k (at.0, at.1)) caught
                (caught_at inet_pton pcre known w polled caught groups e))
              h b in
          rw (handle_poll-log clock messages caught man (ground arith) e c.ended) (
            log-ArePolled clock (length (reported_messages inet_pton pcre pipeline w ip messages))
              caught man h c)
