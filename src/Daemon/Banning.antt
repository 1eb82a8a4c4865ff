-- ===== src/Daemon/Banning.antt =====
-- src/dnf2b/core/Daemon.cpp: from the messages of a poll to the ban, through the parts in between.
use doesnotfail2ban.Prelude.{
  ℕ, ◌<◌, String, ◌≡◌, ◌≢◌, refl, sym, ap, subst, ◌∙◌, Bool, false, Option, some, List, [], ◌∷◌,
  arith, length, All, Bool-cases, inl, inr, value_or, eqb, Option-cases,
}
use doesnotfail2ban.Prelude.Int.{ℤ}
use doesnotfail2ban.Prelude.Maps.{
  lookup, AllEntries, AllEntries-mono, AllEntries-both, entries_found,
}
use doesnotfail2ban.Prelude.Results.{ok, Returns, Ensures, and_then-ok, and_then-stop}
use doesnotfail2ban.Structs.{Message}
use doesnotfail2ban.Pcre.{Pcre}
use doesnotfail2ban.Filter.{Filter}
use doesnotfail2ban.Filter.Matching.{GroupsSet}
use doesnotfail2ban.MessageBuffer.{MessageBuffer, Pton, bad_domain, Caught, create, messages_of}
use doesnotfail2ban.MessageBuffer.Caught.{IsAddress, IsCaughtAt}
use doesnotfail2ban.Watcher.{Watcher, process}
use doesnotfail2ban.Watcher.Merging.{process-caught}
use doesnotfail2ban.Watcher.Disabled.{reported_by_all, process-disabled}
use doesnotfail2ban.BanManager.Whitelist.{Asio, is_whitelisted}
use doesnotfail2ban.BanManager.{BanManager, log}
use doesnotfail2ban.BanManager.Safety.{Grows, same}
use doesnotfail2ban.BanManager.Causes.{IsCaused, log-IsCaused}
use doesnotfail2ban.BanManager.Due.{IsDue, Bans, log-Bans}
use doesnotfail2ban.Daemon.{Pipeline, log_result, run_watchers, handle_poll, filtered_messages}

lookup_of_messages :
    (ip : String) (ms : List Message) (caught : Caught)
    → messages_of ip caught ≡ ms
    → 0 < length ms
    → lookup ip caught ≡ some ms
lookup_of_messages ip ms caught e h = elim (Option-cases (lookup ip caught)) [
  | inl n ↦ absurd (ground (arith, rw n at e))
  | inr (found, f) ↦ f ∙ ap (λ x. some x) (rw f at e)
]

module _ (inet_pton : Bool → String → Pton) (pcre : Pcre) where
  -- The messages that the filters of a watcher report under an address, of those that a poll brought.
  abbrev pub reported_messages :
      Pipeline pcre.Code → Watcher pcre.Code → String → List Message → List Message
  reported_messages pipeline w ip messages =
      reported_by_all inet_pton pcre w.filters ip
        (filtered_messages pipeline.parser.multiprocess w.multi_process_id messages)

  reported_by_all-nil :
      (fs : List (Filter pcre.Code)) (ip : String) → reported_by_all inet_pton pcre fs ip [] ≡ []
  reported_by_all-nil [] ip = refl
  reported_by_all-nil (f ∷ fs) ip = reported_by_all-nil fs ip

  filtered_messages-nil :
      (multiprocess : Bool) (process_id : Option String)
      → filtered_messages multiprocess process_id [] ≡ []
  unfolding filtered_messages
  filtered_messages-nil multiprocess process_id = ground arith

  -- Of no message none is reported.
  pub reported_messages-nil :
      (pipeline : Pipeline pcre.Code) (w : Watcher pcre.Code) (ip : String)
      → reported_messages pipeline w ip [] ≡ []
  reported_messages-nil pipeline w ip =
      rw (filtered_messages-nil pipeline.parser.multiprocess w.multi_process_id)
        (reported_by_all-nil w.filters ip)

  some_message :
      (pipeline : Pipeline pcre.Code) (w : Watcher pcre.Code) (ip : String)
      (messages : List Message)
      → 0 < length (reported_messages pipeline w ip messages)
      → eqb (length messages) 0 ≡ false
  some_message pipeline w ip [] h =
      absurd (ground (arith, subst (λ ms. 0 < length ms) (reported_messages-nil pipeline w ip) h))
  some_message pipeline w ip (msg ∷ messages) h = ground arith

  pub caught_at :
      ((v6 : Bool) (ip : String) → inet_pton v6 ip ≢ bad_domain)
      → (w : Watcher pcre.Code) (messages : List Message) (caught : Caught)
      → All (λ (f : Filter pcre.Code). All (GroupsSet pcre) f.patterns) w.filters
      → process inet_pton pcre w messages (create false) ≡ ok (create false, caught)
      → AllEntries (IsCaughtAt inet_pton) caught
  caught_at known w messages caught g e =
      let (r, made, _, at) = process-caught inet_pton pcre known w messages (create false) g in
      subst (λ x. Ensures (λ (s : MessageBuffer × Caught). AllEntries (IsCaughtAt inet_pton) s.1) x)
        (sym made ∙ e) at

  module _ (ipow : ℤ → ℕ → ℤ) {asio : Asio} (clock : String → ℤ) (man : BanManager asio) where
    pub run_watchers-one :
        (multiprocess : Bool) (w : Watcher pcre.Code) (messages : List Message) (caught : Caught)
        → process inet_pton pcre w
            (filtered_messages multiprocess w.multi_process_id messages)
            (create false)
          ≡ ok (create false, caught)
        → (log ipow clock w caught man).0 ≡ ok tt
        → run_watchers inet_pton pcre ipow clock multiprocess (w ∷ []) messages (create false, man)
          ≡ (ok tt, (create false, (log ipow clock w caught man).1))
    unfolding run_watchers log_result
    run_watchers-one multiprocess w messages caught e done = rw e (
        and_then-ok
          ((log ipow clock w caught man).0, (create false, (log ipow clock w caught man).1))
          (run_watchers inet_pton pcre ipow clock multiprocess [] messages) done)

    run_watchers-state :
        (multiprocess : Bool) (w : Watcher pcre.Code) (messages : List Message) (caught : Caught)
        → process inet_pton pcre w
            (filtered_messages multiprocess w.multi_process_id messages)
            (create false)
          ≡ ok (create false, caught)
        → (run_watchers inet_pton pcre ipow clock multiprocess
            (w ∷ [])
            messages
            (create false, man)).1.1
          ≡ (log ipow clock w caught man).1
    unfolding run_watchers log_result
    run_watchers-state multiprocess w messages caught e =
        rw e (ap (λ (s : MessageBuffer × BanManager asio). s.1) (and_then-stop _ _ (λ s. refl)))

  module _ (ipow : ℤ → ℕ → ℤ) {asio : Asio} (clock : String → ℤ)
      (known : (v6 : Bool) (ip : String) → inet_pton v6 ip ≢ bad_domain) (man : BanManager asio)
      (answers : (ip : String)
        → IsAddress inet_pton ip
        → Returns (is_whitelisted asio man.whitelist ip)) where
    -- From log lines to the ban. On a pipeline with one watcher, whose buffer is disabled, if inet_pton
    -- knows both address families, every group of the filters' patterns takes part in each match, and
    -- isWhitelisted answers for every address that inet_pton accepts: suppose that, in a valid state, the
    -- filters report messages of a poll under an address that is not whitelisted and that the watcher's
    -- bouncer, which is loaded, has not banned, and that they and the fails known of it are as many as the
    -- watcher's limit. Then the poll ends, ban has been called for the address on that bouncer with the
    -- watcher's port, the database holds the ban from the time of its round on, with the duration for its
    -- number of bans before, and the buffer is empty for the next poll.
    pub handle_poll-Bans :
        (pipeline : Pipeline pcre.Code) (w : Watcher pcre.Code) (messages : List Message)
        (ip : String)
        → All (λ (f : Filter pcre.Code). All (GroupsSet pcre) f.patterns) w.filters
        → pipeline.watchers ≡ w ∷ []
        → pipeline.buff ≡ create false
        → IsDue ipow w clock ip (reported_messages pipeline w ip messages) man
        → let done = handle_poll inet_pton pcre ipow clock pipeline messages man in
          Bans ipow w clock ip man (done.0, done.1.1) × (done.1.0.buff ≡ create false)
    unfolding handle_poll
    handle_poll-Bans pipeline w messages ip g one clear due =
        let polled = filtered_messages pipeline.parser.multiprocess w.multi_process_id messages in
        let (caught, e, s, all) = process-disabled inet_pton pcre known w polled g in
        let bans =
          log-Bans ipow w clock ip (reported_messages pipeline w ip messages) caught man s
            (lookup_of_messages ip _ caught (all ip) due.caught.caught)
            (AllEntries-mono (IsCaughtAt inet_pton) _ (λ k ms c. answers k (c.0, c.1)) caught
              (caught_at known w polled caught g e))
            due in
        rw
          (
            some_message pipeline w ip messages due.caught.caught,
            one,
            clear,
            run_watchers-one ipow clock man pipeline.parser.multiprocess w messages caught e bans.0,
          )
          ((refl, bans.1, bans.2), refl)

    -- On a pipeline with one watcher, whose buffer is disabled, if inet_pton knows both address families,
    -- every group of the filters' patterns takes part in each match, and isWhitelisted answers for every
    -- address that inet_pton accepts: every bouncer call that a poll adds, whether it ends or throws, is a
    -- ban on the watcher's bouncer, which is loaded, with its port, of an address that is not whitelisted
    -- and under which the filters report at least one of the poll's messages.
    pub handle_poll-IsCaused :
        (pipeline : Pipeline pcre.Code) (w : Watcher pcre.Code) (messages : List Message)
        → All (λ (f : Filter pcre.Code). All (GroupsSet pcre) f.patterns) w.filters
        → pipeline.watchers ≡ w ∷ []
        → pipeline.buff ≡ create false
        → Grows
            (IsCaused ipow w (λ ip. 0 < length (reported_messages pipeline w ip messages)) man)
            man.calls
            (handle_poll inet_pton pcre ipow clock pipeline messages man).1.1.calls
    unfolding handle_poll
    handle_poll-IsCaused pipeline w messages g one clear =
        let polled = filtered_messages pipeline.parser.multiprocess w.multi_process_id messages in
        let (caught, e, s, all) = process-disabled inet_pton pcre known w polled g in
        elim (Bool-cases (eqb (length messages) 0)) [
          | inl t ↦ rw t same
          | inr f ↦
              rw
                (
                  f,
                  one,
                  clear,
                  run_watchers-state ipow clock man pipeline.parser.multiprocess w messages caught
                      e,
                )
                (log-IsCaused ipow w _ man clock caught man
                  (record { bouncers = refl; whitelist = refl; control = refl; reloaded = refl })
                  (AllEntries-mono _ _
                    (λ ip ms (c, found).
                      subst (λ r. 0 < length r) (sym (ap (λ o. value_or o []) found) ∙ all ip) c.2)
                    caught
                    (AllEntries-both (IsCaughtAt inet_pton) _ caught
                      (caught_at known w polled caught g e) (entries_found caught s))))
        ]
