-- ===== src/Daemon/Calls.antt =====
-- src/dnf2b/core/Daemon.cpp: which calls of bouncers a poll makes, and a round of the monitor.
use mathlib.Core.List.{Mem, mem-cons_self, mem-cons_of_mem}
use doesnotfail2ban.Prelude.{
  ℕ, String, ◌≡◌, refl, Bool, true, false, List, [], ◌∷◌, ◌++◌, inl, inr, length, eqb, Option,
  Bool-cases,
}
use doesnotfail2ban.Prelude.Int.{ℤ}
use doesnotfail2ban.Prelude.Maps.{contains}
use doesnotfail2ban.Prelude.Results.{Result, ok, throw, and_then_induction}
use doesnotfail2ban.Structs.{BanLocationInfo, Message}
use doesnotfail2ban.Bouncers.{BouncerCall, unban}
use doesnotfail2ban.Pcre.{Pcre}
use doesnotfail2ban.MessageBuffer.{MessageBuffer, Pton, Caught}
use doesnotfail2ban.Watcher.{Watcher, process}
use doesnotfail2ban.BanDb.{get_pending_unbans}
use doesnotfail2ban.BanManager.Whitelist.{Asio}
use doesnotfail2ban.BanManager.{BanManager, call_loaded, check_unbans_and_cleanup}
use doesnotfail2ban.BanManager.Safety.{
  Grows, same, more, Grows-trans, SameSetup, SameSetup-trans, IsRightful, Grows-SameSetup,
  log-Grows,
}
use doesnotfail2ban.Daemon.{Pipeline, log_result, run_watchers, handle_poll, filtered_messages}

pub Grows-mono :
    {P Q : BouncerCall → Type 0} {xs ys : List BouncerCall}
    → ((c : BouncerCall) → P c → Q c)
    → Grows P xs ys
    → Grows Q xs ys
Grows-mono f same = same
Grows-mono f (more c g p) = more c (Grows-mono f g) (f c p)

pub same_setup : {asio : Asio} (m : BanManager asio) → SameSetup m m
same_setup m = record { bouncers = refl; whitelist = refl; control = refl; reloaded = refl }

abbrev pub IsUnban : BouncerCall → Type 0
IsUnban c = (bouncer : String) × (ip : String) × (port : Option ℕ) × (c ≡ unban bouncer ip port)

module _ {asio : Asio} where
  abbrev with_unban : Bool → BanLocationInfo → BanManager asio → BanManager asio
  with_unban false b m = m
  with_unban true b m = record m { calls = m.calls ++ unban b.bouncer b.ip b.port ∷ [] }

  with_unban-IsUnban :
      (loaded : Bool) (b : BanLocationInfo) (m : BanManager asio)
      → Grows IsUnban m.calls (with_unban loaded b m).calls × SameSetup m (with_unban loaded b m)
  with_unban-IsUnban false b m = (same, same_setup m)
  with_unban-IsUnban true b m = (
    more _ same (b.bouncer, b.ip, b.port, refl),
    record { bouncers = refl; whitelist = refl; control = refl; reloaded = refl },
  )

  call_loaded-unban :
      (b : BanLocationInfo) (bs : List BanLocationInfo) (m : BanManager asio)
      → call_loaded unban (b ∷ bs) m
        ≡ call_loaded unban bs (with_unban (contains b.bouncer m.bouncers) b m)
  unfolding call_loaded
  call_loaded-unban b bs m = elim (Bool-cases (contains b.bouncer m.bouncers)) [
    | inl t ↦ rw t refl
    | inr f ↦ rw f refl
  ]

  call_loaded-IsUnban :
      (bans : List BanLocationInfo) (m : BanManager asio)
      → Grows IsUnban m.calls (call_loaded unban bans m).calls
        × SameSetup m (call_loaded unban bans m)
  call_loaded-IsUnban [] m = unfold call_loaded in (same, same_setup m)
  call_loaded-IsUnban (b ∷ bs) m =
      let m' : BanManager asio = with_unban (contains b.bouncer m.bouncers) b m in
      let (g, s) = call_loaded-IsUnban bs m' in
      let (g', s') = with_unban-IsUnban (contains b.bouncer m.bouncers) b m in
      rw (call_loaded-unban b bs m) (Grows-trans g' g, SameSetup-trans s' s)

  pub check_unbans_and_cleanup-IsUnban :
      (now : ℤ) (m : BanManager asio)
      → Grows IsUnban m.calls (check_unbans_and_cleanup now m).calls
        × SameSetup m (check_unbans_and_cleanup now m)
  unfolding check_unbans_and_cleanup
  check_unbans_and_cleanup-IsUnban now m =
      let pending = get_pending_unbans now m.db in
      let (g, s) = call_loaded-IsUnban pending m in
      elim (Bool-cases (eqb (length pending) 0)) [
        | inl t ↦ rw t (same, same_setup m)
        | inr f ↦ rw f (
          g,
          record {
            bouncers = s.bouncers;
            whitelist = s.whitelist;
            control = s.control;
            reloaded = s.reloaded;
          },
        )
      ]

module _ (inet_pton : Bool → String → Pton) (pcre : Pcre) (ipow : ℤ → ℕ → ℤ) (asio : Asio) where
  -- A call that one of these watchers may make.
  abbrev pub IsRightfulOf : List (Watcher pcre.Code) → BanManager asio → BouncerCall → Type 0
  IsRightfulOf ws m c = (w : Watcher pcre.Code) × Mem w ws × IsRightful ipow w m c

  abbrev pub Rightly :
      List (Watcher pcre.Code) → BanManager asio → BanManager asio → BanManager asio → Type 0
  Rightly ws start m m' = Grows (IsRightfulOf ws start) m.calls m'.calls × SameSetup start m'

  module _ (start : BanManager asio) (clock : String → ℤ) where
    log_result-Rightly :
        (w : Watcher pcre.Code) (ws : List (Watcher pcre.Code))
        (s : MessageBuffer × BanManager asio) (r : Result (MessageBuffer × Caught))
        → Mem w ws
        → SameSetup start s.1
        → Rightly ws start s.1 (log_result inet_pton pcre ipow clock w s r).1.1
    unfolding log_result
    log_result-Rightly w ws s (throw e) i h = (same, h)
    log_result-Rightly w ws s (ok (buff, caught)) i h =
        let (g, t) = log-Grows ipow w clock caught s.1 in
        (Grows-mono (λ c r. (w, i, r)) (Grows-SameSetup ipow w start s.1 h g), SameSetup-trans h t)

    run_watchers-Rightly :
        (multiprocess : Bool) (ws all : List (Watcher pcre.Code)) (messages : List Message)
        (s : MessageBuffer × BanManager asio)
        → ((w : Watcher pcre.Code) → Mem w ws → Mem w all)
        → SameSetup start s.1
        → Rightly all start s.1
            (run_watchers inet_pton pcre ipow clock multiprocess ws messages s).1.1
    unfolding run_watchers
    run_watchers-Rightly multiprocess [] all messages s i h = (same, h)
    run_watchers-Rightly multiprocess (w ∷ ws) all messages s i h =
        and_then_induction (λ (t : MessageBuffer × BanManager asio). Rightly all start s.1 t.1)
          (log_result inet_pton pcre ipow clock w s (
            process inet_pton pcre w (filtered_messages multiprocess w.multi_process_id messages)
              s.0))
          (run_watchers inet_pton pcre ipow clock multiprocess ws messages)
          (log_result-Rightly w all s _ (i w mem-cons_self) h)
          (λ t (g, k).
            let (g', k') =
              run_watchers-Rightly multiprocess ws all messages t (λ v j. i v (mem-cons_of_mem w j))
                k in
            (Grows-trans g g', k'))

    pub handle_poll-Rightly :
        (pipeline : Pipeline pcre.Code) (messages : List Message) (man : BanManager asio)
        → SameSetup start man
        → Rightly pipeline.watchers start man
            (handle_poll inet_pton pcre ipow clock pipeline messages man).1.1
          × ((handle_poll inet_pton pcre ipow clock pipeline messages man).1.0.watchers
              ≡ pipeline.watchers)
    unfolding handle_poll
    handle_poll-Rightly pipeline messages man h = elim (Bool-cases (eqb (length messages) 0)) [
      | inl t ↦ rw t ((same, h), refl)
      | inr f ↦ rw f (
        run_watchers-Rightly pipeline.parser.multiprocess pipeline.watchers pipeline.watchers
            messages (pipeline.buff, man) (λ w i. i) h,
        refl,
      )
    ]
