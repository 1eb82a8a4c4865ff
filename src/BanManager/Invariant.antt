-- ===== src/BanManager/Invariant.antt =====
-- src/dnf2b/data/BanManager.cpp: the invariant of the manager, which its three operations keep.
use doesnotfail2ban.Prelude.{
  ℕ, String, ◌≡◌, refl, inl, inr, Option, some, List, [], ◌∷◌, ◌++◌, arith, length, Bool-cases,
  Option-cases,
}
use doesnotfail2ban.Prelude.Int.{ℤ}
use doesnotfail2ban.Prelude.Maps.{
  Map, lookup, contains, IsMap, insert-IsMap, erase-IsMap, AllEntries, AllEntries-insert,
  AllEntries-erase, AllEntries-lookup,
}
use doesnotfail2ban.Structs.{IpInfo, BanLocationInfo, Message}
use doesnotfail2ban.Bouncers.{BouncerCall, ban}
use doesnotfail2ban.Watcher.{Watcher}
use doesnotfail2ban.BanDb.{
  update_ip, wipe_fails_for, get_pending_unbans, get_banned_minus_pending_unbans,
}
use doesnotfail2ban.BanDb.Rows.{
  IsConsistent, update_ip-IsConsistent, unban_all-IsConsistent, wipe_fails_for-IsConsistent,
}
use doesnotfail2ban.BanDb.Unbans.{HasDurations}
use doesnotfail2ban.BanManager.Whitelist.{Asio}
use doesnotfail2ban.BanManager.{
  BanManager, get_ip_info, record_ban, cache_fails, log_one, log, call_loaded, load_rebans,
  check_unbans_and_cleanup, eqb,
}
use doesnotfail2ban.BanManager.Rounds.{log_one_cases, failed, log_induction}
use doesnotfail2ban.BanManager.Durations.{
  IsBan, IsInfo, ban_duration-IsDuration, load_ip-IsInfo, put_bans-durations, unban_all-durations,
}

pub record IsValid {asio : Asio} (m : BanManager asio) : Type 0 where
  pub consistent : IsConsistent m.db
  pub durations : HasDurations m.db
  pub sorted : IsMap m.fail_cache
  pub cached : AllEntries IsInfo m.fail_cache

module _ {asio : Asio} where
  cached-IsInfo :
      (ip : String) (info : IpInfo) (m : BanManager asio)
      → IsValid m
      → lookup ip m.fail_cache ≡ some info
      → IsInfo ip info
  cached-IsInfo ip info m h e = AllEntries-lookup IsInfo ip info m.fail_cache h.cached e

  pub get_ip_info-IsInfo :
      (ip : String) (m : BanManager asio) → IsValid m → IsInfo ip (get_ip_info ip m)
  unfolding get_ip_info
  get_ip_info-IsInfo ip m h = elim (Option-cases (lookup ip m.fail_cache)) [
    | inl e ↦ rw e (load_ip-IsInfo ip m.db h.durations)
    | inr (info, e) ↦ rw e (cached-IsInfo ip info m h e)
  ]

  pub cache_fails-IsValid :
      (ip : String) (info : IpInfo) (m : BanManager asio)
      → IsInfo ip info
      → IsValid m
      → IsValid (cache_fails ip info m)
  unfolding cache_fails
  cache_fails-IsValid ip info m i h = record {
    consistent = update_ip-IsConsistent info m.db h.consistent;
    durations =
        unfold update_ip in
        put_bans-durations info.ip info.curr_bans m.db.ban_registry i.durations h.durations;
    sorted = insert-IsMap ip info m.fail_cache h.sorted;
    cached = AllEntries-insert IsInfo ip info m.fail_cache i h.cached;
  }

module _ {asio : Asio} where
  IsValid-calls :
      (m : BanManager asio) (calls : List BouncerCall)
      → IsValid m
      → IsValid (record m { calls = calls })
  IsValid-calls m calls h = record {
    consistent = h.consistent;
    durations = h.durations;
    sorted = h.sorted;
    cached = h.cached;
  }

pub with_fails-IsInfo :
    {ip : String} {info : IpInfo} (fails : List ℤ)
    → IsInfo ip info
    → IsInfo ip (record info { curr_fails = fails })
with_fails-IsInfo fails i = record { named = i.named; sorted = i.sorted; durations = i.durations }

module _ (ipow : ℤ → ℕ → ℤ) {asio : Asio} {Code : Type 0} (source : Watcher Code) where
  pub record_ban-IsValid :
      (now : ℤ) (ip : String) (info : IpInfo) (m : BanManager asio)
      → IsInfo ip info
      → IsValid m
      → IsValid (record_ban ipow now source info m)
  unfolding record_ban
  record_ban-IsValid now ip info m i h = record {
    consistent = update_ip-IsConsistent _ _ (wipe_fails_for-IsConsistent info.ip m.db h.consistent);
    durations =
        unfold update_ip wipe_fails_for in
        put_bans-durations info.ip _ m.db.ban_registry
          (AllEntries-insert IsBan source.bouncer _ info.curr_bans
            (ban_duration-IsDuration ipow m.control info.ban_count) i.durations)
          h.durations;
    sorted = erase-IsMap info.ip m.fail_cache h.sorted;
    cached = AllEntries-erase IsInfo info.ip m.fail_cache h.cached;
  }

  pub log_one-IsValid :
      (now : ℤ) (ip : String) (messages : List Message) (m : BanManager asio)
      → IsValid m
      → IsValid (log_one ipow now source ip messages m).1
  log_one-IsValid now ip messages m h =
      let info : IpInfo = failed ipow source now ip messages m in
      let i : IsInfo ip info = with_fails-IsInfo _ (get_ip_info-IsInfo ip m h) in
      elim (log_one_cases ipow source now ip messages m) [
        | inl e ↦ rw e h
        | inr (inl (e, _)) ↦ rw e (IsValid-calls m _ h)
        | inr (inr (inl (e, _, _))) ↦
            rw e (record_ban-IsValid now ip info _ i (IsValid-calls m _ h))
        | inr (inr (inr (e, _, _))) ↦ rw e (cache_fails-IsValid ip info m i h)
      ]

  -- From a valid state log reaches a valid state, whether it returns or throws: the database meets its
  -- UNIQUE constraints, every duration in it is NULL or from 0, and what the cache holds under an address
  -- carries that address, and its bans are in order of their bouncers and have such durations too.
  pub log-IsValid :
      (clock : String → ℤ) (caught : Map (List Message)) (m : BanManager asio)
      → IsValid m
      → IsValid (log ipow clock source caught m).1
  log-IsValid = log_induction ipow source IsValid log_one-IsValid

module _ {asio : Asio} where
  call_loaded-IsValid :
      (call : String → String → Option ℕ → BouncerCall) (bans : List BanLocationInfo)
      (m : BanManager asio)
      → IsValid m
      → IsValid (call_loaded call bans m)
  unfolding call_loaded
  call_loaded-IsValid call [] m h = h
  call_loaded-IsValid call (b ∷ bs) m h = elim (Bool-cases (contains b.bouncer m.bouncers)) [
    | inl t ↦ rw t (call_loaded-IsValid call bs _ (IsValid-calls m _ h))
    | inr f ↦ rw f (call_loaded-IsValid call bs m h)
  ]

  call_loaded-frame :
      (call : String → String → Option ℕ → BouncerCall) (bans : List BanLocationInfo)
      (m : BanManager asio)
      → ((call_loaded call bans m).db ≡ m.db) × ((call_loaded call bans m).bouncers ≡ m.bouncers)
  unfolding call_loaded
  call_loaded-frame call [] m = (refl, refl)
  call_loaded-frame call (b ∷ bs) m = ground (
    arith,
    call_loaded-frame call bs m,
    call_loaded-frame call bs (record m { calls = m.calls ++ call b.bouncer b.ip b.port ∷ [] }),
  )

  pub load_rebans-IsValid :
      (now : ℤ) (m : BanManager asio) → IsValid m → IsValid (load_rebans now m)
  unfolding load_rebans
  load_rebans-IsValid now m h =
      let v = call_loaded-IsValid ban (get_banned_minus_pending_unbans now m.db) m h in
      record {
        consistent = v.consistent;
        durations = v.durations;
        sorted = v.sorted;
        cached = v.cached;
      }

  -- From a valid state checkUnbansAndCleanup reaches a valid state, at any time.
  pub check_unbans_and_cleanup-IsValid :
      (now : ℤ) (m : BanManager asio) → IsValid m → IsValid (check_unbans_and_cleanup now m)
  unfolding check_unbans_and_cleanup
  check_unbans_and_cleanup-IsValid now m h =
      let pending = get_pending_unbans now m.db in
      let v = call_loaded-IsValid BouncerCall.unban pending m h in
      elim (Bool-cases (eqb (length pending) 0)) [
        | inl t ↦ rw t h
        | inr f ↦ rw f (record {
          consistent = unban_all-IsConsistent pending _ v.consistent;
          durations = unban_all-durations pending _ v.durations;
          sorted = v.sorted;
          cached = v.cached;
        })
      ]
