-- ===== src/BanManager/Ban.antt =====
-- src/dnf2b/data/BanManager.cpp: what `log` does to an address that reaches the threshold, to one that
-- does not, and how long the ban lasts.
use doesnotfail2ban.Prelude.{
  ◌||◌, ℕ, ◌+◌, ◌<◌, String, ◌≡◌, refl, subst, ◌∙◌, true, false, not, none, some, List, [], ◌∷◌,
  ◌++◌, arith, length, keep, eq_iff, eq_refl, ◌==◌,
}
use doesnotfail2ban.Prelude.Int.{ℤ, ◌+ℤ◌, ltb_ℤ}
use doesnotfail2ban.Prelude.Maps.{lookup, contains, lookup-insert, lookup-erase, insert-IsMap}
use doesnotfail2ban.Prelude.Results.{ok}
use doesnotfail2ban.Structs.{BanInfo, IpInfo, Message}
use doesnotfail2ban.Bouncers.{ban}
use doesnotfail2ban.Watcher.{Watcher}
use doesnotfail2ban.BanDb.{
  is_banned, load_ban_count, load_fails, load_ip, update_ip, wipe_fails_for,
}
use doesnotfail2ban.BanDb.Rows.{row_of, row_of-put_bans}
use doesnotfail2ban.BanDb.Loading.{load_ip-update_ip, has_fail, load_ban_count-put_ip}
use doesnotfail2ban.BanManager.Whitelist.{Asio, is_whitelisted}
use doesnotfail2ban.BanManager.{
  BanManager, get_ip_info, ban_duration, reaches_threshold, record_ban, cache_fails, log_one,
  check_unbans_and_cleanup, insert,
}
use doesnotfail2ban.BanManager.Rounds.{failed, with_call}
use doesnotfail2ban.BanManager.Invariant.{
  IsValid, get_ip_info-IsInfo, log_one-IsValid, with_fails-IsInfo,
}
use doesnotfail2ban.BanManager.Durations.{IsInfo, ban_duration-IsDuration}
use doesnotfail2ban.BanManager.Standing.{
  is_banned-check_unbans_and_cleanup, load_fails-wiped, not-is_pending,
}

module _ (ipow : ℤ → ℕ → ℤ) {asio : Asio} {Code : Type 0} (source : Watcher Code) where
  module _ (now : ℤ) (ip : String) (info : IpInfo) (m : BanManager asio) (i : IsInfo ip info) where
    abbrev new_ban : BanInfo
    new_ban = record {
      ban_started = now;
      ban_duration = ban_duration ipow m.control info.ban_count;
      port = none;
    }

    row_of-record_ban :
        row_of ip source.bouncer (record_ban ipow now source info m).db.ban_registry ≡ some new_ban
    unfolding record_ban update_ip wipe_fails_for
    row_of-record_ban = ground (
      arith,
      row_of-put_bans info.ip ip source.bouncer (insert source.bouncer new_ban info.curr_bans)
          m.db.ban_registry (insert-IsMap source.bouncer new_ban info.curr_bans i.sorted),
      lookup-insert source.bouncer source.bouncer new_ban info.curr_bans,
      eq_refl source.bouncer,
      eq_iff info.ip ip,
      i.named,
    )

    fails-record_ban : load_fails ip (record_ban ipow now source info m).db.fail_registry ≡ []
    unfolding record_ban update_ip wipe_fails_for
    fails-record_ban =
        subst (λ j. load_fails j (keep (λ r. not (r.ip == info.ip)) m.db.fail_registry) ≡ [])
          i.named (load_fails-wiped info.ip m.db.fail_registry)

    count-record_ban :
        load_ban_count ip (record_ban ipow now source info m).db.ip_registry ≡ info.ban_count + 1
    unfolding record_ban update_ip wipe_fails_for
    count-record_ban = ground (
      arith,
      load_ban_count-put_ip ip (record { ip = info.ip; ban_count = info.ban_count + 1 })
          m.db.ip_registry,
      eq_iff info.ip ip,
      i.named,
    )

    cache-record_ban : lookup ip (record_ban ipow now source info m).fail_cache ≡ none
    unfolding record_ban
    cache-record_ban =
        ground (arith, lookup-erase info.ip ip m.fail_cache, eq_iff info.ip ip, i.named)

  -- An address is caught at `now` and is not whitelisted, its bouncer is loaded and has not banned it.
  pub record IsCaught (now : ℤ) (ip : String) (messages : List Message) (m : BanManager asio)
      : Type 0 where
    pub valid : IsValid m
    pub caught : 0 < length messages
    pub listed : is_whitelisted asio m.whitelist ip ≡ ok false
    pub loaded : contains source.bouncer m.bouncers ≡ true
    pub free : contains source.bouncer (get_ip_info ip m).curr_bans ≡ false

  module _ (now : ℤ) (ip : String) (messages : List Message) (m : BanManager asio) where
    log_one-eq-record_ban :
        IsCaught now ip messages m
        → reaches_threshold (length (failed ipow source now ip messages m).curr_fails) source.limit
          ≡ true
        → log_one ipow now source ip messages m ≡ (
          ok tt,
          record_ban ipow now source
              (failed ipow source now ip messages m)
              (with_call ipow source ip m),
        )
    unfolding log_one
    log_one-eq-record_ban c r = ground arith

    pub log_one-eq-cache_fails :
        IsCaught now ip messages m
        → reaches_threshold (length (failed ipow source now ip messages m).curr_fails) source.limit
          ≡ false
        → log_one ipow now source ip messages m
          ≡ (ok tt, cache_fails ip (failed ipow source now ip messages m) m)
    unfolding log_one
    log_one-eq-cache_fails c r = ground arith

    -- In a valid state, an address is caught that is not whitelisted, and that the watcher's bouncer,
    -- which is loaded, has not banned; with the new fails it reaches the threshold. Then log calls ban
    -- once, on that bouncer with the watcher's port, and the database holds a ban of the address by the
    -- bouncer from that time on, with the duration for its number of bans so far, and no fail of the
    -- address; the number of its bans is one higher, and it is gone from the cache.
    pub log_one-bans :
        IsCaught now ip messages m
        → reaches_threshold (length (failed ipow source now ip messages m).curr_fails) source.limit
          ≡ true
        → ((log_one ipow now source ip messages m).0 ≡ ok tt)
          × ((log_one ipow now source ip messages m).1.calls
              ≡ m.calls ++ ban source.bouncer ip source.port ∷ [])
          × (row_of ip source.bouncer (log_one ipow now source ip messages m).1.db.ban_registry
              ≡ some (record {
                ban_started = now;
                ban_duration = ban_duration ipow m.control (get_ip_info ip m).ban_count;
                port = none;
              }))
          × (load_fails ip (log_one ipow now source ip messages m).1.db.fail_registry ≡ [])
          × (load_ban_count ip (log_one ipow now source ip messages m).1.db.ip_registry
              ≡ (get_ip_info ip m).ban_count + 1)
          × (lookup ip (log_one ipow now source ip messages m).1.fail_cache ≡ none)
    log_one-bans c r =
        let info : IpInfo = failed ipow source now ip messages m in
        let i : IsInfo ip info = with_fails-IsInfo _ (get_ip_info-IsInfo ip m c.valid) in
        let m' : BanManager asio = with_call ipow source ip m in
        rw (log_one-eq-record_ban c r) (
          refl,
          unfold record_ban in refl,
          row_of-record_ban now ip info m' i,
          fails-record_ban now ip info m' i,
          count-record_ban now ip info m' i,
          cache-record_ban now ip info m' i,
        )

    -- The ban lasts for its duration. In a valid state, an address is caught that is not whitelisted, and
    -- that the watcher's bouncer, which is loaded, has not banned; with the new fails it reaches the
    -- threshold. When checkUnbansAndCleanup runs after that, at any time, the address is banned exactly if
    -- the duration is NULL or the time is before the end of the ban.
    pub log_one-ban_lasts :
        (later : ℤ)
        → IsCaught now ip messages m
        → reaches_threshold (length (failed ipow source now ip messages m).curr_fails) source.limit
          ≡ true
        → is_banned ip source.bouncer
            (check_unbans_and_cleanup later (log_one ipow now source ip messages m).1).db
          ≡ elim (ban_duration ipow m.control (get_ip_info ip m).ban_count) [
            | none ↦ true
            | some d ↦ ltb_ℤ later (now +ℤ d)
          ]
    log_one-ban_lasts later c r =
        let after : BanManager asio = (log_one ipow now source ip messages m).1 in
        let b : BanInfo = record {
          ban_started = now;
          ban_duration = ban_duration ipow m.control (get_ip_info ip m).ban_count;
          port = none;
        } in
        is_banned-check_unbans_and_cleanup later ip source.bouncer after
          (log_one-IsValid ipow source now ip messages m c.valid)
        ∙ rw (log_one-bans c r).2 (
            not-is_pending later ip source.bouncer b
              (ban_duration-IsDuration ipow m.control (get_ip_info ip m).ban_count))

    -- In a valid state, an address is caught that is not whitelisted, and that the watcher's bouncer,
    -- which is loaded, has not banned; with the new fails it stays below the threshold. Then log calls no
    -- bouncer, and what is known of the address next time is what was known, with one fail at that time
    -- for each message caught. The database has a fail of the address at a time exactly if these have one
    -- or it had one before, and the bans it has of another address are what they were.
    pub log_one-caches :
        (t : ℤ) (j bouncer : String)
        → (ip == j) ≡ false
        → IsCaught now ip messages m
        → reaches_threshold (length (failed ipow source now ip messages m).curr_fails) source.limit
          ≡ false
        → ((log_one ipow now source ip messages m).0 ≡ ok tt)
          × ((log_one ipow now source ip messages m).1.calls ≡ m.calls)
          × (get_ip_info ip (log_one ipow now source ip messages m).1
              ≡ failed ipow source now ip messages m)
          × (has_fail t (load_ip ip (log_one ipow now source ip messages m).1.db).curr_fails ≡ (
              has_fail t (failed ipow source now ip messages m).curr_fails
              || has_fail t (load_ip ip m.db).curr_fails))
          × (lookup bouncer (load_ip j (log_one ipow now source ip messages m).1.db).curr_bans
              ≡ lookup bouncer (load_ip j m.db).curr_bans)
    log_one-caches t j bouncer e c r =
        let info : IpInfo = failed ipow source now ip messages m in
        let i : IsInfo ip info = with_fails-IsInfo _ (get_ip_info-IsInfo ip m c.valid) in
        rw (log_one-eq-cache_fails c r) (
          refl,
          unfold cache_fails in refl,
          unfold cache_fails get_ip_info in
              rw (lookup-insert ip ip info m.fail_cache, eq_refl ip) refl,
          unfold cache_fails in
              ground (
                arith,
                (load_ip-update_ip info ip m.db c.valid.consistent i.sorted).1 t,
                eq_iff info.ip ip,
                i.named,
              ),
          unfold cache_fails in
              ground (
                arith,
                (load_ip-update_ip info j m.db c.valid.consistent i.sorted).2 bouncer,
                eq_iff info.ip j,
                eq_iff ip j,
                i.named,
              ),
        )
