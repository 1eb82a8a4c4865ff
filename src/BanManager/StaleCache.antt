-- ===== src/BanManager/StaleCache.antt =====
-- src/dnf2b/data/BanManager.cpp: the cache of fails keeps bans that the database has lost since.
use doesnotfail2ban.Prelude.{
  eq_iff, ◌∙◌, eq_refl, ℕ, ◌<◌, String, ◌≡◌, refl, true, false, none, some, List, [], ◌∷◌, ◌++◌,
  arith, length,
}
use doesnotfail2ban.Prelude.Int.{ℤ, ◌+ℤ◌, ◌≤ℤ◌}
use doesnotfail2ban.Prelude.Maps.{AllEntries-lookup, lookup, contains, lookup-insert}
use doesnotfail2ban.Prelude.Results.{ok}
use doesnotfail2ban.Structs.{BanInfo, IpInfo, Message}
use doesnotfail2ban.Bouncers.{ban}
use doesnotfail2ban.Watcher.{Watcher}
use doesnotfail2ban.BanDb.{is_banned, update_ip}
use doesnotfail2ban.BanDb.Rows.{row_of, row_of-put_bans}
use doesnotfail2ban.BanDb.Loading.{lookup-load_ip}
use doesnotfail2ban.BanManager.Cleanup.{check_unbans_and_cleanup_lem}
use doesnotfail2ban.BanManager.Whitelist.{Asio, is_whitelisted}
use doesnotfail2ban.BanManager.{
  BanManager, cache_fails, get_ip_info, reaches_threshold, log_one, check_unbans_and_cleanup,
  cache_fails,
}
use doesnotfail2ban.BanManager.Rounds.{failed}
use doesnotfail2ban.BanManager.Invariant.{
  IsValid, with_fails-IsInfo, get_ip_info-IsInfo, cache_fails-IsValid,
}
use doesnotfail2ban.BanManager.Durations.{IsInfo, IsBan}
use doesnotfail2ban.BanManager.Ban.{IsCaught, log_one-eq-cache_fails}
use doesnotfail2ban.BanManager.Standing.{is_banned-check_unbans_and_cleanup, not-is_pending}

-- An address that a bouncer has banned, and whose information has been cached since, is caught again
-- after the ban has ended: the bouncer is called, and nothing is recorded.
module _ (ipow : ℤ → ℕ → ℤ) {asio : Asio} {Code : Type 0} (source : Watcher Code) where
  log_one-stale :
      (now : ℤ) (ip : String) (messages : List Message) (m : BanManager asio)
      → 0 < length messages
      → is_whitelisted asio m.whitelist ip ≡ ok false
      → contains source.bouncer m.bouncers ≡ true
      → contains source.bouncer (get_ip_info ip m).curr_bans ≡ true
      → log_one ipow now source ip messages m
        ≡ (ok tt, record m { calls = m.calls ++ ban source.bouncer ip source.port ∷ [] })
  unfolding log_one
  log_one-stale now ip messages m c w l b = ground arith

module _ (ipow : ℤ → ℕ → ℤ) {asio : Asio} {Code : Type 0} (other source : Watcher Code) where
  module _ (ip : String) (m : BanManager asio) (b : BanInfo) (v : IsValid m) where
    known :
        lookup ip m.fail_cache ≡ none
        → row_of ip source.bouncer m.db.ban_registry ≡ some b
        → lookup source.bouncer (get_ip_info ip m).curr_bans ≡ some b
    unfolding get_ip_info
    known e row = ground (arith, e, lookup-load_ip ip source.bouncer m.db v.consistent)

    module _ (info : IpInfo) (i : IsInfo ip info)
        (k : lookup source.bouncer info.curr_bans ≡ some b) where
      still_cached :
          (later : ℤ)
          → contains source.bouncer
              (get_ip_info ip (check_unbans_and_cleanup later (cache_fails ip info m))).curr_bans
            ≡ true
      unfolding get_ip_info cache_fails
      still_cached later =
          rw
            (
              check_unbans_and_cleanup_lem later (cache_fails ip info m),
              lookup-insert ip ip info m.fail_cache,
              eq_refl ip,
              k,
            )
            refl

      row_of-cache_fails : row_of ip source.bouncer (cache_fails ip info m).db.ban_registry ≡ some b
      unfolding cache_fails update_ip
      row_of-cache_fails = ground (
        arith,
        row_of-put_bans info.ip ip source.bouncer info.curr_bans m.db.ban_registry i.sorted,
        eq_iff info.ip ip,
        i.named,
      )

  -- The bans of an address outlive their rows. In a valid state `source`'s loaded bouncer has banned an
  -- address for a number of seconds, and the cache does not have the address. It is not whitelisted, and a
  -- watcher whose loaded bouncer has not banned it sees it fail below its threshold;
  -- checkUnbansAndCleanup runs at or after the end of the ban; then `source` catches the address again.
  -- That last run of log calls ban and writes nothing to the database, where the address is not banned.
  pub log_one-stale_ban :
      (ip : String) (messages messages' : List Message) (m : BanManager asio) (b : BanInfo)
      (first later last d : ℤ)
      → IsCaught ipow other first ip messages m
      → reaches_threshold (length (failed ipow other first ip messages m).curr_fails) other.limit
        ≡ false
      → lookup ip m.fail_cache ≡ none
      → row_of ip source.bouncer m.db.ban_registry ≡ some b
      → b.ban_duration ≡ some d
      → b.ban_started +ℤ d ≤ℤ later
      → 0 < length messages'
      → contains source.bouncer m.bouncers ≡ true
      → (log_one ipow last source ip messages'
            (check_unbans_and_cleanup later (log_one ipow first other ip messages m).1)
          ≡ (
            ok tt,
            record (check_unbans_and_cleanup later (log_one ipow first other ip messages m).1) {
              calls =
                  (check_unbans_and_cleanup later (log_one ipow first other ip messages m).1).calls
                  ++ ban source.bouncer ip source.port ∷ [];
            },
          ))
        × (is_banned ip source.bouncer
              (check_unbans_and_cleanup later (log_one ipow first other ip messages m).1).db
            ≡ false)
  log_one-stale_ban ip ms ms' m b first later last d c r e row dur ended caught loaded =
      let info : IpInfo = failed ipow other first ip ms m in
      let i : IsInfo ip info = with_fails-IsInfo _ (get_ip_info-IsInfo ip m c.valid) in
      let k = known ip m b c.valid e row in
      let m1 : BanManager asio = cache_fails ip info m in
      rw (log_one-eq-cache_fails ipow other first ip ms m c r) (
        log_one-stale ipow source last ip ms' (check_unbans_and_cleanup later m1) caught
            (rw (check_unbans_and_cleanup_lem later m1) (unfold cache_fails in c.listed))
            (rw (check_unbans_and_cleanup_lem later m1) (unfold cache_fails in loaded))
            (still_cached ip m b c.valid info i k later),
        is_banned-check_unbans_and_cleanup later ip source.bouncer m1
              (cache_fails-IsValid ip info m i c.valid)
            ∙ rw (row_of-cache_fails ip m b c.valid info i k) (
                not-is_pending later ip source.bouncer b
                  (AllEntries-lookup IsBan source.bouncer b info.curr_bans i.durations k)
                ∙ rw dur (ground arith)),
      )
