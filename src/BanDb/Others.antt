-- ===== src/BanDb/Others.antt =====
-- src/dnf2b/data/BanDB.cpp: updateIp and wipeFailsFor leave what is known of other addresses.
use doesnotfail2ban.Prelude.{
  String, ◌≡◌, refl, ◌∙◌, false, not, List, [], ◌∷◌, ◌==◌, eq_iff, arith, keep,
}
use doesnotfail2ban.Prelude.Int.{ℤ}
use doesnotfail2ban.Prelude.Maps.{Map, insert}
use doesnotfail2ban.Structs.{BanInfo, IpInfo}
use doesnotfail2ban.BanDb.{
  FailRow, BanRow, BanDb, ban_info, ban_row, load_bans, load_fails, load_ip, put_fail, put_fails,
  put_ban, put_bans, update_ip, wipe_fails_for,
}
use doesnotfail2ban.BanDb.Loading.{load_ban_count-put_ip}

module _ (i : String) where
  load_fails-put_fail :
      (r : FailRow) (rows : List FailRow)
      → (r.ip == i) ≡ false
      → load_fails i (put_fail r rows) ≡ load_fails i rows
  unfolding load_fails put_fail
  load_fails-put_fail r [] e = ground arith
  load_fails-put_fail r (q ∷ rows) e =
      ground (arith, load_fails-put_fail r rows, eq_iff q.ip r.ip, eq_iff q.ip i, eq_iff r.ip i)

  load_fails-put_fails :
      (ip : String) (ts : List ℤ) (rows : List FailRow)
      → (ip == i) ≡ false
      → load_fails i (put_fails ip ts rows) ≡ load_fails i rows
  unfolding put_fails
  load_fails-put_fails ip [] rows e = refl
  load_fails-put_fails ip (t ∷ ts) rows e =
      load_fails-put_fails ip ts (put_fail (record { ip = ip; time = t }) rows) e
      ∙ load_fails-put_fail (record { ip = ip; time = t }) rows e

  load_bans-put_ban :
      (r : BanRow) (rows : List BanRow) (bans : Map BanInfo)
      → (r.ip == i) ≡ false
      → load_bans i (put_ban r rows) bans ≡ load_bans i rows bans
  unfolding load_bans put_ban
  load_bans-put_ban r [] bans e = ground arith
  load_bans-put_ban r (q ∷ rows) bans e = ground (
    arith,
    load_bans-put_ban r rows bans,
    load_bans-put_ban r rows (insert q.bouncer (ban_info q) bans),
    eq_iff q.ip r.ip,
    eq_iff q.ip i,
    eq_iff r.ip i,
  )

  load_bans-put_bans :
      (ip : String) (new : Map BanInfo) (rows : List BanRow)
      → (ip == i) ≡ false
      → load_bans i (put_bans ip new rows) [] ≡ load_bans i rows []
  unfolding put_bans
  load_bans-put_bans ip [] rows e = refl
  load_bans-put_bans ip ((bouncer, b) ∷ new) rows e =
      load_bans-put_bans ip new (put_ban (ban_row ip bouncer b) rows) e
      ∙ load_bans-put_ban (ban_row ip bouncer b) rows [] e

  load_fails-wipe :
      (ip : String) (rows : List FailRow)
      → (ip == i) ≡ false
      → load_fails i (keep (λ r. not (r.ip == ip)) rows) ≡ load_fails i rows
  unfolding load_fails
  load_fails-wipe ip [] e = refl
  load_fails-wipe ip (q ∷ rows) e =
      ground (arith, load_fails-wipe ip rows, eq_iff q.ip ip, eq_iff q.ip i, eq_iff ip i)

  -- What loadIp returns for an address is not changed by updateIp for another one.
  pub load_ip-update_ip_other :
      (source : IpInfo) (db : BanDb)
      → (source.ip == i) ≡ false
      → load_ip i (update_ip source db) ≡ load_ip i db
  unfolding load_ip update_ip
  load_ip-update_ip_other source db e =
      rw
        (
          load_fails-put_fails source.ip source.curr_fails db.fail_registry e,
          load_bans-put_bans source.ip source.curr_bans db.ban_registry e,
          load_ban_count-put_ip i (record { ip = source.ip; ban_count = source.ban_count })
              db.ip_registry,
          e,
        )
        refl

  -- Nor by wipeFailsFor.
  pub load_ip-wipe_fails_for_other :
      (ip : String) (db : BanDb)
      → (ip == i) ≡ false
      → load_ip i (wipe_fails_for ip db) ≡ load_ip i db
  unfolding load_ip wipe_fails_for
  load_ip-wipe_fails_for_other ip db e = rw (load_fails-wipe ip db.fail_registry e) refl
