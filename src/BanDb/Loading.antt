-- ===== src/BanDb/Loading.antt =====
-- src/dnf2b/data/BanDB.cpp: what loadIp returns after updateIp, and how isBanned answers.
use doesnotfail2ban.Prelude.{
  String, ◌≡◌, refl, ap, sym, ◌∙◌, Bool, true, false, ◌&&◌, ◌||◌, none, List, [], ◌∷◌, ◌==◌, eq_iff,
  arith, any, All, IsUnique, if◌then◌else◌, has_value,
}
use doesnotfail2ban.Prelude.Int.{ℤ, eqb_ℤ, eqb_ℤ_iff}
use doesnotfail2ban.Prelude.Maps.{Map, lookup, insert, contains, IsMap, lookup-insert, insert-IsMap}
use doesnotfail2ban.Structs.{BanInfo, IpInfo}
use doesnotfail2ban.BanDb.{
  IpRow, FailRow, BanRow, BanDb, bans_at, ban_info, load_bans, load_fails, load_ban_count, load_ip,
  put_ip, put_fail, put_fails, update_ip, is_banned,
}
use doesnotfail2ban.BanDb.Rows.{
  or_else, row_of, row_of-put_bans, is_banned-row_of, same_ban, IsConsistent,
  update_ip-IsConsistent,
}

pub load_bans-IsMap :
    (ip : String) (rows : List BanRow) (bans : Map BanInfo)
    → IsMap bans
    → IsMap (load_bans ip rows bans)
unfolding load_bans
load_bans-IsMap ip [] bans h = h
load_bans-IsMap ip (r ∷ rows) bans h = ground (
  arith,
  insert-IsMap r.bouncer (ban_info r) bans h,
  load_bans-IsMap ip rows (insert r.bouncer (ban_info r) bans),
  load_bans-IsMap ip rows bans,
)

pub row_of-none :
    (ip bouncer : String) (r : BanRow) (rows : List BanRow)
    → bans_at ip bouncer r ≡ true
    → All (λ q. same_ban r q ≡ false) rows
    → row_of ip bouncer rows ≡ none
unfolding row_of
row_of-none ip bouncer r [] m h = refl
row_of-none ip bouncer r (q ∷ rows) m h = ground (
  arith,
  row_of-none ip bouncer r rows m h.1,
  eq_iff r.ip ip,
  eq_iff r.bouncer bouncer,
  eq_iff q.ip ip,
  eq_iff q.bouncer bouncer,
  eq_iff r.ip q.ip,
  eq_iff r.bouncer q.bouncer,
)

pub lookup-load_bans :
    (ip bouncer : String) (rows : List BanRow) (bans : Map BanInfo)
    → IsUnique same_ban rows
    → lookup bouncer (load_bans ip rows bans)
      ≡ or_else (row_of ip bouncer rows) (lookup bouncer bans)
unfolding load_bans row_of
lookup-load_bans ip bouncer [] bans h = refl
lookup-load_bans ip bouncer (r ∷ rows) bans h = ground (
  arith,
  row_of-none ip bouncer r rows,
  lookup-load_bans ip bouncer rows (insert r.bouncer (ban_info r) bans) h.1,
  lookup-load_bans ip bouncer rows bans h.1,
  lookup-insert r.bouncer bouncer (ban_info r) bans,
  eq_iff r.bouncer bouncer,
)

-- The ban that loadIp reports for a bouncer is the row of the table.
pub lookup-load_ip :
    (ip bouncer : String) (db : BanDb)
    → IsConsistent db
    → lookup bouncer (load_ip ip db).curr_bans ≡ row_of ip bouncer db.ban_registry
unfolding load_ip lookup
lookup-load_ip ip bouncer db h =
    ground (arith, lookup-load_bans ip bouncer db.ban_registry [] h.bans)

pub load_ban_count-put_ip :
    (i : String) (r : IpRow) (rows : List IpRow)
    → load_ban_count i (put_ip r rows) ≡ (if r.ip == i then r.ban_count else load_ban_count i rows)
unfolding load_ban_count put_ip
load_ban_count-put_ip i r [] = refl
load_ban_count-put_ip i r (q ∷ rows) =
    ground (arith, load_ban_count-put_ip i r rows, eq_iff q.ip r.ip, eq_iff q.ip i, eq_iff r.ip i)

-- Whether a time is among the fails.
abbrev pub has_fail : ℤ → List ℤ → Bool
has_fail t ts = any (λ s. eqb_ℤ s t) ts

has_fail-put_fail :
    (i : String) (t : ℤ) (r : FailRow) (rows : List FailRow)
    → has_fail t (load_fails i (put_fail r rows))
      ≡ (if r.ip == i && eqb_ℤ r.time t then true else has_fail t (load_fails i rows))
unfolding load_fails put_fail
has_fail-put_fail i t r [] = ground arith
has_fail-put_fail i t r (q ∷ rows) = ground (
  arith,
  has_fail-put_fail i t r rows,
  eq_iff q.ip r.ip,
  eq_iff q.ip i,
  eq_iff r.ip i,
  eqb_ℤ_iff q.time r.time,
  eqb_ℤ_iff q.time t,
  eqb_ℤ_iff r.time t,
)

pub has_fail-put_fails :
    (ip i : String) (t : ℤ) (ts : List ℤ) (rows : List FailRow)
    → has_fail t (load_fails i (put_fails ip ts rows)) ≡ (
        if ip == i
        then has_fail t ts || has_fail t (load_fails i rows)
        else has_fail t (load_fails i rows))
unfolding put_fails
has_fail-put_fails ip i t [] rows = ground arith
has_fail-put_fails ip i t (s ∷ ts) rows = ground (
  arith,
  has_fail-put_fails ip i t ts (put_fail (record { ip = ip; time = s }) rows),
  has_fail-put_fail i t (record { ip = ip; time = s }) rows,
)

module _ (source : IpInfo) (i : String) (db : BanDb) where
  abbrev pub updated : IpInfo
  updated = load_ip i (update_ip source db)

  ban_count-update_ip :
      updated.ban_count ≡ (if source.ip == i then source.ban_count else (load_ip i db).ban_count)
  unfolding load_ip update_ip
  ban_count-update_ip =
      load_ban_count-put_ip i (record { ip = source.ip; ban_count = source.ban_count })
        db.ip_registry

  curr_fails-update_ip :
      (t : ℤ)
      → has_fail t updated.curr_fails ≡ (
          if source.ip == i
          then has_fail t source.curr_fails || has_fail t (load_ip i db).curr_fails
          else has_fail t (load_ip i db).curr_fails)
  unfolding load_ip update_ip
  curr_fails-update_ip t = has_fail-put_fails source.ip i t source.curr_fails db.fail_registry

  curr_bans-update_ip :
      (bouncer : String)
      → IsConsistent db
      → IsMap source.curr_bans
      → lookup bouncer updated.curr_bans ≡ (
          if source.ip == i
          then or_else (lookup bouncer source.curr_bans) (lookup bouncer (load_ip i db).curr_bans)
          else lookup bouncer (load_ip i db).curr_bans)
  curr_bans-update_ip bouncer h m =
      rw
        (
          lookup-load_ip i bouncer (update_ip source db) (update_ip-IsConsistent source db h),
          lookup-load_ip i bouncer db h,
        )
        (unfold update_ip in row_of-put_bans source.ip i bouncer source.curr_bans db.ban_registry m)

-- In a database that meets its UNIQUE constraints, loadIp after updateIp returns for the updated
-- address the written ban count, the old and the written fail times, each as present or absent, and
-- for each bouncer the written ban or else the old one; for any other address all three are as before.
pub load_ip-update_ip :
    (source : IpInfo) (i : String) (db : BanDb)
    → IsConsistent db
    → IsMap source.curr_bans
    → ((load_ip i (update_ip source db)).ban_count
        ≡ (if source.ip == i then source.ban_count else (load_ip i db).ban_count))
      × ((t : ℤ)
          → has_fail t (load_ip i (update_ip source db)).curr_fails ≡ (
              if source.ip == i
              then has_fail t source.curr_fails || has_fail t (load_ip i db).curr_fails
              else has_fail t (load_ip i db).curr_fails))
      × ((bouncer : String)
          → lookup bouncer (load_ip i (update_ip source db)).curr_bans ≡ (
              if source.ip == i
              then or_else
                  (lookup bouncer source.curr_bans)
                  (lookup bouncer (load_ip i db).curr_bans)
              else lookup bouncer (load_ip i db).curr_bans))
load_ip-update_ip source i db h m = (
  ban_count-update_ip source i db,
  curr_fails-update_ip source i db,
  λ bouncer. curr_bans-update_ip source i db bouncer h m,
)

-- In a database that meets its UNIQUE constraints, isBanned answers true exactly for the bouncers
-- whose bans loadIp reports.
pub is_banned-load_ip :
    (ip bouncer : String) (db : BanDb)
    → IsConsistent db
    → is_banned ip bouncer db ≡ contains bouncer (load_ip ip db).curr_bans
unfolding is_banned
is_banned-load_ip ip bouncer db h =
    is_banned-row_of ip bouncer db.ban_registry
    ∙ ap (λ o. has_value o) (sym (lookup-load_ip ip bouncer db h))
