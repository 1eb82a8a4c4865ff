-- ===== src/BanDb/Rows.antt =====
-- src/dnf2b/data/BanDB.cpp: what each statement does to the row of one key, and that every method
-- keeps the UNIQUE constraints of the three tables.
use doesnotfail2ban.Prelude.{
  String, ◌≡◌, refl, Bool, not, ◌&&◌, Option, none, some, List, [], ◌∷◌, ◌==◌, eq_iff, arith, any,
  IsUnique, keep-IsUnique, replace-IsUnique, if◌then◌else◌, has_value,
}
use doesnotfail2ban.Prelude.Int.{ℤ, eqb_ℤ}
use doesnotfail2ban.Prelude.Maps.{Map, lookup, IsMap, lookup-Above}
use doesnotfail2ban.Structs.{BanInfo, IpInfo, BanLocationInfo}
use doesnotfail2ban.BanDb.{
  IpRow, FailRow, BanRow, BanDb, bans_at, ban_info, ban_row, put_fails, put_ban, put_bans,
  update_ip, unban, unban_all, forgive_fails, wipe_fails_for,
}

abbrev pub or_else {ℓ} : {A : Type ℓ} → Option A → Option A → Option A
or_else none b = b
or_else (some a) b = some a

-- The ban of an address by a bouncer, if there is a row for it.
unfoldable pub row_of : String → String → List BanRow → Option BanInfo
row_of ip bouncer [] = none
row_of ip bouncer (r ∷ rs) =
    if bans_at ip bouncer r then some (ban_info r) else row_of ip bouncer rs

pub row_of-put_ban :
    (ip bouncer : String) (r : BanRow) (rows : List BanRow)
    → row_of ip bouncer (put_ban r rows)
      ≡ (if bans_at ip bouncer r then some (ban_info r) else row_of ip bouncer rows)
unfolding row_of put_ban
row_of-put_ban ip bouncer r [] = refl
row_of-put_ban ip bouncer r (q ∷ rows) = ground (
  arith,
  row_of-put_ban ip bouncer r rows,
  eq_iff q.ip r.ip,
  eq_iff q.bouncer r.bouncer,
  eq_iff q.ip ip,
  eq_iff q.bouncer bouncer,
  eq_iff r.ip ip,
  eq_iff r.bouncer bouncer,
)

-- After the loop over the bans of an address its row is the one given, or else the old one.
pub row_of-put_bans :
    (ip i bouncer : String) (bans : Map BanInfo) (rows : List BanRow)
    → IsMap bans
    → row_of i bouncer (put_bans ip bans rows) ≡ (
        if ip == i
        then or_else (lookup bouncer bans) (row_of i bouncer rows)
        else row_of i bouncer rows)
unfolding lookup put_bans
row_of-put_bans ip i bouncer [] rows h = ground arith
row_of-put_bans ip i bouncer ((k, v) ∷ bans) rows h = ground (
  arith,
  row_of-put_bans ip i bouncer bans (put_ban (ban_row ip k v) rows),
  row_of-put_ban i bouncer (ban_row ip k v) rows,
  eq_iff k bouncer,
  lookup-Above k bans h.0,
)

pub is_banned-row_of :
    (ip bouncer : String) (rows : List BanRow)
    → any (bans_at ip bouncer) rows ≡ has_value (row_of ip bouncer rows)
unfolding row_of
is_banned-row_of ip bouncer [] = refl
is_banned-row_of ip bouncer (q ∷ rows) = ground (arith, is_banned-row_of ip bouncer rows)

abbrev pub same_ip : IpRow → IpRow → Bool
same_ip q r = q.ip == r.ip

abbrev pub same_fail : FailRow → FailRow → Bool
same_fail q r = q.ip == r.ip && eqb_ℤ q.time r.time

abbrev pub same_ban : BanRow → BanRow → Bool
same_ban q r = bans_at r.ip r.bouncer q

-- The constraints of the schema: PRIMARY KEY, UNIQUE(IP, Time) and UNIQUE(IP, Bouncer).
pub record IsConsistent (db : BanDb) : Type 0 where
  pub ips : IsUnique same_ip db.ip_registry
  pub fails : IsUnique same_fail db.fail_registry
  pub bans : IsUnique same_ban db.ban_registry

put_fails-IsUnique :
    (ip : String) (ts : List ℤ) (rows : List FailRow)
    → IsUnique same_fail rows
    → IsUnique same_fail (put_fails ip ts rows)
unfolding put_fails
put_fails-IsUnique ip [] rows h = h
put_fails-IsUnique ip (t ∷ ts) rows h =
    put_fails-IsUnique ip ts _ (replace-IsUnique same_fail (record { ip = ip; time = t }) rows h)

put_bans-IsUnique :
    (ip : String) (bans : Map BanInfo) (rows : List BanRow)
    → IsUnique same_ban rows
    → IsUnique same_ban (put_bans ip bans rows)
unfolding put_bans
put_bans-IsUnique ip [] rows h = h
put_bans-IsUnique ip ((k, v) ∷ bans) rows h =
    put_bans-IsUnique ip bans _ (replace-IsUnique same_ban (ban_row ip k v) rows h)

pub update_ip-IsConsistent :
    (source : IpInfo) (db : BanDb) → IsConsistent db → IsConsistent (update_ip source db)
unfolding update_ip
update_ip-IsConsistent source db h = record {
  ips =
      replace-IsUnique same_ip (record { ip = source.ip; ban_count = source.ban_count })
        db.ip_registry h.ips;
  fails = put_fails-IsUnique source.ip source.curr_fails db.fail_registry h.fails;
  bans = put_bans-IsUnique source.ip source.curr_bans db.ban_registry h.bans;
}

pub unban-IsConsistent :
    (ip bouncer : String) (db : BanDb) → IsConsistent db → IsConsistent (unban ip bouncer db)
unfolding unban
unban-IsConsistent ip bouncer db h = record {
  ips = h.ips;
  fails = h.fails;
  bans = keep-IsUnique same_ban (λ r. not (bans_at ip bouncer r)) db.ban_registry h.bans;
}

pub unban_all-IsConsistent :
    (items : List BanLocationInfo) (db : BanDb)
    → IsConsistent db
    → IsConsistent (unban_all items db)
unfolding unban_all
unban_all-IsConsistent [] db h = h
unban_all-IsConsistent (info ∷ items) db h =
    unban_all-IsConsistent items (unban info.ip info.bouncer db)
      (unban-IsConsistent info.ip info.bouncer db h)

pub wipe_fails_for-IsConsistent :
    (ip : String) (db : BanDb) → IsConsistent db → IsConsistent (wipe_fails_for ip db)
unfolding wipe_fails_for
wipe_fails_for-IsConsistent ip db h = record {
  ips = h.ips;
  fails = keep-IsUnique same_fail (λ r. not (r.ip == ip)) db.fail_registry h.fails;
  bans = h.bans;
}

pub forgive_fails-IsConsistent :
    (now age : ℤ) (db : BanDb) → IsConsistent db → IsConsistent (forgive_fails now age db)
unfolding forgive_fails
forgive_fails-IsConsistent now age db h = record {
  ips = h.ips;
  fails = keep-IsUnique same_fail _ db.fail_registry h.fails;
  bans = h.bans;
}
