-- ===== src/BanDb/Refinement.antt =====
-- src/dnf2b/data/BanDB.cpp: the database as the manager sees it, a count, a set of fail times and the
-- bans of each address, and the statements as operations on that view. The order of the rows, which
-- `INSERT OR REPLACE` changes, is forgotten.
use doesnotfail2ban.Prelude.{
  ℕ, String, ◌≡◌, refl, ap, ◌∙◌, Bool, false, not, ◌&&◌, ◌||◌, Option, none, List, [], ◌∷◌, ◌==◌,
  eq_iff, keep, any, All, arith, if◌then◌else◌,
}
use doesnotfail2ban.Prelude.Int.{ℤ, ◌-ℤ◌, ltb_ℤ, eqb_ℤ_iff}
use doesnotfail2ban.Prelude.Maps.{lookup, IsMap}
use doesnotfail2ban.Structs.{BanInfo, IpInfo, BanLocationInfo}
use doesnotfail2ban.BanDb.{
  BanRow, FailRow, BanDb, bans_at, load_ban_count, load_fails, update_ip, wipe_fails_for,
  forgive_fails, unban, unban_all,
}
use doesnotfail2ban.BanDb.Rows.{
  or_else, row_of, row_of-put_bans, IsConsistent, update_ip-IsConsistent, unban-IsConsistent,
  unban_all-IsConsistent, wipe_fails_for-IsConsistent, forgive_fails-IsConsistent,
}
use doesnotfail2ban.BanDb.Loading.{has_fail, has_fail-put_fails, load_ban_count-put_ip}

-- The database as functions of an address.
pub record View : Type 0 where
  pub count : String → ℕ
  pub failed_at : String → ℤ → Bool
  pub ban_of : String → String → Option BanInfo

unfoldable pub view : BanDb → View
view db = record {
  count = λ ip. load_ban_count ip db.ip_registry;
  failed_at = λ ip t. has_fail t (load_fails ip db.fail_registry);
  ban_of = λ ip bouncer. row_of ip bouncer db.ban_registry;
}

-- The calls that change the database.
pub data Op : Type 0 where
  update : IpInfo → Op
  wipe : String → Op
  forgive : ℤ → ℤ → Op
  remove : String → String → Op
  remove_all : List BanLocationInfo → Op

unfoldable pub apply : Op → BanDb → BanDb
apply (update info) db = update_ip info db
apply (wipe ip) db = wipe_fails_for ip db
apply (forgive now age) db = forgive_fails now age db
apply (remove ip bouncer) db = unban ip bouncer db
apply (remove_all items) db = unban_all items db

unfoldable pub run : List Op → BanDb → BanDb
run [] db = db
run (o ∷ os) db = run os (apply o db)

-- Whether a ban is among those listed.
abbrev pub is_listed : String → String → List BanLocationInfo → Bool
is_listed ip bouncer items = any (λ (i : BanLocationInfo). i.ip == ip && i.bouncer == bouncer) items

unfoldable pub specify : Op → View → View
specify (update info) v = record {
  count = λ ip. if info.ip == ip then info.ban_count else v.count ip;
  failed_at = λ ip t.
      if info.ip == ip then has_fail t info.curr_fails || v.failed_at ip t else v.failed_at ip t;
  ban_of = λ ip bouncer.
      if info.ip == ip
      then or_else (lookup bouncer info.curr_bans) (v.ban_of ip bouncer)
      else v.ban_of ip bouncer;
}
specify (wipe gone) v = record v {
  failed_at = λ ip t. if gone == ip then false else v.failed_at ip t;
}
specify (forgive now age) v = record v {
  failed_at = λ ip t. not (ltb_ℤ t (now -ℤ age)) && v.failed_at ip t;
}
specify (remove gone from) v = record v {
  ban_of = λ ip bouncer. if gone == ip && from == bouncer then none else v.ban_of ip bouncer;
}
specify (remove_all items) v = record v {
  ban_of = λ ip bouncer. if is_listed ip bouncer items then none else v.ban_of ip bouncer;
}

unfoldable pub replay : List Op → View → View
replay [] v = v
replay (o ∷ os) v = replay os (specify o v)

-- What an update writes is a map of bans.
abbrev pub IsWritten : Op → Type 0
IsWritten (update info) = IsMap info.curr_bans
IsWritten (wipe ip) = Unit
IsWritten (forgive now age) = Unit
IsWritten (remove ip bouncer) = Unit
IsWritten (remove_all items) = Unit

apply-IsConsistent : (o : Op) (db : BanDb) → IsConsistent db → IsConsistent (apply o db)
unfolding apply
apply-IsConsistent (update info) db h = update_ip-IsConsistent info db h
apply-IsConsistent (wipe ip) db h = wipe_fails_for-IsConsistent ip db h
apply-IsConsistent (forgive now age) db h = forgive_fails-IsConsistent now age db h
apply-IsConsistent (remove ip bouncer) db h = unban-IsConsistent ip bouncer db h
apply-IsConsistent (remove_all items) db h = unban_all-IsConsistent items db h

has_fail-wiped :
    (gone ip : String) (t : ℤ) (rows : List FailRow)
    → has_fail t (load_fails ip (keep (λ r. not (r.ip == gone)) rows))
      ≡ (if gone == ip then false else has_fail t (load_fails ip rows))
unfolding load_fails
has_fail-wiped gone ip t [] = ground arith
has_fail-wiped gone ip t (r ∷ rows) =
    ground (arith, has_fail-wiped gone ip t rows, eq_iff r.ip gone, eq_iff r.ip ip, eq_iff gone ip)

has_fail-forgiven :
    (limit : ℤ) (ip : String) (t : ℤ) (rows : List FailRow)
    → has_fail t (load_fails ip (keep (λ r. not (ltb_ℤ r.time limit)) rows))
      ≡ (not (ltb_ℤ t limit) && has_fail t (load_fails ip rows))
unfolding load_fails
has_fail-forgiven limit ip t [] = ground arith
has_fail-forgiven limit ip t (r ∷ rows) =
    ground (arith, has_fail-forgiven limit ip t rows, eqb_ℤ_iff r.time t)

row_of-removed :
    (gone from ip bouncer : String) (rows : List BanRow)
    → row_of ip bouncer (keep (λ r. not (bans_at gone from r)) rows)
      ≡ (if gone == ip && from == bouncer then none else row_of ip bouncer rows)
unfolding row_of
row_of-removed gone from ip bouncer [] = ground arith
row_of-removed gone from ip bouncer (r ∷ rows) = ground (
  arith,
  row_of-removed gone from ip bouncer rows,
  eq_iff r.ip gone,
  eq_iff r.ip ip,
  eq_iff gone ip,
  eq_iff r.bouncer from,
  eq_iff r.bouncer bouncer,
  eq_iff from bouncer,
)

row_of-unban_all :
    (ip bouncer : String) (items : List BanLocationInfo) (db : BanDb)
    → row_of ip bouncer (unban_all items db).ban_registry
      ≡ (if is_listed ip bouncer items then none else row_of ip bouncer db.ban_registry)
unfolding unban_all unban
row_of-unban_all ip bouncer [] db = refl
row_of-unban_all ip bouncer (i ∷ items) db = ground (
  arith,
  row_of-unban_all ip bouncer items (unban i.ip i.bouncer db),
  row_of-removed i.ip i.bouncer ip bouncer db.ban_registry,
)

-- What unbanAll leaves alone.
others-unban_all :
    (items : List BanLocationInfo) (db : BanDb)
    → ((unban_all items db).ip_registry ≡ db.ip_registry)
      × ((unban_all items db).fail_registry ≡ db.fail_registry)
unfolding unban_all unban
others-unban_all [] db = (refl, refl)
others-unban_all (i ∷ items) db = others-unban_all items (unban i.ip i.bouncer db)

-- Two views with the same answers are one.
view_ext :
    {v w : View}
    → ((ip : String) → v.count ip ≡ w.count ip)
    → ((ip : String) (t : ℤ) → v.failed_at ip t ≡ w.failed_at ip t)
    → ((ip bouncer : String) → v.ban_of ip bouncer ≡ w.ban_of ip bouncer)
    → v ≡ w
view_ext counts fails bans i = record {
  count = λ ip. counts ip i;
  failed_at = λ ip t. fails ip t i;
  ban_of = λ ip bouncer. bans ip bouncer i;
}

view-apply : (o : Op) (db : BanDb) → IsWritten o → view (apply o db) ≡ specify o (view db)
unfolding view apply specify
view-apply (update info) db h =
    unfold update_ip in
    view_ext
      (λ ip.
        load_ban_count-put_ip ip (record { ip = info.ip; ban_count = info.ban_count })
          db.ip_registry)
      (λ ip t. has_fail-put_fails info.ip ip t info.curr_fails db.fail_registry)
      (λ ip bouncer. row_of-put_bans info.ip ip bouncer info.curr_bans db.ban_registry h)
view-apply (wipe gone) db h =
    unfold wipe_fails_for in
    view_ext (λ ip. refl) (λ ip t. has_fail-wiped gone ip t db.fail_registry) (λ ip bouncer. refl)
view-apply (forgive now age) db h =
    unfold forgive_fails in
    view_ext (λ ip. refl) (λ ip t. has_fail-forgiven (now -ℤ age) ip t db.fail_registry)
      (λ ip bouncer. refl)
view-apply (remove gone from) db h =
    unfold unban in
    view_ext (λ ip. refl) (λ ip t. refl)
      (λ ip bouncer. row_of-removed gone from ip bouncer db.ban_registry)
view-apply (remove_all items) db h =
    view_ext (λ ip. ap (load_ban_count ip) (others-unban_all items db).0)
      (λ ip t. ap (λ rows. has_fail t (load_fails ip rows)) (others-unban_all items db).1)
      (λ ip bouncer. row_of-unban_all ip bouncer items db)

-- Whatever sequence of calls changes a database that meets its UNIQUE constraints, where every update
-- writes a map of bans, the counts, the fail times and the bans that it shows afterwards are those of
-- the same calls on the view alone, which knows no rows, and the constraints are met again.
pub run-replay :
    (ops : List Op) (db : BanDb)
    → IsConsistent db
    → All IsWritten ops
    → (view (run ops db) ≡ replay ops (view db)) × IsConsistent (run ops db)
unfolding run replay
run-replay [] db h ws = (refl, h)
run-replay (o ∷ os) db h (w, ws) =
    let rest = run-replay os (apply o db) (apply-IsConsistent o db h) ws in
    (rest.0 ∙ ap (replay os) (view-apply o db w), rest.1)
