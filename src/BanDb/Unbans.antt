-- ===== src/BanDb/Unbans.antt =====
-- src/dnf2b/data/BanDB.cpp: the queries for expired and for standing bans, and unbanAll.
use doesnotfail2ban.Prelude.{
  ◌≡◌, refl, ap, sym, ◌∙◌, Bool, false, not, ◌&&◌, Option, none, some, List, [], ◌∷◌, map, eq_iff,
  arith, keep, keep_congr, keep_both, keep_every, keep_none, eq_refl, any, All, All-mono, All-both,
  All-true, IsUnique,
}
use doesnotfail2ban.Prelude.Int.{ℤ, pos, ◌+ℤ◌, ◌≤ℤ◌, leb_ℤ}
use doesnotfail2ban.Structs.{BanLocationInfo}
use doesnotfail2ban.BanDb.{
  BanRow, BanDb, bans_at, location, is_pending, is_still_banned, get_pending_unbans,
  get_banned_minus_pending_unbans, unban, unban_all,
}
use doesnotfail2ban.BanDb.Rows.{same_ban, IsConsistent}

-- A duration is a number of seconds from 0, or NULL.
abbrev pub IsDuration : Option ℤ → Type 0
IsDuration none = Unit
IsDuration (some d) = pos 0 ≤ℤ d

abbrev pub HasDurations : BanDb → Type 0
HasDurations db = All (λ r. IsDuration r.ban_duration) db.ban_registry

pub is_pending_or_still_banned :
    (now : ℤ) (r : BanRow)
    → IsDuration r.ban_duration
    → is_still_banned now r ≡ not (is_pending now r)
unfolding is_pending is_still_banned
is_pending_or_still_banned now r h = ground arith

pub still_banned-not-pending :
    (now : ℤ) (r : BanRow)
    → (not (is_pending now r) && is_still_banned now r) ≡ is_still_banned now r
unfolding is_pending is_still_banned
still_banned-not-pending now r = ground arith

-- A row stands for one of the listed bans.
abbrev pub listed : List BanLocationInfo → BanRow → Bool
listed items r = any (λ (i : BanLocationInfo). bans_at i.ip i.bouncer r) items

unban_all-keep :
    (items : List BanLocationInfo) (db : BanDb)
    → (unban_all items db).ban_registry ≡ keep (λ r. not (listed items r)) db.ban_registry
unfolding unban_all unban
unban_all-keep [] db =
    sym
      (keep_every (λ r. not (listed [] r)) db.ban_registry (All-true _ db.ban_registry (λ r. refl)))
unban_all-keep (i ∷ items) db =
    unban_all-keep items (unban i.ip i.bouncer db)
    ∙ keep_both (λ r. not (listed items r)) (λ r. not (bans_at i.ip i.bouncer r)) db.ban_registry
    ∙ keep_congr _ _ db.ban_registry (All-true _ db.ban_registry (λ r. ground arith))

listed-keep-none :
    (p : BanRow → Bool) (r : BanRow) (rows : List BanRow)
    → All (λ q. same_ban r q ≡ false) rows
    → listed (map location (keep p rows)) r ≡ false
listed-keep-none p r [] h = refl
listed-keep-none p r (q ∷ rows) h =
    ground (arith, listed-keep-none p r rows h.1, eq_iff r.ip q.ip, eq_iff r.bouncer q.bouncer)

-- In a table of unique rows, the bans that a query lists are those of the rows that it selects.
listed-keep :
    (p : BanRow → Bool) (rows : List BanRow)
    → IsUnique same_ban rows
    → All (λ r. listed (map location (keep p rows)) r ≡ p r) rows
listed-keep p [] h = tt
listed-keep p (x ∷ xs) h = (
  ground (arith, listed-keep-none p x xs h.0, eq_refl x.ip, eq_refl x.bouncer),
  All-mono (λ r. (same_ban x r ≡ false) × (listed (map location (keep p xs)) r ≡ p r)) _ xs
      (λ r k. ground (
        arith,
        eq_iff r.ip x.ip,
        eq_iff x.ip r.ip,
        eq_iff r.bouncer x.bouncer,
        eq_iff x.bouncer r.bouncer,
      ))
      (All-both _ _ xs h.0 (listed-keep p xs h.1)),
)

-- unbanAll on what getPendingUnbans returned deletes the pending rows and no other.
pub ban_registry-unban_pending :
    (now : ℤ) (db : BanDb)
    → IsConsistent db
    → (unban_all (get_pending_unbans now db) db).ban_registry
      ≡ keep (λ r. not (is_pending now r)) db.ban_registry
unfolding get_pending_unbans
ban_registry-unban_pending now db h =
    unban_all-keep (map location (keep (is_pending now) db.ban_registry)) db
    ∙ keep_congr _ _ db.ban_registry (
        All-mono _ _ db.ban_registry (λ r e. ap not e)
          (listed-keep (is_pending now) db.ban_registry h.bans))

pending-keep :
    (now : ℤ) (rows : List BanRow)
    → keep (is_pending now) (keep (λ r. not (is_pending now r)) rows) ≡ []
pending-keep now rows =
    keep_both (is_pending now) (λ r. not (is_pending now r)) rows
    ∙ keep_none _ rows (All-true _ rows (λ r. ground arith))

still_banned-keep :
    (now : ℤ) (rows : List BanRow)
    → keep (is_still_banned now) (keep (λ r. not (is_pending now r)) rows)
      ≡ keep (is_still_banned now) rows
still_banned-keep now rows =
    keep_both (is_still_banned now) (λ r. not (is_pending now r)) rows
    ∙ keep_congr _ _ rows (All-true _ rows (still_banned-not-pending now))

-- In a database that meets its UNIQUE constraints, after unbanAll on the pending bans no ban is
-- pending at that time, and the bans that still stand at that time are listed as before.
pub get_pending_unbans-unban_all :
    (now : ℤ) (db : BanDb)
    → IsConsistent db
    → (get_pending_unbans now (unban_all (get_pending_unbans now db) db) ≡ [])
      × (get_banned_minus_pending_unbans now (unban_all (get_pending_unbans now db) db)
          ≡ get_banned_minus_pending_unbans now db)
get_pending_unbans-unban_all now db h = (
  unfold get_pending_unbans in
      ap (λ rows. map location (keep (is_pending now) rows)) (ban_registry-unban_pending now db h)
      ∙ ap (map location) (pending-keep now db.ban_registry),
  unfold get_banned_minus_pending_unbans in
      ap (λ rows. map location (keep (is_still_banned now) rows))
        (ban_registry-unban_pending now db h)
      ∙ ap (map location) (still_banned-keep now db.ban_registry),
)

is_pending_lem :
    (now : ℤ) (r : BanRow)
    → IsDuration r.ban_duration
    → is_pending now r
      ≡ elim r.ban_duration [ none ↦ false | some d ↦ leb_ℤ (r.ban_started +ℤ d) now ]
unfolding is_pending
is_pending_lem now r h = ground arith

-- Where every duration is a number from 0 or NULL, a ban is pending exactly from the second in which it
-- ends, a ban with no duration is never pending, and getBannedMinusPendingUnbans lists exactly the rows
-- that are not pending.
pub banned_minus_pending_lem :
    (now : ℤ) (db : BanDb)
    → HasDurations db
    → All
        (λ r.
          is_pending now r
          ≡ elim r.ban_duration [ none ↦ false | some d ↦ leb_ℤ (r.ban_started +ℤ d) now ])
        db.ban_registry
      × (get_banned_minus_pending_unbans now db
          ≡ map location (keep (λ r. not (is_pending now r)) db.ban_registry))
unfolding get_banned_minus_pending_unbans
banned_minus_pending_lem now db h = (
  All-mono _ _ db.ban_registry (λ r k. is_pending_lem now r k) h,
  ap (map location) (
      keep_congr _ _ db.ban_registry
        (All-mono _ _ db.ban_registry (λ r k. is_pending_or_still_banned now r k) h)),
)
