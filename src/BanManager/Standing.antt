-- ===== src/BanManager/Standing.antt =====
-- src/dnf2b/data/BanManager.cpp: which bans stand after checkUnbansAndCleanup.
use doesnotfail2ban.Prelude.{
  String, ◌≡◌, refl, true, false, not, none, some, List, [], ◌∷◌, arith, if◌then◌else◌, keep,
  IsUnique, ◌==◌,
}
use doesnotfail2ban.Prelude.Int.{ℤ, ◌+ℤ◌, ltb_ℤ}
use doesnotfail2ban.Structs.{BanInfo}
use doesnotfail2ban.BanDb.{BanRow, ban_row, ban_info, is_banned, is_pending, load_fails, FailRow}
use doesnotfail2ban.BanDb.Rows.{row_of, is_banned-row_of, same_ban}
use doesnotfail2ban.BanDb.Loading.{row_of-none}
use doesnotfail2ban.BanDb.Unbans.{ban_registry-unban_pending, IsDuration}
use doesnotfail2ban.BanManager.Whitelist.{Asio}
use doesnotfail2ban.BanManager.{BanManager, check_unbans_and_cleanup}
use doesnotfail2ban.BanManager.Invariant.{IsValid}
use doesnotfail2ban.BanManager.Cleanup.{check_unbans_and_cleanup_lem}

is_pending-ban_row :
    (now : ℤ) (ip bouncer : String) (r : BanRow)
    → is_pending now (ban_row ip bouncer (ban_info r)) ≡ is_pending now r
unfolding is_pending
is_pending-ban_row now ip bouncer r = refl

pub load_fails-wiped :
    (ip : String) (rows : List FailRow) → load_fails ip (keep (λ r. not (r.ip == ip)) rows) ≡ []
unfolding load_fails
load_fails-wiped ip [] = refl
load_fails-wiped ip (r ∷ rows) = ground (arith, load_fails-wiped ip rows)

-- Under the UNIQUE constraint, what is left of a row when the pending ones are deleted.
row_of-keep-pending :
    (now : ℤ) (ip bouncer : String) (rows : List BanRow)
    → IsUnique same_ban rows
    → row_of ip bouncer (keep (λ r. not (is_pending now r)) rows) ≡ elim (row_of ip bouncer rows) [
      | none ↦ none
      | some b ↦ if is_pending now (ban_row ip bouncer b) then none else some b
    ]
unfolding row_of
row_of-keep-pending now ip bouncer [] h = refl
row_of-keep-pending now ip bouncer (r ∷ rows) h = ground (
  arith,
  row_of-keep-pending now ip bouncer rows h.1,
  row_of-none ip bouncer r rows,
  is_pending-ban_row now ip bouncer r,
)

-- After checkUnbansAndCleanup the bans that were not pending are left.
pub is_banned-check_unbans_and_cleanup :
    {asio : Asio} (now : ℤ) (ip bouncer : String) (m : BanManager asio)
    → IsValid m
    → is_banned ip bouncer (check_unbans_and_cleanup now m).db
      ≡ elim (row_of ip bouncer m.db.ban_registry) [
        | none ↦ false
        | some b ↦ not (is_pending now (ban_row ip bouncer b))
      ]
unfolding is_banned
is_banned-check_unbans_and_cleanup now ip bouncer m h =
    rw
      (
        check_unbans_and_cleanup_lem now m,
        ban_registry-unban_pending now m.db h.consistent,
        is_banned-row_of ip bouncer (keep (λ r. not (is_pending now r)) m.db.ban_registry),
        row_of-keep-pending now ip bouncer m.db.ban_registry h.consistent.bans,
      )
      (ground arith)

-- A ban with a duration from 0 stands while the time is before its end.
pub not-is_pending :
    (later : ℤ) (ip bouncer : String) (b : BanInfo)
    → IsDuration b.ban_duration
    → not (is_pending later (ban_row ip bouncer b))
      ≡ elim b.ban_duration [ none ↦ true | some d ↦ ltb_ℤ later (b.ban_started +ℤ d) ]
unfolding is_pending
not-is_pending later ip bouncer b h = ground arith
