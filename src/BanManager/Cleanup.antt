-- ===== src/BanManager/Cleanup.antt =====
-- src/dnf2b/data/BanManager.cpp: what checkUnbansAndCleanup and loadRebans do.
use doesnotfail2ban.Prelude.{
  ℕ, String, ◌≡◌, refl, sym, ap, ◌∙◌, true, false, not, inl, inr, Option, List, [], ◌∷◌, ◌++◌,
  arith, length, if◌then◌else◌, map, keep, Bool-cases, append-nil, append_assoc, eqb,
}
use doesnotfail2ban.Prelude.Int.{ℤ}
use doesnotfail2ban.Prelude.Maps.{contains}
use doesnotfail2ban.Structs.{BanLocationInfo}
use doesnotfail2ban.Bouncers.{BouncerCall, ban, unban}
use doesnotfail2ban.BanDb.{
  unban_all, get_pending_unbans, get_banned_minus_pending_unbans, location, is_pending,
}
use doesnotfail2ban.BanDb.Unbans.{get_pending_unbans-unban_all, banned_minus_pending_lem}
use doesnotfail2ban.BanManager.Whitelist.{Asio}
use doesnotfail2ban.BanManager.{BanManager, call_loaded, load_rebans, check_unbans_and_cleanup, suc}
use doesnotfail2ban.BanManager.Invariant.{IsValid}

suc-ne-zero : (n : ℕ) → eqb (suc n) 0 ≡ false
suc-ne-zero n = ground arith

module _ {asio : Asio} where
  -- One call for each of the listed bans whose bouncer is loaded, in their order.
  abbrev pub calls_for :
      (String → String → Option ℕ → BouncerCall)
      → BanManager asio
      → List BanLocationInfo
      → List BouncerCall
  calls_for call m bans =
      map (λ (b : BanLocationInfo). call b.bouncer b.ip b.port)
        (keep (λ b. contains b.bouncer m.bouncers) bans)

  -- The loop adds those calls and changes nothing else.
  call_loaded_lem :
      (call : String → String → Option ℕ → BouncerCall) (bans : List BanLocationInfo)
      (m : BanManager asio)
      → call_loaded call bans m ≡ record m { calls = m.calls ++ calls_for call m bans }
  unfolding call_loaded
  call_loaded_lem call [] m = ap (λ c. record m { calls = c }) (sym (append-nil m.calls))
  call_loaded_lem call (b ∷ bs) m = elim (Bool-cases (contains b.bouncer m.bouncers)) [
    | inl t ↦ rw t (
        call_loaded_lem call bs (record m { calls = m.calls ++ call b.bouncer b.ip b.port ∷ [] })
        ∙ ap (λ c. record m { calls = c })
            (append_assoc m.calls (call b.bouncer b.ip b.port ∷ []) (calls_for call m bs)))
    | inr f ↦ rw f (call_loaded_lem call bs m)
  ]

  -- checkUnbansAndCleanup in one step: with nothing pending it still changes nothing.
  pub check_unbans_and_cleanup_lem :
      (now : ℤ) (m : BanManager asio)
      → check_unbans_and_cleanup now m ≡ record m {
        db = unban_all (get_pending_unbans now m.db) m.db;
        calls = m.calls ++ calls_for unban m (get_pending_unbans now m.db);
      }
  unfolding check_unbans_and_cleanup
  check_unbans_and_cleanup_lem now m = go (get_pending_unbans now m.db)
    where
      go :
          (pending : List BanLocationInfo)
          → (if eqb (length pending) 0 then m else record (call_loaded unban pending m) {
            db = unban_all pending (call_loaded unban pending m).db;
          })
            ≡ record m { db = unban_all pending m.db; calls = m.calls ++ calls_for unban m pending }
      go [] = unfold unban_all in ap (λ c. record m { calls = c }) (sym (append-nil m.calls))
      go (b ∷ bs) = rw (suc-ne-zero (length bs), call_loaded_lem unban (b ∷ bs) m) refl

  -- In a valid state checkUnbansAndCleanup calls unban, in the order of the rows, once for each pending
  -- ban whose bouncer is loaded; it makes no other call. Then no ban is pending at that time, and the
  -- bans that still stand at that time are listed as before.
  pub check_unbans_and_cleanup_complete :
      (now : ℤ) (m : BanManager asio)
      → IsValid m
      → ((check_unbans_and_cleanup now m).calls
          ≡ m.calls ++ calls_for unban m (get_pending_unbans now m.db))
        × (get_pending_unbans now (check_unbans_and_cleanup now m).db ≡ [])
        × (get_banned_minus_pending_unbans now (check_unbans_and_cleanup now m).db
            ≡ get_banned_minus_pending_unbans now m.db)
  check_unbans_and_cleanup_complete now m h =
      rw (check_unbans_and_cleanup_lem now m)
        (let gone = get_pending_unbans-unban_all now m.db h.consistent in (refl, gone.0, gone.1))

  -- In a valid state loadRebans calls ban, in the order of the rows, once for each row that is not
  -- pending and whose bouncer is loaded, with the port of the row; it makes no other call, marks the
  -- bans as reloaded and leaves the database, the cache, the bouncers and the whitelist alone.
  pub load_rebans_complete :
      (now : ℤ) (m : BanManager asio)
      → IsValid m
      → load_rebans now m ≡ record m {
        has_reloaded_bans = true;
        calls =
            m.calls
            ++ calls_for ban m
                (map location (keep (λ r. not (is_pending now r)) m.db.ban_registry));
      }
  unfolding load_rebans
  load_rebans_complete now m h = rw (
    call_loaded_lem ban (get_banned_minus_pending_unbans now m.db) m,
    (banned_minus_pending_lem now m.db h.durations).1,
  )
