-- ===== src/BanManager/Overflow.antt =====
-- src/dnf2b/data/BanManager.cpp: the duration of a ban where the product leaves the range of an int64_t.
use doesnotfail2ban.Prelude.{
  subst, ℕ, zero, suc, ◌+◌, ◌*◌, ◌^◌, String, ◌≡◌, refl, ◌∙◌, true, false, some, List, arith,
  length, ◌<◌,
}
use doesnotfail2ban.Prelude.Int.{ℤ, pos, ◌≤ℤ◌, pos-*ℤ-pos, wrap64, two64, add_zero_ℤ}
use doesnotfail2ban.Structs.{Message}
use doesnotfail2ban.Config.{ControlConfig}
use doesnotfail2ban.Watcher.{Watcher}
use doesnotfail2ban.BanDb.{is_banned}
use doesnotfail2ban.BanManager.Whitelist.{Asio}
use doesnotfail2ban.BanManager.{
  BanManager, get_ip_info, ban_duration, cap_overflow, reaches_threshold, log_one,
  check_unbans_and_cleanup,
}
use doesnotfail2ban.BanManager.Rounds.{failed}
use doesnotfail2ban.BanManager.Ban.{IsCaught, log_one-ban_lasts}
use native.Mathlib.Nat.{pow-suc, mul-mod_left}

-- Two weeks, in seconds, are 4725 times 2^8.
two_weeks_doubled : (k : ℕ) → 1209600 * 2 ^ (k + 56) ≡ (2 ^ k * 4725) * two64
two_weeks_doubled zero = refl
two_weeks_doubled (suc k) =
    let next : 2 ^ (suc k + 56) ≡ 2 ^ (k + 56) * 2 =
      subst (λ j. 2 ^ j ≡ 2 ^ (k + 56) * 2) (omega arith) (pow-suc 2 (k + 56)) in
    rw (next, pow-suc 2 k) (omega (arith, two_weeks_doubled k))

-- The settings that matter here are the default ones.
pub record IsDefault (control : ControlConfig) : Type 0 where
  pub period : control.ban_period ≡ pos 1209600
  pub increment : control.ban_increment ≡ pos 2

module _ (ipow : ℤ → ℕ → ℤ) where
  pub ban_duration-overflow :
      (control : ControlConfig) (k : ℕ)
      → IsDefault control
      → ipow (pos 2) (k + 56) ≡ pos (2 ^ (k + 56))
      → ban_duration ipow control (k + 56) ≡ some (pos 0)
  unfolding ban_duration wrap64 cap_overflow
  ban_duration-overflow control k d e =
      rw
        (
          d.period,
          d.increment,
          e,
          pos-*ℤ-pos 1209600 (2 ^ (k + 56)),
          two_weeks_doubled k,
          mul-mod_left (2 ^ k * 4725) two64,
        )
        refl

  module _ {asio : Asio} {Code : Type 0} (source : Watcher Code) where
    -- With the default settings, and pow exact on this power of two, which fits an int64_t: in a valid
    -- state, an address is caught that is not whitelisted, and that the watcher's bouncer, which is loaded,
    -- has not banned; with the new fails it reaches the threshold. If it has been banned from 56 to 62
    -- times before, the new ban lasts no time: once checkUnbansAndCleanup has run, at that time or later,
    -- the address is not banned.
    pub log_one-overflow :
        (now later : ℤ) (ip : String) (messages : List Message) (m : BanManager asio) (k : ℕ)
        → k < 7
        → IsDefault m.control
        → (get_ip_info ip m).ban_count ≡ k + 56
        → ipow (pos 2) (k + 56) ≡ pos (2 ^ (k + 56))
        → now ≤ℤ later
        → IsCaught ipow source now ip messages m
        → reaches_threshold (length (failed ipow source now ip messages m).curr_fails) source.limit
          ≡ true
        → is_banned ip source.bouncer
            (check_unbans_and_cleanup later (log_one ipow now source ip messages m).1).db
          ≡ false
    log_one-overflow now later ip messages m k fits d b e h c r =
        log_one-ban_lasts ipow source now ip messages m later c r
        ∙ rw (b, ban_duration-overflow m.control k d e, add_zero_ℤ now) (ground (arith, h))
