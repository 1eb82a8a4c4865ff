-- ===== src/BanManager.antt =====
-- src/dnf2b/data/BanManager.cpp and BanManager.hpp: the state of the manager and its three
-- operations. The calls of bouncers' methods are recorded in order; an exception leaves the state
-- that was reached, so it comes back beside the error too.
pub mod Construction
pub mod Starting
pub mod Rounds
pub mod Durations
pub mod Standing
pub mod Whitelist
pub mod Safety
pub mod Invariant
pub mod Ban
pub mod Others
pub mod Due
pub mod Causes
pub mod Counting
pub mod Overflow
pub mod Restart
pub mod Cleanup
pub mod StaleCache
use doesnotfail2ban.Prelude.{
  ℕ, zero, suc, ◌+◌, String, Bool, true, false, not, ◌||◌, ◌&&◌, Option, none, some, List, [], ◌∷◌,
  ◌++◌, length, replicate, eqb, ltb, leb, if◌then◌else◌, value_or, ◌≡◌, ◌⊎◌, arith,
}
use doesnotfail2ban.Prelude.Int.{ℤ, pos, negsuc, ◌*ℤ◌, wrap64, is_negative, leb_ℤ}
use doesnotfail2ban.Prelude.Maps.{Map, lookup, insert, erase, contains}
use doesnotfail2ban.Prelude.Results.{
  Result, ok, throw, Fault, out_of_range, runtime_error, ◌>>=◌, and_then, and_then_induction,
}
use doesnotfail2ban.Structs.{BanInfo, IpInfo, BanLocationInfo, Message}
use doesnotfail2ban.Config.{ControlConfig}
use doesnotfail2ban.Bouncers.{Bouncer, BouncerCall, ban, unban}
use doesnotfail2ban.Watcher.{Watcher}
use doesnotfail2ban.BanDb.{
  BanDb, load_ip, update_ip, wipe_fails_for, unban_all, get_pending_unbans,
  get_banned_minus_pending_unbans,
}
use Whitelist.{Asio, Exempt, is_whitelisted, parse_whitelist}

pub record BanManager (asio : Asio) : Type 0 where
  pub bouncers : Map Bouncer
  pub whitelist : List (Exempt asio)
  pub has_reloaded_bans : Bool
  pub db : BanDb
  pub fail_cache : Map IpInfo
  pub control : ControlConfig
  -- the calls of bouncers so far
  pub calls : List BouncerCall

-- The overflow protection: a negative product is no duration.
unfoldable pub cap_overflow : ℤ → Option ℤ
cap_overflow d = if is_negative d then none else some d

-- `ipow b n` is static_cast<int64_t>(std::pow(b, n)). Where the power does not fit an int64_t the cast is
-- undefined, and `ipow` may be any number there; the product is wrapped at 64 bits.
unfoldable pub ban_duration : (ℤ → ℕ → ℤ) → ControlConfig → ℕ → Option ℤ
unfolding cap_overflow
ban_duration ipow control ban_count =
    if is_negative control.ban_period
    then none
    else cap_overflow (wrap64 (control.ban_period *ℤ ipow control.ban_increment ban_count))

-- The test of `log`; a negative threshold as a `size_t` is past every size.
unfoldable pub reaches_threshold : ℕ → ℤ → Bool
reaches_threshold size (pos limit) = leb limit size
reaches_threshold size (negsuc n) = ltb 0 size

module _ {asio : Asio} where
  -- this->bouncers.at(name), and then ban or unban on it
  unfoldable pub call_bouncer :
      String → BouncerCall → BanManager asio → Result (Unit {0}) × BanManager asio
  call_bouncer name c m = elim (lookup name m.bouncers) [
    | none ↦ (throw out_of_range, m)
    | some b ↦ (ok tt, record m { calls = m.calls ++ c ∷ [] })
  ]

  unfoldable pub get_ip_info : String → BanManager asio → IpInfo
  get_ip_info ip m = value_or (lookup ip m.fail_cache) (load_ip ip m.db)

  -- The branch below the threshold.
  unfoldable pub cache_fails : String → IpInfo → BanManager asio → BanManager asio
  cache_fails ip info m = record m {
    fail_cache = insert ip info m.fail_cache;
    db = update_ip info m.db;
  }

module _ (ipow : ℤ → ℕ → ℤ) {asio : Asio} {Code : Type 0} where
  -- What is recorded of a ban, once the bouncer has been called.
  unfoldable pub record_ban : ℤ → Watcher Code → IpInfo → BanManager asio → BanManager asio
  record_ban now source info m = record m {
    db =
        update_ip
          (record info {
            curr_fails = [];
            ban_count = info.ban_count + 1;
            curr_bans =
                insert source.bouncer
                  (record {
                    ban_started = now;
                    ban_duration = ban_duration ipow m.control info.ban_count;
                    port = none;
                  })
                  info.curr_bans;
          })
          (wipe_fails_for info.ip m.db);
    fail_cache = erase info.ip m.fail_cache;
  }

  -- The branch of `log` for an address that has reached the threshold.
  unfoldable pub ban_ip :
      ℤ → Watcher Code → String → IpInfo → BanManager asio → Result (Unit {0}) × BanManager asio
  unfolding call_bouncer
  ban_ip now source ip info m =
      let (called, m') = call_bouncer source.bouncer (ban source.bouncer ip source.port) m in
      elim called [
        | throw e ↦ (throw e, m')
        | ok _ ↦
            if contains source.bouncer info.curr_bans
            then (ok tt, m')
            else (ok tt, record_ban now source info m')
      ]

  -- `log` for an address that is not whitelisted and was caught `times` times.
  unfoldable pub register_fails :
      ℤ → Watcher Code → String → ℕ → IpInfo → BanManager asio → Result (Unit {0}) × BanManager asio
  unfolding call_bouncer ban_ip
  register_fails now source ip times info m =
      if contains source.bouncer info.curr_bans
      then call_bouncer source.bouncer (ban source.bouncer ip source.port) m
      else let failed = record info { curr_fails = info.curr_fails ++ replicate times now } in
        if reaches_threshold (length failed.curr_fails) source.limit
        then ban_ip now source ip failed m
        else (ok tt, cache_fails ip failed m)

  -- One round of the loop of `log`; `now` is the clock as that round reads it.
  unfoldable pub log_one :
      ℤ
      → Watcher Code
      → String
      → List Message
      → BanManager asio
      → Result (Unit {0}) × BanManager asio
  unfolding register_fails
  log_one now source ip messages m =
      if eqb (length messages) 0 then (ok tt, m) else elim (is_whitelisted asio m.whitelist ip) [
        | throw e ↦ (throw e, m)
        | ok exempt ↦
            if exempt
            then (ok tt, m)
            else register_fails now source ip (length messages) (get_ip_info ip m) m
      ]

  -- BanManager::log; `clock ip` is the clock in the round for `ip`. An exception ends the loop.
  unfoldable pub log :
      (String → ℤ)
      → Watcher Code
      → Map (List Message)
      → BanManager asio
      → Result (Unit {0}) × BanManager asio
  log clock source [] m = (ok tt, m)
  log clock source ((ip, messages) ∷ rest) m =
      and_then (log_one (clock ip) source ip messages m) (log clock source rest)

module _ {asio : Asio} where
  -- The loop of loadRebans, and of checkUnbansAndCleanup with `unban` for `ban`.
  unfoldable pub call_loaded :
      (String → String → Option ℕ → BouncerCall)
      → List BanLocationInfo
      → BanManager asio
      → BanManager asio
  call_loaded call [] m = m
  call_loaded call (b ∷ bs) m = call_loaded call bs (
      if contains b.bouncer m.bouncers
      then record m { calls = m.calls ++ call b.bouncer b.ip b.port ∷ [] }
      else m)

  -- BanManager::loadRebans
  unfoldable pub load_rebans : ℤ → BanManager asio → BanManager asio
  load_rebans now m =
      let m' = call_loaded ban (get_banned_minus_pending_unbans now m.db) m in
      record m' { has_reloaded_bans = true }

  -- BanManager::checkUnbansAndCleanup
  unfoldable pub check_unbans_and_cleanup : ℤ → BanManager asio → BanManager asio
  check_unbans_and_cleanup now m =
      let pending = get_pending_unbans now m.db in
      if eqb (length pending) 0
      then m
      else let m' = call_loaded unban pending m in record m' { db = unban_all pending m'.db }
