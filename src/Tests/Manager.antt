-- ===== src/Tests/Manager.antt =====
-- src/dnf2b/data/BanManager.cpp on a small state.
use doesnotfail2ban.Prelude.{
  ◌≡◌, refl, true, false, not, none, some, List, [], ◌∷◌, ◌++◌, ◌||◌, arith, ◌+◌, map, keep,
}
use doesnotfail2ban.Prelude.Int.{pos, ltb_ℤ, ◌+ℤ◌}
use doesnotfail2ban.Prelude.Maps.{Map, lookup, insert}
use doesnotfail2ban.Prelude.Results.{Result, ok}
use doesnotfail2ban.Structs.{Message, BanInfo}
use doesnotfail2ban.Bouncers.{ban, unban}
use doesnotfail2ban.BanDb.{
  is_banned, is_pending, location, load_ip, load_fails, load_ban_count, get_pending_unbans,
  get_banned_minus_pending_unbans, load_bans,
}
use doesnotfail2ban.BanDb.Rows.{row_of}
use doesnotfail2ban.BanDb.Loading.{has_fail}
use doesnotfail2ban.BanManager.{
  BanManager, reaches_threshold, log, log_one, ban_duration, get_ip_info, check_unbans_and_cleanup,
  load_rebans,
}
use doesnotfail2ban.BanManager.Rounds.{failed}
use doesnotfail2ban.BanManager.Whitelist.{is_whitelisted}
use doesnotfail2ban.BanManager.Invariant.{IsValid, log-IsValid}
use doesnotfail2ban.BanManager.Cleanup.{
  calls_for, check_unbans_and_cleanup_complete, load_rebans_complete,
}
use doesnotfail2ban.BanManager.Ban.{IsCaught, log_one-bans, log_one-ban_lasts, log_one-caches}
use doesnotfail2ban.BanManager.StaleCache.{log_one-stale_ban}
use doesnotfail2ban.Tests.Fixtures.{power, two_hosts, message, ssh, web, manager}
use doesnotfail2ban.Tests.Database.{two_rows-IsConsistent, two_rows-HasDurations}

pub manager-IsValid : IsValid manager
manager-IsValid = record {
  consistent = two_rows-IsConsistent;
  durations = two_rows-HasDurations;
  sorted = tt;
  cached = tt;
}

abbrev pub one_message : List Message
one_message = message "from 10.0.0.1" "10.0.0.1" "sshd" ∷ []

pub is_free :
    get_ip_info "10.0.0.1" manager
    ≡ record { ip = "10.0.0.1"; curr_fails = pos 90 ∷ pos 95 ∷ []; ban_count = 0; curr_bans = [] }
unfolding get_ip_info load_ip load_bans insert lookup load_fails load_ban_count
is_free = refl

pub ssh-IsCaught : IsCaught power ssh (pos 100) "10.0.0.1" one_message manager
unfolding is_whitelisted lookup
ssh-IsCaught = record {
  valid = manager-IsValid;
  caught = omega arith;
  listed = refl;
  loaded = refl;
  free = rw is_free refl;
}

web-IsCaught : IsCaught power web (pos 100) "10.0.0.1" one_message manager
unfolding is_whitelisted lookup
web-IsCaught = record {
  valid = manager-IsValid;
  caught = omega arith;
  listed = refl;
  loaded = refl;
  free = rw is_free refl;
}

abbrev logged : Result (Unit {0}) × BanManager two_hosts
logged = log_one power (pos 100) ssh "10.0.0.1" one_message manager

log_one-bans_example :
    (logged.0 ≡ ok tt)
    × (logged.1.calls ≡ ban "iptables" "10.0.0.1" (some 22) ∷ [])
    × (row_of "10.0.0.1" "iptables" logged.1.db.ban_registry
        ≡ some (record {
          ban_started = pos 100;
          ban_duration =
              ban_duration power manager.control (get_ip_info "10.0.0.1" manager).ban_count;
          port = none;
        }))
    × (load_fails "10.0.0.1" logged.1.db.fail_registry ≡ [])
    × (load_ban_count "10.0.0.1" logged.1.db.ip_registry
        ≡ (get_ip_info "10.0.0.1" manager).ban_count + 1)
    × (lookup "10.0.0.1" logged.1.fail_cache ≡ none)
unfolding reaches_threshold
log_one-bans_example =
    log_one-bans power ssh (pos 100) "10.0.0.1" one_message manager ssh-IsCaught (rw is_free refl)

log_one-ban_lasts_example :
    is_banned "10.0.0.1" "iptables" (check_unbans_and_cleanup (pos 200) logged.1).db
    ≡ elim (ban_duration power manager.control (get_ip_info "10.0.0.1" manager).ban_count) [
      | none ↦ true
      | some d ↦ ltb_ℤ (pos 200) (pos 100 +ℤ d)
    ]
unfolding reaches_threshold
log_one-ban_lasts_example =
    log_one-ban_lasts power ssh (pos 100) "10.0.0.1" one_message manager (pos 200) ssh-IsCaught
      (rw is_free refl)

abbrev seen_by_web : Result (Unit {0}) × BanManager two_hosts
seen_by_web = log_one power (pos 100) web "10.0.0.1" one_message manager

log_one-caches_example :
    (seen_by_web.0 ≡ ok tt)
    × (seen_by_web.1.calls ≡ [])
    × (get_ip_info "10.0.0.1" seen_by_web.1
        ≡ failed power web (pos 100) "10.0.0.1" one_message manager)
    × (has_fail (pos 95) (load_ip "10.0.0.1" seen_by_web.1.db).curr_fails ≡ (
        has_fail (pos 95) (failed power web (pos 100) "10.0.0.1" one_message manager).curr_fails
        || has_fail (pos 95) (load_ip "10.0.0.1" manager.db).curr_fails))
    × (lookup "iptables" (load_ip "10.0.0.2" seen_by_web.1.db).curr_bans
        ≡ lookup "iptables" (load_ip "10.0.0.2" manager.db).curr_bans)
unfolding reaches_threshold
log_one-caches_example =
    log_one-caches power web (pos 100) "10.0.0.1" one_message manager (pos 95) "10.0.0.2" "iptables"
      refl web-IsCaught (rw is_free refl)

abbrev caught_map : Map (List Message)
caught_map = ("10.0.0.1", one_message) ∷ []

log-IsValid_example : IsValid (log power (λ ip. pos 100) ssh caught_map manager).1
log-IsValid_example = log-IsValid power ssh (λ ip. pos 100) caught_map manager manager-IsValid

check_unbans_and_cleanup_complete_example :
    ((check_unbans_and_cleanup (pos 150) manager).calls
      ≡ calls_for unban manager (get_pending_unbans (pos 150) manager.db))
    × (get_pending_unbans (pos 150) (check_unbans_and_cleanup (pos 150) manager).db ≡ [])
    × (get_banned_minus_pending_unbans (pos 150) (check_unbans_and_cleanup (pos 150) manager).db
        ≡ get_banned_minus_pending_unbans (pos 150) manager.db)
check_unbans_and_cleanup_complete_example =
    check_unbans_and_cleanup_complete (pos 150) manager manager-IsValid

load_rebans_complete_example : load_rebans (pos 150) manager ≡ record manager {
  has_reloaded_bans = true;
  calls =
      calls_for ban manager
        (map location (keep (λ r. not (is_pending (pos 150) r)) manager.db.ban_registry));
}
load_rebans_complete_example = load_rebans_complete (pos 150) manager manager-IsValid

abbrev banned_until_150 : BanInfo
banned_until_150 = record { ban_started = pos 50; ban_duration = some (pos 100); port = none }

abbrev second_message : List Message
second_message = message "from 10.0.0.2" "10.0.0.2" "nginx" ∷ []

pub is_banned_already : get_ip_info "10.0.0.2" manager ≡ record {
  ip = "10.0.0.2";
  curr_fails = [];
  ban_count = 1;
  curr_bans =
      ("iptables", banned_until_150)
      ∷ ("mail", record { ban_started = pos 50; ban_duration = none; port = none })
      ∷ [];
}
unfolding get_ip_info load_ip load_bans insert lookup load_fails load_ban_count
is_banned_already = refl

second_web-IsCaught : IsCaught power web (pos 100) "10.0.0.2" second_message manager
unfolding is_whitelisted lookup
second_web-IsCaught = record {
  valid = manager-IsValid;
  caught = omega arith;
  listed = refl;
  loaded = refl;
  free = rw is_banned_already refl;
}

abbrev cleaned_up : BanManager two_hosts
cleaned_up =
    check_unbans_and_cleanup (pos 150)
      (log_one power (pos 100) web "10.0.0.2" second_message manager).1

log_one-stale_ban_example :
    (log_one power (pos 151) ssh "10.0.0.2" second_message cleaned_up ≡ (
      ok tt,
      record cleaned_up { calls = cleaned_up.calls ++ ban "iptables" "10.0.0.2" (some 22) ∷ [] },
    ))
    × (is_banned "10.0.0.2" "iptables" cleaned_up.db ≡ false)
unfolding lookup row_of reaches_threshold ◌+ℤ◌
log_one-stale_ban_example =
    log_one-stale_ban power web ssh "10.0.0.2" second_message second_message manager
      banned_until_150 (pos 100) (pos 150) (pos 151) (pos 100) second_web-IsCaught
      (rw is_banned_already refl) refl refl refl (omega arith) (omega arith) refl
