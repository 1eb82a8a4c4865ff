-- ===== src/Tests/Overflows.antt =====
-- src/dnf2b/data/BanManager.cpp: an address with many bans, and fails of the same second.
use doesnotfail2ban.Prelude.{◌≡◌, refl, false, List, [], ◌∷◌, arith, replicate}
use doesnotfail2ban.Prelude.Int.{pos, ◌*ℤ◌}
use doesnotfail2ban.Prelude.Maps.{lookup, insert}
use doesnotfail2ban.Structs.{Message}
use doesnotfail2ban.BanDb.{is_banned, load_ip, load_fails, load_ban_count, load_bans}
use doesnotfail2ban.BanManager.Whitelist.{is_whitelisted}
use doesnotfail2ban.BanManager.{
  BanManager, get_ip_info, reaches_threshold, log_one, check_unbans_and_cleanup,
}
use doesnotfail2ban.BanManager.Ban.{IsCaught}
use doesnotfail2ban.BanManager.Invariant.{IsValid}
use doesnotfail2ban.BanManager.Overflow.{log_one-overflow}
use doesnotfail2ban.BanManager.Restart.{log_one-collapses}
use doesnotfail2ban.Tests.Fixtures.{power, two_hosts, message, ssh, web, manager, two_rows}
use doesnotfail2ban.Tests.Database.{two_rows-HasDurations, two_rows-IsConsistent}
use doesnotfail2ban.Tests.Manager.{manager-IsValid, is_banned_already, one_message}

-- 10.0.0.1 has been banned sixty times.
abbrev often_banned : BanManager two_hosts
often_banned = record manager {
  db = record two_rows { ip_registry = record { ip = "10.0.0.1"; ban_count = 60 } ∷ [] };
}

often_banned-IsValid : IsValid often_banned
often_banned-IsValid = record {
  consistent = record {
    ips = (tt, tt);
    fails = two_rows-IsConsistent.fails;
    bans = two_rows-IsConsistent.bans;
  };
  durations = two_rows-HasDurations;
  sorted = tt;
  cached = tt;
}

is_known :
    get_ip_info "10.0.0.1" often_banned
    ≡ record { ip = "10.0.0.1"; curr_fails = pos 90 ∷ pos 95 ∷ []; ban_count = 60; curr_bans = [] }
unfolding get_ip_info load_ip load_bans insert lookup load_fails load_ban_count
is_known = refl

often_banned-IsCaught : IsCaught power ssh (pos 100) "10.0.0.1" one_message often_banned
unfolding is_whitelisted lookup
often_banned-IsCaught = record {
  valid = often_banned-IsValid;
  caught = omega arith;
  listed = refl;
  loaded = refl;
  free = rw is_known refl;
}

log_one-overflow_example :
    is_banned "10.0.0.1" "iptables"
      (check_unbans_and_cleanup
        (pos 100)
        (log_one power (pos 100) ssh "10.0.0.1" one_message often_banned).1).db
    ≡ false
unfolding reaches_threshold ◌*ℤ◌
log_one-overflow_example =
    log_one-overflow power ssh (pos 100) (pos 100) "10.0.0.1" one_message often_banned 4
      (omega arith) (record { period = refl; increment = refl }) (rw is_known refl) refl
      (omega arith) often_banned-IsCaught (rw is_known refl)

abbrev three_messages : List Message
three_messages = replicate 3 (message "from 10.0.0.2" "10.0.0.2" "nginx")

three_messages-IsCaught : IsCaught power web (pos 100) "10.0.0.2" three_messages manager
unfolding is_whitelisted lookup
three_messages-IsCaught = record {
  valid = manager-IsValid;
  caught = omega arith;
  listed = refl;
  loaded = refl;
  free = rw is_banned_already refl;
}

log_one-collapses_example :
    ((get_ip_info "10.0.0.2"
        (log_one power (pos 100) web "10.0.0.2" three_messages manager).1).curr_fails
      ≡ pos 100 ∷ pos 100 ∷ pos 100 ∷ [])
    × ((load_ip "10.0.0.2"
          (log_one power (pos 100) web "10.0.0.2" three_messages manager).1.db).curr_fails
        ≡ pos 100 ∷ [])
unfolding reaches_threshold lookup load_ip load_fails
log_one-collapses_example =
    log_one-collapses power web (pos 100) "10.0.0.2" three_messages manager refl refl
      three_messages-IsCaught (rw is_banned_already refl)
