-- ===== src/Tests/Database.antt =====
-- src/dnf2b/data/BanDB.cpp on a database of a few rows.
use doesnotfail2ban.Prelude.{refl, none, [], ◌∷◌, ◌≡◌, ◌||◌, arith, String, List}
use doesnotfail2ban.Prelude.Int.{ℤ, pos, eqb_ℤ}
use doesnotfail2ban.Prelude.Maps.{lookup}
use doesnotfail2ban.Structs.{IpInfo}
use doesnotfail2ban.BanDb.{load_ip, update_ip}
use doesnotfail2ban.BanDb.Rows.{IsConsistent, or_else}
use doesnotfail2ban.BanDb.Unbans.{HasDurations}
use doesnotfail2ban.BanDb.Loading.{load_ip-update_ip, has_fail}
use doesnotfail2ban.BanDb.Refinement.{
  Op, update, wipe, forgive, remove, remove_all, view, run, replay, run-replay,
}
use doesnotfail2ban.Tests.Fixtures.{two_rows}

pub two_rows-IsConsistent : IsConsistent two_rows
unfolding eqb_ℤ
two_rows-IsConsistent = record {
  ips = (tt, tt);
  fails = ((refl, tt), (tt, tt));
  bans = ((refl, tt), (tt, tt));
}

pub two_rows-HasDurations : HasDurations two_rows
two_rows-HasDurations = (omega arith, (tt, tt))

abbrev caught_twice : IpInfo
caught_twice = record {
  ip = "10.0.0.1";
  curr_fails = pos 90 ∷ pos 99 ∷ [];
  ban_count = 0;
  curr_bans = [];
}

load_ip-update_ip_example :
    ((load_ip "10.0.0.1" (update_ip caught_twice two_rows)).ban_count ≡ 0)
    × ((t : ℤ)
        → has_fail t (load_ip "10.0.0.1" (update_ip caught_twice two_rows)).curr_fails ≡ (
            has_fail t caught_twice.curr_fails
            || has_fail t (load_ip "10.0.0.1" two_rows).curr_fails))
    × ((bouncer : String)
        → lookup bouncer (load_ip "10.0.0.1" (update_ip caught_twice two_rows)).curr_bans
          ≡ or_else (lookup bouncer []) (lookup bouncer (load_ip "10.0.0.1" two_rows).curr_bans))
load_ip-update_ip_example =
    load_ip-update_ip caught_twice "10.0.0.1" two_rows two_rows-IsConsistent tt

abbrev changes : List Op
changes =
    update caught_twice
    ∷ wipe "10.0.0.3"
    ∷ forgive (pos 100) (pos 8)
    ∷ remove "10.0.0.2" "mail"
    ∷ remove_all (record { ip = "10.0.0.2"; bouncer = "iptables"; port = none } ∷ [])
    ∷ []

run-replay_example :
    (view (run changes two_rows) ≡ replay changes (view two_rows))
    × IsConsistent (run changes two_rows)
run-replay_example =
    run-replay changes two_rows two_rows-IsConsistent (tt, (tt, (tt, (tt, (tt, tt)))))
