-- ===== src/Tests/Banning.antt =====
-- src/dnf2b/core/Daemon.cpp: a poll that brings an address to the threshold.
use doesnotfail2ban.Prelude.{
  ◌++◌, ◌<◌, String, ◌≡◌, ◌≢◌, refl, Bool, List, [], ◌∷◌, arith, length, has_value, if◌then◌else◌,
  false, ℕ, Option-cases, Bool-cases, inl, eqb, inr, true,
}
use doesnotfail2ban.Prelude.Int.{pos}
use doesnotfail2ban.Prelude.Maps.{lookup}
use doesnotfail2ban.Prelude.Results.{ok, Returns}
use doesnotfail2ban.Structs.{Message}
use doesnotfail2ban.MessageBuffer.{Pton, valid, invalid, bad_domain}
use doesnotfail2ban.MessageBuffer.Caught.{IsAddress}
use doesnotfail2ban.Filter.{match_ip, ip_of_match}
use doesnotfail2ban.Pcre.{get, get_group, next, matcher, substr}
use doesnotfail2ban.BanManager.Whitelist.{is_whitelisted, any_exempts, Address, v4, v6}
use doesnotfail2ban.BanManager.Due.{Bans}
use doesnotfail2ban.BanManager.Causes.{IsCaused}
use doesnotfail2ban.BanManager.Safety.{Grows}
use doesnotfail2ban.Daemon.{Pipeline, handle_poll, filtered_messages}
use doesnotfail2ban.Daemon.Banning.{reported_messages, handle_poll-IsCaused}
use doesnotfail2ban.Daemon.Polls.{Poll, run_polls, counted}
use doesnotfail2ban.Daemon.Polls.Reaching.{run_polls-Bans}
use doesnotfail2ban.BanManager.Counting.{IsWatched, IsOther}
use doesnotfail2ban.Tests.Fixtures.{web, power, two_hosts, literal, message, ssh, manager}
use doesnotfail2ban.Tests.Manager.{manager-IsValid, is_free}
use doesnotfail2ban.Tests.Messages.{from_filter-GroupsSet}
use doesnotfail2ban.Tests.Polling.{auth_log}

-- The addresses that asio knows.
abbrev known_hosts : Bool → String → Pton
known_hosts is_v6 text = if has_value (two_hosts.make_address text) then valid else invalid

known_hosts-known : (is_v6 : Bool) (text : String) → known_hosts is_v6 text ≢ bad_domain
known_hosts-known is_v6 text e = ground arith

answered : (a : Address ℕ ℕ) → Returns (any_exempts two_hosts a manager.whitelist)
unfolding any_exempts
answered (v4 n) = elim (Bool-cases (eqb 7 n)) [
  | inl t ↦ rw t (true, refl)
  | inr f ↦ rw f (false, refl)
]
answered (v6 n) = (false, refl)

answers :
    (ip : String)
    → IsAddress known_hosts ip
    → Returns (is_whitelisted two_hosts manager.whitelist ip)
unfolding is_whitelisted
answers ip (_, e) = elim (Option-cases (two_hosts.make_address ip)) [
  | inl n ↦ absurd (ground (arith, n, e))
  | inr (a, f) ↦ rw f (answered a)
]

abbrev ssh_log : Pipeline String
ssh_log = record auth_log { watchers = ssh ∷ [] }

abbrev two_lines : List Message
two_lines = message "from 10.0.0.1" "" "sshd" ∷ message "hello" "" "cron" ∷ []

handle_poll-IsCaused_example :
    Grows
      (IsCaused power ssh
        (λ ip. 0 < length (reported_messages known_hosts literal ssh_log ssh ip two_lines))
        manager)
      []
      (handle_poll known_hosts literal power (λ ip. pos 100) ssh_log two_lines manager).1.1.calls
handle_poll-IsCaused_example =
    handle_poll-IsCaused known_hosts literal power (λ ip. pos 100) known_hosts-known manager answers
      ssh_log ssh two_lines (from_filter-GroupsSet, tt) refl refl

abbrev web_log : Pipeline String
web_log = record auth_log { watchers = web ∷ [] }

-- Each of these polls brings one message from 10.0.0.1.
abbrev two_polls : List Poll
two_polls = (λ ip. pos 100, two_lines) ∷ (λ ip. pos 130, two_lines) ∷ []

two_counted : counted known_hosts literal web_log web "10.0.0.1" two_polls ≡ 2
unfolding filtered_messages match_ip ip_of_match get get_group next matcher substr
two_counted = refl

three_counted :
    counted known_hosts literal web_log web "10.0.0.1"
      (two_polls ++ (λ ip. pos 160, two_lines) ∷ [])
    ≡ 3
unfolding filtered_messages match_ip ip_of_match get get_group next matcher substr
three_counted = refl

web-IsWatched : IsWatched web "10.0.0.1" manager
unfolding is_whitelisted lookup
web-IsWatched = record {
  valid = manager-IsValid;
  listed = refl;
  loaded = refl;
  free = rw is_free refl;
}

run_polls-Bans_example :
    (let before = run_polls known_hosts literal power web_log two_polls manager in
      let after =
        handle_poll known_hosts literal power (λ ip. pos 160) before.1.0 two_lines before.1.1 in
      (before.0 ≡ ok tt)
      × Grows (IsOther web "10.0.0.1") [] before.1.1.calls
      × Bans power web (λ ip. pos 160) "10.0.0.1" before.1.1 (after.0, after.1.1))
run_polls-Bans_example =
    run_polls-Bans known_hosts literal power known_hosts-known web (from_filter-GroupsSet, tt)
      "10.0.0.1" web_log refl refl two_polls (λ ip. pos 160) two_lines manager answers web-IsWatched
      (rw (is_free, two_counted) (omega arith)) (rw (is_free, three_counted) (omega arith))
