-- ===== src/Tests/Exemptions.antt =====
-- isWhitelisted of src/dnf2b/data/BanManager.cpp on addresses of both versions.
use doesnotfail2ban.Prelude.{◌≡◌, refl, not, List, [], ◌∷◌, ◌++◌, any, keep}
use doesnotfail2ban.Prelude.Results.{ok, throw, bad_variant_access}
use doesnotfail2ban.BanManager.Whitelist.{
  Exempt, v4, address_v4, network_v4, network_v6, is_whitelisted,
}
use doesnotfail2ban.BanManager.Whitelist.Networks.{
  covers, is_network_v6, is_whitelisted-any, is_whitelisted-network_v6,
}
use doesnotfail2ban.Tests.Fixtures.{two_hosts}

abbrev second_host : List (Exempt two_hosts)
second_host = address_v4 7 ∷ network_v4 2 ∷ []

is_whitelisted-any_example :
    is_whitelisted two_hosts second_host "10.0.0.2" ≡ ok (any (covers two_hosts (v4 2)) second_host)
is_whitelisted-any_example = is_whitelisted-any two_hosts (v4 2) second_host "10.0.0.2" refl refl

is_whitelisted-network_v6_example :
    (is_whitelisted two_hosts (second_host ++ network_v6 1 ∷ []) "10.0.0.1"
      ≡ throw bad_variant_access)
    × (is_whitelisted two_hosts (second_host ++ network_v6 1 ∷ []) "::1"
        ≡ is_whitelisted two_hosts
            (keep (λ e. not (is_network_v6 two_hosts e)) (second_host ++ network_v6 1 ∷ []))
            "::1")
is_whitelisted-network_v6_example =
    is_whitelisted-network_v6 two_hosts 1 1 "10.0.0.1" "::1" second_host [] 1 refl refl refl refl
