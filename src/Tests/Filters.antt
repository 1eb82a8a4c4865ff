-- ===== src/Tests/Filters.antt =====
-- Filters from files, and the command that shows which patterns match.
use Prim.Native.String.{len}
use doesnotfail2ban.Prelude.{
  suc, String, ◌≡◌, ◌≢◌, refl, true, false, Option, some, none, [], ◌∷◌, ◌==◌, map, keep, arith,
  eq_iff, has_value,
}
use doesnotfail2ban.Prelude.Maps.{Map, lookup}
use doesnotfail2ban.Prelude.Results.{Ensures, ok}
use doesnotfail2ban.Structs.{Message}
use doesnotfail2ban.Filter.{Filter}
use doesnotfail2ban.Filter.Matching.{address_by}
use doesnotfail2ban.Filter.Expansion.{expand, find_from, replace, Expands, expand-Expands}
use doesnotfail2ban.Filter.Files.{Files, JsonValue, count_slashes, get_path_from_filter_name, build}
use doesnotfail2ban.Filter.Building.{AllCompiled, build-AllCompiled}
use doesnotfail2ban.Filter.Locating.{Located, get_path_from_filter_name-Located}
use doesnotfail2ban.Cli.Tester.{match_loop}
use doesnotfail2ban.Cli.Tester.Matches.{match_loop-keep}
use doesnotfail2ban.Cli.Tester.Ending.{match_loop-no_address}
use doesnotfail2ban.Tests.Fixtures.{literal, from_filter, message}
use doesnotfail2ban.Tests.Messages.{from_filter-GroupsSet}

abbrev two_keys : String
two_keys = "from ${dnf2b.ip} to ${dnf2b.ip}:"

expanded : expand (suc (len two_keys)) two_keys 0 ≡ some "from (?<IP>\\S+) to (?<IP>\\S+):"
unfolding expand find_from replace
expanded = refl

expand-Expands_example :
    (t : String) × (expand (suc (len two_keys)) two_keys 0 ≡ some t) × Expands two_keys t
expand-Expands_example = expand-Expands two_keys

abbrev ssh_config : Map JsonValue
ssh_config =
    ("insensitive", JsonValue.flag false)
    ∷ ("patterns", JsonValue.texts (two_keys ∷ "user" ∷ []))
    ∷ []

ssh_texts : lookup "patterns" ssh_config ≡ some (JsonValue.texts (two_keys ∷ "user" ∷ []))
unfolding lookup
ssh_texts = refl

build-AllCompiled_example :
    Ensures
      (λ (f : Filter String). AllCompiled literal (two_keys ∷ "user" ∷ []) f.patterns)
      (build literal "ssh" ssh_config)
build-AllCompiled_example =
    build-AllCompiled literal "ssh" ssh_config (two_keys ∷ "user" ∷ []) (rw ssh_texts refl)

-- Two folders of custom filters; every file "ssh" exists.
abbrev ssh_files : Files
ssh_files = record {
  text_of = λ path. none;
  exists = λ path. path.stem == "ssh";
  custom = some (
      record { name = "mine"; is_directory = true; has_filters = false }
      ∷ record { name = "theirs"; is_directory = true; has_filters = true }
      ∷ []);
}

get_path_from_filter_name-Located_example :
    Ensures (Located ssh_files "ssh") (get_path_from_filter_name ssh_files "ssh")
get_path_from_filter_name-Located_example = get_path_from_filter_name-Located ssh_files "ssh"

no_slashes : (count_slashes ".." ≡ 0) × (count_slashes "ssh" ≡ 0)
unfolding count_slashes
no_slashes = (refl, refl)

abbrev refused : Message
refused = message "refused user from 10.0.0.1" "" "sshd"

addresses :
    (address_by literal refused (record { code = "user "; raw_pattern = "user " })
      ≡ some "from 10.0.0.1")
    × (address_by literal refused (record { code = "from "; raw_pattern = "from " })
        ≡ some "10.0.0.1")
addresses = (refl, refl)

not_blank : (o : Option String) (ip : String) → o ≡ some ip → ip == "" ≡ false → o ≢ some ""
not_blank o ip e h k = ground (arith, eq_iff ip "")

match_loop-keep_example :
    match_loop literal 3 from_filter refused 0
    ≡ ok (
        some (
          map
            (λ p. p.raw_pattern)
            (keep (λ p. has_value (address_by literal refused p)) from_filter.patterns)))
match_loop-keep_example =
    match_loop-keep literal from_filter refused from_filter-GroupsSet
      (not_blank _ "from 10.0.0.1" addresses.0 refl, (not_blank _ "10.0.0.1" addresses.1 refl, tt))

-- No address stands at the end.
abbrev cut_off : Message
cut_off = message "refused from " "" "sshd"

cut_off_addresses :
    (address_by literal cut_off (record { code = "user "; raw_pattern = "user " }) ≡ none)
    × (address_by literal cut_off (record { code = "from "; raw_pattern = "from " }) ≡ some "")
cut_off_addresses = (refl, refl)

match_loop-no_address_example :
    match_loop literal 3 from_filter cut_off 0 ≡ ok (some ("user " ∷ "from " ∷ []))
match_loop-no_address_example =
    match_loop-no_address literal from_filter cut_off
      (record { code = "user "; raw_pattern = "user " } ∷ [])
      (record { code = "from "; raw_pattern = "from " }) refl from_filter-GroupsSet
      (cut_off_addresses.0, tt) cut_off_addresses.1
