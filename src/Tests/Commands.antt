-- ===== src/Tests/Commands.antt =====
-- The bouncers, the settings and the read state on small inputs.
use Prim.Native.String.{len, slice}
use doesnotfail2ban.Prelude.{
  ℕ, ◌+◌, String, ◌==◌, ◌≡◌, refl, Bool, true, false, some, [], ◌∷◌, arith, eqb, leb, if◌then◌else◌,
  ◌*◌, List,
}
use doesnotfail2ban.Prelude.Int.{ℤ, pos}
use doesnotfail2ban.Prelude.Results.{Result, ok, throw, runtime_error}
use doesnotfail2ban.Bouncers.IpTables.{Shell, prepare_all}
use doesnotfail2ban.Bouncers.Rules.{Then, BothHooked, prepare_all-BothHooked}
use doesnotfail2ban.Config.{ConfigRoot}
use doesnotfail2ban.Config.Json.{root_from_json, root_to_json, root_from_json-root_to_json}
use doesnotfail2ban.Durations.{text, days, parse_config_to_seconds}
use doesnotfail2ban.Durations.Seconds.{unit_seconds, in_unit, parse_config_to_seconds_unit}
use doesnotfail2ban.Prelude.Maps.{insert, lookup}
use doesnotfail2ban.ReadState.{State, ReadState, open_state, store, read, commit}
use doesnotfail2ban.ReadState.Reading.{read-open_state-commit, store_all, last_stored}

-- Every command succeeds.
abbrev fresh_host : Shell → String → ℕ × String
fresh_host shell command = (0, "")

prepare_all-BothHooked_example :
    Then fresh_host (BothHooked fresh_host) (prepare_all fresh_host "DROP" true [])
prepare_all-BothHooked_example = prepare_all-BothHooked fresh_host "DROP" true []

-- std::stoll on two texts.
abbrev two_numbers : String → Result (ℤ × ℕ)
two_numbers str = if str == "2w" then ok (pos 2, 1) else ok (pos 0, 1)

parse_config_to_seconds_unit_example :
    (parse_config_to_seconds two_numbers (text "2w") ≡ (
      if leb (len "2w") 1
      then ok (pos (2 * 86400))
      else in_unit 2 (unit_seconds (slice "2w" 1 (1 + 1)))))
    × (parse_config_to_seconds two_numbers (days (pos 2)) ≡ ok (pos (2 * 86400)))
parse_config_to_seconds_unit_example =
    parse_config_to_seconds_unit two_numbers "2w" 2 1 refl refl (omega arith) (omega arith)

abbrev is_zero : ℕ → Bool
is_zero n = eqb n 0

-- The texts of two states.
abbrev counted_to : ℕ → State ℕ
counted_to n = ("nginx", ("access.log", n) ∷ []) ∷ []

abbrev dump_text : State ℕ → String
dump_text [] = "0"
dump_text ((p, []) ∷ ps) = "0"
dump_text ((p, (r, n) ∷ rs) ∷ ps) = if eqb n 9 then "9" else "7"

abbrev parse_text : String → Result (State ℕ)
parse_text t =
    if t == "9"
    then ok (counted_to 9)
    else (if t == "7" then ok (counted_to 7) else throw (runtime_error "parse error"))

abbrev first_run : ReadState ℕ
first_run = record { state = counted_to 7; dirty = false; file = some "7" }

abbrev two_stores : List (String × String × ℕ)
two_stores = ("nginx", "access.log", 8) ∷ ("nginx", "access.log", 9) ∷ []

read-open_state-commit_example :
    (next : ReadState ℕ) × (open_state parse_text
        (commit dump_text true (store_all two_stores first_run)).file
      ≡ ok next)
    × (read is_zero "nginx" "access.log" next
        ≡ last_stored is_zero "nginx" "access.log" two_stores
            (read is_zero "nginx" "access.log" first_run))
unfolding open_state store insert lookup
read-open_state-commit_example =
    read-open_state-commit dump_text parse_text is_zero "nginx" "access.log" two_stores (some "7")
      first_run refl refl

abbrev monthly : ConfigRoot ℕ
monthly = record {
  core = record {
    control = record {
      max_attempts = pos 3;
      ban_increment = pos 2;
      ban_period = pos 86400;
      forget_after = pos 1209600;
    };
    stats = record {
      enabled = true;
      ban_stats = false;
      origin_stats = true;
      credential_stats = false;
    };
    whitelist = "10.0.0.7" ∷ [];
  };
  watchers = 1;
  bouncers = 2;
}

root_from_json-root_to_json_example :
    root_from_json two_numbers 0 (root_to_json monthly)
    ≡ ok (record monthly {
      core = record (monthly.core) {
        control = record (monthly.core.control) {
          ban_period = pos (86400 * 86400);
          forget_after = pos (1209600 * 86400);
        };
      };
    })
root_from_json-root_to_json_example =
    root_from_json-root_to_json two_numbers 0 monthly 86400 1209600 refl refl (omega arith)
      (omega arith) (omega arith) (omega arith)
