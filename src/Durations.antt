-- ===== src/Durations.antt =====
-- src/dnf2b/util/Parsing.cpp: parseConfigToSeconds, and the settings read with it in
-- src/dnf2b/json/JsonImpl.cpp. std::stoll is a parameter; sums of seconds are int64_t.
pub mod Seconds
use Prim.Native.String.{len, slice}
use doesnotfail2ban.Prelude.{
  ℕ, ◌+◌, String, ◌==◌, Bool, true, false, Option, none, some, leb, if◌then◌else◌, value_or,
}
use doesnotfail2ban.Prelude.Int.{ℤ, pos, negsuc, ◌*ℤ◌, leb_ℤ, wrap64}
use doesnotfail2ban.Prelude.Results.{Result, ok, throw, runtime_error, ◌>>=◌}
use doesnotfail2ban.Config.{ControlConfig}

-- The variant that is read.
pub data Setting : Type 0 where
  text : String → Setting
  days : ℤ → Setting

abbrev pub for_ever : ℤ
for_ever = negsuc 0

-- A count of a unit of so many seconds.
abbrev pub seconds_in : ℕ → ℤ → ℤ
seconds_in unit n = wrap64 (n *ℤ pos unit)

unfoldable pub parse_days : ℤ → ℤ
parse_days n = if leb_ℤ n (pos 0) then for_ever else seconds_in 86400 n

-- The switch on str[pos].
unfoldable pub parse_unit : String → ℤ → Result ℤ
parse_unit unit n =
    if unit == "d"
    then ok (seconds_in 86400 n)
    else if unit == "w"
    then ok (seconds_in 604800 n)
    else if unit == "m"
    then ok (seconds_in 2629746 n)
    else throw (runtime_error "Configuration error")

-- The keys of the JSON object that from_json reads, where they are present.
pub record ControlKeys : Type 0 where
  pub max_attempts : Option ℤ
  pub ban_increment : Option ℤ
  pub ban_period : Option Setting
  pub forget_after : Option Setting

-- `stoll str` is std::stoll(str, &pos, 10): the number and `pos`.
module _ (stoll : String → Result (ℤ × ℕ)) where
  -- What follows the call of std::stoll.
  unfoldable pub parse_qualified : String → ℤ × ℕ → Result ℤ
  unfolding parse_unit parse_days
  parse_qualified str (n, position) =
      if leb (len str) position
      then ok (parse_days n)
      else if leb_ℤ n (pos 0)
      then ok for_ever
      else parse_unit (slice str position (position + 1)) n

  -- Parsing::parseConfigToSeconds
  unfoldable pub parse_config_to_seconds : Setting → Result ℤ
  unfolding parse_qualified
  parse_config_to_seconds (days n) = ok (parse_days n)
  parse_config_to_seconds (text str) =
      if str == "-1" then ok for_ever else stoll str >>= parse_qualified str

  abbrev or_parsed : Option Setting → ℤ → Result ℤ
  or_parsed none old = ok old
  or_parsed (some s) old = parse_config_to_seconds s

  -- from_json, for a value of each key that has the type it is read as
  unfoldable pub from_json : ControlKeys → ControlConfig → Result ControlConfig
  unfolding parse_config_to_seconds
  from_json j o = or_parsed j.ban_period o.ban_period >>= λ ban_period.
      or_parsed j.forget_after o.forget_after >>= λ forget_after. ok (record {
        max_attempts = value_or j.max_attempts o.max_attempts;
        ban_increment = value_or j.ban_increment o.ban_increment;
        ban_period = ban_period;
        forget_after = forget_after;
      })
