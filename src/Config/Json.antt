-- ===== src/Config/Json.antt =====
-- src/dnf2b/json/Config.hpp and src/dnf2b/json/JsonImpl.cpp: the configuration from JSON and to it. An
-- object is a record of the keys that are read, for values that have the types they are read as.
-- NLOHMANN_DEFINE_TYPE_INTRUSIVE_WITH_DEFAULT reads each key that is present, and takes the default of one
-- that is not.
use doesnotfail2ban.Prelude.{
  ℕ, ◌*◌, ◌<◌, ◌≤◌, String, ◌≡◌, refl, Bool, Option, none, some, List, value_or,
}
use doesnotfail2ban.Prelude.Int.{ℤ, pos}
use doesnotfail2ban.Prelude.Results.{Result, ok, ◌>>=◌}
use doesnotfail2ban.Config.{
  ControlConfig, StatConfig, CoreConfig, ConfigRoot, default_control, default_stats, default_core,
}
use doesnotfail2ban.Durations.{ControlKeys, days, from_json}
use doesnotfail2ban.Durations.Seconds.{greatest_count, parse_days_lem}

pub record StatKeys : Type 0 where
  pub enabled : Option Bool
  pub ban_stats : Option Bool
  pub origin_stats : Option Bool
  pub credential_stats : Option Bool

pub record CoreKeys : Type 0 where
  pub control : Option ControlKeys
  pub stats : Option StatKeys
  pub whitelist : Option (List String)

pub record RootKeys (Json : Type 0) : Type 0 where
  pub core : Option CoreKeys
  pub watchers : Option Json
  pub bouncers : Option Json

unfoldable pub stats_from_json : StatKeys → StatConfig
stats_from_json j = record {
  enabled = value_or j.enabled default_stats.enabled;
  ban_stats = value_or j.ban_stats default_stats.ban_stats;
  origin_stats = value_or j.origin_stats default_stats.origin_stats;
  credential_stats = value_or j.credential_stats default_stats.credential_stats;
}

unfoldable pub stats_to_json : StatConfig → StatKeys
stats_to_json o = record {
  enabled = some o.enabled;
  ban_stats = some o.ban_stats;
  origin_stats = some o.origin_stats;
  credential_stats = some o.credential_stats;
}

-- to_json of ControlConfig: the seconds, as integers.
unfoldable pub to_json : ControlConfig → ControlKeys
to_json o = record {
  max_attempts = some o.max_attempts;
  ban_increment = some o.ban_increment;
  ban_period = some (days o.ban_period);
  forget_after = some (days o.forget_after);
}

unfoldable pub core_to_json : CoreConfig → CoreKeys
unfolding stats_to_json to_json
core_to_json o = record {
  control = some (to_json o.control);
  stats = some (stats_to_json o.stats);
  whitelist = some o.whitelist;
}

unfoldable pub root_to_json : {Json : Type 0} → ConfigRoot Json → RootKeys Json
unfolding core_to_json
root_to_json o = record {
  core = some (core_to_json o.core);
  watchers = some o.watchers;
  bouncers = some o.bouncers;
}

abbrev stats_or_default : Option StatKeys → StatConfig
stats_or_default none = default_stats
stats_or_default (some j) = stats_from_json j

module _ (stoll : String → Result (ℤ × ℕ)) where
  abbrev control_or_default : Option ControlKeys → Result ControlConfig
  control_or_default none = ok default_control
  control_or_default (some j) = from_json stoll j default_control

  unfoldable pub core_from_json : CoreKeys → Result CoreConfig
  unfolding stats_from_json
  core_from_json j = control_or_default j.control >>= λ control. ok (record {
    control = control;
    stats = stats_or_default j.stats;
    whitelist = value_or j.whitelist default_core.whitelist;
  })

  abbrev core_or_default : Option CoreKeys → Result CoreConfig
  core_or_default none = ok default_core
  core_or_default (some j) = core_from_json j

  module _ {Json : Type 0} (null : Json) where
    unfoldable pub root_from_json : RootKeys Json → Result (ConfigRoot Json)
    unfolding core_from_json
    root_from_json j = core_or_default j.core >>= λ core. ok (record {
      core = core;
      watchers = value_or j.watchers null;
      bouncers = value_or j.bouncers null;
    })

    -- A configuration whose two times are from 1 to 3507324295523 seconds, written as JSON and read back,
    -- is as it was but for these: each number of seconds is read as one of days.
    pub root_from_json-root_to_json :
        (o : ConfigRoot Json) (period age : ℕ)
        → o.core.control.ban_period ≡ pos period
        → o.core.control.forget_after ≡ pos age
        → 0 < period
        → 0 < age
        → period ≤ greatest_count
        → age ≤ greatest_count
        → root_from_json (root_to_json o)
          ≡ ok (record o {
            core = record (o.core) {
              control = record (o.core.control) {
                ban_period = pos (period * 86400);
                forget_after = pos (age * 86400);
              };
            };
          })
    unfolding root_from_json root_to_json from_json
    root_from_json-root_to_json o period age e f h k p q =
        rw (e, f, parse_days_lem period h p, parse_days_lem age k q) refl
