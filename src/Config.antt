-- ===== src/Config.antt =====
-- src/dnf2b/json/Config.hpp: the configuration, with its defaults.
pub mod Json
use doesnotfail2ban.Prelude.{String, List, ◌*◌, Bool, true, []}
use doesnotfail2ban.Prelude.Int.{ℤ, pos}

-- The four `long long` settings; the times are in seconds, and a negative ban period is "for ever".
pub record ControlConfig : Type 0 where
  pub max_attempts : ℤ
  pub ban_increment : ℤ
  pub ban_period : ℤ
  pub forget_after : ℤ

-- The default constructor.
abbrev pub default_control : ControlConfig
default_control = record {
  max_attempts = pos 3;
  ban_increment = pos 2;
  ban_period = pos (60 * 60 * 24 * 7 * 2);
  forget_after = pos (60 * 60 * 24 * 7 * 2);
}

-- Which statistics are kept.
pub record StatConfig : Type 0 where
  pub enabled : Bool
  pub ban_stats : Bool
  pub origin_stats : Bool
  pub credential_stats : Bool

abbrev pub default_stats : StatConfig
default_stats = record {
  enabled = true;
  ban_stats = true;
  origin_stats = true;
  credential_stats = true;
}

pub record CoreConfig : Type 0 where
  pub control : ControlConfig
  pub stats : StatConfig
  pub whitelist : List String

abbrev pub default_core : CoreConfig
default_core = record { control = default_control; stats = default_stats; whitelist = [] }

-- The watchers and the bouncers stay JSON.
pub record ConfigRoot (Json : Type 0) : Type 0 where
  pub core : CoreConfig
  pub watchers : Json
  pub bouncers : Json
