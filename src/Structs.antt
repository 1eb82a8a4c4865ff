-- ===== src/Structs.antt =====
-- src/dnf2b/data/Structs.hpp, the messages of src/dnf2b/sources/Parser.hpp, and the row that
-- src/dnf2b/data/BanDB.hpp returns for a ban. `std::string` is `String`; an `int64_t` is an integer.
use doesnotfail2ban.Prelude.{ℕ, String, Option, List}
use doesnotfail2ban.Prelude.Int.{ℤ}
use doesnotfail2ban.Prelude.Maps.{Map}

pub record BanInfo : Type 0 where
  pub ban_started : ℤ
  -- `none` is a permanent ban
  pub ban_duration : Option ℤ
  pub port : Option ℕ

pub record IpInfo : Type 0 where
  pub ip : String
  pub curr_fails : List ℤ
  pub ban_count : ℕ
  -- by the name of the bouncer
  pub curr_bans : Map BanInfo

pub record BanLocationInfo : Type 0 where
  pub ip : String
  pub bouncer : String
  pub port : Option ℕ

-- A log line, as a parser hands it on. The date is a count of the system clock's ticks.
pub record Message : Type 0 where
  pub entry_date : ℤ
  pub host : String
  pub message : String
  pub ip : String
  pub process : String
