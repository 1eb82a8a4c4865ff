-- ===== src/Bouncers.antt =====
-- src/dnf2b/bouncers: what the ban manager knows of a bouncer.
pub mod IpTables
pub mod Rules
use doesnotfail2ban.Prelude.{ℕ, String, Bool, Option}

-- The two classes that BouncerLoader::loadBouncer makes, with their fields.
pub data Bouncer : Type 0 where
  -- strategy, useIpset
  iptables : String → Bool → Bouncer
  noop : Bouncer

-- A call of a bouncer's method, by the name under which the bouncer is loaded.
pub data BouncerCall : Type 0 where
  ban unban : String → String → Option ℕ → BouncerCall
