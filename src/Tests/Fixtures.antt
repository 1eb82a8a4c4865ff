-- ===== src/Tests/Fixtures.antt =====
-- Concrete stand-ins for the libraries that the code calls, and small states of each component.
use Prim.Native.String.{len}
use doesnotfail2ban.Prelude.{
  ℕ, zero, suc, ◌+◌, String, ◌==◌, Bool, true, false, Option, none, some, List, [], ◌∷◌, leb, eqb,
  if◌then◌else◌,
}
use doesnotfail2ban.Prelude.Int.{ℤ, pos, ◌*ℤ◌}
use doesnotfail2ban.Structs.{Message}
use doesnotfail2ban.Config.{default_control}
use doesnotfail2ban.Bouncers.{Bouncer, noop}
use doesnotfail2ban.BanDb.{BanDb, BanRow}
use doesnotfail2ban.Pcre.{Pcre}
use doesnotfail2ban.Filter.{Filter}
use doesnotfail2ban.MessageBuffer.{MessageBuffer, Pton, valid, invalid}
use doesnotfail2ban.Watcher.{Watcher}
use doesnotfail2ban.BanManager.{BanManager}
use doesnotfail2ban.BanManager.Whitelist.{Asio, Address, v4, v6, address_v4}
use text.Mathlib.Text.{find?}

abbrev pub power : ℤ → ℕ → ℤ
power b zero = pos 1
power b (suc n) = b *ℤ power b n

-- Two addresses of version 4 and one of version 6; a network is one address.
abbrev parse_address : String → Option (Address ℕ ℕ)
parse_address text =
    if text == "10.0.0.1"
    then some (v4 1)
    else if text == "10.0.0.2"
    then some (v4 2)
    else if text == "::1"
    then some (v6 1)
    else none

abbrev pub two_hosts : Asio
two_hosts = record {
  AddressV4 = ℕ;
  AddressV6 = ℕ;
  NetworkV4 = ℕ;
  NetworkV6 = ℕ;
  make_address = parse_address;
  make_network_v4 = λ text. none;
  make_network_v6 = λ text. none;
  host_v4 = λ a. a;
  host_v6 = λ a. a;
  is_subnet_of_v4 = eqb;
  is_subnet_of_v6 = eqb;
  eq_v4 = eqb;
  eq_v6 = eqb;
}

abbrev pub match_after : ℕ → ℕ → ℕ → Option (List (ℕ × ℕ))
match_after start end size = if leb end size then some ((start, size) ∷ (end, size) ∷ []) else none

abbrev pub match_at : String → String → Option ℕ → Option (List (ℕ × ℕ))
match_at code text none = none
match_at code text (some i) = match_after i (i + len code) (len text)

-- A pattern is a literal text; what follows its first occurrence is the group IP.
abbrev pub literal : Pcre
literal = record {
  Code = String;
  compile = λ text options. some text;
  exec = λ code text offset. match_at code text (find? text code);
  number_from_name = λ code name. if name == "IP" then some 1 else none;
}

abbrev pub any_text : Bool → String → Pton
any_text is_v6 text = if text == "nowhere" then invalid else valid

abbrev pub from_filter : Filter String
from_filter = record {
  patterns =
      record { code = "user "; raw_pattern = "user " }
      ∷ record { code = "from "; raw_pattern = "from " }
      ∷ [];
  insensitive = true;
  filter_name = "ssh";
}

abbrev pub message : String → String → String → Message
message text ip process = record {
  entry_date = pos 0;
  host = "host";
  message = text;
  ip = ip;
  process = process;
}

abbrev pub ssh : Watcher String
ssh = record {
  id = "ssh";
  multi_process_id = none;
  port = some 22;
  limit = pos 3;
  filters = from_filter ∷ [];
  bouncer = "iptables";
}

abbrev pub web : Watcher String
web = record {
  id = "web";
  multi_process_id = none;
  port = some 80;
  limit = pos 5;
  filters = from_filter ∷ [];
  bouncer = "proxy";
}

abbrev pub ban_of : String → String → ℤ → Option ℤ → BanRow
ban_of ip bouncer started duration = record {
  ip = ip;
  bouncer = bouncer;
  ban_started = started;
  ban_duration = duration;
  port = none;
}

-- 10.0.0.1 has two fails; 10.0.0.2 has been banned by the bouncer iptables from 50 to 150.
abbrev pub two_rows : BanDb
two_rows = record {
  ip_registry = record { ip = "10.0.0.2"; ban_count = 1 } ∷ [];
  fail_registry =
      record { ip = "10.0.0.1"; time = pos 90 } ∷ record { ip = "10.0.0.1"; time = pos 95 } ∷ [];
  ban_registry =
      ban_of "10.0.0.2" "iptables" (pos 50) (some (pos 100))
      ∷ ban_of "10.0.0.2" "mail" (pos 50) none
      ∷ [];
}

abbrev pub bouncers : List (String × Bouncer)
bouncers = ("iptables", noop) ∷ ("mail", noop) ∷ ("proxy", noop) ∷ []

abbrev pub manager : BanManager two_hosts
manager = record {
  bouncers = bouncers;
  whitelist = address_v4 7 ∷ [];
  has_reloaded_bans = false;
  db = two_rows;
  fail_cache = [];
  control = default_control;
  calls = [];
}

-- One message of sshd waits, and the address last seen of cron is cached.
abbrev pub buffer : MessageBuffer
buffer = record {
  hold = ("sshd", record { msg = message "closed" "" "sshd" ∷ []; failed_checks = 3 }) ∷ [];
  buff = ("cron", record { ip = "10.0.0.2"; passed_cycles = 1 }) ∷ [];
  out = [];
  enable_cache = true;
}
