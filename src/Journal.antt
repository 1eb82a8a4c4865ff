-- ===== src/Journal.antt =====
-- src/dnf2b/sources/JournalCTLParser.cpp and JournalCTLParser.hpp: the reader of the systemd journal,
-- JournalCTL. libsystemd is a parameter: whether each call of it succeeds, and the entries that
-- sd_journal_next goes through in a poll. std::stoull is a parameter too.
pub mod Polling
pub mod Dates
pub mod Restarts
pub mod Loader
use Prim.Native.String.{◌++◌}
use text.Mathlib.Text.{find?}
use doesnotfail2ban.Prelude.{
  ℕ, ◌+◌, ◌*◌, ◌/◌, String, ◌==◌, Bool, true, false, not, ◌&&◌, Option, none, some, List, [], ◌∷◌,
  ltb, leb, if◌then◌else◌, value_or, has_value,
}
use doesnotfail2ban.Prelude.Int.{ℤ, pos, negsuc, ◌*ℤ◌, ◌-ℤ◌, wrap64}
use doesnotfail2ban.Prelude.Results.{Result, ok, throw, runtime_error, bad_optional_access, ◌>>=◌}
use doesnotfail2ban.Structs.{Message}
use doesnotfail2ban.Pcre.{Pcre, Pattern, PcreMatcher, matcher, next, get, substr_from}
use doesnotfail2ban.Parsers.{Parser, ParserConfig, new_parser, search_ip}
use doesnotfail2ban.ReadState.{ReadState, store, read}

pub data IdMethod : Type 0 where
  syslog_identifier : IdMethod
  systemd_unit : IdMethod

-- JournalCTL::getField
unfoldable pub get_field : IdMethod → String
get_field syslog_identifier = "SYSLOG_IDENTIFIER"
get_field systemd_unit = "_SYSTEMD_UNIT"

-- What the calls of the constructor return: opening, whether a match of that text can be added, and
-- whether the journal can be moved to a time.
pub record Systemd : Type 0 where
  pub opens : Bool
  pub adds_match : String → Bool
  pub seeks : ℕ → Bool

-- An entry: what sd_journal_get_data gives for a field, which is "FIELD=value".
pub record Entry : Type 0 where
  pub get_data : String → Option String

-- JournalCTL. The constructor does not set the pointer where it cannot open the journal; the model has it
-- null then.
pub record JournalCtl : Type 0 where
  pub is_open : Bool
  pub has_read : Bool

-- JournalCTL::JournalCTL
unfoldable pub open_journal : Systemd → String → ℕ → IdMethod → Result JournalCtl
open_journal systemd syslog_id since method =
    if not systemd.opens
    then ok (record { is_open = false; has_read = false })
    else if not (systemd.adds_match (get_field method ++ ("=" ++ syslog_id)))
    then throw (runtime_error "Failed to subscribe to systemd unit")
    else if ltb 0 since && not (systemd.seeks since)
    then throw (runtime_error "Journald failed")
    else ok (record { is_open = true; has_read = false })

-- JournalCTL::parseValue, where npos + 1 is 0
unfoldable pub parse_value : String → Result String
parse_value raw = elim (find? raw "=") [
  | none ↦ substr_from raw 0
  | some i ↦ substr_from raw (i + 1)
]

-- The arguments of the callback.
pub record RawEntry : Type 0 where
  pub message : String
  pub time : ℕ
  pub host : String
  pub pid : String

abbrev or_data : Option String → Option String → Option String
or_data none other = other
or_data (some raw) other = some raw

-- A field that may be missing.
abbrev field_or_blank : Option String → Result String
field_or_blank none = ok ""
field_or_blank (some raw) = parse_value raw

-- duration_cast<seconds>(microseconds(time)), where the count is an int64_t
abbrev pub seconds_of : ℤ → ℤ
seconds_of (pos n) = pos (n / 1000000)
seconds_of (negsuc n) = pos 0 -ℤ pos ((n + 1) / 1000000)

abbrev pub date_of : ℕ → ℤ
date_of time = wrap64 (seconds_of (wrap64 (pos time)) *ℤ pos 1000000000)

module _ (stoull : String → Result ℕ) where
  abbrev timestamp : Option String → Result ℕ
  timestamp none = throw (runtime_error "Failed to load date")
  timestamp (some raw) = parse_value raw >>= stoull

  -- The body of the loop of JournalCTL::read, up to the callback.
  unfoldable pub read_entry : Entry → Result RawEntry
  unfolding parse_value
  read_entry e = do
    time ←
        timestamp
          (or_data (e.get_data "__REALTIME_TIMESTAMP") (e.get_data "_SOURCE_REALTIME_TIMESTAMP"))
    message ← field_or_blank (e.get_data "MESSAGE")
    host ← field_or_blank (e.get_data "_HOSTNAME")
    pid ← field_or_blank (or_data (e.get_data "_PID") (e.get_data "SYSLOG_PID"))
    ok (record { message = message; time = time; host = host; pid = pid })
