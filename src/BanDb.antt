-- ===== src/BanDb.antt =====
-- src/dnf2b/data/BanDB.cpp: the SQLite database as its three tables, each a list of rows in the order
-- of their row ids. A method is its SQL statements: `DELETE ... WHERE` keeps the other rows,
-- `INSERT OR REPLACE` drops the row with the same unique columns and appends. The file, its indices and
-- the mutex are not modelled, and calls do not overlap here. The source's methods hold the lock
-- throughout, but for `unban` on its own: its guard ends with the `if` that it stands in.
pub mod Rows
pub mod Loading
pub mod Others
pub mod Unbans
pub mod Refinement
use doesnotfail2ban.Prelude.{
  ℕ, String, ◌≡◌, Bool, true, false, not, ◌&&◌, ◌||◌, Option, none, some, List, [], ◌∷◌, ◌++◌, map,
  ◌==◌, keep, any, if◌then◌else◌, value_or,
}
use doesnotfail2ban.Prelude.Int.{ℤ, pos, ◌+ℤ◌, ◌-ℤ◌, ltb_ℤ, leb_ℤ, eqb_ℤ}
use doesnotfail2ban.Prelude.Maps.{Map, insert}
use doesnotfail2ban.Structs.{BanInfo, IpInfo, BanLocationInfo}

-- IPRegistry: IP is the primary key.
pub record IpRow : Type 0 where
  pub ip : String
  pub ban_count : ℕ

-- FailRegistry: UNIQUE(IP, Time).
pub record FailRow : Type 0 where
  pub ip : String
  pub time : ℤ

-- BanRegistry: UNIQUE(IP, Bouncer).
pub record BanRow : Type 0 where
  pub ip : String
  pub bouncer : String
  pub ban_started : ℤ
  pub ban_duration : Option ℤ
  pub port : Option ℕ

pub record BanDb : Type 0 where
  pub ip_registry : List IpRow
  pub fail_registry : List FailRow
  pub ban_registry : List BanRow

-- The constructor: CREATE TABLE IF NOT EXISTS leaves the tables of an existing file alone.
unfoldable pub open_db : Option BanDb → BanDb
open_db none = record { ip_registry = []; fail_registry = []; ban_registry = [] }
open_db (some db) = db

-- DELETE FROM FailRegistry WHERE Time < now - failAge
unfoldable pub forgive_fails : ℤ → ℤ → BanDb → BanDb
forgive_fails now fail_age db = record db {
  fail_registry = keep (λ r. not (ltb_ℤ r.time (now -ℤ fail_age))) db.fail_registry;
}

-- DELETE FROM FailRegistry WHERE IP = ?
unfoldable pub wipe_fails_for : String → BanDb → BanDb
wipe_fails_for ip db = record db { fail_registry = keep (λ r. not (r.ip == ip)) db.fail_registry }

abbrev pub bans_at : String → String → BanRow → Bool
bans_at ip bouncer r = r.ip == ip && r.bouncer == bouncer

-- SELECT EXISTS(SELECT 1 FROM BanRegistry WHERE IP = ? AND Bouncer = ?)
unfoldable pub is_banned : String → String → BanDb → Bool
is_banned ip bouncer db = any (bans_at ip bouncer) db.ban_registry

-- SELECT BanCount FROM IPRegistry WHERE IP = ?, one step
unfoldable pub load_ban_count : String → List IpRow → ℕ
load_ban_count ip [] = 0
load_ban_count ip (r ∷ rs) = if r.ip == ip then r.ban_count else load_ban_count ip rs

-- SELECT Time FROM FailRegistry WHERE IP = ?
unfoldable pub load_fails : String → List FailRow → List ℤ
load_fails ip rows = map (λ r. r.time) (keep (λ r. r.ip == ip) rows)

abbrev pub ban_info : BanRow → BanInfo
ban_info r = record { ban_started = r.ban_started; ban_duration = r.ban_duration; port = r.port }

-- SELECT Bouncer, BanStarted, BanDuration, Port FROM BanRegistry WHERE IP = ?
unfoldable pub load_bans : String → List BanRow → Map BanInfo → Map BanInfo
load_bans ip [] bans = bans
load_bans ip (r ∷ rs) bans =
    load_bans ip rs (if r.ip == ip then insert r.bouncer (ban_info r) bans else bans)

unfoldable pub load_ip : String → BanDb → IpInfo
unfolding load_ban_count load_fails load_bans
load_ip ip db = record {
  ip = ip;
  curr_fails = load_fails ip db.fail_registry;
  ban_count = load_ban_count ip db.ip_registry;
  curr_bans = load_bans ip db.ban_registry [];
}

-- INSERT OR REPLACE INTO IPRegistry
unfoldable pub put_ip : IpRow → List IpRow → List IpRow
put_ip r rows = keep (λ q. not (q.ip == r.ip)) rows ++ r ∷ []

-- INSERT OR REPLACE INTO FailRegistry
unfoldable pub put_fail : FailRow → List FailRow → List FailRow
put_fail r rows = keep (λ q. not (q.ip == r.ip && eqb_ℤ q.time r.time)) rows ++ r ∷ []

-- INSERT OR REPLACE INTO BanRegistry
unfoldable pub put_ban : BanRow → List BanRow → List BanRow
put_ban r rows = keep (λ q. not (bans_at r.ip r.bouncer q)) rows ++ r ∷ []

unfoldable pub put_fails : String → List ℤ → List FailRow → List FailRow
unfolding put_fail
put_fails ip [] rows = rows
put_fails ip (t ∷ ts) rows = put_fails ip ts (put_fail (record { ip = ip; time = t }) rows)

abbrev pub ban_row : String → String → BanInfo → BanRow
ban_row ip bouncer b = record {
  ip = ip;
  bouncer = bouncer;
  ban_started = b.ban_started;
  ban_duration = b.ban_duration;
  port = b.port;
}

unfoldable pub put_bans : String → Map BanInfo → List BanRow → List BanRow
unfolding put_ban
put_bans ip [] rows = rows
put_bans ip ((bouncer, b) ∷ bans) rows = put_bans ip bans (put_ban (ban_row ip bouncer b) rows)

-- One transaction over the three tables.
unfoldable pub update_ip : IpInfo → BanDb → BanDb
unfolding put_ip put_fails put_bans
update_ip source db = record {
  ip_registry = put_ip (record { ip = source.ip; ban_count = source.ban_count }) db.ip_registry;
  fail_registry = put_fails source.ip source.curr_fails db.fail_registry;
  ban_registry = put_bans source.ip source.curr_bans db.ban_registry;
}

-- DELETE FROM BanRegistry WHERE IP = ? AND Bouncer = ?
unfoldable pub unban : String → String → BanDb → BanDb
unban ip bouncer db = record db {
  ban_registry = keep (λ r. not (bans_at ip bouncer r)) db.ban_registry;
}

unfoldable pub unban_all : List BanLocationInfo → BanDb → BanDb
unfolding unban
unban_all [] db = db
unban_all (info ∷ items) db = unban_all items (unban info.ip info.bouncer db)

-- BanDuration >= 0 AND (BanStarted + BanDuration) <= now; NULL passes no comparison.
unfoldable pub is_pending : ℤ → BanRow → Bool
is_pending now r = elim r.ban_duration [
  | none ↦ false
  | some d ↦ leb_ℤ (pos 0) d && leb_ℤ (r.ban_started +ℤ d) now
]

-- (BanDuration >= 0 AND (BanStarted + BanDuration) > now) OR BanDuration IS NULL
unfoldable pub is_still_banned : ℤ → BanRow → Bool
is_still_banned now r = elim r.ban_duration [
  | none ↦ true
  | some d ↦ leb_ℤ (pos 0) d && ltb_ℤ now (r.ban_started +ℤ d)
]

abbrev pub location : BanRow → BanLocationInfo
location r = record { ip = r.ip; bouncer = r.bouncer; port = r.port }

unfoldable pub get_pending_unbans : ℤ → BanDb → List BanLocationInfo
get_pending_unbans now db = map location (keep (is_pending now) db.ban_registry)

unfoldable pub get_banned_minus_pending_unbans : ℤ → BanDb → List BanLocationInfo
get_banned_minus_pending_unbans now db = map location (keep (is_still_banned now) db.ban_registry)
