-- ===== src/BanManager/Durations.antt =====
-- src/dnf2b/data/BanManager.cpp: what is known of an address, and the durations of its bans.
use doesnotfail2ban.Prelude.{
  ℕ, String, ◌≡◌, refl, Bool, true, false, Option, none, List, [], ◌∷◌, arith, if◌then◌else◌, All,
  All-append, All-keep,
}
use doesnotfail2ban.Prelude.Int.{◌*ℤ◌, ℤ, pos}
use doesnotfail2ban.Prelude.Maps.{Map, insert, IsMap, AllEntries, AllEntries-insert}
use doesnotfail2ban.Structs.{BanInfo, IpInfo, BanLocationInfo}
use doesnotfail2ban.Config.{ControlConfig}
use doesnotfail2ban.BanDb.{
  BanDb, BanRow, load_bans, load_ip, put_ban, put_bans, ban_row, ban_info, unban, unban_all,
}
use doesnotfail2ban.BanDb.Loading.{load_bans-IsMap}
use doesnotfail2ban.BanDb.Unbans.{IsDuration, HasDurations}
use doesnotfail2ban.BanManager.{ban_duration, cap_overflow, negsuc, wrap64, is_negative}

abbrev pub IsBan : String → BanInfo → Type 0
IsBan bouncer b = IsDuration b.ban_duration

-- What is known of an address, under its own name.
pub record IsInfo (ip : String) (info : IpInfo) : Type 0 where
  pub named : info.ip ≡ ip
  pub sorted : IsMap info.curr_bans
  pub durations : AllEntries IsBan info.curr_bans

cap_overflow-IsDuration : (d : ℤ) → IsDuration (cap_overflow d)
unfolding cap_overflow
cap_overflow-IsDuration (pos n) = omega arith
cap_overflow-IsDuration (negsuc n) = tt

none_or-IsDuration : (b : Bool) (o : Option ℤ) → IsDuration o → IsDuration (if b then none else o)
none_or-IsDuration true o h = tt
none_or-IsDuration false o h = h

-- The overflow protection leaves no negative duration.
pub ban_duration-IsDuration :
    (ipow : ℤ → ℕ → ℤ) (control : ControlConfig) (n : ℕ) → IsDuration (ban_duration ipow control n)
unfolding ban_duration
ban_duration-IsDuration ipow control n =
    let product : ℤ = wrap64 (control.ban_period *ℤ ipow control.ban_increment n) in
    none_or-IsDuration (is_negative control.ban_period) (cap_overflow product)
      (cap_overflow-IsDuration product)

abbrev RowDuration : BanRow → Type 0
RowDuration r = IsDuration r.ban_duration

pub put_bans-durations :
    (ip : String) (bans : Map BanInfo) (rows : List BanRow)
    → AllEntries IsBan bans
    → All RowDuration rows
    → All RowDuration (put_bans ip bans rows)
unfolding put_bans
put_bans-durations ip [] rows b h = h
put_bans-durations ip ((k, v) ∷ bans) rows b h =
    put_bans-durations ip bans (put_ban (ban_row ip k v) rows) b.1
      (unfold put_ban in All-append RowDuration _ _ (All-keep RowDuration _ rows h) (b.0, tt))

load_bans-durations :
    (ip : String) (rows : List BanRow) (bans : Map BanInfo)
    → All RowDuration rows
    → AllEntries IsBan bans
    → AllEntries IsBan (load_bans ip rows bans)
unfolding load_bans
load_bans-durations ip [] bans h b = b
load_bans-durations ip (r ∷ rows) bans h b = ground (
  arith,
  load_bans-durations ip rows bans h.1,
  load_bans-durations ip rows (insert r.bouncer (ban_info r) bans) h.1,
  AllEntries-insert IsBan r.bouncer (ban_info r) bans h.0 b,
)

pub load_ip-IsInfo : (ip : String) (db : BanDb) → HasDurations db → IsInfo ip (load_ip ip db)
unfolding load_ip
load_ip-IsInfo ip db h = record {
  named = refl;
  sorted = load_bans-IsMap ip db.ban_registry [] tt;
  durations = load_bans-durations ip db.ban_registry [] h tt;
}

pub unban_all-durations :
    (items : List BanLocationInfo) (db : BanDb)
    → HasDurations db
    → HasDurations (unban_all items db)
unfolding unban_all unban
unban_all-durations [] db h = h
unban_all-durations (i ∷ items) db h =
    unban_all-durations items (unban i.ip i.bouncer db) (All-keep RowDuration _ db.ban_registry h)
