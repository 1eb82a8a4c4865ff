-- ===== src/BanManager/Rounds.antt =====
-- src/dnf2b/data/BanManager.cpp: the four outcomes of a round of `log`, and what all its rounds keep.
use doesnotfail2ban.Prelude.{
  ℕ, String, true, false, List, [], ◌∷◌, ◌++◌, length, replicate, ◌≡◌, ◌⊎◌, arith,
}
use doesnotfail2ban.Prelude.Int.{ℤ}
use doesnotfail2ban.Prelude.Maps.{Map, contains}
use doesnotfail2ban.Prelude.Results.{ok, and_then_induction}
use doesnotfail2ban.Structs.{IpInfo, Message}
use doesnotfail2ban.Bouncers.{ban}
use doesnotfail2ban.Watcher.{Watcher}
use doesnotfail2ban.BanManager.Whitelist.{Asio}
use doesnotfail2ban.BanManager.{
  BanManager, get_ip_info, log_one, log, record_ban, cache_fails, reaches_threshold,
}

module _ (ipow : ℤ → ℕ → ℤ) {asio : Asio} {Code : Type 0} (source : Watcher Code) where
  -- What is known of an address with the new fails added.
  abbrev pub failed : ℤ → String → List Message → BanManager asio → IpInfo
  failed now ip messages m = record (get_ip_info ip m) {
    curr_fails = (get_ip_info ip m).curr_fails ++ replicate (length messages) now;
  }

  abbrev pub with_call : String → BanManager asio → BanManager asio
  with_call ip m = record m { calls = m.calls ++ ban source.bouncer ip source.port ∷ [] }

  -- A round leaves the state alone, calls the bouncer for an address that it has banned already, bans
  -- an address that has reached the threshold, or keeps the fails of one that has not.
  pub log_one_cases :
      (now : ℤ) (ip : String) (messages : List Message) (m : BanManager asio)
      → ((log_one ipow now source ip messages m).1 ≡ m)
        ⊎ ((log_one ipow now source ip messages m ≡ (ok tt, with_call ip m))
            × (contains source.bouncer (get_ip_info ip m).curr_bans ≡ true))
        ⊎ ((log_one ipow now source ip messages m
              ≡ (ok tt, record_ban ipow now source (failed now ip messages m) (with_call ip m)))
            × (contains source.bouncer (get_ip_info ip m).curr_bans ≡ false)
            × (reaches_threshold (length (failed now ip messages m).curr_fails) source.limit
                ≡ true))
        ⊎ ((log_one ipow now source ip messages m
              ≡ (ok tt, cache_fails ip (failed now ip messages m) m))
            × (contains source.bouncer (get_ip_info ip m).curr_bans ≡ false)
            × (reaches_threshold (length (failed now ip messages m).curr_fails) source.limit
                ≡ false))
  unfolding log_one
  log_one_cases now ip messages m = ground arith

  -- What each round keeps, the whole loop keeps, whether it ends or throws.
  pub log_induction {κ} :
      (P : BanManager asio → Type κ)
      → ((now : ℤ) (ip : String) (messages : List Message) (m : BanManager asio)
          → P m
          → P (log_one ipow now source ip messages m).1)
      → (clock : String → ℤ) (caught : Map (List Message)) (m : BanManager asio) → P m
      → P (log ipow clock source caught m).1
  unfolding log
  log_induction P keeps clock [] m h = h
  log_induction P keeps clock ((ip, messages) ∷ rest) m h =
      and_then_induction P (log_one ipow (clock ip) source ip messages m)
        (log ipow clock source rest) (keeps (clock ip) ip messages m h)
        (λ s k. log_induction P keeps clock rest s k)
