-- ===== src/BanManager/Causes.antt =====
-- src/dnf2b/data/BanManager.cpp: `log` bans only what was caught.
use doesnotfail2ban.Prelude.{ℕ, String, ◌≡◌, refl, false, true, List, [], ◌∷◌, inl, inr}
use doesnotfail2ban.Prelude.Int.{ℤ}
use doesnotfail2ban.Prelude.Maps.{Map, contains, AllEntries}
use doesnotfail2ban.Prelude.Results.{ok, and_then_induction}
use doesnotfail2ban.Structs.{Message}
use doesnotfail2ban.Bouncers.{BouncerCall, ban}
use doesnotfail2ban.Watcher.{Watcher}
use doesnotfail2ban.BanManager.Whitelist.{Asio, is_whitelisted}
use doesnotfail2ban.BanManager.{BanManager, log_one, log}
use doesnotfail2ban.BanManager.Safety.{
  log-Grows, Grows, same, more, Grows-trans, SameSetup, SameSetup-trans, log_one-SameSetup,
  log_one-calls,
}

module _ (ipow : ℤ → ℕ → ℤ) {asio : Asio} {Code : Type 0} (source : Watcher Code)
    (Q : String → Type 0) (start : BanManager asio) where
  -- A call of ban for an address that is not whitelisted and has a property, on the watcher's bouncer.
  abbrev pub IsCaused : BouncerCall → Type 0
  IsCaused c =
      (ip : String) × (c ≡ ban source.bouncer ip source.port)
      × (is_whitelisted asio start.whitelist ip ≡ ok false)
      × (contains source.bouncer start.bouncers ≡ true)
      × Q ip

  log_one-IsCaused :
      (now : ℤ) (ip : String) (messages : List Message) (m : BanManager asio)
      → SameSetup start m
      → Q ip
      → Grows IsCaused m.calls (log_one ipow now source ip messages m).1.calls
  log_one-IsCaused now ip messages m s q = elim (log_one-calls ipow source now ip messages m) [
    | inl e ↦ rw e same
    | inr (e, w, l) ↦ rw e (more _ same (ip, refl, rw s.whitelist at w, rw s.bouncers at l, q))
  ]

  -- If each address caught has a property, so has each one that `log` bans.
  pub log-IsCaused :
      (clock : String → ℤ) (caught : Map (List Message)) (m : BanManager asio)
      → SameSetup start m
      → AllEntries (λ ip (messages : List Message). Q ip) caught
      → Grows IsCaused m.calls (log ipow clock source caught m).1.calls
  unfolding log
  log-IsCaused clock [] m s a = same
  log-IsCaused clock ((ip, messages) ∷ rest) m s a =
      (and_then_induction
        (λ (m' : BanManager asio). Grows IsCaused m.calls m'.calls × SameSetup start m')
        (log_one ipow (clock ip) source ip messages m) (log ipow clock source rest)
        (
          log_one-IsCaused (clock ip) ip messages m s a.0,
          SameSetup-trans s (log_one-SameSetup ipow source (clock ip) ip messages m),
        )
        (λ m' (g, t). (
          Grows-trans g (log-IsCaused clock rest m' t a.1),
          SameSetup-trans t (log-Grows ipow source clock rest m').1,
        ))).0
