-- ===== src/BanManager/Safety.antt =====
-- src/dnf2b/data/BanManager.cpp: which calls of bouncers `log` may make.
use doesnotfail2ban.Prelude.{
  ℕ, String, ◌≡◌, refl, true, false, ◌⊎◌, inl, inr, List, [], ◌∷◌, ◌++◌, arith, ◌∙◌,
}
use doesnotfail2ban.Prelude.Int.{ℤ}
use doesnotfail2ban.Prelude.Maps.{Map, contains}
use doesnotfail2ban.Prelude.Results.{ok}
use doesnotfail2ban.Structs.{Message}
use doesnotfail2ban.Bouncers.{BouncerCall, ban}
use doesnotfail2ban.Watcher.{Watcher}
use doesnotfail2ban.BanManager.Whitelist.{Asio, is_whitelisted}
use doesnotfail2ban.BanManager.{BanManager, record_ban, cache_fails, log_one, log}
use doesnotfail2ban.BanManager.Rounds.{log_induction}

-- A list of calls and one that continues it by calls with a property.
pub data Grows (P : BouncerCall → Type 0) (xs : List BouncerCall) : List BouncerCall → Type 0 where
  same : Grows P xs xs
  more : {ys : List BouncerCall} (c : BouncerCall) → Grows P xs ys → P c → Grows P xs (ys ++ c ∷ [])

module _ {P : BouncerCall → Type 0} where
  pub Grows-trans : {xs ys zs : List BouncerCall} → Grows P xs ys → Grows P ys zs → Grows P xs zs
  Grows-trans g same = g
  Grows-trans g (more c h p) = more c (Grows-trans g h) p

-- What `log` leaves alone.
pub record SameSetup {asio : Asio} (m m' : BanManager asio) : Type 0 where
  pub bouncers : m'.bouncers ≡ m.bouncers
  pub whitelist : m'.whitelist ≡ m.whitelist
  pub control : m'.control ≡ m.control
  pub reloaded : m'.has_reloaded_bans ≡ m.has_reloaded_bans

pub SameSetup-trans :
    {asio : Asio} {m m' m'' : BanManager asio} → SameSetup m m' → SameSetup m' m'' → SameSetup m m''
SameSetup-trans s t = record {
  bouncers = t.bouncers ∙ s.bouncers;
  whitelist = t.whitelist ∙ s.whitelist;
  control = t.control ∙ s.control;
  reloaded = t.reloaded ∙ s.reloaded;
}

module _ (ipow : ℤ → ℕ → ℤ) {asio : Asio} {Code : Type 0} (source : Watcher Code) where
  pub log_one-SameSetup :
      (now : ℤ) (ip : String) (messages : List Message) (m : BanManager asio)
      → SameSetup m (log_one ipow now source ip messages m).1
  unfolding log_one record_ban cache_fails
  log_one-SameSetup now ip messages m = ground arith

  -- A call that `log` may make: of the watcher's own bouncer, which is loaded, with the watcher's port,
  -- for an address that the whitelist does not exempt.
  abbrev pub IsRightful : BanManager asio → BouncerCall → Type 0
  IsRightful m c =
      (ip : String) × (c ≡ ban source.bouncer ip source.port)
      × (is_whitelisted asio m.whitelist ip ≡ ok false)
      × (contains source.bouncer m.bouncers ≡ true)

  pub log_one-calls :
      (now : ℤ) (ip : String) (messages : List Message) (m : BanManager asio)
      → ((log_one ipow now source ip messages m).1.calls ≡ m.calls)
        ⊎ (((log_one ipow now source ip messages m).1.calls
              ≡ m.calls ++ ban source.bouncer ip source.port ∷ [])
            × (is_whitelisted asio m.whitelist ip ≡ ok false)
            × (contains source.bouncer m.bouncers ≡ true))
  unfolding log_one record_ban cache_fails
  log_one-calls now ip messages m = ground arith

  pub IsRightful-SameSetup :
      (m m' : BanManager asio) (c : BouncerCall) → SameSetup m m' → IsRightful m' c → IsRightful m c
  IsRightful-SameSetup m m' c s (ip, e, w, l) = (ip, e, rw s.whitelist at w, rw s.bouncers at l)

  pub Grows-SameSetup :
      (m m' : BanManager asio) {xs ys : List BouncerCall}
      → SameSetup m m'
      → Grows (IsRightful m') xs ys
      → Grows (IsRightful m) xs ys
  Grows-SameSetup m m' s same = same
  Grows-SameSetup m m' s (more c g p) =
      more c (Grows-SameSetup m m' s g) (IsRightful-SameSetup m m' c s p)

  log_one-Grows :
      (now : ℤ) (ip : String) (messages : List Message) (m : BanManager asio)
      → Grows (IsRightful m) m.calls (log_one ipow now source ip messages m).1.calls
  log_one-Grows now ip messages m = elim (log_one-calls now ip messages m) [
    | inl e ↦ rw e same
    | inr (e, w, l) ↦ rw e (more _ same (ip, refl, w, l))
  ]

  -- Every bouncer call that a run of log adds, whether it returns or throws, is a ban by the watcher's
  -- own bouncer, which is loaded, with the watcher's port, of an address that is not whitelisted; the
  -- calls made before stay, and the bouncers, the whitelist and the settings are as before.
  pub log-Grows :
      (clock : String → ℤ) (caught : Map (List Message)) (m : BanManager asio)
      → Grows (IsRightful m) m.calls (log ipow clock source caught m).1.calls
        × SameSetup m (log ipow clock source caught m).1
  log-Grows clock caught m =
      log_induction ipow source (λ m'. Grows (IsRightful m) m.calls m'.calls × SameSetup m m')
        (λ now ip messages m' (g, s). (
          Grows-trans g (Grows-SameSetup m m' s (log_one-Grows now ip messages m')),
          SameSetup-trans s (log_one-SameSetup now ip messages m'),
        ))
        clock caught m
        (same, record { bouncers = refl; whitelist = refl; control = refl; reloaded = refl })
