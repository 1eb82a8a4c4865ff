-- ===== src/BanManager/Starting.antt =====
-- src/dnf2b/data/BanManager.cpp: the state that the constructor leaves is valid.
use doesnotfail2ban.Prelude.{String, List, [], ◌∷◌}
use doesnotfail2ban.Prelude.Maps.{Map}
use doesnotfail2ban.Prelude.Results.{Result, Ensures, >>=-Ensures_any}
use doesnotfail2ban.Config.{ControlConfig}
use doesnotfail2ban.Bouncers.{Bouncer}
use doesnotfail2ban.BanDb.{BanDb}
use doesnotfail2ban.BanDb.Rows.{IsConsistent}
use doesnotfail2ban.BanDb.Unbans.{HasDurations}
use doesnotfail2ban.BanManager.Whitelist.{Asio, parse_whitelist}
use doesnotfail2ban.BanManager.Construction.{load_bouncers, construct}
use doesnotfail2ban.BanManager.Invariant.{IsValid}

module _ {Json : Type 0} (load : String → Json → Result Bouncer) where
  pub construct-IsValid :
      (asio : Asio) (control : ControlConfig) (whitelist : List String) (bouncers : Map Json)
      (db : BanDb)
      → IsConsistent db
      → HasDurations db
      → Ensures IsValid (construct load asio control whitelist bouncers db)
  unfolding construct
  construct-IsValid asio control whitelist [] db c d =
      >>=-Ensures_any _ (parse_whitelist asio whitelist) _ (λ exempt. tt)
  construct-IsValid asio control whitelist (b ∷ bs) db c d =
      >>=-Ensures_any _ (parse_whitelist asio whitelist) _ (λ exempt.
        >>=-Ensures_any _ (load_bouncers load (b ∷ bs) []) _
          (λ bouncers. record { consistent = c; durations = d; sorted = tt; cached = tt }))
