-- ===== src/BanManager/Construction.antt =====
-- src/dnf2b/data/BanManager.cpp: the constructor of the manager.
use doesnotfail2ban.Prelude.{String, false, List, [], ◌∷◌}
use doesnotfail2ban.Prelude.Maps.{Map, insert}
use doesnotfail2ban.Prelude.Results.{Result, ok, throw, runtime_error, ◌>>=◌}
use doesnotfail2ban.Config.{ControlConfig}
use doesnotfail2ban.Bouncers.{Bouncer}
use doesnotfail2ban.BanDb.{BanDb}
use doesnotfail2ban.BanManager.{BanManager}
use doesnotfail2ban.BanManager.Whitelist.{Asio, parse_whitelist}

-- The last loop of the constructor; `load` is BouncerLoader::loadBouncer.
module _ {Json : Type 0} (load : String → Json → Result Bouncer) where
  unfoldable pub load_bouncers : Map Json → Map Bouncer → Result (Map Bouncer)
  load_bouncers [] bouncers = ok bouncers
  load_bouncers ((name, config) ∷ rest) bouncers = do
    b ← load name config
    load_bouncers rest (insert name b bouncers)

  -- BanManager::BanManager
  unfoldable pub construct :
      (asio : Asio) → ControlConfig → List String → Map Json → BanDb → Result (BanManager asio)
  unfolding load_bouncers
  construct asio control whitelist [] db = do
    exempt ← parse_whitelist asio whitelist
    throw (runtime_error "There's no point in running dnf2b without bouncers. Fix your config")
  construct asio control whitelist (b ∷ bs) db = do
    exempt ← parse_whitelist asio whitelist
    bouncers ← load_bouncers (b ∷ bs) []
    ok (record {
      bouncers = bouncers;
      whitelist = exempt;
      has_reloaded_bans = false;
      db = db;
      fail_cache = [];
      control = control;
      calls = [];
    })
