-- ===== src/Daemon/Starting.antt =====
-- src/dnf2b/core/Daemon.cpp: the constructor, and the daemon that it starts.
use doesnotfail2ban.Prelude.{ℕ, String, ◌≡◌, Bool, Option, List, [], subst}
use doesnotfail2ban.Prelude.Int.{ℤ}
use doesnotfail2ban.Prelude.Maps.{Map}
use doesnotfail2ban.Prelude.Results.{Result, ok, ◌>>=◌, Ensures, >>=-Ensures, >>=-Ensures_any}
use doesnotfail2ban.Config.{ControlConfig}
use doesnotfail2ban.Bouncers.{Bouncer}
use doesnotfail2ban.BanDb.{BanDb}
use doesnotfail2ban.BanDb.Rows.{IsConsistent}
use doesnotfail2ban.BanDb.Unbans.{HasDurations}
use doesnotfail2ban.BanManager.{BanManager}
use doesnotfail2ban.BanManager.Whitelist.{Asio}
use doesnotfail2ban.BanManager.Construction.{construct}
use doesnotfail2ban.BanManager.Starting.{construct-IsValid}
use doesnotfail2ban.BanManager.Invariant.{IsValid}
use doesnotfail2ban.Filter.{Filter}
use doesnotfail2ban.MessageBuffer.{Pton}
use doesnotfail2ban.Parsers.{Parser}
use doesnotfail2ban.Pcre.{Pcre}
use doesnotfail2ban.Daemon.{WatcherConfig, Pipeline, reload}
use doesnotfail2ban.Daemon.Running.{DaemonState, Reachable, Reachable-IsValid}

-- The configuration, with the database as it is opened.
pub record Setup (Json : Type 0) : Type 0 where
  pub control : ControlConfig
  pub whitelist : List String
  pub bouncers : Map Json
  pub watchers : List WatcherConfig
  pub db : BanDb

module _ {Json Code : Type 0} (load_bouncer : String → Json → Result Bouncer)
    (load_parser : String → String → Result (Option (Parser Code)))
    (load_filter : String → Result (Filter Code)) (enable_buffer : Parser Code → Bool)
    (asio : Asio) where
  -- Daemon::Daemon: the manager, then reload.
  unfoldable pub new_daemon : Setup Json → Result (Map (Pipeline Code) × BanManager asio)
  new_daemon conf =
      construct load_bouncer asio conf.control conf.whitelist conf.bouncers conf.db >>= λ man.
      reload load_parser load_filter enable_buffer conf.control.max_attempts conf.watchers []
      >>= λ pipelines. ok (pipelines, man)

  new_daemon-IsValid :
      (conf : Setup Json)
      → IsConsistent conf.db
      → HasDurations conf.db
      → Ensures (λ (s : Map (Pipeline Code) × BanManager asio). IsValid s.1) (new_daemon conf)
  unfolding new_daemon
  new_daemon-IsValid conf c d =
      >>=-Ensures IsValid _
        (construct load_bouncer asio conf.control conf.whitelist conf.bouncers conf.db) _
        (construct-IsValid load_bouncer asio conf.control conf.whitelist conf.bouncers conf.db c d)
        (λ man h.
          >>=-Ensures_any _
            (reload load_parser load_filter enable_buffer conf.control.max_attempts conf.watchers
              [])
            _ (λ pipelines. h))

module _ {Json : Type 0} (load_bouncer : String → Json → Result Bouncer) (pcre : Pcre)
    (load_parser : String → String → Result (Option (Parser pcre.Code)))
    (load_filter : String → Result (Filter pcre.Code)) (enable_buffer : Parser pcre.Code → Bool)
    (inet_pton : Bool → String → Pton) (ipow : ℤ → ℕ → ℤ) (asio : Asio) where
  -- A daemon that was constructed on a database that meets its UNIQUE constraints, with durations from 0
  -- or NULL, has a valid ban manager in every state that it reaches, whatever the order of the polls and of
  -- the rounds of the unban monitor, and whatever messages the polls bring.
  pub new_daemon-Reachable :
      (conf : Setup Json) (start s : DaemonState inet_pton pcre ipow asio)
      → IsConsistent conf.db
      → HasDurations conf.db
      → new_daemon load_bouncer load_parser load_filter enable_buffer asio conf ≡ ok start
      → Reachable inet_pton pcre ipow asio start s
      → IsValid s.1
  new_daemon-Reachable conf start s c d made r = Reachable-IsValid inet_pton pcre ipow asio r (
      subst (λ m. Ensures (λ (t : DaemonState inet_pton pcre ipow asio). IsValid t.1) m) made
        (new_daemon-IsValid load_bouncer load_parser load_filter enable_buffer asio conf c d))
