-- ===== src/Cli/Main.antt =====
-- src/dnf2b/Main.cpp: the commands and the exit status. CLI11's parsing is a parameter: a command is what
-- it has read. The daemon and the two utilities are parameters too, for what they do.
use doesnotfail2ban.Prelude.{
  String, Bool, true, false, not, ◌&&◌, Option, none, some, if◌then◌else◌,
}
use doesnotfail2ban.Prelude.Int.{ℤ, pos, negsuc}
use doesnotfail2ban.Prelude.Results.{Fault, Result, ok, throw, runtime_error, thrown_int}

pub data Command : Type 0 where
  version : Command
  daemon : Command
  ban : String → Command
  unban : String → Command
  delete_lockfile : Command
  filter_wizard : Bool → Command
  test : String → String → Command

-- What the callback of a command does. The daemon runs with the lock or without it.
pub data Action : Type 0 where
  shows_version : Action
  runs_daemon : Bool → Action
  shows_todo : String → Action
  removes_lockfile : Action
  runs_utility : Action

-- The daemon and the utilities give `none`, or the exception that leaves them.
-- `config` is what reading config.local.json gives, `none` if the file cannot be opened; `run` is the
-- daemon on it.
pub record Host (Config : Type 0) : Type 0 where
  pub is_root : Bool
  pub lock_is_free : Bool
  pub config : Option (Result Config)
  pub run : Config → Option Fault
  pub filter_wizard : Bool → Option Fault
  pub test_line_matches : String → String → Option Fault

-- `throw -1`, or an exception.
pub data Thrown : Type 0 where
  not_root : Thrown
  fault : Fault → Thrown

pub data Outcome : Type 0 where
  done : Action → Outcome
  thrown : Thrown → Outcome

abbrev outcome : Action → Option Fault → Outcome
outcome action none = done action
outcome action (some e) = thrown (fault e)

-- The commands with checkRoot
abbrev needs_root : Command → Bool
needs_root Command.daemon = true
needs_root (Command.ban ip) = true
needs_root (Command.unban ip) = true
needs_root Command.delete_lockfile = true
needs_root _ = false

module _ {Config : Type 0} (host : Host Config) where
  abbrev run_on : Option (Result Config) → Option Fault
  run_on none = some (runtime_error "Config load error")
  run_on (some (throw e)) = some e
  run_on (some (ok config)) = host.run config

  -- The callback of a command. A lock that is taken is logged.
  unfoldable callback : Command → Outcome
  callback Command.version = done shows_version
  callback Command.daemon = outcome (runs_daemon host.lock_is_free) (run_on host.config)
  callback (Command.ban ip) = done (shows_todo ip)
  callback (Command.unban ip) = done (shows_todo "")
  callback Command.delete_lockfile = done removes_lockfile
  callback (Command.filter_wizard insensitive) =
      outcome runs_utility (host.filter_wizard insensitive)
  callback (Command.test test_string parser) =
      outcome runs_utility (host.test_line_matches test_string parser)

  unfoldable pub run_command : Command → Outcome
  unfolding callback
  run_command command =
      if needs_root command && not host.is_root then thrown not_root else callback command

-- What `main` returns; `none` where no handler takes the exception and the program is terminated.
unfoldable pub exit_status : Outcome → Option ℤ
exit_status (done action) = some (pos 0)
exit_status (thrown not_root) = some (negsuc 0)
exit_status (thrown (fault thrown_int)) = some (pos 255)
exit_status (thrown (fault (runtime_error text))) = some (pos 255)
exit_status (thrown (fault Fault.system_error)) = some (pos 255)
exit_status (thrown (fault _)) = none
