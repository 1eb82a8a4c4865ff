-- ===== src/Tests/Polling.antt =====
-- The daemon and the file parser on small inputs.
use Prim.Native.String.{◌++◌}
use doesnotfail2ban.Prelude.{
  String, ◌≡◌, refl, Bool, true, false, Option, none, some, List, [], ◌∷◌,
}
use doesnotfail2ban.Prelude.Int.{pos}
use doesnotfail2ban.Prelude.Maps.{AllEntries, lookup, insert}
use doesnotfail2ban.Prelude.Results.{Result, ok, Ensures}
use doesnotfail2ban.Structs.{Message}
use doesnotfail2ban.Filter.{Filter}
use doesnotfail2ban.BanManager.Invariant.{IsValid}
use doesnotfail2ban.Parsers.{Parser, enable_buffer}
use doesnotfail2ban.Parsers.Files.{newline, poll}
use doesnotfail2ban.Parsers.Lines.{joined, poll_append}
use doesnotfail2ban.Daemon.{WatcherConfig, Pipeline, reload}
use doesnotfail2ban.Daemon.Reloading.{IsReady, reload-IsReady}
use doesnotfail2ban.Daemon.Running.{DaemonState, Reachable, starts, polls, polled}
use doesnotfail2ban.Tests.Fixtures.{
  power, two_hosts, literal, any_text, from_filter, message, ssh, manager, two_rows,
}
use doesnotfail2ban.Config.{default_control}
use doesnotfail2ban.Bouncers.{Bouncer, noop}
use doesnotfail2ban.MessageBuffer.{create}
use doesnotfail2ban.BanManager.Construction.{construct}
use doesnotfail2ban.BanManager.Whitelist.{parse_whitelist}
use doesnotfail2ban.Daemon.Starting.{Setup, new_daemon, new_daemon-Reachable}
use doesnotfail2ban.Tests.Database.{two_rows-IsConsistent, two_rows-HasDurations}

-- Every line is a message.
abbrev whole_line : String → Result (Option Message)
whole_line line = ok (some (message line "" ""))

poll_append_example :
    joined whole_line
      (poll whole_line (some ("first" ++ newline)) 0)
      (poll whole_line (some (("first" ++ newline) ++ "second")))
    ≡ poll whole_line (some (("first" ++ newline) ++ "second")) 0
poll_append_example = poll_append whole_line "first" "second"

abbrev auth_parser : Parser String
auth_parser = record {
  pattern = none;
  time_format = "";
  fallback_search = none;
  config = record { multiprocess = none; pattern = none; ip_fallback_search = none };
  parser_name = "sshd";
  resource_name = "auth.log";
  multiprocess = false;
}

abbrev ssh_config : WatcherConfig
ssh_config = record {
  enabled = none;
  file = some "auth.log";
  resource = none;
  process_id = none;
  id = some "ssh";
  parser = some "sshd";
  port = some 22;
  limit = none;
  filters = some ("ssh" ∷ []);
  banaction = some "iptables";
}

abbrev load_auth : String → String → Result (Option (Parser String))
load_auth name file = ok (some auth_parser)

abbrev load_ssh : String → Result (Filter String)
load_ssh name = ok from_filter

reload-IsReady_example :
    Ensures
      (AllEntries (IsReady load_auth load_ssh (enable_buffer literal)))
      (reload load_auth load_ssh (enable_buffer literal) (pos 3) (ssh_config ∷ []) [])
reload-IsReady_example =
    reload-IsReady load_auth load_ssh (enable_buffer literal) (pos 3) (ssh_config ∷ []) [] tt

abbrev pub auth_log : Pipeline String
auth_log = record {
  parser = auth_parser;
  watchers = record ssh { multi_process_id = none; limit = default_control.max_attempts } ∷ [];
  buff = create false;
}

abbrev first_setup : Setup Bool
first_setup = record {
  control = default_control;
  whitelist = [];
  bouncers = ("iptables", true) ∷ [];
  watchers = ssh_config ∷ [];
  db = two_rows;
}

abbrev load_any : String → Bool → Result Bouncer
load_any name config = ok noop

abbrev pub at_start : DaemonState any_text literal power two_hosts
at_start = (
  ("auth.log", auth_log) ∷ [],
  record manager { bouncers = ("iptables", noop) ∷ []; whitelist = [] },
)

constructed :
    new_daemon load_any load_auth load_ssh (enable_buffer literal) two_hosts first_setup
    ≡ ok at_start
unfolding new_daemon construct reload lookup insert parse_whitelist create
constructed = refl

abbrev pub one_line : List Message
one_line = message "from 10.0.0.1" "" "sshd" ∷ []

one_poll :
    Reachable any_text literal power two_hosts at_start (
      polled any_text literal power two_hosts (λ ip. pos 100) "auth.log" auth_log one_line at_start)
unfolding lookup
one_poll = polls (λ ip. pos 100) "auth.log" auth_log one_line refl starts

new_daemon-Reachable_example :
    IsValid
      (polled any_text literal power two_hosts
        (λ ip. pos 100)
        "auth.log"
        auth_log
        one_line
        at_start).1
new_daemon-Reachable_example =
    new_daemon-Reachable load_any literal load_auth load_ssh (enable_buffer literal) any_text power
      two_hosts first_setup at_start
      (polled any_text literal power two_hosts (λ ip. pos 100) "auth.log" auth_log one_line
        at_start)
      two_rows-IsConsistent two_rows-HasDurations constructed one_poll
