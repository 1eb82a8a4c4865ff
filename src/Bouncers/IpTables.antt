-- ===== src/Bouncers/IpTables.antt =====
-- src/dnf2b/bouncers/IPTableBouncer.cpp and BouncerLoader.cpp: the shell commands of the iptables bouncer.
-- What a command answers, its exit code and its output, is a parameter, and may depend on the commands
-- before it. asio's parser of addresses is one too: the version of the address it reads, or an exception.
use Prim.Native.String.{String, ◌++◌}
use mathlib.Core.Bool.{Bool, false, not, ◌&&◌}
use mathlib.Core.Option.{Option}
use mathlib.Core.List.{List, ◌∷◌}
use Prim.Native.Nat.{ℕ}
use text.Mathlib.Text.{find?, ◌==◌}
use doesnotfail2ban.Prelude.{if◌then◌else◌, eqb, has_value, value_or}
use doesnotfail2ban.Prelude.Results.{Result, ok, throw, runtime_error, ◌>>=◌, and_then}
use doesnotfail2ban.Bouncers.{Bouncer, iptables, noop}

-- The commands so far, the last first.
abbrev pub Shell : Type 0
Shell = List String

-- The keys of the bouncer's JSON object that are read, where they are present.
pub record BouncerConfig : Type 0 where
  pub strategy : Option String
  pub ipset : Option Bool

-- BouncerLoader::loadBouncer, less what the constructor of IPTableBouncer runs
unfoldable pub load_bouncer : String → BouncerConfig → Result Bouncer
load_bouncer name config =
    let strategy = value_or config.strategy "DROP" in
    if name == "iptables"
    then (if not (strategy == "DROP") && not (strategy == "REJECT")
        then throw (runtime_error ("Unsupported strategy: " ++ strategy))
        else ok (iptables strategy (value_or config.ipset false)))
    else if name == "noop"
    then ok noop
    else throw (runtime_error "Invalid bouncer")

module _ (answer : Shell → String → ℕ × String) where
  abbrev pub code_of : Shell → String → ℕ
  code_of shell command = (answer shell command).0

  -- std::system, its exit code not looked at
  abbrev pub run : String → Shell → Shell
  run command shell = command ∷ shell

  -- std::system, where the source throws unless it returns 0
  unfoldable pub demand : String → String → Shell → Result (Unit {0}) × Shell
  demand command fault shell =
      if eqb (code_of shell command) 0
      then (ok tt, command ∷ shell)
      else (throw (runtime_error fault), command ∷ shell)

  -- The inner loop of the constructor, for INPUT or FORWARD.
  unfoldable pub inject : String → String → Shell → Result (Unit {0}) × Shell
  unfolding demand
  inject command chain shell =
      let check = command ++ " -C " ++ chain ++ " -j dnf2b" in
      let checked = check ∷ shell in
      demand (command ++ " -I " ++ chain ++ " -j dnf2b") "Fatal init error" (
        if eqb (code_of shell check) 0
        then run (command ++ " -D " ++ chain ++ " -j dnf2b") checked
        else checked)

  -- `-N` and the test of what it says, as the source has it.
  unfoldable pub make_chain : String → Shell → Result (Unit {0}) × Shell
  make_chain command shell =
      let new = command ++ " -N dnf2b" in
      let (code, output) = answer shell new in
      if eqb code 0
      then (ok tt, new ∷ shell)
      else if has_value (find? output "Chain already exists")
      then (throw (runtime_error "Failed to initialise iptables"), new ∷ shell)
      else (ok tt, run (command ++ " -F dnf2b") (new ∷ shell))

  -- The outer loop of the constructor, for iptables or ip6tables.
  unfoldable pub prepare : String → Shell → Result (Unit {0}) × Shell
  unfolding make_chain inject
  prepare command shell =
      and_then (make_chain command shell)
        (λ s. and_then (inject command "INPUT" s) (λ s'. inject command "FORWARD" s'))

  -- createIPTable, and the exception that its caller throws on false.
  unfoldable pub create_set : String → String → Shell → Result (Unit {0}) × Shell
  create_set name family shell =
      let create =
        "ipset create " ++ name ++ " hash:ip hashsize 4096 family " ++ family ++ " 2>&1" in
      let (code, output) = answer shell create in
      if eqb code 0
      then (ok tt, create ∷ shell)
      else if has_value (find? output "set with the same name already exists")
      then (ok tt, run ("ipset flush " ++ name) (create ∷ shell))
      else (throw (runtime_error "Failed to create ipset"), create ∷ shell)

  -- The commands of the constructor that `ipset` adds.
  unfoldable pub prepare_sets : String → Shell → Result (Unit {0}) × Shell
  unfolding create_set demand
  prepare_sets strategy shell = and_then (create_set "dnf2b-v4-blacklist" "inet" shell) (λ s.
      and_then (create_set "dnf2b-v6-blacklist" "inet6" s) (λ s'.
        and_then
          (demand ("iptables -A dnf2b -m set --match-set dnf2b-v4-blacklist src -j " ++ strategy)
            "Ipset rule fail" s')
          (demand ("ip6tables -A dnf2b -m set --match-set dnf2b-v6-blacklist src -j " ++ strategy)
            "Ipset rule fail")))

  -- The commands of IPTableBouncer's constructor.
  unfoldable pub prepare_all : String → Bool → Shell → Result (Unit {0}) × Shell
  unfolding prepare prepare_sets
  prepare_all strategy use_ipset shell = and_then (prepare "iptables" shell) (λ s.
      and_then (prepare "ip6tables" s)
        (λ s'. if use_ipset then prepare_sets strategy s' else (ok tt, s')))

-- IPTableBouncer::getRule
abbrev pub get_rule : String → String → String
get_rule strategy ip = "-n -s " ++ ip ++ " -j " ++ strategy

-- IPTableBouncer::getIpsetCommand
abbrev pub get_ipset_command : String → Bool → String
get_ipset_command ip remove =
    "ipset "
    ++ (if remove then "del" else "add")
    ++ " "
    ++ (if has_value (find? ip ":") then "dnf2b-v6-blacklist" else "dnf2b-v4-blacklist")

-- `is_v4 ip` is asio::ip::make_address(ip).is_v4().
module _ (is_v4 : String → Result Bool) where
  -- IPTableBouncer::getCommand
  unfoldable pub get_command : String → Result String
  get_command ip = is_v4 ip >>= λ v4. ok (if v4 then "iptables" else "ip6tables")

  -- The command of IPTableBouncer::ban, and with `true` that of IPTableBouncer::unban; what it answers is
  -- only logged.
  unfoldable pub command_for : String → Bool → Bool → String → Result String
  unfolding get_command
  command_for strategy use_ipset remove ip =
      if use_ipset
      then ok (get_ipset_command ip remove ++ " " ++ ip)
      else (get_command ip >>= λ command.
          ok (command ++ (if remove then " -D dnf2b " else " -A dnf2b ") ++ get_rule strategy ip))
