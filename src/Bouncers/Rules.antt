-- ===== src/Bouncers/Rules.antt =====
-- src/dnf2b/bouncers/IPTableBouncer.cpp: what has been run when the constructor returns, and when the
-- chain of an earlier run is still there.
use Prim.Native.String.{String, ◌++◌}
use mathlib.Core.Path.{◌≡◌, refl}
use mathlib.Core.Logic.{inl, inr}
use mathlib.Core.Bool.{Bool, true, false}
use mathlib.Core.List.{◌∷◌}
use Prim.Native.Nat.{ℕ}
use text.Mathlib.Text.{find?}
use doesnotfail2ban.Prelude.{if◌then◌else◌, eqb, has_value, Bool-cases}
use doesnotfail2ban.Prelude.Results.{Result, ok, throw, runtime_error, and_then}
use doesnotfail2ban.Bouncers.IpTables.{
  Shell, code_of, demand, inject, make_chain, prepare, create_set, prepare_sets, prepare_all,
}

module _ (answer : Shell → String → ℕ × String) where
  -- A command has been run and has returned 0.
  pub data HasRun (command : String) : Shell → Type 0 where
    now :
        {before : Shell}
        → eqb (code_of answer before command) 0 ≡ true
        → HasRun command (command ∷ before)
    earlier : {shell : Shell} (last : String) → HasRun command shell → HasRun command (last ∷ shell)

  abbrev Outcome : Type 0
  Outcome = Result (Unit {0}) × Shell

  -- What holds of the commands if the constructor goes on.
  abbrev pub Then : (Shell → Type 0) → Outcome → Type 0
  Then P (ok x, shell) = P shell
  Then P (throw e, shell) = Unit

  and_then-Then :
      (P Q : Shell → Type 0) (r : Outcome) (next : Shell → Outcome)
      → Then P r
      → ((s : Shell) → P s → Then Q (next s))
      → Then Q (and_then r next)
  and_then-Then P Q (ok x, shell) next h k = k shell h
  and_then-Then P Q (throw e, shell) next h k = tt

  module _ (command : String) where
    demand-keeps :
        (c fault : String) (shell : Shell)
        → HasRun command shell
        → Then (HasRun command) (demand answer c fault shell)
    unfolding demand
    demand-keeps c fault shell h = elim (Bool-cases (eqb (code_of answer shell c) 0)) [
      | inl t ↦ rw t (earlier c h)
      | inr f ↦ rw f tt
    ]

    inject-keeps :
        (c chain : String) (shell : Shell)
        → HasRun command shell
        → Then (HasRun command) (inject answer c chain shell)
    unfolding inject
    inject-keeps c chain shell h =
        let check : String = c ++ " -C " ++ chain ++ " -j dnf2b" in
        elim (Bool-cases (eqb (code_of answer shell check) 0)) [
          | inl t ↦ rw t (demand-keeps _ _ _ (earlier _ (earlier check h)))
          | inr f ↦ rw f (demand-keeps _ _ _ (earlier check h))
        ]

    make_chain-keeps :
        (c : String) (shell : Shell)
        → HasRun command shell
        → Then (HasRun command) (make_chain answer c shell)
    unfolding make_chain
    make_chain-keeps c shell h =
        let new : String = c ++ " -N dnf2b" in
        elim (Bool-cases (eqb (code_of answer shell new) 0)) [
          | inl t ↦ rw t (earlier new h)
          | inr f ↦
              rw f
                (elim (Bool-cases (has_value (find? (answer shell new).1 "Chain already exists"))) [
                  | inl e ↦ rw e tt
                  | inr e ↦ rw e (earlier _ (earlier new h))
                ])
        ]

    prepare-keeps :
        (c : String) (shell : Shell)
        → HasRun command shell
        → Then (HasRun command) (prepare answer c shell)
    unfolding prepare
    prepare-keeps c shell h =
        and_then-Then (HasRun command) (HasRun command) (make_chain answer c shell) _
          (make_chain-keeps c shell h)
          (λ s k.
            and_then-Then (HasRun command) (HasRun command) (inject answer c "INPUT" s) _
              (inject-keeps c "INPUT" s k) (λ s' k'. inject-keeps c "FORWARD" s' k'))

  demand-HasRun : (c fault : String) (shell : Shell) → Then (HasRun c) (demand answer c fault shell)
  unfolding demand
  demand-HasRun c fault shell = elim (Bool-cases (eqb (code_of answer shell c) 0)) [
    | inl t ↦ rw t (now t)
    | inr f ↦ rw f tt
  ]

  abbrev pub inserted : String → String → String
  inserted c chain = c ++ " -I " ++ chain ++ " -j dnf2b"

  inject-HasRun :
      (c chain : String) (shell : Shell)
      → Then (HasRun (inserted c chain)) (inject answer c chain shell)
  unfolding inject
  inject-HasRun c chain shell = demand-HasRun (inserted c chain) "Fatal init error" _

  -- The rules of one program that send its packets to the chain.
  abbrev pub Hooked : String → Shell → Type 0
  Hooked c shell = HasRun (inserted c "INPUT") shell × HasRun (inserted c "FORWARD") shell

  Then-any : (r : Outcome) → Then (λ s. Unit) r
  Then-any (ok x, shell) = tt
  Then-any (throw e, shell) = tt

  Then-both : (P Q : Shell → Type 0) (r : Outcome) → Then P r → Then Q r → Then (λ s. P s × Q s) r
  Then-both P Q (ok x, shell) p q = (p, q)
  Then-both P Q (throw e, shell) p q = tt

  prepare-Hooked : (c : String) (shell : Shell) → Then (Hooked c) (prepare answer c shell)
  unfolding prepare
  prepare-Hooked c shell =
      and_then-Then (λ s. Unit) (Hooked c) (make_chain answer c shell) _
        (Then-any (make_chain answer c shell))
        (λ s x.
          and_then-Then (HasRun (inserted c "INPUT")) (Hooked c) (inject answer c "INPUT" s) _
            (inject-HasRun c "INPUT" s)
            (λ s' k.
              Then-both _ _ (inject answer c "FORWARD" s')
                (inject-keeps (inserted c "INPUT") c "FORWARD" s' k)
                (inject-HasRun c "FORWARD" s')))

  create_set-keeps :
      (command name family : String) (shell : Shell)
      → HasRun command shell
      → Then (HasRun command) (create_set answer name family shell)
  unfolding create_set
  create_set-keeps command name family shell h =
      let create : String =
        "ipset create " ++ name ++ " hash:ip hashsize 4096 family " ++ family ++ " 2>&1" in
      elim (Bool-cases (eqb (code_of answer shell create) 0)) [
        | inl t ↦ rw t (earlier create h)
        | inr f ↦
            rw f
              (elim (Bool-cases (
                has_value
                  (find? (answer shell create).1 "set with the same name already exists"))) [
                    | inl e ↦ rw e (earlier _ (earlier create h))
                    | inr e ↦ rw e tt
                  ])
      ]

  prepare_sets-keeps :
      (command strategy : String) (shell : Shell)
      → HasRun command shell
      → Then (HasRun command) (prepare_sets answer strategy shell)
  unfolding prepare_sets
  prepare_sets-keeps command strategy shell h =
      let P : Shell → Type 0 = HasRun command in
      and_then-Then P P (create_set answer "dnf2b-v4-blacklist" "inet" shell) _
        (create_set-keeps command "dnf2b-v4-blacklist" "inet" shell h)
        (λ s k.
          and_then-Then P P (create_set answer "dnf2b-v6-blacklist" "inet6" s) _
            (create_set-keeps command "dnf2b-v6-blacklist" "inet6" s k)
            (λ s' k'.
              and_then-Then P P _ _ (demand-keeps command _ _ s' k')
                (λ s'' k''. demand-keeps command _ _ s'' k'')))

  prepare-keeps-Hooked :
      (c d : String) (shell : Shell) → Hooked c shell → Then (Hooked c) (prepare answer d shell)
  prepare-keeps-Hooked c d shell h =
      Then-both _ _ (prepare answer d shell) (prepare-keeps (inserted c "INPUT") d shell h.0)
        (prepare-keeps (inserted c "FORWARD") d shell h.1)

  prepare_sets-keeps-Hooked :
      (c strategy : String) (shell : Shell)
      → Hooked c shell
      → Then (Hooked c) (prepare_sets answer strategy shell)
  prepare_sets-keeps-Hooked c strategy shell h =
      Then-both _ _ (prepare_sets answer strategy shell)
        (prepare_sets-keeps (inserted c "INPUT") strategy shell h.0)
        (prepare_sets-keeps (inserted c "FORWARD") strategy shell h.1)

  abbrev pub BothHooked : Shell → Type 0
  BothHooked shell = Hooked "iptables" shell × Hooked "ip6tables" shell

  finish-BothHooked :
      (strategy : String) (use_ipset : Bool) (shell : Shell)
      → BothHooked shell
      → Then BothHooked (if use_ipset then prepare_sets answer strategy shell else (ok tt, shell))
  finish-BothHooked strategy false shell h = h
  finish-BothHooked strategy true shell h =
      Then-both _ _ (prepare_sets answer strategy shell)
        (prepare_sets-keeps-Hooked "iptables" strategy shell h.0)
        (prepare_sets-keeps-Hooked "ip6tables" strategy shell h.1)

  -- If the constructor of the iptables bouncer gets through its commands, then for iptables and for
  -- ip6tables it has run the command that puts a jump to the chain dnf2b into INPUT and the one that puts
  -- it into FORWARD, and each has returned 0.
  pub prepare_all-BothHooked :
      (strategy : String) (use_ipset : Bool) (shell : Shell)
      → Then BothHooked (prepare_all answer strategy use_ipset shell)
  unfolding prepare_all
  prepare_all-BothHooked strategy use_ipset shell =
      and_then-Then (Hooked "iptables") BothHooked (prepare answer "iptables" shell) _
        (prepare-Hooked "iptables" shell)
        (λ s h.
          and_then-Then BothHooked BothHooked (prepare answer "ip6tables" s) _
            (Then-both _ _ (prepare answer "ip6tables" s)
              (prepare-keeps-Hooked "iptables" "ip6tables" s h) (prepare-Hooked "ip6tables" s))
            (λ s' k. finish-BothHooked strategy use_ipset s' k))

  -- When the chain of an earlier run is still there, so that the first command returns another code than
  -- 0 and says that it already exists, the constructor throws after that command.
  pub prepare_all_exists :
      (strategy : String) (use_ipset : Bool) (shell : Shell)
      → eqb (code_of answer shell "iptables -N dnf2b") 0 ≡ false
      → has_value (find? (answer shell "iptables -N dnf2b").1 "Chain already exists") ≡ true
      → prepare_all answer strategy use_ipset shell
        ≡ (throw (runtime_error "Failed to initialise iptables"), "iptables -N dnf2b" ∷ shell)
  unfolding prepare_all prepare make_chain
  prepare_all_exists strategy use_ipset shell e t = rw (e, t) refl
