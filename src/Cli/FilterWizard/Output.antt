-- ===== src/Cli/FilterWizard/Output.antt =====
-- src/dnf2b/cli/FilterWizard.cpp with src/dnf2b/filters/Filter.cpp: the JSON that the dialogue gives, read
-- as a filter.
use doesnotfail2ban.Prelude.{
  ℕ, zero, suc, String, ◌≡◌, refl, Bool, not, ◌&&◌, ◌||◌, Option, none, some, List, ◌==◌, inl, inr,
  Bool-cases,
}
use doesnotfail2ban.Prelude.Maps.{Map, lookup}
use doesnotfail2ban.Prelude.Results.{Result, ok, throw, library_error}
use doesnotfail2ban.Pcre.{Pcre}
use doesnotfail2ban.Filter.Files.{JsonValue, build}
use doesnotfail2ban.Cli.FilterWizard.{
  get_line, Ending, filter_json, name_loop, command_loop, Wizard, finished, filter_wizard,
}

-- A property of the JSON that an ending has.
abbrev OfEnding : {Json : Type 0} → (Json → Type 0) → Option (Ending Json) → Type 0
OfEnding P none = Unit
OfEnding P (some Ending.discarded) = Unit
OfEnding P (some (Ending.printed json)) = P json
OfEnding P (some (Ending.written name json)) = P json

module _ {Json : Type 0} (P : Json → Type 0) (exists : String → Bool) (json : Json)
    (h : P json) where
  name_loop-OfEnding :
      (fuel : ℕ) (input : List String) → OfEnding P (name_loop exists json fuel input)
  unfolding name_loop
  name_loop-OfEnding zero input = tt
  name_loop-OfEnding (suc fuel) input = elim (Bool-cases ((get_line input).0 == "")) [
    | inl t ↦ rw t h
    | inr f ↦ rw f (elim (Bool-cases (exists (get_line input).0)) [
      | inl t ↦ rw t (name_loop-OfEnding fuel (get_line input).1)
      | inr f ↦ rw f h
    ])
  ]

  command_loop-OfEnding :
      (root : Bool) (fuel : ℕ) (input : List String)
      → OfEnding P (command_loop root exists json fuel input)
  unfolding command_loop
  command_loop-OfEnding root zero input = tt
  command_loop-OfEnding root (suc fuel) input =
      let line = (get_line input).0 in
      elim (Bool-cases (line == "d")) [
        | inl t ↦ rw t tt
        | inr f ↦ rw f (elim (Bool-cases (line == "a" || (line == "f" && not root))) [
          | inl t ↦ rw t h
          | inr f ↦ rw f (elim (Bool-cases (line == "f")) [
            | inl t ↦ rw t (name_loop-OfEnding fuel (get_line input).1)
            | inr f ↦ rw f (command_loop-OfEnding root fuel (get_line input).1)
          ])
        ])
      ]

module _ (pcre : Pcre) where
  -- No filter can be built of the JSON that a dialogue gives, under any name.
  abbrev pub Refused : Map JsonValue → Type 0
  Refused json = (name : String) → build pcre name json ≡ throw library_error

  filter_json-Refused :
      (stored : List String) (insensitive : Bool) → Refused (filter_json stored insensitive)
  unfolding build filter_json lookup
  filter_json-Refused stored insensitive name = refl

  abbrev pub EndsRefused : Option (Result (Wizard pcre × Ending (Map JsonValue))) → Type 0
  EndsRefused none = Unit
  EndsRefused (some (throw x)) = Unit
  EndsRefused (some (ok (w, ending))) = OfEnding Refused (some ending)

  module _ (insensitive root : Bool) (exists : String → Bool) where
    ended :
        (w : Wizard pcre) (o : Option (Ending (Map JsonValue)))
        → OfEnding Refused o
        → EndsRefused (elim o [ none ↦ none | some ending ↦ some (ok (w, ending)) ])
    ended w none h = tt
    ended w (some ending) h = h

    finished-EndsRefused :
        (fuel : ℕ) (o : Option (Result (Wizard pcre × List String)))
        → EndsRefused (finished pcre insensitive root exists fuel o)
    finished-EndsRefused fuel none = tt
    finished-EndsRefused fuel (some (throw x)) = tt
    finished-EndsRefused fuel (some (ok (w, input))) =
        let json : Map JsonValue = filter_json w.stored insensitive in
        ended w (command_loop root exists json fuel input) (
          command_loop-OfEnding Refused exists json (filter_json-Refused w.stored insensitive) root
            fuel input)

    -- Whatever is typed, the JSON that the dialogue prints or writes, if it ends so, is none that a filter
    -- can be built of: the constructor throws.
    pub filter_wizard-EndsRefused :
        (fuel : ℕ) (input : List String)
        → EndsRefused (filter_wizard pcre insensitive root exists fuel input)
    unfolding filter_wizard
    filter_wizard-EndsRefused fuel input = finished-EndsRefused fuel _
