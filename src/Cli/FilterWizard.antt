-- ===== src/Cli/FilterWizard.antt =====
-- src/dnf2b/cli/FilterWizard.cpp: the dialogue that builds a filter. The lines of the standard input are a
-- list; behind its end std::getline leaves the empty text. Of what is printed, the previews and the JSON
-- are kept. pcre2 is a parameter, and so is which files exist.
pub mod Dialogue
pub mod Kept
pub mod Output
use doesnotfail2ban.Prelude.{
  ℕ, zero, suc, String, ◌==◌, Bool, true, false, not, ◌&&◌, ◌||◌, Option, none, some, List, [], ◌∷◌,
  ◌++◌, map, if◌then◌else◌,
}
use doesnotfail2ban.Prelude.Maps.{Map}
use doesnotfail2ban.Prelude.Results.{Result, ok, throw, ◌>>=◌}
use doesnotfail2ban.Pcre.{Pcre, Pattern, compile_pattern, matcher, next}
use doesnotfail2ban.Filter.Files.{JsonValue}

-- std::getline: the line, and what is left.
abbrev pub get_line : List String → String × List String
get_line [] = ("", [])
get_line (line ∷ input) = (line, input)

-- The loop over the sample messages; it ends at the latest at the end of the input.
unfoldable pub read_messages : List String → List (String × Bool) × List String
read_messages [] = ([], [])
read_messages (line ∷ input) =
    let rest = read_messages input in
    if line == "EOF" || line == "" then ([], input) else ((line, false) ∷ rest.0, rest.1)

-- "Keep this pattern?" until the answer is y or n; `none` when the fuel is used up.
unfoldable pub keep_loop : ℕ → List String → Option (Bool × List String)
keep_loop zero input = none
keep_loop (suc fuel) input =
    let line = get_line input in
    let rest = keep_loop fuel line.1 in
    if line.0 == "y"
    then some (true, line.1)
    else if line.0 == "n"
    then some (false, line.1)
    else rest

-- A line of a preview: its colour and the message.
abbrev pub Preview : Type 0
Preview = List (ℕ × String)

-- What the dialogue ends with.
pub data Ending (Json : Type 0) : Type 0 where
  discarded : Ending Json
  printed : Json → Ending Json
  written : String → Json → Ending Json

-- The JSON object, its keys in order.
unfoldable pub filter_json : List String → Bool → Map JsonValue
filter_json stored insensitive =
    ("filters", JsonValue.texts stored) ∷ ("insensitive", JsonValue.flag insensitive) ∷ []

-- The loop over the name of the file.
unfoldable pub name_loop :
    {Json : Type 0} → (String → Bool) → Json → ℕ → List String → Option (Ending Json)
name_loop exists json zero input = none
name_loop exists json (suc fuel) input =
    let line = get_line input in
    let rest = name_loop exists json fuel line.1 in
    if line.0 == ""
    then some (printed json)
    else if exists line.0
    then rest
    else some (written line.0 json)

-- The loop over the command; `root` is geteuid() == 0.
unfoldable pub command_loop :
    {Json : Type 0} → Bool → (String → Bool) → Json → ℕ → List String → Option (Ending Json)
unfolding name_loop
command_loop root exists json zero input = none
command_loop root exists json (suc fuel) input =
    let line = get_line input in
    let rest = command_loop root exists json fuel line.1 in
    if line.0 == "d"
    then some discarded
    else if line.0 == "a" || (line.0 == "f" && not root)
    then some (printed json)
    else if line.0 == "f"
    then name_loop exists json fuel line.1
    else rest

module _ (pcre : Pcre) where
  -- One message of the preview, and its flag.
  abbrev pub preview_one : Pattern pcre.Code → String × Bool → (String × Bool) × (ℕ × String)
  preview_one p (message, matched) =
      if (next pcre (matcher pcre p.code message)).0
      then ((message, true), (40, message))
      else ((message, matched), (if matched then 214 else 160, message))

  unfoldable pub preview : Pattern pcre.Code → List (String × Bool) → List (String × Bool) × Preview
  preview p [] = ([], [])
  preview p (m ∷ ms) =
      let rest = preview p ms in let one = preview_one p m in (one.0 ∷ rest.0, one.1 ∷ rest.1)

  pub record Wizard : Type 0 where
    pub stored : List String
    pub messages : List (String × Bool)
    pub previews : List Preview

  -- After the answer to the question.
  abbrev pub kept : String → Bool → Wizard → Wizard
  kept line keep w = if keep then record w { stored = w.stored ++ line ∷ [] } else w

  abbrev pub shown : Pattern pcre.Code → Wizard → Wizard
  shown p w = record w {
    messages = (preview p w.messages).0;
    previews = w.previews ++ (preview p w.messages).1 ∷ [];
  }

  -- What is left of a round of the loop over the patterns, from the question on.
  abbrev pub ask :
      String
      → (Wizard → List String → Option (Result (Wizard × List String)))
      → ℕ
      → Wizard
      → List String
      → Option (Result (Wizard × List String))
  ask line next_round fuel w input = elim (keep_loop fuel input) [
    | none ↦ none
    | some (keep, input') ↦ next_round (kept line keep w) input'
  ]

  abbrev pub on_pattern :
      (Pattern pcre.Code → Option (Result (Wizard × List String)))
      → Result (Pattern pcre.Code)
      → Option (Result (Wizard × List String))
  on_pattern round (throw x) = some (throw x)
  on_pattern round (ok p) = round p

  -- The loop over the patterns.
  unfoldable pub pattern_loop : ℕ → Wizard → List String → Option (Result (Wizard × List String))
  unfolding keep_loop preview
  pattern_loop zero w input = none
  pattern_loop (suc fuel) w input =
      let line = get_line input in
      if line.0 == ""
      then some (ok (w, line.1))
      else on_pattern (λ p. ask line.0 (pattern_loop fuel) fuel (shown p w) line.1)
          (compile_pattern pcre line.0 false)

  abbrev pub finished :
      Bool
      → Bool
      → (String → Bool)
      → ℕ
      → Option (Result (Wizard × List String))
      → Option (Result (Wizard × Ending (Map JsonValue)))
  finished insensitive root exists fuel none = none
  finished insensitive root exists fuel (some (throw x)) = some (throw x)
  finished insensitive root exists fuel (some (ok (w, input))) =
      elim (command_loop root exists (filter_json w.stored insensitive) fuel input) [
        | none ↦ none
        | some ending ↦ some (ok (w, ending))
      ]

  -- CLI::filterWizard
  unfoldable pub filter_wizard :
      Bool
      → Bool
      → (String → Bool)
      → ℕ
      → List String
      → Option (Result (Wizard × Ending (Map JsonValue)))
  unfolding read_messages pattern_loop command_loop
  filter_wizard insensitive root exists fuel input =
      let start = read_messages input in
      finished insensitive root exists fuel
        (pattern_loop fuel (record { stored = []; messages = start.0; previews = [] }) start.1)
