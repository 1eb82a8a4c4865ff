-- ===== src/Cli/Tester.antt =====
-- src/dnf2b/cli/Tester.cpp: the command that shows which patterns match a line. What is printed is a list
-- of values; what was printed before an exception is not kept. The loading of the parser and the files are
-- parameters.
pub mod Matches
pub mod Ending
use text.Mathlib.Text.{starts_with}
use doesnotfail2ban.Prelude.{
  ℕ, zero, suc, ◌+◌, String, ◌==◌, Bool, true, false, not, ◌&&◌, Option, none, some, List, [], ◌∷◌,
  ◌++◌, length, get_elem?, if◌then◌else◌, value_or, map,
}
use doesnotfail2ban.Prelude.Results.{Result, ok, throw, out_of_range, library_error, ◌>>=◌}
use doesnotfail2ban.Prelude.Int.{ℤ}
use doesnotfail2ban.Prelude.Maps.{Map}
use doesnotfail2ban.Structs.{Message}
use doesnotfail2ban.Parsers.{Parser, parse}
use doesnotfail2ban.Journal.Loader.{AnyParser}
use doesnotfail2ban.Filter.Files.{Files, JsonValue, load_filter}
use doesnotfail2ban.Pcre.{Pcre, Pattern}
use doesnotfail2ban.Filter.{Filter, MatchResult, check_message}

pub data Printed : Type 0 where
  no_parser : String → Printed
  not_parsed : String → Printed
  parsed : Message → Printed
  match_found_in : String → Printed
  matched_by : String → Printed

-- A file of the filters' folder: the parts of its name, and whether it is a regular file.
pub record DirectoryEntry : Type 0 where
  pub stem : String
  pub extension : String
  pub is_regular_file : Bool

-- std::vector::at
abbrev pub at {ℓ} : {A : Type ℓ} → List A → ℕ → Result A
at xs i = elim (get_elem? xs i) [ none ↦ throw out_of_range | some x ↦ ok x ]

abbrev pub cons_some {ℓ} : {A : Type ℓ} → A → Option (List A) → Option (List A)
cons_some x none = none
cons_some x (some xs) = some (x ∷ xs)

module _ (pcre : Pcre) where
  -- One round of the loop over a filter's matches: what checkMessage answered, and `next`, the rest of
  -- the loop from an offset. `none` is fuel that was used up.
  unfoldable pub print_match :
      Filter pcre.Code
      → (ℕ → Result (Option (List String)))
      → Option MatchResult × Option ℕ
      → Result (Option (List String))
  print_match f next (none, offset) = ok (some [])
  print_match f next (some found, offset) = at f.patterns (value_or offset 0) >>= λ p.
      next (value_or offset 0 + 1) >>= λ rest. ok (cons_some p.raw_pattern rest)

  -- The loop, from an offset: the patterns that are printed.
  unfoldable pub match_loop : ℕ → Filter pcre.Code → Message → ℕ → Result (Option (List String))
  unfolding print_match
  match_loop zero f message offset = ok none
  match_loop (suc fuel) f message offset =
      check_message pcre f message (some offset) >>= print_match f (match_loop fuel f message)

  abbrev show : String → Option (List String) → List Printed
  show name none = []
  show name (some []) = []
  show name (some (raw ∷ raws)) = match_found_in name ∷ map matched_by (raw ∷ raws)

  abbrev is_tested : DirectoryEntry → Bool
  is_tested file =
      file.is_regular_file && file.extension == ".json" && not (starts_with file.stem "dummy")

  -- `parse_json` and `filter_files` are what Filter's constructor reads with.
  module _ (parse_json : String → Result (Map JsonValue)) (filter_files : Files) where
    unfoldable pub test_filters : Message → List DirectoryEntry → Result (List Printed)
    unfolding match_loop
    test_filters message [] = ok []
    test_filters message (file ∷ files) =
        let rest = test_filters message files in
        if is_tested file
        then (load_filter pcre parse_json filter_files file.stem >>= λ f.
            match_loop (suc (length f.patterns)) f message 0 >>= λ raws.
            rest >>= λ printed. ok (show file.stem raws ++ printed))
        else rest

    -- `parse` is the same for both kinds of parsers.
    abbrev common : AnyParser pcre → Parser pcre.Code
    common (AnyParser.file_parser p last) = p
    common (AnyParser.journal_parser j) = j.parser

    abbrev test_message : String → List DirectoryEntry → Option Message → Result (List Printed)
    test_message log_line files none = ok (not_parsed log_line ∷ [])
    test_message log_line files (some message) =
        test_filters message files >>= λ printed. ok (parsed message ∷ printed)

    -- CLI::testLineMatches; `load` is ParserLoader::loadParser, and `read_time` and `now` are as for `parse`.
    unfoldable pub test_line_matches :
        (String → String → Result (Option (AnyParser pcre)))
        → (String → String → ℤ)
        → ℤ
        → String
        → String
        → List DirectoryEntry
        → Result (List Printed)
    unfolding test_filters
    test_line_matches load read_time now log_line parser_name files =
        load parser_name "noop" >>= elim [
          | none ↦ ok (no_parser parser_name ∷ [])
          | some p ↦ parse pcre read_time now (common p) log_line >>= test_message log_line files
        ]
