-- ===== src/Filter/Files.antt =====
-- src/dnf2b/filters/Filter.cpp: the file of a filter's name, and the constructors. The file system is a
-- parameter, and so are pcre2 and the reading of JSON. A path is its folders below
-- Constants::DNF2B_ROOT and the name of its file.
use Prim.Native.Char.{code}
use Prim.Native.String.{len}
use text.Mathlib.Text.{find?}
use doesnotfail2ban.Prelude.{
  ℕ, suc, ◌+◌, String, ◌==◌, Bool, true, false, ◌&&◌, Option, none, some, List, [], ◌∷◌, ltb, eqb,
  if◌then◌else◌, has_value, ◌-◌,
}
use doesnotfail2ban.Prelude.Maps.{Map, lookup}
use doesnotfail2ban.Prelude.Results.{
  Result, ok, throw, library_error, system_error, runtime_error, ◌>>=◌,
}
use doesnotfail2ban.Pcre.{Pcre, Pattern, substr, substr_from, compile_pattern}
use doesnotfail2ban.Filter.{Filter}
use doesnotfail2ban.Filter.Expansion.{expand}

pub record FilePath : Type 0 where
  pub folders : List String
  pub stem : String

abbrev pub builtin_path : String → FilePath
builtin_path name = record { folders = "filters" ∷ []; stem = name }

abbrev pub custom_path : String → String → FilePath
custom_path folder name = record { folders = "custom" ∷ folder ∷ "filters" ∷ []; stem = name }

-- An entry of the folder of custom filters.
pub record CustomEntry : Type 0 where
  pub name : String
  pub is_directory : Bool
  pub has_filters : Bool

-- The values that the code reads and writes in the JSON object of a filter.
pub data JsonValue : Type 0 where
  texts : List String → JsonValue
  flag : Bool → JsonValue
  other : JsonValue

-- `text_of` is what opening a file for reading gives, and `exists` is std::filesystem::exists.
-- `custom` is std::filesystem::directory_iterator, `none` where it throws.
pub record Files : Type 0 where
  pub text_of : FilePath → Option String
  pub exists : FilePath → Bool
  pub custom : Option (List CustomEntry)

-- std::count of '/'
unfoldable pub count_slashes : String → ℕ
count_slashes String.[] = 0
count_slashes (String.◌∷◌ c s) =
    let rest = count_slashes s in if eqb (code c) 47 then suc rest else rest

abbrev pub starts_with_at : String → Bool
starts_with_at String.[] = false
starts_with_at (String.◌∷◌ c s) = eqb (code c) 64

-- The path that a name with an @ stands for, at its first slash.
unfoldable pub path_at : String → Option ℕ → Result FilePath
path_at raw none = throw (runtime_error "Config error")
path_at raw (some slash) =
    if ltb 1 (count_slashes raw)
    then throw (runtime_error "Nope")
    else (substr raw 1 (slash - 1) >>= λ path.
        substr_from raw (slash + 1) >>= λ file_name. ok (custom_path path file_name))

unfoldable pub explicit_path : String → Result FilePath
unfolding path_at
explicit_path raw = path_at raw (find? raw "/")

-- The first folder of custom filters that has the file.
unfoldable pub find_custom : Files → String → List CustomEntry → Result FilePath
find_custom files raw [] = throw (runtime_error "Failed to find filter")
find_custom files raw (custom ∷ entries) =
    let filter_path = custom_path custom.name raw in
    if custom.is_directory && custom.has_filters && files.exists filter_path
    then ok filter_path
    else find_custom files raw entries

unfoldable pub plain_path : Files → String → Result FilePath
unfolding find_custom
plain_path files raw =
    let path = builtin_path raw in
    if has_value (find? raw "/")
    then throw (runtime_error "Nope")
    else if files.exists path
    then ok path
    else elim files.custom [
      | none ↦ throw system_error
      | some entries ↦ find_custom files raw entries
    ]

-- Filter::getPathFromFilterName
unfoldable pub get_path_from_filter_name : Files → String → Result FilePath
unfolding explicit_path plain_path
get_path_from_filter_name files raw =
    if raw == ""
    then throw (runtime_error "Filter names cannot be blank")
    else if starts_with_at raw
    then explicit_path raw
    else plain_path files raw

-- path.filename().replace_extension(): a file that is called ".json" has no extension.
abbrev pub name_of_file : FilePath → String
name_of_file path = if path.stem == "" then ".json" else path.stem

-- config.at("patterns"), as texts
abbrev pub texts_of : Option JsonValue → Result (List String)
texts_of (some (texts patterns)) = ok patterns
texts_of _ = throw library_error

-- config.value("insensitive", false)
abbrev pub flag_or_false : Option JsonValue → Result Bool
flag_or_false none = ok false
flag_or_false (some (flag b)) = ok b
flag_or_false (some _) = throw library_error

module _ (pcre : Pcre) where
  -- The body of std::transform; the fuel of the loop is enough.
  unfoldable pub compile_expanded : Option String → Result (Pattern pcre.Code)
  compile_expanded none = throw library_error
  compile_expanded (some pattern) = compile_pattern pcre pattern true

  unfoldable pub compile_all : List String → Result (List (Pattern pcre.Code))
  unfolding compile_expanded
  compile_all [] = ok []
  compile_all (pattern ∷ patterns) =
      compile_expanded (expand (suc (len pattern)) pattern 0) >>= λ p.
      compile_all patterns >>= λ ps. ok (p ∷ ps)

  -- What the constructor does with the JSON object of a file.
  unfoldable pub build : String → Map JsonValue → Result (Filter pcre.Code)
  unfolding compile_all
  build filter_name config = do
    str_patterns ← texts_of (lookup "patterns" config)
    patterns ← compile_all str_patterns
    insensitive ← flag_or_false (lookup "insensitive" config)
    ok (record { patterns = patterns; insensitive = insensitive; filter_name = filter_name })

-- `parse_json` throws also where the text is JSON but no object.
module _ (pcre : Pcre) (parse_json : String → Result (Map JsonValue)) where
  -- Filter::Filter on a path
  unfoldable pub open_filter : Files → FilePath → Result (Filter pcre.Code)
  unfolding build
  open_filter files path = elim (files.text_of path) [
    | none ↦ throw (runtime_error "Config error")
    | some text ↦ parse_json text >>= build pcre (name_of_file path)
  ]

  -- Filter::Filter on a name
  unfoldable pub load_filter : Files → String → Result (Filter pcre.Code)
  unfolding get_path_from_filter_name open_filter
  load_filter files filter_name = get_path_from_filter_name files filter_name >>= open_filter files
