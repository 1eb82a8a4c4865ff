-- ===== src/Filter/Locating.antt =====
-- src/dnf2b/filters/Filter.cpp: where getPathFromFilterName looks for the file of a filter.
use Prim.Native.String.{len, find}
use Prim.Native.String
use Prim.Native.String.find as find_clauses
use Prim.Native.String.len as len_clauses
use Prim.Native.String.{same}
use text.Mathlib.Text.{find?}
use Prim.Native.String.{slice}
use doesnotfail2ban.Filter.Slashes.{
  no_slash, sides, named, explicit_path_lem, find?-named, at_front, named-before, count-before,
  at_first, one_slash,
}
use doesnotfail2ban.Filter.Files.{path_at, find_custom, plain_path, explicit_path}
use doesnotfail2ban.Prelude.{
  String, ◌≡◌, refl, sym, ◌∙◌, true, false, ◌&&◌, Option, none, some, List, [], ◌∷◌, ltb, arith,
  ◌==◌, inl, inr, Bool-cases, any, value_or, Option-cases, eq_refl,
}
use doesnotfail2ban.Prelude.Texts.{find?-cases}
use doesnotfail2ban.Prelude.Results.{ok, throw, Ensures, Ensures-mono, system_error}
use doesnotfail2ban.Filter.Files.{
  FilePath, CustomEntry, Files, count_slashes, get_path_from_filter_name, builtin_path, plain_path,
  explicit_path, starts_with_at, custom_path, find_custom,
}

-- The files that a name may stand for: one of the filters that come with the program, else one in a
-- listed folder of custom filters, or with an @ the one in the folder that it names.
pub data Located (files : Files) (raw : String) : FilePath → Type 0 where
  builtin :
      count_slashes raw ≡ 0
      → files.exists (builtin_path raw) ≡ true
      → Located files raw (builtin_path raw)
  in_custom :
      count_slashes raw ≡ 0
      → files.exists (builtin_path raw) ≡ false
      → (folder : String)
      → any (λ (e : CustomEntry). e.name == folder) (value_or files.custom []) ≡ true
      → files.exists (custom_path folder raw) ≡ true
      → Located files raw (custom_path folder raw)
  explicit :
      (folder name : String)
      → raw ≡ String.◌++◌ "@" (String.◌++◌ folder (String.◌++◌ "/" name))
      → count_slashes folder ≡ 0
      → count_slashes name ≡ 0
      → Located files raw (custom_path folder name)

IsFoundIn : Files → String → List CustomEntry → FilePath → Type 0
IsFoundIn files raw entries path =
    (folder : String) × (any (λ (e : CustomEntry). e.name == folder) entries ≡ true)
    × (files.exists (custom_path folder raw) ≡ true)
    × (path ≡ custom_path folder raw)

later-IsFoundIn :
    (files : Files) (raw : String) (e : CustomEntry) (es : List CustomEntry) (path : FilePath)
    → IsFoundIn files raw es path
    → IsFoundIn files raw (e ∷ es) path
unfolding IsFoundIn
later-IsFoundIn files raw e es path (folder, listed, h, k) = (folder, ground arith, h, k)

find_custom-IsFoundIn :
    (files : Files) (raw : String) (entries : List CustomEntry)
    → Ensures (IsFoundIn files raw entries) (find_custom files raw entries)
unfolding find_custom
find_custom-IsFoundIn files raw [] = tt
find_custom-IsFoundIn files raw (e ∷ es) =
    let there = files.exists (custom_path e.name raw) in
    elim (Bool-cases (e.is_directory && e.has_filters && there)) [
      | inl t ↦
          rw t (unfold IsFoundIn in (e.name, ground (arith, eq_refl e.name), ground arith, refl))
      | inr f ↦ rw f (
          Ensures-mono _ _ (find_custom files raw es) (later-IsFoundIn files raw e es)
            (find_custom-IsFoundIn files raw es))
    ]

custom-Located :
    (files : Files) (raw : String) (entries : List CustomEntry) (path : FilePath)
    → count_slashes raw ≡ 0
    → files.exists (builtin_path raw) ≡ false
    → files.custom ≡ some entries
    → IsFoundIn files raw entries path
    → Located files raw path
unfolding IsFoundIn
custom-Located files raw entries path none_in absent listed (folder, member, there, e) =
    rw e (in_custom none_in absent folder (rw listed member) there)

elsewhere-Located :
    (files : Files) (raw : String) (o : Option (List CustomEntry))
    → count_slashes raw ≡ 0
    → files.exists (builtin_path raw) ≡ false
    → files.custom ≡ o
    → Ensures
        (Located files raw)
        (elim o [ none ↦ throw system_error | some entries ↦ find_custom files raw entries ])
elsewhere-Located files raw none none_in absent e = tt
elsewhere-Located files raw (some entries) none_in absent e =
    Ensures-mono _ _ (find_custom files raw entries)
      (λ path. custom-Located files raw entries path none_in absent e)
      (find_custom-IsFoundIn files raw entries)

plain_path-Located :
    (files : Files) (raw : String) → Ensures (Located files raw) (plain_path files raw)
unfolding plain_path
plain_path-Located files raw = elim (Option-cases (find? raw "/")) [
  | inr (i, e) ↦ rw e tt
  | inl e ↦ rw e (elim (Bool-cases (files.exists (builtin_path raw))) [
    | inl t ↦ rw t (builtin (no_slash raw e) t)
    | inr f ↦ rw f (elsewhere-Located files raw files.custom (no_slash raw e) f refl)
  ])
]

named-Located :
    (files : Files) (raw u folder name : String)
    → raw ≡ String.◌++◌ u (String.◌++◌ "/" name)
    → u ≡ String.◌++◌ "@" folder
    → find? raw "/" ≡ some (len u)
    → ltb 1 (count_slashes raw) ≡ false
    → (count_slashes u ≡ 0) × (count_slashes name ≡ 0)
    → Ensures (Located files raw) (explicit_path raw)
named-Located files raw u folder name parts front e f (left, right) =
    let whole : raw ≡ named folder name = rw front at parts ∙ sym (named-before folder name) in
    let found : explicit_path raw ≡ ok (custom_path folder name) =
      rw whole (explicit_path_lem folder name (rw (front, whole) at e) (rw whole at f)) in
    rw found
      (explicit folder name whole (sym (count-before folder name) ∙ (rw front at left)) right)

explicit_path-Located :
    (files : Files) (raw : String)
    → starts_with_at raw ≡ true
    → Ensures (Located files raw) (explicit_path raw)
explicit_path-Located files raw h = elim (find?-cases raw "/") [
  | inr e ↦ unfold explicit_path path_at in rw e tt
  | inl (u, name, parts, e) ↦ elim (Bool-cases (ltb 1 (count_slashes raw))) [
    | inl t ↦ unfold explicit_path path_at in rw (e, t) tt
    | inr f ↦
        let (folder, front) = at_front u name (rw parts at h) in
        named-Located files raw u folder name parts front e f
          (sides raw u name parts (ground arith))
  ]
]

-- Whatever file getPathFromFilterName answers with, it is one of these: the file of that name among the
-- filters that come with the program, which exists; or, where that one is missing, an existing file of
-- the name in a listed folder of custom filters; or, for a name with an @, a slash and no other slash,
-- the file of the second part in the custom folder of the first part. In each case the name that is used
-- for the file has no slash.
pub get_path_from_filter_name-Located :
    (files : Files) (raw : String)
    → Ensures (Located files raw) (get_path_from_filter_name files raw)
unfolding get_path_from_filter_name
get_path_from_filter_name-Located files raw = elim (Bool-cases (raw == "")) [
  | inl t ↦ rw t tt
  | inr f ↦ rw f (elim (Bool-cases (starts_with_at raw)) [
    | inl t ↦ rw t (explicit_path-Located files raw t)
    | inr f ↦ rw f (plain_path-Located files raw)
  ])
]

-- A name made of an @, a folder, a slash and a name, neither of which has a slash, stands for the file of
-- that name in that folder of custom filters, whatever files exist and whatever the folder is called.
pub get_path_from_filter_name-explicit :
    (files : Files) (folder name : String)
    → count_slashes folder ≡ 0
    → count_slashes name ≡ 0
    → get_path_from_filter_name files (String.◌++◌ "@" (String.◌++◌ folder (String.◌++◌ "/" name)))
      ≡ ok (custom_path folder name)
unfolding get_path_from_filter_name
get_path_from_filter_name-explicit files folder name l r =
    let (filled, at) = at_first (String.◌++◌ folder (String.◌++◌ "/" name)) in
    rw (filled, at)
      (explicit_path_lem folder name (find?-named folder name l) (one_slash folder name l r))
