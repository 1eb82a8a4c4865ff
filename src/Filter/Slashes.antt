-- ===== src/Filter/Slashes.antt =====
-- src/dnf2b/filters/Filter.cpp: the parts of a filter's name around its slash, by the search and by the
-- count that the code uses.
use Prim.Native.Char.{Char, code, len_utf8}
use Prim.Native.String.{len, find}
use Prim.Native.String
use Prim.Native.String.find as find_clauses
use Prim.Native.String.len as len_clauses
use Prim.Native.Nat.{Ordering, compare}
use Prim.Native.String.{same}
use text.Mathlib.TextEquality.{Char-path}
use Prim.Native.String.compare as compare_clauses
use text.Mathlib.Text.{find?, is_eq}
use text.Mathlib.TextLemmas.{nil-append, cons-append, append_assoc}
use text.Mathlib.TextPositions.{len-append, slice-append_middle}
use doesnotfail2ban.Pcre.{substr, substr_from}
use Prim.Native.String.{slice}
use doesnotfail2ban.Prelude.{
  ℕ, suc, ◌+◌, ◌≤◌, String, ◌≡◌, refl, ap, sym, ◌∙◌, ◌-◌, true, false, none, some, ltb, eqb,
  if◌then◌else◌, arith, ◌==◌, subst,
}
use doesnotfail2ban.Prelude.Texts.{find?-none, slice_behind, find?_at}
use doesnotfail2ban.Prelude.Results.{ok}
use doesnotfail2ban.Filter.Files.{
  count_slashes, explicit_path, starts_with_at, custom_path, path_at,
}

count_slashes-cons :
    (c : Char) (s : String)
    → count_slashes (String.◌∷◌ c s)
      ≡ (if eqb (code c) 47 then suc (count_slashes s) else count_slashes s)
unfolding count_slashes
count_slashes-cons c s = refl

count_slashes-append :
    (s t : String) → count_slashes (String.◌++◌ s t) ≡ count_slashes s + count_slashes t
count_slashes-append String.[] t = rw (nil-append t) (unfold count_slashes in omega arith)
count_slashes-append (String.◌∷◌ c s) t =
    let rest = count_slashes-append s t in
    rw (cons-append c s t, count_slashes-cons c (String.◌++◌ s t), count_slashes-cons c s)
      (ground arith)

same_lem :
    (o : Ordering) (n : ℕ)
    → same o 0 n ≡ (if elim o [ Ordering.eq ↦ true | _ ↦ false ] then 0 else n)
same_lem Ordering.lt n = refl
same_lem Ordering.eq n = refl
same_lem Ordering.gt n = refl

find-cons :
    (c : Char) (s : String)
    → find (String.◌∷◌ c s) "/" ≡ (if eqb (code c) 47 then 0 else len_utf8 c + find s "/")
find-cons c s = find_clauses.cons c s "/" ∙ same_lem (compare (code c) 47) (len_utf8 c + find s "/")

missed : (s : String) → find s "/" ≡ suc (len s) → count_slashes s ≡ 0
missed String.[] h = unfold count_slashes in refl
missed (String.◌∷◌ c s) h =
    let step : (if eqb (code c) 47 then 0 else len_utf8 c + find s "/") ≡ suc (len_utf8 c + len s) =
      sym (find-cons c s) ∙ h ∙ ap suc (len_clauses.cons c s) in
    rw (count_slashes-cons c s) (ground (arith, missed s))

-- A text with no slash, by the search or by the count.
pub no_slash : (s : String) → find? s "/" ≡ none → count_slashes s ≡ 0
no_slash s h = missed s (find?-none s "/" h)

-- The two parts around the only slash of a text.
pub sides :
    (s u v : String)
    → s ≡ String.◌++◌ u (String.◌++◌ "/" v)
    → count_slashes s ≤ 1
    → (count_slashes u ≡ 0) × (count_slashes v ≡ 0)
sides s u v e h =
    let total : count_slashes s ≡ count_slashes u + (1 + count_slashes v) =
      rw (e, count_slashes-append u (String.◌++◌ "/" v), count_slashes-append "/" v)
        (unfold count_slashes in refl) in
    (omega arith, omega arith)

find-before :
    (u v : String) → count_slashes u ≡ 0 → find (String.◌++◌ u (String.◌++◌ "/" v)) "/" ≡ len u
find-before String.[] v h =
    rw (nil-append (String.◌++◌ "/" v), cons-append "/" "" v, find-cons "/" (String.◌++◌ "" v)) refl
find-before (String.◌∷◌ c u) v h =
    let s : String = String.◌++◌ u (String.◌++◌ "/" v) in
    let count : (if eqb (code c) 47 then suc (count_slashes u) else count_slashes u) ≡ 0 =
      sym (count_slashes-cons c u) ∙ h in
    let rest = find-before u v in
    rw (cons-append c u (String.◌++◌ "/" v), find-cons c s, len_clauses.cons c u) (ground arith)

module _ (folder name : String) where
  abbrev pub named : String
  named = String.◌++◌ "@" (String.◌++◌ folder (String.◌++◌ "/" name))

  abbrev pub before : String
  before = String.◌++◌ "@" folder

  pub count-before : count_slashes before ≡ count_slashes folder
  count-before = count_slashes-append "@" folder ∙ (unfold count_slashes in omega arith)

  pub named-before : named ≡ String.◌++◌ before (String.◌++◌ "/" name)
  named-before = sym (append_assoc "@" folder (String.◌++◌ "/" name))

  len-before : len before ≡ 1 + len folder
  len-before = len-append "@" folder

  len-named : len named ≡ 1 + (len folder + (1 + len name))
  len-named =
      rw
        (
          len-append "@" (String.◌++◌ folder (String.◌++◌ "/" name)),
          len-append folder (String.◌++◌ "/" name),
          len-append "/" name,
        )
        refl

  substr-inside : (s : String) (a n : ℕ) → a ≤ len s → substr s a n ≡ ok (slice s a (a + n))
  unfolding substr
  substr-inside s a n h = ground arith

  folder_part : substr named 1 (len before - 1) ≡ ok folder
  folder_part =
      substr-inside named 1 (len before - 1) (rw len-named (omega arith))
      ∙ ap (λ n. ok (slice named 1 n)) (rw len-before (omega arith))
      ∙ ap (λ s. ok s) (slice-append_middle "@" folder (String.◌++◌ "/" name))

  name_part : substr_from named (len before + 1) ≡ ok name
  name_part =
      substr-inside named (len before + 1) _ (rw (len-named, len-before) (omega arith))
      ∙ ap (λ n. ok (slice named (len before + 1) n)) (rw (len-named, len-before) (omega arith))
      ∙ ap (λ s. ok s)
          (subst (λ s. slice s (len before + 1) (len s) ≡ name) (sym named-before)
            (slice_behind before "/" name))

  pub explicit_path_lem :
      find? named "/" ≡ some (len before)
      → ltb 1 (count_slashes named) ≡ false
      → explicit_path named ≡ ok (custom_path folder name)
  unfolding explicit_path path_at
  explicit_path_lem e h = ap (path_at named) e ∙ rw (h, folder_part, name_part) refl

  pub find?-named : count_slashes folder ≡ 0 → find? named "/" ≡ some (len before)
  find?-named h =
      find?_at named "/" (len before)
        (ap (λ s. find s "/") named-before ∙ find-before before name (count-before ∙ h))
        (rw (len-named, len-before) (omega arith))

at_cons :
    (c : Char) (u s : String)
    → starts_with_at (String.◌∷◌ c s) ≡ true
    → String.◌∷◌ c u ≡ String.◌++◌ "@" u
at_cons c u s h =
    rw (cons-append "@" "" u, nil-append u)
      (ap (λ d. String.◌∷◌ d u) (Char-path c "@" (ground arith)))

false-true : false ≡ true → ⊥
false-true h = cc

pub at_front :
    (u w : String)
    → starts_with_at (String.◌++◌ u (String.◌++◌ "/" w)) ≡ true
    → (x : String) × (u ≡ String.◌++◌ "@" x)
at_front String.[] w h =
    absurd (false-true (rw (nil-append (String.◌++◌ "/" w), cons-append "/" "" w) at h))
at_front (String.◌∷◌ c u) w h = (
  u,
  at_cons c u (String.◌++◌ u (String.◌++◌ "/" w)) (rw (cons-append c u (String.◌++◌ "/" w)) at h),
)

pub at_first :
    (s : String) → ((String.◌++◌ "@" s == "") ≡ false) × (starts_with_at (String.◌++◌ "@" s) ≡ true)
at_first s =
    rw (cons-append "@" "" s, nil-append s)
      (ap (λ o. is_eq o) (compare_clauses.cons-nil "@" s), refl)

module _ (folder name : String) (l : count_slashes folder ≡ 0) (r : count_slashes name ≡ 0) where
  pub one_slash : ltb 1 (count_slashes (named folder name)) ≡ false
  one_slash =
      let total : count_slashes (named folder name) ≡ 0 + (1 + 0) =
        rw
          (
            named-before folder name,
            count_slashes-append (before folder name) (String.◌++◌ "/" name),
            count_slashes-append "/" name,
            count-before folder name,
            l,
            r,
          )
          (unfold count_slashes in refl) in
      rw total refl
