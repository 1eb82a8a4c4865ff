-- ===== src/Filter/Expansion.antt =====
-- src/dnf2b/filters/Filter.cpp: the loop of the constructor that writes the search for an address in
-- place of each key of a pattern. Positions count bytes, as those of `std::string` do.
use Prim.Native.String.{len, slice}
use Prim.Native.String
use text.Mathlib.Text.{find?}
use text.Mathlib.TextPositions.{len-append, slice-append_left}
use text.Mathlib.TextLemmas.{append_assoc, nil-append}
use doesnotfail2ban.Prelude.Texts.{find?-cases, slice_end, slice_behind}
use doesnotfail2ban.Prelude.{
  ℕ, zero, suc, ◌+◌, ◌<◌, String, ◌≡◌, refl, ap, sym, subst, ◌∙◌, Option, none, some, if◌then◌else◌,
  ltb, arith, false, inr, inl,
}

-- Constants::IP_SEARCH_GROUP
abbrev pub ip_search_group : String
ip_search_group = "(?<IP>\\S+)"

abbrev pub ip_key : String
ip_key = "${dnf2b.ip}"

abbrev pub moved : ℕ → Option ℕ → Option ℕ
moved pos none = none
moved pos (some i) = some (pos + i)

-- std::string::find from a position, `none` for npos
unfoldable pub find_from : String → String → ℕ → Option ℕ
find_from s t pos = if ltb (len s) pos then none else moved pos (find? (slice s pos (len s)) t)

-- std::string::replace
unfoldable pub replace : String → ℕ → ℕ → String → String
replace s pos count t = String.◌++◌ (slice s 0 pos) (String.◌++◌ t (slice s (pos + count) (len s)))

-- The loop; `none` when the fuel is used up.
unfoldable pub expand : ℕ → String → ℕ → Option String
expand zero pattern pos = none
expand (suc fuel) pattern pos = elim (find_from pattern ip_key pos) [
  | none ↦ some pattern
  | some found ↦
      expand fuel (replace pattern found (len ip_key) ip_search_group) (found + len ip_search_group)
]

-- A pattern and what becomes of it: from the left, the search for each key.
pub data Expands : String → String → Type 0 where
  plain : (s : String) → find? s ip_key ≡ none → Expands s s
  keyed :
      (before after expanded : String)
      → find? (String.◌++◌ before (String.◌++◌ ip_key after)) ip_key ≡ some (len before)
      → Expands after expanded
      → Expands
          (String.◌++◌ before (String.◌++◌ ip_key after))
          (String.◌++◌ before (String.◌++◌ ip_search_group expanded))

ltb-len : (n m : ℕ) → ltb (n + m) n ≡ false
ltb-len n m = ground arith

find_from-append :
    (done s : String) (t : String)
    → find_from (String.◌++◌ done s) t (len done) ≡ moved (len done) (find? s t)
unfolding find_from
find_from-append done s t =
    rw (slice_end done s, len-append done s, ltb-len (len done) (len s)) refl

replace-append :
    (a k v g : String)
    → replace (String.◌++◌ a (String.◌++◌ k v)) (len a) (len k) g ≡ String.◌++◌ (String.◌++◌ a g) v
unfolding replace
replace-append a k v g =
    rw (slice-append_left a (String.◌++◌ k v), slice_behind a k v) (sym (append_assoc a g v))

len-behind :
    (s u k v : String) → s ≡ String.◌++◌ u (String.◌++◌ k v) → len s ≡ len u + (len k + len v)
len-behind s u k v e = rw (e, len-append u (String.◌++◌ k v), len-append k v) refl

expand_step :
    (fuel : ℕ) (pattern : String) (pos : ℕ) (o : Option ℕ)
    → find_from pattern ip_key pos ≡ o
    → expand (suc fuel) pattern pos ≡ elim o [
      | none ↦ some pattern
      | some found ↦
          expand fuel
            (replace pattern found (len ip_key) ip_search_group)
            (found + len ip_search_group)
    ]
unfolding expand
expand_step fuel pattern pos o e =
    ap
      (λ o. elim o [
        | none ↦ some pattern
        | some found ↦
            expand fuel (replace pattern found (len ip_key) ip_search_group)
              (found + len ip_search_group)
      ])
      e

-- One round of the loop at a key.
expand-keyed :
    (fuel : ℕ) (done u v : String)
    → find? (String.◌++◌ u (String.◌++◌ ip_key v)) ip_key ≡ some (len u)
    → expand (suc fuel) (String.◌++◌ done (String.◌++◌ u (String.◌++◌ ip_key v))) (len done)
      ≡ expand fuel
          (String.◌++◌ (String.◌++◌ (String.◌++◌ done u) ip_search_group) v)
          (len (String.◌++◌ (String.◌++◌ done u) ip_search_group))
expand-keyed fuel done u v e =
    let s : String = String.◌++◌ u (String.◌++◌ ip_key v) in
    expand_step fuel (String.◌++◌ done s) (len done) (some (len done + len u))
      (find_from-append done s ip_key ∙ ap (moved (len done)) e)
    ∙ rw
        (
          sym (len-append done u),
          sym (append_assoc done u (String.◌++◌ ip_key v)),
          replace-append (String.◌++◌ done u) ip_key v ip_search_group,
          sym (len-append (String.◌++◌ done u) ip_search_group),
        )
        refl

-- What is done, and what has still to be read.
expand-append :
    (fuel : ℕ) (done s : String)
    → len s < fuel
    → (t : String) × (expand fuel (String.◌++◌ done s) (len done) ≡ some (String.◌++◌ done t))
      × Expands s t
expand-append zero done s h = absurd (omega arith)
expand-append (suc fuel) done s h = elim (find?-cases s ip_key) [
  | inr e ↦ (
    s,
    expand_step fuel (String.◌++◌ done s) (len done) none
        (find_from-append done s ip_key ∙ ap (moved (len done)) e),
    plain s e,
  )
  | inl (u, v, parts, e) ↦
      let size : len s ≡ len u + (11 + len v) = len-behind s u ip_key v parts in
      let next : String = String.◌++◌ (String.◌++◌ done u) ip_search_group in
      let (t, found, rest) = expand-append fuel next v (omega arith) in
      rw parts (
        String.◌++◌ u (String.◌++◌ ip_search_group t),
        expand-keyed fuel done u v (rw parts at e)
            ∙ found
            ∙ ap (λ w. some w)
                (append_assoc (String.◌++◌ done u) ip_search_group t
                  ∙ append_assoc done u (String.◌++◌ ip_search_group t)),
        keyed u v t (rw parts at e) rest,
      )
]

-- The constructor's loop ends after at most one round more than the pattern has bytes, and the pattern
-- that it leaves is the given one with the search for an address in place of each key, the keys taken
-- from the left.
pub expand-Expands :
    (pattern : String)
    → (t : String) × (expand (suc (len pattern)) pattern 0 ≡ some t) × Expands pattern t
expand-Expands pattern =
    let (t, found, rest) = expand-append (suc (len pattern)) "" pattern (omega arith) in
    (
      t,
      subst (λ w. expand (suc (len pattern)) w 0 ≡ some t) (nil-append pattern)
          (found ∙ ap (λ w. some w) (nil-append t)),
      rest,
    )
