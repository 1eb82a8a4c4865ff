-- ===== src/Prelude/Maps.antt =====
-- `std::map<std::string, V>`: an association list in the order of its keys, which is the order in
-- which the source's range-for loops visit it. The laws of look-up need no law of the order.
pub mod Order
use Prim.Native.String.{String}
use mathlib.Core.Path.{◌≡◌, refl, ap, subst}
use mathlib.Core.Logic.{inl, inr}
use mathlib.Core.Bool.{Bool, true, false}
use mathlib.Core.Option.{Option, none, some, some-injective}
use mathlib.Core.List.{List, [], ◌∷◌}
use native.Mathlib.Omega.{arith}
use text.Mathlib.Text.{◌==◌}
use text.Mathlib.TextEquality.{eq_iff}
use text.Mathlib.TextPositions.{eq_refl}
use Order.{before, before_trans, before_irrefl, before_total}
use doesnotfail2ban.Prelude.Tests.{if◌then◌else◌, has_value, Bool-cases}

abbrev pub Map {ℓ} : Type ℓ → Type ℓ
Map V = List (String × V)

module _ {ℓ} {V : Type ℓ} where
  -- m.find(key), m.at(key)
  unfoldable pub lookup : String → Map V → Option V
  lookup key ((first, value) ∷ rest) = if first == key then some value else lookup key rest
  lookup key [] = none

  -- m.contains(key)
  abbrev pub contains : String → Map V → Bool
  contains key m = has_value (lookup key m)

  -- m[key] = new
  unfoldable pub insert : String → V → Map V → Map V
  insert key new ((first, value) ∷ rest) =
      let behind = insert key new rest in
      if first == key
      then (key, new) ∷ rest
      else if before key first
      then (key, new) ∷ (first, value) ∷ rest
      else (first, value) ∷ behind
  insert key new [] = (key, new) ∷ []

  -- m.erase(k)
  unfoldable pub erase : String → Map V → Map V
  erase k [] = []
  erase k ((j, v) ∷ m) = let rest = erase k m in if j == k then rest else (j, v) ∷ rest

  -- std::erase_if on the values
  unfoldable pub erase_if : (V → Bool) → Map V → Map V
  erase_if p [] = []
  erase_if p ((j, v) ∷ m) = let rest = erase_if p m in if p v then rest else (j, v) ∷ rest

  -- A loop over the map that changes each value in place.
  unfoldable pub map_values : (V → V) → Map V → Map V
  map_values f [] = []
  map_values f ((j, v) ∷ m) = (j, f v) ∷ map_values f m

  pub lookup-insert :
      (key other : String) (new : V) (m : Map V)
      → lookup other (insert key new m) ≡ (if key == other then some new else lookup other m)
  unfolding lookup insert
  lookup-insert key other new ((first, value) ∷ rest) = ground (
    arith,
    lookup-insert key other new rest,
    eq_iff key other,
    eq_iff first key,
    eq_iff first other,
  )
  lookup-insert key other new [] = refl

  pub lookup-erase :
      (k j : String) (m : Map V) → lookup j (erase k m) ≡ (if k == j then none else lookup j m)
  unfolding lookup erase
  lookup-erase k j [] = ground arith
  lookup-erase k j ((i, w) ∷ m) =
      ground (arith, eq_iff k j, eq_iff i k, eq_iff i j, lookup-erase k j m)

module _ {ℓ} {V : Type ℓ} where
  -- Every key of the map comes after `k`.
  abbrev pub Above : String → Map V → Type 0
  Above k [] = Unit
  Above k ((j, v) ∷ m) = (before k j ≡ true) × Above k m

  -- The keys rise strictly, so each stands once.
  abbrev pub IsMap : Map V → Type 0
  IsMap [] = Unit
  IsMap ((k, v) ∷ m) = Above k m × IsMap m

  pub Above-trans : (k j : String) (m : Map V) → before k j ≡ true → Above j m → Above k m
  Above-trans k j [] b h = tt
  Above-trans k j ((i, v) ∷ m) b h = (before_trans k j i b h.0, Above-trans k j m b h.1)

  Above-insert :
      (k j : String) (v : V) (m : Map V) → before k j ≡ true → Above k m → Above k (insert j v m)
  unfolding insert
  Above-insert k j v [] b h = (b, tt)
  Above-insert k j v ((i, w) ∷ m) b h = ground (arith, eq_iff i j, Above-insert k j v m)

  pub insert-IsMap : (k : String) (v : V) (m : Map V) → IsMap m → IsMap (insert k v m)
  unfolding insert
  insert-IsMap k v [] h = (tt, tt)
  insert-IsMap k v ((j, w) ∷ m) h = ground (
    arith,
    eq_iff j k,
    before_total k j,
    eq_iff k j,
    Above-trans k j m,
    Above-insert j k v m,
    insert-IsMap k v m,
  )

  Above-erase : (k j : String) (m : Map V) → Above k m → Above k (erase j m)
  unfolding erase
  Above-erase k j [] h = tt
  Above-erase k j ((i, w) ∷ m) h = ground (arith, Above-erase k j m)

  pub erase-IsMap : (k : String) (m : Map V) → IsMap m → IsMap (erase k m)
  unfolding erase
  erase-IsMap k [] h = tt
  erase-IsMap k ((j, w) ∷ m) h = ground (arith, Above-erase j k m, erase-IsMap k m)

  -- A key before all others is not in the map.
  pub lookup-Above : (k : String) (m : Map V) → Above k m → lookup k m ≡ none
  unfolding lookup
  lookup-Above k [] h = refl
  lookup-Above k ((j, v) ∷ m) h =
      ground (arith, eq_iff j k, before_irrefl k, ap (λ x. before k x), lookup-Above k m)

module _ {ℓ κ} {V : Type ℓ} (P : String → V → Type κ) where
  -- A property of each key with its value.
  abbrev pub AllEntries : Map V → Type κ
  AllEntries [] = Unit
  AllEntries ((k, v) ∷ m) = P k v × AllEntries m

  pub AllEntries-insert :
      (k : String) (v : V) (m : Map V) → P k v → AllEntries m → AllEntries (insert k v m)
  unfolding insert
  AllEntries-insert k v [] p h = (p, tt)
  AllEntries-insert k v ((j, w) ∷ m) p h = ground (arith, AllEntries-insert k v m p h.1)

  pub AllEntries-erase : (k : String) (m : Map V) → AllEntries m → AllEntries (erase k m)
  unfolding erase
  AllEntries-erase k [] h = tt
  AllEntries-erase k ((j, w) ∷ m) h = ground (arith, AllEntries-erase k m h.1)

  pub AllEntries-lookup :
      (k : String) (v : V) (m : Map V) → AllEntries m → lookup k m ≡ some v → P k v
  unfolding lookup
  AllEntries-lookup k v [] h e = cc
  AllEntries-lookup k v ((j, w) ∷ m) h e = elim (Bool-cases (j == k)) [
    | inl t ↦
        subst (λ x. P k x) (some-injective w v (rw t at e))
          (subst (λ i. P i w) ((eq_iff j k).0 t) h.0)
    | inr f ↦ AllEntries-lookup k v m h.1 (rw f at e)
  ]

pub AllEntries-mono {ℓ κ μ} :
    {V : Type ℓ} (P : String → V → Type κ) (Q : String → V → Type μ)
    → ((k : String) (v : V) → P k v → Q k v)
    → (m : Map V) → AllEntries P m
    → AllEntries Q m
AllEntries-mono P Q f [] h = tt
AllEntries-mono P Q f ((k, v) ∷ m) h = (f k v h.0, AllEntries-mono P Q f m h.1)

-- No entry behind a key has it.
pub Above-others {ℓ} :
    {V : Type ℓ} (k : String) (m : Map V) → Above k m → AllEntries (λ j v. (j == k) ≡ false) m
Above-others k [] h = tt
Above-others k ((j, v) ∷ m) h =
    (ground (arith, eq_iff j k, before_irrefl k, ap (λ x. before k x), h.0), Above-others k m h.1)

module _ {ℓ κ μ} {V : Type ℓ} (P : String → V → Type κ) (Q : String → V → Type μ) where
  pub AllEntries-both :
      (m : Map V) → AllEntries P m → AllEntries Q m → AllEntries (λ k v. P k v × Q k v) m
  AllEntries-both [] h g = tt
  AllEntries-both ((k, v) ∷ m) h g = ((h.0, g.0), AllEntries-both m h.1 g.1)

-- Each entry of a map is what is found under its key.
pub entries_found {ℓ} :
    {V : Type ℓ} (m : Map V) → IsMap m → AllEntries (λ k v. lookup k m ≡ some v) m
unfolding lookup
entries_found [] s = tt
entries_found ((k, v) ∷ m) s = (
  rw (eq_refl k) refl,
  AllEntries-mono _ _ (λ j w (found, other). ground (arith, found, other, eq_iff j k, eq_iff k j)) m
      (AllEntries-both _ _ m (entries_found m s.1) (Above-others k m s.0)),
)
