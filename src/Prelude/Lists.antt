-- ===== src/Prelude/Lists.antt =====
-- Lists measured and searched by Boolean tests, over the native numbers, under the library's names.
use Prim.Native.Nat.{ℕ, zero, suc, ◌+◌}
use mathlib.Core.Path.{◌≡◌, refl}
use mathlib.Core.Bool.{Bool, true, false, not, ◌&&◌, ◌||◌}
use mathlib.Core.Option.{Option, none, some}
use mathlib.Core.List.{List, [], ◌∷◌, ◌++◌}
use native.Mathlib.Omega.{arith}
use doesnotfail2ban.Prelude.Tests.{if◌then◌else◌}

module _ {ℓ} {A : Type ℓ} where
  abbrev pub length : List A → ℕ
  length [] = 0
  length (x ∷ xs) = suc (length xs)

  abbrev pub get_elem? : List A → ℕ → Option A
  get_elem? [] i = none
  get_elem? (x ∷ xs) zero = some x
  get_elem? (x ∷ xs) (suc i) = get_elem? xs i

  abbrev pub replicate : ℕ → A → List A
  replicate zero a = []
  replicate (suc n) a = a ∷ replicate n a

  -- The elements that pass a Boolean test, in order.
  abbrev pub keep : (A → Bool) → List A → List A
  keep p [] = []
  keep p (x ∷ xs) = let rest = keep p xs in if p x then x ∷ rest else rest

  abbrev pub any : (A → Bool) → List A → Bool
  any p [] = false
  any p (x ∷ xs) = p x || any p xs

  -- A predicate that holds of each element.
  abbrev pub All {κ} : (A → Type κ) → List A → Type κ
  All P [] = Unit
  All P (x ∷ xs) = P x × All P xs

module _ {ℓ} {A : Type ℓ} where
  pub length-append : (xs ys : List A) → length (xs ++ ys) ≡ length xs + length ys
  length-append [] ys = omega arith
  length-append (x ∷ xs) ys = omega (arith, length-append xs ys)

  pub length-replicate : (n : ℕ) (a : A) → length (replicate n a) ≡ n
  length-replicate zero a = refl
  length-replicate (suc n) a = omega (arith, length-replicate n a)

module _ {ℓ κ} {A : Type ℓ} (P : A → Type κ) where
  pub All-append : (xs ys : List A) → All P xs → All P ys → All P (xs ++ ys)
  All-append [] ys hx hy = hy
  All-append (x ∷ xs) ys hx hy = (hx.0, All-append xs ys hx.1 hy)

  pub All-keep : (p : A → Bool) (xs : List A) → All P xs → All P (keep p xs)
  All-keep p [] h = tt
  All-keep p (x ∷ xs) h = ground (arith, All-keep p xs h.1)

module _ {ℓ} {A : Type ℓ} where
  -- Two tests that agree on the elements keep the same ones.
  pub keep_congr : (p q : A → Bool) (xs : List A) → All (λ x. p x ≡ q x) xs → keep p xs ≡ keep q xs
  keep_congr p q [] h = refl
  keep_congr p q (x ∷ xs) h = ground (arith, keep_congr p q xs h.1)

  pub keep_every : (p : A → Bool) (xs : List A) → All (λ x. p x ≡ true) xs → keep p xs ≡ xs
  keep_every p [] h = refl
  keep_every p (x ∷ xs) h = ground (arith, keep_every p xs h.1)

  pub keep_none : (p : A → Bool) (xs : List A) → All (λ x. p x ≡ false) xs → keep p xs ≡ []
  keep_none p [] h = refl
  keep_none p (x ∷ xs) h = ground (arith, keep_none p xs h.1)

  pub keep_both : (p q : A → Bool) (xs : List A) → keep p (keep q xs) ≡ keep (λ x. q x && p x) xs
  keep_both p q [] = refl
  keep_both p q (x ∷ xs) = ground (arith, keep_both p q xs)

  pub All-mono {κ μ} :
      (P : A → Type κ) (Q : A → Type μ) (xs : List A) → ((x : A) → P x → Q x) → All P xs → All Q xs
  All-mono P Q [] f h = tt
  All-mono P Q (x ∷ xs) f h = (f x h.0, All-mono P Q xs f h.1)

  pub All-both {κ μ} :
      (P : A → Type κ) (Q : A → Type μ) (xs : List A)
      → All P xs
      → All Q xs
      → All (λ x. P x × Q x) xs
  All-both P Q [] h k = tt
  All-both P Q (x ∷ xs) h k = ((h.0, k.0), All-both P Q xs h.1 k.1)

  pub All-true {κ} : (P : A → Type κ) (xs : List A) → ((x : A) → P x) → All P xs
  All-true P [] f = tt
  All-true P (x ∷ xs) f = (f x, All-true P xs f)

module _ {ℓ} {A : Type ℓ} (same : A → A → Bool) where
  -- No element is the same as a later one.
  abbrev pub IsUnique : List A → Type 0
  IsUnique [] = Unit
  IsUnique (x ∷ xs) = All (λ y. same x y ≡ false) xs × IsUnique xs

  pub keep-IsUnique : (p : A → Bool) (xs : List A) → IsUnique xs → IsUnique (keep p xs)
  keep-IsUnique p [] h = tt
  keep-IsUnique p (x ∷ xs) h =
      ground (arith, All-keep (λ y. same x y ≡ false) p xs h.0, keep-IsUnique p xs h.1)

  IsUnique-concat :
      (xs : List A) (r : A) → IsUnique xs → All (λ x. same x r ≡ false) xs → IsUnique (xs ++ r ∷ [])
  IsUnique-concat [] r h k = (tt, tt)
  IsUnique-concat (x ∷ xs) r h k =
      (All-append (λ y. same x y ≡ false) xs (r ∷ []) h.0 (k.0, tt), IsUnique-concat xs r h.1 k.1)

  All-keep_other :
      (r : A) (xs : List A) → All (λ x. same x r ≡ false) (keep (λ x. not (same x r)) xs)
  All-keep_other r [] = tt
  All-keep_other r (x ∷ xs) = ground (arith, All-keep_other r xs)

  -- To drop what is the same as `r`, and to append `r`.
  pub replace-IsUnique :
      (r : A) (xs : List A) → IsUnique xs → IsUnique (keep (λ x. not (same x r)) xs ++ r ∷ [])
  replace-IsUnique r xs h =
      IsUnique-concat (keep (λ x. not (same x r)) xs) r (keep-IsUnique (λ x. not (same x r)) xs h)
        (All-keep_other r xs)
