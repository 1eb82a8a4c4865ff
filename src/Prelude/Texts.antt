-- ===== src/Prelude/Texts.antt =====
-- Positions in a text: what a search finds, and the parts of a text around a position.
use Prim.Native.Nat.{ℕ, suc, ◌+◌, ◌≤◌, compare}
use Prim.Native.String.{String, len, slice, find, ◌++◌}
use mathlib.Core.Path.{◌≡◌, ap, ◌∙◌, subst}
use mathlib.Core.Logic.{◌⊎◌, inl, inr}
use native.Mathlib.Omega.{arith}
use mathlib.Core.Option.{none, some}
use text.Mathlib.Text.{find?, is_le, when}
use text.Mathlib.TextFind.{find_cases}
use text.Mathlib.TextLemmas.{append_assoc}
use text.Mathlib.TextPositions.{len-append, slice-append_right}

-- A text that is found, and the parts around it.
abbrev pub Found : String → String → Type 0
Found s t = (u : String) × (v : String) × (s ≡ u ++ (t ++ v)) × (find? s t ≡ some (len u))

when-miss : (n p : ℕ) → p ≡ suc n → when (is_le (compare p n)) p ≡ none
when-miss n p e = ground arith

when-hit : (n p q : ℕ) → p ≡ q → q ≤ n → when (is_le (compare p n)) p ≡ some q
when-hit n p q e h = ground arith

len-before : (s u w : String) → s ≡ u ++ w → len u ≤ len s
len-before s u w e = rw (e, len-append u w) (omega arith)

pub find?-cases : (s t : String) → Found s t ⊎ (find? s t ≡ none)
find?-cases s t = elim (find_cases s t) [
  | inl (u, v, e, at) ↦
      inl (u, v, e, when-hit (len s) (find s t) (len u) at (len-before s u (t ++ v) e))
  | inr miss ↦ inr (when-miss (len s) (find s t) miss)
]

pub find?-none : (s t : String) → find? s t ≡ none → find s t ≡ suc (len s)
find?-none s t e = elim (find_cases s t) [
  | inl (u, v, parts, at) ↦
      let hit = when-hit (len s) (find s t) (len u) at (len-before s u (t ++ v) parts) in absurd cc
  | inr miss ↦ miss
]

pub find?_at : (s t : String) (n : ℕ) → find s t ≡ n → n ≤ len s → find? s t ≡ some n
find?_at s t n e h = when-hit (len s) (find s t) n e h

-- From the middle of a text to its end.
pub slice_end : (s t : String) → slice (s ++ t) (len s) (len (s ++ t)) ≡ t
slice_end s t = ap (λ n. slice (s ++ t) (len s) n) (len-append s t) ∙ slice-append_right s t

-- What is behind the middle one of three parts.
pub slice_behind :
    (s t u : String) → slice (s ++ (t ++ u)) (len s + len t) (len (s ++ (t ++ u))) ≡ u
slice_behind s t u =
    subst (λ w. slice w (len s + len t) (len w) ≡ u) (append_assoc s t u)
      (subst (λ n. slice ((s ++ t) ++ u) n (len ((s ++ t) ++ u)) ≡ u) (len-append s t)
        (slice_end (s ++ t) u))
