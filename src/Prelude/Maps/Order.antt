-- ===== src/Prelude/Maps/Order.antt =====
-- The order of keys in a `std::map<std::string, V>` is a strict order: the byte order of texts.
use Prim.Native.Char.{Char, code}
use Prim.Native.String.{String, compare}
use Prim.Native.String.compare as cmp
use mathlib.Core.Path.{◌≡◌, refl, ◌∙◌}
use mathlib.Core.Bool.{Bool, true, false}
use native.Mathlib.Omega.{arith}
use text.Mathlib.Text.{is_lt, is_eq, ◌==◌}
use doesnotfail2ban.Prelude.Tests.{ltb, eqb, if◌then◌else◌}

-- k < j, as `std::less<std::string>` answers.
abbrev pub before : String → String → Bool
before k j = is_lt (compare k j)

before-nil-cons : (d : Char) (t : String) → before String.[] (String.◌∷◌ d t) ≡ true
before-nil-cons d t = λ i. is_lt (cmp.nil-cons d t i)

before-cons-nil : (c : Char) (s : String) → before (String.◌∷◌ c s) String.[] ≡ false
before-cons-nil c s = λ i. is_lt (cmp.cons-nil c s i)

-- The first characters decide, unless they are equal.
before-cons-cons :
    (c d : Char) (s t : String)
    → before (String.◌∷◌ c s) (String.◌∷◌ d t) ≡ (
        if ltb (code c) (code d) then true else if eqb (code c) (code d) then before s t else false)
before-cons-cons c d s t = (λ i. is_lt (cmp.cons-cons c d s t i)) ∙ ground arith

pub before_trans : (a b c : String) → before a b ≡ true → before b c ≡ true → before a c ≡ true
before_trans String.[] String.[] c h k = cc
before_trans String.[] (String.◌∷◌ y t) String.[] h k = cc (before-cons-nil y t)
before_trans String.[] (String.◌∷◌ y t) (String.◌∷◌ z u) h k = before-nil-cons z u
before_trans (String.◌∷◌ x s) String.[] c h k = cc (before-cons-nil x s)
before_trans (String.◌∷◌ x s) (String.◌∷◌ y t) String.[] h k = cc (before-cons-nil y t)
before_trans (String.◌∷◌ x s) (String.◌∷◌ y t) (String.◌∷◌ z u) h k = ground (
  arith,
  before_trans s t u,
  before-cons-cons x y s t,
  before-cons-cons y z t u,
  before-cons-cons x z s u,
)

pub before_irrefl : (a : String) → before a a ≡ false
before_irrefl String.[] = refl
before_irrefl (String.◌∷◌ x s) = ground (arith, before_irrefl s, before-cons-cons x x s s)

equal-cons-cons :
    (c d : Char) (s t : String)
    → ((String.◌∷◌ c s) == (String.◌∷◌ d t)) ≡ (if eqb (code c) (code d) then s == t else false)
equal-cons-cons c d s t = (λ i. is_eq (cmp.cons-cons c d s t i)) ∙ ground arith

-- Of two different keys one comes first.
pub before_total : (a b : String) → (a == b) ≡ false → before a b ≡ false → before b a ≡ true
before_total String.[] String.[] h k = cc
before_total String.[] (String.◌∷◌ y t) h k = cc (before-nil-cons y t)
before_total (String.◌∷◌ x s) String.[] h k = before-nil-cons x s
before_total (String.◌∷◌ x s) (String.◌∷◌ y t) h k = ground (
  arith,
  before_total s t,
  before-cons-cons x y s t,
  before-cons-cons y x t s,
  equal-cons-cons x y s t,
)
