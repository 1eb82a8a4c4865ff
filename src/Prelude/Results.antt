-- ===== src/Prelude/Results.antt =====
-- Results of code that may throw. `Fault` names the exceptions that the modelled code throws itself
-- or lets pass from the standard library.
use Prim.Native.String.{String}
use mathlib.Core.Path.{◌≡◌, refl}

pub data Fault : Type 0 where
  -- `std::map::at` of a missing key, `substr` past the end
  out_of_range : Fault
  -- `std::stoll` without a number
  invalid_argument : Fault
  -- `throw std::runtime_error(...)`, with its text
  runtime_error : String → Fault
  -- `throw 255`
  thrown_int : Fault
  -- `std::get` of the alternative that a variant does not hold
  bad_variant_access : Fault
  -- a member of a null pointer: the program ends
  null_pointer : Fault
  -- an exception of nlohmann::json
  library_error : Fault
  -- a std::system_error, which is a std::runtime_error, of asio or std::filesystem
  system_error : Fault
  -- `std::optional::value` of an empty optional
  bad_optional_access : Fault

pub data Result {ℓ} (A : Type ℓ) : Type ℓ where
  ok : A → Result A
  throw : Fault → Result A

pub ok-injective {ℓ} : {A : Type ℓ} {a b : A} → ok a ≡ ok b → a ≡ b
ok-injective h = cc

infixl 5 ◌>>=◌
abbrev pub ◌>>=◌ {ℓ κ} : {A : Type ℓ} {B : Type κ} → Result A → (A → Result B) → Result B
throw fault >>= rest = throw fault
ok value >>= rest = rest value

-- A property of the value, where there is one.
abbrev pub Ensures {ℓ κ} : {A : Type ℓ} → (A → Type κ) → Result A → Type κ
Ensures P (ok a) = P a
Ensures P (throw e) = Unit

pub >>=-Ensures {ℓ κ μ ν} :
    {A : Type ℓ} {B : Type κ} (P : A → Type μ) (Q : B → Type ν) (m : Result A) (f : A → Result B)
    → Ensures P m
    → ((a : A) → P a → Ensures Q (f a))
    → Ensures Q (m >>= f)
>>=-Ensures P Q (ok a) f h k = k a h
>>=-Ensures P Q (throw e) f h k = tt

pub >>=-Ensures_any {ℓ κ ν} :
    {A : Type ℓ} {B : Type κ} (Q : B → Type ν) (m : Result A) (f : A → Result B)
    → ((a : A) → Ensures Q (f a))
    → Ensures Q (m >>= f)
>>=-Ensures_any Q (ok a) f k = k a
>>=-Ensures_any Q (throw e) f k = tt

pub Ensures-mono {ℓ κ μ} :
    {A : Type ℓ} (P : A → Type κ) (Q : A → Type μ) (m : Result A)
    → ((a : A) → P a → Q a)
    → Ensures P m
    → Ensures Q m
Ensures-mono P Q (ok a) f h = f a h
Ensures-mono P Q (throw e) f h = tt

-- A result that is a value.
abbrev pub Returns {ℓ} : {A : Type ℓ} → Result A → Type ℓ
Returns {A} r = (a : A) × (r ≡ ok a)

pub >>=-Returns {ℓ κ} :
    {A : Type ℓ} {B : Type κ} (m : Result A) (f : A → Result B)
    → Returns m
    → ((a : A) → Returns (f a))
    → Returns (m >>= f)
>>=-Returns m f (a, e) k = rw e (k a)

pub Ensures-Returns {ℓ κ} :
    {A : Type ℓ} (P : A → Type κ) (r : Result A)
    → Ensures P r
    → Returns r
    → (a : A) × (r ≡ ok a) × P a
Ensures-Returns P (ok a) h k = (a, refl, h)
Ensures-Returns P (throw e) h (a, k) = cc

-- One statement after another, unless the first throws.
abbrev pub and_then {ℓ} :
    {S : Type ℓ} → Result (Unit {0}) × S → (S → Result (Unit {0}) × S) → Result (Unit {0}) × S
and_then (throw e, s) next = (throw e, s)
and_then (ok _, s) next = next s

pub and_then-ok {ℓ} :
    {S : Type ℓ} (r : Result (Unit {0}) × S) (next : S → Result (Unit {0}) × S)
    → r.0 ≡ ok tt
    → and_then r next ≡ next r.1
and_then-ok (ok _, s) next e = refl
and_then-ok (throw f, s) next e = cc

-- A second statement that leaves the state.
pub and_then-stop {ℓ} :
    {S : Type ℓ} (r : Result (Unit {0}) × S) (next : S → Result (Unit {0}) × S)
    → ((s : S) → (next s).1 ≡ s)
    → (and_then r next).1 ≡ r.1
and_then-stop (ok _, s) next h = h s
and_then-stop (throw f, s) next h = refl

-- What holds from the first statement on, whether it throws or not, holds at the end.
pub and_then_induction {ℓ κ} :
    {S : Type ℓ} (P : S → Type κ) (r : Result (Unit {0}) × S) (next : S → Result (Unit {0}) × S)
    → P r.1
    → ((s : S) → P s → P (next s).1)
    → P (and_then r next).1
and_then_induction P (throw e, s) next h keeps = h
and_then_induction P (ok _, s) next h keeps = keeps s h
