-- ===== src/MessageBuffer/Ageing.antt =====
-- src/dnf2b/data/MessageBuffer.cpp: how long `done` keeps held messages and cached addresses.
use doesnotfail2ban.Prelude.{
  ℕ, zero, suc, ◌+◌, String, ◌≡◌, refl, ap, ◌∙◌, Bool, true, Option, none, some, [], ◌∷◌, arith,
  leb, ltb, if◌then◌else◌, eq_iff, Bool-cases, inl, inr,
}
use doesnotfail2ban.Prelude.Maps.{Map, lookup, erase_if, map_values, IsMap, Above, lookup-Above}
use doesnotfail2ban.MessageBuffer.{MessageHold, IpBuffer, MessageBuffer, done}

-- `done` after `done`, n times.
unfoldable pub cycles : ℕ → MessageBuffer → MessageBuffer
cycles zero m = m
cycles (suc n) m = cycles n (done m)

module _ {V : Type 0} where
  -- One round of ageing: every value is changed, and those that pass a test are dropped.
  abbrev pub age : (V → V) → (V → Bool) → Map V → Map V
  age grow old m = erase_if old (map_values grow m)

  Above-age :
      (grow : V → V) (old : V → Bool) (k : String) (m : Map V)
      → Above k m
      → Above k (age grow old m)
  unfolding erase_if map_values
  Above-age grow old k [] h = tt
  Above-age grow old k ((j, v) ∷ m) h = ground (arith, Above-age grow old k m h.1)

  pub age-IsMap : (grow : V → V) (old : V → Bool) (m : Map V) → IsMap m → IsMap (age grow old m)
  unfolding erase_if map_values
  age-IsMap grow old [] h = tt
  age-IsMap grow old ((j, v) ∷ m) h =
      ground (arith, Above-age grow old j m h.0, age-IsMap grow old m h.1)

  pub lookup-age :
      (grow : V → V) (old : V → Bool) (k : String) (m : Map V)
      → IsMap m
      → lookup k (age grow old m)
        ≡ elim (lookup k m) [ none ↦ none | some v ↦ if old (grow v) then none else some (grow v) ]
  unfolding lookup erase_if map_values
  lookup-age grow old k [] h = refl
  lookup-age grow old k ((j, v) ∷ m) h =
      ground (arith, lookup-age grow old k m h.1, lookup-Above j m h.0, eq_iff j k)

abbrev pub IsSorted : MessageBuffer → Type 0
IsSorted m = IsMap m.hold × IsMap m.buff

abbrev older_hold : MessageHold → MessageHold
older_hold h = record h { failed_checks = h.failed_checks + 1 }

abbrev older_ip : IpBuffer → IpBuffer
older_ip b = record b { passed_cycles = b.passed_cycles + 1 }

abbrev stale_hold : MessageHold → Bool
stale_hold h = leb 5 h.failed_checks

abbrev stale_ip : IpBuffer → Bool
stale_ip b = leb 5 b.passed_cycles

pub done-IsSorted : (m : MessageBuffer) → IsSorted m → IsSorted (done m)
unfolding done
done-IsSorted m h = elim (Bool-cases m.enable_cache) [
  | inl t ↦
      rw t (age-IsMap older_hold stale_hold m.hold h.0, age-IsMap older_ip stale_ip m.buff h.1)
  | inr f ↦ rw f h
]

-- What is left of a held batch, and of a cached address, after n rounds.
abbrev pub aged_hold : ℕ → Option MessageHold → Option MessageHold
aged_hold n none = none
aged_hold n (some h) =
    if ltb (h.failed_checks + n) 5
    then some (record h { failed_checks = h.failed_checks + n })
    else none

abbrev pub aged_ip : ℕ → Option IpBuffer → Option IpBuffer
aged_ip n none = none
aged_ip n (some b) =
    if ltb (b.passed_cycles + n) 5
    then some (record b { passed_cycles = b.passed_cycles + n })
    else none

done-hold :
    (k : String) (m : MessageBuffer)
    → IsSorted m
    → m.enable_cache ≡ true
    → lookup k (done m).hold ≡ aged_hold 1 (lookup k m.hold)
unfolding done
done-hold k m s e = ground (arith, e, lookup-age older_hold stale_hold k m.hold s.0)

done-buff :
    (k : String) (m : MessageBuffer)
    → IsSorted m
    → m.enable_cache ≡ true
    → lookup k (done m).buff ≡ aged_ip 1 (lookup k m.buff)
unfolding done
done-buff k m s e = ground (arith, e, lookup-age older_ip stale_ip k m.buff s.1)

done-enable_cache : (m : MessageBuffer) → (done m).enable_cache ≡ m.enable_cache
unfolding done
done-enable_cache m = ground arith

aged_hold-aged_hold :
    (n : ℕ) (o : Option MessageHold) → aged_hold (suc n) (aged_hold 1 o) ≡ aged_hold (suc (suc n)) o
aged_hold-aged_hold n o = ground arith

aged_ip-aged_ip :
    (n : ℕ) (o : Option IpBuffer) → aged_ip (suc n) (aged_ip 1 o) ≡ aged_ip (suc (suc n)) o
aged_ip-aged_ip n o = ground arith

-- With the cache enabled, n rounds of `done`, n from 1, leave of the held batch of a process, and of the
-- address cached for it, exactly what has a count that stays below 5 with n added, with that count.
pub lookup-cycles :
    (n : ℕ) (k : String) (m : MessageBuffer)
    → IsSorted m
    → m.enable_cache ≡ true
    → (lookup k (cycles (suc n) m).hold ≡ aged_hold (suc n) (lookup k m.hold))
      × (lookup k (cycles (suc n) m).buff ≡ aged_ip (suc n) (lookup k m.buff))
unfolding cycles
lookup-cycles zero k m s e = (done-hold k m s e, done-buff k m s e)
lookup-cycles (suc n) k m s e =
    let ih = lookup-cycles n k (done m) (done-IsSorted m s) (done-enable_cache m ∙ e) in
    (
      ih.0 ∙ ap (aged_hold (suc n)) (done-hold k m s e) ∙ aged_hold-aged_hold n (lookup k m.hold),
      ih.1 ∙ ap (aged_ip (suc n)) (done-buff k m s e) ∙ aged_ip-aged_ip n (lookup k m.buff),
    )
