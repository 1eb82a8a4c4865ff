-- ===== src/Pcre.antt =====
-- src/dnf2b/util/PCRE.cpp and PCRE.hpp: the matcher over pcre2, which is a parameter. Positions count
-- bytes; a text is UTF-8, so a position that pcre2 reports lies between characters.
use Prim.Native.String.{len, slice}
use doesnotfail2ban.Prelude.{
  ℕ, ◌+◌, ◌-◌, ◌%◌, String, Bool, true, false, Option, none, some, List, [], ◌∷◌, length, get_elem?,
  ltb, leb, if◌then◌else◌,
}
use doesnotfail2ban.Prelude.Results.{Result, ok, throw, out_of_range, runtime_error, ◌>>=◌}

-- What the source calls of pcre2. `exec` is pcre2_match from an offset: `none` where it returns 0 or
-- less, and else as many pairs of the output vector as it returns; a group that takes no part in the
-- match has the pair (PCRE2_UNSET, PCRE2_UNSET).
pub record Pcre : Type 1 where
  pub Code : Type 0
  -- PCRE2_CASELESS | PCRE2_UTF is the flag `true`; `false` is no option
  pub compile : String → Bool → Option Code
  pub exec : Code → String → ℕ → Option (List (ℕ × ℕ))
  pub number_from_name : Code → String → Option ℕ

abbrev pub size_mod : ℕ
size_mod = 0x10000000000000000

abbrev pub unset : ℕ
unset = size_mod - 1

-- A compiled pattern with its text.
pub record Pattern (Code : Type 0) : Type 0 where
  pub code : Code
  pub raw_pattern : String

-- std::string::substr
unfoldable pub substr : String → ℕ → ℕ → Result String
substr s start count =
    if ltb (len s) start then throw out_of_range else ok (slice s start (start + count))

-- With npos as the count
abbrev pub substr_from : String → ℕ → Result String
substr_from s start = substr s start (len s - start)

module _ (pcre : Pcre) where
  -- Pattern::Pattern
  unfoldable pub compile_pattern : String → Bool → Result (Pattern pcre.Code)
  compile_pattern text options = elim (pcre.compile text options) [
    | none ↦ throw (runtime_error "Invalid pattern")
    | some c ↦ ok (record { code = c; raw_pattern = text })
  ]

  -- `ovector` is `none` before the first match, and holds `count` pairs after one.
  pub record PcreMatcher : Type 0 where
    pub input : String
    pub pattern : pcre.Code
    pub ovector : Option (List (ℕ × ℕ))

  unfoldable pub matcher : pcre.Code → String → PcreMatcher
  matcher code text = record { input = text; pattern = code; ovector = none }

  abbrev group_count : PcreMatcher → ℕ
  group_count m = elim m.ovector [ none ↦ 0 | some pairs ↦ length pairs ]

  -- ovector[1], the end of the last match
  abbrev offset_of : List (ℕ × ℕ) → ℕ
  offset_of [] = 0
  offset_of ((start, end) ∷ pairs) = end

  abbrev resume : PcreMatcher → ℕ
  resume m = elim m.ovector [ none ↦ 0 | some pairs ↦ offset_of pairs ]

  -- What `next` answers, and the match data it leaves.
  abbrev pub advance : PcreMatcher → Option (List (ℕ × ℕ)) → Bool × PcreMatcher
  advance m none = (false, m)
  advance m (some pairs) = (true, record m { ovector = some pairs })

  -- PCREMatcher::next
  unfoldable pub next : PcreMatcher → Bool × PcreMatcher
  next m = advance m (pcre.exec m.pattern m.input (resume m))

  abbrev group_at : String → Option (ℕ × ℕ) → Result (Option String)
  group_at input none = ok none
  group_at input (some (start, end)) =
      substr input start ((end + size_mod - start) % size_mod) >>= λ s. ok (some s)

  abbrev pairs_of : PcreMatcher → List (ℕ × ℕ)
  pairs_of m = elim m.ovector [ none ↦ [] | some pairs ↦ pairs ]

  -- PCREMatcher::get(size_t): no group at or past `count`
  unfoldable pub get_group : PcreMatcher → ℕ → Result (Option String)
  unfolding substr
  get_group m group = group_at m.input (get_elem? (pairs_of m) group)

  -- PCREMatcher::get(const std::string&)
  unfoldable pub get : PcreMatcher → String → Result (Option String)
  unfolding get_group
  get m group =
      if leb (length (pairs_of m)) 1
      then ok none
      else elim (pcre.number_from_name m.pattern group) [
        | none ↦ ok none
        | some index ↦ get_group m index
      ]
