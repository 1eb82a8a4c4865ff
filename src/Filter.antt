-- ===== src/Filter.antt =====
-- src/dnf2b/filters/Filter.cpp and Filter.hpp: the patterns of a filter, and checkMessage.
pub mod Matching
pub mod Expansion
pub mod Files
pub mod Building
pub mod Slashes
pub mod Locating
use doesnotfail2ban.Prelude.{
  ℕ, zero, suc, ◌+◌, String, ◌==◌, Bool, true, false, Option, none, some, List, [], ◌∷◌,
  if◌then◌else◌, value_or,
}
use doesnotfail2ban.Prelude.Results.{Result, ok, throw, ◌>>=◌}
use doesnotfail2ban.Structs.{Message}
use doesnotfail2ban.Pcre.{Pcre, Pattern, PcreMatcher, matcher, next, get}

pub record MatchResult : Type 0 where
  pub ip : String
  pub group_id : String
  pub error : Bool

pub record Filter (Code : Type 0) : Type 0 where
  pub patterns : List (Pattern Code)
  pub insensitive : Bool
  pub filter_name : String

abbrev pub drop {ℓ} : {A : Type ℓ} → ℕ → List A → List A
drop zero xs = xs
drop (suc n) [] = []
drop (suc n) (x ∷ xs) = drop n xs

-- What is returned at a match with address `ip`, and the new value of *matchIdx.
unfoldable pub match_result : String → Message → Option ℕ → ℕ → Option MatchResult × Option ℕ
match_result ip message match_idx i =
    if ip == ""
    then (some (record { ip = ""; group_id = message.process; error = true }), match_idx)
    else (
      some (record { ip = ip; group_id = ""; error = false }),
      elim match_idx [ none ↦ none | some _ ↦ some i ],
    )

module _ (pcre : Pcre) where
  -- The address of a match: the group of that name, or else the one that the message has.
  unfoldable pub ip_of_match : Message → Bool × PcreMatcher pcre → Result (Option String)
  ip_of_match message (false, m) = ok none
  ip_of_match message (true, m) = get pcre m "IP" >>= λ ip. ok (some (value_or ip message.ip))

  -- The body of the loop: the address if the pattern matches.
  unfoldable pub match_ip : Pattern pcre.Code → Message → Result (Option String)
  unfolding ip_of_match
  match_ip p message = ip_of_match message (next pcre (matcher pcre p.code message.message))

  -- The loop from pattern `i` on; `match_idx` is *matchIdx, `none` for a null pointer.
  unfoldable pub check_from :
      ℕ → List (Pattern pcre.Code) → Message → Option ℕ → Result (Option MatchResult × Option ℕ)
  check_from i [] message match_idx = ok (none, match_idx)
  check_from i (p ∷ ps) message match_idx = match_ip p message >>= elim [
    | none ↦ check_from (i + 1) ps message match_idx
    | some ip ↦ ok (match_result ip message match_idx i)
  ]

  -- Filter::checkMessage
  unfoldable pub check_message :
      Filter pcre.Code → Message → Option ℕ → Result (Option MatchResult × Option ℕ)
  check_message f message match_idx =
      let start = value_or match_idx 0 in check_from start (drop start f.patterns) message match_idx
