-- ===== src/Cli/Tester/Matches.antt =====
-- src/dnf2b/cli/Tester.cpp: the loop over a filter's matches ends, and what it prints.
use doesnotfail2ban.Prelude.{
  ℕ, zero, suc, ◌+◌, ◌≤◌, String, ◌≡◌, ◌≢◌, refl, ap, sym, ◌∙◌, Bool, false, Option, none, some,
  List, [], ◌∷◌, ◌++◌, map, keep, length, length-append, append_assoc, get_elem?, has_value, All,
  arith, Option-cases, inl, inr, ◌==◌, eq_iff,
}
use doesnotfail2ban.Prelude.Results.{Result, ok, throw, out_of_range, ◌>>=◌}
use doesnotfail2ban.Structs.{Message}
use doesnotfail2ban.Pcre.{Pcre, Pattern}
use doesnotfail2ban.Filter.{Filter, MatchResult, drop}
use doesnotfail2ban.Filter.Matching.{
  GroupsSet, address_by, first_match, answer, check_message-first_match,
}
use doesnotfail2ban.Cli.Tester.{cons_some, print_match, match_loop}

drop-length {ℓ} : {A : Type ℓ} (xs ys : List A) → drop (length xs) (xs ++ ys) ≡ ys
drop-length [] ys = refl
drop-length (x ∷ xs) ys = drop-length xs ys

get_elem?-length {ℓ} :
    {A : Type ℓ} (xs ys : List A) (y : A) → get_elem? (xs ++ y ∷ ys) (length xs) ≡ some y
get_elem?-length [] ys y = refl
get_elem?-length (x ∷ xs) ys y = get_elem?-length xs ys y

pub length-snoc {ℓ} : {A : Type ℓ} (xs : List A) (x : A) → length (xs ++ x ∷ []) ≡ length xs + 1
length-snoc xs x = length-append xs (x ∷ [])

module _ (pcre : Pcre) (f : Filter pcre.Code) (message : Message) where
  abbrev matches : Pattern pcre.Code → Bool
  matches p = has_value (address_by pcre message p)

  abbrev pub first_from : ℕ → List (Pattern pcre.Code) → Option (String × ℕ)
  first_from n ps = first_match pcre (address_by pcre message) n ps

  some_blank : (ip : String) → some ip ≢ some "" → ip == "" ≡ false
  some_blank ip h = ground (arith, eq_iff ip "")

  -- The rest of the loop after checkMessage, with so much fuel left.
  abbrev pub after : ℕ → Option MatchResult × Option ℕ → Result (Option (List String))
  after fuel found = print_match pcre f (match_loop pcre fuel f message) found

  pub match_loop-first :
      (fuel n : ℕ)
      → All (GroupsSet pcre) f.patterns
      → match_loop pcre (suc fuel) f message n
        ≡ after fuel (answer pcre message (some n) (first_from n (drop n f.patterns)))
  unfolding match_loop
  match_loop-first fuel n g =
      ap (λ r. r >>= print_match pcre f (match_loop pcre fuel f message))
        (check_message-first_match pcre f message (some n) g)

  -- The same at a part of the patterns that begins at the offset.
  pub match_loop-here :
      (fuel : ℕ) (done ps : List (Pattern pcre.Code))
      → All (GroupsSet pcre) f.patterns
      → f.patterns ≡ done ++ ps
      → match_loop pcre (suc fuel) f message (length done)
        ≡ after fuel (answer pcre message (some (length done)) (first_from (length done) ps))
  match_loop-here fuel done ps g e =
      match_loop-first fuel (length done) g
      ∙ ap
          (λ qs.
            after fuel (answer pcre message (some (length done)) (first_from (length done) qs)))
          (ap (drop (length done)) e ∙ drop-length done ps)

  -- A round that prints a pattern.
  pub after_found :
      (fuel j : ℕ) (p : Pattern pcre.Code) (r : MatchResult) (raws : List String)
      → get_elem? f.patterns j ≡ some p
      → match_loop pcre fuel f message (j + 1) ≡ ok (some raws)
      → after fuel (some r, some j) ≡ ok (some (p.raw_pattern ∷ raws))
  unfolding print_match
  after_found fuel j p r raws here rest =
      ap
        (λ o. elim o [ none ↦ throw out_of_range | some x ↦ ok x ] >>= λ q.
          match_loop pcre fuel f message (j + 1) >>= λ more. ok (cons_some q.raw_pattern more))
        here
      ∙ ap (λ o. o >>= λ more. ok (cons_some p.raw_pattern more)) rest

  -- The pattern at the end of `done`.
  pub after-at :
      (fuel : ℕ) (done ps : List (Pattern pcre.Code)) (p : Pattern pcre.Code) (r : MatchResult)
      (raws : List String)
      → f.patterns ≡ done ++ p ∷ ps
      → match_loop pcre fuel f message (length done + 1) ≡ ok (some raws)
      → after fuel (some r, some (length done)) ≡ ok (some (p.raw_pattern ∷ raws))
  after-at fuel done ps p r raws e rest =
      after_found fuel (length done) p r raws
        (ap (λ qs. get_elem? qs (length done)) e ∙ get_elem?-length done ps p) rest

  pub snoc :
      (done ps : List (Pattern pcre.Code)) (p : Pattern pcre.Code)
      → f.patterns ≡ done ++ p ∷ ps
      → f.patterns ≡ (done ++ p ∷ []) ++ ps
  snoc done ps p e = e ∙ sym (append_assoc done (p ∷ []) ps)

  module _ (g : All (GroupsSet pcre) f.patterns) where
    prints :
        (fuel n : ℕ) (done ps : List (Pattern pcre.Code))
        → f.patterns ≡ done ++ ps
        → length ps ≤ fuel
        → All (λ p. address_by pcre message p ≢ some "") ps
        → after fuel (answer pcre message (some n) (first_from (length done) ps))
          ≡ ok (some (map (λ p. p.raw_pattern) (keep matches ps)))
    prints fuel n done [] e l a = unfold print_match in refl
    prints zero n done (p ∷ ps) e l a = absurd (omega arith)
    prints (suc fuel) n done (p ∷ ps) e l a = elim (Option-cases (address_by pcre message p)) [
      | inl nothing ↦
          rw (nothing, sym (length-snoc done p))
            (prints (suc fuel) n (done ++ p ∷ []) ps (snoc done ps p e) (omega arith) a.1)
      | inr (ip, something) ↦
          rw (something, some_blank ip (rw something at a.0))
            (after-at (suc fuel) done ps p _ _ e (
              rw (sym (length-snoc done p)) (
                match_loop-here fuel (done ++ p ∷ []) ps g (snoc done ps p e)
                ∙ prints fuel (length (done ++ p ∷ [])) (done ++ p ∷ []) ps (snoc done ps p e)
                    (omega arith) a.1)))
    ]

-- Where every group of a filter's patterns takes part in each match, and no pattern finds the blank
-- address in a message, the loop over the matches, with one round more than there are patterns, prints
-- exactly the patterns that match, in their order.
pub match_loop-keep :
    (pcre : Pcre) (f : Filter pcre.Code) (message : Message)
    → All (GroupsSet pcre) f.patterns
    → All (λ p. address_by pcre message p ≢ some "") f.patterns
    → match_loop pcre (suc (length f.patterns)) f message 0
      ≡ ok (
          some (
            map
              (λ p. p.raw_pattern)
              (keep (λ p. has_value (address_by pcre message p)) f.patterns)))
match_loop-keep pcre f message g a =
    match_loop-here pcre f message (length f.patterns) [] f.patterns g refl
    ∙ prints pcre f message g (length f.patterns) 0 [] f.patterns refl (omega arith) a
