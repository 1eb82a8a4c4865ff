-- ===== src/Cli/Tester/Ending.antt =====
-- src/dnf2b/cli/Tester.cpp: the loop over a filter's matches ends for any message, and what it prints
-- where a pattern finds no address.
use doesnotfail2ban.Prelude.{
  ℕ, zero, suc, ◌+◌, ◌≤◌, ◌<◌, String, ◌≡◌, refl, ap, sym, ◌∙◌, true, Option, none, some, List, [],
  ◌∷◌, ◌++◌, map, length, get_elem?, All, arith, Option-cases, Bool-cases, inl, inr, ◌==◌,
}
use doesnotfail2ban.Prelude.Results.{ok}
use doesnotfail2ban.Structs.{Message}
use doesnotfail2ban.Pcre.{Pcre, Pattern}
use doesnotfail2ban.Filter.{Filter, MatchResult, drop}
use doesnotfail2ban.Filter.Matching.{GroupsSet, address_by, first_match, answer}
use doesnotfail2ban.Cli.Tester.Matches.{
  match_loop-first, match_loop-here, after_found, after-at, after, after-at, first_from, snoc,
  length-snoc,
}
use doesnotfail2ban.Prelude.{◌-◌, ◌⊎◌}
use doesnotfail2ban.Cli.Tester.{print_match, match_loop}

get_elem?-less {ℓ} :
    {A : Type ℓ} (xs : List A) (i : ℕ) → i < length xs → (x : A) × (get_elem? xs i ≡ some x)
get_elem?-less [] i h = absurd (omega arith)
get_elem?-less (x ∷ xs) zero h = (x, refl)
get_elem?-less (x ∷ xs) (suc i) h = get_elem?-less xs i (omega arith)

length-drop {ℓ} : {A : Type ℓ} (n : ℕ) (xs : List A) → length (drop n xs) ≡ length xs - n
length-drop zero xs = omega arith
length-drop (suc n) [] = omega arith
length-drop (suc n) (x ∷ xs) = omega (arith, length-drop n xs)

index_of : Option (String × ℕ) → ℕ
index_of none = 0
index_of (some (ip, k)) = k

index_of-some :
    (n k : ℕ) (found ip : String)
    → ◌≡◌ {A = Option (String × ℕ)} (some (found, n)) (some (ip, k))
    → n ≡ k
unfolding index_of
index_of-some n k found ip e = ap index_of e

bounds : (n k l : ℕ) → n ≡ k → (n ≤ k) × (k < n + suc l)
bounds n k l e = (omega arith, omega arith)

module _ (pcre : Pcre) (f : Filter pcre.Code) (message : Message) where
  first_match-bound :
      (n : ℕ) (ps : List (Pattern pcre.Code)) (ip : String) (k : ℕ)
      → first_match pcre (address_by pcre message) n ps ≡ some (ip, k)
      → (n ≤ k) × (k < n + length ps)
  first_match-bound n [] ip k e = absurd cc
  first_match-bound n (p ∷ ps) ip k e = elim (Option-cases (address_by pcre message p)) [
    | inl nothing ↦
        let (l, r) = first_match-bound (n + 1) ps ip k (rw nothing at e) in
        (omega arith, omega arith)
    | inr (found, something) ↦
        bounds n k (length ps) (index_of-some n k found ip (rw something at e))
  ]

  -- The index that a round prints: a match with no address leaves the offset.
  answer-found :
      (n : ℕ) (ip : String) (k : ℕ)
      → (r : MatchResult) × (j : ℕ) × (answer pcre message (some n) (some (ip, k))
          ≡ (some r, some j))
        × ((j ≡ n) ⊎ (j ≡ k))
  answer-found n ip k = elim (Bool-cases (ip == "")) [
    | inl t ↦ rw t (_, n, refl, inl refl)
    | inr e ↦ rw e (_, k, refl, inr refl)
  ]

  abbrev at_offset : ℕ → Option (String × ℕ)
  at_offset n = first_match pcre (address_by pcre message) n (drop n f.patterns)

  no_more :
      (fuel n : ℕ)
      → at_offset n ≡ none
      → after pcre f message fuel (answer pcre message (some n) (at_offset n)) ≡ ok (some [])
  unfolding print_match
  no_more fuel n h = ap (λ o. after pcre f message fuel (answer pcre message (some n) o)) h

  ends :
      (fuel n : ℕ)
      → All (GroupsSet pcre) f.patterns
      → length f.patterns ≤ n + fuel
      → (raws : List String) × (match_loop pcre (suc fuel) f message n ≡ ok (some raws))
  ends zero n g l = elim (Option-cases (at_offset n)) [
    | inl nothing ↦ ([], match_loop-first pcre f message 0 n g ∙ no_more 0 n nothing)
    | inr ((ip, k), something) ↦
        let size : length (drop n f.patterns) ≡ length f.patterns - n = length-drop n f.patterns in
        let (low, high) = first_match-bound n (drop n f.patterns) ip k something in
        absurd (omega arith)
  ]
  ends (suc fuel) n g l = elim (Option-cases (at_offset n)) [
    | inl nothing ↦
        ([], match_loop-first pcre f message (suc fuel) n g ∙ no_more (suc fuel) n nothing)
    | inr ((ip, k), something) ↦
        let size : length (drop n f.patterns) ≡ length f.patterns - n = length-drop n f.patterns in
        let (low, high) = first_match-bound n (drop n f.patterns) ip k something in
        let (r, j, answered, which) = answer-found n ip k in
        let inside : (n ≤ j) × (j < length f.patterns) = ground arith in
        let (p, here) = get_elem?-less f.patterns j inside.1 in
        let (raws, rest) = ends fuel (j + 1) g (omega (arith, inside.0)) in
        (
          p.raw_pattern ∷ raws,
          match_loop-first pcre f message (suc fuel) n g
              ∙ ap (λ o. after pcre f message (suc fuel) (answer pcre message (some n) o)) something
              ∙ ap (after pcre f message (suc fuel)) answered
              ∙ after_found pcre f message (suc fuel) j p r raws here rest,
        )
  ]

-- The loop over a filter's matches ends for every message, after at most one round more than there are
-- patterns and without an exception, where every group of the patterns takes part in each match.
pub match_loop-Returns :
    (pcre : Pcre) (f : Filter pcre.Code) (message : Message)
    → All (GroupsSet pcre) f.patterns
    → (raws : List String) × (match_loop pcre (suc (length f.patterns)) f message 0
        ≡ ok (some raws))
match_loop-Returns pcre f message g = ends pcre f message (length f.patterns) 0 g (omega arith)

-- Each of the patterns finds nothing in a message but for the last, which finds no address.
module _ (pcre : Pcre) (f : Filter pcre.Code) (message : Message) (q : Pattern pcre.Code) where
  abbrev FindsNothing : Pattern pcre.Code → Type 0
  FindsNothing p = address_by pcre message p ≡ none

  first_match-last :
      (n : ℕ) (ps : List (Pattern pcre.Code))
      → All FindsNothing ps
      → address_by pcre message q ≡ some ""
      → first_from pcre f message n (ps ++ q ∷ []) ≡ some ("", n + length ps)
  first_match-last n [] a b = rw b (ap (λ k. some ("", k)) (omega arith))
  first_match-last n (p ∷ ps) a b =
      rw a.0 (first_match-last (n + 1) ps a.1 b ∙ ap (λ k. some ("", k)) (omega arith))

  abbrev no_address : MatchResult
  no_address = record { ip = ""; group_id = message.process; error = true }

  -- A round prints the pattern at its offset, whichever pattern matched.
  match_loop-unmoved :
      (fuel : ℕ) (done ps : List (Pattern pcre.Code))
      → All (GroupsSet pcre) f.patterns
      → f.patterns ≡ done ++ (ps ++ q ∷ [])
      → All FindsNothing ps
      → address_by pcre message q ≡ some ""
      → match_loop pcre (suc fuel) f message (length done)
        ≡ after pcre f message fuel (some no_address, some (length done))
  match_loop-unmoved fuel done ps g e a b =
      match_loop-here pcre f message fuel done (ps ++ q ∷ []) g e
      ∙ ap (λ o. after pcre f message fuel (answer pcre message (some (length done)) o))
          (first_match-last (length done) ps a b)

  prints_each :
      (fuel : ℕ) (done ps : List (Pattern pcre.Code))
      → All (GroupsSet pcre) f.patterns
      → f.patterns ≡ done ++ (ps ++ q ∷ [])
      → length ps < fuel
      → All FindsNothing ps
      → address_by pcre message q ≡ some ""
      → match_loop pcre (suc fuel) f message (length done)
        ≡ ok (some (map (λ p. p.raw_pattern) (ps ++ q ∷ [])))
  prints_each zero done ps g e l a b = absurd (omega arith)
  prints_each (suc fuel) done [] g e l a b =
      match_loop-unmoved (suc fuel) done [] g e a b
      ∙ after-at pcre f message (suc fuel) done [] q no_address [] e (
          rw (sym (length-snoc done q)) (
            match_loop-here pcre f message fuel (done ++ q ∷ []) [] g
              (snoc pcre f message done [] q e)
            ∙ (unfold print_match in refl)))
  prints_each (suc fuel) done (p ∷ ps) g e l a b =
      match_loop-unmoved (suc fuel) done (p ∷ ps) g e a b
      ∙ after-at pcre f message (suc fuel) done (ps ++ q ∷ []) p no_address _ e (
          rw (sym (length-snoc done p)) (
            prints_each fuel (done ++ p ∷ []) ps g (snoc pcre f message done (ps ++ q ∷ []) p e)
              (omega arith) a.1 b))

-- Where only the last of a filter's patterns matches a message, with no address, and every group of the
-- patterns takes part in each match, the command prints that each of the patterns matched.
pub match_loop-no_address :
    (pcre : Pcre) (f : Filter pcre.Code) (message : Message) (ps : List (Pattern pcre.Code))
    (q : Pattern pcre.Code)
    → f.patterns ≡ ps ++ q ∷ []
    → All (GroupsSet pcre) f.patterns
    → All (λ p. address_by pcre message p ≡ none) ps
    → address_by pcre message q ≡ some ""
    → match_loop pcre (suc (length f.patterns)) f message 0
      ≡ ok (some (map (λ p. p.raw_pattern) f.patterns))
match_loop-no_address pcre f message ps q e g a b =
    let size : length f.patterns ≡ length ps + 1 = ap length e ∙ length-snoc ps q in
    prints_each pcre f message q (length f.patterns) [] ps g e (omega arith) a b
    ∙ ap (λ rs. ok (some (map (λ p. p.raw_pattern) rs))) (sym e)
