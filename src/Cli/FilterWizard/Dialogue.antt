-- ===== src/Cli/FilterWizard/Dialogue.antt =====
-- src/dnf2b/cli/FilterWizard.cpp: a whole dialogue, from what is typed to the filter that is printed.
use doesnotfail2ban.Prelude.{
  ℕ, zero, suc, ◌+◌, ◌<◌, String, ◌≡◌, refl, ap, ◌∙◌, Bool, true, false, Option, none, some, List,
  [], ◌∷◌, ◌++◌, map, All, arith, length, length-append, ◌==◌, if◌then◌else◌, ◌⊎◌, inl, inr,
}
use doesnotfail2ban.Prelude.Results.{Result, ok}
use doesnotfail2ban.Pcre.{Pcre, Pattern, compile_pattern, matcher, next}
use doesnotfail2ban.Cli.FilterWizard.{
  read_messages, keep_loop, Wizard, kept, shown, pattern_loop, ask,
}

abbrev pub answer : Bool → String
answer keep = if keep then "y" else "n"

-- A line that is no answer to the question.
abbrev pub IsNoise : String → Type 0
IsNoise line = (line == "y" ≡ false) × (line == "n" ≡ false)

keep_loop-answer :
    (fuel : ℕ) (noise : List String) (keep : Bool) (rest : List String)
    → length noise < fuel
    → All IsNoise noise
    → keep_loop fuel (noise ++ answer keep ∷ rest) ≡ some (keep, rest)
unfolding keep_loop
keep_loop-answer zero noise keep rest l h = absurd (omega arith)
keep_loop-answer (suc fuel) [] true rest l h = refl
keep_loop-answer (suc fuel) [] false rest l h = refl
keep_loop-answer (suc fuel) (line ∷ noise) keep rest l h =
    rw (h.0.0, h.0.1) (keep_loop-answer fuel noise keep rest (omega arith) h.1)

-- With any fuel, the answer is read or the fuel runs out.
keep_loop-cases :
    (fuel : ℕ) (noise : List String) (keep : Bool) (rest : List String)
    → All IsNoise noise
    → (keep_loop fuel (noise ++ answer keep ∷ rest) ≡ none)
      ⊎ (keep_loop fuel (noise ++ answer keep ∷ rest) ≡ some (keep, rest))
unfolding keep_loop
keep_loop-cases zero noise keep rest h = inl refl
keep_loop-cases (suc fuel) [] true rest h = inr refl
keep_loop-cases (suc fuel) [] false rest h = inr refl
keep_loop-cases (suc fuel) (line ∷ noise) keep rest h =
    rw (h.0.0, h.0.1) (keep_loop-cases fuel noise keep rest h.1)

-- Where the input ends without an answer, the question is asked for ever.
keep_loop-unanswered :
    (fuel : ℕ) (noise : List String) → All IsNoise noise → keep_loop fuel noise ≡ none
unfolding keep_loop
keep_loop-unanswered zero noise h = refl
keep_loop-unanswered (suc fuel) [] h = keep_loop-unanswered fuel [] tt
keep_loop-unanswered (suc fuel) (line ∷ noise) h =
    rw (h.0.0, h.0.1) (keep_loop-unanswered fuel noise h.1)

abbrev pub IsSample : String → Type 0
IsSample line = (line == "EOF" ≡ false) × (line == "" ≡ false)

pub read_messages-samples :
    (samples rest : List String)
    → All IsSample samples
    → read_messages (samples ++ "" ∷ rest) ≡ (map (λ s. (s, false)) samples, rest)
unfolding read_messages
read_messages-samples [] rest h = refl
read_messages-samples (s ∷ samples) rest h =
    rw (h.0.0, h.0.1, read_messages-samples samples rest h.1) refl

module _ (pcre : Pcre) where
  -- A pattern that is typed, what is typed before the answer, and the answer.
  pub record Entered : Type 0 where
    pub text : String
    pub pattern : Pattern pcre.Code
    pub noise : List String
    pub keep : Bool

  abbrev pub IsEntered : Entered → Type 0
  IsEntered e =
      (e.text == "" ≡ false)
      × (compile_pattern pcre e.text false ≡ ok e.pattern)
      × All IsNoise e.noise

  abbrev pub typed : List Entered → List String → List String
  typed [] rest = rest
  typed (e ∷ es) rest = e.text ∷ (e.noise ++ answer e.keep ∷ typed es rest)

  -- The patterns that are kept.
  abbrev pub kept_texts : List Entered → List String
  kept_texts [] = []
  kept_texts (e ∷ es) = if e.keep then e.text ∷ kept_texts es else kept_texts es

  abbrev pub hits : String → Entered → Bool
  hits message e = (next pcre (matcher pcre e.pattern.code message)).0

  abbrev pub after_all : List Entered → Wizard pcre → Wizard pcre
  after_all [] w = w
  after_all (e ∷ es) w = after_all es (kept pcre e.text e.keep (shown pcre e.pattern w))

  module _ (line : String)
      (next_round : Wizard pcre → List String → Option (Result (Wizard pcre × List String)))
      (fuel : ℕ) (w : Wizard pcre) (input : List String) where
    ask-some :
        (keep : Bool) (rest : List String)
        → keep_loop fuel input ≡ some (keep, rest)
        → ask pcre line next_round fuel w input ≡ next_round (kept pcre line keep w) rest
    ask-some keep rest h =
        ap
          (λ o. elim o [
            | none ↦ none
            | some (keep, input') ↦ next_round (kept pcre line keep w) input'
          ])
          h

    ask-none : keep_loop fuel input ≡ none → ask pcre line next_round fuel w input ≡ none
    ask-none h =
        ap
          (λ o. elim o [
            | none ↦ none
            | some (keep, input') ↦ next_round (kept pcre line keep w) input'
          ])
          h

  pattern_loop-cons :
      (fuel : ℕ) (w : Wizard pcre) (e : Entered) (input : List String)
      → IsEntered e
      → pattern_loop pcre (suc fuel) w (e.text ∷ input)
        ≡ ask pcre e.text (pattern_loop pcre fuel) fuel (shown pcre e.pattern w) input
  unfolding pattern_loop
  pattern_loop-cons fuel w e input h = rw (h.0, h.1) refl

  pub pattern_loop-typed :
      (fuel : ℕ) (es : List Entered) (rest : List String) (w : Wizard pcre)
      → All IsEntered es
      → length (typed es []) < fuel
      → pattern_loop pcre fuel w (typed es ("" ∷ rest)) ≡ some (ok (after_all es w, rest))
  pattern_loop-typed zero es rest w h l = absurd (omega arith)
  pattern_loop-typed (suc fuel) [] rest w h l = unfold pattern_loop in refl
  pattern_loop-typed (suc fuel) (e ∷ es) rest w h l =
      let size : length (e.noise ++ answer e.keep ∷ typed es [])
          ≡ length e.noise + suc (length (typed es [])) =
        length-append e.noise (answer e.keep ∷ typed es []) in
      pattern_loop-cons fuel w e _ h.0
      ∙ ask-some e.text (pattern_loop pcre fuel) fuel (shown pcre e.pattern w) _ e.keep
          (typed es ("" ∷ rest))
          (keep_loop-answer fuel e.noise e.keep (typed es ("" ∷ rest)) (omega arith) h.0.2)
      ∙ pattern_loop-typed fuel es rest (kept pcre e.text e.keep (shown pcre e.pattern w)) h.1
          (omega arith)

  pub pattern_loop-unanswered :
      (fuel : ℕ) (es : List Entered) (e : Entered) (w : Wizard pcre)
      → All IsEntered es
      → IsEntered e
      → pattern_loop pcre fuel w (typed es (e.text ∷ e.noise)) ≡ none
  pattern_loop-unanswered zero es e w h k = unfold pattern_loop in refl
  pattern_loop-unanswered (suc fuel) [] e w h k =
      pattern_loop-cons fuel w e e.noise k
      ∙ ask-none e.text (pattern_loop pcre fuel) fuel (shown pcre e.pattern w) e.noise
          (keep_loop-unanswered fuel e.noise k.2)
  pattern_loop-unanswered (suc fuel) (d ∷ es) e w h k =
      let rest = typed es (e.text ∷ e.noise) in
      pattern_loop-cons fuel w d _ h.0 ∙ elim (keep_loop-cases fuel d.noise d.keep rest h.0.2) [
        | inl out ↦ ask-none d.text (pattern_loop pcre fuel) fuel (shown pcre d.pattern w) _ out
        | inr read ↦
            ask-some d.text (pattern_loop pcre fuel) fuel (shown pcre d.pattern w) _ d.keep rest
              read
            ∙ pattern_loop-unanswered fuel es e (kept pcre d.text d.keep (shown pcre d.pattern w))
                h.1 k
      ]
