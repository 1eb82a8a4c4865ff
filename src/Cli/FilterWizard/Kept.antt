-- ===== src/Cli/FilterWizard/Kept.antt =====
-- src/dnf2b/cli/FilterWizard.cpp: the filter that a whole dialogue prints, and the dialogue that does not
-- end.
use doesnotfail2ban.Prelude.{
  ℕ, zero, suc, ◌<◌, String, ◌≡◌, refl, ap, sym, ◌∙◌, Bool, true, false, ◌||◌, none, some, List, [],
  ◌∷◌, ◌++◌, map, any, All, arith, length, append_assoc, append-nil, if◌then◌else◌, inl, inr,
  Bool-cases,
}
use doesnotfail2ban.Prelude.Results.{ok}
use doesnotfail2ban.Pcre.{Pcre}
use doesnotfail2ban.Cli.FilterWizard.{
  Ending, filter_json, command_loop, preview, preview_one, Wizard, kept, shown, pattern_loop,
  finished, filter_wizard,
}
use doesnotfail2ban.Cli.FilterWizard.Dialogue.{
  IsSample, Entered, IsEntered, typed, kept_texts, hits, after_all, read_messages-samples,
  pattern_loop-typed, pattern_loop-unanswered,
}

module _ (pcre : Pcre) where
  kept-stored :
      (line : String) (keep : Bool) (w : Wizard pcre)
      → (kept pcre line keep w).stored ≡ w.stored ++ (if keep then line ∷ [] else [])
  kept-stored line true w = refl
  kept-stored line false w = sym (append-nil w.stored)

  kept-messages :
      (line : String) (keep : Bool) (w : Wizard pcre)
      → (kept pcre line keep w).messages ≡ w.messages
  kept-messages line true w = refl
  kept-messages line false w = refl

  kept_texts-cons :
      (e : Entered pcre) (es : List (Entered pcre))
      → kept_texts pcre (e ∷ es) ≡ (if e.keep then e.text ∷ [] else []) ++ kept_texts pcre es
  kept_texts-cons e es = elim (Bool-cases e.keep) [ inl t ↦ rw t refl | inr f ↦ rw f refl ]

  stored-after_all :
      (es : List (Entered pcre)) (w : Wizard pcre)
      → (after_all pcre es w).stored ≡ w.stored ++ kept_texts pcre es
  stored-after_all [] w = sym (append-nil w.stored)
  stored-after_all (e ∷ es) w =
      stored-after_all es (kept pcre e.text e.keep (shown pcre e.pattern w))
      ∙ ap (λ xs. xs ++ kept_texts pcre es) (kept-stored e.text e.keep (shown pcre e.pattern w))
      ∙ append_assoc w.stored (if e.keep then e.text ∷ [] else []) (kept_texts pcre es)
      ∙ ap (λ xs. w.stored ++ xs) (sym (kept_texts-cons e es))

  -- A message, with the flag that it has after patterns were tried on it.
  abbrev tried : List (Entered pcre) → String × Bool → String × Bool
  tried es m = (m.0, m.1 || any (hits pcre m.0) es)

  one-tried :
      (e : Entered pcre) (es : List (Entered pcre)) (m : String × Bool)
      → tried es (preview_one pcre e.pattern m).0 ≡ tried (e ∷ es) m
  one-tried e es (message, true) = elim (Bool-cases (hits pcre message e)) [
    | inl t ↦ rw t refl
    | inr f ↦ rw f refl
  ]
  one-tried e es (message, false) = elim (Bool-cases (hits pcre message e)) [
    | inl t ↦ rw t refl
    | inr f ↦ rw f refl
  ]

  tried-nil : (ms : List (String × Bool)) → ms ≡ map (tried []) ms
  tried-nil [] = refl
  tried-nil ((message, true) ∷ ms) = ap (λ r. (message, true) ∷ r) (tried-nil ms)
  tried-nil ((message, false) ∷ ms) = ap (λ r. (message, false) ∷ r) (tried-nil ms)

  preview-tried :
      (e : Entered pcre) (es : List (Entered pcre)) (ms : List (String × Bool))
      → map (tried es) (preview pcre e.pattern ms).0 ≡ map (tried (e ∷ es)) ms
  unfolding preview
  preview-tried e es [] = refl
  preview-tried e es (m ∷ ms) = rw (one-tried e es m, preview-tried e es ms) refl

  messages-after_all :
      (es : List (Entered pcre)) (w : Wizard pcre)
      → (after_all pcre es w).messages ≡ map (tried es) w.messages
  messages-after_all [] w = tried-nil w.messages
  messages-after_all (e ∷ es) w =
      messages-after_all es (kept pcre e.text e.keep (shown pcre e.pattern w))
      ∙ ap (map (tried es)) (kept-messages e.text e.keep (shown pcre e.pattern w))
      ∙ preview-tried e es w.messages

  tried-samples :
      (es : List (Entered pcre)) (samples : List String)
      → map (tried es) (map (λ s. (s, false)) samples)
        ≡ map (λ s. (s, any (hits pcre s) es)) samples
  tried-samples es [] = refl
  tried-samples es (s ∷ samples) =
      ap (λ r. (s, any (hits pcre s) es) ∷ r) (tried-samples es samples)

module _ (pcre : Pcre) (insensitive root : Bool) (exists : String → Bool) where
  abbrev begun : List String → Wizard pcre
  begun samples = record { stored = []; messages = map (λ s. (s, false)) samples; previews = [] }

  started :
      (fuel : ℕ) (samples input : List String)
      → All IsSample samples
      → filter_wizard pcre insensitive root exists fuel (samples ++ "" ∷ input)
        ≡ finished pcre insensitive root exists fuel (pattern_loop pcre fuel (begun samples) input)
  unfolding filter_wizard
  started fuel samples input h = rw (read_messages-samples samples input h) refl

  accepted :
      (fuel : ℕ) (w : Wizard pcre) (rest : List String)
      → finished pcre insensitive root exists (suc fuel) (some (ok (w, "a" ∷ rest)))
        ≡ some (ok (w, Ending.printed (filter_json w.stored insensitive)))
  unfolding command_loop
  accepted fuel w rest = refl

  -- Where the samples are typed first, none of them blank or EOF, then patterns that compile, each with lines
  -- that are no answer and its answer, a blank line and the letter a, enough fuel gives the JSON of exactly
  -- the patterns that were kept, in their order. A sample is marked as matched if any of the patterns
  -- matches it, also one that was not kept.
  pub filter_wizard-prints :
      (fuel : ℕ) (samples : List String) (es : List (Entered pcre)) (rest : List String)
      → All IsSample samples
      → All (IsEntered pcre) es
      → length (typed pcre es []) < fuel
      → (w : Wizard pcre) × (filter_wizard pcre insensitive root exists fuel
            (samples ++ "" ∷ typed pcre es ("" ∷ "a" ∷ rest))
          ≡ some (ok (w, Ending.printed (filter_json (kept_texts pcre es) insensitive))))
        × (w.messages ≡ map (λ s. (s, any (hits pcre s) es)) samples)
  filter_wizard-prints zero samples es rest h k l = absurd (omega arith)
  filter_wizard-prints (suc fuel) samples es rest h k l =
      let w = after_all pcre es (begun samples) in
      (
        w,
        started (suc fuel) samples (typed pcre es ("" ∷ "a" ∷ rest)) h
            ∙ ap (finished pcre insensitive root exists (suc fuel))
                (pattern_loop-typed pcre (suc fuel) es ("a" ∷ rest) (begun samples) k l)
            ∙ accepted fuel w rest
            ∙ ap (λ texts. some (ok (w, Ending.printed (filter_json texts insensitive))))
                (stored-after_all pcre es (begun samples)),
        messages-after_all pcre es (begun samples) ∙ tried-samples pcre es samples,
      )

  -- Where the input ends at the question whether to keep a pattern, before an answer, the dialogue has not
  -- ended after any number of rounds, whatever was typed before.
  pub filter_wizard-unanswered :
      (fuel : ℕ) (samples : List String) (es : List (Entered pcre)) (e : Entered pcre)
      → All IsSample samples
      → All (IsEntered pcre) es
      → IsEntered pcre e
      → filter_wizard pcre insensitive root exists fuel
          (samples ++ "" ∷ typed pcre es (e.text ∷ e.noise))
        ≡ none
  filter_wizard-unanswered fuel samples es e h k l =
      started fuel samples (typed pcre es (e.text ∷ e.noise)) h
      ∙ ap (finished pcre insensitive root exists fuel)
          (pattern_loop-unanswered pcre fuel es e (begun samples) k l)
