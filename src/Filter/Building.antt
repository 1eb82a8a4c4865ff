-- ===== src/Filter/Building.antt =====
-- src/dnf2b/filters/Filter.cpp: the patterns of a filter that the constructor builds.
use Prim.Native.String.{len}
use doesnotfail2ban.Prelude.{
  suc, String, ◌≡◌, refl, sym, subst, true, Option, none, some, List, [], ◌∷◌, sym,
}
use doesnotfail2ban.Prelude.Maps.{Map, lookup}
use doesnotfail2ban.Prelude.Results.{
  ok, throw, Ensures, >>=-Ensures, >>=-Ensures_any, Ensures-mono, runtime_error, Ensures-mono,
}
use doesnotfail2ban.Pcre.{Pcre, Pattern, compile_pattern}
use doesnotfail2ban.Filter.{Filter}
use doesnotfail2ban.Filter.Expansion.{expand, Expands, expand-Expands}
use doesnotfail2ban.Filter.Files.{
  JsonValue, texts_of, flag_or_false, compile_expanded, compile_all, build,
}

module _ (pcre : Pcre) where
  -- A pattern of the configuration, and the compiled one: its text is the given one with the keys
  -- replaced, and its code is pcre2's for that text.
  pub record IsCompiled (text : String) (p : Pattern pcre.Code) : Type 0 where
    pub expanded : Expands text p.raw_pattern
    pub compiled : pcre.compile p.raw_pattern true ≡ some p.code

  abbrev pub AllCompiled : List String → List (Pattern pcre.Code) → Type 0
  AllCompiled [] [] = Unit
  AllCompiled [] (p ∷ ps) = ⊥
  AllCompiled (text ∷ texts) [] = ⊥
  AllCompiled (text ∷ texts) (p ∷ ps) = IsCompiled text p × AllCompiled texts ps

  abbrev IsOf : String → Pattern pcre.Code → Type 0
  IsOf text p = (p.raw_pattern ≡ text) × (pcre.compile text true ≡ some p.code)

  result-IsOf :
      (text : String) (o : Option pcre.Code)
      → pcre.compile text true ≡ o
      → Ensures (IsOf text) (elim o [
        | none ↦ throw (runtime_error "Invalid pattern")
        | some c ↦ ok (record { code = c; raw_pattern = text })
      ])
  result-IsOf text none e = tt
  result-IsOf text (some c) e = (refl, e)

  compile_pattern-IsOf : (text : String) → Ensures (IsOf text) (compile_pattern pcre text true)
  unfolding compile_pattern
  compile_pattern-IsOf text = result-IsOf text (pcre.compile text true) refl

  compile_expanded-IsCompiled :
      (text : String)
      → Ensures (IsCompiled text) (compile_expanded pcre (expand (suc (len text)) text 0))
  unfolding compile_expanded
  compile_expanded-IsCompiled text =
      let (t, found, rest) = expand-Expands text in
      rw found (
        Ensures-mono _ (IsCompiled text) (compile_pattern pcre t true)
          (λ p h. record {
            expanded = subst (λ u. Expands text u) (sym h.0) rest;
            compiled = subst (λ u. pcre.compile u true ≡ some p.code) (sym h.0) h.1;
          })
          (compile_pattern-IsOf t))

  compile_all-AllCompiled :
      (texts : List String) → Ensures (AllCompiled texts) (compile_all pcre texts)
  unfolding compile_all
  compile_all-AllCompiled [] = tt
  compile_all-AllCompiled (text ∷ texts) =
      >>=-Ensures (IsCompiled text) _ (compile_expanded pcre (expand (suc (len text)) text 0)) _
        (compile_expanded-IsCompiled text)
        (λ p h.
          >>=-Ensures (AllCompiled texts) _ (compile_all pcre texts) _
            (compile_all-AllCompiled texts) (λ ps k. (h, k)))

  -- A filter that is built has a pattern for each text of the key "patterns", in their order. The text of
  -- the pattern is the given one with the search for an address in place of each key, from the left, and
  -- its code is the compilation of that text without regard to case, whatever "insensitive" says.
  pub build-AllCompiled :
      (filter_name : String) (config : Map JsonValue) (texts : List String)
      → texts_of (lookup "patterns" config) ≡ ok texts
      → Ensures
          (λ (f : Filter pcre.Code). AllCompiled texts f.patterns)
          (build pcre filter_name config)
  unfolding build
  build-AllCompiled filter_name config texts h = rw h (
      >>=-Ensures (AllCompiled texts) _ (compile_all pcre texts) _ (compile_all-AllCompiled texts)
        (λ ps k. >>=-Ensures_any _ (flag_or_false (lookup "insensitive" config)) _ (λ b. k)))
