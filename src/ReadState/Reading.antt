-- ===== src/ReadState/Reading.antt =====
-- src/dnf2b/data/ReadStateDB.cpp: what `read` answers after `store`, and in the next run.
use doesnotfail2ban.Prelude.{
  String, ◌≡◌, refl, inl, inr, Bool, true, false, ◌&&◌, Option, none, some, List, [], ◌∷◌, ap, sym,
  arith, if◌then◌else◌, eq_iff, ◌==◌, Option-cases, List, sym, ap, ◌∙◌,
}
use doesnotfail2ban.Prelude.Maps.{lookup, insert, lookup-insert}
use doesnotfail2ban.Prelude.Results.{Result, ok, throw, ◌>>=◌, ok-injective}
use doesnotfail2ban.ReadState.{ReadState, State, open_state, store, read, commit, unless_null}

-- A store: the parser, the resource and the value.
abbrev pub Stored : Type 0 → Type 0
Stored Json = String × String × Json

module _ {Json : Type 0} where
  lookup-nil : (k : String) → lookup {V = Json} k [] ≡ none
  unfolding lookup
  lookup-nil k = refl

  -- `read` after `store` answers, for the parser and the resource of the store, the value unless it is
  -- null, and for all others what it answered before.
  pub read-store :
      (is_null : Json → Bool) (parser_name resource_name p r : String) (value : Json)
      (s : ReadState Json)
      → read is_null p r (store parser_name resource_name value s) ≡ (
          if parser_name == p && resource_name == r
          then unless_null is_null (some value)
          else read is_null p r s)
  unfolding read store
  read-store is_null parser_name resource_name p r value s =
      elim (Option-cases (lookup parser_name s.state)) [
        | inl e ↦ ground (
          arith,
          e,
          eq_iff parser_name p,
          lookup-insert parser_name p (insert resource_name value []) s.state,
          lookup-insert resource_name r value [],
          lookup-nil r,
        )
        | inr (known, e) ↦ ground (
          arith,
          e,
          eq_iff parser_name p,
          lookup-insert parser_name p (insert resource_name value known) s.state,
          lookup-insert resource_name r value known,
        )
      ]

  abbrev pub store_all : List (Stored Json) → ReadState Json → ReadState Json
  store_all [] s = s
  store_all ((parser_name, resource_name, value) ∷ rest) s =
      store_all rest (store parser_name resource_name value s)

  -- The value that was last stored for a parser and a resource, none if it is null, and the old one if
  -- none was stored for them.
  abbrev pub last_stored :
      (Json → Bool) → String → String → List (Stored Json) → Option Json → Option Json
  last_stored is_null p r [] old = old
  last_stored is_null p r ((parser_name, resource_name, value) ∷ rest) old =
      last_stored is_null p r rest (
        if parser_name == p && resource_name == r
        then (if is_null value then none else some value)
        else old)

  read-store_all :
      (is_null : Json → Bool) (p r : String) (stores : List (Stored Json)) (s : ReadState Json)
      → read is_null p r (store_all stores s) ≡ last_stored is_null p r stores (read is_null p r s)
  read-store_all is_null p r [] s = refl
  read-store_all is_null p r ((parser_name, resource_name, value) ∷ rest) s =
      read-store_all is_null p r rest (store parser_name resource_name value s)
      ∙ ap (last_stored is_null p r rest) (read-store is_null parser_name resource_name p r value s)

  dirty-store_all :
      (stores : List (Stored Json)) (s : ReadState Json)
      → s.dirty ≡ true
      → (store_all stores s).dirty ≡ true
  dirty-store_all [] s d = d
  dirty-store_all ((parser_name, resource_name, value) ∷ rest) s d =
      dirty-store_all rest (store parser_name resource_name value s) (unfold store in refl)

  module _ (dump : State Json → String) (parse : String → Result (State Json)) where
    opened :
        (text : String) (r : Result (State Json)) (s : ReadState Json)
        → (r >>= λ state. ok (record { state = state; dirty = false; file = some text })) ≡ ok s
        → (s.dirty ≡ false) × (s.file ≡ some text)
    opened text (throw e) s h = absurd cc
    opened text (ok state) s h =
        let same = ok-injective h in
        (
          sym (ap (λ (t : ReadState Json). t.dirty) same),
          sym (ap (λ (t : ReadState Json). t.file) same),
        )

    open_state-clean :
        (file : Option String) (s : ReadState Json)
        → open_state parse file ≡ ok s
        → (s.dirty ≡ false) × (s.file ≡ file)
    unfolding open_state
    open_state-clean none s h =
        let same = ok-injective h in
        (
          sym (ap (λ (t : ReadState Json). t.dirty) same),
          sym (ap (λ (t : ReadState Json). t.file) same),
        )
    open_state-clean (some text) s h = opened text (parse text) s h

    reopens :
        (s : ReadState Json)
        → s.dirty ≡ true
        → parse (dump s.state) ≡ ok s.state
        → open_state parse (commit dump true s).file
          ≡ ok (record s { dirty = false; file = some (dump s.state) })
    unfolding open_state commit
    reopens s d e = rw (d, e) refl

    commit-clean : (s : ReadState Json) → s.dirty ≡ false → (commit dump true s).file ≡ s.file
    unfolding commit
    commit-clean s d = ground (arith, d)

    -- A run opens its file, stores values, and commits them to a file that can be opened. If the text of
    -- the state that it has then is read as that state, then the next run opens the file, and reads for
    -- each parser and resource the value that was last stored for them, which is none if it is null, and
    -- where none was stored what the first run read at its start.
    pub read-open_state-commit :
        (is_null : Json → Bool) (p r : String) (stores : List (Stored Json)) (file : Option String)
        (s : ReadState Json)
        → open_state parse file ≡ ok s
        → parse (dump (store_all stores s).state) ≡ ok (store_all stores s).state
        → (next : ReadState Json) × (open_state parse (commit dump true (store_all stores s)).file
            ≡ ok next)
          × (read is_null p r next ≡ last_stored is_null p r stores (read is_null p r s))
    read-open_state-commit is_null p r [] file s h e =
        let (clean, same_file) = open_state-clean file s h in
        (s, ap (open_state parse) (commit-clean s clean ∙ same_file) ∙ h, refl)
    read-open_state-commit is_null p r ((a, b, v) ∷ rest) file s h e =
        let last : ReadState Json = store_all rest (store a b v s) in
        (
          record last { dirty = false; file = some (dump last.state) },
          reopens last (dirty-store_all rest (store a b v s) (unfold store in refl)) e,
          unfold read in read-store_all is_null p r ((a, b, v) ∷ rest) s,
        )

  -- A commit whose file cannot be opened drops the mark: the next commit writes nothing, and the file
  -- stays as it was.
  pub file-commit-commit :
      (dump : State Json → String) (writable : Bool) (s : ReadState Json)
      → (commit dump writable (commit dump false s)).file ≡ s.file
  unfolding commit
  file-commit-commit dump writable s = ground arith
