-- ===== src/Journal/Dates.antt =====
-- src/dnf2b/sources/JournalCTLParser.cpp: the dates of the messages of a poll, and the date that it keeps
-- and stores.
use doesnotfail2ban.Prelude.{
  ℕ, ◌≤◌, String, ◌≡◌, refl, subst, eq_refl, Bool, true, false, Option, none, some, List, [], ◌∷◌,
  arith, ltb, ◌==◌, Bool-cases, inl, inr, not, ◌&&◌, subst,
}
use doesnotfail2ban.Prelude.Results.{Result, ok, throw, Ensures, >>=-Ensures, >>=-Ensures_any}
use doesnotfail2ban.Structs.{Message}
use doesnotfail2ban.Pcre.{Pcre, Pattern}
use doesnotfail2ban.Parsers.{Parser, search_ip}
use doesnotfail2ban.ReadState.{ReadState, read}
use doesnotfail2ban.ReadState.Reading.{read-store}
use doesnotfail2ban.Journal.{Entry, RawEntry, date_of, read_entry}
use doesnotfail2ban.Journal.Polling.{
  apply_pattern, fall_back, handle_entry, take_entry, read_entries, JournalParser, poll, finish,
  message_at, advance_date, pushed, stored,
}

-- From a date, messages each at the date of the one before or a later one, and the last one's date.
pub data Dates : ℕ → List Message → ℕ → Type 0 where
  none_left : (last : ℕ) → Dates last [] last
  later :
      (last time final : ℕ) (m : Message) (ms : List Message)
      → last ≤ time
      → m.entry_date ≡ date_of time
      → Dates time ms final
      → Dates last (m ∷ ms) final

module _ (pcre : Pcre) where
  fall_back-date :
      (p : Option (Pattern pcre.Code)) (m : Message)
      → Ensures (λ (r : Message). r.entry_date ≡ m.entry_date) (fall_back pcre p m)
  unfolding fall_back
  fall_back-date none m = refl
  fall_back-date (some p) m = elim (Bool-cases (m.ip == "")) [
    | inl t ↦ rw t (>>=-Ensures_any _ (search_ip pcre p m) _ (λ ip. refl))
    | inr e ↦ rw e refl
  ]

  -- A message that is taken has the date of its entry, which is not before the last one.
  abbrev Taken : ℕ → ℕ → Option Message → Type 0
  Taken last time none = Unit
  Taken last time (some m) = (last ≤ time) × (m.entry_date ≡ date_of time)

  finish-Taken :
      (p : Parser pcre.Code) (last : ℕ) (raw : RawEntry) (o : Option (String × String))
      → last ≤ raw.time
      → Ensures (Taken last raw.time) (finish pcre p raw o)
  finish-Taken p last raw none h = tt
  finish-Taken p last raw (some (message, ip)) h =
      >>=-Ensures (λ (r : Message). r.entry_date ≡ date_of raw.time) _
        (fall_back pcre p.fallback_search (message_at raw message ip)) _
        (fall_back-date p.fallback_search (message_at raw message ip)) (λ m e. (h, e))

  handle_entry-Taken :
      (p : Parser pcre.Code) (last : ℕ) (raw : RawEntry)
      → Ensures (Taken last raw.time) (handle_entry pcre p last raw)
  unfolding handle_entry
  handle_entry-Taken p last raw = elim (Bool-cases (ltb raw.time last)) [
    | inl t ↦ rw t tt
    | inr f ↦ rw f (
        >>=-Ensures_any _ (apply_pattern pcre p.pattern raw.message) _
          (λ o. finish-Taken p last raw o (ground arith)))
  ]

  abbrev Moved : ℕ → ℕ × Option Message → Type 0
  Moved last (last', none) = last' ≡ last
  Moved last (last', some m) = (last ≤ last') × (m.entry_date ≡ date_of last')

  advance-Moved :
      (last time : ℕ) (m : Option Message)
      → Taken last time m
      → Moved last (advance_date last time m, m)
  advance-Moved last time none h = refl
  advance-Moved last time (some m) h = ground arith

module _ (stoull : String → Result ℕ) (pcre : Pcre) (p : Parser pcre.Code) where
  take_entry-Moved :
      (last : ℕ) (e : Entry) → Ensures (Moved pcre last) (take_entry stoull pcre p last e)
  unfolding take_entry
  take_entry-Moved last e = >>=-Ensures_any _ (read_entry stoull e) _ (λ raw.
      >>=-Ensures (Taken pcre last raw.time) _ (handle_entry pcre p last raw) _
        (handle_entry-Taken pcre p last raw) (λ m h. advance-Moved pcre last raw.time m h))

  -- The messages of a loop, and the date that it leaves.
  abbrev IsDated : ℕ → ℕ × Result (List Message) → Type 0
  IsDated last (final, throw x) = Unit
  IsDated last (final, ok ms) = Dates last ms final

  pushed-IsDated :
      (last last' : ℕ) (m : Option Message) (rest : ℕ × Result (List Message))
      → Moved pcre last (last', m)
      → IsDated last' rest
      → IsDated last (pushed m rest)
  pushed-IsDated last last' none rest h k = subst (λ n. IsDated n rest) h k
  pushed-IsDated last last' (some m) (final, throw x) h k = tt
  pushed-IsDated last last' (some m) (final, ok ms) h k = later last last' final m ms h.0 h.1 k

  step-IsDated :
      (last : ℕ) (es : List Entry) (r : Result (ℕ × Option Message))
      → Ensures (Moved pcre last) r
      → ((n : ℕ) → IsDated n (read_entries stoull pcre p n es))
      → IsDated last (elim r [
        | throw x ↦ (last, throw x)
        | ok (last', m) ↦ pushed m (read_entries stoull pcre p last' es)
      ])
  step-IsDated last es (throw x) h rest = tt
  step-IsDated last es (ok (last', m)) h rest =
      pushed-IsDated last last' m (read_entries stoull pcre p last' es) h (rest last')

  read_entries-IsDated :
      (last : ℕ) (es : List Entry) → IsDated last (read_entries stoull pcre p last es)
  unfolding read_entries
  read_entries-IsDated last [] = none_left last
  read_entries-IsDated last (e ∷ es) =
      step-IsDated last es (take_entry stoull pcre p last e) (take_entry-Moved last e)
        (λ n. read_entries-IsDated n es)

module _ (stoull : String → Result ℕ) (pcre : Pcre) {Json : Type 0} (is_null : Json → Bool)
    (to_json : ℕ → Json) where
  -- What a poll leaves for the next run, and its messages.
  abbrev pub IsPolled :
      JournalParser pcre → (JournalParser pcre × ReadState Json) × Result (List Message) → Type 0
  IsPolled j ((j', state'), throw x) = Unit
  IsPolled j ((j', state'), ok ms) =
      Dates j.last_accessed_date ms j'.last_accessed_date
      × (read is_null j.parser.parser_name j.parser.resource_name state'
          ≡ some (to_json j'.last_accessed_date))

  stored-IsPolled :
      (j j' : JournalParser pcre) (state : ReadState Json) (r : ℕ × Result (List Message))
      → j'.parser ≡ j.parser
      → ((n : ℕ) → is_null (to_json n) ≡ false)
      → IsDated stoull pcre j.parser j.last_accessed_date r
      → IsPolled j (stored pcre to_json j' state r)
  stored-IsPolled j j' state (last, throw x) same h d = tt
  stored-IsPolled j j' state (last, ok ms) same h d = (
    d,
    rw same (
        ground (
          arith,
          read-store is_null j.parser.parser_name j.parser.resource_name j.parser.parser_name
              j.parser.resource_name (to_json last) state,
          eq_refl j.parser.parser_name,
          eq_refl j.parser.resource_name,
          h last,
        )),
  )

  -- Where the journal is open and a date is never stored as null, a poll that returns gives messages of
  -- which the first is dated at the date that the parser had or later, each further one at the date of the
  -- one before or later; the parser has the date of the last one then, or its old one if there is none;
  -- and this date is what the next run reads for the parser and the resource.
  pub poll-IsPolled :
      (appended : Bool) (entries : List Entry) (j : JournalParser pcre) (state : ReadState Json)
      → j.journal.is_open ≡ true
      → ((n : ℕ) → is_null (to_json n) ≡ false)
      → IsPolled j (poll stoull pcre to_json appended entries j state)
  unfolding poll
  poll-IsPolled appended entries j state opened h =
      elim (Bool-cases (j.journal.has_read && not appended)) [
        | inl t ↦
            rw (opened, t)
              (stored-IsPolled j j state (j.last_accessed_date, ok []) refl h
                (none_left j.last_accessed_date))
        | inr f ↦
            rw (opened, f)
              (stored-IsPolled j (record j { journal = record { is_open = true; has_read = true } })
                state (read_entries stoull pcre j.parser j.last_accessed_date entries) refl h
                (read_entries-IsDated stoull pcre j.parser j.last_accessed_date entries))
      ]
