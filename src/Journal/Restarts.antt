-- ===== src/Journal/Restarts.antt =====
-- src/dnf2b/sources/JournalCTLParser.cpp: the entry that a run read last, in the next run.
use doesnotfail2ban.Prelude.{
  ℕ, String, ◌≡◌, refl, ap, eq_refl, Bool, true, false, Option, none, some, [], ◌∷◌, arith, ltb,
  Bool-cases, inl, inr, if◌then◌else◌,
}
use doesnotfail2ban.Prelude.Results.{Result, ok, throw, ◌>>=◌}
use doesnotfail2ban.Structs.{Message}
use doesnotfail2ban.Pcre.{Pcre}
use doesnotfail2ban.Parsers.{Parser, new_parser}
use doesnotfail2ban.ReadState.{ReadState, store, read}
use doesnotfail2ban.ReadState.Reading.{read-store}
use doesnotfail2ban.Journal.{JournalCtl, Systemd, Entry, RawEntry, read_entry, open_journal}
use doesnotfail2ban.Journal.Polling.{
  max, apply_pattern, finish, handle_entry, take_entry, read_entries, advance_date, pushed,
  JournalParser, id_method, new_journal_parser, poll,
}

ltb_self : (n : ℕ) → ltb n n ≡ false
ltb_self n = ground arith

max_self : (n : ℕ) → max n n ≡ n
max_self n = ground arith

-- A journal that was just opened.
abbrev pub fresh : JournalCtl
fresh = record { is_open = true; has_read = false }

-- A date, the time of an entry, and what the pattern makes of the entry.
abbrev with_date : ℕ → ℕ → Result (Option Message) → Result (ℕ × Option Message)
with_date last time r = r >>= λ m. ok (advance_date last time m, m)

abbrev taken : ℕ → ℕ → Result (Option Message) → Result (ℕ × Option Message)
taken last time r = with_date last time (if ltb time last then ok none else r)

date_taken : Result (ℕ × Option Message) → ℕ
date_taken (ok (t, m)) = t
date_taken (throw e) = 0

message_taken : Result (ℕ × Option Message) → Option Message
message_taken (ok (t, m)) = m
message_taken (throw e) = none

in_time :
    (last time t : ℕ) (m : Message) (r : Result (Option Message))
    → with_date last time r ≡ ok (t, some m)
    → ltb time last ≡ false
    → (time ≡ t) × (r ≡ ok (some m))
unfolding date_taken message_taken
in_time last time t m (throw e) k late =
    let nothing : none ≡ some m = ap message_taken k in absurd cc
in_time last time t m (ok none) k late =
    let nothing : none ≡ some m = ap message_taken k in absurd cc
in_time last time t m (ok (some n)) k late =
    let same : some n ≡ some m = ap message_taken k in
    let date : (if ltb last time then time else last) ≡ t = ap date_taken k in
    (ground arith, ap (λ o. ok o) same)

-- What was taken is taken again at the date that it left.
taken_again :
    (last time t : ℕ) (m : Message) (r : Result (Option Message))
    → taken last time r ≡ ok (t, some m)
    → taken t time r ≡ ok (t, some m)
unfolding message_taken
taken_again last time t m r h = elim (Bool-cases (ltb time last)) [
  | inl early ↦ let nothing : none ≡ some m = ap message_taken (rw early at h) in absurd cc
  | inr late ↦
      let (when, what) = in_time last time t m r (rw late at h) late in
      rw (when, what, ltb_self t) (ap (λ n. ok (n, some m)) (max_self t))
]

module _ (stoull : String → Result ℕ) (pcre : Pcre) (p : Parser pcre.Code) where
  abbrev taken_from : ℕ → Result RawEntry → Result (ℕ × Option Message)
  taken_from last r =
      r >>= λ raw. handle_entry pcre p last raw >>= λ m. ok (advance_date last raw.time m, m)

  taken_from_again :
      (last t : ℕ) (r : Result RawEntry) (m : Message)
      → taken_from last r ≡ ok (t, some m)
      → taken_from t r ≡ ok (t, some m)
  unfolding handle_entry message_taken
  taken_from_again last t (throw x) m h =
      let nothing : none ≡ some m = ap message_taken h in absurd cc
  taken_from_again last t (ok raw) m h =
      taken_again last raw.time t m (apply_pattern pcre p.pattern raw.message >>= finish pcre p raw)
        h

  take_entry_again :
      (last t : ℕ) (e : Entry) (m : Message)
      → take_entry stoull pcre p last e ≡ ok (t, some m)
      → take_entry stoull pcre p t e ≡ ok (t, some m)
  unfolding take_entry
  take_entry_again last t e m h = taken_from_again last t (read_entry stoull e) m h

  read_entries-one :
      (last t : ℕ) (e : Entry) (m : Message)
      → take_entry stoull pcre p last e ≡ ok (t, some m)
      → read_entries stoull pcre p last (e ∷ []) ≡ (t, ok (m ∷ []))
  unfolding read_entries
  read_entries-one last t e m h =
      ap
        (λ r. elim r [
          | throw x ↦ (last, throw x)
          | ok (last', o) ↦ pushed o (read_entries stoull pcre p last' [])
        ])
        h

module _ (stoull : String → Result ℕ) (pcre : Pcre) {Json : Type 0} (is_null : Json → Bool)
    (get_uint : Json → Result ℕ) (to_json : ℕ → Json) where
  -- The parser after its first poll.
  abbrev polled : JournalParser pcre → ℕ → JournalParser pcre
  polled j t = record j {
    journal = record { is_open = true; has_read = true };
    last_accessed_date = t;
  }

  poll-one :
      (appended : Bool) (j : JournalParser pcre) (state : ReadState Json) (t : ℕ) (e : Entry)
      (m : Message)
      → j.journal ≡ fresh
      → take_entry stoull pcre j.parser j.last_accessed_date e ≡ ok (t, some m)
      → poll stoull pcre to_json appended (e ∷ []) j state ≡ (
        (polled j t, store j.parser.parser_name j.parser.resource_name (to_json t) state),
        ok (m ∷ []),
      )
  unfolding poll
  poll-one appended j state t e m new h =
      rw (new, read_entries-one stoull pcre j.parser j.last_accessed_date t e m h) refl

  restarted :
      (systemd : Systemd) (raw_method : Option String) (file_name : String) (j : JournalParser pcre)
      (state : ReadState Json) (t : ℕ)
      → new_parser pcre j.parser.parser_name j.parser.config file_name ≡ ok j.parser
      → id_method raw_method ≡ ok j.method
      → open_journal systemd j.parser.resource_name t j.method ≡ ok fresh
      → ((n : ℕ) → is_null (to_json n) ≡ false)
      → ((n : ℕ) → get_uint (to_json n) ≡ ok n)
      → new_journal_parser pcre is_null get_uint systemd j.parser.parser_name j.parser.config
          raw_method file_name
          (store j.parser.parser_name j.parser.resource_name (to_json t) state)
        ≡ ok (record j { journal = fresh; last_accessed_date = t })
  unfolding new_journal_parser
  restarted systemd raw_method file_name j state t built method opened not_null back =
      let stored : read is_null j.parser.parser_name j.parser.resource_name
            (store j.parser.parser_name j.parser.resource_name (to_json t) state)
          ≡ some (to_json t) =
        ground (
          arith,
          read-store is_null j.parser.parser_name j.parser.resource_name j.parser.parser_name
              j.parser.resource_name (to_json t) state,
          eq_refl j.parser.parser_name,
          eq_refl j.parser.resource_name,
          not_null t,
        ) in
      rw (built, method, stored, back t, opened) refl

  -- If an entry alone gives a message in the first poll of an open journal, then the poll's date is stored,
  -- a parser that the next run makes from the stored state, with the same configuration and a journal that
  -- opens, exists, and where the journal begins with that entry again, its first poll gives the same
  -- message once more. (A stored date is not null, and is read back as the number that it was.)
  pub poll-restarted :
      (systemd : Systemd) (raw_method : Option String) (file_name : String) (j : JournalParser pcre)
      (state : ReadState Json) (t : ℕ) (e : Entry) (m : Message)
      → new_parser pcre j.parser.parser_name j.parser.config file_name ≡ ok j.parser
      → id_method raw_method ≡ ok j.method
      → open_journal systemd j.parser.resource_name t j.method ≡ ok fresh
      → ((n : ℕ) → is_null (to_json n) ≡ false)
      → ((n : ℕ) → get_uint (to_json n) ≡ ok n)
      → j.journal ≡ fresh
      → take_entry stoull pcre j.parser j.last_accessed_date e ≡ ok (t, some m)
      → ((poll stoull pcre to_json true (e ∷ []) j state).1 ≡ ok (m ∷ []))
        × (k : JournalParser pcre) × (new_journal_parser pcre is_null get_uint systemd
              j.parser.parser_name j.parser.config raw_method file_name
              (poll stoull pcre to_json true (e ∷ []) j state).0.1
            ≡ ok k)
        × ((poll stoull pcre to_json true
              (e ∷ [])
              k
              (poll stoull pcre to_json true (e ∷ []) j state).0.1).1
            ≡ ok (m ∷ []))
  poll-restarted systemd raw_method file_name j state t e m built method opened not_null back new
        h =
      let state' : ReadState Json =
        store j.parser.parser_name j.parser.resource_name (to_json t) state in
      let k : JournalParser pcre = record j { journal = fresh; last_accessed_date = t } in
      rw (poll-one true j state t e m new h) (
        refl,
        k,
        restarted systemd raw_method file_name j state t built method opened not_null back,
        ap (λ r. r.1)
            (poll-one true k state' t e m refl
              (take_entry_again stoull pcre j.parser j.last_accessed_date t e m h)),
      )
