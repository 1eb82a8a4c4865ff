-- ===== src/Journal/Polling.antt =====
-- src/dnf2b/sources/JournalCTLParser.cpp: the parser over the journal, JournalCTLParser. Its state that is
-- kept between runs is in the read state.
use doesnotfail2ban.Journal.{
  IdMethod, syslog_identifier, systemd_unit, Systemd, Entry, JournalCtl, open_journal, RawEntry,
  date_of, read_entry,
}
use doesnotfail2ban.Prelude.{
  ℕ, String, ◌==◌, Bool, true, false, not, ◌&&◌, Option, none, some, List, [], ◌∷◌, ltb,
  if◌then◌else◌, value_or,
}
use doesnotfail2ban.Prelude.Results.{Result, ok, throw, runtime_error, bad_optional_access, ◌>>=◌}
use doesnotfail2ban.Structs.{Message}
use doesnotfail2ban.Pcre.{Pcre, Pattern, PcreMatcher, matcher, next, get}
use doesnotfail2ban.Parsers.{Parser, ParserConfig, new_parser, search_ip}
use doesnotfail2ban.ReadState.{ReadState, store, read}

abbrev pub value : Option String → Result String
value none = throw bad_optional_access
value (some s) = ok s

abbrev pub message_at : RawEntry → String → String → Message
message_at raw message ip = record {
  entry_date = date_of raw.time;
  host = raw.host;
  message = message;
  ip = ip;
  process = raw.pid;
}

abbrev pub max : ℕ → ℕ → ℕ
max a b = if ltb a b then b else a

-- What the callback leaves: lastAccessedDate, and what is pushed.
abbrev pub advance_date : ℕ → ℕ → Option Message → ℕ
advance_date last time none = last
advance_date last time (some m) = max last time

abbrev pub pushed : Option Message → ℕ × Result (List Message) → ℕ × Result (List Message)
pushed none rest = rest
pushed (some m) (last, messages) = (last, messages >>= λ ms. ok (m ∷ ms))

abbrev pub id_method : Option String → Result IdMethod
id_method none = ok syslog_identifier
id_method (some raw) =
    if raw == "syslog"
    then ok syslog_identifier
    else if raw == "systemd_unit"
    then ok systemd_unit
    else throw (runtime_error "Config error")

module _ (pcre : Pcre) where
  -- The message and the address of an entry after `next`; `none` is a return without a message.
  unfoldable pub match_entry : Bool × PcreMatcher pcre → Result (Option (String × String))
  match_entry (false, m) = ok none
  match_entry (true, m) = get pcre m "Msg" >>= value >>= λ message.
      get pcre m "IP" >>= λ ip. ok (some (message, value_or ip ""))

  unfoldable pub apply_pattern :
      Option (Pattern pcre.Code) → String → Result (Option (String × String))
  unfolding match_entry
  apply_pattern none message = ok (some (message, ""))
  apply_pattern (some p) message = match_entry (next pcre (matcher pcre p.code message))

  -- The search for an address in a message that has none.
  unfoldable pub fall_back : Option (Pattern pcre.Code) → Message → Result Message
  fall_back none m = ok m
  fall_back (some p) m =
      if m.ip == ""
      then (search_ip pcre p m >>= λ ip. ok (record m { ip = value_or ip m.ip }))
      else ok m

  abbrev pub finish :
      Parser pcre.Code → RawEntry → Option (String × String) → Result (Option Message)
  finish p raw none = ok none
  finish p raw (some (message, ip)) =
      fall_back p.fallback_search (message_at raw message ip) >>= λ m. ok (some m)

  -- The callback of `poll`: the message, if the entry is taken.
  unfoldable pub handle_entry : Parser pcre.Code → ℕ → RawEntry → Result (Option Message)
  unfolding apply_pattern fall_back
  handle_entry p last raw =
      if ltb raw.time last then ok none else (apply_pattern p.pattern raw.message >>= finish p raw)

  pub record JournalParser : Type 0 where
    pub parser : Parser pcre.Code
    pub method : IdMethod
    pub last_accessed_date : ℕ
    pub journal : JournalCtl

  module _ {Json : Type 0} (is_null : Json → Bool) (get_uint : Json → Result ℕ) where
    abbrev date_or_zero : Option Json → Result ℕ
    date_or_zero none = ok 0
    date_or_zero (some state) = get_uint state

    -- JournalCTLParser::JournalCTLParser; `raw_method` is the key "idMethod".
    unfoldable pub new_journal_parser :
        Systemd
        → String
        → ParserConfig
        → Option String
        → String
        → ReadState Json
        → Result JournalParser
    unfolding open_journal
    new_journal_parser systemd parser_name config raw_method file_name state = do
      parser ← new_parser pcre parser_name config file_name
      method ← id_method raw_method
      last ← date_or_zero (read is_null parser_name parser.resource_name state)
      journal ← open_journal systemd parser.resource_name last method
      ok (record { parser = parser; method = method; last_accessed_date = last; journal = journal })

module _ (pcre : Pcre) {Json : Type 0} (to_json : ℕ → Json) where
  abbrev pub stored :
      JournalParser pcre
      → ReadState Json
      → ℕ × Result (List Message)
      → (JournalParser pcre × ReadState Json) × Result (List Message)
  stored j state (last, throw x) = ((record j { last_accessed_date = last }, state), throw x)
  stored j state (last, ok messages) = (
    (
      record j { last_accessed_date = last },
      store j.parser.parser_name j.parser.resource_name (to_json last) state,
    ),
    ok messages,
  )

module _ (stoull : String → Result ℕ) (pcre : Pcre) where
  unfoldable pub take_entry : Parser pcre.Code → ℕ → Entry → Result (ℕ × Option Message)
  unfolding read_entry handle_entry
  take_entry p last e = read_entry stoull e >>= λ raw.
      handle_entry pcre p last raw >>= λ m. ok (advance_date last raw.time m, m)

  -- The loop over the entries: lastAccessedDate at its end, also at an exception.
  unfoldable pub read_entries : Parser pcre.Code → ℕ → List Entry → ℕ × Result (List Message)
  unfolding take_entry
  read_entries p last [] = (last, ok [])
  read_entries p last (e ∷ es) = elim (take_entry p last e) [
    | throw x ↦ (last, throw x)
    | ok (last', m) ↦ pushed m (read_entries p last' es)
  ]

  module _ {Json : Type 0} (to_json : ℕ → Json) where
    -- JournalCTLParser::poll. `appended`: sd_journal_wait returns SD_JOURNAL_APPEND.
    unfoldable pub poll :
        Bool
        → List Entry
        → JournalParser pcre
        → ReadState Json
        → (JournalParser pcre × ReadState Json) × Result (List Message)
    unfolding read_entries
    poll appended entries j state =
        if not j.journal.is_open
        then ((j, state), ok [])
        else if j.journal.has_read && not appended
        then stored pcre to_json j state (j.last_accessed_date, ok [])
        else stored pcre to_json (record j { journal = record { is_open = true; has_read = true } })
            state (read_entries j.parser j.last_accessed_date entries)
