-- ===== src/Tests/Journals.antt =====
-- The journal's parser on one entry.
use doesnotfail2ban.Prelude.{
  ℕ, String, ◌==◌, ◌≡◌, refl, Bool, true, false, some, none, [], ◌∷◌, if◌then◌else◌,
}
use doesnotfail2ban.Prelude.Results.{Result, ok}
use doesnotfail2ban.Structs.{Message}
use doesnotfail2ban.Pcre.{substr}
use doesnotfail2ban.Parsers.{Parser, ParserConfig, new_parser}
use doesnotfail2ban.ReadState.{ReadState}
use doesnotfail2ban.Journal.{Systemd, Entry, open_journal, syslog_identifier, date_of}
use doesnotfail2ban.Journal.Polling.{JournalParser, take_entry, poll, new_journal_parser}
use doesnotfail2ban.Journal.Dates.{IsPolled, poll-IsPolled}
use doesnotfail2ban.Journal.Restarts.{fresh, poll-restarted}
use doesnotfail2ban.Tests.Fixtures.{literal}

abbrev plain_config : ParserConfig
plain_config = record { multiprocess = none; pattern = none; ip_fallback_search = none }

abbrev plain_parser : Parser String
plain_parser = record {
  pattern = none;
  time_format = "";
  fallback_search = none;
  config = plain_config;
  parser_name = "journal";
  resource_name = "sshd";
  multiprocess = false;
}

abbrev no_state : ReadState ℕ
no_state = record { state = []; dirty = false; file = none }

abbrev sshd_journal : JournalParser literal
sshd_journal = record {
  parser = plain_parser;
  method = syslog_identifier;
  last_accessed_date = 3000000;
  journal = fresh;
}

abbrev one_number : String → Result ℕ
one_number text = if text == "5000000" then ok 5000000 else ok 0

abbrev refusal : Entry
refusal = record {
  get_data = λ field.
      if field == "_SOURCE_REALTIME_TIMESTAMP"
      then some "_SOURCE_REALTIME_TIMESTAMP=5000000"
      else if field == "MESSAGE"
      then some "MESSAGE=refused=yes"
      else none;
}

abbrev taken_message : Message
taken_message = record {
  entry_date = date_of 5000000;
  host = "";
  message = "refused=yes";
  ip = "";
  process = "";
}

refusal_taken :
    take_entry one_number literal plain_parser 3000000 refusal ≡ ok (5000000, some taken_message)
unfolding take_entry substr
refusal_taken = refl

abbrev never_null : ℕ → Bool
never_null n = false

poll-IsPolled_example :
    IsPolled one_number literal never_null
      (λ n. n)
      sshd_journal
      (poll one_number literal (λ n. n) true (refusal ∷ []) sshd_journal no_state)
poll-IsPolled_example =
    poll-IsPolled one_number literal never_null (λ n. n) true (refusal ∷ []) sshd_journal no_state
      refl (λ n. refl)

abbrev working : Systemd
working = record { opens = true; adds_match = λ text. true; seeks = λ time. true }

opened : open_journal working "sshd" 5000000 syslog_identifier ≡ ok fresh
unfolding open_journal
opened = refl

built : new_parser literal "journal" plain_config "sshd" ≡ ok plain_parser
unfolding new_parser
built = refl

poll-restarted_example :
    ((poll one_number literal (λ n. n) true (refusal ∷ []) sshd_journal no_state).1
      ≡ ok (taken_message ∷ []))
    × (k : JournalParser literal) × (new_journal_parser literal never_null
          (λ n. ok n)
          working
          "journal"
          plain_config
          none
          "sshd"
          (poll one_number literal (λ n. n) true (refusal ∷ []) sshd_journal no_state).0.1
        ≡ ok k)
    × ((poll one_number literal
          (λ n. n)
          true
          (refusal ∷ [])
          k
          (poll one_number literal (λ n. n) true (refusal ∷ []) sshd_journal no_state).0.1).1
        ≡ ok (taken_message ∷ []))
poll-restarted_example =
    poll-restarted one_number literal never_null (λ n. ok n) (λ n. n) working none "sshd"
      sshd_journal no_state 5000000 refusal taken_message built refl opened (λ n. refl) (λ n. refl)
      refl refusal_taken
