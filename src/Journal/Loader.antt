-- ===== src/Journal/Loader.antt =====
-- src/dnf2b/sources/ParserLoader.cpp: the parser of a name. `text_of` is the text of the file in the folder
-- of parsers, and `parse_json` its reading; both are parameters.
use Prim.Native.String.{◌++◌}
use doesnotfail2ban.Prelude.{ℕ, String, ◌==◌, Bool, Option, none, some, if◌then◌else◌}
use doesnotfail2ban.Prelude.Results.{Result, ok, throw, library_error, runtime_error, ◌>>=◌}
use doesnotfail2ban.Pcre.{Pcre}
use doesnotfail2ban.Parsers.{Parser, ParserConfig, new_parser}
use doesnotfail2ban.ReadState.{ReadState}
use doesnotfail2ban.Journal.{Systemd}
use doesnotfail2ban.Journal.Polling.{JournalParser, new_journal_parser}

-- The keys of a parser's file that are read.
pub record ParserFile : Type 0 where
  pub kind : Option String
  pub id_method : Option String
  pub config : ParserConfig

-- FileParser, with lastAccessedByte, or JournalCTLParser.
pub data AnyParser (pcre : Pcre) : Type 0 where
  file_parser : Parser pcre.Code → ℕ → AnyParser pcre
  journal_parser : JournalParser pcre → AnyParser pcre

module _ (pcre : Pcre) {Json : Type 0} (is_null : Json → Bool) (get_uint : Json → Result ℕ)
    (systemd : Systemd) (text_of : String → Option String)
    (parse_json : String → Result ParserFile) where
  -- The constructor of the type that is asked for.
  unfoldable pub make_parser :
      String → String → ReadState Json → ParserFile → Option String → Result (AnyParser pcre)
  make_parser parser_name resource_name state file none = throw library_error
  make_parser parser_name resource_name state file (some kind) =
      if kind == "file"
      then (new_parser pcre parser_name file.config resource_name >>= λ p.
          ok (AnyParser.file_parser p 0))
      else if kind == "journalctl"
      then (new_journal_parser pcre is_null get_uint systemd parser_name file.config file.id_method
            resource_name state
          >>= λ j. ok (AnyParser.journal_parser j))
      else throw (runtime_error "Configuration error: type is not valid")

  -- ParserLoader::loadParser, `none` for nullptr
  unfoldable pub load_parser : String → String → ReadState Json → Result (Option (AnyParser pcre))
  unfolding make_parser
  load_parser parser_name resource_name state = elim (text_of (parser_name ++ ".json")) [
    | none ↦ ok none
    | some text ↦ parse_json text >>= λ file.
        make_parser parser_name resource_name state file file.kind >>= λ p. ok (some p)
  ]
