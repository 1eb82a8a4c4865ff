-- ===== src/Parsers.antt =====
-- src/dnf2b/sources/Parser.cpp and Parser.hpp: a parser, its construction from JSON, and how it reads a
-- line. pcre2 is a parameter, and so is std::get_time on top of the current local time.
pub mod Files
pub mod Lines
use doesnotfail2ban.Prelude.{
  String, Bool, true, false, Option, none, some, List, [], value_or, has_value, if◌then◌else◌, ◌==◌,
}
use doesnotfail2ban.Prelude.Int.{ℤ}
use doesnotfail2ban.Prelude.Results.{
  Result, ok, throw, thrown_int, library_error, runtime_error, ◌>>=◌,
}
use doesnotfail2ban.Structs.{Message}
use doesnotfail2ban.Pcre.{Pcre, Pattern, PcreMatcher, compile_pattern, matcher, next, get}

-- The value of "pattern": an object with "full" and perhaps "time", or a text.
pub data PatternConfig : Type 0 where
  object : String → Option String → PatternConfig
  plain : String → PatternConfig

-- The keys of a parser's JSON object that are read, where they are present.
pub record ParserConfig : Type 0 where
  pub multiprocess : Option Bool
  pub pattern : Option PatternConfig
  -- ipFallbackSearch.regex
  pub ip_fallback_search : Option String

pub record Parser (Code : Type 0) : Type 0 where
  pub pattern : Option (Pattern Code)
  pub time_format : String
  pub fallback_search : Option (Pattern Code)
  pub config : ParserConfig
  pub parser_name : String
  pub resource_name : String
  pub multiprocess : Bool

module _ (pcre : Pcre) where
  compile_config : Option PatternConfig → Result (Option (Pattern pcre.Code) × String)
  compile_config none = ok (none, "")
  compile_config (some (object full time)) =
      compile_pattern pcre full true >>= λ p. ok (some p, value_or time "")
  compile_config (some (plain text)) = compile_pattern pcre text true >>= λ p. ok (some p, "")

  compile_fallback : Option String → Result (Option (Pattern pcre.Code))
  compile_fallback none = ok none
  compile_fallback (some regex) = compile_pattern pcre regex false >>= λ p. ok (some p)

  -- Parser::Parser
  unfoldable pub new_parser : String → ParserConfig → String → Result (Parser pcre.Code)
  unfolding compile_config compile_fallback
  new_parser parser_name config resource_name = do
    (pattern, time_format) ← compile_config config.pattern
    fallback ← compile_fallback config.ip_fallback_search
    ok (record {
      pattern = pattern;
      time_format = time_format;
      fallback_search = fallback;
      config = config;
      parser_name = parser_name;
      resource_name = resource_name;
      multiprocess = value_or config.multiprocess false;
    })

  -- Parser::enableBuffer
  abbrev pub enable_buffer : Parser pcre.Code → Bool
  enable_buffer p = has_value p.fallback_search

  -- The message of the groups, unless Msg is missing.
  abbrev pub message_of : ℤ → Option String → Option String → Option String → Option Message
  message_of date none host ip = none
  message_of date (some text) host ip = some (record {
    entry_date = date;
    host = value_or host "";
    message = text;
    ip = value_or ip "";
    process = "";
  })

  -- `read_time format text` is the date in the text, and `now` the clock.
  module _ (read_time : String → String → ℤ) (now : ℤ) where
    abbrev pub date_of : String → Option String → ℤ
    date_of format none = now
    date_of format (some text) = read_time format text

    -- What `parse` does after `next`.
    unfoldable pub parse_groups : String → Bool × PcreMatcher pcre → Result (Option Message)
    parse_groups format (false, m) = ok none
    parse_groups format (true, m) = get pcre m "Time" >>= λ time. get pcre m "Msg" >>= λ text.
        get pcre m "Host" >>= λ host.
        get pcre m "IP" >>= λ ip. ok (message_of (date_of format time) text host ip)

    -- Parser::parse
    unfoldable pub parse : Parser pcre.Code → String → Result (Option Message)
    unfolding parse_groups
    parse p line = elim p.pattern [
      | none ↦ throw thrown_int
      | some pattern ↦ parse_groups p.time_format (next pcre (matcher pcre pattern.code line))
    ]

  abbrev found_ip : Bool × PcreMatcher pcre → Result (Option String)
  found_ip (false, m) = ok none
  found_ip (true, m) = get pcre m "IP"

  -- IPFallbackSearch::search
  unfoldable pub search_ip : Pattern pcre.Code → Message → Result (Option String)
  search_ip p m = found_ip (next pcre (matcher pcre p.code m.message))

  -- Parser::filterMessages, which throws if the configuration does not have the key
  unfoldable pub filter_messages : Parser pcre.Code → List Message → Result (List Message)
  filter_messages p messages = elim p.config.multiprocess [
    | none ↦ throw library_error
    | some multiprocess ↦ if multiprocess then ok [] else ok messages
  ]
