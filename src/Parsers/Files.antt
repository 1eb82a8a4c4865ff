-- ===== src/Parsers/Files.antt =====
-- src/dnf2b/sources/FileParser.cpp: a poll of a log file. Positions are bytes; `parse` is the parser's. The
-- source reads the clock for each line, so one `parse` stands for polls in which the clock stands still;
-- and the file does not grow while it is polled.
use Prim.Native.Char.{code}
use Prim.Native.String.{String, len, slice, ◌++◌}
use doesnotfail2ban.Prelude.{
  ℕ, true, false, Option, none, some, List, [], ◌∷◌, eqb, if◌then◌else◌, ◌==◌,
}
use doesnotfail2ban.Prelude.Results.{Result, ok, ◌>>=◌}
use doesnotfail2ban.Structs.{Message}

abbrev pub newline : String
newline = "\n"

-- getline until it fails; `line` is what has been read of the current line. A last line without an end
-- counts if it is not empty.
unfoldable pub lines : String → String → List String
lines line String.[] = if line == "" then [] else line ∷ []
lines line (String.◌∷◌ c rest) = elim (eqb (code c) 10) [
  | true ↦ line ∷ lines "" rest
  | false ↦ lines (line ++ String.◌∷◌ c String.[]) rest
]

abbrev pub push_message : Option Message → List Message → List Message
push_message none messages = messages
push_message (some m) messages = m ∷ messages

module _ (parse : String → Result (Option Message)) where
  -- The loop over the lines.
  unfoldable pub parse_lines : List String → Result (List Message)
  parse_lines [] = ok []
  parse_lines (line ∷ rest) =
      parse line >>= λ m. parse_lines rest >>= λ messages. ok (push_message m messages)

  -- FileParser::poll on the content of the file, with lastAccessedByte. A file that cannot be opened gives
  -- no message and the position 0. A position past the end is no failure of seekg: nothing is read.
  unfoldable pub poll : Option String → ℕ → Result (List Message × ℕ)
  unfolding lines parse_lines
  poll none last = ok ([], 0)
  poll (some content) last =
      parse_lines (lines "" (slice content last (len content))) >>= λ messages.
      ok (messages, len content)
