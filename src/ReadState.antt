-- ===== src/ReadState.antt =====
-- src/dnf2b/data/ReadStateDB.cpp: the state that the parsers keep of their resources, and its file. The
-- state is a JSON object of objects, and the file a text: how nlohmann::json writes and reads a state are
-- parameters. The mutex is not modelled.
pub mod Reading
use doesnotfail2ban.Prelude.{
  String, Bool, true, false, Option, none, some, [], value_or, if◌then◌else◌,
}
use doesnotfail2ban.Prelude.Maps.{Map, lookup, insert}
use doesnotfail2ban.Prelude.Results.{Result, ok, throw, ◌>>=◌}

abbrev pub State : Type 0 → Type 0
State Json = Map (Map Json)

-- `file` is what the file holds, `none` if it does not exist.
pub record ReadState (Json : Type 0) : Type 0 where
  pub state : State Json
  pub dirty : Bool
  pub file : Option String

module _ {Json : Type 0} (parse : String → Result (State Json)) where
  -- The constructor; `parse` is `f >> state`, which throws where the text is no JSON.
  unfoldable pub open_state : Option String → Result (ReadState Json)
  open_state none = ok (record { state = []; dirty = false; file = none })
  open_state (some text) =
      parse text >>= λ state. ok (record { state = state; dirty = false; file = some text })

module _ {Json : Type 0} where
  -- state[parser_name][resource_name] = value
  unfoldable pub store : String → String → Json → ReadState Json → ReadState Json
  store parser_name resource_name value s = record s {
    state =
        insert parser_name (insert resource_name value (value_or (lookup parser_name s.state) []))
          s.state;
    dirty = true;
  }

  -- The end of `read`: null is the same as a missing value.
  abbrev pub unless_null : (Json → Bool) → Option Json → Option Json
  unless_null is_null none = none
  unless_null is_null (some value) = if is_null value then none else some value

  unfoldable pub read : (Json → Bool) → String → String → ReadState Json → Option Json
  read is_null parser_name resource_name s = elim (lookup parser_name s.state) [
    | none ↦ none
    | some data_of ↦ unless_null is_null (lookup resource_name data_of)
  ]

  -- `writable`: the file could be opened. `dump` is state.dump(4).
  unfoldable pub commit : (State Json → String) → Bool → ReadState Json → ReadState Json
  commit dump writable s =
      if s.dirty
      then (if writable
          then record s { dirty = false; file = some (dump s.state) }
          else record s { dirty = false })
      else s
