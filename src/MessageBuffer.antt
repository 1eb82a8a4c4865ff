-- ===== src/MessageBuffer.antt =====
-- src/dnf2b/data/MessageBuffer.cpp and MessageBuffer.hpp: messages that wait for an address, and the
-- addresses last seen of each process. `inet_pton` and pcre2 are parameters. An exception leaves
-- `forward` without a state, since nothing catches it: it ends the program.
pub mod Ageing
pub mod Caught
pub mod Disabled
pub mod Loading
use doesnotfail2ban.Prelude.{
  ℕ, ◌+◌, String, ◌==◌, Bool, true, false, not, Option, none, some, List, [], ◌∷◌, ◌++◌, map, leb,
  has_value, if◌then◌else◌, value_or,
}
use doesnotfail2ban.Prelude.Maps.{Map, lookup, insert, erase, erase_if, map_values}
use doesnotfail2ban.Prelude.Results.{Result, ok, throw, runtime_error, ◌>>=◌}
use doesnotfail2ban.Structs.{Message}
use doesnotfail2ban.Pcre.{Pcre}
use doesnotfail2ban.Filter.{Filter, MatchResult, check_message}
use text.Mathlib.Text.{find?}

pub record MessageHold : Type 0 where
  pub msg : List Message
  pub failed_checks : ℕ

pub record IpBuffer : Type 0 where
  pub ip : String
  pub passed_cycles : ℕ

pub record MessageBuffer : Type 0 where
  pub hold : Map MessageHold
  pub buff : Map IpBuffer
  pub out : List Message
  pub enable_cache : Bool

unfoldable pub create : Bool → MessageBuffer
create enable = record { hold = []; buff = []; out = []; enable_cache = enable }

-- MessageBuffer::tryLoadIP, which changes the message
unfoldable pub try_load_ip : Message → MessageBuffer → Message
try_load_ip msg m =
    if m.enable_cache
    then elim (lookup msg.process m.buff) [ none ↦ msg | some b ↦ record msg { ip = b.ip } ]
    else msg

-- MessageBuffer::registerMessage
unfoldable pub register_message : Message → MessageBuffer → MessageBuffer
register_message msg m =
    if m.enable_cache
    then record m { buff = insert msg.process (record { ip = msg.ip; passed_cycles = 0 }) m.buff }
    else m

abbrev pub with_ip : String → Message → Message
with_ip ip msg = record msg { ip = ip }

-- The held messages of the process, if any, go to `out` with the address of `msg`.
unfoldable pub free_held : Message → Option MessageHold → MessageBuffer → MessageBuffer
free_held msg none m = m
free_held msg (some held) m = record m {
  out = m.out ++ map (with_ip msg.ip) held.msg;
  hold = erase msg.process m.hold;
}

-- MessageBuffer::registerAndFree, into the buffer's own `out`
unfoldable pub register_and_free : Message → MessageBuffer → MessageBuffer
unfolding register_message free_held
register_and_free msg m =
    if m.enable_cache then free_held msg (lookup msg.process m.hold) (register_message msg m) else m

abbrev pub push_out : Message → MessageBuffer → MessageBuffer
push_out msg m = record m { out = m.out ++ msg ∷ [] }

-- One round of the loop of `load`.
unfoldable pub load_one : Message → MessageBuffer → MessageBuffer
unfolding register_and_free try_load_ip
load_one msg m =
    if msg.ip == "" then push_out (try_load_ip msg m) m else push_out msg (register_and_free msg m)

-- MessageBuffer::load
unfoldable pub load : List Message → MessageBuffer → MessageBuffer
load [] m = m
load (msg ∷ rest) m = load rest (load_one msg m)

-- hold[process].msg.push_back(message)
unfoldable pub hold_message : Message → MessageBuffer → MessageBuffer
hold_message msg m =
    let held = value_or (lookup msg.process m.hold) (record { msg = []; failed_checks = 0 }) in
    record m { hold = insert msg.process (record held { msg = held.msg ++ msg ∷ [] }) m.hold }

-- What inet_pton returns: 1, 0 or -1.
pub data Pton : Type 0 where
  valid invalid bad_domain : Pton

abbrev pub Caught : Type 0
Caught = Map (List Message)

-- The messages under an address, none where it is missing.
abbrev pub messages_of : String → Caught → List Message
messages_of ip caught = value_or (lookup ip caught) []

-- caught[ip].push_back(message)
unfoldable pub push_caught : Message → Caught → Caught
push_caught msg caught = insert msg.ip (messages_of msg.ip caught ++ msg ∷ []) caught

-- `inet_pton is_v6 text`, with AF_INET6 for `true`
module _ (inet_pton : Bool → String → Pton) where
  -- The end of a round of `forward`, with the address that was found.
  unfoldable pub deliver :
      String → Message → MessageBuffer → Caught → Result (Message × MessageBuffer × Caught)
  unfolding register_message push_caught
  deliver ip msg m caught =
      if ip == "" then ok (msg, m, caught) else elim (inet_pton (has_value (find? ip ":")) ip) [
        | invalid ↦ ok (msg, m, caught)
        | bad_domain ↦ throw (runtime_error "Fatal programmer error")
        | valid ↦
            let msg' = with_ip ip msg in ok (msg', register_message msg' m, push_caught msg' caught)
      ]

  -- A round of `forward` once the filter has answered.
  unfoldable pub handle :
      Option MatchResult
      → Message
      → MessageBuffer
      → Caught
      → Result (Message × MessageBuffer × Caught)
  unfolding hold_message deliver
  handle none msg m caught = ok (msg, m, caught)
  handle (some res) msg m caught =
      if res.error
      then (if m.enable_cache
          then elim (lookup msg.process m.buff) [
            | some b ↦ deliver b.ip msg m caught
            | none ↦ ok (msg, hold_message msg m, caught)
          ]
          else ok (msg, m, caught))
      else deliver res.ip msg m caught

  module _ (pcre : Pcre) (f : Filter pcre.Code) where
    unfoldable pub forward_one :
        Message → MessageBuffer → Caught → Result (Message × MessageBuffer × Caught)
    unfolding handle
    forward_one msg m caught = check_message pcre f msg none >>= λ res. handle res.0 msg m caught

    -- The loop of `forward`; it returns the messages of `out` as the loop leaves them.
    unfoldable pub forward_from :
        List Message → MessageBuffer → Caught → Result (List Message × MessageBuffer × Caught)
    forward_from [] m caught = ok ([], m, caught)
    forward_from (msg ∷ rest) m caught = forward_one msg m caught >>= λ (msg', m', caught').
        forward_from rest m' caught' >>= λ (rest', m'', caught''). ok (msg' ∷ rest', m'', caught'')

    -- MessageBuffer::forward
    unfoldable pub forward : MessageBuffer → Result (MessageBuffer × Caught)
    unfolding forward_from
    forward m =
        forward_from m.out m [] >>= λ (out, m', caught). ok (record m' { out = out }, caught)

-- MessageBuffer::done
unfoldable pub done : MessageBuffer → MessageBuffer
done m =
    if m.enable_cache
    then record m {
      out = [];
      hold =
          erase_if (λ h. leb 5 h.failed_checks)
            (map_values (λ h. record h { failed_checks = h.failed_checks + 1 }) m.hold);
      buff =
          erase_if (λ b. leb 5 b.passed_cycles)
            (map_values (λ b. record b { passed_cycles = b.passed_cycles + 1 }) m.buff);
    }
    else record m { out = [] }
