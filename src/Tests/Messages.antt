-- ===== src/Tests/Messages.antt =====
-- src/dnf2b/data/MessageBuffer.cpp and src/dnf2b/watcher/Watcher.cpp on a few messages.
use Prim.Native.String.{len}
use doesnotfail2ban.Prelude.{
  ℕ, String, Bool, true, some, List, [], ◌∷◌, ◌≡◌, ◌≢◌, refl, arith, ◌+◌, ◌≤◌, All, value_or, leb,
  Option-cases, Bool-cases, inl, inr,
}
use doesnotfail2ban.Prelude.Maps.{lookup, IsMap, AllEntries}
use doesnotfail2ban.Prelude.Results.{ok}
use doesnotfail2ban.Structs.{Message}
use doesnotfail2ban.Pcre.{Pattern}
use doesnotfail2ban.Filter.{check_message, drop}
use doesnotfail2ban.Filter.Matching.{
  GroupsSet, check_message-first_match, answer, first_match, address_by,
}
use doesnotfail2ban.MessageBuffer.{MessageBuffer, Caught, load, bad_domain}
use doesnotfail2ban.MessageBuffer.Caught.{IsCaughtAt}
use doesnotfail2ban.MessageBuffer.Ageing.{cycles, aged_hold, aged_ip, lookup-cycles}
use doesnotfail2ban.MessageBuffer.Loading.{count, count_all, load-keeps}
use doesnotfail2ban.Watcher.{process}
use doesnotfail2ban.Watcher.Merging.{process-caught}
use doesnotfail2ban.Tests.Fixtures.{
  literal, match_after, any_text, from_filter, message, ssh, buffer,
}
use text.Mathlib.Text.{find?}

match_after-within :
    (start size : ℕ) (end : ℕ)
    → start ≤ end
    → All (λ (q : ℕ × ℕ). q.0 ≤ size) (value_or (match_after start end size) [])
match_after-within start size end h = elim (Bool-cases (leb end size)) [
  | inl t ↦ rw t (ground arith, (ground arith, tt))
  | inr f ↦ rw f tt
]

pub literal-GroupsSet : (p : Pattern String) → GroupsSet literal p
literal-GroupsSet p text = elim (Option-cases (find? text p.code)) [
  | inl e ↦ rw e tt
  | inr (i, e) ↦ rw e (match_after-within i (len text) (i + len p.code) (omega arith))
]

pub from_filter-GroupsSet : All (GroupsSet literal) from_filter.patterns
from_filter-GroupsSet = (
  literal-GroupsSet (record { code = "user "; raw_pattern = "user " }),
  (literal-GroupsSet (record { code = "from "; raw_pattern = "from " }), tt),
)

any_text-known : (is_v6 : Bool) (text : String) → any_text is_v6 text ≢ bad_domain
any_text-known is_v6 text e = ground arith

abbrev loaded : MessageBuffer
loaded = record buffer {
  out = message "refused from 10.0.0.1" "" "sshd" ∷ message "user 10.0.0.2" "" "cron" ∷ [];
}

abbrev refused : Message
refused = message "refused from 10.0.0.1" "" "sshd"

check_message-first_match_example :
    check_message literal from_filter refused (some 1)
    ≡ ok (
        answer literal refused
          (some 1)
          (first_match literal (address_by literal refused) 1 (drop 1 from_filter.patterns)))
check_message-first_match_example =
    check_message-first_match literal from_filter refused (some 1) from_filter-GroupsSet

lookup-cycles_example :
    (lookup "sshd" (cycles 2 buffer).hold ≡ aged_hold 2 (lookup "sshd" buffer.hold))
    × (lookup "sshd" (cycles 2 buffer).buff ≡ aged_ip 2 (lookup "sshd" buffer.buff))
lookup-cycles_example = lookup-cycles 1 "sshd" buffer ((tt, tt), (tt, tt)) refl

abbrev found : List Message
found = message "refused" "10.0.0.1" "sshd" ∷ message "closed" "" "nginx" ∷ []

abbrev any_message : Message → Bool
any_message msg = true

load-keeps_example :
    (count_all any_message (load found buffer)
      ≡ count_all any_message buffer + count any_message found)
    × IsMap (load found buffer).hold
load-keeps_example = load-keeps any_message (λ ip msg. refl) found buffer (tt, tt)

process-caught_example :
    (r : MessageBuffer × Caught) × (process any_text literal ssh found buffer ≡ ok r)
    × (r.0.out ≡ [])
    × AllEntries (IsCaughtAt any_text) r.1
process-caught_example =
    process-caught any_text literal any_text-known ssh found buffer (from_filter-GroupsSet, tt)
