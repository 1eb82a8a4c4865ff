-- ===== src/MessageBuffer/Disabled.antt =====
-- src/dnf2b/data/MessageBuffer.cpp: all that `load` and `forward` do where the buffer is disabled.
use doesnotfail2ban.Prelude.{
  String, ◌==◌, ◌≡◌, refl, Bool, true, false, Option, none, some, List, [], ◌∷◌, ◌++◌, map,
  has_value, keep, if◌then◌else◌, All, ◌≢◌, sym, ap, ◌∙◌, append-nil, append_assoc, Bool-cases, inl,
  inr, eq_iff, ℕ,
}
use doesnotfail2ban.Prelude.Maps.{lookup, lookup-insert, IsMap, insert-IsMap}
use doesnotfail2ban.Prelude.Results.{ok}
use doesnotfail2ban.Structs.{Message}
use doesnotfail2ban.Pcre.{Pcre}
use doesnotfail2ban.MessageBuffer.Caught.{Pton-cases}
use doesnotfail2ban.Filter.{Filter}
use doesnotfail2ban.Filter.Matching.{
  GroupsSet, check_message-first_match, answer, first_match, address_by,
}
use doesnotfail2ban.MessageBuffer.{
  MessageBuffer, Pton, valid, invalid, bad_domain, Caught, push_caught, deliver, handle,
  forward_one, forward_from, forward, with_ip, load, load_one, messages_of, push_out,
  register_message, try_load_ip, register_and_free, ℕ,
}
use text.Mathlib.Text.{find?}

-- A message with the address that was found, if one was.
abbrev pub relabel : Option String → Message → Message
relabel none msg = msg
relabel (some ip) msg = with_ip ip msg

abbrev pub is_at : String → Option String → Bool
is_at ip none = false
is_at ip (some found) = found == ip

abbrev push_reported : Option String → Message → Caught → Caught
push_reported none msg caught = caught
push_reported (some ip) msg caught = push_caught (with_ip ip msg) caught

module _ (inet_pton : Bool → String → Pton) (pcre : Pcre) where
  abbrev is_valid : Pton → Bool
  is_valid valid = true
  is_valid invalid = false
  is_valid bad_domain = false

  abbrev pub is_address : String → Bool
  is_address ip = if ip == "" then false else is_valid (inet_pton (has_value (find? ip ":")) ip)

  abbrev reported_of : Option (String × ℕ) → Option String
  reported_of none = none
  reported_of (some (ip, i)) = if is_address ip then some ip else none

  -- The address for which a filter reports a message: the one that its first pattern that matches
  -- finds, if that is an address.
  abbrev pub reported : Filter pcre.Code → Message → Option String
  reported f msg = reported_of (first_match pcre (address_by pcre msg) 0 f.patterns)

  -- What a filter reports under an address, of the messages in `out`.
  abbrev pub reported_under : Filter pcre.Code → String → List Message → List Message
  reported_under f ip out = map (with_ip ip) (keep (λ msg. is_at ip (reported f msg)) out)

  abbrev pub report : Filter pcre.Code → Message → Message
  report f msg = relabel (reported f msg) msg

  abbrev push_all : Filter pcre.Code → List Message → Caught → Caught
  push_all f [] caught = caught
  push_all f (msg ∷ rest) caught = push_all f rest (push_reported (reported f msg) msg caught)

  messages_of-push_reported :
      (ip : String) (o : Option String) (msg : Message) (caught : Caught)
      → messages_of ip (push_reported o msg caught)
        ≡ messages_of ip caught ++ (if is_at ip o then with_ip ip msg ∷ [] else [])
  unfolding push_caught
  messages_of-push_reported ip none msg caught = sym (append-nil (messages_of ip caught))
  messages_of-push_reported ip (some j) msg caught = elim (Bool-cases (j == ip)) [
    | inl t ↦
        rw (lookup-insert j ip (messages_of j caught ++ with_ip j msg ∷ []) caught, t)
          (ap (λ k. messages_of k caught ++ with_ip k msg ∷ []) ((eq_iff j ip).0 t))
    | inr f ↦
        rw (lookup-insert j ip (messages_of j caught ++ with_ip j msg ∷ []) caught, f)
          (sym (append-nil (messages_of ip caught)))
  ]

  messages_of-push_all :
      (f : Filter pcre.Code) (ip : String) (out : List Message) (caught : Caught)
      → messages_of ip (push_all f out caught) ≡ messages_of ip caught ++ reported_under f ip out
  messages_of-push_all f ip [] caught = sym (append-nil (messages_of ip caught))
  messages_of-push_all f ip (msg ∷ rest) caught =
      messages_of-push_all f ip rest (push_reported (reported f msg) msg caught)
      ∙ ap (λ ms. ms ++ reported_under f ip rest)
          (messages_of-push_reported ip (reported f msg) msg caught)
      ∙ append_assoc (messages_of ip caught) _ (reported_under f ip rest)
      ∙ elim (Bool-cases (is_at ip (reported f msg))) [ inl t ↦ rw t refl | inr e ↦ rw e refl ]

  push_reported-IsMap :
      (o : Option String) (msg : Message) (caught : Caught)
      → IsMap caught
      → IsMap (push_reported o msg caught)
  unfolding push_caught
  push_reported-IsMap none msg caught s = s
  push_reported-IsMap (some ip) msg caught s = insert-IsMap ip _ caught s

  push_all-IsMap :
      (f : Filter pcre.Code) (out : List Message) (caught : Caught)
      → IsMap caught
      → IsMap (push_all f out caught)
  push_all-IsMap f [] caught s = s
  push_all-IsMap f (msg ∷ rest) caught s =
      push_all-IsMap f rest _ (push_reported-IsMap (reported f msg) msg caught s)

  module _ (known : (v6 : Bool) (ip : String) → inet_pton v6 ip ≢ bad_domain) where
    deliver-disabled :
        (ip : String) (msg : Message) (m : MessageBuffer) (caught : Caught)
        → m.enable_cache ≡ false
        → (ip == "") ≡ false
        → deliver inet_pton ip msg m caught ≡ (
            let o = if is_valid (inet_pton (has_value (find? ip ":")) ip) then some ip else none in
            ok (relabel o msg, m, push_reported o msg caught))
    unfolding deliver register_message
    deliver-disabled ip msg m caught d e =
        rw e (elim (Pton-cases (inet_pton (has_value (find? ip ":")) ip)) [
          | inl v ↦ rw (v, d) refl
          | inr (inl v) ↦ rw v refl
          | inr (inr v) ↦ absurd (known (has_value (find? ip ":")) ip v)
        ])

    handle-disabled :
        (o : Option (String × ℕ)) (msg : Message) (m : MessageBuffer) (caught : Caught)
        → m.enable_cache ≡ false
        → handle inet_pton (answer pcre msg none o).0 msg m caught
          ≡ ok (relabel (reported_of o) msg, m, push_reported (reported_of o) msg caught)
    unfolding handle
    handle-disabled none msg m caught d = refl
    handle-disabled (some (ip, i)) msg m caught d = elim (Bool-cases (ip == "")) [
      | inl t ↦ rw (t, d) refl
      | inr e ↦ rw e (deliver-disabled ip msg m caught d e)
    ]

    module _ (f : Filter pcre.Code) (groups : All (GroupsSet pcre) f.patterns) where
      forward_from-disabled :
          (out : List Message) (m : MessageBuffer) (caught : Caught)
          → m.enable_cache ≡ false
          → forward_from inet_pton pcre f out m caught
            ≡ ok (map (report f) out, m, push_all f out caught)
      unfolding forward_from forward_one
      forward_from-disabled [] m caught d = refl
      forward_from-disabled (msg ∷ rest) m caught d =
          rw
            (
              check_message-first_match pcre f msg none groups,
              handle-disabled (first_match pcre (address_by pcre msg) 0 f.patterns) msg m caught d,
              forward_from-disabled rest m (push_reported (reported f msg) msg caught) d,
            )
            refl

      -- On a disabled buffer, if inet_pton knows both address families and every group of the filter's
      -- patterns takes part in each match, forward returns. Under each address stand exactly the messages
      -- of `out`, in order and with that address, for which the first pattern that matches finds it;
      -- the rest of the buffer is as it was, but for the addresses of the messages in `out`.
      pub forward-disabled :
          (m : MessageBuffer)
          → m.enable_cache ≡ false
          → (caught : Caught) × (forward inet_pton pcre f m
              ≡ ok (record m { out = map (report f) m.out }, caught))
            × IsMap caught
            × ((ip : String) → messages_of ip caught ≡ reported_under f ip m.out)
      unfolding forward lookup
      forward-disabled m d = (
        push_all f m.out [],
        rw (forward_from-disabled m.out m [] d) refl,
        push_all-IsMap f m.out [] tt,
        λ ip. messages_of-push_all f ip m.out [],
      )

load_one-disabled :
    (msg : Message) (m : MessageBuffer) → m.enable_cache ≡ false → load_one msg m ≡ push_out msg m
unfolding load_one try_load_ip register_and_free
load_one-disabled msg m d = elim (Bool-cases (msg.ip == "")) [
  | inl t ↦ rw (t, d) refl
  | inr f ↦ rw (f, d) refl
]

-- `load` only appends, where the buffer is disabled.
pub load-disabled :
    (messages : List Message) (m : MessageBuffer)
    → m.enable_cache ≡ false
    → load messages m ≡ record m { out = m.out ++ messages }
unfolding load
load-disabled [] m d = ap (λ out. record m { out = out }) (sym (append-nil m.out))
load-disabled (msg ∷ rest) m d =
    ap (load rest) (load_one-disabled msg m d)
    ∙ load-disabled rest (push_out msg m) d
    ∙ ap (λ out. record m { out = out }) (append_assoc m.out (msg ∷ []) rest)
