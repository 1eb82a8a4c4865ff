-- ===== src/MessageBuffer/Caught.antt =====
-- src/dnf2b/data/MessageBuffer.cpp: what `forward` may catch.
use doesnotfail2ban.Prelude.{
  ◌<◌, String, ◌==◌, ◌≡◌, refl, Bool, false, Option, none, some, List, [], ◌∷◌, ◌++◌, arith,
  has_value, value_or, Bool-cases, Option-cases, inl, inr, length, All, All-append, length-append,
  ◌⊎◌, ◌≢◌,
}
use doesnotfail2ban.Prelude.Maps.{lookup, AllEntries, AllEntries-insert, AllEntries-lookup}
use doesnotfail2ban.Prelude.Results.{
  ok, Ensures, >>=-Ensures, >>=-Ensures_any, Returns, Ensures-Returns, >>=-Returns,
}
use doesnotfail2ban.Structs.{Message}
use doesnotfail2ban.Pcre.{Pcre}
use doesnotfail2ban.Filter.{Filter, MatchResult, check_message}
use doesnotfail2ban.MessageBuffer.{
  MessageBuffer, Pton, valid, invalid, bad_domain, Caught, push_caught, deliver, handle,
  forward_one, forward_from, forward, with_ip,
}
use doesnotfail2ban.Filter.Matching.{GroupsSet, check_message-Returns}
use text.Mathlib.Text.{find?}

pub Pton-cases : (p : Pton) → (p ≡ valid) ⊎ (p ≡ invalid) ⊎ (p ≡ bad_domain)
Pton-cases p = ground arith

module _ (inet_pton : Bool → String → Pton) where
  abbrev pub IsAddress : String → Type 0
  IsAddress ip = ((ip == "") ≡ false) × (inet_pton (has_value (find? ip ":")) ip ≡ valid)

  -- Under an address stand messages, at least one, that carry that address.
  abbrev pub IsCaughtAt : String → List Message → Type 0
  IsCaughtAt ip messages =
      ((ip == "") ≡ false)
      × (inet_pton (has_value (find? ip ":")) ip ≡ valid)
      × (0 < length messages)
      × All (λ (msg : Message). msg.ip ≡ ip) messages

  old-All :
      (ip : String) (caught : Caught)
      → AllEntries IsCaughtAt caught
      → All (λ (msg : Message). msg.ip ≡ ip) (value_or (lookup ip caught) [])
  old-All ip caught h = elim (Option-cases (lookup ip caught)) [
    | inl e ↦ rw e tt
    | inr (ms, e) ↦ rw e (AllEntries-lookup IsCaughtAt ip ms caught h e).3
  ]

  push_caught-AllEntries :
      (msg : Message) (caught : Caught)
      → IsAddress msg.ip
      → AllEntries IsCaughtAt caught
      → AllEntries IsCaughtAt (push_caught msg caught)
  unfolding push_caught
  push_caught-AllEntries msg caught a h =
      let old = value_or (lookup msg.ip caught) [] in
      AllEntries-insert IsCaughtAt msg.ip (old ++ msg ∷ []) caught
        (
          a.0,
          a.1,
          omega (arith, length-append old (msg ∷ [])),
          All-append _ old (msg ∷ []) (old-All msg.ip caught h) (refl, tt),
        )
        h

  abbrev IsCaughtResult : Message × MessageBuffer × Caught → Type 0
  IsCaughtResult r = AllEntries IsCaughtAt r.2

  deliver-caught :
      (ip : String) (msg : Message) (m : MessageBuffer) (caught : Caught)
      → AllEntries IsCaughtAt caught
      → Ensures IsCaughtResult (deliver inet_pton ip msg m caught)
  unfolding deliver
  deliver-caught ip msg m caught h = elim (Bool-cases (ip == "")) [
    | inl t ↦ rw t h
    | inr f ↦ rw f (elim (Pton-cases (inet_pton (has_value (find? ip ":")) ip)) [
      | inl v ↦ rw v (push_caught-AllEntries (with_ip ip msg) caught (f, v) h)
      | inr (inl v) ↦ rw v h
      | inr (inr v) ↦ rw v tt
    ])
  ]

  handle-caught :
      (res : Option MatchResult) (msg : Message) (m : MessageBuffer) (caught : Caught)
      → AllEntries IsCaughtAt caught
      → Ensures IsCaughtResult (handle inet_pton res msg m caught)
  unfolding handle
  handle-caught none msg m caught h = h
  handle-caught (some res) msg m caught h = elim (Bool-cases res.error) [
    | inl e ↦ rw e (elim (Bool-cases m.enable_cache) [
      | inl c ↦ rw c (elim (Option-cases (lookup msg.process m.buff)) [
        | inl l ↦ rw l h
        | inr (b, l) ↦ rw l (deliver-caught b.ip msg m caught h)
      ])
      | inr c ↦ rw c h
    ])
    | inr e ↦ rw e (deliver-caught res.ip msg m caught h)
  ]

  module _ (pcre : Pcre) (f : Filter pcre.Code) where
    forward_one-caught :
        (msg : Message) (m : MessageBuffer) (caught : Caught)
        → AllEntries IsCaughtAt caught
        → Ensures IsCaughtResult (forward_one inet_pton pcre f msg m caught)
    unfolding forward_one
    forward_one-caught msg m caught h =
        >>=-Ensures_any IsCaughtResult (check_message pcre f msg none) _
          (λ res. handle-caught res.0 msg m caught h)

    abbrev IsCaughtPass : List Message × MessageBuffer × Caught → Type 0
    IsCaughtPass r = AllEntries IsCaughtAt r.2

    forward_from-caught :
        (out : List Message) (m : MessageBuffer) (caught : Caught)
        → AllEntries IsCaughtAt caught
        → Ensures IsCaughtPass (forward_from inet_pton pcre f out m caught)
    unfolding forward_from
    forward_from-caught [] m caught h = h
    forward_from-caught (msg ∷ rest) m caught h =
        >>=-Ensures IsCaughtResult IsCaughtPass (forward_one inet_pton pcre f msg m caught) _
          (forward_one-caught msg m caught h)
          (λ r k.
            >>=-Ensures IsCaughtPass IsCaughtPass (forward_from inet_pton pcre f rest r.1 r.2) _
              (forward_from-caught rest r.1 r.2 k) (λ q l. l))

    abbrev IsCaughtForward : MessageBuffer × Caught → Type 0
    IsCaughtForward r = AllEntries IsCaughtAt r.1

    forward-Ensures : (m : MessageBuffer) → Ensures IsCaughtForward (forward inet_pton pcre f m)
    unfolding forward
    forward-Ensures m =
        >>=-Ensures IsCaughtPass IsCaughtForward (forward_from inet_pton pcre f m.out m []) _
          (forward_from-caught m.out m [] tt) (λ q l. l)

    module _ (known : (v6 : Bool) (ip : String) → inet_pton v6 ip ≢ bad_domain)
        (groups : All (GroupsSet pcre) f.patterns) where
      deliver-Returns :
          (ip : String) (msg : Message) (m : MessageBuffer) (caught : Caught)
          → Returns (deliver inet_pton ip msg m caught)
      unfolding deliver
      deliver-Returns ip msg m caught = elim (Bool-cases (ip == "")) [
        | inl t ↦ rw t (_, refl)
        | inr e ↦ rw e (elim (Pton-cases (inet_pton (has_value (find? ip ":")) ip)) [
          | inl v ↦ rw v (_, refl)
          | inr (inl v) ↦ rw v (_, refl)
          | inr (inr v) ↦ absurd (known (has_value (find? ip ":")) ip v)
        ])
      ]

      handle-Returns :
          (res : Option MatchResult) (msg : Message) (m : MessageBuffer) (caught : Caught)
          → Returns (handle inet_pton res msg m caught)
      unfolding handle
      handle-Returns none msg m caught = (_, refl)
      handle-Returns (some res) msg m caught = elim (Bool-cases res.error) [
        | inl e ↦ rw e (elim (Bool-cases m.enable_cache) [
          | inl c ↦ rw c (elim (Option-cases (lookup msg.process m.buff)) [
            | inl l ↦ rw l (_, refl)
            | inr (b, l) ↦ rw l (deliver-Returns b.ip msg m caught)
          ])
          | inr c ↦ rw c (_, refl)
        ])
        | inr e ↦ rw e (deliver-Returns res.ip msg m caught)
      ]

      forward_from-Returns :
          (out : List Message) (m : MessageBuffer) (caught : Caught)
          → Returns (forward_from inet_pton pcre f out m caught)
      unfolding forward_from forward_one
      forward_from-Returns [] m caught = (_, refl)
      forward_from-Returns (msg ∷ rest) m caught =
          >>=-Returns (forward_one inet_pton pcre f msg m caught) _
            (>>=-Returns (check_message pcre f msg none) _
              (check_message-Returns pcre f msg none groups)
              (λ res. handle-Returns res.0 msg m caught))
            (λ r.
              >>=-Returns (forward_from inet_pton pcre f rest r.1 r.2) _
                (forward_from-Returns rest r.1 r.2) (λ q. (_, refl)))

      -- If inet_pton knows both address families and every group of the filter's patterns takes part in
      -- each match, forward returns. An address that it reports is not empty, is one that inet_pton
      -- accepts for the family that its colons show, and has at least one message, each with that
      -- address.
      pub forward-caught :
          (m : MessageBuffer)
          → (r : MessageBuffer × Caught) × (forward inet_pton pcre f m ≡ ok r)
            × AllEntries IsCaughtAt r.1
      unfolding forward
      forward-caught m =
          Ensures-Returns IsCaughtForward (forward inet_pton pcre f m) (forward-Ensures m) (
            >>=-Returns (forward_from inet_pton pcre f m.out m []) _
              (forward_from-Returns m.out m []) (λ q. (_, refl)))
