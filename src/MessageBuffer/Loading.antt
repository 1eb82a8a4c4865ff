-- ===== src/MessageBuffer/Loading.antt =====
-- src/dnf2b/data/MessageBuffer.cpp: `load` neither loses a message nor makes one up, and what it does
-- when the buffer is disabled.
use doesnotfail2ban.Prelude.{
  ℕ, ◌+◌, String, ◌==◌, ◌≡◌, refl, Bool, none, some, List, [], ◌∷◌, ◌++◌, arith, if◌then◌else◌, map,
  eq_iff, Bool-cases, Option-cases, inl, inr,
}
use doesnotfail2ban.Prelude.Maps.{Map, lookup, insert, erase, IsMap, erase-IsMap, lookup-Above}
use doesnotfail2ban.Structs.{Message}
use doesnotfail2ban.MessageBuffer.{
  MessageHold, MessageBuffer, load, load_one, free_held, register_and_free, register_message,
  try_load_ip, with_ip, push_out,
}

-- How many of the messages pass a test.
abbrev pub count : (Message → Bool) → List Message → ℕ
count p [] = 0
count p (msg ∷ msgs) = (if p msg then 1 else 0) + count p msgs

abbrev pub count_held : (Message → Bool) → Map MessageHold → ℕ
count_held p [] = 0
count_held p ((k, h) ∷ m) = count p h.msg + count_held p m

-- How many of the messages of the buffer do, in `out` or held.
abbrev pub count_all : (Message → Bool) → MessageBuffer → ℕ
count_all p m = count p m.out + count_held p m.hold

count-append :
    (p : Message → Bool) (xs ys : List Message) → count p (xs ++ ys) ≡ count p xs + count p ys
count-append p [] ys = omega arith
count-append p (x ∷ xs) ys = ground (arith, count-append p xs ys)

module _ (p : Message → Bool)
    (blind : (ip : String) (msg : Message) → p (with_ip ip msg) ≡ p msg) where
  count-with_ip : (ip : String) (xs : List Message) → count p (map (with_ip ip) xs) ≡ count p xs
  count-with_ip ip [] = refl
  count-with_ip ip (x ∷ xs) = ground (arith, count-with_ip ip xs, blind ip x)

  erase_above :
      (k : String) (m : Map MessageHold)
      → lookup k m ≡ none
      → count_held p (erase k m) ≡ count_held p m
  unfolding lookup erase
  erase_above k [] e = refl
  erase_above k ((j, h) ∷ m) e = ground (arith, erase_above k m)

  count_held-erase :
      (k : String) (h : MessageHold) (m : Map MessageHold)
      → IsMap m
      → lookup k m ≡ some h
      → count_held p (erase k m) + count p h.msg ≡ count_held p m
  unfolding lookup erase
  count_held-erase k h [] s e = cc
  count_held-erase k h ((j, g) ∷ m) s e =
      ground (arith, count_held-erase k h m s.1, lookup-Above j m s.0, eq_iff j k, erase_above k m)

  abbrev Keeps : ℕ → MessageBuffer → MessageBuffer → Type 0
  Keeps n m m' = (count_all p m' ≡ count_all p m + n) × IsMap m'.hold

  free_held-Keeps :
      (msg : Message) (m : MessageBuffer)
      → IsMap m.hold
      → Keeps 0 m (free_held msg (lookup msg.process m.hold) m)
  unfolding free_held
  free_held-Keeps msg m s = elim (Option-cases (lookup msg.process m.hold)) [
    | inl e ↦ rw e (omega arith, s)
    | inr (h, e) ↦ rw e (
      omega (
        arith,
        count-append p m.out (map (with_ip msg.ip) h.msg),
        count-with_ip msg.ip h.msg,
        count_held-erase msg.process h m.hold s e,
      ),
      erase-IsMap msg.process m.hold s,
    )
  ]

  try_load_ip-blind : (msg : Message) (m : MessageBuffer) → p (try_load_ip msg m) ≡ p msg
  unfolding try_load_ip
  try_load_ip-blind msg m = elim (Bool-cases m.enable_cache) [
    | inr f ↦ rw f refl
    | inl t ↦ rw t (elim (Option-cases (lookup msg.process m.buff)) [
      | inl e ↦ rw e refl
      | inr (b, e) ↦ rw e (blind b.ip msg)
    ])
  ]

  register_and_free-Keeps :
      (msg : Message) (m : MessageBuffer) → IsMap m.hold → Keeps 0 m (register_and_free msg m)
  unfolding register_and_free register_message
  register_and_free-Keeps msg m s = ground (
    arith,
    free_held-Keeps msg
        (record m { buff = insert msg.process (record { ip = msg.ip; passed_cycles = 0 }) m.buff })
        s,
  )

  push_out-Keeps :
      (msg : Message) (m : MessageBuffer)
      → IsMap m.hold
      → Keeps (if p msg then 1 else 0) m (push_out msg m)
  push_out-Keeps msg m s = (omega (arith, count-append p m.out (msg ∷ [])), s)

  load_one-Keeps :
      (msg : Message) (m : MessageBuffer)
      → IsMap m.hold
      → Keeps (if p msg then 1 else 0) m (load_one msg m)
  unfolding load_one
  load_one-Keeps msg m s =
      let k = register_and_free-Keeps msg m s in
      let q = push_out-Keeps msg (register_and_free msg m) k.1 in
      elim (Bool-cases (msg.ip == "")) [
        | inl t ↦ rw t (rw (try_load_ip-blind msg m) at (push_out-Keeps (try_load_ip msg m) m s))
        | inr f ↦ rw f (omega (arith, k.0, q.0), q.1)
      ]

  -- `load` loses no message and makes none up. For a test of messages that does not see their address,
  -- on a buffer whose map of held messages is in order: the messages in `out` and the held ones that
  -- pass are, after it, as many as they were and those loaded that pass.
  pub load-keeps :
      (messages : List Message) (m : MessageBuffer)
      → IsMap m.hold
      → (count_all p (load messages m) ≡ count_all p m + count p messages)
        × IsMap (load messages m).hold
  unfolding load
  load-keeps [] m s = (omega arith, s)
  load-keeps (msg ∷ rest) m s =
      let k = load_one-Keeps msg m s in
      let r = load-keeps rest (load_one msg m) k.1 in (omega (arith, k.0, r.0), r.1)
