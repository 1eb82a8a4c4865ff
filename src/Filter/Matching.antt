-- ===== src/Filter/Matching.antt =====
-- src/dnf2b/filters/Filter.cpp: checkMessage returns, and finds the first pattern that matches.
use Prim.Native.String.{len, slice}
use doesnotfail2ban.Prelude.{
  ℕ, zero, suc, ◌+◌, ◌≤◌, String, ◌≡◌, refl, ap, true, false, Option, none, some, List, [], ◌∷◌,
  arith, if◌then◌else◌, ◌==◌, value_or, length, get_elem?, ltb, leb, All, Bool-cases, Option-cases,
  inl, inr, ◌-◌, ◌%◌,
}
use doesnotfail2ban.Prelude.Results.{ok, Returns}
use doesnotfail2ban.Structs.{Message}
use doesnotfail2ban.Pcre.{
  Pcre, Pattern, PcreMatcher, matcher, advance, next, get, get_group, substr, size_mod,
}
use doesnotfail2ban.Filter.{
  Filter, MatchResult, match_result, match_ip, check_from, check_message, drop, ip_of_match,
}

module _ (pcre : Pcre) where
  -- Each group that pcre2 reports of a match of the pattern takes part in it: no pair of the output
  -- vector is unset.
  abbrev pub GroupsSet : Pattern pcre.Code → Type 0
  GroupsSet p =
      (text : String) → All (λ (q : ℕ × ℕ). q.0 ≤ len text) (value_or (pcre.exec p.code text 0) [])

  get_elem?-All :
      (n i : ℕ) (pairs : List (ℕ × ℕ)) (q : ℕ × ℕ)
      → All (λ (q : ℕ × ℕ). q.0 ≤ n) pairs
      → get_elem? pairs i ≡ some q
      → q.0 ≤ n
  get_elem?-All n i [] q h e = cc
  get_elem?-All n zero (p ∷ pairs) q h e = ground arith
  get_elem?-All n (suc i) (p ∷ pairs) q h e = get_elem?-All n i pairs q h.1 e

  substr_lem :
      (s : String) (start count : ℕ)
      → start ≤ len s
      → substr s start count ≡ ok (slice s start (start + count))
  unfolding substr
  substr_lem s start count h = elim (Bool-cases (ltb (len s) start)) [
    | inl t ↦ absurd (ground arith)
    | inr f ↦ rw f refl
  ]

  -- The characters of a group, from its pair of the output vector.
  abbrev cut : String → Option (ℕ × ℕ) → Option String
  cut text none = none
  cut text (some (start, end)) =
      some (slice text start (start + (end + size_mod - start) % size_mod))

  -- The group IP of a match, if the pattern has one and the match has groups at all.
  abbrev ip_group : pcre.Code → String → List (ℕ × ℕ) → Option String
  ip_group code text pairs =
      if leb (length pairs) 1 then none else elim (pcre.number_from_name code "IP") [
        | none ↦ none
        | some i ↦ cut text (get_elem? pairs i)
      ]

  abbrev address_of : Message → pcre.Code → Option (List (ℕ × ℕ)) → Option String
  address_of message code none = none
  address_of message code (some pairs) =
      some (value_or (ip_group code message.message pairs) message.ip)

  -- What a pattern says of a message, `none` where pcre2 finds no match: the text of the group IP, or
  -- without that group the address that the message has.
  abbrev pub address_by : Message → Pattern pcre.Code → Option String
  address_by message p = address_of message p.code (pcre.exec p.code message.message 0)

  abbrev matched : pcre.Code → String → List (ℕ × ℕ) → PcreMatcher pcre
  matched code text pairs = record { input = text; pattern = code; ovector = some pairs }

  get_group_lem :
      (code : pcre.Code) (text : String) (pairs : List (ℕ × ℕ)) (i : ℕ)
      → All (λ (q : ℕ × ℕ). q.0 ≤ len text) pairs
      → get_group pcre (matched code text pairs) i ≡ ok (cut text (get_elem? pairs i))
  unfolding get_group
  get_group_lem code text pairs i h = elim (Option-cases (get_elem? pairs i)) [
    | inl e ↦ rw e refl
    | inr (q, e) ↦
        rw
          (
            e,
            substr_lem text q.0 ((q.1 + size_mod - q.0) % size_mod)
                (get_elem?-All (len text) i pairs q h e),
          )
          refl
  ]

  get_lem :
      (code : pcre.Code) (text : String) (pairs : List (ℕ × ℕ))
      → All (λ (q : ℕ × ℕ). q.0 ≤ len text) pairs
      → get pcre (matched code text pairs) "IP" ≡ ok (ip_group code text pairs)
  unfolding get
  get_lem code text pairs h = elim (Bool-cases (leb (length pairs) 1)) [
    | inl t ↦ rw t refl
    | inr f ↦ rw f (elim (Option-cases (pcre.number_from_name code "IP")) [
      | inl e ↦ rw e refl
      | inr (i, e) ↦ rw e (get_group_lem code text pairs i h)
    ])
  ]

  next-some :
      (code : pcre.Code) (text : String) (pairs : List (ℕ × ℕ))
      → pcre.exec code text 0 ≡ some pairs
      → next pcre (matcher pcre code text) ≡ (true, matched code text pairs)
  unfolding next matcher
  next-some code text pairs e = ap (advance pcre (matcher pcre code text)) e

  next-none :
      (code : pcre.Code) (text : String)
      → pcre.exec code text 0 ≡ none
      → next pcre (matcher pcre code text) ≡ (false, matcher pcre code text)
  unfolding next matcher
  next-none code text e = ap (advance pcre (matcher pcre code text)) e

  match_ip_lem :
      (p : Pattern pcre.Code) (message : Message)
      → GroupsSet p
      → match_ip pcre p message ≡ ok (address_by message p)
  unfolding match_ip ip_of_match
  match_ip_lem p message g = elim (Option-cases (pcre.exec p.code message.message 0)) [
    | inl e ↦ rw (next-none p.code message.message e, e) refl
    | inr (pairs, e) ↦
        rw
          (
            next-some p.code message.message pairs e,
            e,
            get_lem p.code message.message pairs (rw e at (g message.message)),
          )
          refl
  ]

  drop-All : (n : ℕ) (ps : List (Pattern pcre.Code)) → All GroupsSet ps → All GroupsSet (drop n ps)
  drop-All zero ps h = h
  drop-All (suc n) [] h = tt
  drop-All (suc n) (p ∷ ps) h = drop-All n ps h.1

  abbrev pub or_later : Option String → ℕ → Option (String × ℕ) → Option (String × ℕ)
  or_later none i rest = rest
  or_later (some ip) i rest = some (ip, i)

  -- The first of the patterns, counted from `i`, at which a message is found to have an address or to
  -- lack one.
  abbrev pub first_match :
      (Pattern pcre.Code → Option String) → ℕ → List (Pattern pcre.Code) → Option (String × ℕ)
  first_match ips i [] = none
  first_match ips i (p ∷ ps) = or_later (ips p) i (first_match ips (i + 1) ps)

  -- What checkMessage answers, and what it leaves in *matchIdx.
  abbrev pub answer : Message → Option ℕ → Option (String × ℕ) → Option MatchResult × Option ℕ
  answer message match_idx none = (none, match_idx)
  answer message match_idx (some (ip, i)) =
      if ip == ""
      then (some (record { ip = ""; group_id = message.process; error = true }), match_idx)
      else (
        some (record { ip = ip; group_id = ""; error = false }),
        elim match_idx [ none ↦ none | some j ↦ some i ],
      )

  check_from-first_match :
      (message : Message) (i : ℕ) (ps : List (Pattern pcre.Code)) (match_idx : Option ℕ)
      → All GroupsSet ps
      → check_from pcre i ps message match_idx
        ≡ ok (answer message match_idx (first_match (address_by message) i ps))
  unfolding check_from match_result
  check_from-first_match message i [] match_idx g = refl
  check_from-first_match message i (p ∷ ps) match_idx g =
      rw (match_ip_lem p message g.0) (elim (Option-cases (address_by message p)) [
        | inl none_matches ↦
            rw none_matches (check_from-first_match message (i + 1) ps match_idx g.1)
        | inr (ip, matches) ↦ rw matches refl
      ])

  pub check_message-Returns :
      (f : Filter pcre.Code) (message : Message) (match_idx : Option ℕ)
      → All GroupsSet f.patterns
      → Returns (check_message pcre f message match_idx)
  unfolding check_message
  check_message-Returns f message match_idx g = (
    _,
    check_from-first_match message (value_or match_idx 0) _ match_idx
        (drop-All (value_or match_idx 0) f.patterns g),
  )

  -- If every group of a filter's patterns takes part in each match, checkMessage returns. It answers for
  -- the first pattern, from *matchIdx on or from the first one without it, that matches. The address there
  -- is the text of the group IP in the match, or the message's own where there is no such group. With an
  -- address, it answers that one and no error, and *matchIdx, if given, becomes the index of that
  -- pattern; with a blank one, it answers an error for the message's process, and leaves *matchIdx. It
  -- answers nothing, and leaves *matchIdx, if no pattern matches.
  pub check_message-first_match :
      (f : Filter pcre.Code) (message : Message) (match_idx : Option ℕ)
      → All GroupsSet f.patterns
      → check_message pcre f message match_idx
        ≡ ok (
            answer message match_idx (
              first_match
                (address_by message)
                (value_or match_idx 0)
                (drop (value_or match_idx 0) f.patterns)))
  unfolding check_message
  check_message-first_match f message match_idx g =
      check_from-first_match message (value_or match_idx 0) _ match_idx
        (drop-All (value_or match_idx 0) f.patterns g)
