-- ===== src/Parsers/Lines.antt =====
-- src/dnf2b/sources/FileParser.cpp: polls of a file that grows, and of one that was cut.
use Prim.Native.Char.{Char, code, len_utf8}
use Prim.Native.String.{String, len, slice}
use Prim.Native.String
use Prim.Native.String.slice as slice_clauses
use doesnotfail2ban.Prelude.{
  ℕ, zero, suc, ◌-◌, ◌≤◌, ◌≡◌, refl, ap, ◌∙◌, sym, Bool, true, false, Option, none, some, List, [],
  ◌∷◌, ◌++◌, eqb, arith, if◌then◌else◌, Bool-cases, inl, inr,
}
use doesnotfail2ban.Prelude.Results.{Result, ok, throw, ◌>>=◌}
use doesnotfail2ban.Structs.{Message}
use doesnotfail2ban.Parsers.Files.{newline, lines, push_message, parse_lines, poll}
use text.Mathlib.TextPositions.{len-append, slice-zero-zero, slice_all, slice-append_right}
use text.Mathlib.TextLemmas.{nil-append, cons-append}

elim-if {ℓ} :
    {A : Type ℓ} (b : Bool) (x y : A) → elim b [ true ↦ x | false ↦ y ] ≡ (if b then x else y)
elim-if true x y = refl
elim-if false x y = refl

lines-cons :
    (line : String) (c : Char) (rest : String)
    → lines line (String.◌∷◌ c rest) ≡ (
        if eqb (code c) 10
        then line ∷ lines "" rest
        else lines (String.◌++◌ line (String.◌∷◌ c String.[])) rest)
unfolding lines
lines-cons line c rest =
    elim-if (eqb (code c) 10) (line ∷ lines "" rest)
      (lines (String.◌++◌ line (String.◌∷◌ c String.[])) rest)

-- The lines of a text that ends a line, with more behind it.
lines-append :
    (line a b : String)
    → lines line (String.◌++◌ (String.◌++◌ a newline) b)
      ≡ lines line (String.◌++◌ a newline) ++ lines "" b
lines-append line String.[] b =
    unfold lines in
    ap (λ t. lines line t)
      (cons-append "\n" String.[] b ∙ ap (λ t. String.◌∷◌ "\n" t) (nil-append b))
lines-append line (String.◌∷◌ c a) b =
    rw
      (
        cons-append c a newline,
        cons-append c (String.◌++◌ a newline) b,
        lines-cons line c (String.◌++◌ (String.◌++◌ a newline) b),
        lines-cons line c (String.◌++◌ a newline),
      )
      (elim (Bool-cases (eqb (code c) 10)) [
        | inl t ↦ rw t (ap (λ ls. line ∷ ls) (lines-append "" a b))
        | inr f ↦ rw f (lines-append (String.◌++◌ line (String.◌∷◌ c String.[])) a b)
      ])

le-zero : (b : ℕ) → b ≤ 0 → b ≡ 0
le-zero b h = omega arith

slice_past : (s : String) (a b : ℕ) → b ≤ a → slice s a b ≡ ""
slice_past String.[] a b h = slice_clauses.nil a b
slice_past (String.◌∷◌ c s) zero b h =
    ap (λ n. slice (String.◌∷◌ c s) zero n) (le-zero b h) ∙ slice-zero-zero (String.◌∷◌ c s)
slice_past (String.◌∷◌ c s) (suc a) b h =
    slice_clauses.cons-suc c s a b
    ∙ slice_past s (suc a - len_utf8 c) (b - len_utf8 c) (omega arith)

push_message-append :
    (m : Option Message) (xs ys : List Message)
    → push_message m (xs ++ ys) ≡ push_message m xs ++ ys
push_message-append none xs ys = refl
push_message-append (some x) xs ys = refl

abbrev both : Result (List Message) → Result (List Message) → Result (List Message)
both r s = r >>= λ ms. s >>= λ ms'. ok (ms ++ ms')

push_both :
    (m : Option Message) (r s : Result (List Message))
    → (both r s >>= λ ms. ok (push_message m ms)) ≡ both (r >>= λ ms. ok (push_message m ms)) s
push_both m (throw e) s = refl
push_both m (ok xs) (throw e) = refl
push_both m (ok xs) (ok ys) = ap (λ ms. ok ms) (push_message-append m xs ys)

both_nil : (r : Result (List Message)) → both (ok []) r ≡ r
both_nil (ok ms) = refl
both_nil (throw e) = refl

module _ (parse : String → Result (Option Message)) where
  first_line :
      (r : Result (Option Message)) (rest all more : Result (List Message))
      → all ≡ both rest more
      → (r >>= λ m. all >>= λ ms. ok (push_message m ms))
        ≡ both (r >>= λ m. rest >>= λ ms. ok (push_message m ms)) more
  first_line (throw e) rest all more h = refl
  first_line (ok m) rest all more h = rw h (push_both m rest more)

  parse_lines-append :
      (xs ys : List String)
      → parse_lines parse (xs ++ ys) ≡ both (parse_lines parse xs) (parse_lines parse ys)
  unfolding parse_lines
  parse_lines-append [] ys = sym (both_nil (parse_lines parse ys))
  parse_lines-append (x ∷ xs) ys =
      first_line (parse x) (parse_lines parse xs) (parse_lines parse (xs ++ ys))
        (parse_lines parse ys) (parse_lines-append xs ys)

  -- The messages of two polls, and the position that the second one leaves.
  abbrev pub joined :
      Result (List Message × ℕ) → (ℕ → Result (List Message × ℕ)) → Result (List Message × ℕ)
  joined (throw e) after = throw e
  joined (ok (messages, last)) after = elim (after last) [
    | throw e ↦ throw e
    | ok (messages', last') ↦ ok (messages ++ messages', last')
  ]

  abbrev at : ℕ → Result (List Message) → Result (List Message × ℕ)
  at n (throw e) = throw e
  at n (ok ms) = ok (ms, n)

  bind_at : (n : ℕ) (r : Result (List Message)) → (r >>= λ ms. ok (ms, n)) ≡ at n r
  bind_at n (throw e) = refl
  bind_at n (ok ms) = refl

  joined-at :
      (m n : ℕ) (r s : Result (List Message)) (after : ℕ → Result (List Message × ℕ))
      → after m ≡ at n s
      → joined (at m r) after ≡ at n (both r s)
  joined-at m n (throw e) s after h = refl
  joined-at m n (ok xs) (throw e) after h = rw h refl
  joined-at m n (ok xs) (ok ys) after h = rw h refl

  poll-at :
      (content : String) (last : ℕ)
      → poll parse (some content) last
        ≡ at (len content) (parse_lines parse (lines "" (slice content last (len content))))
  unfolding poll
  poll-at content last =
      bind_at (len content) (parse_lines parse (lines "" (slice content last (len content))))

  -- A log that grows is read once. Where a file's text ends a line at the first poll, and has more text
  -- behind it at the second, the two polls give together what one poll of the whole file gives: the same
  -- messages in their order and the same position, or an exception if and only if that one throws.
  pub poll_append :
      (a b : String)
      → joined
          (poll parse (some (String.◌++◌ a newline)) 0)
          (poll parse (some (String.◌++◌ (String.◌++◌ a newline) b)))
        ≡ poll parse (some (String.◌++◌ (String.◌++◌ a newline) b)) 0
  poll_append a b =
      let before : String = String.◌++◌ a newline in
      let whole : String = String.◌++◌ before b in
      let rest : slice whole (len before) (len whole) ≡ b =
        ap (λ n. slice whole (len before) n) (len-append before b) ∙ slice-append_right before b in
      rw (poll-at before 0, poll-at whole 0, slice_all before, slice_all whole)
        (joined-at (len before) (len whole) (parse_lines parse (lines "" before))
            (parse_lines parse (lines "" b)) (poll parse (some whole))
            (poll-at whole (len before)
              ∙ ap (λ t. at (len whole) (parse_lines parse (lines "" t))) rest)
          ∙ ap (at (len whole)) (
              sym (
                ap (parse_lines parse) (lines-append "" a b)
                ∙ parse_lines-append (lines "" before) (lines "" b))))

  -- A log that was cut to at most the length it had at the last poll is not read from its start: the poll
  -- gives no message and goes to the new end.
  pub poll_cut :
      (content : String) (last : ℕ)
      → len content ≤ last
      → poll parse (some content) last ≡ ok ([], len content)
  poll_cut content last h =
      poll-at content last
      ∙ rw (slice_past content last (len content) h) (unfold parse_lines lines in refl)
