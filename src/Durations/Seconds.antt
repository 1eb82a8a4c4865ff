-- ===== src/Durations/Seconds.antt =====
-- src/dnf2b/util/Parsing.cpp: which number of seconds parseConfigToSeconds returns.
use Prim.Native.String.{len, slice}
use doesnotfail2ban.Prelude.{
  ℕ, ◌+◌, ◌*◌, ◌<◌, ◌≤◌, String, ◌==◌, ◌≡◌, ap, true, false, Option, none, some, arith,
  if◌then◌else◌, leb,
}
use doesnotfail2ban.Prelude.Int.{ℤ, pos, negsuc, leb_ℤ, wrap64_of_fits, two63, pos-*ℤ-pos}
use doesnotfail2ban.Prelude.Results.{Result, ok, throw, runtime_error}
use doesnotfail2ban.Durations.{
  text, days, seconds_in, parse_days, parse_unit, parse_qualified, parse_config_to_seconds,
}

-- The units, in seconds: a day, a week, and a month of the average length.
abbrev pub unit_seconds : String → Option ℕ
unit_seconds unit =
    if unit == "d"
    then some 86400
    else if unit == "w"
    then some 604800
    else if unit == "m"
    then some 2629746
    else none

-- No number up to this overflows, whatever the unit.
abbrev pub greatest_count : ℕ
greatest_count = 3507324295523

abbrev pub in_unit : ℕ → Option ℕ → Result ℤ
in_unit n none = throw (runtime_error "Configuration error")
in_unit n (some unit) = ok (pos (n * unit))

seconds_in_lem : (n unit : ℕ) → n * unit < two63 → seconds_in unit (pos n) ≡ pos (n * unit)
seconds_in_lem n unit h = rw (pos-*ℤ-pos n unit) (wrap64_of_fits (n * unit) h)

parse_unit_lem :
    (unit : String) (n : ℕ)
    → n ≤ greatest_count
    → parse_unit unit (pos n) ≡ in_unit n (unit_seconds unit)
unfolding parse_unit
parse_unit_lem unit n h =
    rw
      (
        seconds_in_lem n 86400 (omega arith),
        seconds_in_lem n 604800 (omega arith),
        seconds_in_lem n 2629746 (omega arith),
      )
      (ground arith)

pub parse_days_lem : (n : ℕ) → 0 < n → n ≤ greatest_count → parse_days (pos n) ≡ pos (n * 86400)
unfolding parse_days
parse_days_lem n h k = rw (seconds_in_lem n 86400 (omega arith)) (ground arith)

module _ (stoll : String → Result (ℤ × ℕ)) where
  -- For a text in which std::stoll reads a number from 1 to 3507324295523, parseConfigToSeconds returns
  -- the number times the seconds of its unit, which is the character behind the number, d, w or m, and
  -- days if there is none; for any other character it throws. It wraps nowhere, and does the same for an
  -- integer setting as for one with no unit.
  pub parse_config_to_seconds_unit :
      (str : String) (n position : ℕ)
      → (str == "-1") ≡ false
      → stoll str ≡ ok (pos n, position)
      → 0 < n
      → n ≤ greatest_count
      → (parse_config_to_seconds stoll (text str) ≡ (
          if leb (len str) position
          then ok (pos (n * 86400))
          else in_unit n (unit_seconds (slice str position (position + 1)))))
        × (parse_config_to_seconds stoll (days (pos n)) ≡ ok (pos (n * 86400)))
  unfolding parse_config_to_seconds
  parse_config_to_seconds_unit str n position e s h k = (
    rw (e, s)
        (unfold parse_qualified in
          ground
            (arith, parse_days_lem n h k, parse_unit_lem (slice str position (position + 1)) n k)),
    ap (λ r. ok r) (parse_days_lem n h k),
  )

  -- A text in which std::stoll reads a number up to 0, and an integer setting up to 0, stand for -1, the
  -- period without end; the text is read so whatever stands behind the number.
  pub parse_config_to_seconds_never :
      (str : String) (n : ℤ) (position : ℕ)
      → leb_ℤ n (pos 0) ≡ true
      → stoll str ≡ ok (n, position)
      → (parse_config_to_seconds stoll (text str) ≡ ok (negsuc 0))
        × (parse_config_to_seconds stoll (days n) ≡ ok (negsuc 0))
  unfolding parse_config_to_seconds parse_qualified parse_days
  parse_config_to_seconds_never str n position h s = (ground (arith, h, s), ground (arith, h))
