-- ===== src/Condition/Number.antt =====
-- `parse_float_js` of crates/har-dag-executor/src/condition_evaluator.rs: JavaScript's `parseFloat`.
-- Floats, with the reading of a decimal literal, are the parameter `Floats`.
use harness_agent_rs.Prelude.{
  ℕ, ◌==◌, Bool, ◌&&◌, ◌||◌, Option, none, some, [], ◌∷◌, ◌++◌, Text, text, starts_with, is_empty,
  leb, if◌then◌else◌,
}

pub record Floats : Type 1 where
  pub F64 : Type 0
  pub nan : F64
  pub infinity : F64
  pub neg_infinity : F64
  pub parse : Text → Option F64
  pub is_finite : F64 → Bool
  pub lt : F64 → F64 → Bool
  pub le : F64 → F64 → Bool

-- `char::is_ascii_whitespace`: tab, line feed, form feed, carriage return, space.
unfoldable pub is_ascii_whitespace : ℕ → Bool
is_ascii_whitespace c = c == 0x09 || c == 0x0a || c == 0x0c || c == 0x0d || c == 0x20

unfoldable pub skip_whitespace : Text → Text
unfolding is_ascii_whitespace
skip_whitespace [] = []
skip_whitespace (c ∷ s) =
    let rest = skip_whitespace s in if is_ascii_whitespace c then rest else c ∷ s

abbrev pub is_digit : ℕ → Bool
is_digit c = leb 0x30 c && leb c 0x39

-- The leading digits, and what follows them.
unfoldable pub digits : Text → Text
digits [] = []
digits (c ∷ s) = let ds = digits s in if is_digit c then c ∷ ds else []

unfoldable pub after_digits : Text → Text
after_digits [] = []
after_digits (c ∷ s) = let r = after_digits s in if is_digit c then r else c ∷ s

-- A piece of the number, with the text after it.
abbrev pub Scanned : Type 0
Scanned = Text × Text

unfoldable pub scan_sign : Text → Scanned
scan_sign [] = ([], [])
scan_sign (c ∷ s) = if c == 0x2b || c == 0x2d then (c ∷ [], s) else ([], c ∷ s)

-- The point after leading digits, with the digits after it.
unfoldable pub scan_fraction : Text → Scanned
unfolding digits after_digits
scan_fraction [] = ([], [])
scan_fraction (c ∷ s) = if c == 0x2e then (c ∷ digits s, after_digits s) else ([], c ∷ s)

abbrev prepend : Text → Scanned → Scanned
prepend t (a, r) = (t ++ a, r)

unfoldable pub scan_digits_first : Text → Option Scanned
unfolding scan_fraction digits after_digits is_empty
scan_digits_first s =
    if is_empty (digits s) then none else some (prepend (digits s) (scan_fraction (after_digits s)))

-- Digits with an optional fraction, or a point with digits. `none` is the source's NaN.
unfoldable pub scan_mantissa : Text → Option Scanned
unfolding scan_digits_first digits after_digits is_empty
scan_mantissa [] = none
scan_mantissa (c ∷ s) =
    if c == 0x2e
    then (if is_empty (digits s) then none else some (c ∷ digits s, after_digits s))
    else scan_digits_first (c ∷ s)

-- The digits of an exponent after its letter and sign; without any there is no exponent.
unfoldable pub scan_power : Text → ℕ → Text → Text
unfolding digits is_empty
scan_power sign letter s = if is_empty (digits s) then [] else letter ∷ sign ++ digits s

unfoldable pub scan_exponent : Text → Text
unfolding scan_sign scan_power
scan_exponent [] = []
scan_exponent (c ∷ s) =
    if c == 0x65 || c == 0x45 then scan_power (scan_sign s).0 c (scan_sign s).1 else []

abbrev with_exponent : Text → Option Scanned → Option Text
with_exponent sign none = none
with_exponent sign (some (m, r)) = some (sign ++ (m ++ scan_exponent r))

-- The longest prefix that is a number.
unfoldable pub numeric_prefix : Text → Option Text
unfolding scan_sign scan_mantissa scan_exponent
numeric_prefix s = with_exponent (scan_sign s).0 (scan_mantissa (scan_sign s).1)

module _ (fl : Floats) where
  open fl use {F64, nan, infinity, neg_infinity, parse}

  abbrev or_nan : Option F64 → F64
  or_nan none = nan
  or_nan (some x) = x

  abbrev parse_prefix : Option Text → F64
  parse_prefix none = nan
  parse_prefix (some p) = or_nan (parse p)

  unfoldable pub parse_trimmed : Text → F64
  unfolding is_empty starts_with numeric_prefix
  parse_trimmed s =
      if is_empty s
      then nan
      else if starts_with s (text "Infinity")
      then infinity
      else if starts_with s (text "-Infinity")
      then neg_infinity
      else if starts_with s (text "+Infinity")
      then infinity
      else parse_prefix (numeric_prefix s)

  unfoldable pub parse_float_js : Text → F64
  unfolding skip_whitespace parse_trimmed
  parse_float_js s = parse_trimmed (skip_whitespace s)
