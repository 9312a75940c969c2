-- ===== src/Condition/Prefix.antt =====
-- What is read as a number, crates/har-dag-executor/src/condition_evaluator.rs: a prefix of the text,
-- which begins with no white space.
use mathlib.Core.List.{append_assoc}
use harness_agent_rs.Prelude.{
  ℕ, ◌==◌, ◌≡◌, refl, ap, ◌∙◌, inl, inr, ◌||◌, Option, none, some, [], ◌∷◌, ◌++◌, arith, Text,
  is_empty, Bool-cases,
}
use harness_agent_rs.Condition.Number.{
  Floats, digits, after_digits, scan_sign, scan_fraction, scan_digits_first, scan_mantissa,
  scan_power, scan_exponent, numeric_prefix, parse_float_js, Scanned,
}

digits-append : (s : Text) → digits s ++ after_digits s ≡ s
unfolding digits after_digits
digits-append [] = refl
digits-append (c ∷ s) = ground (arith, digits-append s)

sign-append : (s : Text) → (scan_sign s).0 ++ (scan_sign s).1 ≡ s
unfolding scan_sign
sign-append [] = refl
sign-append (c ∷ s) = ground arith

fraction-append : (s : Text) → (scan_fraction s).0 ++ (scan_fraction s).1 ≡ s
unfolding scan_fraction
fraction-append [] = refl
fraction-append (c ∷ s) = ground (arith, digits-append s)

-- The pieces of a number make up the text.
digits_first-append : (s m r : Text) → scan_digits_first s ≡ some (m, r) → m ++ r ≡ s
unfolding scan_digits_first
digits_first-append s m r h = ground (
  arith,
  digits-append s,
  fraction-append (after_digits s),
  append_assoc (digits s) (scan_fraction (after_digits s)).0 (scan_fraction (after_digits s)).1,
)

mantissa-append : (s m r : Text) → scan_mantissa s ≡ some (m, r) → m ++ r ≡ s
unfolding scan_mantissa
mantissa-append [] m r h = cc
mantissa-append (c ∷ s) m r h = ground (arith, digits_first-append (c ∷ s) m r, digits-append s)

-- An exponent is the beginning of the text that it is read from.
power-append :
    (sign s : Text) (c : ℕ) → (rest : Text) × (scan_power sign c s ++ rest ≡ c ∷ sign ++ s)
unfolding scan_power
power-append sign s c = elim (Bool-cases (is_empty (digits s))) [
  | inl e ↦ (c ∷ sign ++ s, rw e refl)
  | inr e ↦ (
    after_digits s,
    rw e (
        ap (λ l. c ∷ l)
          (append_assoc sign (digits s) (after_digits s) ∙ ap (λ l. sign ++ l) (digits-append s))),
  )
]

exponent-append : (s : Text) → (rest : Text) × (scan_exponent s ++ rest ≡ s)
unfolding scan_exponent
exponent-append [] = ([], refl)
exponent-append (c ∷ s) = elim (Bool-cases (c == 0x65 || c == 0x45)) [
  | inl e ↦
      let (rest, p) = power-append (scan_sign s).0 (scan_sign s).1 c in
      (rest, rw e (p ∙ ap (λ l. c ∷ l) (sign-append s)))
  | inr e ↦ (c ∷ s, rw e refl)
]

-- What is read as a number is a prefix of the text.
pub numeric_prefix-append :
    (s p : Text) → numeric_prefix s ≡ some p → (rest : Text) × (p ++ rest ≡ s)
unfolding numeric_prefix
numeric_prefix-append s p h = read (scan_mantissa (scan_sign s).1) refl h
  where
    read :
        (o : Option Scanned)
        → scan_mantissa (scan_sign s).1 ≡ o
        → numeric_prefix s ≡ some p
        → (rest : Text) × (p ++ rest ≡ s)
    read none e k = absurd (ground arith)
    read (some (m, r)) e k =
        let (rest, q) = exponent-append r in
        let shape : (scan_sign s).0 ++ (m ++ scan_exponent r) ≡ p = ground arith in
        (
          rest,
          rw (← shape) (
              append_assoc (scan_sign s).0 (m ++ scan_exponent r) rest
              ∙ ap (λ l. (scan_sign s).0 ++ l)
                  (append_assoc m (scan_exponent r) rest
                    ∙ ap (λ l. m ++ l) q
                    ∙ mantissa-append (scan_sign s).1 m r e)
              ∙ sign-append s),
        )

-- A text that begins with a vertical tab is read as no number, whatever follows.
pub parse_float_js-vertical_tab : (fl : Floats) (s : Text) → parse_float_js fl (0x0b ∷ s) ≡ fl.nan
unfolding parse_float_js
parse_float_js-vertical_tab fl s = refl
