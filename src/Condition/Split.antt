-- ===== src/Condition/Split.antt =====
-- `split_outside_quotes` of crates/har-dag-executor/src/condition_evaluator.rs. The loop takes fuel:
-- each round consumes a character or a separator, so that one more than the characters is enough for
-- a separator that is not empty. With an empty one the source's loop does not end.
use harness_agent_rs.Prelude.{
  ℕ, zero, suc, ◌+◌, ◌==◌, Bool, false, not, ◌&&◌, Option, none, some, List, [], ◌∷◌, ◌++◌, Text,
  text_eq, trim, length, take, drop, leb, ltb, if◌then◌else◌,
}

-- `char::len_utf8`, and `str::len`.
abbrev len_utf8 : ℕ → ℕ
len_utf8 c = if ltb c 0x80 then 1 else if ltb c 0x800 then 2 else if ltb c 0x10000 then 3 else 4

unfoldable pub byte_len : Text → ℕ
byte_len [] = 0
byte_len (c ∷ s) = len_utf8 c + byte_len s

abbrev pub push : Text → Option (List Text) → Option (List Text)
push t none = none
push t (some ts) = some (t ∷ ts)

-- Whether the separator stands here, outside quotes.
unfoldable pub at_separator : Text → ℕ → Bool → Text → Bool
at_separator sep n in_quote rest = not in_quote && leb n (length rest) && text_eq (take n rest) sep

unfoldable pub scan : ℕ → Text → ℕ → Bool → Text → Text → Option (List Text)
unfolding at_separator
scan zero sep n in_quote current rest = none
scan (suc fuel) sep n in_quote current [] = some (trim current ∷ [])
scan (suc fuel) sep n in_quote current (c ∷ r) =
    let quote = scan fuel sep n (not in_quote) (current ++ c ∷ []) r in
    let cut = push (trim current) (scan fuel sep n in_quote [] (drop n (c ∷ r))) in
    let step = scan fuel sep n in_quote (current ++ c ∷ []) r in
    if c == 0x27 then quote else if at_separator sep n in_quote (c ∷ r) then cut else step

unfoldable pub split_outside_quotes : Text → Text → Option (List Text)
unfolding scan byte_len
split_outside_quotes expr sep = scan (length expr + 1) sep (byte_len sep) false [] expr
