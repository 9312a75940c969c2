-- ===== src/Dag/Refs/Shell.antt =====
-- How a shell reads quoted text, and that it reads what `shell_quote` of
-- crates/har-dag-executor/src/dag_executor.rs makes as the text it was made from.
use harness_agent_rs.Prelude.{
  ◌≡◌, refl, sym, ◌∙◌, ap, inl, inr, ℕ, ◌==◌, ==_iff, Text, Bool-cases, Option, none, some, [], ◌∷◌,
  ◌++◌, if◌then◌else◌,
}
use harness_agent_rs.Dag.Refs.{escape, shell_quote}

-- Where a shell is in a word.
pub data Place : Type 0 where
  outside inside escaped : Place

abbrev with_char : ℕ → Option Text → Option Text
with_char c none = none
with_char c (some s) = some (c ∷ s)

-- A shell reads a text as one word made of quoted characters only: between single quotes every
-- character but the quote stands for itself, and outside a backslash quotes the next one. Any other
-- character outside the quotes, and an open quote at the end, are refused.
unfoldable pub read_word : Place → Text → Option Text
read_word outside [] = some []
read_word inside [] = none
read_word escaped [] = none
read_word outside (c ∷ s) =
    let quoted = read_word inside s in
    let next = read_word escaped s in if c == 0x27 then quoted else if c == 0x5c then next else none
read_word inside (c ∷ s) =
    let closed = read_word outside s in
    let more = read_word inside s in if c == 0x27 then closed else with_char c more
read_word escaped (c ∷ s) = with_char c (read_word outside s)

abbrev pub after : Text → Option Text → Option Text
after v none = none
after v (some s) = some (v ++ s)

after_nothing : (r : Option Text) → after [] r ≡ r
after_nothing none = refl
after_nothing (some s) = refl

with_char-after : (c : ℕ) (v : Text) (r : Option Text) → with_char c (after v r) ≡ after (c ∷ v) r
with_char-after c v none = refl
with_char-after c v (some s) = refl

escape-read :
    (v rest : Text) → read_word inside (escape v ++ 0x27 ∷ rest) ≡ after v (read_word outside rest)
unfolding read_word escape
escape-read [] rest = sym (after_nothing (read_word outside rest))
escape-read (c ∷ v) rest = elim (Bool-cases (c == 0x27)) [
  | inl e ↦
      let same : c ≡ 0x27 = (==_iff c 0x27).0 e in
      rw same
        (ap (with_char 0x27) (escape-read v rest) ∙ with_char-after 0x27 v (read_word outside rest))
  | inr e ↦
      rw e (
        rw e (ap (with_char c) (escape-read v rest) ∙ with_char-after c v (read_word outside rest)))
]

append_assoc : (a b c : Text) → (a ++ b) ++ c ≡ a ++ (b ++ c)
append_assoc [] b c = refl
append_assoc (x ∷ a) b c = ap (λ t. x ∷ t) (append_assoc a b c)

append_nil : (a : Text) → a ++ [] ≡ a
append_nil [] = refl
append_nil (x ∷ a) = ap (λ t. x ∷ t) (append_nil a)

-- What `shell_quote` makes of a text is read back as that text, character by character, whatever the
-- text contains; what follows it is read as if it stood alone.
pub shell_quote-read :
    (v rest : Text) → read_word outside (shell_quote v ++ rest) ≡ after v (read_word outside rest)
unfolding shell_quote read_word
shell_quote-read v rest =
    ap (read_word inside) (append_assoc (escape v) (0x27 ∷ []) rest) ∙ escape-read v rest

pub shell_quote-word : (v : Text) → read_word outside (shell_quote v) ≡ some v
unfolding read_word
shell_quote-word v =
    ap (read_word outside) (sym (append_nil (shell_quote v)))
    ∙ shell_quote-read v []
    ∙ ap some (append_nil v)
