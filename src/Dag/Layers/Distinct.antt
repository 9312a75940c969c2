-- ===== src/Dag/Layers/Distinct.antt =====
-- Lists of different ids: such a list among some ids is no longer than those, for the layers of
-- crates/har-dag-executor/src/dag_executor.rs.
use harness_agent_rs.Prelude.{
  ◌≡◌, suc, ◌≤◌, true, false, List, [], ◌∷◌, Text, text_eq, text_eq_iff, length, Bool-cases, arith,
  All, inl, inr, if◌then◌else◌,
}
use harness_agent_rs.Dag.Layers.Degrees.{has}

-- Texts that are all different.
abbrev pub Distinct : List Text → Type 0
Distinct [] = Unit
Distinct (x ∷ xs) = (has xs x ≡ false) × Distinct xs

-- Without the first occurrence.
unfoldable without : Text → List Text → List Text
without x [] = []
without x (y ∷ ys) = if text_eq y x then ys else y ∷ without x ys

without-length :
    (x : Text) (ys : List Text) → has ys x ≡ true → length ys ≡ suc (length (without x ys))
unfolding has without
without-length x [] h = cc
without-length x (y ∷ ys) h = ground (arith, without-length x ys)

without-has :
    (x z : Text) (ys : List Text)
    → text_eq x z ≡ false
    → has ys z ≡ true
    → has (without x ys) z ≡ true
unfolding has without
without-has x z [] e h = h
without-has x z (y ∷ ys) e h =
    ground (arith, without-has x z ys e, text_eq_iff y x, text_eq_iff x z, text_eq_iff y z, e, h)

abbrev pub Inside : List Text → List Text → Type 0
Inside ys xs = All (λ x. has ys x ≡ true) xs

Inside-without :
    (x : Text) (xs ys : List Text) → has xs x ≡ false → Inside ys xs → Inside (without x ys) xs
unfolding has
Inside-without x [] ys h a = tt
Inside-without x (z ∷ xs) ys h a = (
  without-has x z ys (ground (arith, h, text_eq_iff x z, text_eq_iff z x)) a.0,
  Inside-without x xs ys (ground (arith, h)) a.1,
)

-- Different texts among some are no more than those.
Distinct-length : (xs ys : List Text) → Distinct xs → Inside ys xs → length xs ≤ length ys
Distinct-length [] ys d a = omega arith
Distinct-length (x ∷ xs) ys d a =
    let rest = Distinct-length xs (without x ys) d.1 (Inside-without x xs ys d.0 a.1) in
    omega (arith, rest, without-length x ys a.0)

-- As many different texts inside some as there are: nothing is missing.
pub none_missing :
    (xs ys : List Text) (k : Text)
    → Distinct xs
    → Inside ys xs
    → length ys ≤ length xs
    → has ys k ≡ true
    → has xs k ≡ true
none_missing xs ys k d a n h = elim (Bool-cases (has xs k)) [
  | inl e ↦ e
  | inr e ↦
      let more : suc (length xs) ≤ length ys = Distinct-length (k ∷ xs) ys (e, d) (h, a) in
      absurd (omega (arith, n, more))
]
