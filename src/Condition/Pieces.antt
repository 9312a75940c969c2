-- ===== src/Condition/Pieces.antt =====
-- What the splitting of a condition promises, crates/har-dag-executor/src/condition_evaluator.rs: it
-- ends, and the pieces joined by the separator are the text.
use mathlib.Core.Path.{subst}
use mathlib.Core.List.{append-nil, append_assoc}
use harness_agent_rs.Prelude.{
  ℕ, zero, suc, ◌+◌, ◌-◌, ◌<◌, ◌==◌, ◌≡◌, ◌≢◌, refl, sym, ap, ◌∙◌, inl, inr, Bool, true, false, not,
  Option, none, some, List, [], ◌∷◌, ◌++◌, map, arith, Text, text_eq→eq, trim, length, take, drop,
  Bool-cases,
}
use harness_agent_rs.Condition.Split.{byte_len, push, at_separator, scan, split_outside_quotes}

-- The pieces with the separator between them.
pub join : Text → List Text → Text
join sep [] = []
join sep (t ∷ []) = t
join sep (t ∷ u ∷ ts) = t ++ (sep ++ join sep (u ∷ ts))

take-drop : (n : ℕ) (s : Text) → take n s ++ drop n s ≡ s
take-drop zero s = refl
take-drop (suc n) [] = refl
take-drop (suc n) (c ∷ s) = ap (λ r. c ∷ r) (take-drop n s)

length-drop : (n : ℕ) (s : Text) → length (drop n s) ≡ length s - n
length-drop zero s = omega arith
length-drop (suc n) [] = omega arith
length-drop (suc n) (c ∷ s) = omega (arith, length-drop n s)

push-ne-none : (t : Text) (o : Option (List Text)) → o ≢ none → push t o ≢ none
push-ne-none t none h e = h refl
push-ne-none t (some ts) h e = cc

-- The loop ends, with fuel for each character left and one round more.
scan_total :
    (fuel : ℕ) (sep : Text) (n : ℕ) (q : Bool) (cur rest : Text)
    → 0 < n
    → length rest < fuel
    → scan fuel sep n q cur rest ≢ none
unfolding scan
scan_total zero sep n q cur rest h l = absurd (omega arith)
scan_total (suc fuel) sep n q cur [] h l = λ e. cc
scan_total (suc fuel) sep n q cur (c ∷ r) h l = elim (Bool-cases (c == 0x27)) [
  | inl e ↦ rw e (scan_total fuel sep n (not q) (cur ++ c ∷ []) r h (omega arith))
  | inr e ↦ elim (Bool-cases (at_separator sep n q (c ∷ r))) [
    | inl s ↦
        rw (e, s)
          (push-ne-none (trim cur) (scan fuel sep n q [] (drop n (c ∷ r)))
            (scan_total fuel sep n q [] (drop n (c ∷ r)) h (omega (arith, length-drop n (c ∷ r)))))
    | inr s ↦ rw (e, s) (scan_total fuel sep n q (cur ++ c ∷ []) r h (omega arith))
  ]
]

byte_len-pos : (s : Text) → s ≢ [] → 0 < byte_len s
unfolding byte_len
byte_len-pos [] h = absurd (h refl)
byte_len-pos (c ∷ s) h = ground arith

-- Splitting at a separator that is not empty ends, whatever the text.
pub split_outside_quotes_total : (expr sep : Text) → sep ≢ [] → split_outside_quotes expr sep ≢ none
unfolding split_outside_quotes
split_outside_quotes_total expr sep h =
    scan_total (length expr + 1) sep (byte_len sep) false [] expr (byte_len-pos sep h) (omega arith)

-- Untrimmed pieces that make up a text.
abbrev pub MakeUp : Text → Text → List Text → Type 0
MakeUp sep whole ps =
    (raw : Text) × (raws : List Text) × (map trim (raw ∷ raws) ≡ ps)
    × (join sep (raw ∷ raws) ≡ whole)

push-some :
    (t : Text) (o : Option (List Text)) (ps : List Text)
    → push t o ≡ some ps
    → (ts : List Text) × (o ≡ some ts) × (t ∷ ts ≡ ps)
push-some t none ps h = cc
push-some t (some ts) ps h = (ts, refl, cc)

separator-here :
    (sep : Text) (n : ℕ) (q : Bool) (rest : Text)
    → at_separator sep n q rest ≡ true
    → sep ++ drop n rest ≡ rest
unfolding at_separator
separator-here sep n q rest h =
    let e : take n rest ≡ sep = text_eq→eq (take n rest) sep (ground arith) in
    rw (← e) (take-drop n rest)

MakeUp-cut :
    (sep cur whole : Text) (ts : List Text)
    → MakeUp sep whole ts
    → (u : Text) → sep ++ whole ≡ u
    → MakeUp sep (cur ++ u) (trim cur ∷ ts)
unfolding join
MakeUp-cut sep cur whole ts (raw, raws, e, j) u h =
    (cur, raw ∷ raws, ap (λ l. trim cur ∷ l) e, ap (λ l. cur ++ l) (ap (λ l. sep ++ l) j ∙ h))

scan-MakeUp :
    (fuel : ℕ) (sep : Text) (n : ℕ) (q : Bool) (cur rest : Text) (ps : List Text)
    → scan fuel sep n q cur rest ≡ some ps
    → MakeUp sep (cur ++ rest) ps
unfolding scan
scan-MakeUp zero sep n q cur rest ps h = cc
scan-MakeUp (suc fuel) sep n q cur [] ps h =
    (cur, [], unfold scan in cc, unfold join in sym (append-nil cur))
scan-MakeUp (suc fuel) sep n q cur (c ∷ r) ps h = elim (Bool-cases (c == 0x27)) [
  | inl e ↦
      subst (λ w. MakeUp sep w ps) (append_assoc cur (c ∷ []) r)
        (scan-MakeUp fuel sep n (not q) (cur ++ c ∷ []) r ps (rw e at h))
  | inr e ↦ elim (Bool-cases (at_separator sep n q (c ∷ r))) [
    | inl s ↦
        let (ts, more, eq) =
          push-some (trim cur) (scan fuel sep n q [] (drop n (c ∷ r))) ps (rw (e, s) at h) in
        subst (λ l. MakeUp sep (cur ++ c ∷ r) l) eq
          (MakeUp-cut sep cur (drop n (c ∷ r)) ts
            (scan-MakeUp fuel sep n q [] (drop n (c ∷ r)) ts more) (c ∷ r)
            (separator-here sep n q (c ∷ r) s))
    | inr s ↦
        subst (λ w. MakeUp sep w ps) (append_assoc cur (c ∷ []) r)
          (scan-MakeUp fuel sep n q (cur ++ c ∷ []) r ps (rw (e, s) at h))
  ]
]

-- The pieces of a split are the trimmed parts of a text that, joined by the separator, is the whole.
pub join-split_outside_quotes :
    (expr sep : Text) (ps : List Text)
    → split_outside_quotes expr sep ≡ some ps
    → MakeUp sep expr ps
unfolding split_outside_quotes
join-split_outside_quotes expr sep ps h =
    scan-MakeUp (length expr + 1) sep (byte_len sep) false [] expr ps h
