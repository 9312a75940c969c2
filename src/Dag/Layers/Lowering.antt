-- ===== src/Dag/Layers/Lowering.antt =====
-- The bookkeeping of a round of `build_topological_layers`,
-- crates/har-dag-executor/src/dag_executor.rs: which degrees fall, and which ids are freed.
use harness_agent_rs.Prelude.{
  ◌≡◌, ◌≢◌, refl, sym, ap, ◌∙◌, subst, ℕ, zero, suc, ◌==◌, false, Option, none, some, List, [], ◌∷◌,
  ◌++◌, Text, text_eq, text_eq→eq, Dict, get, insert, get-insert, get-insert_self, ok, Result-cases,
  arith, All, inl, inr, Bool-cases,
}
use harness_agent_rs.Dag.Layers.{lowered, Round, lower, lower_all}
use harness_agent_rs.Dag.Layers.Rounds.{Known, All-Known, lowered_round, lower-Shrinks}
use harness_agent_rs.Dag.Layers.Degrees.{
  occurrences, occurrences-append, has, Falls, Freed, Freed-insert, Freed-snoc,
}

-- Whoever waits now waited at the start of the round.
abbrev pub Backed : Dict ℕ → Dict ℕ → Type 0
Backed m0 m = (j : Text) (v : ℕ) → get j m ≡ some (suc v) → (u : ℕ) × (get j m0 ≡ some (suc u))

abbrev pub Good : Dict ℕ → Round → Type 0
Good m0 r = Freed m0 r.0 r.1 × Backed m0 r.0

lower-ok :
    (k : Text) (m : Dict ℕ) (next : List Text) (o : Option ℕ) (r' : Round)
    → get k m ≡ o
    → o ≢ none
    → lower k (m, next) ≡ ok r'
    → (d : ℕ) × (get k m ≡ some (suc d)) × (lowered_round k d m next ≡ r')
unfolding lower lowered
lower-ok k m next none r' e h l = absurd (h refl)
lower-ok k m next (some zero) r' e h l = absurd (ground (arith, e, l))
lower-ok k m next (some (suc d)) r' e h l = (d, e, ground (arith, e, l))

Freed-not_in :
    (m0 m : Dict ℕ) (k : Text) (d : ℕ) (ks : List Text)
    → get k m ≡ some (suc d)
    → Freed m0 m ks
    → has ks k ≡ false
unfolding has
Freed-not_in m0 m k d [] h f = refl
Freed-not_in m0 m k d (x ∷ xs) h (b, z, u, fs) = elim (Bool-cases (text_eq x k)) [
  | inl e ↦ let g = ap (λ t. get t m) (text_eq→eq x k e) in absurd (ground (arith, g, h, z))
  | inr e ↦ ground (arith, e, Freed-not_in m0 m k d xs h fs)
]

insert-Falls :
    (k j : Text) (d : ℕ) (m : Dict ℕ) → get k m ≡ some (suc d) → Falls j (k ∷ []) m (insert k d m)
unfolding occurrences
insert-Falls k j d m h v g = elim (Bool-cases (text_eq k j)) [
  | inl e ↦
      let f = ap (λ t. get t m) (text_eq→eq k j e) in
      (d, (get-insert k j d m ∙ rw e refl), ground (arith, e, f, h, g))
  | inr e ↦ (v, (get-insert k j d m ∙ rw e g), ground (arith, e))
]

insert-Backed :
    (m0 m : Dict ℕ) (k : Text) (d : ℕ)
    → get k m ≡ some (suc d)
    → Backed m0 m
    → Backed m0 (insert k d m)
insert-Backed m0 m k d h b j v g = elim (Bool-cases (text_eq k j)) [
  | inl e ↦ b j d (ap (λ t. get t m) (sym (text_eq→eq k j e)) ∙ h)
  | inr e ↦ b j v (sym (get-insert k j d m ∙ rw e refl) ∙ g)
]

round-Good :
    (m0 : Dict ℕ) (k : Text) (d : ℕ) (m : Dict ℕ) (next : List Text)
    → get k m ≡ some (suc d)
    → Good m0 (m, next)
    → Good m0 (lowered_round k d m next)
round-Good m0 k zero m next h (f, b) =
    let (u, a) = b k 0 h in
    (
      Freed-snoc m0 (insert k 0 m) k u next a (get-insert_self k 0 m)
          (Freed-not_in m0 m k 0 next h f) (Freed-insert m0 m k 0 0 next h f),
      insert-Backed m0 m k 0 h b,
    )
round-Good m0 k (suc d) m next h (f, b) =
    let n : (suc d == 0) ≡ false = ground arith in
    rw n (Freed-insert m0 m k (suc d) (suc d) next h f, insert-Backed m0 m k (suc d) h b)

abbrev pub Lowers : Dict ℕ → List Text → Round → Round → Type 0
Lowers m0 ks r r' = Good m0 r' × ((j : Text) → Falls j ks r.0 r'.0)

lower-Lowers :
    (m0 : Dict ℕ) (k : Text) (m : Dict ℕ) (next : List Text) (r' : Round)
    → Known m k
    → Good m0 (m, next)
    → lower k (m, next) ≡ ok r'
    → Lowers m0 (k ∷ []) (m, next) r'
lower-Lowers m0 k m next r' h g l =
    let (d, e, q) = lower-ok k m next (get k m) r' refl h l in
    subst (Lowers m0 (k ∷ []) (m, next)) q
      (round-Good m0 k d m next e g, λ j. insert-Falls k j d m e)

pub Falls-trans :
    (j : Text) (ks ls : List Text) (a b c : Dict ℕ)
    → Falls j ks a b
    → Falls j ls b c
    → Falls j (ks ++ ls) a c
Falls-trans j ks ls a b c f g v h =
    let (w, p, q) = f v h in
    let (x, r, s) = g w p in (x, r, omega (arith, q, s, occurrences-append j ks ls))

pub lower_all-Lowers :
    (m0 : Dict ℕ) (ks : List Text) (r r' : Round)
    → All (Known r.0) ks
    → Good m0 r
    → lower_all ks r ≡ ok r'
    → Lowers m0 ks r r'
unfolding lower_all occurrences
lower_all-Lowers m0 [] r r' h g l =
    subst (Lowers m0 [] r) (ground (arith, l)) (g, λ j v e. (v, e, omega arith))
lower_all-Lowers m0 (k ∷ ks) (m, next) r' (h, hs) g l = elim (Result-cases (lower k (m, next))) [
  | inl (r, e) ↦
      let (g', f) = lower-Lowers m0 k m next r h g e in
      let s = lower-Shrinks k m next (get k m) r refl h e in
      let (g'', f') =
        lower_all-Lowers m0 ks r r' (All-Known (m, next) r ks s hs) g' (ground (arith, e, l)) in
      (g'', λ j. Falls-trans j (k ∷ []) ks m r.0 r'.0 (f j) (f' j))
  | inr (x, e) ↦ absurd (ground (arith, e, l))
]
