-- ===== src/Messages/Streaks.antt =====
-- When a sender is refused, and what an error is classified as,
-- crates/har-dag-executor/src/executor_shared.rs.
use harness_agent_rs.Prelude.{
  ◌≡◌, ◌≢◌, refl, sym, ◌∙◌, ◌↔◌, ◌⊎◌, inl, inr, ℕ, zero, suc, Bool, true, false, Option, some, List,
  [], ◌∷◌, Text, arith, contains, if◌then◌else◌,
}
use harness_agent_rs.Errors.{
  ErrorType, classify_error, matches_pattern, fatal_patterns, transient_patterns,
}
use harness_agent_rs.Messages.{
  Answer, delivered, undelivered, UnknownErrorTracker, safe_send_message, refused, track,
}

classes :
    (t : ErrorType) → (t ≡ ErrorType.fatal) ⊎ (t ≡ ErrorType.transient) ⊎ (t ≡ ErrorType.unknown)
classes ErrorType.fatal = inl refl
classes ErrorType.transient = inr (inl refl)
classes ErrorType.unknown = inr (inr refl)

module _ (to_lowercase : Text → Text) where
  -- The answer is an error of the class.
  abbrev pub Fails : ErrorType → Answer → Type 0
  Fails t delivered = ⊥
  Fails t (undelivered e) = classify_error to_lowercase e ≡ t

  abbrev pub SomeFatal : List Answer → Type 0
  SomeFatal [] = ⊥
  SomeFatal (a ∷ answers) = Fails ErrorType.fatal a ⊎ SomeFatal answers

  -- The list begins with so many unknown errors.
  abbrev pub Begins : ℕ → List Answer → Type 0
  Begins zero answers = Unit
  Begins (suc n) [] = ⊥
  Begins (suc n) (a ∷ answers) = Fails ErrorType.unknown a × Begins n answers

  -- Three unknown errors follow each other somewhere in the list.
  abbrev pub ThreeUnknown : List Answer → Type 0
  ThreeUnknown [] = ⊥
  ThreeUnknown (a ∷ answers) = Begins 3 (a ∷ answers) ⊎ ThreeUnknown answers

  abbrev tracker : ℕ → Option UnknownErrorTracker
  tracker n = some (record { count = n })

  refused_fatal :
      (e : Text) (answers : List Answer) (n : ℕ)
      → classify_error to_lowercase e ≡ ErrorType.fatal
      → refused to_lowercase (undelivered e ∷ answers) (tracker n) ≡ true
  unfolding refused safe_send_message
  refused_fatal e answers n h = ground (arith, h)

  refused_transient :
      (e : Text) (answers : List Answer) (n : ℕ)
      → classify_error to_lowercase e ≡ ErrorType.transient
      → refused to_lowercase (undelivered e ∷ answers) (tracker n)
        ≡ refused to_lowercase answers (tracker 0)
  unfolding refused safe_send_message
  refused_transient e answers n h = ground (arith, h)

  refused_unknown :
      (e : Text) (answers : List Answer)
      → classify_error to_lowercase e ≡ ErrorType.unknown
      → (refused to_lowercase (undelivered e ∷ answers) (tracker 0)
          ≡ refused to_lowercase answers (tracker 1))
        × (refused to_lowercase (undelivered e ∷ answers) (tracker 1)
            ≡ refused to_lowercase answers (tracker 2))
        × (refused to_lowercase (undelivered e ∷ answers) (tracker 2) ≡ true)
  unfolding refused safe_send_message track
  refused_unknown e answers h = (ground (arith, h), ground (arith, h), ground (arith, h))

  refused_delivered :
      (answers : List Answer) (n : ℕ)
      → refused to_lowercase (delivered ∷ answers) (tracker n)
        ≡ refused to_lowercase answers (tracker 0)
  unfolding refused safe_send_message
  refused_delivered answers n = refl

  refused_nil : (n : ℕ) → refused to_lowercase [] (tracker n) ≢ true
  unfolding refused
  refused_nil n h = cc

  -- What refuses a sender whose last errors in a row were none, one or two unknown ones.
  abbrev pub Refuses : ℕ → List Answer → Type 0
  Refuses left answers = SomeFatal answers ⊎ ThreeUnknown answers ⊎ Begins left answers

  Begins-less : (n : ℕ) (answers : List Answer) → Begins (suc n) answers → Begins n answers
  Begins-less zero answers h = tt
  Begins-less (suc n) [] h = absurd h
  Begins-less (suc n) (a ∷ answers) (h, hs) = (h, Begins-less n answers hs)

  -- An unknown error before the list adds one to the row that it begins with.
  behind :
      (n : ℕ) (e : Text) (answers : List Answer)
      → classify_error to_lowercase e ≡ ErrorType.unknown
      → Refuses n answers
      → Refuses (suc n) (undelivered e ∷ answers)
  behind n e answers u (inl f) = inl (inr f)
  behind n e answers u (inr (inl t)) = inr (inl (inr t))
  behind n e answers u (inr (inr d)) = inr (inr (u, d))

  before :
      (n : ℕ) (e : Text) (answers : List Answer)
      → (Begins 2 answers → Begins n answers)
      → Refuses (suc n) (undelivered e ∷ answers)
      → (classify_error to_lowercase e ≡ ErrorType.fatal) ⊎ Refuses n answers
  before n e answers less (inl (inl f)) = inl f
  before n e answers less (inl (inr f)) = inr (inl f)
  before n e answers less (inr (inl (inl (u, d)))) = inr (inr (inr (less d)))
  before n e answers less (inr (inl (inr t))) = inr (inr (inl t))
  before n e answers less (inr (inr (u, d))) = inr (inr (inr d))

  three : (answers : List Answer) → Begins 3 answers → ThreeUnknown answers
  three [] h = absurd h
  three (a ∷ answers) h = inl h

  Refuses-iff :
      (answers : List Answer)
      → ((refused to_lowercase answers (tracker 0) ≡ true) ↔ Refuses 3 answers)
        × ((refused to_lowercase answers (tracker 1) ≡ true) ↔ Refuses 2 answers)
        × ((refused to_lowercase answers (tracker 2) ≡ true) ↔ Refuses 1 answers)
  Refuses-iff [] = (
    (λ h. absurd (refused_nil 0 h), λ h. ground arith),
    (λ h. absurd (refused_nil 1 h), λ h. ground arith),
    (λ h. absurd (refused_nil 2 h), λ h. ground arith),
  )
  Refuses-iff (delivered ∷ answers) =
      let (a, b, c) = Refuses-iff answers in
      let d = refused_delivered answers in
      (
        (λ h. ground (arith, a, d 0), λ h. ground (arith, a, d 0)),
        (λ h. ground (arith, a, d 1), λ h. ground (arith, a, d 1)),
        (λ h. ground (arith, a, d 2), λ h. ground (arith, a, d 2)),
      )
  Refuses-iff (undelivered e ∷ answers) =
      let (a, b, c) = Refuses-iff answers in
      elim (classes (classify_error to_lowercase e)) [
        | inl f ↦ (
          (λ h. inl (inl f), λ h. refused_fatal e answers 0 f),
          (λ h. inl (inl f), λ h. refused_fatal e answers 1 f),
          (λ h. inl (inl f), λ h. refused_fatal e answers 2 f),
        )
        | inr (inl t) ↦
            let d = refused_transient e answers in
            (
              (λ h. ground (arith, a, d 0 t), λ h. ground (arith, a, d 0 t)),
              (λ h. ground (arith, a, d 1 t), λ h. ground (arith, a, d 1 t)),
              (λ h. ground (arith, a, d 2 t), λ h. ground (arith, a, d 2 t)),
            )
        | inr (inr u) ↦
            let (p, q, r) = refused_unknown e answers u in
            (
              (
                λ h. behind 2 e answers u (b.0 (sym p ∙ h)),
                λ h. elim (before 2 e answers (λ d. d) h) [
                  | inl f ↦ refused_fatal e answers 0 f
                  | inr w ↦ p ∙ b.1 w
                ],
              ),
              (
                λ h. behind 1 e answers u (c.0 (sym q ∙ h)),
                λ h. elim (before 1 e answers (Begins-less 1 answers) h) [
                  | inl f ↦ refused_fatal e answers 1 f
                  | inr w ↦ q ∙ c.1 w
                ],
              ),
              (λ h. inr (inr (u, tt)), λ h. r),
            )
      ]

  -- A sender that starts with a fresh tracker is refused at some message exactly if the platform
  -- answers one of them with a fatal error or three in a row with unknown errors; transient errors
  -- and deliveries never refuse it, and end a row.
  pub refused_iff :
      (answers : List Answer)
      → (refused to_lowercase answers (some (record { count = 0 })) ≡ true)
        ↔ (SomeFatal answers ⊎ ThreeUnknown answers)
  refused_iff answers =
      let (a, b, c) = Refuses-iff answers in
      (
        λ h. elim (a.0 h) [
          | inl f ↦ inl f
          | inr (inl t) ↦ inr t
          | inr (inr d) ↦ inr (three answers d)
        ],
        elim [ inl f ↦ a.1 (inl f) | inr t ↦ a.1 (inr (inl t)) ],
      )

-- Some pattern of the list is part of the text.
abbrev pub Occurs : List Text → Text → Type 0
Occurs [] t = ⊥
Occurs (p ∷ ps) t = (contains t p ≡ true) ⊎ Occurs ps t

matches_iff : (ps : List Text) (t : Text) → (matches_pattern t ps ≡ true) ↔ Occurs ps t
unfolding matches_pattern
matches_iff [] t = (λ h. cc, λ h. absurd h)
matches_iff (p ∷ ps) t =
    (λ h. ground (arith, matches_iff ps t), λ h. ground (arith, matches_iff ps t))

transient_tests :
    {P Q : Type 0} (b c : Bool)
    → (b ≡ true) ↔ P
    → (c ≡ true) ↔ Q
    → ((if b then ErrorType.fatal else if c then ErrorType.transient else ErrorType.unknown)
        ≡ ErrorType.transient)
      ↔ (¬ P × Q)
transient_tests true c p q = (λ h. cc, λ h. absurd (h.0 (p.0 refl)))
transient_tests false true p q = (λ h. ((λ x. ground (arith, p, x)), q.0 refl), λ h. refl)
transient_tests false false p q = (λ h. cc, λ h. ground (arith, q, h))

-- An error is transient exactly if one of the transient patterns occurs in its lower-case text and
-- none of the fatal ones does.
pub transient_iff :
    (to_lowercase : Text → Text) (e : Text)
    → (classify_error to_lowercase e ≡ ErrorType.transient)
      ↔ (¬ Occurs fatal_patterns (to_lowercase e) × Occurs transient_patterns (to_lowercase e))
unfolding classify_error
transient_iff to_lowercase e =
    transient_tests (matches_pattern (to_lowercase e) fatal_patterns)
      (matches_pattern (to_lowercase e) transient_patterns)
      (matches_iff fatal_patterns (to_lowercase e))
      (matches_iff transient_patterns (to_lowercase e))
