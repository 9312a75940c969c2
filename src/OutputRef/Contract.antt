-- ===== src/OutputRef/Contract.antt =====
-- The contract of reading a field, crates/har-dag-executor/src/output_ref.rs: nothing is dropped
-- silently, and each error says what is the case.
use harness_agent_rs.Prelude.{
  Text, ◌≡◌, refl, ◌↔◌, ◌⊎◌, inl, inr, true, false, Option, none, some, List, arith, ok, err,
}
use harness_agent_rs.Schema.Json.{Json, Fields, get_field}
use harness_agent_rs.Schema.Output.{
  NodeOutput, Payload, completed, running, failed, pending, skipped,
}
use harness_agent_rs.OutputRef.{
  OutputRefErrorReason, not_in_schema, unparseable, missing_key, producer_not_run, value, empty,
  object_of, is_declared, parse_output_object, from_declared, declared_value, lenient_value,
  from_text, resolve_payload, resolve_node_output_field,
}

-- The payload of a node that ran.
abbrev pub payload : NodeOutput → Option Payload
payload (completed p) = some p
payload (running p) = some p
payload (failed e p) = some p
payload (pending t) = none
payload (skipped t) = none

module _ (from_str : Text → Option Json) (fence : Text → Option (Option Text)) where
  -- When each error is the answer.
  abbrev pub Blames : OutputRefErrorReason → Option Payload → Text → Type 0
  Blames producer_not_run p f = p ≡ none
  Blames not_in_schema p f =
      (q : Payload) × (p ≡ some q)
      × (ds : List Text) × (q.declared_fields ≡ some ds)
      × (is_declared f ds ≡ false)
  Blames unparseable p f =
      (q : Payload) × (p ≡ some q)
      × (q.declared_fields ≡ none)
      × (object_of q.structured_output ≡ none)
      × (parse_output_object from_str fence q.output ≡ none)
  Blames missing_key p f =
      (q : Payload) × (p ≡ some q)
      × (q.declared_fields ≡ none)
      × (object_of q.structured_output ≡ none)
      × (obj : Fields) × (parse_output_object from_str fence q.output ≡ some obj)
      × (get_field f obj ≡ none)

  errs_iff :
      (r : OutputRefErrorReason) (p : Payload) (d : Option (List Text)) (s o : Option Fields)
      (n f : Text)
      → p.declared_fields ≡ d
      → object_of p.structured_output ≡ s
      → parse_output_object from_str fence p.output ≡ o
      → (resolve_payload from_str fence d s p.output n f
          ≡ err (record { node_id = n; field = f; reason = r }))
        ↔ Blames r (some p) f
  unfolding resolve_payload from_text
  errs_iff producer_not_run p d s o n f hd hs ho = (λ h. ground arith, λ h. cc)
  errs_iff not_in_schema p (some ds) s o n f hd hs ho =
      (λ h. (p, refl, ds, hd, ground arith), λ h. ground arith)
  errs_iff not_in_schema p none (some obj) o n f hd hs ho = (λ h. cc, λ h. ground arith)
  errs_iff not_in_schema p none none o n f hd hs ho =
      (λ h. absurd (ground arith), λ h. ground arith)
  errs_iff unparseable p d s o n f hd hs ho =
      (λ h. (p, refl, ground arith, ground arith, ground arith), λ h. ground arith)
  errs_iff missing_key p d s none n f hd hs ho =
      (λ h. absurd (ground arith), λ h. absurd (ground arith))
  errs_iff missing_key p d s (some obj) n f hd hs ho =
      (λ h. (p, refl, ground arith, ground arith, obj, ho, ground arith), λ h. ground arith)

  -- Reading a field fails with a reason exactly if that is the case: the node did not run; it declares
  -- fields and not this one; or it declares none, has no structured object, and its text is no JSON
  -- object, or is one without the key. The error names the node and the field.
  pub resolve_errs_iff :
      (r : OutputRefErrorReason) (o : NodeOutput) (n f : Text)
      → (resolve_node_output_field from_str fence o n f
          ≡ err (record { node_id = n; field = f; reason = r }))
        ↔ Blames r (payload o) f
  unfolding resolve_node_output_field
  resolve_errs_iff r (completed p) n f = errs_iff r p _ _ _ n f refl refl refl
  resolve_errs_iff r (running p) n f = errs_iff r p _ _ _ n f refl refl refl
  resolve_errs_iff r (failed e p) n f = errs_iff r p _ _ _ n f refl refl refl
  resolve_errs_iff producer_not_run (pending t) n f = (λ h. refl, λ h. refl)
  resolve_errs_iff producer_not_run (skipped t) n f = (λ h. refl, λ h. refl)
  resolve_errs_iff not_in_schema (pending t) n f = (λ h. cc, λ h. cc)
  resolve_errs_iff not_in_schema (skipped t) n f = (λ h. cc, λ h. cc)
  resolve_errs_iff unparseable (pending t) n f = (λ h. cc, λ h. cc)
  resolve_errs_iff unparseable (skipped t) n f = (λ h. cc, λ h. cc)
  resolve_errs_iff missing_key (pending t) n f = (λ h. cc, λ h. cc)
  resolve_errs_iff missing_key (skipped t) n f = (λ h. cc, λ h. cc)

  -- Where an object that a value was read from stands.
  abbrev pub Holds : Option Payload → Text → Json → Type 0
  Holds none f v = ⊥
  Holds (some p) f v =
      (obj : Fields) × (get_field f obj ≡ some v)
      × ((object_of p.structured_output ≡ some obj)
          ⊎ (parse_output_object from_str fence p.output ≡ some obj))

  value-Holds :
      (p : Payload) (d : Option (List Text)) (s o : Option Fields) (n f : Text) (v : Json)
      → object_of p.structured_output ≡ s
      → parse_output_object from_str fence p.output ≡ o
      → resolve_payload from_str fence d s p.output n f ≡ ok (value v)
      → Holds (some p) f v
  unfolding resolve_payload from_text from_declared declared_value lenient_value
  value-Holds p (some ds) (some obj) o n f v hs ho h = (obj, ground arith, inl hs)
  value-Holds p (some ds) none (some obj) n f v hs ho h = (obj, ground arith, inr ho)
  value-Holds p (some ds) none none n f v hs ho h = absurd (ground arith)
  value-Holds p none (some obj) o n f v hs ho h = (obj, ground arith, inl hs)
  value-Holds p none none (some obj) n f v hs ho h = (obj, ground arith, inr ho)
  value-Holds p none none none n f v hs ho h = absurd (ground arith)

  -- A value that is read is the field's value in the structured object or in the object that the text
  -- parses to, of a node that ran.
  pub resolve_value :
      (o : NodeOutput) (n f : Text) (v : Json)
      → resolve_node_output_field from_str fence o n f ≡ ok (value v)
      → Holds (payload o) f v
  unfolding resolve_node_output_field
  resolve_value (completed p) n f v h = value-Holds p p.declared_fields _ _ n f v refl refl h
  resolve_value (running p) n f v h = value-Holds p p.declared_fields _ _ n f v refl refl h
  resolve_value (failed e p) n f v h = value-Holds p p.declared_fields _ _ n f v refl refl h
  resolve_value (pending t) n f v h = cc
  resolve_value (skipped t) n f v h = cc

  -- What entitles a read to be blank.
  abbrev pub MayBeBlank : Option Payload → Text → Type 0
  MayBeBlank none f = ⊥
  MayBeBlank (some p) f =
      ((ds : List Text) × (p.declared_fields ≡ some ds) × (is_declared f ds ≡ true))
      ⊎ ((obj : Fields) × (object_of p.structured_output ≡ some obj) × (get_field f obj ≡ none))

  blank_entitled :
      (p : Payload) (d : Option (List Text)) (s : Option Fields) (n f : Text)
      → p.declared_fields ≡ d
      → object_of p.structured_output ≡ s
      → resolve_payload from_str fence d s p.output n f ≡ ok empty
      → MayBeBlank (some p) f
  unfolding resolve_payload from_text lenient_value
  blank_entitled p (some ds) s n f hd hs h = inl (ds, hd, ground arith)
  blank_entitled p none (some obj) n f hd hs h = inr (obj, hs, ground arith)
  blank_entitled p none none n f hd hs h = absurd (ground arith)

  -- Nothing is dropped silently: a read that comes out blank is of a field that the node declares, or
  -- of a key that its structured object lacks.
  pub resolve_blank :
      (o : NodeOutput) (n f : Text)
      → resolve_node_output_field from_str fence o n f ≡ ok empty
      → MayBeBlank (payload o) f
  unfolding resolve_node_output_field
  resolve_blank (completed p) n f h = blank_entitled p _ _ n f refl refl h
  resolve_blank (running p) n f h = blank_entitled p _ _ n f refl refl h
  resolve_blank (failed e p) n f h = blank_entitled p _ _ n f refl refl h
  resolve_blank (pending t) n f h = cc
  resolve_blank (skipped t) n f h = cc
