-- ===== src/Dag/Refs/Quoting.antt =====
-- How a shell reads what `substitute_node_output_refs` puts into a script,
-- crates/har-dag-executor/src/dag_executor.rs.
use harness_agent_rs.Prelude.{
  ◌≡◌, refl, sym, subst, ◌⊎◌, inl, inr, ltb, Text, text, Bool, true, false, Option, none, some,
  ◌++◌, Dict, get, if◌then◌else◌, Result, ok, err, Option-cases,
}
use harness_agent_rs.Schema.Json.{Json, null, bool, number, string, array, object}
use harness_agent_rs.Schema.Output.{NodeOutput, output}
use harness_agent_rs.OutputRef.{
  OutputRefError, FieldResolution, value, empty, resolve_node_output_field,
}
use harness_agent_rs.Dag.Refs.{
  shell_quote, byte_length, node_output_file_threshold, Quoted, inline, spilled,
  shell_quote_or_file, placed, blank, substitute_value, substitute_field, substitute_output,
  substitute_ref, path_join, file_name,
}
use harness_agent_rs.Dag.Refs.Shell.{read_word, outside, shell_quote-word}

module _ (from_str : Text → Option Json) (fence : Text → Option (Option Text))
    (to_string : Json → Text) (write : Text → Text → Bool) where
  -- What needs no quotes, or gets none: a number, a Boolean, the text of an error.
  abbrev pub Bare : Result OutputRefError FieldResolution → Type 0
  Bare (ok (value (number t))) = Unit
  Bare (ok (value (bool c))) = Unit
  Bare (err e) = Unit
  Bare _ = ⊥

  -- A script's text is read by a shell as the text of the prompt.
  abbrev pub ReadAs : Quoted → Quoted → Type 0
  ReadAs script prompt = read_word outside script.shown ≡ some prompt.shown

  -- The file that a script's text refers to holds the text.
  unfoldable pub Carries : Quoted → Text → Type 0
  Carries q v =
      (read_word outside q.shown ≡ some v)
      ⊎ ((path : Text) × (q.file ≡ some (path, v))
          × (q.shown ≡ text "$(cat " ++ shell_quote path ++ text ")")
          × (read_word outside (shell_quote path) ≡ some path))

  -- A text for a script is read back as it was, or it is a call of `cat` on a file whose name is read
  -- back as it was and that holds the text.
  pub shell_quote_or_file-Carries :
      (v n : Text) (f dir : Option Text)
      → Carries (shell_quote_or_file from_str fence to_string write v n f dir) v
  unfolding shell_quote_or_file spilled Carries
  shell_quote_or_file-Carries v n f none = inl (shell_quote-word v)
  shell_quote_or_file-Carries v n f (some dir) =
      elim (ltb node_output_file_threshold (byte_length v))
        as (λ b.
          Carries
            (if b
              then spilled from_str fence to_string write (path_join dir (file_name n f)) v
              else inline (shell_quote v))
            v) [
              | false ↦ inl (shell_quote-word v)
              | true ↦
                  elim (write (path_join dir (file_name n f)) v)
                    as (λ b.
                      Carries
                        (if b
                          then (record {
                            shown =
                                text "$(cat "
                                ++ shell_quote (path_join dir (file_name n f))
                                ++ text ")";
                            file = some (path_join dir (file_name n f), v);
                          })
                          else inline (shell_quote v))
                        v) [
                          | false ↦ inl (shell_quote-word v)
                          | true ↦ inr (
                            path_join dir (file_name n f),
                            refl,
                            refl,
                            shell_quote-word (path_join dir (file_name n f)),
                          )
                        ]
            ]

  substitute_value-same :
      (n f : Text) (v : Json)
      → ReadAs
          (substitute_value from_str fence to_string write true n f none v)
          (substitute_value from_str fence to_string write false n f none v)
        ⊎ (Bare (ok (value v))
            × (substitute_value from_str fence to_string write true n f none v
                ≡ substitute_value from_str fence to_string write false n f none v))
  unfolding substitute_value placed shell_quote_or_file
  substitute_value-same n f (string s) = inl (shell_quote-word s)
  substitute_value-same n f (number t) = inr (_, refl)
  substitute_value-same n f (bool c) = inr (_, refl)
  substitute_value-same n f null = inl (shell_quote-word (to_string null))
  substitute_value-same n f (array a) = inl (shell_quote-word (to_string (array a)))
  substitute_value-same n f (object a) = inl (shell_quote-word (to_string (object a)))

  blank-same :
      ReadAs
        (blank from_str fence to_string write true)
        (blank from_str fence to_string write false)
  unfolding read_word
  blank-same = refl

  substitute_field-same :
      (n f : Text) (r : Result OutputRefError FieldResolution)
      → ReadAs
          (substitute_field from_str fence to_string write true n f none r)
          (substitute_field from_str fence to_string write false n f none r)
        ⊎ (Bare r
            × (substitute_field from_str fence to_string write true n f none r
                ≡ substitute_field from_str fence to_string write false n f none r))
  unfolding substitute_field
  substitute_field-same n f (ok empty) = inl blank-same
  substitute_field-same n f (ok (value v)) = substitute_value-same n f v
  substitute_field-same n f (err e) = inr (_, refl)

  -- Two texts of a reference: the same to a shell, or the field of an output that needs no quotes.
  abbrev pub Agrees : Dict NodeOutput → Text → Option Text → Quoted → Quoted → Type 0
  Agrees outputs n f script prompt =
      ReadAs script prompt
      ⊎ ((o : NodeOutput) × (k : Text) × (get n outputs ≡ some o)
          × (f ≡ some k)
          × Bare (resolve_node_output_field from_str fence o n k)
          × (script ≡ prompt))

  substitute_output-same :
      (outputs : Dict NodeOutput) (n : Text) (f : Option Text) (o : NodeOutput)
      → get n outputs ≡ some o
      → Agrees outputs n f
          (substitute_output from_str fence to_string write true n f none o)
          (substitute_output from_str fence to_string write false n f none o)
  unfolding substitute_output placed shell_quote_or_file
  substitute_output-same outputs n none o h = inl (shell_quote-word (output o))
  substitute_output-same outputs n (some k) o h =
      elim (substitute_field-same n k (resolve_node_output_field from_str fence o n k)) [
        | inl e ↦ inl e
        | inr e ↦ inr (o, k, h, refl, e.0, e.1)
      ]

  ref-value :
      (outputs : Dict NodeOutput) (b : Bool) (n : Text) (f : Option Text) (o : NodeOutput)
      → get n outputs ≡ some o
      → substitute_ref from_str fence to_string write outputs b n f none
        ≡ substitute_output from_str fence to_string write b n f none o
  unfolding substitute_ref
  ref-value outputs b n f o e = rw (substitute_ref, e) refl

  -- When no files are used, a reference in a script is read by the shell as exactly the text that the
  -- same reference has in a prompt; only the field of an output that is a number, a Boolean or an
  -- error is put into both as the same text without quotes.
  pub script_matches_prompt :
      (outputs : Dict NodeOutput) (n : Text) (f : Option Text)
      → Agrees outputs n f
          (substitute_ref from_str fence to_string write outputs true n f none)
          (substitute_ref from_str fence to_string write outputs false n f none)
  unfolding substitute_ref
  script_matches_prompt outputs n f = elim (Option-cases (get n outputs)) [
    | inl e ↦ rw (substitute_ref, e) (inl blank-same)
    | inr (o, e) ↦
        let prompt = substitute_ref from_str fence to_string write outputs false n f none in
        let script = substitute_output from_str fence to_string write true n f none o in
        subst (λ x. Agrees outputs n f x prompt) (sym (ref-value outputs true n f o e))
          (subst (Agrees outputs n f script) (sym (ref-value outputs false n f o e))
            (substitute_output-same outputs n f o e))
  ]
