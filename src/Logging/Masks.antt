-- ===== src/Logging/Masks.antt =====
-- Logger.ts: a value under a secret key leaves no trace in the line.
use Prim.Native.String.{[], ◌∷◌}
use aws_access_bridge.Base.{
  ℕ, String, List, [], ◌∷◌, ◌==◌, Bool-cases, inl, inr, eq_iff, subst, if◌then◌else◌, ◌≡◌, refl,
  sym, ◌∙◌, ap,
}
use aws_access_bridge.Logging.{
  is_secret_key, Value, string, scalar, array, error_value, object, Values, empty_array, and_value,
  Fields, empty_object, field, and_safe_value, circular, has_seen, safe_array, safe_field,
  safe_object, put_field, spread, redact_value, redact_values, redact_entries, redact_message,
  log_line,
}

-- The fields with a fixed scalar in place of each value under a secret key, at every depth.
unfoldable mutual
  pub mask_value : Value → Value
  mask_value (string s) = string s
  mask_value (scalar s) = scalar s
  mask_value (array values) = array (mask_values values)
  mask_value (error_value message) = error_value message
  mask_value (object identity fields) = object identity (mask_fields fields)

  pub mask_values : Values → Values
  mask_values empty_array = empty_array
  mask_values (and_value value values) = and_value (mask_value value) (mask_values values)

  pub mask_fields : Fields → Fields
  mask_fields empty_object = empty_object
  mask_fields (field key value fields) =
      field key (if is_secret_key key then scalar "" else mask_value value) (mask_fields fields)

abbrev masked : String → Value → Value
masked key value = if is_secret_key key then scalar "" else mask_value value

mask_fields-put_field :
    (key : String) (value : Value) (fields : Fields)
    → mask_fields (put_field key value fields)
      ≡ put_field key (masked key value) (mask_fields fields)
unfolding put_field mask_fields
mask_fields-put_field key value empty_object = refl
mask_fields-put_field key value (field k v rest) =
    let later = mask_fields-put_field key value rest in
    elim (Bool-cases (k == key)) [
      | inl e ↦
          subst
            (λ b.
              mask_fields (if b then field k value rest else field k v (put_field key value rest))
              ≡ (if b
                  then field k (masked key value) (mask_fields rest)
                  else field k (masked k v) (put_field key (masked key value) (mask_fields rest))))
            (sym e) (ap (λ x. field k (masked x value) (mask_fields rest)) ((eq_iff k key).0 e))
      | inr e ↦
          subst
            (λ b.
              mask_fields (if b then field k value rest else field k v (put_field key value rest))
              ≡ (if b
                  then field k (masked key value) (mask_fields rest)
                  else field k (masked k v) (put_field key (masked key value) (mask_fields rest))))
            (sym e) (ap (field k (masked k v)) later)
    ]

mask_fields-spread :
    (context fields : Fields)
    → mask_fields (spread context fields) ≡ spread (mask_fields context) (mask_fields fields)
unfolding spread mask_fields
mask_fields-spread context empty_object = refl
mask_fields-spread context (field k v rest) =
    mask_fields-spread (put_field k v context) rest
    ∙ ap (λ c. spread c (mask_fields rest)) (mask_fields-put_field k v context)

-- Two results in a row, the second from where the first one ends.
abbrev after : {A B C D : Type 0} → (A × C → B × C → D) → A × C → (C → B × C) → D
after f first next = f first (next first.1)

after-same :
    {A B C D : Type 0} (f : A × C → B × C → D) {a a' : A × C} {next next' : C → B × C}
    → a ≡ a'
    → ((c : C) → next c ≡ next' c)
    → after f a next ≡ after f a' next'
after-same f {a' = a'} {next} p q = ap (λ x. after f x next) p ∙ ap (f a') (q a'.1)

module _ (replace_all : String → String → String) where
  mutual
    unfolding redact_value redact_values redact_entries mask_value mask_values mask_fields

    redact_value-mask_value :
        (value : Value) (seen : List ℕ)
        → redact_value replace_all (mask_value value) seen ≡ redact_value replace_all value seen
    redact_value-mask_value (string s) seen = refl
    redact_value-mask_value (scalar s) seen = refl
    redact_value-mask_value (array values) seen =
        ap (λ p. (safe_array p.0, p.1)) (redact_values-mask_values values seen)
    redact_value-mask_value (error_value message) seen = refl
    redact_value-mask_value (object identity fields) seen =
        ap
          (λ p.
            if has_seen identity seen then (safe_object circular, seen) else (safe_object p.0, p.1))
          (redact_entries-mask_fields fields (identity ∷ seen))

    redact_values-mask_values :
        (values : Values) (seen : List ℕ)
        → redact_values replace_all (mask_values values) seen
          ≡ redact_values replace_all values seen
    redact_values-mask_values empty_array seen = refl
    redact_values-mask_values (and_value value values) seen =
        after-same (λ a b. (and_safe_value a.0 b.0, b.1)) (redact_value-mask_value value seen)
          (redact_values-mask_values values)

    redact_entries-mask_fields :
        (fields : Fields) (seen : List ℕ)
        → redact_entries replace_all (mask_fields fields) seen
          ≡ redact_entries replace_all fields seen
    redact_entries-mask_fields empty_object seen = refl
    redact_entries-mask_fields (field key value fields) seen =
        elim (Bool-cases (is_secret_key key)) [
          | inl e ↦ rw (e, redact_entries-mask_fields fields seen)
          | inr e ↦
              let both =
                after-same (λ a b. (safe_field key a.0 b.0, b.1))
                  (redact_value-mask_value value seen) (redact_entries-mask_fields fields) in
              rw e both
        ]

  -- Two calls with the same message, whose contexts and fields differ in the values under secret keys
  -- alone, at any depth, write the same line, whatever the engine of the patterns does.
  pub log_line-mask_fields :
      (message : String) (context other_context fields other_fields : Fields)
      → mask_fields context ≡ mask_fields other_context
      → mask_fields fields ≡ mask_fields other_fields
      → log_line replace_all context message fields
        ≡ log_line replace_all other_context message other_fields
  unfolding log_line
  log_line-mask_fields message context other_context fields other_fields p q =
      let same =
        mask_fields-spread context fields
        ∙ (ap (λ c. spread c (mask_fields fields)) p
            ∙ ap (spread (mask_fields other_context)) q
            ∙ sym (mask_fields-spread other_context other_fields)) in
      let shown = λ (f : Fields). (redact_entries replace_all f []).0 in
      let masked_line = λ (f : Fields). ap (λ r. r.0) (redact_entries-mask_fields f []) in
      ap (λ f. (redact_message replace_all message, f))
        (sym (masked_line (spread context fields))
          ∙ (ap shown same ∙ masked_line (spread other_context other_fields)))
