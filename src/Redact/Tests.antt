-- ===== src/Redact/Tests.antt =====
-- The unit tests of crates/engine/src/proxy/bodies.rs on redaction, and the theorems at their data.
use sippin_soda.Base.{
  ℕ, ◌≡◌, refl, List, [], ◌∷◌, ok, collect, retain, is_ok, false, arith, inl, inr, some,
}
use sippin_soda.Text.{Text, text, methods, lower}
use sippin_soda.Redact.{
  Value, null, str, arr, obj, nil, cons, end, field, hidden, redact_json, redact_path, redact_paths,
  is_sensitive, compile_path, compile_trimmed, compile_redaction_paths, decode_pointer_segment,
}
use sippin_soda.Redact.Keys.{IsClean, stored_copy-IsClean, redact_json_fixed}
use sippin_soda.Redact.Paths.{
  Step, key, index, value_at, redact_path_selected, redact_paths_selected, IsHiddenAt,
}
use sippin_soda.Redact.Pointer.{print_pointer, compile_path-print}

-- On the keys of these tests `char::to_lowercase` is ASCII lower-casing.
abbrev to_lowercase : ℕ → Text
to_lowercase c = lower c ∷ []

opened : Unit {0}
unfolding methods redact_json redact_path redact_paths is_sensitive compile_path compile_trimmed
    compile_redaction_paths decode_pointer_segment collect retain
opened = tt

abbrev sample : Value
sample = obj (
    field (text "email") (str (text "dev@example.test")) (
      field (text "Pass-Word") (str (text "hunter2")) (
        field (text "items")
          (arr (cons (obj (field (text "client-secret") (str (text "xyz")) end)) nil)) end)))

sample_redacted :
    redact_json to_lowercase sample
    ≡ obj (
        field (text "email") (str (text "dev@example.test")) (
          field (text "Pass-Word") hidden (
            field
              (text "items")
              (arr (cons (obj (field (text "client-secret") hidden end)) nil))
              end)))
unfolding opened
sample_redacted = refl

abbrev customers : Value
customers = obj (
    field (text "customers")
      (arr (
        cons (obj (field (text "email") (str (text "one@test")) end))
          (cons (obj (field (text "email") (str (text "two@test")) end)) nil)))
      end)

abbrev email_path : List Text
email_path = text "customers" ∷ text "*" ∷ text "email" ∷ []

customers_redacted :
    redact_path customers email_path
    ≡ obj (
        field
          (text "customers")
          (arr (
            cons
              (obj (field (text "email") hidden end))
              (cons (obj (field (text "email") hidden end)) nil)))
          end)
unfolding opened
customers_redacted = refl

paths_compile :
    compile_redaction_paths
      (text "/customers/*/email" ∷ text "  " ∷ text "/metadata/card~1number" ∷ [])
    ≡ ok (email_path ∷ (text "metadata" ∷ text "card/number" ∷ []) ∷ [])
unfolding opened
paths_compile = refl

relative_refused : is_ok (compile_redaction_paths (text "customers/email" ∷ [])) ≡ false
unfolding opened
relative_refused = refl

escape_refused : is_ok (compile_redaction_paths (text "/bad~2escape" ∷ [])) ≡ false
unfolding opened
escape_refused = refl

-- An index with a sign or leading zeros is read as well.
signed_index :
    redact_path (arr (cons null (cons null nil))) (text "+01" ∷ [])
    ≡ arr (cons null (cons hidden nil))
unfolding opened
signed_index = refl

stored_copy-IsClean_example :
    IsClean to_lowercase (redact_paths (redact_json to_lowercase sample) (email_path ∷ []))
stored_copy-IsClean_example = stored_copy-IsClean to_lowercase sample (email_path ∷ [])

redact_json_fixed_test :
    (IsClean to_lowercase sample → redact_json to_lowercase sample ≡ sample)
    × (redact_json to_lowercase (redact_json to_lowercase sample) ≡ redact_json to_lowercase sample)
redact_json_fixed_test = redact_json_fixed to_lowercase sample

abbrev second_email : List Step
second_email = key (text "customers") ∷ index 1 ∷ key (text "email") ∷ []

redact_path_selected_test : value_at (redact_path customers email_path) second_email ≡ some hidden
unfolding value_at opened
redact_path_selected_test =
    redact_path_selected customers email_path second_email (inr refl, (inl refl, (inr refl, tt)))

redact_paths_selected_example :
    IsHiddenAt second_email
      (redact_paths customers ((text "metadata" ∷ []) ∷ email_path ∷ (text "customers" ∷ []) ∷ []))
redact_paths_selected_example =
    redact_paths_selected customers ((text "metadata" ∷ []) ∷ []) email_path
      ((text "customers" ∷ []) ∷ []) second_email (inr refl, (inl refl, (inr refl, tt)))

compile_path-print_example :
    compile_path (print_pointer (text "a/b" ∷ text "~" ∷ [])) ≡ ok (text "a/b" ∷ text "~" ∷ [])
unfolding methods print_pointer
compile_path-print_example = compile_path-print (text "a/b") (text "~" ∷ []) refl (omega arith)
