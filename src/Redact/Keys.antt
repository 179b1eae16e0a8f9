-- ===== src/Redact/Keys.antt =====
-- No sensitive key keeps its value, at any depth, and nothing else changes.
use sippin_soda.Base.{
  ℕ, ◌≡◌, refl, ap, ◌∙◌, true, List, [], ◌∷◌, zero, suc, inl, inr, Bool-cases, Option-cases,
}
use sippin_soda.Text.{Text, text_eq, parse_usize}
use sippin_soda.Redact.{
  Value, null, bool, num, str, arr, obj, Items, nil, cons, Fields, end, field, hidden, is_sensitive,
  redact_json, redact_items, redact_fields, map_fields, map_items, update_field, update_item,
  redact_path, redact_paths, star,
}

module _ (to_lowercase : ℕ → Text) where
  -- Every entry with a sensitive key, at any depth, holds "[REDACTED]".
  unfoldable mutual
    pub IsClean : Value → Type 0
    IsClean null = Unit {0}
    IsClean (bool b) = Unit {0}
    IsClean (num n) = Unit {0}
    IsClean (str s) = Unit {0}
    IsClean (arr xs) = ItemsClean xs
    IsClean (obj fs) = FieldsClean fs

    pub ItemsClean : Items → Type 0
    ItemsClean nil = Unit {0}
    ItemsClean (cons x xs) = IsClean x × ItemsClean xs

    pub FieldsClean : Fields → Type 0
    FieldsClean end = Unit {0}
    FieldsClean (field key value fs) =
        (is_sensitive to_lowercase key ≡ true → value ≡ hidden) × IsClean value × FieldsClean fs

  hidden-IsClean : IsClean hidden
  unfolding IsClean
  hidden-IsClean = tt

  mutual
    unfolding IsClean redact_json

    IsClean-value : (v : Value) → IsClean (redact_json to_lowercase v)
    IsClean-value null = tt
    IsClean-value (bool b) = tt
    IsClean-value (num n) = tt
    IsClean-value (str s) = tt
    IsClean-value (arr xs) = clean_items xs
    IsClean-value (obj fs) = clean_fields fs

    clean_items : (xs : Items) → ItemsClean (redact_items to_lowercase xs)
    clean_items nil = tt
    clean_items (cons x xs) = (IsClean-value x, clean_items xs)

    clean_fields : (fs : Fields) → FieldsClean (redact_fields to_lowercase fs)
    clean_fields end = tt
    clean_fields (field key value fs) = elim (Bool-cases (is_sensitive to_lowercase key)) [
      | inl e ↦ rw e ((λ _. refl), hidden-IsClean, clean_fields fs)
      | inr e ↦ rw e ((λ h. cc), IsClean-value value, clean_fields fs)
    ]

  mutual
    unfolding IsClean redact_json

    fixed_value : (v : Value) → IsClean v → redact_json to_lowercase v ≡ v
    fixed_value null h = refl
    fixed_value (bool b) h = refl
    fixed_value (num n) h = refl
    fixed_value (str s) h = refl
    fixed_value (arr xs) h = ap arr (fixed_items xs h)
    fixed_value (obj fs) h = ap obj (fixed_fields fs h)

    fixed_items : (xs : Items) → ItemsClean xs → redact_items to_lowercase xs ≡ xs
    fixed_items nil h = refl
    fixed_items (cons x xs) (hx, hxs) = cc (fixed_value x hx, fixed_items xs hxs)

    fixed_fields : (fs : Fields) → FieldsClean fs → redact_fields to_lowercase fs ≡ fs
    fixed_fields end h = refl
    fixed_fields (field key value fs) (hk, hv, hfs) =
        elim (Bool-cases (is_sensitive to_lowercase key)) [
          | inl e ↦ cc (e, hk e, fixed_fields fs hfs)
          | inr e ↦ cc (e, fixed_value value hv, fixed_fields fs hfs)
        ]

  -- An operation on values that keeps them clean, and keeps "[REDACTED]".
  abbrev Keeps : (Value → Value) → Type 0
  Keeps f = ((v : Value) → IsClean v → IsClean (f v)) × (f hidden ≡ hidden)

  entry_kept :
      (f : Value → Value) (key : Text) (v : Value)
      → Keeps f
      → (is_sensitive to_lowercase key ≡ true → v ≡ hidden)
      → is_sensitive to_lowercase key ≡ true
      → f v ≡ hidden
  entry_kept f key v k h s = ap f (h s) ∙ k.1

  map_fields-Clean :
      (f : Value → Value) (fs : Fields) → Keeps f → FieldsClean fs → FieldsClean (map_fields f fs)
  unfolding IsClean map_fields
  map_fields-Clean f end k h = tt
  map_fields-Clean f (field key v fs) k (hk, hv, hfs) =
      (entry_kept f key v k hk, k.0 v hv, map_fields-Clean f fs k hfs)

  map_items-Clean :
      (f : Value → Value) (xs : Items) → Keeps f → ItemsClean xs → ItemsClean (map_items f xs)
  unfolding IsClean map_items
  map_items-Clean f nil k h = tt
  map_items-Clean f (cons x xs) k (hx, hxs) = (k.0 x hx, map_items-Clean f xs k hxs)

  update_field-Clean :
      (f : Value → Value) (name : Text) (fs : Fields)
      → Keeps f
      → FieldsClean fs
      → FieldsClean (update_field f name fs)
  unfolding IsClean update_field
  update_field-Clean f name end k h = tt
  update_field-Clean f name (field key v fs) k (hk, hv, hfs) =
      elim (Bool-cases (text_eq key name)) [
        | inl e ↦ rw e (entry_kept f key v k hk, k.0 v hv, hfs)
        | inr e ↦ rw e (hk, hv, update_field-Clean f name fs k hfs)
      ]

  update_item-Clean :
      (f : Value → Value) (i : ℕ) (xs : Items)
      → Keeps f
      → ItemsClean xs
      → ItemsClean (update_item f i xs)
  unfolding IsClean update_item
  update_item-Clean f i nil k h = tt
  update_item-Clean f zero (cons x xs) k (hx, hxs) = (k.0 x hx, hxs)
  update_item-Clean f (suc i) (cons x xs) k (hx, hxs) = (hx, update_item-Clean f i xs k hxs)

  redact_path-hidden : (path : List Text) → redact_path hidden path ≡ hidden
  unfolding redact_path
  redact_path-hidden [] = refl
  redact_path-hidden (segment ∷ remaining) = refl

  redact_path-Clean : (v : Value) (path : List Text) → IsClean v → IsClean (redact_path v path)
  unfolding redact_path IsClean
  redact_path-Clean v [] h = tt
  redact_path-Clean null (s ∷ r) h = tt
  redact_path-Clean (bool b) (s ∷ r) h = tt
  redact_path-Clean (num n) (s ∷ r) h = tt
  redact_path-Clean (str t) (s ∷ r) h = tt
  redact_path-Clean (obj fs) (s ∷ r) h =
      let k : Keeps (λ v. redact_path v r) = ((λ v. redact_path-Clean v r), redact_path-hidden r) in
      elim (Bool-cases (text_eq s star)) [
        | inl e ↦ rw e (map_fields-Clean (λ v. redact_path v r) fs k h)
        | inr e ↦ rw e (update_field-Clean (λ v. redact_path v r) s fs k h)
      ]
  redact_path-Clean (arr xs) (s ∷ r) h =
      let k : Keeps (λ v. redact_path v r) = ((λ v. redact_path-Clean v r), redact_path-hidden r) in
      elim (Bool-cases (text_eq s star)) [
        | inl e ↦ rw e (map_items-Clean (λ v. redact_path v r) xs k h)
        | inr e ↦ rw e (elim (Option-cases (parse_usize s)) [
          | inl n ↦ rw n h
          | inr (i, n) ↦ rw n (update_item-Clean (λ v. redact_path v r) i xs k h)
        ])
      ]

  redact_paths-Clean :
      (v : Value) (paths : List (List Text)) → IsClean v → IsClean (redact_paths v paths)
  unfolding redact_paths
  redact_paths-Clean v [] h = h
  redact_paths-Clean v (path ∷ paths) h =
      redact_paths-Clean (redact_path v path) paths (redact_path-Clean v path h)

  -- Whatever the body and the configured paths, in the stored copy every entry with a sensitive
  -- key, at any depth, holds "[REDACTED]".
  pub stored_copy-IsClean :
      (v : Value) (paths : List (List Text))
      → IsClean (redact_paths (redact_json to_lowercase v) paths)
  stored_copy-IsClean v paths =
      redact_paths-Clean (redact_json to_lowercase v) paths (IsClean-value v)

  -- A value with no unredacted sensitive entry is left as it is, so redacting twice is redacting once.
  pub redact_json_fixed :
      (v : Value)
      → (IsClean v → redact_json to_lowercase v ≡ v)
        × (redact_json to_lowercase (redact_json to_lowercase v) ≡ redact_json to_lowercase v)
  redact_json_fixed v = (fixed_value v, fixed_value (redact_json to_lowercase v) (IsClean-value v))
