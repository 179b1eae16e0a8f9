-- ===== src/Redact/Paths.antt =====
-- Custom paths: what a path selects is hidden.
use sippin_soda.Base.{
  ℕ, ◌≡◌, refl, sym, ap, subst, ◌∙◌, false, Option, none, some, List, [], ◌∷◌, zero, suc, ◌⊎◌, inl,
  inr, arith, if◌then◌else◌, Bool-cases, Option-cases, ◌≢◌, ◌↔◌, some_inj, ◌++◌,
}
use sippin_soda.Text.{Text, text_eq, parse_usize}
use sippin_soda.Text.Laws.{text_eq→eq, text_eq_refl}
use sippin_soda.Redact.{
  Value, null, bool, num, str, arr, obj, Items, nil, cons, Fields, end, field, hidden, map_fields,
  map_items, update_field, update_item, redact_path, redact_paths, star,
}
use mathlib.Core.Option
use native.Mathlib.Decide.{ℕ_discrete}

-- One step into a value: an entry of an object, or an element of an array.
pub data Step : Type 0 where
  key : Text → Step
  index : ℕ → Step

unfoldable pub field_at : Text → Fields → Option Value
field_at name end = none
field_at name (field k v fs) = if text_eq k name then some v else field_at name fs

unfoldable pub item_at : ℕ → Items → Option Value
item_at i nil = none
item_at zero (cons x xs) = some x
item_at (suc i) (cons x xs) = item_at i xs

abbrev child : Value → Step → Option Value
child (obj fs) (key name) = field_at name fs
child (arr xs) (index i) = item_at i xs
child _ _ = none

-- What stands at the end of the steps.
unfoldable pub value_at : Value → List Step → Option Value
unfolding field_at item_at
value_at v [] = some v
value_at v (s ∷ steps) = elim (child v s) [ none ↦ none | some w ↦ value_at w steps ]

-- A segment of a path covers a step: it is "*", or names the entry or the element.
abbrev pub Covers : Text → Step → Type 0
Covers segment (key name) = (segment ≡ star) ⊎ (segment ≡ name)
Covers segment (index i) = (segment ≡ star) ⊎ (parse_usize segment ≡ some i)

abbrev pub Selects : List Text → List Step → Type 0
Selects [] [] = Unit
Selects [] (s ∷ steps) = ⊥
Selects (segment ∷ path) [] = ⊥
Selects (segment ∷ path) (s ∷ steps) = Covers segment s × Selects path steps

module _ (f : Value → Value) where
  field_at-map :
      (name : Text) (fs : Fields)
      → field_at name (map_fields f fs) ≡ Option.map f (field_at name fs)
  unfolding field_at map_fields
  field_at-map name end = refl
  field_at-map name (field k v fs) = ground (arith, field_at-map name fs)

  item_at-map : (i : ℕ) (xs : Items) → item_at i (map_items f xs) ≡ Option.map f (item_at i xs)
  unfolding item_at map_items
  item_at-map i nil = refl
  item_at-map zero (cons x xs) = refl
  item_at-map (suc i) (cons x xs) = item_at-map i xs

  field_at-update :
      (name : Text) (fs : Fields)
      → field_at name (update_field f name fs) ≡ Option.map f (field_at name fs)
  unfolding field_at update_field
  field_at-update name end = refl
  field_at-update name (field k v fs) = ground (arith, field_at-update name fs)

  item_at-update :
      (i : ℕ) (xs : Items) → item_at i (update_item f i xs) ≡ Option.map f (item_at i xs)
  unfolding item_at update_item
  item_at-update i nil = refl
  item_at-update zero (cons x xs) = refl
  item_at-update (suc i) (cons x xs) = item_at-update i xs

not_star : (segment : Text) → segment ≡ star → text_eq segment star ≡ false → ⊥
not_star segment e h = cc (ap (λ t. text_eq t star) e, text_eq_refl star)

named :
    (segment name : Text)
    → Covers segment (key name)
    → text_eq segment star ≡ false
    → segment ≡ name
named segment name (inl e) h = absurd (not_star segment e h)
named segment name (inr e) h = e

numbered :
    (segment : Text) (i : ℕ)
    → Covers segment (index i)
    → text_eq segment star ≡ false
    → parse_usize segment ≡ some i
numbered segment i (inl e) h = absurd (not_star segment e h)
numbered segment i (inr e) h = e

-- Under a segment that covers the step, the child is redacted by the rest of the path.
child-redact_path :
    (v : Value) (segment : Text) (path : List Text) (s : Step)
    → Covers segment s
    → child (redact_path v (segment ∷ path)) s ≡ Option.map (λ w. redact_path w path) (child v s)
unfolding redact_path field_at item_at
child-redact_path (obj fs) segment path (key name) c = elim (Bool-cases (text_eq segment star)) [
  | inl e ↦ rw e (field_at-map (λ w. redact_path w path) name fs)
  | inr e ↦ rw e (
      subst
        (λ t.
          field_at name (update_field (λ w. redact_path w path) t fs)
          ≡ Option.map (λ w. redact_path w path) (field_at name fs))
        (sym (named segment name c e)) (field_at-update (λ w. redact_path w path) name fs))
]
child-redact_path (arr xs) segment path (index i) c = elim (Bool-cases (text_eq segment star)) [
  | inl e ↦ rw e (item_at-map (λ w. redact_path w path) i xs)
  | inr e ↦ rw (e, numbered segment i c e) (item_at-update (λ w. redact_path w path) i xs)
]
child-redact_path (obj fs) segment path (index i) c = ground arith
child-redact_path (arr xs) segment path (key name) c = ground arith
child-redact_path null segment path s c = refl
child-redact_path (bool b) segment path s c = refl
child-redact_path (num n) segment path s c = refl
child-redact_path (str t) segment path s c = refl

redact_path-root : (v : Value) → redact_path v [] ≡ hidden
unfolding redact_path
redact_path-root null = refl
redact_path-root v = refl

module _ (v : Value) (s : Step) (steps : List Step) where
  value_at_missing : child v s ≡ none → value_at v (s ∷ steps) ≡ none
  unfolding value_at
  value_at_missing e = rw (e, value_at)

  value_at-child : {w : Value} → child v s ≡ some w → value_at v (s ∷ steps) ≡ value_at w steps
  unfolding value_at
  value_at-child e = rw (e, value_at)

value_at_here : (v : Value) → value_at v [] ≡ some v
unfolding value_at
value_at_here null = refl
value_at_here v = refl

-- Redaction by a path puts "[REDACTED]" at every place that the path selects, and makes no place.
pub redact_path_selected :
    (v : Value) (path : List Text) (steps : List Step)
    → Selects path steps
    → value_at (redact_path v path) steps ≡ Option.map (λ _. hidden) (value_at v steps)
redact_path_selected v [] [] h =
    value_at_here (redact_path v [])
    ∙ ap some (redact_path-root v)
    ∙ sym (ap (Option.map (λ _. hidden)) (value_at_here v))
redact_path_selected v (segment ∷ path) (s ∷ steps) (c, h) =
    let below = child-redact_path v segment path s c in
    elim (Option-cases (child v s)) [
      | inl e ↦
          value_at_missing (redact_path v (segment ∷ path)) s steps
            (below ∙ ap (Option.map (λ w. redact_path w path)) e)
          ∙ sym (ap (Option.map (λ _. hidden)) (value_at_missing v s steps e))
      | inr (w, e) ↦
          value_at-child (redact_path v (segment ∷ path)) s steps
            (below ∙ ap (Option.map (λ w. redact_path w path)) e)
          ∙ redact_path_selected w path steps h
          ∙ sym (ap (Option.map (λ _. hidden)) (value_at-child v s steps e))
    ]
redact_path_selected v [] (s ∷ steps) h = elim h [ ]
redact_path_selected v (segment ∷ path) [] h = elim h [ ]

-- Nothing stands at the place, or "[REDACTED]".
abbrev pub IsHiddenAt : List Step → Value → Type 0
IsHiddenAt steps v = (value_at v steps ≡ none) ⊎ (value_at v steps ≡ some hidden)

field_at-other :
    (f : Value → Value) (name other : Text) (fs : Fields)
    → text_eq other name ≡ false
    → field_at name (update_field f other fs) ≡ field_at name fs
unfolding field_at update_field
field_at-other f name other end h = refl
field_at-other f name other (field k v fs) h = elim (Bool-cases (text_eq k other)) [
  | inl e ↦ rw (text_eq→eq k other e) (ground (arith, text_eq_refl other))
  | inr e ↦ rw e (ground (arith, field_at-other f name other fs h))
]

item_at-other :
    (f : Value → Value) (i j : ℕ) (xs : Items)
    → i ≢ j
    → item_at i (update_item f j xs) ≡ item_at i xs
unfolding item_at update_item
item_at-other f i j nil h = refl
item_at-other f zero zero (cons x xs) h = absurd (h refl)
item_at-other f zero (suc j) (cons x xs) h = refl
item_at-other f (suc i) zero (cons x xs) h = refl
item_at-other f (suc i) (suc j) (cons x xs) h = item_at-other f i j xs (λ e. h (ap suc e))

-- A child is redacted by the rest of the path, or left as it is.
abbrev Either : Value → Text → List Text → Step → Type 0
Either v segment path s =
    (child (redact_path v (segment ∷ path)) s ≡ child v s)
    ⊎ (child (redact_path v (segment ∷ path)) s ≡ Option.map (λ w. redact_path w path) (child v s))

child-Either-key :
    (fs : Fields) (segment : Text) (path : List Text) (name : Text)
    → Either (obj fs) segment path (key name)
unfolding redact_path
child-Either-key fs segment path name = elim (Bool-cases (text_eq segment star)) [
  | inl e ↦
      inr (child-redact_path (obj fs) segment path (key name) (inl (text_eq→eq segment star e)))
  | inr e ↦ elim (Bool-cases (text_eq segment name)) [
    | inl n ↦
        inr (child-redact_path (obj fs) segment path (key name) (inr (text_eq→eq segment name n)))
    | inr n ↦ inl (rw e (field_at-other (λ w. redact_path w path) name segment fs n))
  ]
]

child-Either-index :
    (xs : Items) (segment : Text) (path : List Text) (i : ℕ)
    → Either (arr xs) segment path (index i)
unfolding redact_path
child-Either-index xs segment path i = elim (Bool-cases (text_eq segment star)) [
  | inl e ↦
      inr (child-redact_path (arr xs) segment path (index i) (inl (text_eq→eq segment star e)))
  | inr e ↦ elim (Option-cases (parse_usize segment)) [
    | inl n ↦ inl (rw (e, n))
    | inr (j, n) ↦ elim (ℕ_discrete i j) [
      | yes same ↦
          inr (child-redact_path (arr xs) segment path (index i) (inr (n ∙ ap some (sym same))))
      | no apart ↦ inl (rw (e, n) (item_at-other (λ w. redact_path w path) i j xs apart))
    ]
  ]
]

child-Either : (v : Value) (segment : Text) (path : List Text) (s : Step) → Either v segment path s
unfolding redact_path
child-Either (obj fs) segment path (key name) = child-Either-key fs segment path name
child-Either (arr xs) segment path (index i) = child-Either-index xs segment path i
child-Either (obj fs) segment path (index i) = inl (ground arith)
child-Either (arr xs) segment path (key name) = inl (ground arith)
child-Either null segment path s = inl refl
child-Either (bool b) segment path s = inl refl
child-Either (num n) segment path s = inl refl
child-Either (str t) segment path s = inl refl

hidden-IsHiddenAt : (steps : List Step) → IsHiddenAt steps hidden
unfolding value_at
hidden-IsHiddenAt [] = inr refl
hidden-IsHiddenAt (key name ∷ steps) = inl refl
hidden-IsHiddenAt (index i ∷ steps) = inl refl

redact_hidden : (path : List Text) → redact_path hidden path ≡ hidden
unfolding redact_path
redact_hidden [] = refl
redact_hidden (segment ∷ path) = refl

IsHiddenAt-child :
    (v w : Value) (s : Step) (steps : List Step)
    → child v s ≡ some w
    → IsHiddenAt (s ∷ steps) v ↔ IsHiddenAt steps w
IsHiddenAt-child v w s steps e =
    let at = value_at-child v s steps e in
    (
      elim [ inl h ↦ inl (sym at ∙ h) | inr h ↦ inr (sym at ∙ h) ],
      elim [ inl h ↦ inl (at ∙ h) | inr h ↦ inr (at ∙ h) ],
    )

-- What is hidden stays hidden under every further path.
redact_path-IsHiddenAt :
    (v : Value) (path : List Text) (steps : List Step)
    → IsHiddenAt steps v
    → IsHiddenAt steps (redact_path v path)
redact_path-IsHiddenAt v [] steps h =
    subst (IsHiddenAt steps) (sym (redact_path-root v)) (hidden-IsHiddenAt steps)
redact_path-IsHiddenAt v (segment ∷ path) [] (inl h) = absurd (shown v h)
  where
    shown : (w : Value) → value_at w [] ≡ none → ⊥
    shown w e = cc (value_at_here w)
redact_path-IsHiddenAt v (segment ∷ path) [] (inr h) =
    let root : v ≡ hidden = some_inj (sym (value_at_here v) ∙ h) in
    inr (
      value_at_here _
      ∙ ap some (ap (λ w. redact_path w (segment ∷ path)) root ∙ redact_hidden (segment ∷ path)))
redact_path-IsHiddenAt v (segment ∷ path) (s ∷ steps) h =
    let v' = redact_path v (segment ∷ path) in
    elim (Option-cases (child v s)) [
      | inl e ↦ elim (child-Either v segment path s) [
        | inl same ↦ inl (value_at_missing v' s steps (same ∙ e))
        | inr deeper ↦
            inl (value_at_missing v' s steps (deeper ∙ ap (Option.map (λ w. redact_path w path)) e))
      ]
      | inr (w, e) ↦
          let below = (IsHiddenAt-child v w s steps e).0 h in
          elim (child-Either v segment path s) [
            | inl same ↦ (IsHiddenAt-child v' w s steps (same ∙ e)).1 below
            | inr deeper ↦
                (IsHiddenAt-child v' (redact_path w path) s steps
                    (deeper ∙ ap (Option.map (λ u. redact_path u path)) e)).1
                  (redact_path-IsHiddenAt w path steps below)
          ]
    ]

redact_paths-IsHiddenAt :
    (v : Value) (paths : List (List Text)) (steps : List Step)
    → IsHiddenAt steps v
    → IsHiddenAt steps (redact_paths v paths)
unfolding redact_paths
redact_paths-IsHiddenAt v [] steps h = h
redact_paths-IsHiddenAt v (path ∷ paths) steps h =
    redact_paths-IsHiddenAt (redact_path v path) paths steps (redact_path-IsHiddenAt v path steps h)

selected-IsHiddenAt :
    (v : Value) (path : List Text) (steps : List Step)
    → Selects path steps
    → IsHiddenAt steps (redact_path v path)
selected-IsHiddenAt v path steps h = elim (Option-cases (value_at v steps)) [
  | inl e ↦ inl (redact_path_selected v path steps h ∙ ap (Option.map (λ _. hidden)) e)
  | inr (w, e) ↦ inr (redact_path_selected v path steps h ∙ ap (Option.map (λ _. hidden)) e)
]

-- After the redaction by all the configured paths, whatever any one of them selects is gone or
-- reads "[REDACTED]", also where paths overlap.
pub redact_paths_selected :
    (v : Value) (before : List (List Text)) (path : List Text) (later : List (List Text))
    (steps : List Step)
    → Selects path steps
    → IsHiddenAt steps (redact_paths v (before ++ path ∷ later))
unfolding redact_paths
redact_paths_selected v [] path later steps h =
    redact_paths-IsHiddenAt (redact_path v path) later steps (selected-IsHiddenAt v path steps h)
redact_paths_selected v (first ∷ before) path later steps h =
    redact_paths_selected (redact_path v first) before path later steps h
