-- ===== src/JsonLayout/Spaces.antt =====
-- The layout changes the white space outside strings only.
use sippin_soda.Base.{
  ℕ, zero, suc, ◌*◌, ◌++◌, ◌≡◌, refl, sym, ap, ◌∙◌, ◌⊎◌, inl, inr, arith, true, false, some, [],
  ◌∷◌, ◌==◌, if◌then◌else◌, replicate, Bool-cases, some_inj, subst,
}
use sippin_soda.Bodies.{Bytes}
use sippin_soda.JsonLayout.{Mode, Place, is_open, is_close, is_space, in_string, outside}

-- A byte outside a string leaves the mode as it is, or opens a string.
abbrev pub mode_after : Mode → ℕ → Mode
mode_after m byte = if byte == b'"' then record m { string = true } else m

-- The bytes without the white space outside strings, from a mode on.
unfoldable pub compact : Mode → Bytes → Bytes
unfolding in_string
compact m [] = []
compact m (byte ∷ bytes) = elim m.string [
  | true ↦ byte ∷ compact (in_string m byte) bytes
  | false ↦ elim (is_space byte) [
    | true ↦ compact m bytes
    | false ↦ byte ∷ compact (mode_after m byte) bytes
  ]
]

ℕ-cases : (k : ℕ) → (k ≡ 0) ⊎ ((j : ℕ) × (k ≡ suc j))
ℕ-cases zero = inl refl
ℕ-cases (suc j) = inr (j, refl)

append_assoc : (xs ys zs : Bytes) → (xs ++ ys) ++ zs ≡ xs ++ (ys ++ zs)
append_assoc [] ys zs = refl
append_assoc (x ∷ xs) ys zs = ap (λ t. x ∷ t) (append_assoc xs ys zs)

module _ (m : Mode) (byte : ℕ) (t : Bytes) where
  pub compact-string : m.string ≡ true → compact m (byte ∷ t) ≡ byte ∷ compact (in_string m byte) t
  unfolding compact
  compact-string h = rw h refl

  pub compact-space : m.string ≡ false → is_space byte ≡ true → compact m (byte ∷ t) ≡ compact m t
  unfolding compact
  compact-space h space = ground arith

  pub compact-kept :
      m.string ≡ false
      → is_space byte ≡ false
      → compact m (byte ∷ t) ≡ byte ∷ compact (mode_after m byte) t
  unfolding compact
  compact-kept h kept = ground arith

-- The indentation goes.
compact-indent :
    (m : Mode) (n : ℕ) (t : Bytes)
    → m.string ≡ false
    → compact m (replicate n b' ' ++ t) ≡ compact m t
compact-indent m zero t h = refl
compact-indent m (suc n) t h =
    compact-space m b' ' (replicate n b' ' ++ t) h refl ∙ compact-indent m n t h

-- What a byte outside a string, other than white space, is written as: white space, the byte,
-- white space.
abbrev pub Framed : Mode → ℕ → Bytes → Type 0
Framed m byte written =
    (t : Bytes) → compact m (written ++ t) ≡ byte ∷ compact (mode_after m byte) t

-- What becomes of a byte outside a string.
abbrev pub Written : Place → ℕ → Place × Bytes → Type 0
Written p byte (next, written) =
    ((is_space byte ≡ true) × (written ≡ []) × (next ≡ p))
    ⊎ ((is_space byte ≡ false) × Framed p.mode byte written × (next.mode ≡ mode_after p.mode byte))

mode_after-other : (m : Mode) (byte : ℕ) → (byte == b'"') ≡ false → mode_after m byte ≡ m
mode_after-other m byte h = rw h refl

module _ (p : Place) (byte : ℕ) (h : p.mode.string ≡ false) where
  -- A byte with white space after it, or none.
  Framed-before :
      (n : ℕ)
      → is_space byte ≡ false
      → (byte == b'"') ≡ false
      → Framed p.mode byte (byte ∷ b'\n' ∷ replicate n b' ')
  Framed-before n kept other t =
      compact-kept p.mode byte (b'\n' ∷ replicate n b' ' ++ t) h kept
      ∙ ap (λ xs. byte ∷ xs)
          (ap (λ m. compact m (b'\n' ∷ replicate n b' ' ++ t)) (mode_after-other p.mode byte other)
            ∙ compact-space p.mode b'\n' (replicate n b' ' ++ t) h refl
            ∙ compact-indent p.mode n t h
            ∙ ap (λ m. compact m t) (sym (mode_after-other p.mode byte other)))

  Framed-alone : is_space byte ≡ false → Framed p.mode byte (byte ∷ [])
  Framed-alone kept t = compact-kept p.mode byte t h kept

  Framed-after :
      (n : ℕ) → is_space byte ≡ false → Framed p.mode byte (b'\n' ∷ replicate n b' ' ++ byte ∷ [])
  Framed-after n kept t =
      compact-space p.mode b'\n' ((replicate n b' ' ++ byte ∷ []) ++ t) h refl
      ∙ ap (compact p.mode) (append_assoc (replicate n b' ') (byte ∷ []) t)
      ∙ compact-indent p.mode n (byte ∷ t) h
      ∙ compact-kept p.mode byte t h kept

  Framed-space :
      is_space byte ≡ false → (byte == b'"') ≡ false → Framed p.mode byte (byte ∷ b' ' ∷ [])
  Framed-space kept other t =
      compact-kept p.mode byte (b' ' ∷ t) h kept
      ∙ ap (λ xs. byte ∷ xs)
          (ap (λ m. compact m (b' ' ∷ t)) (mode_after-other p.mode byte other)
            ∙ compact-space p.mode b' ' t h refl
            ∙ ap (λ m. compact m t) (sym (mode_after-other p.mode byte other)))

  given :
      (result value : Place × Bytes)
      → outside p byte ≡ some result
      → outside p byte ≡ some value
      → Written p byte value
      → Written p byte result
  given result value e is written = subst (Written p byte) (some_inj (sym is ∙ e)) written

  outside-close :
      (result : Place × Bytes)
      → (byte == b'"') ≡ false
      → is_open byte ≡ false
      → is_close byte ≡ true
      → outside p byte ≡ some result
      → (depth : ℕ) × (outside p byte
          ≡ some (record p { depth = depth }, b'\n' ∷ replicate (depth * 2) b' ' ++ byte ∷ []))
  unfolding outside
  outside-close result other not_open closes e = elim (ℕ-cases p.depth) [
    | inl top ↦ ground arith
    | inr (depth, deep) ↦ (depth, ground arith)
  ]

  close-kept : is_close byte ≡ true → is_space byte ≡ false
  close-kept closes = ground arith

  open-kept : is_open byte ≡ true → is_space byte ≡ false
  open-kept opens = ground arith

  pub outside-Written :
      (result : Place × Bytes) → outside p byte ≡ some result → Written p byte result
  unfolding outside
  outside-Written result e = elim (Bool-cases (byte == b'"')) [
    | inl quoted ↦
        given result (record p { mode = record (p.mode) { string = true } }, byte ∷ []) e
          (ground arith) (inr (ground arith, Framed-alone (ground arith), ground arith))
    | inr other ↦ elim (Bool-cases (is_open byte)) [
      | inl opens ↦
          given result
            (record p { depth = suc p.depth }, byte ∷ b'\n' ∷ replicate (suc p.depth * 2) b' ') e
            (ground arith)
            (inr (
              open-kept opens,
              Framed-before (suc p.depth * 2) (open-kept opens) other,
              sym (mode_after-other p.mode byte other),
            ))
      | inr not_open ↦ elim (Bool-cases (is_close byte)) [
        | inl closes ↦
            let (depth, closed) = outside-close result other not_open closes e in
            given result
              (record p { depth = depth }, b'\n' ∷ replicate (depth * 2) b' ' ++ byte ∷ []) e closed
              (inr (
                close-kept closes,
                Framed-after (depth * 2) (close-kept closes),
                sym (mode_after-other p.mode byte other),
              ))
        | inr not_close ↦ elim (Bool-cases (byte == b',')) [
          | inl comma ↦
              given result (p, byte ∷ b'\n' ∷ replicate (p.depth * 2) b' ') e (ground arith)
                (inr (
                  ground arith,
                  Framed-before (p.depth * 2) (ground arith) other,
                  sym (mode_after-other p.mode byte other),
                ))
          | inr not_comma ↦ elim (Bool-cases (byte == b':')) [
            | inl colon ↦
                given result (p, byte ∷ b' ' ∷ []) e (ground arith)
                  (inr (
                    ground arith,
                    Framed-space (ground arith) other,
                    sym (mode_after-other p.mode byte other),
                  ))
            | inr not_colon ↦ elim (Bool-cases (is_space byte)) [
              | inl space ↦ given result (p, []) e (ground arith) (inl (space, refl, refl))
              | inr kept ↦
                  given result (p, byte ∷ []) e (ground arith)
                    (inr (kept, Framed-alone kept, sym (mode_after-other p.mode byte other)))
            ]
          ]
        ]
      ]
    ]
  ]
