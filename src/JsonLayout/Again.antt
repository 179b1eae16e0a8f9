-- ===== src/JsonLayout/Again.antt =====
-- The layout keeps a body, but for its white space, and a second layout changes nothing.
use sippin_soda.Base.{
  ℕ, ◌++◌, ◌≡◌, refl, sym, ap, ◌∙◌, inl, inr, arith, Bool, true, false, Option, none, some, [], ◌∷◌,
  Bool-cases, Option-cases, some_inj,
}
use sippin_soda.Bodies.{Bytes}
use sippin_soda.JsonLayout.{Place, at_start, is_space, in_string, outside, layout_byte, layout}
use sippin_soda.JsonLayout.Strings.{outer, without_space, compact-without_space}
use sippin_soda.JsonLayout.Spaces.{
  mode_after, compact, compact-string, compact-space, compact-kept, Written, outside-Written,
}

-- What was written before, and what is written after.
abbrev glue : Bytes → Option Bytes → Option Bytes
glue written none = none
glue written (some others) = some (written ++ others)

glue_nothing : (o : Option Bytes) → o ≡ glue [] o
glue_nothing none = refl
glue_nothing (some others) = refl

true-false : ¬ (Path Bool true false)
true-false e = cc

none_some : {out : Bytes} → ¬ (Path (Option Bytes) none (some out))
none_some e = cc

module _ (p : Place) (byte : ℕ) where
  layout-none : (t : Bytes) → layout_byte p byte ≡ none → layout p (byte ∷ t) ≡ none
  unfolding layout
  layout-none t e = rw (e, layout) refl

  layout-glue :
      (t : Bytes) (next : Place) (written : Bytes)
      → layout_byte p byte ≡ some (next, written)
      → layout p (byte ∷ t) ≡ glue written (layout next t)
  unfolding layout
  layout-glue t next written e = elim (Option-cases (layout next t)) [
    | inl missing ↦ rw (e, layout, missing) refl
    | inr (others, found) ↦ rw (e, layout, found) refl
  ]

  layout_byte-string :
      p.mode.string ≡ true
      → layout_byte p byte ≡ some (record p { mode = in_string p.mode byte }, byte ∷ [])
  unfolding layout_byte
  layout_byte-string h = ground arith

  layout_byte-outside : p.mode.string ≡ false → layout_byte p byte ≡ outside p byte
  unfolding layout_byte
  layout_byte-outside h = ground arith

  Written-same :
      (next : Place) (written t : Bytes)
      → Written p byte (next, written)
      → is_space byte ≡ false
      → next.mode ≡ mode_after p.mode byte
  Written-same next written t (inl (space, _, _)) kept = absurd (true-false (sym space ∙ kept))
  Written-same next written t (inr (_, _, same)) kept = same

  outside-space : p.mode.string ≡ false → is_space byte ≡ true → outside p byte ≡ some (p, [])
  unfolding outside
  outside-space h space = ground arith

-- The layout reads nothing but what is left without the white space.
layout-compact : (p : Place) (bytes : Bytes) → layout p (compact p.mode bytes) ≡ layout p bytes
unfolding compact
layout-compact p [] = refl
layout-compact p (byte ∷ bytes) = elim (Bool-cases p.mode.string) [
  | inl inside ↦
      let next : Place = record p { mode = in_string p.mode byte } in
      let step = layout_byte-string p byte inside in
      ap (layout p) (compact-string p.mode byte bytes inside)
      ∙ layout-glue p byte (compact next.mode bytes) next (byte ∷ []) step
      ∙ ap (glue (byte ∷ [])) (layout-compact next bytes)
      ∙ sym (layout-glue p byte bytes next (byte ∷ []) step)
  | inr out ↦ elim (Bool-cases (is_space byte)) [
    | inl space ↦
        let step = layout_byte-outside p byte out ∙ outside-space p byte out space in
        ap (layout p) (compact-space p.mode byte bytes out space)
        ∙ layout-compact p bytes
        ∙ glue_nothing (layout p bytes)
        ∙ sym (layout-glue p byte bytes p [] step)
    | inr kept ↦
        ap (layout p) (compact-kept p.mode byte bytes out kept)
        ∙ (elim (Option-cases (outside p byte)) [
          | inl missing ↦
              let step = layout_byte-outside p byte out ∙ missing in
              layout-none p byte (compact (mode_after p.mode byte) bytes) step
              ∙ sym (layout-none p byte bytes step)
          | inr ((next, written), found) ↦
              let step = layout_byte-outside p byte out ∙ found in
              let same =
                Written-same p byte next written bytes
                  (outside-Written p byte out (next, written) found) kept in
              layout-glue p byte (compact (mode_after p.mode byte) bytes) next written step
              ∙ ap (λ m. glue written (layout next (compact m bytes))) (sym same)
              ∙ ap (glue written) (layout-compact next bytes)
              ∙ sym (layout-glue p byte bytes next written step)
        ])
  ]
]

layout-parts :
    (p : Place) (byte : ℕ) (bytes out : Bytes) (next : Place) (written : Bytes)
    → layout_byte p byte ≡ some (next, written)
    → layout p (byte ∷ bytes) ≡ some out
    → (others : Bytes) × (layout next bytes ≡ some others) × (written ++ others ≡ out)
layout-parts p byte bytes out next written step h = elim (Option-cases (layout next bytes)) [
  | inl missing ↦
      absurd (
        none_some
          (sym (layout-glue p byte bytes next written step ∙ ap (glue written) missing) ∙ h))
  | inr (others, found) ↦ (
    others,
    found,
    some_inj (sym (layout-glue p byte bytes next written step ∙ ap (glue written) found) ∙ h),
  )
]

-- What a byte and what follows it lose of their white space.
compact-Written :
    (p next : Place) (byte : ℕ) (written others bytes : Bytes)
    → p.mode.string ≡ false
    → Written p byte (next, written)
    → compact next.mode others ≡ compact next.mode bytes
    → compact p.mode (written ++ others) ≡ compact p.mode (byte ∷ bytes)
compact-Written p next byte written others bytes out (inl (space, empty, same)) rest_is =
    ap (λ w. compact p.mode (w ++ others)) empty
    ∙ ap (λ q. compact q.mode others) (sym same)
    ∙ rest_is
    ∙ ap (λ q. compact q.mode bytes) same
    ∙ sym (compact-space p.mode byte bytes out space)
compact-Written p next byte written others bytes out (inr (kept, framed, same)) rest_is =
    framed others
    ∙ ap (λ m. byte ∷ compact m others) (sym same)
    ∙ ap (λ xs. byte ∷ xs) rest_is
    ∙ ap (λ m. byte ∷ compact m bytes) same
    ∙ sym (compact-kept p.mode byte bytes out kept)

-- The layout leaves what is left without the white space.
compact-layout :
    (p : Place) (bytes out : Bytes)
    → layout p bytes ≡ some out
    → compact p.mode out ≡ compact p.mode bytes
unfolding layout
compact-layout p [] out h = ap (compact p.mode) (sym (some_inj h))
compact-layout p (byte ∷ bytes) out h = elim (Bool-cases p.mode.string) [
  | inl inside ↦
      let next : Place = record p { mode = in_string p.mode byte } in
      let (others, found, is) =
        layout-parts p byte bytes out next (byte ∷ []) (layout_byte-string p byte inside) h in
      ap (compact p.mode) (sym is)
      ∙ compact-string p.mode byte others inside
      ∙ ap (λ xs. byte ∷ xs) (compact-layout next bytes others found)
      ∙ sym (compact-string p.mode byte bytes inside)
  | inr out_of_it ↦ elim (Option-cases (outside p byte)) [
    | inl missing ↦ absurd (
        none_some
          (sym (layout-none p byte bytes (layout_byte-outside p byte out_of_it ∙ missing)) ∙ h))
    | inr ((next, written), found) ↦
        let (others, left, is) =
          layout-parts p byte bytes out next written (layout_byte-outside p byte out_of_it ∙ found)
            h in
        ap (compact p.mode) (sym is)
        ∙ compact-Written p next byte written others bytes out_of_it
            (outside-Written p byte out_of_it (next, written) found)
            (compact-layout next bytes others left)
  ]
]

-- A layout has the bytes of the body, strings included, but for white space outside strings, and
-- the layout of a layout is itself.
pub layout-again :
    (bytes out : Bytes)
    → layout at_start bytes ≡ some out
    → (without_space outer out ≡ without_space outer bytes) × (layout at_start out ≡ some out)
layout-again bytes out h =
    let same = compact-layout at_start bytes out h in
    (
      sym (compact-without_space outer out) ∙ same ∙ compact-without_space outer bytes,
      sym (layout-compact at_start out)
          ∙ ap (layout at_start) same
          ∙ layout-compact at_start bytes
          ∙ h,
    )
