-- ===== src/Hosts/Overlap.antt =====
-- The overlap test decides whether some host is matched by both patterns.
use sippin_soda.Base.{
  ◌≡◌, sym, subst, ◌∙◌, ◌↔◌, true, ◌⊎◌, inl, inr, [], ◌∷◌, ◌++◌, arith, Bool-cases,
}
use sippin_soda.Text.{Text, ends_with, text_eq}
use sippin_soda.Text.Laws.{
  ends_with-append, ends_with→append, append_split, text_eq→eq, text_eq_refl,
}
use sippin_soda.Hosts.{HostPattern, exact, suffix, matches, overlaps, dot}
use sippin_soda.Hosts.Match.{matches-suffix→, matches-suffix←}

-- Some host is matched by both patterns.
abbrev pub Meet : HostPattern → HostPattern → Type 0
Meet p q = (host : Text) × (matches p host ≡ true) × (matches q host ≡ true)

exact→eq : (e host : Text) → matches (exact e) host ≡ true → host ≡ e
unfolding matches
exact→eq e host h = text_eq→eq host e h

exact_self : (e : Text) → matches (exact e) e ≡ true
unfolding matches
exact_self e = text_eq_refl e

-- Both wildcards match one host: one suffix is the other, or ends in it behind a dot.
suffixes_meet :
    (s t pre post : Text)
    → pre ++ dot ∷ s ≡ post ++ dot ∷ t
    → (s ≡ t) ⊎ (ends_with s (dot ∷ t) ≡ true) ⊎ (ends_with t (dot ∷ s) ≡ true)
suffixes_meet s t pre post e = elim (append_split pre post (dot ∷ s) (dot ∷ t) e) [
  | inl ([], q) ↦ inl (cc)
  | inl (c ∷ r, q) ↦ inr (
      inl (
        subst (λ u. ends_with u (dot ∷ t) ≡ true) (sym (tail_of c s _ q))
          (ends_with-append r (dot ∷ t))))
  | inr ([], q) ↦ inl (cc)
  | inr (c ∷ r, q) ↦ inr (
      inr (
        subst (λ u. ends_with u (dot ∷ s) ≡ true) (sym (tail_of c t _ q))
          (ends_with-append r (dot ∷ s))))
]
  where
    tail_of : (c : _) (u v : Text) → (dot ∷ u) ≡ c ∷ v → u ≡ v
    tail_of c u v q = cc

text_eq-eq : (t u : Text) → t ≡ u → text_eq t u ≡ true
text_eq-eq t u e = subst (λ v. text_eq t v ≡ true) e (text_eq_refl t)

Meet→overlaps : (p q : HostPattern) → Meet p q → overlaps p q ≡ true
unfolding overlaps
Meet→overlaps (exact e) (exact f) (host, h, k) =
    text_eq-eq e f (sym (exact→eq e host h) ∙ exact→eq f host k)
Meet→overlaps (exact e) (suffix t) (host, h, k) =
    subst (λ u. matches (suffix t) u ≡ true) (exact→eq e host h) k
Meet→overlaps (suffix s) (exact f) (host, h, k) =
    subst (λ u. matches (suffix s) u ≡ true) (exact→eq f host k) h
Meet→overlaps (suffix s) (suffix t) (host, h, k) =
    let (pre, e) = matches-suffix→ s host h in
    let (post, f) = matches-suffix→ t host k in
    elim (suffixes_meet s t pre post (sym e ∙ f)) [
      | inl same ↦ rw (text_eq-eq s t same)
      | inr (inl ends) ↦ ground (arith)
      | inr (inr ends) ↦ ground (arith)
    ]

-- `left` ends in ".right": the host ".left" is matched by both wildcards.
longer-Meet :
    (left right : Text) → ends_with left (dot ∷ right) ≡ true → Meet (suffix left) (suffix right)
longer-Meet left right h =
    let (pre, e) = ends_with→append left (dot ∷ right) h in
    (
      dot ∷ left,
      matches-suffix← left [],
      subst (λ u. matches (suffix right) (dot ∷ u) ≡ true) (sym e)
          (matches-suffix← right (dot ∷ pre)),
    )

Meet-symm : (p q : HostPattern) → Meet p q → Meet q p
Meet-symm p q (host, h, k) = (host, k, h)

suffixes-Meet : (s t : Text) → overlaps (suffix s) (suffix t) ≡ true → Meet (suffix s) (suffix t)
unfolding overlaps
suffixes-Meet s t h = elim (Bool-cases (text_eq s t)) [
  | inl same ↦ (
    dot ∷ s,
    matches-suffix← s [],
    subst (λ u. matches (suffix u) (dot ∷ s) ≡ true) (text_eq→eq s t same) (matches-suffix← s []),
  )
  | inr other ↦ elim (Bool-cases (ends_with s (dot ∷ t))) [
    | inl ends ↦ longer-Meet s t ends
    | inr not_ends ↦ Meet-symm (suffix t) (suffix s) (longer-Meet t s (ground arith))
  ]
]

overlaps→Meet : (p q : HostPattern) → overlaps p q ≡ true → Meet p q
unfolding overlaps
overlaps→Meet (exact e) (exact f) h =
    (e, exact_self e, subst (λ u. matches (exact u) e ≡ true) (text_eq→eq e f h) (exact_self e))
overlaps→Meet (exact e) (suffix t) h = (e, exact_self e, h)
overlaps→Meet (suffix s) (exact f) h = (f, h, exact_self f)
overlaps→Meet (suffix s) (suffix t) h = suffixes-Meet s t h

-- `overlaps` is true of two patterns exactly when some host is matched by both.
pub overlaps_iff : (p q : HostPattern) → (overlaps p q ≡ true) ↔ Meet p q
overlaps_iff p q = (overlaps→Meet p q, Meet→overlaps p q)
