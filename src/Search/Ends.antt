-- ===== src/Search/Ends.antt =====
-- Where the first `m` entries of `W` are the `m` entries of `T` that end before the position `p`.
use sippin_soda.Base.{ℕ, suc, ◌+◌, ◌-◌, ◌≤◌, ◌<◌, ◌≡◌, ap, sym, ◌∙◌, ◌⊎◌, inl, inr, arith}

pub ≤-cases : (i m : ℕ) → i < suc m → (i < m) ⊎ (i ≡ m)
≤-cases i m h = ground arith

module _ {A : Type 0} where
  abbrev pub Ends : (ℕ → A) → (ℕ → A) → ℕ → ℕ → Type 0
  Ends W T m p = (m ≤ p) × ((i : ℕ) → i < m → W i ≡ T (p - m + i))

  module _ (W T : ℕ → A) where
    pub Ends-zero : (p : ℕ) → Ends W T 0 p
    Ends-zero p = (omega arith, λ i h. absurd (omega arith))

    pub Ends-extend : (m p : ℕ) → Ends W T m p → W m ≡ T p → Ends W T (suc m) (suc p)
    Ends-extend m p (m≤p, same) e = (
      omega arith,
      λ i h. elim (≤-cases i m h) [
        | inl k ↦ same i k ∙ ap T (omega arith)
        | inr k ↦ ap W k ∙ e ∙ ap T (omega arith)
      ],
    )

    pub Ends-init : (k p : ℕ) → Ends W T (suc k) (suc p) → Ends W T k p × (W k ≡ T p)
    Ends-init k p (k≤p, same) = (
      (omega arith, λ i h. same i (omega arith) ∙ ap T (omega arith)),
      same k (omega arith) ∙ ap T (omega arith),
    )

    pub Ends-inner : (k m p : ℕ) → Ends W T k p → Ends W T m p → k ≤ m → Ends W W k m
    Ends-inner k m p (k≤p, short) (m≤p, long) k≤m =
        (k≤m, λ i h. short i h ∙ ap T (omega arith) ∙ sym (long (m - k + i) (omega arith)))

    pub Ends-trans : (k m p : ℕ) → Ends W T m p → Ends W W k m → Ends W T k p
    Ends-trans k m p (m≤p, long) (k≤m, short) =
        (omega arith, λ i h. short i h ∙ long (m - k + i) (omega arith) ∙ ap T (omega arith))
