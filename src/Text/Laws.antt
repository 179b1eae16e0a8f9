-- ===== src/Text/Laws.antt =====
-- What the other modules need to know of the `str` methods.
use sippin_soda.Base.{
  ℕ, ◌+◌, ◌≤◌, ◌<◌, ◌≡◌, refl, sym, ap, true, ◌⊎◌, inl, inr, [], ◌∷◌, ◌++◌, arith, Bool-cases,
  length,
}
use sippin_soda.Text.{Text, len, text_eq, ends_with, len_utf8}

pub text_eq_refl : (t : Text) → text_eq t t ≡ true
unfolding text_eq
text_eq_refl [] = refl
text_eq_refl (c ∷ t) = ground (arith, text_eq_refl t)

pub text_eq→eq : (t u : Text) → text_eq t u ≡ true → t ≡ u
unfolding text_eq
text_eq→eq [] [] h = refl
text_eq→eq [] (d ∷ u) h = cc
text_eq→eq (c ∷ t) [] h = cc
text_eq→eq (c ∷ t) (d ∷ u) h = ground (arith, text_eq→eq t u)

pub ends_with-append : (pre s : Text) → ends_with (pre ++ s) s ≡ true
unfolding ends_with
ends_with-append [] [] = refl
ends_with-append [] (c ∷ s) = ground (arith, text_eq_refl (c ∷ s))
ends_with-append (c ∷ pre) s = ground (arith, ends_with-append pre s)

-- `t.ends_with(s)` gives the part of `t` before `s`.
pub ends_with→append : (t s : Text) → ends_with t s ≡ true → (pre : Text) × (t ≡ pre ++ s)
unfolding ends_with
ends_with→append [] s h = ([], text_eq→eq [] s h)
ends_with→append (c ∷ t) s h = elim (Bool-cases (text_eq (c ∷ t) s)) [
  | inl e ↦ ([], text_eq→eq (c ∷ t) s e)
  | inr e ↦ let (pre, q) = ends_with→append t s (rw e at h) in (c ∷ pre, ap (◌∷◌ c) q)
]

pub len-append : (t u : Text) → len (t ++ u) ≡ len t + len u
unfolding len
len-append [] u = omega arith
len-append (c ∷ t) u = omega (arith, len-append t u)

len_utf8_pos : (c : ℕ) → 0 < len_utf8 c
len_utf8_pos c = ground arith

pub length-le-len : (t : Text) → length t ≤ len t
unfolding len
length-le-len [] = omega arith
length-le-len (c ∷ t) = omega (arith, len_utf8_pos c, length-le-len t)

-- Two splits of one text: one of the ends is an end of the other.
pub append_split :
    (p q s t : Text) → p ++ s ≡ q ++ t → ((r : Text) × (s ≡ r ++ t)) ⊎ ((r : Text) × (t ≡ r ++ s))
append_split [] q s t h = inl (q, h)
append_split (c ∷ p) [] s t h = inr (c ∷ p, sym h)
append_split (c ∷ p) (d ∷ q) s t h = append_split p q s t (cc)
