-- ===== src/Text/Case.antt =====
-- Trimming and lower-casing commute.
use mathlib.Core.List.{reverse-cons, map-append}
use sippin_soda.Base.{
  ℕ, ◌≡◌, refl, sym, ap, ◌∙◌, Bool, [], ◌∷◌, reverse, arith, inl, inr, Bool-cases,
}
use sippin_soda.Text.{
  Text, lower, to_ascii_lowercase, drop_while, trim, trim_start_matches, trim_end_matches,
  is_whitespace,
}

-- A test that does not see the difference.
abbrev pub IgnoresCase : (ℕ → Bool) → Type 0
IgnoresCase test = (c : ℕ) → test (lower c) ≡ test c

lower-drop_while :
    (test : ℕ → Bool) (t : Text)
    → IgnoresCase test
    → to_ascii_lowercase (drop_while test t) ≡ drop_while test (to_ascii_lowercase t)
unfolding drop_while
lower-drop_while test [] h = refl
lower-drop_while test (c ∷ t) h =
    rw (h c)
      (elim (Bool-cases (test c)) [ inl e ↦ rw e (lower-drop_while test t h) | inr e ↦ rw e ])

lower-reverse : (t : Text) → to_ascii_lowercase (reverse t) ≡ reverse (to_ascii_lowercase t)
lower-reverse [] = refl
lower-reverse (c ∷ t) =
    rw (reverse-cons c t, map-append, lower-reverse t)
      (sym (reverse-cons (lower c) (to_ascii_lowercase t)))

pub lower-trim_start :
    (test : ℕ → Bool) (t : Text)
    → IgnoresCase test
    → to_ascii_lowercase (trim_start_matches test t)
      ≡ trim_start_matches test (to_ascii_lowercase t)
lower-trim_start test t h = lower-drop_while test t h

pub lower-trim_end :
    (test : ℕ → Bool) (t : Text)
    → IgnoresCase test
    → to_ascii_lowercase (trim_end_matches test t) ≡ trim_end_matches test (to_ascii_lowercase t)
lower-trim_end test t h =
    lower-reverse (drop_while test (reverse t))
    ∙ ap reverse (lower-drop_while test (reverse t) h ∙ ap (drop_while test) (lower-reverse t))

is_whitespace-IgnoresCase : IgnoresCase is_whitespace
unfolding is_whitespace
is_whitespace-IgnoresCase c = ground arith

pub lower-trim : (t : Text) → to_ascii_lowercase (trim t) ≡ trim (to_ascii_lowercase t)
unfolding trim
lower-trim t =
    lower-trim_end is_whitespace (trim_start_matches is_whitespace t) is_whitespace-IgnoresCase
    ∙ ap (trim_end_matches is_whitespace)
        (lower-trim_start is_whitespace t is_whitespace-IgnoresCase)

pub lower_idem : (t : Text) → to_ascii_lowercase (to_ascii_lowercase t) ≡ to_ascii_lowercase t
lower_idem [] = refl
lower_idem (c ∷ t) = cc (lower-lower c, lower_idem t)
  where
    lower-lower : (d : ℕ) → lower (lower d) ≡ lower d
    lower-lower d = ground arith
