-- ===== src/Hosts/Match.antt =====
-- What a wildcard pattern matches.
use mathlib.Core.List.{append_assoc}
use sippin_soda.Base.{
  ==_iff, ℕ, ◌-◌, ◌<◌, ◌≡◌, refl, sym, ap, subst, ◌∙◌, Bool, true, false, ◌&&◌, Option, none, some,
  [], ◌∷◌, ◌++◌, arith, ltb, ◌==◌, length, length-append, get_elem?, lt→ltb, ltb→lt,
}
use sippin_soda.Text.{Text, len, ends_with}
use sippin_soda.Text.Laws.{ends_with-append, ends_with→append, len-append}
use sippin_soda.Hosts.{suffix, matches, dot}

get_elem?-middle : (pre : Text) (c : ℕ) (s : Text) → get_elem? (pre ++ c ∷ s) (length pre) ≡ some c
get_elem?-middle [] c s = refl
get_elem?-middle (d ∷ pre) c s = get_elem?-middle pre c s

abbrev is_dot : Option ℕ → Bool
is_dot none = false
is_dot (some c) = c == dot

-- A dot just before the end `s` is the last code point of what stands before `s`.
last_dot :
    (c : ℕ) (pre s : Text)
    → is_dot (get_elem? ((c ∷ pre) ++ s) (length pre)) ≡ true
    → (front : Text) × ((c ∷ pre) ≡ front ++ dot ∷ [])
last_dot c [] s h = ([], ground (arith, ==_iff c dot))
last_dot c (d ∷ pre) s h = let (front, e) = last_dot d pre s h in (c ∷ front, ap (◌∷◌ c) e)

len_nonempty : (pre s : Text) → len s < len (pre ++ s) → (c : ℕ) × (rest : Text) × (pre ≡ c ∷ rest)
len_nonempty [] s h = absurd (omega arith)
len_nonempty (c ∷ rest) s h = (c, rest, refl)

index_before : (c : ℕ) (pre s : Text) → length ((c ∷ pre) ++ s) - length s - 1 ≡ length pre
index_before c pre s = omega (arith, length-append pre s)

suffix_tests :
    (s host : Text)
    → matches (suffix s) host ≡ (
        ltb (len s) (len host)
        && ends_with host s
        && is_dot (get_elem? host (length host - length s - 1)))
unfolding matches
suffix_tests s host = ground arith

abbrev dot_tested : Text → Text → Bool
dot_tested s host = is_dot (get_elem? host (length host - length s - 1))

split_at_dot :
    (c : ℕ) (rest s : Text)
    → dot_tested s ((c ∷ rest) ++ s) ≡ true
    → (front : Text) × ((c ∷ rest) ++ s ≡ front ++ dot ∷ s)
split_at_dot c rest s h =
    let n = index_before c rest s in
    let (front, e) =
      last_dot c rest s (subst (λ k. is_dot (get_elem? ((c ∷ rest) ++ s) k) ≡ true) n h) in
    (front, ap (λ p. p ++ s) e ∙ append_assoc front (dot ∷ []) s)

-- A host that the wildcard pattern "*.s" matches ends in ".s", with anything before that.
pub matches-suffix→ :
    (s host : Text) → matches (suffix s) host ≡ true → (pre : Text) × (host ≡ pre ++ dot ∷ s)
matches-suffix→ s host h =
    let (longer, ends, dotted) = tests in
    let (pre, e) = ends_with→append host s ends in
    let (c, rest, e₁) =
      len_nonempty pre s (subst (λ t. len s < len t) e (ltb→lt (len s) (len host) longer)) in
    let e₂ = e ∙ ap (λ p. p ++ s) e₁ in
    let (front, e₃) = split_at_dot c rest s (subst (λ t. dot_tested s t ≡ true) e₂ dotted) in
    (front, e₂ ∙ e₃)
  where
    tests : (ltb (len s) (len host) ≡ true) × (ends_with host s ≡ true) × (dot_tested s host ≡ true)
    tests = ground (arith, suffix_tests s host)

dot_tested-append : (pre s : Text) → dot_tested s (pre ++ dot ∷ s) ≡ true
dot_tested-append pre s =
    subst (λ k. is_dot (get_elem? (pre ++ dot ∷ s) k) ≡ true) (sym (index pre))
      (ap is_dot (get_elem?-middle pre dot s))
  where
    index : (p : Text) → length (p ++ dot ∷ s) - length s - 1 ≡ length p
    index p = omega (arith, length-append p (dot ∷ s))

len-lt-append : (pre s : Text) → len s < len (pre ++ dot ∷ s)
unfolding len
len-lt-append pre s = omega (arith, len-append pre (dot ∷ s))

-- Such a host is matched.
pub matches-suffix← : (s pre : Text) → matches (suffix s) (pre ++ dot ∷ s) ≡ true
matches-suffix← s pre =
    let longer = lt→ltb (len s) (len (pre ++ dot ∷ s)) (len-lt-append pre s) in
    let ends : ends_with (pre ++ dot ∷ s) s ≡ true =
      subst (λ t. ends_with t s ≡ true) (append_assoc pre (dot ∷ []) s)
        (ends_with-append (pre ++ dot ∷ []) s) in
    suffix_tests s (pre ++ dot ∷ s) ∙ rw (longer, ends) (dot_tested-append pre s)
