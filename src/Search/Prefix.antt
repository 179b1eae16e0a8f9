-- ===== src/Search/Prefix.antt =====
-- What `advance` and `prefix_table` compute: the longest start of the needle that ends at a place.
use sippin_soda.Base.{
  ℕ, zero, suc, ◌+◌, ◌≤◌, ◌<◌, ◌≡◌, refl, ap, sym, ◌∙◌, ◌⊎◌, inl, inr, arith, true, false, Option,
  some, List, [], ◌∷◌, ◌==◌, get_elem?, length, replicate, drop, Bool-cases, some_inj, subst,
  ==_iff,
}
use sippin_soda.Bodies.{Bytes}
use sippin_soda.Search.{fall_back, advance, set_elem, fill_prefix, prefix_table}
use sippin_soda.Search.Ends.{
  ≤-cases, Ends, Ends-zero, Ends-extend, Ends-init, Ends-inner, Ends-trans,
}

-- Of the starts of `W` shorter than `limit`, the one of length `m` is the longest that ends at `p`.
pub record IsLongest {A : Type 0} (W T : ℕ → A) (limit p m : ℕ) : Type 0 where
  pub ends : Ends W T m p
  pub most : (k : ℕ) → k < limit → Ends W T k p → k ≤ m

-- The entries below `filled` of the table are right.
abbrev pub IsTable : Bytes → List ℕ → ℕ → Type 0
IsTable needle prefix filled =
    (j : ℕ)
    → j < filled
    → (v : ℕ) × (get_elem? prefix j ≡ some v)
      × (v ≤ j)
      × IsLongest (get_elem? needle) (get_elem? needle) (suc j) (suc j) v

pub get_elem?-lt : (xs : List ℕ) (i : ℕ) → i < length xs → (x : ℕ) × (get_elem? xs i ≡ some x)
get_elem?-lt [] i h = absurd (omega arith)
get_elem?-lt (x ∷ xs) zero h = (x, refl)
get_elem?-lt (x ∷ xs) (suc i) h = get_elem?-lt xs i (omega arith)

ℕ-cases : (k : ℕ) → (k ≡ 0) ⊎ ((j : ℕ) × (k ≡ suc j))
ℕ-cases zero = inl refl
ℕ-cases (suc j) = inr (j, refl)

fall_back-keep :
    (fuel m x : ℕ) (needle : Bytes) (prefix : List ℕ) (byte : ℕ)
    → get_elem? needle (suc m) ≡ some x
    → (byte == x) ≡ true
    → fall_back (suc fuel) needle prefix byte (suc m) ≡ some (suc m)
unfolding fall_back
fall_back-keep fuel m x needle prefix byte e same = ground arith

fall_back-shorten :
    (fuel m x v : ℕ) (needle : Bytes) (prefix : List ℕ) (byte : ℕ)
    → get_elem? needle (suc m) ≡ some x
    → (byte == x) ≡ false
    → get_elem? prefix m ≡ some v
    → fall_back (suc fuel) needle prefix byte (suc m) ≡ fall_back fuel needle prefix byte v
unfolding fall_back
fall_back-shorten fuel m x v needle prefix byte e other entry = ground arith

==-sound : (a b : ℕ) → (a == b) ≡ true → Path (Option ℕ) (some b) (some a)
==-sound a b h = ap some (sym ((==_iff a b).0 h))

==-differs : (a b : ℕ) → (a == b) ≡ false → ¬ (Path (Option ℕ) (some b) (some a))
==-differs a b h e = ground (arith, some_inj e)

module _ (needle : Bytes) (T : ℕ → Option ℕ) (p byte : ℕ) where
  -- What `fall_back` is to give: a start that ends at `p`, which no longer one can replace, and
  -- which is empty or goes on with the byte.
  abbrev Fallen : ℕ → ℕ → Type 0
  Fallen limit r =
      Ends (get_elem? needle) T r p
      × ((r ≡ 0) ⊎ (get_elem? needle r ≡ some byte))
      × ((k : ℕ) → k < limit → Ends (get_elem? needle) T (suc k) (suc p) → k ≤ r)

  -- A start that ends at `p`, goes on with the byte and is not the one of length `m + 1` is no
  -- longer than what the table has for that one.
  longer :
      (k m v : ℕ)
      → k ≤ suc m
      → Ends (get_elem? needle) T (suc k) (suc p)
      → T p ≡ some byte
      → ¬ (get_elem? needle (suc m) ≡ some byte)
      → Ends (get_elem? needle) T (suc m) p
      → IsLongest (get_elem? needle) (get_elem? needle) (suc m) (suc m) v
      → k ≤ v
  longer k m v le k_ends at other ends longest =
      let (shorter, next) = Ends-init (get_elem? needle) T k p k_ends in
      let ne : ¬ (k ≡ suc m) =
        λ eq. other (subst (λ j. get_elem? needle j ≡ some byte) eq (next ∙ at)) in
      longest.most k (omega arith)
        (Ends-inner (get_elem? needle) T k (suc m) p shorter ends (omega arith))

  fall_back_lem :
      (prefix : List ℕ) (filled limit fuel m : ℕ)
      → T p ≡ some byte
      → IsTable needle prefix filled
      → m ≤ fuel
      → m ≤ filled
      → m < length needle
      → Ends (get_elem? needle) T m p
      → ((k : ℕ) → k < limit → Ends (get_elem? needle) T (suc k) (suc p) → k ≤ m)
      → (r : ℕ) × (fall_back fuel needle prefix byte m ≡ some r) × (r ≤ m) × Fallen limit r
  unfolding fall_back
  fall_back_lem prefix filled limit fuel zero at table le_fuel le_filled short ends most =
      (0, refl, omega arith, (ends, inl refl, most))
  fall_back_lem prefix filled limit zero (suc m) at table le_fuel le_filled short ends most =
      absurd (omega arith)
  fall_back_lem prefix filled limit (suc fuel) (suc m) at table le_fuel le_filled short ends most =
      let (x, e) = get_elem?-lt needle (suc m) short in
      let (v, entry, small, longest) = table m (omega arith) in
      elim (Bool-cases (byte == x)) [
        | inl same ↦ (
          suc m,
          fall_back-keep fuel m x needle prefix byte e same,
          omega arith,
          (ends, inr (e ∙ ==-sound byte x same), most),
        )
        | inr other ↦
            let next_ends : Ends (get_elem? needle) T v p =
              Ends-trans (get_elem? needle) T v (suc m) p ends longest.ends in
            let next_most : (k : ℕ)
                → k < limit
                → Ends (get_elem? needle) T (suc k) (suc p)
                → k ≤ v =
              λ k h k_ends.
                longer k m v (most k h k_ends) k_ends at
                  (λ same. ==-differs byte x other (sym e ∙ same)) ends longest in
            let (r, done, le, fallen) =
              fall_back_lem prefix filled limit fuel v at table (omega arith) (omega arith)
                (omega arith) next_ends next_most in
            (
              r,
              fall_back-shorten fuel m x v needle prefix byte e other entry ∙ done,
              omega arith,
              fallen,
            )
      ]

  -- No start longer than `r` goes on with the byte at `p`.
  abbrev Tops : ℕ → ℕ → Type 0
  Tops limit r = (k : ℕ) → k < limit → Ends (get_elem? needle) T (suc k) (suc p) → k ≤ r

  extend-IsLongest :
      (limit r : ℕ)
      → Ends (get_elem? needle) T r p
      → get_elem? needle r ≡ T p
      → Tops limit r
      → IsLongest (get_elem? needle) T (suc limit) (suc p) (suc r)
  extend-IsLongest limit r ends e most = record {
    ends = Ends-extend (get_elem? needle) T r p ends e;
    most = λ k h k_ends. elim (ℕ-cases k) [
      | inl z ↦ omega arith
      | inr (j, s) ↦
          omega (
            arith,
            most j (omega arith) (subst (λ k. Ends (get_elem? needle) T k (suc p)) s k_ends),
          )
    ];
  }

  restart_most :
      (limit : ℕ)
      → T p ≡ some byte
      → ¬ (get_elem? needle 0 ≡ some byte)
      → Tops limit 0
      → (k : ℕ) → k < suc limit
      → Ends (get_elem? needle) T k (suc p)
      → k ≤ 0
  restart_most limit at other most zero h k_ends = omega arith
  restart_most limit at other most (suc zero) h k_ends =
      absurd (other ((Ends-init (get_elem? needle) T 0 p k_ends).1 ∙ at))
  restart_most limit at other most (suc (suc k)) h k_ends =
      omega (arith, most (suc k) (omega arith) k_ends)

  restart-IsLongest :
      (limit r : ℕ)
      → T p ≡ some byte
      → r ≡ 0
      → ¬ (get_elem? needle r ≡ some byte)
      → Tops limit r
      → IsLongest (get_elem? needle) T (suc limit) (suc p) r
  restart-IsLongest limit zero at e other most = record {
    ends = Ends-zero (get_elem? needle) T (suc p);
    most = restart_most limit at other most;
  }
  restart-IsLongest limit (suc r) at e other most = absurd (omega arith)

  advance-fit :
      (prefix : List ℕ) (m r x : ℕ)
      → fall_back m needle prefix byte m ≡ some r
      → get_elem? needle r ≡ some x
      → (byte == x) ≡ true
      → advance needle prefix byte m ≡ some (suc r)
  unfolding advance
  advance-fit prefix m r x fell e same = ground arith

  advance-unfit :
      (prefix : List ℕ) (m r x : ℕ)
      → fall_back m needle prefix byte m ≡ some r
      → get_elem? needle r ≡ some x
      → (byte == x) ≡ false
      → advance needle prefix byte m ≡ some r
  unfolding advance
  advance-unfit prefix m r x fell e other = ground arith

  pub advance_lem :
      (prefix : List ℕ) (filled limit m : ℕ)
      → T p ≡ some byte
      → IsTable needle prefix filled
      → m ≤ filled
      → m < length needle
      → IsLongest (get_elem? needle) T limit p m
      → (r : ℕ) × (advance needle prefix byte m ≡ some r)
        × (r ≤ suc m)
        × IsLongest (get_elem? needle) T (suc limit) (suc p) r
  advance_lem prefix filled limit m at table le_filled short longest =
      let shorter = Ends-init (get_elem? needle) T in
      let (r, fell, le, (ends, stop, most)) =
        fall_back_lem prefix filled limit m m at table (omega arith) le_filled short longest.ends
          λ k h k_ends. longest.most k h (shorter k p k_ends).0 in
      let (x, e) = get_elem?-lt needle r (omega arith) in
      elim (Bool-cases (byte == x)) [
        | inl same ↦ (
          suc r,
          advance-fit prefix m r x fell e same,
          omega arith,
          extend-IsLongest limit r ends (e ∙ ==-sound byte x same ∙ sym at) most,
        )
        | inr other ↦
            let differs : ¬ (get_elem? needle r ≡ some byte) =
              λ same. ==-differs byte x other (sym e ∙ same) in
            (
              r,
              advance-unfit prefix m r x fell e other,
              omega arith,
              restart-IsLongest limit r at (elim stop [ inl z ↦ z | inr s ↦ absurd (differs s) ])
                  differs most,
            )
      ]

get_elem?-set_elem :
    (xs : List ℕ) (i x : ℕ) → i < length xs → get_elem? (set_elem xs i x) i ≡ some x
unfolding set_elem
get_elem?-set_elem [] i x h = absurd (omega arith)
get_elem?-set_elem (y ∷ ys) zero x h = refl
get_elem?-set_elem (y ∷ ys) (suc i) x h = get_elem?-set_elem ys i x (omega arith)

get_elem?-set_elem_ne :
    (xs : List ℕ) (i j x : ℕ) → j < i → get_elem? (set_elem xs i x) j ≡ get_elem? xs j
unfolding set_elem
get_elem?-set_elem_ne [] i j x h = refl
get_elem?-set_elem_ne (y ∷ ys) zero j x h = absurd (omega arith)
get_elem?-set_elem_ne (y ∷ ys) (suc i) zero x h = refl
get_elem?-set_elem_ne (y ∷ ys) (suc i) (suc j) x h = get_elem?-set_elem_ne ys i j x (omega arith)

length-set_elem : (xs : List ℕ) (i x : ℕ) → length (set_elem xs i x) ≡ length xs
unfolding set_elem
length-set_elem [] i x = refl
length-set_elem (y ∷ ys) zero x = refl
length-set_elem (y ∷ ys) (suc i) x = omega (arith, length-set_elem ys i x)

IsTable-set_elem :
    (needle : Bytes) (prefix : List ℕ) (index v : ℕ)
    → index < length prefix
    → IsTable needle prefix index
    → v ≤ index
    → IsLongest (get_elem? needle) (get_elem? needle) (suc index) (suc index) v
    → IsTable needle (set_elem prefix index v) (suc index)
IsTable-set_elem needle prefix index v room table le longest j h = elim (≤-cases j index h) [
  | inl before ↦
      let (w, entry, small, best) = table j before in
      (w, get_elem?-set_elem_ne prefix index j v before ∙ entry, small, best)
  | inr at ↦
      subst
        (λ j.
          (v' : ℕ) × (get_elem? (set_elem prefix index v) j ≡ some v')
          × (v' ≤ j)
          × IsLongest (get_elem? needle) (get_elem? needle) (suc j) (suc j) v')
        (sym at) (v, get_elem?-set_elem prefix index v room, le, longest)
]

-- The byte at the head of what is left of a list.
get_elem?-drop :
    (xs ys : List ℕ) (i y : ℕ)
    → drop i xs ≡ y ∷ ys
    → (get_elem? xs i ≡ some y) × (drop (suc i) xs ≡ ys)
get_elem?-drop [] ys zero y e = cc
get_elem?-drop [] ys (suc i) y e = cc
get_elem?-drop (x ∷ xs) ys zero y e = (cc, cc)
get_elem?-drop (x ∷ xs) ys (suc i) y e = get_elem?-drop xs ys i y e

fill_prefix-step :
    (needle : Bytes) (byte : ℕ) (bytes : Bytes) (index m r : ℕ) (prefix : List ℕ)
    → advance needle prefix byte m ≡ some r
    → fill_prefix needle (byte ∷ bytes) index m prefix
      ≡ fill_prefix needle bytes (suc index) r (set_elem prefix index r)
unfolding fill_prefix
fill_prefix-step needle byte bytes index m r prefix e = rw (e, fill_prefix) refl

fill_prefix_lem :
    (needle bytes : Bytes) (index m : ℕ) (prefix : List ℕ)
    → drop index needle ≡ bytes
    → index + length bytes ≡ length needle
    → length prefix ≡ length needle
    → IsTable needle prefix index
    → m < index
    → IsLongest (get_elem? needle) (get_elem? needle) index index m
    → (table : List ℕ) × (fill_prefix needle bytes index m prefix ≡ some table)
      × IsTable needle table (length needle)
unfolding fill_prefix
fill_prefix_lem needle [] index m prefix left whole size table lt longest =
    (prefix, refl, subst (IsTable needle prefix) (omega arith) table)
fill_prefix_lem needle (byte ∷ bytes) index m prefix left whole size table lt longest =
    let (at, left') = get_elem?-drop needle bytes index byte left in
    let (r, e, le, best) =
      advance_lem needle (get_elem? needle) index byte prefix index index m at table (omega arith)
        (omega arith) longest in
    let (full, e', right) =
      fill_prefix_lem needle bytes (suc index) r (set_elem prefix index r) left' (omega arith)
        (length-set_elem prefix index r ∙ size)
        (IsTable-set_elem needle prefix index r (omega arith) table (omega arith) best)
        (omega arith) best in
    (full, fill_prefix-step needle byte bytes index m r prefix e ∙ e', right)

length-replicate : (n x : ℕ) → length (replicate n x) ≡ n
length-replicate zero x = refl
length-replicate (suc n) x = omega (arith, length-replicate n x)

first-IsLongest :
    (byte : ℕ) (bytes : Bytes)
    → IsLongest (get_elem? (byte ∷ bytes)) (get_elem? (byte ∷ bytes)) 1 1 0
first-IsLongest byte bytes = record {
  ends = Ends-zero (get_elem? (byte ∷ bytes)) (get_elem? (byte ∷ bytes)) 1;
  most = λ k h k_ends. omega arith;
}

first_entry :
    (byte : ℕ) (bytes : Bytes) → IsTable (byte ∷ bytes) (replicate (length (byte ∷ bytes)) 0) 1
first_entry byte bytes zero h = (0, refl, omega arith, first-IsLongest byte bytes)
first_entry byte bytes (suc j) h = absurd (omega arith)

-- The table is built, and has the longest proper start of the needle that each of its starts
-- ends with.
pub prefix_table-IsTable :
    (needle : Bytes)
    → (table : List ℕ) × (prefix_table needle ≡ some table) × IsTable needle table (length needle)
unfolding prefix_table fill_prefix
prefix_table-IsTable [] = ([], refl, λ j h. absurd (omega arith))
prefix_table-IsTable (byte ∷ bytes) =
    fill_prefix_lem (byte ∷ bytes) bytes 1 0 (replicate (length (byte ∷ bytes)) 0) refl
      (omega arith) (length-replicate (length (byte ∷ bytes)) 0) (first_entry byte bytes)
      (omega arith) (first-IsLongest byte bytes)
