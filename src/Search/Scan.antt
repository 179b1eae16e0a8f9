-- ===== src/Search/Scan.antt =====
-- What the loops of `scan` find in the bytes that are left to read.
use sippin_soda.Base.{
  ℕ, zero, suc, ◌+◌, ◌-◌, ◌≤◌, ◌<◌, ◌≡◌, refl, ap, sym, ◌∙◌, ◌⊎◌, inl, inr, arith, true, false,
  Option, some, List, [], ◌∷◌, ◌++◌, ◌==◌, ltb, leb, get_elem?, length, take, drop, min, Bool-cases,
  subst, ==_iff, lt→ltb, le→leb, ok, Result, String, length-take, length-drop, take-drop, drop-drop,
}
use sippin_soda.Bodies.{Bytes}
use sippin_soda.Bodies.Store.{page_size}
use sippin_soda.Search.{
  SearchStep, advance, PageScan, hit, rest, scan_page, PageRead, readable, scan_pages, match_ending,
  no_match,
}
use sippin_soda.Search.Ends.{≤-cases, Ends}
use sippin_soda.Search.Prefix.{IsLongest, IsTable, advance_lem}

module _ (needle : Bytes) where
  -- No match ends at or before the place.
  abbrev pub NoneEnds : Bytes → ℕ → Type 0
  NoneEnds file p = (q : ℕ) → q ≤ p → ¬ Ends (get_elem? needle) (get_elem? file) (length needle) q

  -- The first match ends at the place.
  abbrev pub FirstEnds : Bytes → ℕ → Type 0
  FirstEnds file p =
      Ends (get_elem? needle) (get_elem? file) (length needle) p
      × ((q : ℕ) → q < p → ¬ Ends (get_elem? needle) (get_elem? file) (length needle) q)

  -- What is known at a place after which the search goes on.
  pub record Searched (file : Bytes) (p m : ℕ) : Type 0 where
    pub short : m < length needle
    pub longest : IsLongest (get_elem? needle) (get_elem? file) (length needle) p m
    pub nothing : NoneEnds file p

module _ (needle : Bytes) (prefix : List ℕ) where
  -- What the loop over the bytes of a page comes to, where the page ends at `q`.
  abbrev Paged : Bytes → ℕ → ℕ → Option PageScan → Type 0
  Paged file start q result =
      ((at : ℕ) × (result ≡ some (hit (start + at))) × (at ≤ q) × FirstEnds needle file at)
      ⊎ ((m : ℕ) × (result ≡ some (rest m (start + q))) × Searched needle file q m)

  get_elem?-prefix :
      (file bytes after : Bytes) (p byte : ℕ)
      → drop p file ≡ (byte ∷ bytes) ++ after
      → (get_elem? file p ≡ some byte) × (drop (suc p) file ≡ bytes ++ after)
  get_elem?-prefix [] bytes after zero byte e = cc
  get_elem?-prefix [] bytes after (suc p) byte e = cc
  get_elem?-prefix (x ∷ file) bytes after zero byte e = (cc, cc)
  get_elem?-prefix (x ∷ file) bytes after (suc p) byte e =
      get_elem?-prefix file bytes after p byte e

  scan_page-hit :
      (byte : ℕ) (bytes : Bytes) (m r position : ℕ)
      → advance needle prefix byte m ≡ some r
      → (r == length needle) ≡ true
      → scan_page needle prefix (byte ∷ bytes) m position ≡ some (hit (position + 1))
  unfolding scan_page
  scan_page-hit byte bytes m r position e h = ground arith

  scan_page-next :
      (byte : ℕ) (bytes : Bytes) (m r position : ℕ)
      → advance needle prefix byte m ≡ some r
      → (r == length needle) ≡ false
      → scan_page needle prefix (byte ∷ bytes) m position
        ≡ scan_page needle prefix bytes r (position + 1)
  unfolding scan_page
  scan_page-next byte bytes m r position e h = ground arith

  -- A match that is not longer than the longest start is none.
  Searched-step :
      (file : Bytes) (p m r : ℕ)
      → Searched needle file p m
      → r < length needle
      → IsLongest (get_elem? needle) (get_elem? file) (suc (length needle)) (suc p) r
      → Searched needle file (suc p) r
  Searched-step file p m r before short longest = record {
    short = short;
    longest = record { ends = longest.ends; most = λ k h. longest.most k (omega arith) };
    nothing = λ q h ends. elim (≤-cases q (suc p) (omega arith)) [
      | inl already ↦ before.nothing q (omega arith) ends
      | inr now ↦ omega (
        arith,
        longest.most (length needle) (omega arith)
            (subst (Ends (get_elem? needle) (get_elem? file) (length needle)) now ends),
      )
    ];
  }

  scan_page_lem :
      (file bytes after : Bytes) (start p m : ℕ)
      → IsTable needle prefix (length needle)
      → drop p file ≡ bytes ++ after
      → Searched needle file p m
      → Paged file start (p + length bytes) (scan_page needle prefix bytes m (start + p))
  unfolding scan_page
  scan_page_lem file [] after start p m table left so_far = inr (
    m,
    ap (λ q. some (rest m (start + q))) (omega arith),
    subst (λ q. Searched needle file q m) (omega arith) so_far,
  )
  scan_page_lem file (byte ∷ bytes) after start p m table left so_far =
      let (at, left') = get_elem?-prefix file bytes after p byte left in
      let (r, e, le, best) =
        advance_lem needle (get_elem? file) p byte prefix (length needle) (length needle) m at table
          (omega (arith, so_far.short)) so_far.short so_far.longest in
      elim (Bool-cases (r == length needle)) [
        | inl same ↦ inl (
          suc p,
          scan_page-hit byte bytes m r (start + p) e same ∙ ap (λ q. some (hit q)) (omega arith),
          omega arith,
          (
            subst (λ k. Ends (get_elem? needle) (get_elem? file) k (suc p))
                ((==_iff r (length needle)).0 same) best.ends,
            λ q h. so_far.nothing q (omega arith),
          ),
        )
        | inr other ↦
            subst (λ q. Paged file start q (scan_page needle prefix (byte ∷ bytes) m (start + p)))
              (omega arith)
              (subst (Paged file start (suc p + length bytes))
                (ap (scan_page needle prefix bytes r) (omega arith)
                  ∙ sym (scan_page-next byte bytes m r (start + p) e other))
                (scan_page_lem file bytes after start (suc p) r table left'
                  (Searched-step file p m r so_far (ground (arith, so_far.short)) best)))
      ]

  scan_pages-stop :
      (fuel : ℕ) (file : Bytes) (reads : ℕ → PageRead) (stop end m position : ℕ)
      → ltb position stop ≡ false
      → scan_pages fuel needle prefix file reads stop end m position
        ≡ some (ok (no_match stop end m position))
  unfolding scan_pages
  scan_pages-stop zero file reads stop end m position h = ground arith
  scan_pages-stop (suc fuel) file reads stop end m position h = ground arith

  abbrev count_of : ℕ → ℕ → ℕ
  count_of stop position = min page_size (stop - position)

  module _ (fuel : ℕ) (file : Bytes) (reads : ℕ → PageRead) (stop end m position : ℕ) where
    scan_pages-hit :
        (at : ℕ)
        → ltb position stop ≡ true
        → reads position ≡ readable
        → leb (count_of stop position) (length file) ≡ true
        → scan_page needle prefix (take (count_of stop position) file) m position ≡ some (hit at)
        → scan_pages (suc fuel) needle prefix file reads stop end m position
          ≡ some (ok (match_ending needle at))
    unfolding scan_pages
    scan_pages-hit at more read room paged = rw (more, scan_pages, read, room, paged) refl

    scan_pages-rest :
        (r at : ℕ)
        → ltb position stop ≡ true
        → reads position ≡ readable
        → leb (count_of stop position) (length file) ≡ true
        → scan_page needle prefix (take (count_of stop position) file) m position ≡ some (rest r at)
        → scan_pages (suc fuel) needle prefix file reads stop end m position
          ≡ scan_pages fuel needle prefix (drop (count_of stop position) file) reads stop end r at
    unfolding scan_pages
    scan_pages-rest r at more read room paged = rw (more, scan_pages, read, room, paged) refl

  -- What the loop over the pages comes to: the first match in the bytes before `q`, or what is
  -- known there.
  abbrev pub Scanned : Bytes → ℕ → ℕ → ℕ → Option (Result String SearchStep) → Type 0
  Scanned file start q end result =
      ((at : ℕ) × (result ≡ some (ok (match_ending needle (start + at))))
        × (at ≤ q)
        × FirstEnds needle file at)
      ⊎ ((m : ℕ) × (result ≡ some (ok (no_match (start + q) end m (start + q))))
          × Searched needle file q m)

  -- The page at `p` is read, whole.
  take_page :
      (file : Bytes) (start p q : ℕ)
      → p < q
      → q ≤ length file
      → (0 < count_of (start + q) (start + p))
        × (p + count_of (start + q) (start + p) ≤ q)
        × (count_of (start + q) (start + p) ≤ length (drop p file))
        × (length (take (count_of (start + q) (start + p)) (drop p file))
            ≡ count_of (start + q) (start + p))
  take_page file start p q lt le =
      let left = length-drop p file in
      let room : count_of (start + q) (start + p) ≤ length (drop p file) = omega arith in
      (
        omega arith,
        omega arith,
        room,
        length-take (count_of (start + q) (start + p)) (drop p file) room,
      )

  all-Scanned :
      (fuel : ℕ) (file : Bytes) (reads : ℕ → PageRead) (start p q end m : ℕ)
      → p ≡ q
      → Searched needle file p m
      → Scanned file start q end
          (scan_pages fuel needle prefix (drop p file) reads (start + q) end m (start + p))
  all-Scanned fuel file reads start p q end m done so_far = inr (
    m,
    scan_pages-stop fuel (drop p file) reads (start + q) end m (start + p) (ground arith)
        ∙ ap (λ at. some (ok (no_match (start + q) end m (start + at)))) done,
    subst (λ at. Searched needle file at m) done so_far,
  )

  pub scan_pages_lem :
      (fuel : ℕ) (file : Bytes) (reads : ℕ → PageRead) (start p q end m : ℕ)
      → IsTable needle prefix (length needle)
      → ((at : ℕ) → reads at ≡ readable)
      → p ≤ q
      → q ≤ length file
      → q ≤ p + fuel
      → Searched needle file p m
      → Scanned file start q end
          (scan_pages fuel needle prefix (drop p file) reads (start + q) end m (start + p))
  scan_pages_lem zero file reads start p q end m table read le room enough so_far =
      all-Scanned zero file reads start p q end m (omega arith) so_far
  scan_pages_lem (suc fuel) file reads start p q end m table read le room enough so_far =
      elim (≤-cases p q (omega arith)) [
        | inr done ↦ all-Scanned (suc fuel) file reads start p q end m done so_far
        | inl more ↦
            let count : ℕ = count_of (start + q) (start + p) in
            let (some_left, within, there, size) = take_page file start p q more room in
            let lt = lt→ltb (start + p) (start + q) (omega arith) in
            let paged : Paged file start (p + count)
                (scan_page needle prefix (take count (drop p file)) m (start + p)) =
              subst
                (λ c.
                  Paged file start (p + c)
                    (scan_page needle prefix (take count (drop p file)) m (start + p)))
                size
                (scan_page_lem file (take count (drop p file)) (drop count (drop p file)) start p m
                  table (sym (take-drop count (drop p file))) so_far) in
            elim paged [
              | inl (at, e, le, first) ↦ inl (
                at,
                scan_pages-hit fuel (drop p file) reads (start + q) end m (start + p) (start + at)
                    lt (read (start + p)) (le→leb _ _ there) e,
                omega arith,
                first,
              )
              | inr (r, e, onward) ↦
                  subst (Scanned file start q end)
                    (ap
                        (λ left.
                          scan_pages fuel needle prefix left reads (start + q) end r
                            (start + (p + count)))
                        (sym (drop-drop count p file))
                      ∙ sym (
                          scan_pages-rest fuel (drop p file) reads (start + q) end m (start + p) r
                            (start + (p + count)) lt (read (start + p)) (le→leb _ _ there) e))
                    (scan_pages_lem fuel file reads start (p + count) q end r table read within room
                      (omega arith) onward)
            ]
      ]
