-- ===== src/Search/Resume.antt =====
-- What `scan` gives in the whole file, and what repeating it from `next_offset` gives.
use sippin_soda.Base.{
  ℕ, zero, suc, ◌+◌, ◌-◌, ◌^◌, ◌≤◌, ◌<◌, ◌≡◌, refl, ap, sym, ◌∙◌, ◌⊎◌, inl, inr, arith, true, false,
  Option, none, some, List, [], ◌∷◌, ◌==◌, get_elem?, length, take, drop, some_inj, Bool-cases,
  subst, ==_iff, ok, length-drop, get_elem?-drop,
}
use sippin_soda.Bodies.{Bytes}
use sippin_soda.Search.{
  SearchStep, scan, stop_of, scan_pages, prefix_table, PageRead, readable, match_ending, no_match,
}
use sippin_soda.Search.Ends.{Ends, Ends-zero}
use sippin_soda.Search.Prefix.{prefix_table-IsTable}
use sippin_soda.Search.Scan.{Searched, FirstEnds, scan_pages_lem}

-- The needle stands in the file at the offset.
abbrev pub Occurs : Bytes → Bytes → ℕ → Type 0
Occurs needle file at = take (length needle) (drop at file) ≡ needle

-- Of the matches that lie between `start` and `end`, the one at the offset is the first.
abbrev pub IsFirst : Bytes → Bytes → ℕ → ℕ → ℕ → Type 0
IsFirst needle file start end at =
    (start ≤ at)
    × (at + length needle ≤ end)
    × Occurs needle file at
    × ((r : ℕ) → start ≤ r → r < at → ¬ Occurs needle file r)

-- No match that lies before `end` starts from `start` on and before `next`.
abbrev pub NoneBetween : Bytes → Bytes → ℕ → ℕ → ℕ → Type 0
NoneBetween needle file start next end =
    (r : ℕ) → start ≤ r → r < next → r + length needle ≤ end → ¬ Occurs needle file r

some_none : {x : ℕ} → ¬ (Path (Option ℕ) (some x) none)
some_none e = cc

cons_inj : {x y : ℕ} {xs ys : List ℕ} → Path (List ℕ) (x ∷ xs) (y ∷ ys) → xs ≡ ys
cons_inj e = cc

≤-cases : (a b : ℕ) → (a ≤ b) ⊎ (b < a)
≤-cases a b = ground arith

take-get_elem? :
    (w xs : List ℕ)
    → ((i : ℕ) → i < length w → get_elem? w i ≡ get_elem? xs i)
    → take (length w) xs ≡ w
take-get_elem? [] xs same = refl
take-get_elem? (x ∷ w) [] same = absurd (some_none (same 0 (omega arith)))
take-get_elem? (x ∷ w) (y ∷ xs) same =
    ap (λ z. z ∷ take (length w) xs) (sym (some_inj (same 0 (omega arith))))
    ∙ ap (λ ys. x ∷ ys) (take-get_elem? w xs λ i h. same (suc i) (omega arith))

get_elem?-take :
    (w xs : List ℕ)
    → take (length w) xs ≡ w
    → (i : ℕ) → i < length w
    → get_elem? w i ≡ get_elem? xs i
get_elem?-take [] xs e i h = absurd (omega arith)
get_elem?-take (x ∷ w) [] e i h = cc
get_elem?-take (x ∷ w) (y ∷ xs) e zero h = cc
get_elem?-take (x ∷ w) (y ∷ xs) e (suc i) h = get_elem?-take w xs (cons_inj e) i (omega arith)

module _ (needle file : Bytes) (start : ℕ) where
  Ends-Occurs :
      (p : ℕ)
      → Ends (get_elem? needle) (get_elem? (drop start file)) (length needle) p
      → Occurs needle file (start + p - length needle)
  Ends-Occurs p (le, same) = take-get_elem? needle (drop (start + p - length needle) file) λ i h.
      same i h
      ∙ get_elem?-drop start (p - length needle + i) file
      ∙ ap (get_elem? file) (omega arith)
      ∙ sym (get_elem?-drop (start + p - length needle) i file)

  Occurs-Ends :
      (r : ℕ)
      → start ≤ r
      → Occurs needle file r
      → Ends
          (get_elem? needle)
          (get_elem? (drop start file))
          (length needle)
          (r - start + length needle)
  Occurs-Ends r le occurs = (
    omega arith,
    λ i h.
        get_elem?-take needle (drop r file) occurs i h
        ∙ get_elem?-drop r i file
        ∙ ap (get_elem? file) (omega arith)
        ∙ sym (get_elem?-drop start (r - start + length needle - length needle + i) file),
  )

  -- The step that finds the match at the offset.
  abbrev pub found_at : ℕ → SearchStep
  found_at at = record {
    found = some at;
    next_offset = at + 1;
    scanned_to = at + length needle;
    done = true;
  }

  -- The step that has looked as far as `stop` and goes on at `next`.
  abbrev no_match_at : ℕ → ℕ → ℕ → SearchStep
  no_match_at next stop end = record {
    found = none;
    next_offset = next;
    scanned_to = stop;
    done = stop == end;
  }

  abbrev pub missed : ℕ → ℕ → SearchStep
  missed next end = no_match_at next (stop_of start end) end

  -- A step finds the first match before the place where it stops; or there is none, and the step
  -- says where to go on, less than the needle before that place.
  abbrev pub IsStep : ℕ → SearchStep → Type 0
  IsStep end step =
      ((at : ℕ) × (step ≡ found_at at) × IsFirst needle file start (stop_of start end) at)
      ⊎ ((next : ℕ) × (step ≡ missed next end)
          × (next ≤ end)
          × (stop_of start end < next + length needle)
          × NoneBetween needle file start next end)

  hit-IsStep :
      (at end : ℕ)
      → start + at ≤ stop_of start end
      → FirstEnds needle (drop start file) at
      → IsStep end (match_ending needle (start + at))
  hit-IsStep at end within (ends, first) = inl (
    start + at - length needle,
    ap
        (λ to. record {
          found = some (start + at - length needle);
          next_offset = start + at - length needle + 1;
          scanned_to = to;
          done = true;
        })
        (omega (arith, ends.0)),
    (
      omega (arith, ends.0),
      omega (arith, ends.0),
      Ends-Occurs at ends,
      λ r le lt occurs.
          first (r - start + length needle) (omega (arith, ends.0)) (Occurs-Ends r le occurs),
    ),
  )

  -- A match that goes on past the place has its start end there.
  Occurs-Ends-start :
      (r q : ℕ)
      → start ≤ r
      → r ≤ start + q
      → start + q < r + length needle
      → Occurs needle file r
      → Ends (get_elem? needle) (get_elem? (drop start file)) (start + q - r) q
  Occurs-Ends-start r q from before past occurs = (
    omega arith,
    λ i h.
        get_elem?-take needle (drop r file) occurs i (omega arith)
        ∙ get_elem?-drop r i file
        ∙ ap (get_elem? file) (omega arith)
        ∙ sym (get_elem?-drop start (q - (start + q - r) + i) file),
  )

  miss-NoneBetween :
      (q end m : ℕ)
      → Searched needle (drop start file) q m
      → NoneBetween needle file start (start + q - m) end
  miss-NoneBetween q end m so_far r from lt within occurs =
      elim (≤-cases (r + length needle) (start + q)) [
        | inl inside ↦
            so_far.nothing (r - start + length needle) (omega arith) (Occurs-Ends r from occurs)
        | inr outside ↦ omega (
          arith,
          so_far.longest.most (start + q - r) (omega arith)
              (Occurs-Ends-start r q from (omega arith) outside occurs),
        )
      ]

  no_match-done :
      (stop end m : ℕ) → (stop == end) ≡ true → no_match stop end m stop ≡ no_match_at end stop end
  no_match-done stop end m e = rw e refl

  no_match-more :
      (stop end m : ℕ)
      → (stop == end) ≡ false
      → no_match stop end m stop ≡ no_match_at (stop - m) stop end
  no_match-more stop end m e = rw e refl

  miss-IsStep :
      (stop q end m : ℕ)
      → start + q ≡ stop
      → stop ≡ stop_of start end
      → Searched needle (drop start file) q m
      → IsStep end (no_match stop end m stop)
  miss-IsStep stop q end m at is_stop so_far = elim (Bool-cases (stop == end)) [
    | inl all ↦ inr (
      end,
      no_match-done stop end m all ∙ ap (λ stop. no_match_at end stop end) is_stop,
      omega arith,
      omega (arith, so_far.short, is_stop),
      λ r h lt within occurs.
          so_far.nothing (r - start + length needle) (omega (arith, (==_iff stop end).0 all))
            (Occurs-Ends r h occurs),
    )
    | inr some_left ↦ inr (
      stop - m,
      no_match-more stop end m some_left ∙ ap (λ to. no_match_at (stop - m) to end) is_stop,
      omega (arith, is_stop),
      omega (arith, so_far.short, is_stop, so_far.longest.ends.0),
      subst (λ from. NoneBetween needle file start (from - m) end) at
          (miss-NoneBetween q end m so_far),
    )
  ]

nothing-Searched : (needle file : Bytes) → 0 < length needle → Searched needle file 0 0
nothing-Searched needle file long = record {
  short = long;
  longest = record {
    ends = Ends-zero (get_elem? needle) (get_elem? file) 0;
    most = λ k h ends. ends.0;
  };
  nothing = λ q h ends. omega (arith, ends.0);
}

scan-scan_pages :
    (needle text : Bytes) (reads : ℕ → PageRead) (start q end : ℕ) (table : List ℕ)
    → prefix_table needle ≡ some table
    → start + q ≡ stop_of start end
    → q ≡ stop_of start end - start
    → scan needle text reads start end
      ≡ scan_pages q needle table text reads (start + q) end 0 (start + 0)
unfolding scan
scan-scan_pages needle text reads start q end table built at counted =
    rw (built, scan)
      (ap (λ fuel. scan_pages fuel needle table text reads (stop_of start end) end 0 start)
          (sym counted)
        ∙ ap (λ stop. scan_pages q needle table text reads stop end 0 start) (sym at)
        ∙ ap (scan_pages q needle table text reads (start + q) end 0) (omega arith))

-- Where the bytes can be read and nothing cancels the search, `scan` gives a result, and the
-- result is right: the first match that ends by the place where the scan stops, or that there is
-- none, with an offset to go on from such that no match starts before it.
pub scan-IsStep :
    (needle file : Bytes) (reads : ℕ → PageRead) (start end : ℕ)
    → 0 < length needle
    → start ≤ end
    → end ≤ length file
    → end < 2 ^ 64
    → ((at : ℕ) → reads at ≡ readable)
    → (step : SearchStep) × (scan needle (drop start file) reads start end ≡ some (ok step))
      × IsStep needle file start end step
scan-IsStep needle file reads start end long le room small read =
    let (table, built, right) = prefix_table-IsTable needle in
    let stop : ℕ = stop_of start end in
    let at : start + (stop - start) ≡ stop = omega arith in
    let text : Bytes = drop start file in
    let whole = scan-scan_pages needle text reads start (stop - start) end table built at refl in
    let scanned =
      scan_pages_lem needle table (stop - start) text reads start 0 (stop - start) end 0 right read
        (omega arith) (omega (arith, length-drop start file)) (omega arith)
        (nothing-Searched needle text long) in
    elim scanned [
      | inl (p, e, within, first) ↦ (
        match_ending needle (start + p),
        whole ∙ e,
        hit-IsStep needle file start p end (omega arith) first,
      )
      | inr (m, e, so_far) ↦ (
        no_match (start + (stop - start)) end m (start + (stop - start)),
        whole ∙ e,
        subst (λ to. IsStep needle file start end (no_match to end m to)) (sym at)
            (miss-IsStep needle file start stop (stop - start) end m at refl so_far),
      )
    ]
