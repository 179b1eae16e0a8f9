-- ===== src/Search/Repeat.antt =====
-- A search that goes on from `next_offset` until it finds a match or is done, as the desktop's
-- request for the next match does.
use sippin_soda.Base.{
  ℕ, zero, suc, ◌+◌, ◌^◌, ◌≤◌, ◌<◌, ◌≡◌, refl, ap, sym, ◌∙◌, ◌⊎◌, inl, inr, arith, true, false,
  Option, none, some, ◌==◌, length, drop, Bool-cases, subst, ==_iff, ok,
}
use sippin_soda.Bodies.{Bytes}
use sippin_soda.Search.{scan, stop_of, PageRead, readable}
use sippin_soda.Search.Resume.{IsFirst, NoneBetween, found_at, missed, scan-IsStep}

-- The outermost option is for a step that fails or fuel that runs out.
unfoldable pub search_all : ℕ → Bytes → Bytes → (ℕ → PageRead) → ℕ → ℕ → Option (Option ℕ)
search_all zero needle file reads start end = none
search_all (suc fuel) needle file reads start end =
    elim (scan needle (drop start file) reads start end) [
      | some (ok step) ↦ elim step.found [
        | some at ↦ some (some at)
        | none ↦ elim step.done [
          | true ↦ some none
          | false ↦ search_all fuel needle file reads step.next_offset end
        ]
      ]
      | _ ↦ none
    ]

<-cases : (a b : ℕ) → (a < b) ⊎ (b ≤ a)
<-cases a b = ground arith

module _ (needle file : Bytes) (reads : ℕ → PageRead) where
  -- What the searches from `start` on come to: the first match before `end`, or there is none.
  abbrev pub Answers : ℕ → ℕ → Option (Option ℕ) → Type 0
  Answers start end result =
      ((at : ℕ) × (result ≡ some (some at)) × IsFirst needle file start end at)
      ⊎ ((result ≡ some none) × NoneBetween needle file start end end)

  search_all-found :
      (fuel start end at : ℕ)
      → scan needle (drop start file) reads start end ≡ some (ok (found_at needle file start at))
      → search_all (suc fuel) needle file reads start end ≡ some (some at)
  unfolding search_all
  search_all-found fuel start end at e = rw (e, search_all) refl

  search_all-done :
      (fuel start next end : ℕ)
      → scan needle (drop start file) reads start end
        ≡ some (ok (missed needle file start next end))
      → (stop_of start end == end) ≡ true
      → search_all (suc fuel) needle file reads start end ≡ some none
  unfolding search_all
  search_all-done fuel start next end e done = rw (e, search_all, done) refl

  search_all-again :
      (fuel start next end : ℕ)
      → scan needle (drop start file) reads start end
        ≡ some (ok (missed needle file start next end))
      → (stop_of start end == end) ≡ false
      → search_all (suc fuel) needle file reads start end
        ≡ search_all fuel needle file reads next end
  unfolding search_all
  search_all-again fuel start next end e more = rw (e, search_all, more) refl

  -- A search that goes on has got further.
  search_goes_on :
      (start next end : ℕ)
      → length needle ≤ 4096
      → start ≤ end
      → end < 2 ^ 64
      → (stop_of start end == end) ≡ false
      → stop_of start end < next + length needle
      → start < next
  search_goes_on start next end short le small more near = ground arith

  -- What is found from `next` on is the first from `start` on, if nothing starts between the two.
  Answers-back :
      (start next end : ℕ) (result : Option (Option ℕ))
      → start ≤ next
      → NoneBetween needle file start next end
      → Answers next end result
      → Answers start end result
  Answers-back start next end result le none_before (inl (at, e, (from, within, occurs, first))) =
      inl (
        at,
        e,
        (
          omega arith,
          within,
          occurs,
          λ r h lt. elim (<-cases r next) [
            | inl before ↦ none_before r h before (omega arith)
            | inr after ↦ first r after lt
          ],
        ),
      )
  Answers-back start next end result le none_before (inr (e, none_after)) = inr (
    e,
    λ r h lt within. elim (<-cases r next) [
      | inl before ↦ none_before r h before within
      | inr after ↦ none_after r after lt within
    ],
  )

  -- Searching on until a match is found or the search is done ends, after fewer steps than there
  -- are bytes and one, with the first match between `start` and `end`, or with the answer that
  -- there is none.
  pub search_all-Answers :
      (fuel start end : ℕ)
      → 0 < length needle
      → length needle ≤ 4096
      → start ≤ end
      → end ≤ length file
      → end < 2 ^ 64
      → ((at : ℕ) → reads at ≡ readable)
      → end < start + fuel
      → Answers start end (search_all fuel needle file reads start end)
  search_all-Answers zero start end long short le room small read enough = absurd (omega arith)
  search_all-Answers (suc fuel) start end long short le room small read enough =
      let (step, e, is_step) = scan-IsStep needle file reads start end long le room small read in
      elim is_step [
        | inl (at, step_is, (from, within, occurs, first)) ↦ inl (
          at,
          search_all-found fuel start end at (e ∙ ap (λ step. some (ok step)) step_is),
          (from, omega arith, occurs, first),
        )
        | inr (next, step_is, le_next, near, nothing) ↦
            let missed_is = e ∙ ap (λ step. some (ok step)) step_is in
            elim (Bool-cases (stop_of start end == end)) [
              | inl done ↦ inr (
                search_all-done fuel start next end missed_is done,
                λ r h lt within.
                    nothing r h (omega (arith, (==_iff (stop_of start end) end).0 done)) within,
              )
              | inr more ↦
                  let onward = search_goes_on start next end short le small more near in
                  Answers-back start next end (search_all (suc fuel) needle file reads start end)
                    (omega arith) nothing
                    (subst (Answers next end)
                      (sym (search_all-again fuel start next end missed_is more))
                      (search_all-Answers fuel next end long short le_next room small read
                        (omega arith)))
            ]
      ]
