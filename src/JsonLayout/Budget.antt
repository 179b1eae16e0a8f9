-- ===== src/JsonLayout/Budget.antt =====
-- What a layout takes from the disk budget, and gives back.
use sippin_soda.Base.{
  ℕ, ◌+◌, ◌-◌, ◌≡◌, ◌≤◌, refl, sym, ap, ◌∙◌, ◌⊎◌, inl, inr, arith, Bool, false, ◌||◌, some, List,
  [], ◌∷◌, String, Result, ok, err, Bool-cases, Option-cases, Result-cases, subst,
}
use sippin_soda.Base.Assoc.{lookup, lookup-update_self}
use sippin_soda.Bodies.{Entry, Storage, reserve, with_entry}
use sippin_soda.JsonLayout.View.{
  grown, shrunk, budget_write, give_back, Stage, writes, unread, write_stages, write_layout,
}

-- Since the storage `s`, where the entry `e` was under the handle, a writer has taken so many bytes,
-- and no more than the limit are in use.
pub record HasTaken (s : Storage) (handle : ℕ) (e : Entry) (now : Storage) (taken : ℕ)
    : Type 0 where
  pub entry : lookup handle now.heap ≡ some (grown e taken)
  pub used : now.used ≡ s.used + taken
  pub within : (taken ≡ 0) ⊎ (now.used ≤ e.limit)

reserve-some :
    (used count limit next : ℕ)
    → reserve used count limit ≡ some next
    → (next ≡ used + count) × (next ≤ limit)
unfolding reserve
reserve-some used count limit next h = (ground arith, ground arith)

module _ (s : Storage) (handle : ℕ) (e : Entry) where
  -- What a write comes to: nothing, or so many bytes more.
  budget_write-cases :
      (now : Storage) (taken count : ℕ) (written : Bool)
      → lookup handle now.heap ≡ some (grown e taken)
      → let (after, total, _) = budget_write now handle taken count written in
        ((after ≡ now) × (total ≡ taken))
        ⊎ ((used : ℕ) × (reserve now.used count e.limit ≡ some used)
            × (after ≡ record (with_entry now handle (λ e. grown e count)) { used = used })
            × (total ≡ taken + count))
  unfolding budget_write
  budget_write-cases now taken count written found =
      elim (Bool-cases (e.cancelled || e.json.cancel)) [
        | inl stop ↦ inl (ground arith, ground arith)
        | inr go ↦ elim (Option-cases (reserve now.used count e.limit)) [
          | inl full ↦ inl (ground arith, ground arith)
          | inr (used, room) ↦ inr (used, room, ground arith, ground arith)
        ]
      ]

  grown-grown : (a b : ℕ) → grown (grown e a) b ≡ grown e (a + b)
  grown-grown a b = ap (λ n. record e { reserved = n }) (omega arith)

  with_entry-lookup :
      (now : Storage) (taken count used : ℕ)
      → lookup handle now.heap ≡ some (grown e taken)
      → lookup handle (record (with_entry now handle (λ e. grown e count)) { used = used }).heap
        ≡ some (grown e (taken + count))
  unfolding with_entry
  with_entry-lookup now taken count used found =
      lookup-update_self handle (λ e. grown e count) now.heap (grown e taken) found
      ∙ ap some (grown-grown taken count)

  budget_write-HasTaken :
      (now : Storage) (taken count : ℕ) (written : Bool)
      → HasTaken s handle e now taken
      → HasTaken s handle e
          (budget_write now handle taken count written).0
          (budget_write now handle taken count written).1
  budget_write-HasTaken now taken count written has =
      elim (budget_write-cases now taken count written has.entry) [
        | inl (same, none_more) ↦
            subst (HasTaken s handle e _) (sym none_more)
              (subst (λ x. HasTaken s handle e x taken) (sym same) has)
        | inr (used, room, after, total) ↦
            let (sum, within) = reserve-some now.used count e.limit used room in
            subst (HasTaken s handle e _) (sym total) (
              subst (λ x. HasTaken s handle e x (taken + count)) (sym after)
                (record {
                  entry = with_entry-lookup now taken count used has.entry;
                  used = omega (arith, has.used, sum);
                  within = inr within;
                }))
      ]

  write_stages-HasTaken :
      (stages : List Stage) (now : Storage) (taken : ℕ)
      → HasTaken s handle e now taken
      → HasTaken s handle e
          (write_stages now handle taken stages).0
          (write_stages now handle taken stages).1
  unfolding write_stages
  write_stages-HasTaken [] now taken has = has
  write_stages-HasTaken (unread cause ∷ stages) now taken has = has
  write_stages-HasTaken (writes count written ∷ stages) now taken has =
      elim (Result-cases (budget_write now handle taken count written).2) [
        | inl (done, went) ↦
            rw (went, write_stages)
              (write_stages-HasTaken stages (budget_write now handle taken count written).0
                (budget_write now handle taken count written).1
                (budget_write-HasTaken now taken count written has))
        | inr (cause, failed) ↦
            rw (failed, write_stages) (budget_write-HasTaken now taken count written has)
      ]

  give_back-shrunk :
      (now : Storage) (taken : ℕ)
      → e.cancelled ≡ false
      → lookup handle now.heap ≡ some (grown e taken)
      → give_back now handle taken
        ≡ record (with_entry now handle (λ e. shrunk e taken)) { used = now.used - taken }
  unfolding give_back
  give_back-shrunk now taken live found = ground arith

  shrunk-grown : (n : ℕ) → shrunk (grown e n) n ≡ e
  shrunk-grown n = ap (λ k. record e { reserved = k }) (omega arith)

  shrunk-lookup :
      (now : Storage) (taken used : ℕ)
      → lookup handle now.heap ≡ some (grown e taken)
      → lookup handle (record (with_entry now handle (λ e. shrunk e taken)) { used = used }).heap
        ≡ some e
  unfolding with_entry
  shrunk-lookup now taken used found =
      lookup-update_self handle (λ e. shrunk e taken) now.heap (grown e taken) found
      ∙ ap some (shrunk-grown taken)

  -- Giving back what was taken leaves the bytes in use and the entry as they were.
  give_back-all :
      (now : Storage) (taken : ℕ)
      → e.cancelled ≡ false
      → HasTaken s handle e now taken
      → ((give_back now handle taken).used ≡ s.used)
        × (lookup handle (give_back now handle taken).heap ≡ some e)
  unfolding with_entry
  give_back-all now taken live has =
      let given = give_back-shrunk now taken live has.entry in
      (
        ap (λ x. x.used) given ∙ omega (arith, has.used),
        ap (λ x. lookup handle x.heap) given ∙ shrunk-lookup now taken (now.used - taken) has.entry,
      )

  -- What a layout has come to, by its storage and its result.
  abbrev pub Settled : Storage × Result String ℕ → Type 0
  Settled (after, result) =
      ((size : ℕ) × (result ≡ ok size) × HasTaken s handle e after size)
      ⊎ ((cause : String) × (result ≡ err cause)
          × (after.used ≡ s.used)
          × (lookup handle after.heap ≡ some e))

  nothing-HasTaken : lookup handle s.heap ≡ some e → HasTaken s handle e s 0
  nothing-HasTaken found = record {
    entry = found ∙ ap some (ap (λ n. record e { reserved = n }) (omega arith));
    used = omega arith;
    within = inl refl;
  }

  -- A layout of a body that is not cancelled meanwhile takes exactly its size from the budget, within
  -- the limit; and one that fails, at whatever write or byte, gives all back.
  pub write_layout-Settled :
      (stages : List Stage) (last : ℕ) (written : Bool)
      → lookup handle s.heap ≡ some e
      → e.cancelled ≡ false
      → Settled (write_layout s handle stages last written)
  unfolding write_layout
  write_layout-Settled stages last written found live =
      let has = write_stages-HasTaken stages s 0 (nothing-HasTaken found) in
      elim (Result-cases (write_stages s handle 0 stages).2) [
        | inl (done, went) ↦
            rw (went, write_layout) (inl ((write_stages s handle 0 stages).1, refl, has))
        | inr (cause, failed) ↦
            let more =
              budget_write-HasTaken (write_stages s handle 0 stages).0
                (write_stages s handle 0 stages).1 last written has in
            let (used, entry) = give_back-all _ _ live more in
            rw (failed, write_layout) (inr (cause, refl, used, entry))
      ]
