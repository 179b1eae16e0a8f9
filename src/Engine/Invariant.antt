-- ===== src/Engine/Invariant.antt =====
-- What holds of the shared state between any two operations.
use sippin_soda.Base.{
  ℕ, suc, ◌≤◌, ◌≡◌, refl, ◌++◌, Bool, true, ◌||◌, List, [], ◌∷◌, length, ◌==◌, is_some, any, arith,
  inl, inr, Bool-cases,
}
use sippin_soda.Base.Assoc.{lookup, insert, remove, lookup-insert, lookup-remove}
use sippin_soda.Engine.Traffic.{Capture, change}
use sippin_soda.Engine.{State}

-- Ids that grow from the low one on and stay below the next.
abbrev pub Ascending : ℕ → List Capture → ℕ → Type 0
Ascending low [] next = low ≤ next
Ascending low (c ∷ cs) next = (low ≤ c.id) × Ascending (suc c.id) cs next

abbrev pub is_listed : ℕ → List Capture → Bool
is_listed id cs = any (λ c. c.id == id) cs

-- Every key of the map is the id of a capture.
abbrev pub Within : {V : Type 0} → List (ℕ × V) → List Capture → Type 0
Within m cs = (id : ℕ) → is_some (lookup id m) ≡ true → is_listed id cs ≡ true

pub record IsWellFormed {M : Type 0} (s : State M) : Type 0 where
  pub room : 1 ≤ s.limit
  pub bounded : length s.traffic ≤ s.limit
  pub counted : s.status.captures ≡ length s.traffic
  pub ordered : Ascending 0 s.traffic s.next_id
  pub breakpoints_within : Within s.breakpoints s.traffic
  pub templates_within : Within s.replay_templates s.traffic

pub Ascending-push :
    (low : ℕ) (cs : List Capture) (next : ℕ) (c : Capture)
    → Ascending low cs next
    → c.id ≡ next
    → Ascending low (cs ++ c ∷ []) (suc next)
Ascending-push low [] next c h same = (omega (arith, h, same), omega (arith, same))
Ascending-push low (d ∷ cs) next c (l, h) same = (l, Ascending-push (suc d.id) cs next c h same)

pub Ascending-suc :
    (low : ℕ) (cs : List Capture) (next : ℕ) → Ascending low cs next → Ascending low cs (suc next)
Ascending-suc low [] next h = omega arith
Ascending-suc low (c ∷ cs) next (l, h) = (l, Ascending-suc (suc c.id) cs next h)

pub Ascending-pop :
    (low : ℕ) (c : Capture) (cs : List Capture) (next : ℕ)
    → Ascending low (c ∷ cs) next
    → Ascending 0 cs next
Ascending-pop low c [] next (l, h) = omega arith
Ascending-pop low c (d ∷ cs) next (l, (m, h)) = (omega arith, h)

pub Ascending-change :
    (id : ℕ) (f : Capture → Capture) (low : ℕ) (cs : List Capture) (next : ℕ)
    → ((c : Capture) → (f c).id ≡ c.id)
    → Ascending low cs next
    → Ascending low (change id f cs) next
unfolding change
Ascending-change id f low [] next keeps h = h
Ascending-change id f low (c ∷ cs) next keeps (l, h) = elim (Bool-cases (c.id == id)) [
  | inl e ↦ rw (e, keeps c) (l, h)
  | inr e ↦ rw e (l, Ascending-change id f (suc c.id) cs next keeps h)
]

pub length-change :
    (id : ℕ) (f : Capture → Capture) (cs : List Capture) → length (change id f cs) ≡ length cs
unfolding change
length-change id f [] = refl
length-change id f (c ∷ cs) = ground (arith, length-change id f cs)

pub listed-change :
    (id : ℕ) (f : Capture → Capture) (j : ℕ) (cs : List Capture)
    → ((c : Capture) → (f c).id ≡ c.id)
    → is_listed j (change id f cs) ≡ is_listed j cs
unfolding change any
listed-change id f j [] keeps = refl
listed-change id f j (c ∷ cs) keeps = elim (Bool-cases (c.id == id)) [
  | inl e ↦ rw (e, keeps c) refl
  | inr e ↦ rw (e, listed-change id f j cs keeps) refl
]

pub listed-push :
    (j : ℕ) (cs : List Capture) (c : Capture)
    → is_listed j (cs ++ c ∷ []) ≡ (is_listed j cs || (c.id == j))
unfolding any
listed-push j [] c = ground arith
listed-push j (d ∷ cs) c = rw (listed-push j cs c) (ground arith)

pub Within-remove :
    {V : Type 0} (m : List (ℕ × V)) (c : Capture) (cs : List Capture)
    → Within m (c ∷ cs)
    → Within (remove c.id m) cs
unfolding any
Within-remove m c cs w id h = ground (arith, lookup-remove c.id id m, w id)

pub Within-push :
    {V : Type 0} (m : List (ℕ × V)) (cs : List Capture) (c : Capture)
    → Within m cs
    → Within m (cs ++ c ∷ [])
Within-push m cs c w id h = rw (listed-push id cs c, w id h) refl

pub Within-insert :
    {V : Type 0} (m : List (ℕ × V)) (cs : List Capture) (key : ℕ) (v : V)
    → is_listed key cs ≡ true
    → Within m cs
    → Within (insert key v m) cs
Within-insert m cs key v listed w id h = ground (arith, lookup-insert key id v m, w id)

pub Within-remove_any :
    {V : Type 0} (m : List (ℕ × V)) (cs : List Capture) (key : ℕ)
    → Within m cs
    → Within (remove key m) cs
Within-remove_any m cs key w id h = ground (arith, lookup-remove key id m, w id)

pub listed_last : (cs : List Capture) (c : Capture) → is_listed c.id (cs ++ c ∷ []) ≡ true
listed_last cs c = rw (listed-push c.id cs c) (ground arith)

-- Where the list is full it is not empty.
pub full_traffic :
    (cs : List Capture) (limit : ℕ)
    → 1 ≤ limit
    → length cs ≡ limit
    → (c : Capture) × (rest : List Capture) × (cs ≡ c ∷ rest)
full_traffic [] limit r h = absurd (omega (arith, r, h))
full_traffic (c ∷ cs) limit r h = (c, cs, refl)
