-- ===== src/Base/Assoc.antt =====
-- `HashMap<u64, V>` as an association list.
use Prim.Native.Nat.{ℕ, ◌+◌, ◌≤◌}
use mathlib.Core.Path.{◌≡◌, refl}
use mathlib.Core.Bool.{false}
use mathlib.Core.Option.{Option, none, some}
use mathlib.Core.List.{List, [], ◌∷◌}
use native.Mathlib.Omega.{arith}
use sippin_soda.Base.Tests.{◌==◌, if◌then◌else◌}

module _ {ℓ} {V : Type ℓ} where
  unfoldable pub lookup : ℕ → List (ℕ × V) → Option V
  lookup key [] = none
  lookup key ((at, found) ∷ entries) = if at == key then some found else lookup key entries

  unfoldable pub insert : ℕ → V → List (ℕ × V) → List (ℕ × V)
  insert key value [] = (key, value) ∷ []
  insert key value ((at, old) ∷ entries) =
      if at == key then (at, value) ∷ entries else (at, old) ∷ insert key value entries

  -- Every entry with the key goes.
  unfoldable pub remove : ℕ → List (ℕ × V) → List (ℕ × V)
  remove k [] = []
  remove k ((j, v) ∷ m) = if j == k then remove k m else (j, v) ∷ remove k m

  -- Changes the value at a key, if there is one.
  unfoldable pub update : ℕ → (V → V) → List (ℕ × V) → List (ℕ × V)
  update k f [] = []
  update k f ((j, v) ∷ m) = if j == k then (j, f v) ∷ m else (j, v) ∷ update k f m

  pub lookup-insert :
      (key other : ℕ) (value : V) (entries : List (ℕ × V))
      → lookup other (insert key value entries)
        ≡ (if key == other then some value else lookup other entries)
  unfolding lookup insert
  lookup-insert key other value [] = refl
  lookup-insert key other value ((at, old) ∷ entries) =
      ground (arith, lookup-insert key other value entries)

  pub lookup-remove :
      (k j : ℕ) (m : List (ℕ × V)) → lookup j (remove k m) ≡ (if k == j then none else lookup j m)
  unfolding lookup remove
  lookup-remove k j [] = ground arith
  lookup-remove k j ((i, w) ∷ m) = ground (arith, lookup-remove k j m)

  pub lookup-update_self :
      (k : ℕ) (f : V → V) (m : List (ℕ × V)) (v : V)
      → lookup k m ≡ some v
      → lookup k (update k f m) ≡ some (f v)
  unfolding lookup update
  lookup-update_self k f [] v h = cc
  lookup-update_self k f ((i, w) ∷ m) v h = ground (arith, lookup-update_self k f m v)

  pub lookup-update_ne :
      (k j : ℕ) (f : V → V) (m : List (ℕ × V))
      → (k == j) ≡ false
      → lookup j (update k f m) ≡ lookup j m
  unfolding lookup update
  lookup-update_ne k j f [] h = refl
  lookup-update_ne k j f ((i, w) ∷ m) h = ground (arith, lookup-update_ne k j f m h)

  pub update_missing : (k : ℕ) (f : V → V) (m : List (ℕ × V)) → lookup k m ≡ none → update k f m ≡ m
  unfolding lookup update
  update_missing k f [] h = refl
  update_missing k f ((i, w) ∷ m) h = ground (arith, update_missing k f m)

  -- A weight over all entries.
  unfoldable pub total : (V → ℕ) → List (ℕ × V) → ℕ
  total weight [] = 0
  total weight ((j, v) ∷ m) = weight v + total weight m

  pub total-update :
      (weight : V → ℕ) (k : ℕ) (f : V → V) (m : List (ℕ × V)) (v : V)
      → lookup k m ≡ some v
      → total weight (update k f m) + weight v ≡ total weight m + weight (f v)
  unfolding lookup update total
  total-update weight k f [] v h = cc
  total-update weight k f ((i, w) ∷ m) v h = ground (arith, total-update weight k f m v)

  pub weight-le-total :
      (weight : V → ℕ) (k : ℕ) (m : List (ℕ × V)) (v : V)
      → lookup k m ≡ some v
      → weight v ≤ total weight m
  unfolding lookup total
  weight-le-total weight k [] v h = cc
  weight-le-total weight k ((i, w) ∷ m) v h = ground (arith, weight-le-total weight k m v)

  -- The first entry with the key goes.
  unfoldable pub erase : ℕ → List (ℕ × V) → List (ℕ × V)
  erase k [] = []
  erase k ((j, v) ∷ m) = if j == k then m else (j, v) ∷ erase k m

  pub total-erase :
      (weight : V → ℕ) (k : ℕ) (m : List (ℕ × V)) (v : V)
      → lookup k m ≡ some v
      → total weight (erase k m) + weight v ≡ total weight m
  unfolding lookup erase total
  total-erase weight k [] v h = cc
  total-erase weight k ((i, w) ∷ m) v h = ground (arith, total-erase weight k m v)

  -- The keys of the map.
  abbrev pub keys : List (ℕ × V) → List ℕ
  keys [] = []
  keys ((j, v) ∷ m) = j ∷ keys m
