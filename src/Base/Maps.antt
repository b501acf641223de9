-- ===== src/Base/Maps.antt =====
-- Maps and sets of the C++ standard library as lists: `std::unordered_map` as an association
-- list in its iteration order, `std::unordered_set` as a list of its members.
use Prim.Native.Nat.{◌≤◌, ◌<◌}
use mathlib.Core.Path.{◌≡◌, refl}
use mathlib.Core.Bool.{Bool, true, false, not, ◌&&◌, ◌||◌}
use mathlib.Core.Option.{Option, none, some}
use mathlib.Core.List.{List, [], ◌∷◌}
use native.Mathlib.Omega.{arith}
use comon.Base.Lists.{length}
use comon.Base.Equality.{Equals, ◌==◌}

module _ {ℓ} {K : Type ℓ} ⦃e : Equals K⦄ where
  -- `set.contains(key)`
  unfoldable pub member : K → List K → Bool
  member k [] = false
  member k (x ∷ xs) = x == k || member k xs

  -- `set.insert(key)`
  unfoldable pub add_member : K → List K → List K
  unfolding member
  add_member k xs = elim (member k xs) [ true ↦ xs | false ↦ k ∷ xs ]

  -- `set.erase(key)`
  unfoldable pub remove_member : K → List K → List K
  remove_member k [] = []
  remove_member k (x ∷ xs) = elim (x == k) [
    | true ↦ remove_member k xs
    | false ↦ x ∷ remove_member k xs
  ]

  pub member-add_member :
      (k j : K) (xs : List K) → member j (add_member k xs) ≡ (k == j || member j xs)
  unfolding member add_member
  member-add_member k j xs = ground (arith, e.equals_iff k j)

  pub member-remove_member :
      (k j : K) (xs : List K) → member j (remove_member k xs) ≡ (not (k == j) && member j xs)
  unfolding member remove_member
  member-remove_member k j [] = ground arith
  member-remove_member k j (x ∷ xs) =
      ground
        (arith, e.equals_iff k j, e.equals_iff x k, e.equals_iff x j, member-remove_member k j xs)

module _ {ℓ κ} {K : Type ℓ} {V : Type κ} ⦃e : Equals K⦄ where
  -- `map.find(key)`
  unfoldable pub find : K → List (K × V) → Option V
  find k [] = none
  find k ((j, v) ∷ m) = elim (j == k) [ true ↦ some v | false ↦ find k m ]

  -- `map.erase(key)`
  unfoldable pub erase : K → List (K × V) → List (K × V)
  erase k [] = []
  erase k ((j, v) ∷ m) = elim (j == k) [ true ↦ erase k m | false ↦ (j, v) ∷ erase k m ]

  -- `map.insert({key, value})`, which leaves an entry that is there alone
  unfoldable pub insert : K → V → List (K × V) → List (K × V)
  unfolding find
  insert k v m = elim (find k m) [ none ↦ (k, v) ∷ m | some _ ↦ m ]

  -- `map[key] = value` at a key that is there
  unfoldable pub assign : K → V → List (K × V) → List (K × V)
  assign k v [] = []
  assign k v ((j, w) ∷ m) = elim (j == k) [ true ↦ (j, v) ∷ m | false ↦ (j, w) ∷ assign k v m ]

  -- no key twice
  abbrev pub Distinct : List (K × V) → Type κ
  Distinct [] = Unit
  Distinct ((k, v) ∷ m) = (find k m ≡ none) × Distinct m

  pub find-erase :
      (k j : K) (m : List (K × V))
      → find j (erase k m) ≡ elim (k == j) [ true ↦ none | false ↦ find j m ]
  unfolding find erase
  find-erase k j [] = ground arith
  find-erase k j ((i, v) ∷ m) =
      ground (arith, e.equals_iff k j, e.equals_iff i k, e.equals_iff i j, find-erase k j m)

  pub find-insert :
      (k j : K) (v : V) (m : List (K × V))
      → find k m ≡ none
      → find j (insert k v m) ≡ elim (k == j) [ true ↦ some v | false ↦ find j m ]
  unfolding find insert
  find-insert k j v m h = ground arith

  pub find-assign :
      (k j : K) (v w : V) (m : List (K × V))
      → find k m ≡ some w
      → find j (assign k v m) ≡ elim (k == j) [ true ↦ some v | false ↦ find j m ]
  unfolding find assign
  find-assign k j v w [] h = ground arith
  find-assign k j v w ((i, u) ∷ m) h =
      ground (arith, e.equals_iff k j, e.equals_iff i k, e.equals_iff i j, find-assign k j v w m)

  pub length-erase-le : (k : K) (m : List (K × V)) → length (erase k m) ≤ length m
  unfolding erase
  length-erase-le k [] = omega arith
  length-erase-le k ((i, v) ∷ m) = ground (arith, length-erase-le k m)

  pub length-erase-lt :
      (k : K) (v : V) (m : List (K × V)) → find k m ≡ some v → length (erase k m) < length m
  unfolding erase find
  length-erase-lt k v [] h = ground arith
  length-erase-lt k v ((i, w) ∷ m) h = ground (arith, length-erase-le k m, length-erase-lt k v m)

  pub erase-Distinct : (k : K) (m : List (K × V)) → Distinct m → Distinct (erase k m)
  unfolding erase
  erase-Distinct k [] h = tt
  erase-Distinct k ((i, v) ∷ m) h =
      ground (arith, e.equals_iff k i, find-erase k i m, erase-Distinct k m h.1)

  find-assign-none :
      (k j : K) (v : V) (m : List (K × V)) → find j m ≡ none → find j (assign k v m) ≡ none
  unfolding find assign
  find-assign-none k j v [] h = refl
  find-assign-none k j v ((i, u) ∷ m) h = ground (arith, find-assign-none k j v m)

  pub insert-Distinct : (k : K) (v : V) (m : List (K × V)) → Distinct m → Distinct (insert k v m)
  unfolding insert
  insert-Distinct k v m h = ground arith

  pub assign-Distinct : (k : K) (v : V) (m : List (K × V)) → Distinct m → Distinct (assign k v m)
  unfolding assign
  assign-Distinct k v [] h = tt
  assign-Distinct k v ((i, w) ∷ m) h =
      ground (arith, find-assign-none k i v m, assign-Distinct k v m h.1)

  pub length-assign : (k : K) (v : V) (m : List (K × V)) → length (assign k v m) ≡ length m
  unfolding assign
  length-assign k v [] = refl
  length-assign k v ((i, w) ∷ m) = ground (arith, length-assign k v m)
