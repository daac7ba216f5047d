-- ===== src/Common/Maps.antt =====
-- A Go map: an association list with at most one entry for a key. Go iterates over a map in no
-- fixed order; a loop over it is modelled over the list, and a statement for all lists covers all
-- orders.
use Prim.Native.Nat.{ℕ, ◌+◌, ◌≤◌}
use mathlib.Core.Path.{◌≡◌, refl}
use mathlib.Core.Logic.{inl, inr}
use mathlib.Core.Bool.{Bool, true, false, not, ◌&&◌, ◌||◌}
use mathlib.Core.List.{List, [], ◌∷◌}
use mathlib.Core.Option.{Option, none, some}
use native.Mathlib.Omega.{arith}
use dispatchd.Common.Tests.{if◌then◌else◌, Bool-cases}
use dispatchd.Common.Equality.{Comparable, ◌==◌}

abbrev pub Map {ℓ κ} : Type ℓ → Type κ → Type (ℓ ⊔ κ)
Map K V = List (K × V)

module _ {ℓ κ} {K : Type ℓ} {V : Type κ} ⦃e : Comparable K⦄ where
  -- v, found := m[k]
  unfoldable pub find : K → Map K V → Option V
  find k [] = none
  find k ((j, v) ∷ m) = if j == k then some v else find k m

  -- delete(m, k)
  unfoldable pub remove : K → Map K V → Map K V
  remove k [] = []
  remove k ((j, v) ∷ m) = let rest = remove k m in if j == k then rest else (j, v) ∷ rest

  -- m[k] = v
  unfoldable pub put : K → V → Map K V → Map K V
  put k v m = (k, v) ∷ remove k m

  pub find-remove :
      (j k : K) (m : Map K V) → find j (remove k m) ≡ (if k == j then none else find j m)
  unfolding find remove
  find-remove j k [] = ground arith
  find-remove j k ((i, v) ∷ m) =
      ground (arith, find-remove j k m, e.same_iff i k, e.same_iff i j, e.same_iff k j)

  pub find-put :
      (j k : K) (v : V) (m : Map K V) → find j (put k v m) ≡ (if k == j then some v else find j m)
  unfolding find put
  find-put j k v m = ground (arith, find-remove j k m)

module _ {ℓ κ} {K : Type ℓ} {V : Type κ} ⦃e : Comparable K⦄ where
  -- _, found := m[k]
  unfoldable pub contains : K → Map K V → Bool
  contains k m = elim (find k m) [ none ↦ false | some _ ↦ true ]

  pub contains-put :
      (j k : K) (v : V) (m : Map K V) → contains j (put k v m) ≡ (k == j || contains j m)
  unfolding contains
  contains-put j k v m = ground (arith, find-put j k v m)

pub ruleset map_laws = (find-remove, find-put, contains-put)

-- Each key has at most one entry, as in every Go map.
abbrev pub IsUnique {ℓ κ} : {K : Type ℓ} {V : Type κ} ⦃e : Comparable K⦄ → Map K V → Type 0
IsUnique [] = Unit {0}
IsUnique ((k, v) ∷ m) = (contains k m ≡ false) × IsUnique m

module _ {ℓ κ} {K : Type ℓ} {V : Type κ} ⦃e : Comparable K⦄ where
  pub contains-remove :
      (j k : K) (m : Map K V) → contains j (remove k m) ≡ (not (k == j) && contains j m)
  unfolding contains
  contains-remove j k m = ground (arith, find-remove j k m)

  pub remove-IsUnique : (k : K) (m : Map K V) → IsUnique m → IsUnique (remove k m)
  unfolding remove
  remove-IsUnique k [] u = tt
  remove-IsUnique k ((j, v) ∷ m) u = ground (arith, remove-IsUnique k m u.1, contains-remove j k m)

  pub put-IsUnique : (k : K) (v : V) (m : Map K V) → IsUnique m → IsUnique (put k v m)
  unfolding put
  put-IsUnique k v m u =
      (ground (arith, contains-remove k k m, e.same_iff k k), remove-IsUnique k m u)

abbrev pub measured {ℓ} : {V : Type ℓ} → (V → ℕ) → Option V → ℕ
measured f none = 0
measured f (some v) = f v

-- The sum of a measure of the values.
module _ {ℓ κ} {K : Type ℓ} {V : Type κ} where
  unfoldable pub total : (V → ℕ) → Map K V → ℕ
  total f [] = 0
  total f ((k, v) ∷ m) = f v + total f m

module _ {ℓ κ} {K : Type ℓ} {V : Type κ} ⦃e : Comparable K⦄ (f : V → ℕ) where
  remove_absent : (k : K) (m : Map K V) → contains k m ≡ false → total f (remove k m) ≡ total f m
  unfolding total remove contains find
  remove_absent k [] h = refl
  remove_absent k ((j, v) ∷ m) h = ground (arith, remove_absent k m)

  pub total-remove :
      (k : K) (m : Map K V) → IsUnique m → total f m ≡ measured f (find k m) + total f (remove k m)
  unfolding total remove find
  total-remove k [] u = omega arith
  total-remove k ((j, v) ∷ m) u = elim (Bool-cases (j == k)) [
    | inl same ↦
        let c : contains k m ≡ false = rw (← (e.same_iff j k).0 same) u.0 in
        rw same (omega (arith, remove_absent k m c))
    | inr other ↦ rw other (omega (arith, total-remove k m u.1))
  ]

  pub total-put :
      (k : K) (v : V) (m : Map K V)
      → IsUnique m
      → total f (put k v m) + measured f (find k m) ≡ f v + total f m
  unfolding put total
  total-put k v m u = omega (arith, total-remove k m u)

  pub total-remove_le : (k : K) (m : Map K V) → total f (remove k m) ≤ total f m
  unfolding total remove
  total-remove_le k [] = omega arith
  total-remove_le k ((j, v) ∷ m) = ground (arith, total-remove_le k m)

module _ {ℓ κ} {K : Type ℓ} {V : Type κ} ⦃e : Comparable K⦄ where
  -- Each entry of the first list is what the map has at its key.
  abbrev pub IsSub : Map K V → Map K V → Type κ
  IsSub [] m = Unit {κ}
  IsSub ((k, v) ∷ r) m = (find k m ≡ some v) × IsSub r m

  pub IsSub-remove :
      (k : K) (r m : Map K V) → contains k r ≡ false → IsSub r m → IsSub r (remove k m)
  unfolding contains find
  IsSub-remove k [] m h s = tt
  IsSub-remove k ((j, v) ∷ r) m h s = (
    ground (arith, find-remove j k m, e.same_iff j k, e.same_iff k j, s.0),
    IsSub-remove k r m (ground arith) s.1,
  )

  pub IsSub-cons :
      (k : K) (v : V) (r m : Map K V) → contains k r ≡ false → IsSub r m → IsSub r ((k, v) ∷ m)
  unfolding contains find
  IsSub-cons k v [] m h s = tt
  IsSub-cons k v ((j, w) ∷ r) m h s =
      (ground (arith, e.same_iff j k, e.same_iff k j, s.0), IsSub-cons k v r m (ground arith) s.1)

  pub IsSub-refl : (m : Map K V) → IsUnique m → IsSub m m
  unfolding find
  IsSub-refl [] u = tt
  IsSub-refl ((k, v) ∷ m) u =
      (ground (arith, e.same_iff k k), IsSub-cons k v m m u.0 (IsSub-refl m u.1))
