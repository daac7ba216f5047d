-- ===== src/Common/Entries.antt =====
-- A property of each entry of a Go map.
use mathlib.Core.Path.{◌≡◌, subst}
use mathlib.Core.Logic.{inl, inr}
use mathlib.Core.List.{[], ◌∷◌}
use mathlib.Core.Option.{some}
use native.Mathlib.Omega.{arith}
use dispatchd.Common.Tests.{Bool-cases}
use dispatchd.Common.Equality.{Comparable, ◌==◌}
use dispatchd.Common.Maps.{Map, find, put, remove}

-- Each entry has the property.
abbrev pub Each {ℓ κ} : {K : Type ℓ} {V : Type κ} → (K → V → Type 0) → Map K V → Type 0
Each P [] = Unit {0}
Each P ((k, v) ∷ m) = P k v × Each P m

module _ {ℓ κ} {K : Type ℓ} {V : Type κ} ⦃e : Comparable K⦄ (P : K → V → Type 0) where
  pub Each-remove : (k : K) (m : Map K V) → Each P m → Each P (remove k m)
  unfolding remove
  Each-remove k [] h = tt
  Each-remove k ((j, v) ∷ m) h = elim (Bool-cases (j == k)) [
    | inl same ↦ rw same (Each-remove k m h.1)
    | inr other ↦ rw other (h.0, Each-remove k m h.1)
  ]

  pub Each-put : (k : K) (v : V) (m : Map K V) → P k v → Each P m → Each P (put k v m)
  unfolding put
  Each-put k v m p h = (p, Each-remove k m h)

  pub Each-find : (k : K) (v : V) (m : Map K V) → find k m ≡ some v → Each P m → P k v
  unfolding find
  Each-find k v [] f h = absurd (cc)
  Each-find k v ((j, w) ∷ m) f h = elim (Bool-cases (j == k)) [
    | inl same ↦
        let key : j ≡ k = (e.same_iff j k).0 same in
        let value : w ≡ v = ground (arith, same) in
        subst (λ i. P i v) key (subst (λ u. P j u) value h.0)
    | inr other ↦ Each-find k v m (ground (arith, other)) h.1
  ]
