-- ===== src/Common/Equality.antt =====
-- Go's `==` as an interface, at numbers, byte strings and pairs of keys. A Go string is the list of
-- its bytes.
use Prim.Native.Nat.{ℕ}
use Prim.Native.Char.{code}
use Prim.Native.String.{String}
use mathlib.Core.Path.{◌≡◌, refl}
use mathlib.Core.Logic.{◌↔◌}
use mathlib.Core.Bool.{Bool, true, false, ◌&&◌}
use mathlib.Core.List.{List, [], ◌∷◌}
use native.Mathlib.Omega.{arith}
use dispatchd.Common.Tests.{nat_beq, nat_beq_iff}

pub record Comparable {ℓ} (K : Type ℓ) : Type ℓ where
  pub same : K → K → Bool
  pub same_iff : (k j : K) → (same k j ≡ true) ↔ (k ≡ j)

infix 50 ◌==◌
abbrev pub ◌==◌ {ℓ} : {K : Type ℓ} ⦃c : Comparable K⦄ (k j : K) → Bool
◌==◌ ⦃c⦄ k j = c.same k j

abbrev pub GoString : Type 0
GoString = List ℕ

-- The bytes of an ASCII text, for constants and tests.
abbrev pub bytes : String → GoString
bytes String.[] = []
bytes (String.◌∷◌ c s) = code c ∷ bytes s

unfoldable pub str_beq : GoString → GoString → Bool
str_beq [] [] = true
str_beq (a ∷ s) (b ∷ t) = nat_beq a b && str_beq s t
str_beq _ _ = false

pub str_beq_iff : (s t : GoString) → (str_beq s t ≡ true) ↔ (s ≡ t)
unfolding str_beq
str_beq_iff [] [] = ground arith
str_beq_iff [] (b ∷ t) = ground arith
str_beq_iff (a ∷ s) [] = ground arith
str_beq_iff (a ∷ s) (b ∷ t) = ground (arith, str_beq_iff s t)

instance abbrev pub nat_eq : Comparable ℕ
nat_eq = record { same = nat_beq; same_iff = nat_beq_iff }

instance abbrev pub str_eq : Comparable GoString
str_eq = record { same = str_beq; same_iff = str_beq_iff }

abbrev pub pair_beq : GoString × ℕ → GoString × ℕ → Bool
pair_beq (s, a) (t, b) = str_beq s t && nat_beq a b

pub pair_beq_iff : (p q : GoString × ℕ) → (pair_beq p q ≡ true) ↔ (p ≡ q)
pair_beq_iff (s, a) (t, b) = ground (arith, str_beq_iff s t)

instance abbrev pub pair_eq : Comparable (GoString × ℕ)
pair_eq = record { same = pair_beq; same_iff = pair_beq_iff }

pub beq_refl {ℓ} : {A : Type ℓ} ⦃e : Comparable A⦄ (k : A) → (k == k) ≡ true
beq_refl ⦃e⦄ k = (e.same_iff k k).1 refl
