-- ===== src/Wire/Integers.antt =====
-- Integers are read back as they were written.
use native.Mathlib.Nat.{mul_assoc}
use dispatchd.Wire.{
  write_be, read_be, write_octet, read_octet, write_short, read_short, write_long, read_long,
  write_longlong, read_longlong,
}
use dispatchd.Common.{
  List, [], ap, arith, refl, some, suc, zero, ℕ, ◌%◌, ◌*◌, ◌++◌, ◌+◌, ◌/◌, ◌<◌, ◌^◌, ◌∙◌, ◌∷◌, ◌≡◌,
}

-- 256 to the power `n`.
abbrev pub bound : ℕ → ℕ
bound zero = 1
bound (suc n) = bound n * 256

write_be-append : (n i : ℕ) (t r : List ℕ) → write_be n i t ++ r ≡ write_be n i (t ++ r)
unfolding write_be
write_be-append zero i t r = refl
write_be-append (suc n) i t r = write_be-append n (i / 256) (i % 256 ∷ t) r

read_be-write_be :
    (n k m i acc : ℕ) (t : List ℕ)
    → m ≡ n + k
    → i < bound n
    → read_be m acc (write_be n i t) ≡ read_be k (acc * bound n + i) t
unfolding read_be write_be
read_be-write_be zero k m i acc t e h =
    let same_count : m ≡ k = omega arith in
    let same_value : acc ≡ acc * 1 + i = omega arith in
    ap (λ (j : ℕ). read_be j acc t) same_count ∙ ap (λ (v : ℕ). read_be k v t) same_value
read_be-write_be (suc n) k m i acc t e h =
    read_be-write_be n (suc k) m (i / 256) acc (i % 256 ∷ t) (omega arith) (omega arith)
    ∙ ap (λ (v : ℕ). read_be k v t) (omega (arith, mul_assoc acc (bound n) 256))

-- An integer of `n` bytes is read back, with the bytes that follow it left.
read_back : (n i : ℕ) (r : List ℕ) → i < bound n → read_be n 0 (write_be n i [] ++ r) ≡ some (i, r)
unfolding read_be
read_back n i r h =
    ap (read_be n 0) (write_be-append n i [] r)
    ∙ read_be-write_be n 0 n i 0 r (omega arith) h
    ∙ ap (λ (v : ℕ). some (v, r)) (omega arith)

module _ (i : ℕ) (r : List ℕ) where
  pub read_octet-write_octet : i < 2 ^ 8 → read_octet (write_octet i ++ r) ≡ some (i, r)
  unfolding read_octet write_octet
  read_octet-write_octet h = read_back 1 i r h

  pub read_short-write_short : i < 2 ^ 16 → read_short (write_short i ++ r) ≡ some (i, r)
  unfolding read_short write_short
  read_short-write_short h = read_back 2 i r h

  pub read_long-write_long : i < 2 ^ 32 → read_long (write_long i ++ r) ≡ some (i, r)
  unfolding read_long write_long
  read_long-write_long h = read_back 4 i r h

  -- A uint64 that WriteLonglong wrote is what ReadLonglong reads, with the bytes that follow it left.
  pub read_longlong-write_longlong :
      i < 2 ^ 64 → read_longlong (write_longlong i ++ r) ≡ some (i, r)
  unfolding read_longlong write_longlong
  read_longlong-write_longlong h = read_back 8 i r h
