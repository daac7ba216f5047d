-- ===== src/Wire/Strings.antt =====
-- Strings are read back as they were written.
use mathlib.Core.List.{append_assoc}
use dispatchd.Wire.{
  read_slice, write_octet, read_octet, read_long, write_shortstr, read_shortstr, write_long,
  write_longstr, read_longstr,
}
use dispatchd.Wire.Integers.{read_octet-write_octet, read_long-write_long}
use dispatchd.Common.{
  Bool-cases, List, [], ap, arith, inl, inr, length, ltb, none, refl, some, ℕ, ◌%◌, ◌++◌, ◌<◌, ◌^◌,
  ◌∙◌, ◌∷◌, ◌≡◌, ◌⊎◌,
}

pub read_slice-append : (s r : List ℕ) → read_slice (length s) (s ++ r) ≡ some (s, r)
unfolding read_slice
read_slice-append [] r = refl
read_slice-append (b ∷ s) r = rw (read_slice-append s r) refl

shortstr_after :
    (bs rest : List ℕ) (n : ℕ)
    → read_octet bs ≡ some (n, rest)
    → read_shortstr bs ≡ read_slice n rest
unfolding read_shortstr
shortstr_after bs rest n e = rw e refl

longstr_after :
    (bs rest : List ℕ) (n : ℕ) → read_long bs ≡ some (n, rest) → read_longstr bs ≡ read_slice n rest
unfolding read_longstr
longstr_after bs rest n e = rw e refl

counted_slice : (n : ℕ) (s r : List ℕ) → n ≡ length s → read_slice n (s ++ r) ≡ some (s, r)
counted_slice n s r e = rw e (read_slice-append s r)

-- A short string of at most 255 bytes is written, and read back with the bytes that follow it left;
-- a longer one is refused.
pub read_shortstr-write_shortstr :
    (s r : List ℕ)
    → ((bs : List ℕ) × (write_shortstr s ≡ some bs) × (read_shortstr (bs ++ r) ≡ some (s, r)))
      ⊎ ((write_shortstr s ≡ none) × (255 < length s))
unfolding write_shortstr
read_shortstr-write_shortstr s r = elim (Bool-cases (ltb 255 (length s))) [
  | inl long ↦ inr (rw long refl, ground (arith, long))
  | inr short ↦ inl (
    write_octet (length s % 256) ++ s,
    rw short refl,
    ap read_shortstr (append_assoc (write_octet (length s % 256)) s r)
        ∙ shortstr_after _ (s ++ r) (length s % 256)
            (read_octet-write_octet (length s % 256) (s ++ r) (omega arith))
        ∙ counted_slice (length s % 256) s r (ground (arith, short)),
  )
]

-- A long string of fewer than 2^32 bytes is read back, with the bytes that follow it left.
pub read_longstr-write_longstr :
    (s r : List ℕ) → length s < 2 ^ 32 → read_longstr (write_longstr s ++ r) ≡ some (s, r)
unfolding write_longstr
read_longstr-write_longstr s r h =
    ap read_longstr (append_assoc (write_long (length s % 2 ^ 32)) s r)
    ∙ longstr_after _ (s ++ r) (length s % 2 ^ 32)
        (read_long-write_long (length s % 2 ^ 32) (s ++ r) (omega arith))
    ∙ counted_slice (length s % 2 ^ 32) s r (omega (arith, h))
