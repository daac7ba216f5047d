-- ===== src/Wire/Fields/RoundTrip.antt =====
-- Tables are read back as they were written, in strict mode.
use mathlib.Core.List.{append_assoc}
use dispatchd.Amqp.Table.{
  FieldValue, Values, Table, null, unset, boolean, int8, uint8, int16, uint16, int32, uint32, int64,
  uint64, float, double, timestamp, decimal, shortstr, longstr, byte_string, array, table, nil,
  cons, end, pair,
}
use dispatchd.Wire.{
  write_octet, write_long, write_longstr, write_shortstr, write_be, read_octet, read_shortstr,
  read_longstr, read_slice, read_be,
}
use dispatchd.Wire.Integers.{
  read_octet-write_octet, read_short-write_short, read_long-write_long,
  read_longlong-write_longlong,
}
use dispatchd.Wire.Strings.{read_slice-append, read_longstr-write_longstr}
use dispatchd.Wire.FieldReader.{
  ok, read_value, read_array, read_values, read_table_with, read_pairs, read_table, lift, kind_of,
  is_seen, as_value, read_scaled,
}
use dispatchd.Wire.FieldWriter.{wrote, write_value, write_values, write_pairs, write_table}
use dispatchd.Wire.Fields.{
  short_bytes, bytes_of, bytes_of_values, bytes_of_pairs, Fits, FitAll, FitPairs, IsSound,
}
use dispatchd.Common.{
  GoString, List, Option, [], ap, arith, done, false, length, length-append, not, refl, some, suc,
  true, zero, ℕ, ◌++◌, ◌+◌, ◌<◌, ◌==◌, ◌^◌, ◌∙◌, ◌∷◌, ◌≡◌, ◌≤◌, nat_eq, str_eq, pair_eq,
}

pub write_shortstr_fits :
    (s : GoString) → length s < 2 ^ 8 → write_shortstr s ≡ some (short_bytes s)
unfolding write_shortstr write_octet write_be
write_shortstr_fits s h = ground (arith, h)

-- What is written is what is described.
mutual
  unfolding write_value bytes_of

  pub write_value_bytes : (v : FieldValue) → Fits v → write_value v ≡ wrote (bytes_of v)
  write_value_bytes null h = absurd h
  write_value_bytes unset h = absurd h
  write_value_bytes (shortstr s) h = rw (write_shortstr_fits s h) refl
  write_value_bytes (byte_string s) h = absurd h
  write_value_bytes (array vs) h = rw (write_values_bytes vs h.0) refl
  write_value_bytes (table ps) h = rw (write_pairs_bytes [] ps h.0) refl
  write_value_bytes _ h = refl

  write_values_bytes : (vs : Values) → FitAll vs → write_values vs ≡ wrote (bytes_of_values vs)
  write_values_bytes nil h = refl
  write_values_bytes (cons v vs) h = rw (write_value_bytes v h.0, write_values_bytes vs h.1) refl

  write_pairs_bytes :
      (seen : List GoString) (ps : Table)
      → FitPairs seen ps
      → write_pairs ps ≡ wrote (bytes_of_pairs ps)
  write_pairs_bytes seen end h = refl
  write_pairs_bytes seen (pair key v ps) h =
      rw
        (
          write_shortstr_fits key h.0,
          write_value_bytes v h.2,
          write_pairs_bytes (key ∷ seen) ps h.3,
        )
        refl

pub read_short_bytes : (s r : List ℕ) → read_shortstr (short_bytes s ++ r) ≡ some (s, r)
unfolding read_shortstr read_octet read_be
read_short_bytes s r = ap (λ (n : ℕ). read_slice n (s ++ r)) (omega arith) ∙ read_slice-append s r

length-bytes_of_pos : (v : FieldValue) → 0 < length (bytes_of v)
unfolding bytes_of
length-bytes_of_pos null = omega arith
length-bytes_of_pos _ = omega arith

length-write_longstr : (s : List ℕ) → length (write_longstr s) ≡ 4 + length s
unfolding write_longstr write_long write_be
length-write_longstr s = omega arith

read_decimal :
    (scale i : ℕ) (r : List ℕ)
    → scale < 2 ^ 8
    → i < 2 ^ 32
    → read_scaled (read_octet ((write_octet scale ++ write_long i) ++ r))
      ≡ some (decimal scale i, r)
read_decimal scale i r hs hi =
    ap (λ (bs : List ℕ). read_scaled (read_octet bs))
      (append_assoc (write_octet scale) (write_long i) r)
    ∙ ap read_scaled (read_octet-write_octet scale (write_long i ++ r) hs)
    ∙ ap (as_value (decimal scale)) (read_long-write_long i r hi)

values_after :
    (f : ℕ) (bs rest : List ℕ) (v : FieldValue) (vs : Values)
    → 0 < length bs
    → read_value f true bs ≡ ok (v, rest)
    → read_values f true rest ≡ ok vs
    → read_values (suc f) true bs ≡ ok (cons v vs)
unfolding read_value
values_after f [] rest v vs h e1 e2 = absurd (omega arith)
values_after f (b ∷ bs) rest v vs h e1 e2 = rw (e1, e2) refl

array_after :
    (f : ℕ) (bs rest inside : List ℕ) (vs : Values)
    → read_longstr bs ≡ some (inside, rest)
    → read_values f true inside ≡ ok vs
    → read_array (suc f) true bs ≡ ok (vs, rest)
unfolding read_value
array_after f bs rest inside vs e1 e2 = rw (e1, e2) refl

table_after :
    (f : ℕ) (bs rest inside : List ℕ) (ps : Table)
    → read_longstr bs ≡ some (inside, rest)
    → read_pairs f true [] inside ≡ ok ps
    → read_table_with (suc f) true bs ≡ ok (ps, rest)
unfolding read_value
table_after f bs rest inside ps e1 e2 = rw (e1, e2) refl

pairs_after :
    (f : ℕ) (seen : List GoString) (b : ℕ) (bs rest rest' : List ℕ) (key : GoString)
    (v : FieldValue) (ps : Table)
    → read_shortstr (b ∷ bs) ≡ some (key, rest)
    → is_seen key seen ≡ false
    → read_value f true rest ≡ ok (v, rest')
    → read_pairs f true (key ∷ seen) rest' ≡ ok ps
    → read_pairs (suc f) true seen (b ∷ bs) ≡ ok (pair key v ps)
unfolding read_value
pairs_after f seen b bs rest rest' key v ps e1 e2 e3 e4 = ground arith

abbrev as_boolean : ℕ → FieldValue
as_boolean v = boolean (not (v == 0))

mutual
  unfolding read_value kind_of bytes_of read_octet read_be

  value_back :
      (v : FieldValue) (f : ℕ) (r : List ℕ)
      → Fits v
      → length (bytes_of v) ≤ f
      → read_value (suc f) true (bytes_of v ++ r) ≡ ok (v, r)
  value_back null f r h n = absurd h
  value_back unset f r h n = absurd h
  value_back (boolean true) f r h n =
      ap (λ (o : Option (ℕ × List ℕ)). lift (as_value as_boolean o))
        (read_octet-write_octet 1 r (omega arith))
  value_back (boolean false) f r h n =
      ap (λ (o : Option (ℕ × List ℕ)). lift (as_value as_boolean o))
        (read_octet-write_octet 0 r (omega arith))
  value_back (int8 i) f r h n =
      ap (λ (o : Option (ℕ × List ℕ)). lift (as_value int8 o)) (read_octet-write_octet i r h)
  value_back (uint8 i) f r h n =
      ap (λ (o : Option (ℕ × List ℕ)). lift (as_value uint8 o)) (read_octet-write_octet i r h)
  value_back (int16 i) f r h n =
      ap (λ (o : Option (ℕ × List ℕ)). lift (as_value int16 o)) (read_short-write_short i r h)
  value_back (uint16 i) f r h n =
      ap (λ (o : Option (ℕ × List ℕ)). lift (as_value uint16 o)) (read_short-write_short i r h)
  value_back (int32 i) f r h n =
      ap (λ (o : Option (ℕ × List ℕ)). lift (as_value int32 o)) (read_long-write_long i r h)
  value_back (uint32 i) f r h n =
      ap (λ (o : Option (ℕ × List ℕ)). lift (as_value uint32 o)) (read_long-write_long i r h)
  value_back (int64 i) f r h n =
      ap (λ (o : Option (ℕ × List ℕ)). lift (as_value int64 o)) (read_longlong-write_longlong i r h)
  value_back (uint64 i) f r h n =
      ap (λ (o : Option (ℕ × List ℕ)). lift (as_value uint64 o))
        (read_longlong-write_longlong i r h)
  value_back (float x) f r h n =
      ap (λ (o : Option (ℕ × List ℕ)). lift (as_value float o)) (read_long-write_long x r h)
  value_back (double x) f r h n =
      ap (λ (o : Option (ℕ × List ℕ)). lift (as_value double o))
        (read_longlong-write_longlong x r h)
  value_back (timestamp t) f r h n =
      ap (λ (o : Option (ℕ × List ℕ)). lift (as_value timestamp o))
        (read_longlong-write_longlong t r h)
  value_back (decimal scale i) f r h n =
      ap (λ (o : Option (FieldValue × List ℕ)). lift o) (read_decimal scale i r h.0 h.1)
  value_back (shortstr s) f r h n =
      ap (λ (o : Option (GoString × List ℕ)). lift (as_value shortstr o)) (read_short_bytes s r)
  value_back (longstr s) f r h n =
      ap (λ (o : Option (List ℕ × List ℕ)). lift (as_value longstr o))
        (read_longstr-write_longstr s r h)
  value_back (byte_string s) f r h n = absurd h
  value_back (array vs) zero r h n = absurd (omega arith)
  value_back (array vs) (suc f) r h n =
      let back : read_array (suc f) true (write_longstr (bytes_of_values vs) ++ r) ≡ ok (vs, r) =
        array_after f _ r (bytes_of_values vs) vs
          (read_longstr-write_longstr (bytes_of_values vs) r h.1)
          (values_back vs f h.0 (omega (arith, length-write_longstr (bytes_of_values vs)))) in
      rw back refl
  value_back (table ps) zero r h n = absurd (omega arith)
  value_back (table ps) (suc f) r h n =
      let back : read_table_with (suc f) true (write_longstr (bytes_of_pairs ps) ++ r)
          ≡ ok (ps, r) =
        table_after f _ r (bytes_of_pairs ps) ps
          (read_longstr-write_longstr (bytes_of_pairs ps) r h.1)
          (pairs_back ps [] f h.0 (omega (arith, length-write_longstr (bytes_of_pairs ps)))) in
      rw back refl

  values_back :
      (vs : Values) (f : ℕ)
      → FitAll vs
      → length (bytes_of_values vs) + 1 < f
      → read_values f true (bytes_of_values vs) ≡ ok vs
  values_back nil zero h n = absurd (omega arith)
  values_back nil (suc f) h n = refl
  values_back (cons v vs) zero h n = absurd (omega arith)
  values_back (cons v vs) (suc zero) h n = absurd (omega arith)
  values_back (cons v vs) (suc (suc f)) h n =
      let split = length-append (bytes_of v) (bytes_of_values vs) in
      values_after (suc f) (bytes_of v ++ bytes_of_values vs) (bytes_of_values vs) v vs
        (omega (arith, split, length-bytes_of_pos v))
        (value_back v f (bytes_of_values vs) h.0 (omega (arith, split)))
        (values_back vs (suc f) h.1 (omega (arith, split, length-bytes_of_pos v)))

  pairs_back :
      (ps : Table) (seen : List GoString) (f : ℕ)
      → FitPairs seen ps
      → length (bytes_of_pairs ps) + 1 < f
      → read_pairs f true seen (bytes_of_pairs ps) ≡ ok ps
  pairs_back end seen zero h n = absurd (omega arith)
  pairs_back end seen (suc f) h n = refl
  pairs_back (pair key v ps) seen zero h n = absurd (omega arith)
  pairs_back (pair key v ps) seen (suc zero) h n = absurd (omega arith)
  pairs_back (pair key v ps) seen (suc (suc f)) h n =
      let tail = bytes_of v ++ bytes_of_pairs ps in
      let split = length-append (bytes_of v) (bytes_of_pairs ps) in
      let split' = length-append key tail in
      pairs_after (suc f) seen (length key) (key ++ tail) tail (bytes_of_pairs ps) key v ps
        (read_short_bytes key tail) h.1
        (value_back v f (bytes_of_pairs ps) h.2 (omega (arith, split, split')))
        (pairs_back ps (key ∷ seen) (suc f) h.3
          (omega (arith, split, split', length-bytes_of_pos v)))

pub write_table_fits :
    (ps : Table) → IsSound ps → write_table ps ≡ wrote (write_longstr (bytes_of_pairs ps))
unfolding write_table
write_table_fits ps h = rw (write_pairs_bytes [] ps h.0) refl

pub read_table_fits :
    (ps : Table) (r : List ℕ)
    → IsSound ps
    → read_table true (write_longstr (bytes_of_pairs ps) ++ r) ≡ ok (ps, r)
unfolding read_table
read_table_fits ps r h =
    let n = length-append (write_longstr (bytes_of_pairs ps)) r in
    let m = length-write_longstr (bytes_of_pairs ps) in
    let e : length (write_longstr (bytes_of_pairs ps) ++ r) + 1
        ≡ suc (length (write_longstr (bytes_of_pairs ps) ++ r)) =
      omega arith in
    rw e (
      table_after _ _ r (bytes_of_pairs ps) ps
        (read_longstr-write_longstr (bytes_of_pairs ps) r h.1)
        (pairs_back ps [] _ h.0 (omega (arith, n, m))))

-- A table that fits, however deep its arrays and tables are nested, is written, and in strict mode
-- read back as it was, with the bytes that follow it left.
pub read_table-write_table :
    (ps : Table) (r : List ℕ)
    → IsSound ps
    → (bs : List ℕ) × (write_table ps ≡ done (some bs)) × (read_table true (bs ++ r) ≡ ok (ps, r))
read_table-write_table ps r h =
    (write_longstr (bytes_of_pairs ps), write_table_fits ps h, read_table_fits ps r h)
