-- ===== src/Wire/FieldWriter.antt =====
-- amqp/amqpwriter.go: WriteTable, writeValue and writeArray. What is written goes to a buffer in
-- memory, which never fails; `none` is the error of a short string that is too long, for which the
-- callers drop the buffer.
use dispatchd.Amqp.Table.{
  FieldValue, Values, Table, null, unset, boolean, int8, uint8, int16, uint16, int32, uint32, int64,
  uint64, float, double, timestamp, decimal, shortstr, longstr, byte_string, array, table, nil,
  cons, end, pair,
}
use dispatchd.Wire.{
  write_octet, write_short, write_long, write_longlong, write_shortstr, write_longstr,
}
use dispatchd.Common.{
  List, Option, Outcome, [], done, if◌then◌else◌, none, panic, some, ℕ, ◌++◌, ◌∷◌,
}

-- A call that may panic or return an error.
abbrev pub Attempt : Type 0 → Type 0
Attempt A = Outcome (Option A)

abbrev pub Writing : Type 0
Writing = Attempt (List ℕ)

infixl 5 ◌>>=◌
abbrev pub ◌>>=◌ : {A B : Type 0} → Attempt A → (A → Attempt B) → Attempt B
done none >>= f = done none
done (some a) >>= f = f a
panic >>= f = panic

abbrev pub wrote : {A : Type 0} → A → Attempt A
wrote bs = done (some bs)

unfoldable mutual
  -- A nil *FieldValue is dereferenced; VBytes falls to the default case, which panics.
  pub write_value : FieldValue → Writing
  write_value null = panic
  write_value unset = wrote (b'V' ∷ [])
  write_value (boolean b) = wrote (b't' ∷ (if b then write_octet 1 else write_octet 0))
  write_value (int8 i) = wrote (b'b' ∷ write_octet i)
  write_value (uint8 i) = wrote (b'B' ∷ write_octet i)
  write_value (int16 i) = wrote (b'U' ∷ write_short i)
  write_value (uint16 i) = wrote (b'u' ∷ write_short i)
  write_value (int32 i) = wrote (b'I' ∷ write_long i)
  write_value (uint32 i) = wrote (b'i' ∷ write_long i)
  write_value (int64 i) = wrote (b'L' ∷ write_longlong i)
  write_value (uint64 i) = wrote (b'l' ∷ write_longlong i)
  write_value (float x) = wrote (b'f' ∷ write_long x)
  write_value (double x) = wrote (b'd' ∷ write_longlong x)
  write_value (decimal scale i) = wrote (b'D' ∷ (write_octet scale ++ write_long i))
  write_value (shortstr s) = do bs ← done (write_shortstr s); wrote (b's' ∷ bs)
  write_value (longstr s) = wrote (b'S' ∷ write_longstr s)
  write_value (array vs) = do bs ← write_values vs; wrote (b'A' ∷ write_longstr bs)
  write_value (timestamp t) = wrote (b'T' ∷ write_longlong t)
  write_value (table ps) = do bs ← write_pairs ps; wrote (b'F' ∷ write_longstr bs)
  write_value (byte_string s) = panic

  -- The loop of writeArray.
  pub write_values : Values → Writing
  write_values nil = wrote []
  write_values (cons v vs) = do b ← write_value v; bs ← write_values vs; wrote (b ++ bs)

  -- The loop of WriteTable.
  pub write_pairs : Table → Writing
  write_pairs end = wrote []
  write_pairs (pair key v ps) = do
    k ← done (write_shortstr key)
    b ← write_value v
    bs ← write_pairs ps
    wrote (k ++ (b ++ bs))

unfoldable pub write_table : Table → Writing
unfolding write_value
write_table ps = do bs ← write_pairs ps; wrote (write_longstr bs)
