-- ===== src/Wire/Fields/Crash.antt =====
-- The tables that WriteTable panics on.
use dispatchd.Amqp.Table.{
  FieldValue, Values, Table, null, byte_string, array, table, nil, cons, end, pair,
}
use dispatchd.Wire.FieldWriter.{write_value, write_values, write_pairs, write_table}
use dispatchd.Wire.Fields.{Fits}
use dispatchd.Wire.Fields.RoundTrip.{write_shortstr_fits, write_value_bytes}
use dispatchd.Common.{inl, inr, length, panic, refl, ◌<◌, ◌^◌, ◌≡◌, ◌⊎◌}

-- There is a nil or VBytes value, and the values before it fit.
abbrev mutual
  pub IsDeadly : FieldValue → Type 0
  IsDeadly null = Unit {0}
  IsDeadly (byte_string s) = Unit {0}
  IsDeadly (array vs) = IsDeadlyArray vs
  IsDeadly (table ps) = IsDeadlyTable ps
  IsDeadly _ = ⊥

  pub IsDeadlyArray : Values → Type 0
  IsDeadlyArray nil = ⊥
  IsDeadlyArray (cons v vs) = IsDeadly v ⊎ (Fits v × IsDeadlyArray vs)

  pub IsDeadlyTable : Table → Type 0
  IsDeadlyTable end = ⊥
  IsDeadlyTable (pair key v ps) = (length key < 2 ^ 8) × (IsDeadly v ⊎ (Fits v × IsDeadlyTable ps))

mutual
  unfolding write_value

  value_panics : (v : FieldValue) → IsDeadly v → write_value v ≡ panic
  value_panics null h = refl
  value_panics (byte_string s) h = refl
  value_panics (array vs) h = rw (values_panic vs h) refl
  value_panics (table ps) h = rw (pairs_panic ps h) refl
  value_panics _ h = absurd h

  values_panic : (vs : Values) → IsDeadlyArray vs → write_values vs ≡ panic
  values_panic nil h = absurd h
  values_panic (cons v vs) (inl h) = rw (value_panics v h) refl
  values_panic (cons v vs) (inr h) = rw (write_value_bytes v h.0, values_panic vs h.1) refl

  pairs_panic : (ps : Table) → IsDeadlyTable ps → write_pairs ps ≡ panic
  pairs_panic end h = absurd h
  pairs_panic (pair key v ps) (short, inl h) =
      rw (write_shortstr_fits key short, value_panics v h) refl
  pairs_panic (pair key v ps) (short, inr h) =
      rw (write_shortstr_fits key short, write_value_bytes v h.0, pairs_panic ps h.1) refl

-- A table in which, at any depth, a nil or VBytes value comes after values that fit makes WriteTable
-- panic.
pub write_table_panics : (ps : Table) → IsDeadlyTable ps → write_table ps ≡ panic
unfolding write_table
write_table_panics ps h = rw (pairs_panic ps h) refl
