-- ===== src/Wire/FieldReader.antt =====
-- amqp/amqpreader.go: ReadTable, readValue and readArray. An array or a table is a long string, which
-- is read to its end in a buffer of its own. Each call costs a unit of fuel.
use dispatchd.Amqp.Table.{
  FieldValue, Values, Table, null, boolean, int8, uint8, int16, uint16, int32, uint32, int64,
  uint64, float, double, timestamp, decimal, shortstr, longstr, byte_string, array, table, nil,
  cons, end, pair,
}
use dispatchd.Wire.{read_octet, read_short, read_long, read_longlong, read_shortstr, read_longstr}
use dispatchd.Common.{
  Bool, GoString, List, Option, [], if◌then◌else◌, length, none, not, some, true, false, suc, zero,
  ℕ, ◌&&◌, ◌+◌, ◌==◌, ◌||◌, ◌∷◌, nat_eq, str_eq, pair_eq,
}

-- `failed` is an error that is returned; `out_of_fuel` has no counterpart in the code.
pub data Reading {ℓ} (A : Type ℓ) : Type ℓ where
  ok : A → Reading A
  failed out_of_fuel : Reading A

infixl 5 ◌>>=◌
abbrev pub ◌>>=◌ {ℓ κ} : {A : Type ℓ} {B : Type κ} → Reading A → (A → Reading B) → Reading B
ok a >>= f = f a
failed >>= f = failed
out_of_fuel >>= f = out_of_fuel

abbrev pub lift {ℓ} : {A : Type ℓ} → Option A → Reading A
lift none = failed
lift (some a) = ok a

abbrev pub Reader : Type 0 → Type 0
Reader A = List ℕ → Option (A × List ℕ)

-- What is read becomes a field value.
abbrev pub as_value :
    {A : Type 0} → (A → FieldValue) → Option (A × List ℕ) → Option (FieldValue × List ℕ)
as_value make none = none
as_value make (some (a, rest)) = some (make a, rest)

abbrev pub read_boolean : Reader FieldValue
read_boolean bs = as_value (λ v. boolean (not (v == 0))) (read_octet bs)

-- The scale and the value of a decimal.
abbrev pub read_scaled : Option (ℕ × List ℕ) → Option (FieldValue × List ℕ)
read_scaled none = none
read_scaled (some (scale, rest)) = as_value (decimal scale) (read_long rest)

-- What the type octet of a value asks for.
pub data Kind : Type 0 where
  scalar : Reader FieldValue → Kind
  an_array a_table unknown : Kind

-- The cases of the switch, in their order.
abbrev pub cases_of : ℕ → Bool → List (Bool × Kind)
cases_of t strict =
    (t == b't', scalar read_boolean)
    ∷ (t == b'b', scalar (λ bs. as_value int8 (read_octet bs)))
    ∷ (t == b'B' && strict, scalar (λ bs. as_value uint8 (read_octet bs)))
    ∷ (
      (t == b'U' && strict) || (t == b's' && not strict),
      scalar (λ bs. as_value int16 (read_short bs)),
    )
    ∷ (t == b'u' && strict, scalar (λ bs. as_value uint16 (read_short bs)))
    ∷ (t == b'I', scalar (λ bs. as_value int32 (read_long bs)))
    ∷ (t == b'i' && strict, scalar (λ bs. as_value uint32 (read_long bs)))
    ∷ (
      (t == b'L' && strict) || (t == b'l' && not strict),
      scalar (λ bs. as_value int64 (read_longlong bs)),
    )
    ∷ (t == b'l' && strict, scalar (λ bs. as_value uint64 (read_longlong bs)))
    ∷ (t == b'f', scalar (λ bs. as_value float (read_long bs)))
    ∷ (t == b'd', scalar (λ bs. as_value double (read_longlong bs)))
    ∷ (t == b'D', scalar (λ bs. read_scaled (read_octet bs)))
    ∷ (t == b's' && strict, scalar (λ bs. as_value shortstr (read_shortstr bs)))
    ∷ (t == b'S', scalar (λ bs. as_value longstr (read_longstr bs)))
    ∷ (t == b'A', an_array)
    ∷ (t == b'T', scalar (λ bs. as_value timestamp (read_longlong bs)))
    ∷ (t == b'F', a_table)
    ∷ (t == b'V', scalar (λ bs. some (null, bs)))
    ∷ (t == b'x', scalar (λ bs. as_value byte_string (read_longstr bs)))
    ∷ []

unfoldable pub first_case : List (Bool × Kind) → Kind
first_case [] = unknown
first_case ((holds, k) ∷ cases) = let rest = first_case cases in if holds then k else rest

unfoldable pub kind_of : ℕ → Bool → Kind
unfolding first_case
kind_of t strict = first_case (cases_of t strict)

unfoldable pub is_seen : GoString → List GoString → Bool
is_seen key [] = false
is_seen key (k ∷ ks) = k == key || is_seen key ks

unfoldable mutual
  unfolding kind_of is_seen

  pub read_value : ℕ → Bool → List ℕ → Reading (FieldValue × List ℕ)
  read_value zero strict bs = out_of_fuel
  read_value (suc f) strict bs = do
    (t, rest) ← lift (read_octet bs)
    elim (kind_of t strict) [
      | scalar reader ↦ lift (reader rest)
      | an_array ↦ do (vs, after) ← read_array f strict rest; ok (array vs, after)
      | a_table ↦ do (ps, after) ← read_table_with f strict rest; ok (table ps, after)
      | unknown ↦ failed
    ]

  pub read_array : ℕ → Bool → List ℕ → Reading (Values × List ℕ)
  read_array zero strict bs = out_of_fuel
  read_array (suc f) strict bs = do
    (inside, after) ← lift (read_longstr bs)
    vs ← read_values f strict inside
    ok (vs, after)

  -- The loop of readArray.
  pub read_values : ℕ → Bool → List ℕ → Reading Values
  read_values zero strict bs = out_of_fuel
  read_values (suc f) strict [] = ok nil
  read_values (suc f) strict (b ∷ bs) = do
    (v, rest) ← read_value f strict (b ∷ bs)
    vs ← read_values f strict rest
    ok (cons v vs)

  pub read_table_with : ℕ → Bool → List ℕ → Reading (Table × List ℕ)
  read_table_with zero strict bs = out_of_fuel
  read_table_with (suc f) strict bs = do
    (inside, after) ← lift (read_longstr bs)
    ps ← read_pairs f strict [] inside
    ok (ps, after)

  -- The loop of ReadTable, given the keys that it has seen.
  pub read_pairs : ℕ → Bool → List GoString → List ℕ → Reading Table
  read_pairs zero strict seen bs = out_of_fuel
  read_pairs (suc f) strict seen [] = ok end
  read_pairs (suc f) strict seen (b ∷ bs) = do
    (key, rest) ← lift (read_shortstr (b ∷ bs))
    elim (is_seen key seen) [
      | true ↦ failed
      | false ↦ do
        (v, rest') ← read_value f strict rest
        ps ← read_pairs f strict (key ∷ seen) rest'
        ok (pair key v ps)
    ]

-- ReadTable, with a unit of fuel for each byte and one more.
unfoldable pub read_table : Bool → List ℕ → Reading (Table × List ℕ)
unfolding read_value
read_table strict bs = read_table_with (length bs + 1) strict bs
