-- ===== src/Amqp/Table.antt =====
-- amqp/table.go and the messages of amqp/amqp.proto that it uses: field values, tables, their
-- comparison, and reading and writing one key.
use dispatchd.Common.{
  Bool, GoString, Option, false, if◌then◌else◌, ltb, none, not, some, true, ℕ, ◌%◌, ◌&&◌, ◌==◌, ◌^◌,
  ◌||◌, nat_eq, str_eq, pair_eq,
}

-- Integers are held as their bit patterns, floats as their IEEE bits. `null` is a nil *FieldValue,
-- `unset` a FieldValue whose Value is nil.
mutual
  pub data FieldValue : Type 0 where
    null unset : FieldValue
    boolean : Bool → FieldValue
    int8 uint8 int16 uint16 int32 uint32 int64 uint64 float double timestamp : ℕ → FieldValue
    decimal : ℕ → ℕ → FieldValue
    shortstr longstr byte_string : GoString → FieldValue
    array : Values → FieldValue
    table : Table → FieldValue

  pub data Values : Type 0 where
    nil : Values
    cons : FieldValue → Values → Values

  pub data Table : Type 0 where
    end : Table
    pair : GoString → FieldValue → Table → Table

-- `==` on IEEE numbers of the width given by the mask of all but the sign and the bits of infinity.
abbrev float_beq : ℕ → ℕ → ℕ → ℕ → Bool
float_beq half inf a b =
    not (ltb inf (a % half))
    && not (ltb inf (b % half))
    && (a == b || (a % half == 0 && b % half == 0))

-- reflect.DeepEqual on what two distinct pointers point to.
unfoldable mutual
  pub value_beq : FieldValue → FieldValue → Bool
  value_beq null null = true
  value_beq unset unset = true
  value_beq (boolean true) (boolean b) = b
  value_beq (boolean false) (boolean b) = not b
  value_beq (int8 a) (int8 b) = a == b
  value_beq (uint8 a) (uint8 b) = a == b
  value_beq (int16 a) (int16 b) = a == b
  value_beq (uint16 a) (uint16 b) = a == b
  value_beq (int32 a) (int32 b) = a == b
  value_beq (uint32 a) (uint32 b) = a == b
  value_beq (int64 a) (int64 b) = a == b
  value_beq (uint64 a) (uint64 b) = a == b
  value_beq (float a) (float b) = float_beq (2 ^ 31) 0x7f800000 a b
  value_beq (double a) (double b) = float_beq (2 ^ 63) 0x7ff0000000000000 a b
  value_beq (timestamp a) (timestamp b) = a == b
  value_beq (decimal s a) (decimal t b) = s == t && a == b
  value_beq (shortstr s) (shortstr t) = s == t
  value_beq (longstr s) (longstr t) = s == t
  value_beq (byte_string s) (byte_string t) = s == t
  value_beq (array xs) (array ys) = values_beq xs ys
  value_beq (table t) (table u) = table_beq t u
  value_beq _ _ = false

  pub values_beq : Values → Values → Bool
  values_beq nil nil = true
  values_beq (cons x xs) (cons y ys) = value_beq x y && values_beq xs ys
  values_beq _ _ = false

  pub table_beq : Table → Table → Bool
  table_beq end end = true
  table_beq (pair k v t) (pair j w u) = k == j && value_beq v w && table_beq t u
  table_beq _ _ = false

unfoldable pub is_empty : Table → Bool
is_empty end = true
is_empty (pair k v t) = false

unfoldable pub equivalent_tables : Table → Table → Bool
unfolding is_empty
equivalent_tables t u = if is_empty t && is_empty u then true else table_beq t u

-- The first entry of the key; nil where there is none.
unfoldable pub get_key : Table → GoString → FieldValue
get_key end key = null
get_key (pair k v t) key = if k == key then v else get_key t key

unfoldable pub has_key : Table → GoString → Bool
has_key end key = false
has_key (pair k v t) key = k == key || has_key t key

-- The loop of `SetKey` goes on after a match, so the last entry of the key is the one written.
unfoldable pub set_last : Table → GoString → FieldValue → Table
unfolding has_key
set_last end key v = end
set_last (pair k w t) key v =
    let rest = set_last t key v in
    if has_key t key then pair k w rest else if k == key then pair k v t else pair k w t

unfoldable pub append_pair : Table → GoString → FieldValue → Table
append_pair end key v = pair key v end
append_pair (pair k w t) key v = pair k w (append_pair t key v)

-- `SetKey`, given what `calcValue` makes of the value: `none` for a type that it refuses. The entry
-- of a new key is appended before the value is converted, and stays if that fails.
unfoldable pub set_key : Table → GoString → Option FieldValue → Table × Bool
unfolding set_last append_pair
set_key t key none = (if has_key t key then t else append_pair t key unset, false)
set_key t key (some v) = (if has_key t key then set_last t key v else append_pair t key v, true)
