-- ===== src/Wire/Fields.antt =====
-- What WriteTable can write and ReadTable reads back: the values that fit, and the bytes that they
-- take, described by themselves.
pub mod RoundTrip
pub mod Crash
pub mod Ending
use dispatchd.Amqp.Table.{
  FieldValue, Values, Table, null, unset, boolean, int8, uint8, int16, uint16, int32, uint32, int64,
  uint64, float, double, timestamp, decimal, shortstr, longstr, byte_string, array, table, nil,
  cons, end, pair,
}
use dispatchd.Wire.{write_octet, write_short, write_long, write_longlong, write_longstr}
use dispatchd.Wire.FieldReader.{is_seen}
use dispatchd.Common.{
  Bool, GoString, List, [], false, if◌then◌else◌, length, ℕ, ◌++◌, ◌<◌, ◌^◌, ◌≡◌, ◌∷◌,
}

abbrev pub short_bytes : GoString → List ℕ
short_bytes s = length s ∷ s

-- The bytes of a value, of the values of an array and of the pairs of a table.
unfoldable mutual
  pub bytes_of : FieldValue → List ℕ
  bytes_of null = b'V' ∷ []
  bytes_of unset = b'V' ∷ []
  bytes_of (boolean b) = b't' ∷ (if b then write_octet 1 else write_octet 0)
  bytes_of (int8 i) = b'b' ∷ write_octet i
  bytes_of (uint8 i) = b'B' ∷ write_octet i
  bytes_of (int16 i) = b'U' ∷ write_short i
  bytes_of (uint16 i) = b'u' ∷ write_short i
  bytes_of (int32 i) = b'I' ∷ write_long i
  bytes_of (uint32 i) = b'i' ∷ write_long i
  bytes_of (int64 i) = b'L' ∷ write_longlong i
  bytes_of (uint64 i) = b'l' ∷ write_longlong i
  bytes_of (float x) = b'f' ∷ write_long x
  bytes_of (double x) = b'd' ∷ write_longlong x
  bytes_of (decimal scale i) = b'D' ∷ (write_octet scale ++ write_long i)
  bytes_of (shortstr s) = b's' ∷ short_bytes s
  bytes_of (longstr s) = b'S' ∷ write_longstr s
  bytes_of (byte_string s) = b'x' ∷ write_longstr s
  bytes_of (array vs) = b'A' ∷ write_longstr (bytes_of_values vs)
  bytes_of (timestamp t) = b'T' ∷ write_longlong t
  bytes_of (table ps) = b'F' ∷ write_longstr (bytes_of_pairs ps)

  pub bytes_of_values : Values → List ℕ
  bytes_of_values nil = []
  bytes_of_values (cons v vs) = bytes_of v ++ bytes_of_values vs

  pub bytes_of_pairs : Table → List ℕ
  bytes_of_pairs end = []
  bytes_of_pairs (pair key v ps) = short_bytes key ++ (bytes_of v ++ bytes_of_pairs ps)

-- Integers within their width, strings within the width of their length, no two pairs of a table with
-- one key, and no nil, unset or VBytes value. `seen` are the keys before a pair.
abbrev mutual
  pub Fits : FieldValue → Type 0
  Fits null = ⊥
  Fits unset = ⊥
  Fits (boolean b) = Unit {0}
  Fits (int8 i) = i < 2 ^ 8
  Fits (uint8 i) = i < 2 ^ 8
  Fits (int16 i) = i < 2 ^ 16
  Fits (uint16 i) = i < 2 ^ 16
  Fits (int32 i) = i < 2 ^ 32
  Fits (uint32 i) = i < 2 ^ 32
  Fits (int64 i) = i < 2 ^ 64
  Fits (uint64 i) = i < 2 ^ 64
  Fits (float x) = x < 2 ^ 32
  Fits (double x) = x < 2 ^ 64
  Fits (decimal scale i) = (scale < 2 ^ 8) × (i < 2 ^ 32)
  Fits (shortstr s) = length s < 2 ^ 8
  Fits (longstr s) = length s < 2 ^ 32
  Fits (byte_string s) = ⊥
  Fits (array vs) = FitAll vs × (length (bytes_of_values vs) < 2 ^ 32)
  Fits (timestamp t) = t < 2 ^ 64
  Fits (table ps) = FitPairs [] ps × (length (bytes_of_pairs ps) < 2 ^ 32)

  pub FitAll : Values → Type 0
  FitAll nil = Unit {0}
  FitAll (cons v vs) = Fits v × FitAll vs

  pub FitPairs : List GoString → Table → Type 0
  FitPairs seen end = Unit {0}
  FitPairs seen (pair key v ps) =
      (length key < 2 ^ 8) × (is_seen key seen ≡ false) × Fits v × FitPairs (key ∷ seen) ps

-- A table as ReadTable and WriteTable take it.
abbrev pub IsSound : Table → Type 0
IsSound ps = FitPairs [] ps × (length (bytes_of_pairs ps) < 2 ^ 32)
