-- ===== src/Wire/PropCodecs.antt =====
-- One property of a header, written and read.
use dispatchd.Wire.{write_octet, write_longlong, write_longstr}
use dispatchd.Wire.Integers.{read_octet-write_octet, read_longlong-write_longlong}
use dispatchd.Wire.FieldReader.{Reading, ok, read_table}
use dispatchd.Wire.FieldWriter.{Writing, wrote, write_table}
use dispatchd.Wire.Fields.{short_bytes, bytes_of_pairs, IsSound}
use dispatchd.Wire.Fields.RoundTrip.{
  write_shortstr_fits, read_short_bytes, write_table_fits, read_table_fits,
}
use dispatchd.Wire.HeaderReader.{read_prop, shortstr_reader, octet_reader, longlong_reader}
use dispatchd.Wire.HeaderWriter.{write_prop, shortstr_writer, octet_writer, longlong_writer}
use dispatchd.Common.{
  GoString, List, Option, [], arith, length, none, refl, some, true, ℕ, ◌%◌, ◌*◌, ◌++◌, ◌+◌, ◌/◌,
  ◌<◌, ◌^◌, ◌≡◌, ◌≤◌,
}

-- A way to write a property and to read it, and the bytes between.
pub record Codec {A : Type 0} (write : A → Writing) (reader : List ℕ → Reading (A × List ℕ))
    : Type 1 where
  pub Good : A → Type 0
  pub encode : A → List ℕ
  pub written : (a : A) → Good a → write a ≡ wrote (encode a)
  pub back : (a : A) (r : List ℕ) → Good a → reader (encode a ++ r) ≡ ok (a, r)

pub read_shortstr_back :
    (s r : GoString) → length s < 2 ^ 8 → shortstr_reader (short_bytes s ++ r) ≡ ok (s, r)
read_shortstr_back s r h = rw (read_short_bytes s r) refl

pub write_shortstr_back :
    (s : GoString) → length s < 2 ^ 8 → shortstr_writer s ≡ wrote (short_bytes s)
write_shortstr_back s h = rw (write_shortstr_fits s h) refl

pub read_octet_back :
    (i : ℕ) (r : List ℕ) → i < 2 ^ 8 → octet_reader (write_octet i ++ r) ≡ ok (i, r)
read_octet_back i r h = rw (read_octet-write_octet i r h) refl

pub read_longlong_back :
    (i : ℕ) (r : List ℕ) → i < 2 ^ 64 → longlong_reader (write_longlong i ++ r) ≡ ok (i, r)
read_longlong_back i r h = rw (read_longlong-write_longlong i r h) refl

abbrev pub shortstr_codec : Codec shortstr_writer shortstr_reader
shortstr_codec = record {
  Good = λ s. length s < 2 ^ 8;
  encode = short_bytes;
  written = write_shortstr_back;
  back = read_shortstr_back;
}

abbrev pub octet_codec : Codec octet_writer octet_reader
octet_codec = record {
  Good = λ i. i < 2 ^ 8;
  encode = write_octet;
  written = λ i h. refl;
  back = read_octet_back;
}

abbrev pub longlong_codec : Codec longlong_writer longlong_reader
longlong_codec = record {
  Good = λ i. i < 2 ^ 64;
  encode = write_longlong;
  written = λ i h. refl;
  back = read_longlong_back;
}

abbrev pub table_codec : Codec write_table (read_table true)
table_codec = record {
  Good = IsSound;
  encode = λ ps. write_longstr (bytes_of_pairs ps);
  written = write_table_fits;
  back = read_table_fits;
}

abbrev pub present : {A : Type 0} → Option A → ℕ
present none = 0
present (some a) = 1

pub present_le : {A : Type 0} (o : Option A) → present o ≤ 1
present_le none = omega arith
present_le (some a) = omega arith

abbrev pub Holds : {A : Type 0} → (A → Type 0) → Option A → Type 0
Holds P none = Unit {0}
Holds P (some a) = P a

module _ {A : Type 0} {write : A → Writing} {reader : List ℕ → Reading (A × List ℕ)}
    (c : Codec write reader) where
  abbrev pub prop_bytes : Option A → List ℕ
  prop_bytes none = []
  prop_bytes (some a) = c.encode a

  pub prop_written :
      (mask flags : ℕ) (o : Option A)
      → Holds c.Good o
      → (flags / mask) % 2 ≡ 0
      → write_prop mask write o flags ≡ wrote (flags + present o * mask, prop_bytes o)
  unfolding write_prop
  prop_written mask flags none h free = ground arith
  prop_written mask flags (some a) h free = ground (arith, c.written a h, free)

  pub prop_back :
      (mask flags : ℕ) (o : Option A) (r : List ℕ)
      → Holds c.Good o
      → (flags / mask) % 2 ≡ present o
      → read_prop flags mask reader (prop_bytes o ++ r) ≡ ok (o, r)
  unfolding read_prop
  prop_back mask flags none r h bit = ground (arith, bit)
  prop_back mask flags (some a) r h bit = ground (arith, c.back a r h, bit)
