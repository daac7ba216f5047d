-- ===== src/Tests/Encoding.antt =====
-- Tables and headers on concrete inputs.
use dispatchd.Amqp.Types.{ContentHeaderFrame}
use dispatchd.Amqp.Table.{Table, int32, longstr, null, boolean, array, nil, cons, end, pair}
use dispatchd.Wire.{read_longstr, read_shortstr, write_long, write_longstr, write_octet}
use dispatchd.Wire.FieldReader.{is_seen, ok, failed, read_table}
use dispatchd.Wire.FieldWriter.{write_table}
use dispatchd.Wire.Fields.{IsSound, bytes_of}
use dispatchd.Wire.Fields.RoundTrip.{read_table-write_table}
use dispatchd.Wire.Fields.Crash.{write_table_panics}
use dispatchd.Wire.Fields.Ending.{Ends}
use dispatchd.Wire.HeaderEnding.{read_header-Ends}
use dispatchd.Wire.HeaderReader.{read_header}
use dispatchd.Wire.HeaderWriter.{write_header}
use dispatchd.Wire.HeaderTrip.{IsHeader, flags_of, read_header-write_header}
use dispatchd.Tests.Data.{no_properties}
use dispatchd.Common.{
  List, str_beq, [], arith, bytes, done, inl, inr, length, panic, refl, some, true, ℕ, ◌++◌, ◌∷◌,
  ◌≡◌, ◌≤◌,
}

-- A table with an array in it.
abbrev pub a_table : Table
a_table =
    pair (bytes "k") (array (cons (int32 7) (cons (longstr (bytes "v")) nil)))
      (pair (bytes "b") (boolean true) end)

a_table-IsSound : IsSound a_table
unfolding bytes_of is_seen str_beq write_long write_longstr write_octet
a_table-IsSound = (
  (omega arith, refl, ((omega arith, (omega arith, tt)), omega arith), (omega arith, refl, tt, tt)),
  omega arith,
)

read_table-write_table_example :
    (bs : List ℕ) × (write_table a_table ≡ done (some bs))
    × (read_table true (bs ++ 9 ∷ []) ≡ ok (a_table, 9 ∷ []))
read_table-write_table_example = read_table-write_table a_table (9 ∷ []) a_table-IsSound

-- A table whose only value is the byte of a nil value, as a client sends it.
read_null_test :
    read_table true (0 ∷ 0 ∷ 0 ∷ 3 ∷ 1 ∷ b'k' ∷ b'V' ∷ []) ≡ ok (pair (bytes "k") null end, [])
unfolding read_table read_longstr read_shortstr
read_null_test = refl

-- A nested table that claims to be longer than the input.
read_short_test : read_table true (0 ∷ 0 ∷ 0 ∷ 3 ∷ 1 ∷ b'k' ∷ b'F' ∷ []) ≡ failed
unfolding read_table read_longstr read_shortstr
read_short_test = refl

write_table_panics_example :
    write_table (pair (bytes "a") (int32 1) (pair (bytes "k") null end)) ≡ panic
write_table_panics_example =
    write_table_panics (pair (bytes "a") (int32 1) (pair (bytes "k") null end))
      (omega arith, inr (omega arith, (omega arith, inl tt)))

-- A header with the properties content-type, headers and priority.
abbrev pub full_header : ContentHeaderFrame
full_header = record {
  content_class = 60;
  content_weight = 0;
  content_body_size = 3;
  property_flags = 0;
  properties = record no_properties {
    content_type = some (bytes "t");
    headers = some a_table;
    priority = some 4;
  };
}

pub full_header-IsHeader : IsHeader full_header
full_header-IsHeader = record {
  content_class = omega arith;
  content_weight = refl;
  content_body_size = omega arith;
  properties = record {
    content_type = omega arith;
    content_encoding = tt;
    headers = a_table-IsSound;
    delivery_mode = tt;
    priority = omega arith;
    correlation_id = tt;
    reply_to = tt;
    expiration = tt;
    message_id = tt;
    timestamp = tt;
    type_name = tt;
    user_id = tt;
    app_id = tt;
    reserved = tt;
  };
}

read_header-write_header_example :
    (bs : List ℕ) × (write_header full_header ≡ done bs)
    × (read_header true (bs ++ 9 ∷ [])
        ≡ ok (record full_header { property_flags = flags_of full_header.properties }, 9 ∷ []))
read_header-write_header_example =
    read_header-write_header full_header (9 ∷ []) full_header-IsHeader

-- The weight is 0, the flags ask for a content type, which is longer than the input.
read_header-Ends_example :
    Ends
      (λ ((h, rest) : ContentHeaderFrame × List ℕ). length rest ≤ 16)
      (read_header true (0 ∷ 60 ∷ 0 ∷ 0 ∷ 0 ∷ 0 ∷ 0 ∷ 0 ∷ 0 ∷ 0 ∷ 0 ∷ 3 ∷ 128 ∷ 0 ∷ 9 ∷ b't' ∷ []))
read_header-Ends_example =
    read_header-Ends true (0 ∷ 60 ∷ 0 ∷ 0 ∷ 0 ∷ 0 ∷ 0 ∷ 0 ∷ 0 ∷ 0 ∷ 0 ∷ 3 ∷ 128 ∷ 0 ∷ 9 ∷ b't' ∷ [])
