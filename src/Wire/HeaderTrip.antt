-- ===== src/Wire/HeaderTrip.antt =====
-- The properties and the header of a message are read back as they were written, in strict mode.
use mathlib.Core.List.{append_assoc}
use dispatchd.Amqp.Types.{Properties, ContentHeaderFrame}
use dispatchd.Wire.{write_short, write_longlong}
use dispatchd.Wire.Integers.{read_short-write_short, read_longlong-write_longlong}
use dispatchd.Wire.Masks.{
  content_type_mask, content_encoding_mask, headers_mask, delivery_mode_mask, priority_mask,
  correlation_id_mask, reply_to_mask, expiration_mask, message_id_mask, timestamp_mask, type_mask,
  user_id_mask, app_id_mask, reserved_mask,
}
use dispatchd.Wire.FieldReader
use dispatchd.Wire.FieldReader.{Reading, ok, lift, read_table}
use dispatchd.Wire.FieldWriter
use dispatchd.Wire.FieldWriter.{Attempt, Writing, wrote, write_table}
use dispatchd.Wire.Fields.{IsSound}
use dispatchd.Wire.HeaderReader.{read_props, read_header}
use dispatchd.Wire.HeaderWriter.{write_props, write_header}
use dispatchd.Wire.Masks.Bits.{
  AreBits, bit1, free1, bit2, free2, bit3, free3, bit4, free4, bit5, free5, bit6, free6, bit7,
  free7, bit8, free8, bit9, free9, bit10, free10, bit11, free11, bit12, free12, bit13, free13,
  bit14, free14,
}
use dispatchd.Wire.PropCodecs.{
  prop_bytes, prop_written, prop_back, present, present_le, Holds, shortstr_codec, octet_codec,
  longlong_codec, table_codec,
}
use dispatchd.Common.{
  Bool, GoString, List, ap, arith, done, false, length, refl, true, ℕ, ◌*◌, ◌++◌, ◌+◌, ◌<◌, ◌==◌,
  ◌^◌, ◌∙◌, ◌≡◌, nat_eq, str_eq, pair_eq,
}

-- The flags of the properties that are not nil.
abbrev pub flags_of : Properties → ℕ
flags_of p =
    0
    + present p.content_type * content_type_mask
    + present p.content_encoding * content_encoding_mask
    + present p.headers * headers_mask
    + present p.delivery_mode * delivery_mode_mask
    + present p.priority * priority_mask
    + present p.correlation_id * correlation_id_mask
    + present p.reply_to * reply_to_mask
    + present p.expiration * expiration_mask
    + present p.message_id * message_id_mask
    + present p.timestamp * timestamp_mask
    + present p.type_name * type_mask
    + present p.user_id * user_id_mask
    + present p.app_id * app_id_mask
    + present p.reserved * reserved_mask

abbrev bytes_of_props : Properties → List ℕ
bytes_of_props p =
    prop_bytes shortstr_codec p.content_type
    ++ (prop_bytes shortstr_codec p.content_encoding
        ++ (prop_bytes table_codec p.headers
            ++ (prop_bytes octet_codec p.delivery_mode
                ++ (prop_bytes octet_codec p.priority
                    ++ (prop_bytes shortstr_codec p.correlation_id
                        ++ (prop_bytes shortstr_codec p.reply_to
                            ++ (prop_bytes shortstr_codec p.expiration
                                ++ (prop_bytes shortstr_codec p.message_id
                                    ++ (prop_bytes longlong_codec p.timestamp
                                        ++ (prop_bytes shortstr_codec p.type_name
                                            ++ (prop_bytes shortstr_codec p.user_id
                                                ++ (prop_bytes shortstr_codec p.app_id
                                                    ++ (prop_bytes shortstr_codec
                                                        p.reserved)))))))))))))

abbrev pub IsShort : GoString → Type 0
IsShort s = length s < 2 ^ 8

abbrev pub IsOctet : ℕ → Type 0
IsOctet i = i < 2 ^ 8

abbrev pub IsLonglong : ℕ → Type 0
IsLonglong i = i < 2 ^ 64

-- Each property that is there is within its width.
pub record Fit (p : Properties) : Type 0 where
  pub content_type : Holds IsShort p.content_type
  pub content_encoding : Holds IsShort p.content_encoding
  pub headers : Holds IsSound p.headers
  pub delivery_mode : Holds IsOctet p.delivery_mode
  pub priority : Holds IsOctet p.priority
  pub correlation_id : Holds IsShort p.correlation_id
  pub reply_to : Holds IsShort p.reply_to
  pub expiration : Holds IsShort p.expiration
  pub message_id : Holds IsShort p.message_id
  pub timestamp : Holds IsLonglong p.timestamp
  pub type_name : Holds IsShort p.type_name
  pub user_id : Holds IsShort p.user_id
  pub app_id : Holds IsShort p.app_id
  pub reserved : Holds IsShort p.reserved

after_writing :
    {A B : Type 0} {m : Attempt A} {a : A} (f : A → Attempt B) {b : Attempt B}
    → m ≡ wrote a
    → f a ≡ b
    → FieldWriter.◌>>=◌ m f ≡ b
after_writing f e1 e2 = rw e1 e2

after_reading :
    {A B : Type 0} {m : Reading A} {a : A} (f : A → Reading B) {b : Reading B}
    → m ≡ ok a
    → f a ≡ b
    → FieldReader.◌>>=◌ m f ≡ b
after_reading f e1 e2 = rw e1 e2

on_true :
    {A : Type 0} (b : Bool) (x : Reading A) {y z : Reading A}
    → b ≡ true
    → y ≡ z
    → elim b [ false ↦ x | true ↦ y ] ≡ z
on_true b x e1 e2 = ground (arith, e1, e2)

module _ (p : Properties) (fit : Fit p) where
  bits_ok :
      AreBits
        (present p.content_type)
        (present p.content_encoding)
        (present p.headers)
        (present p.delivery_mode)
        (present p.priority)
        (present p.correlation_id)
        (present p.reply_to)
        (present p.expiration)
        (present p.message_id)
        (present p.timestamp)
        (present p.type_name)
        (present p.user_id)
        (present p.app_id)
        (present p.reserved)
  bits_ok = record {
    each = (
      present_le p.content_type,
      present_le p.content_encoding,
      present_le p.headers,
      present_le p.delivery_mode,
      present_le p.priority,
      present_le p.correlation_id,
      present_le p.reply_to,
      present_le p.expiration,
      present_le p.message_id,
      present_le p.timestamp,
      present_le p.type_name,
      present_le p.user_id,
      present_le p.app_id,
      present_le p.reserved,
    );
  }

  written : write_props p ≡ wrote (flags_of p, bytes_of_props p)
  unfolding write_props
  written =
      after_writing _
        (prop_written shortstr_codec content_type_mask _ p.content_type fit.content_type
          (free1 bits_ok))
        (after_writing _
          (prop_written shortstr_codec content_encoding_mask _ p.content_encoding
            fit.content_encoding (free2 bits_ok))
          (after_writing _
            (prop_written table_codec headers_mask _ p.headers fit.headers (free3 bits_ok))
            (after_writing _
              (prop_written octet_codec delivery_mode_mask _ p.delivery_mode fit.delivery_mode
                (free4 bits_ok))
              (after_writing _
                (prop_written octet_codec priority_mask _ p.priority fit.priority (free5 bits_ok))
                (after_writing _
                  (prop_written shortstr_codec correlation_id_mask _ p.correlation_id
                    fit.correlation_id (free6 bits_ok))
                  (after_writing _
                    (prop_written shortstr_codec reply_to_mask _ p.reply_to fit.reply_to
                      (free7 bits_ok))
                    (after_writing _
                      (prop_written shortstr_codec expiration_mask _ p.expiration fit.expiration
                        (free8 bits_ok))
                      (after_writing _
                        (prop_written shortstr_codec message_id_mask _ p.message_id fit.message_id
                          (free9 bits_ok))
                        (after_writing _
                          (prop_written longlong_codec timestamp_mask _ p.timestamp fit.timestamp
                            (free10 bits_ok))
                          (after_writing _
                            (prop_written shortstr_codec type_mask _ p.type_name fit.type_name
                              (free11 bits_ok))
                            (after_writing _
                              (prop_written shortstr_codec user_id_mask _ p.user_id fit.user_id
                                (free12 bits_ok))
                              (after_writing _
                                (prop_written shortstr_codec app_id_mask _ p.app_id fit.app_id
                                  (free13 bits_ok))
                                (after_writing _
                                  (prop_written shortstr_codec reserved_mask _ p.reserved
                                    fit.reserved (free14 bits_ok))
                                  (refl))))))))))))))

  -- The same bytes, bracketed as they are read.
  abbrev read_order : List ℕ → List ℕ
  read_order r =
      prop_bytes shortstr_codec p.content_type
      ++ (prop_bytes shortstr_codec p.content_encoding
          ++ (prop_bytes table_codec p.headers
              ++ (prop_bytes octet_codec p.delivery_mode
                  ++ (prop_bytes octet_codec p.priority
                      ++ (prop_bytes shortstr_codec p.correlation_id
                          ++ (prop_bytes shortstr_codec p.reply_to
                              ++ (prop_bytes shortstr_codec p.expiration
                                  ++ (prop_bytes shortstr_codec p.message_id
                                      ++ (prop_bytes longlong_codec p.timestamp
                                          ++ (prop_bytes shortstr_codec p.type_name
                                              ++ (prop_bytes shortstr_codec p.user_id
                                                  ++ (prop_bytes shortstr_codec p.app_id
                                                      ++ (prop_bytes shortstr_codec p.reserved
                                                          ++ r)))))))))))))

  read_back : (r : List ℕ) → read_props (flags_of p) true (read_order r) ≡ ok (p, r)
  unfolding read_props
  read_back r =
      after_reading _
        (prop_back shortstr_codec content_type_mask (flags_of p) p.content_type _ fit.content_type
          (bit1 bits_ok))
        (after_reading _
          (prop_back shortstr_codec content_encoding_mask (flags_of p) p.content_encoding _
            fit.content_encoding (bit2 bits_ok))
          (after_reading _
            (prop_back table_codec headers_mask (flags_of p) p.headers _ fit.headers (bit3 bits_ok))
            (after_reading _
              (prop_back octet_codec delivery_mode_mask (flags_of p) p.delivery_mode _
                fit.delivery_mode (bit4 bits_ok))
              (after_reading _
                (prop_back octet_codec priority_mask (flags_of p) p.priority _ fit.priority
                  (bit5 bits_ok))
                (after_reading _
                  (prop_back shortstr_codec correlation_id_mask (flags_of p) p.correlation_id _
                    fit.correlation_id (bit6 bits_ok))
                  (after_reading _
                    (prop_back shortstr_codec reply_to_mask (flags_of p) p.reply_to _ fit.reply_to
                      (bit7 bits_ok))
                    (after_reading _
                      (prop_back shortstr_codec expiration_mask (flags_of p) p.expiration _
                        fit.expiration (bit8 bits_ok))
                      (after_reading _
                        (prop_back shortstr_codec message_id_mask (flags_of p) p.message_id _
                          fit.message_id (bit9 bits_ok))
                        (after_reading _
                          (prop_back longlong_codec timestamp_mask (flags_of p) p.timestamp _
                            fit.timestamp (bit10 bits_ok))
                          (after_reading _
                            (prop_back shortstr_codec type_mask (flags_of p) p.type_name _
                              fit.type_name (bit11 bits_ok))
                            (after_reading _
                              (prop_back shortstr_codec user_id_mask (flags_of p) p.user_id _
                                fit.user_id (bit12 bits_ok))
                              (after_reading _
                                (prop_back shortstr_codec app_id_mask (flags_of p) p.app_id _
                                  fit.app_id (bit13 bits_ok))
                                (after_reading _
                                  (prop_back shortstr_codec reserved_mask (flags_of p) p.reserved _
                                    fit.reserved (bit14 bits_ok))
                                  (refl))))))))))))))

  regroup : (r : List ℕ) → bytes_of_props p ++ r ≡ read_order r
  regroup r = simp append_assoc

-- A header whose fields are within their widths, and whose weight is 0.
pub record IsHeader (h : ContentHeaderFrame) : Type 0 where
  pub content_class : h.content_class < 2 ^ 16
  pub content_weight : h.content_weight ≡ 0
  pub content_body_size : h.content_body_size < 2 ^ 64
  pub properties : Fit h.properties

flags_of_lt : (p : Properties) → flags_of p < 2 ^ 16
flags_of_lt p = omega (
  arith,
  present_le p.content_type,
  present_le p.content_encoding,
  present_le p.headers,
  present_le p.delivery_mode,
  present_le p.priority,
  present_le p.correlation_id,
  present_le p.reply_to,
  present_le p.expiration,
  present_le p.message_id,
  present_le p.timestamp,
  present_le p.type_name,
  present_le p.user_id,
  present_le p.app_id,
  present_le p.reserved,
)

module _ (h : ContentHeaderFrame) (ok_h : IsHeader h) where
  abbrev header_bytes : List ℕ
  header_bytes =
      write_short h.content_class
      ++ (write_short h.content_weight
          ++ (write_longlong h.content_body_size
              ++ (write_short (flags_of h.properties) ++ bytes_of_props h.properties)))

  abbrev reread : ContentHeaderFrame
  reread = record h { property_flags = flags_of h.properties }

  header_written : write_header h ≡ done header_bytes
  unfolding write_header
  header_written = rw (write_header, written h.properties ok_h.properties) refl

  light : h.content_weight < 2 ^ 16
  light = omega (arith, ok_h.content_weight)

  header_regrouped :
      (r : List ℕ)
      → header_bytes ++ r
        ≡ write_short h.content_class
          ++ (write_short h.content_weight
              ++ (write_longlong h.content_body_size
                  ++ (write_short (flags_of h.properties)
                      ++ read_order h.properties ok_h.properties r)))
  header_regrouped r = simp append_assoc

  header_read : (r : List ℕ) → read_header true (header_bytes ++ r) ≡ ok (reread, r)
  unfolding read_header
  header_read r =
      ap (read_header true) (header_regrouped r)
      ∙ after_reading _ (ap lift (read_short-write_short h.content_class _ ok_h.content_class)) (
          after_reading _ (ap lift (read_short-write_short h.content_weight _ light)) (
            on_true (h.content_weight == 0) _ (ground (arith, ok_h.content_weight)) (
              after_reading _
                (ap lift
                  (read_longlong-write_longlong h.content_body_size _ ok_h.content_body_size))
                (after_reading _
                  (ap lift
                    (read_short-write_short (flags_of h.properties) _ (flags_of_lt h.properties)))
                  (after_reading _ (read_back h.properties ok_h.properties r) refl)))))

-- The header of a message whose properties, tables among them, are within their widths is encoded
-- without a panic, and in strict mode read back as it was, with the flags of exactly the properties
-- that it has and with the bytes that follow it left.
pub read_header-write_header :
    (h : ContentHeaderFrame) (r : List ℕ)
    → IsHeader h
    → (bs : List ℕ) × (write_header h ≡ done bs)
      × (read_header true (bs ++ r) ≡ ok (record h { property_flags = flags_of h.properties }, r))
read_header-write_header h r ok_h =
    (header_bytes h ok_h, header_written h ok_h, header_read h ok_h r)
