-- ===== src/Wire/HeaderReader.antt =====
-- ReadProps of amqp/amqpreader.go and ContentHeaderFrame.Read of amqp/types.go.
use dispatchd.Amqp.Types.{Properties, ContentHeaderFrame}
use dispatchd.Wire.{read_octet, read_short, read_longlong, read_shortstr}
use dispatchd.Wire.Masks.{
  content_type_mask, content_encoding_mask, headers_mask, delivery_mode_mask, priority_mask,
  correlation_id_mask, reply_to_mask, expiration_mask, message_id_mask, timestamp_mask, type_mask,
  user_id_mask, app_id_mask, reserved_mask, has_mask,
}
use dispatchd.Wire.FieldReader.{Reading, ok, failed, lift, read_table, ◌>>=◌}
use dispatchd.Common.{
  Bool, GoString, List, Option, false, none, some, true, ℕ, ◌==◌, nat_eq, str_eq, pair_eq,
}

-- One property, whose bit says whether it is there.
unfoldable pub read_prop :
    {A : Type 0} → ℕ → ℕ → (List ℕ → Reading (A × List ℕ)) → List ℕ → Reading (Option A × List ℕ)
read_prop flags mask reader bs = elim (has_mask flags mask) [
  | true ↦ do (v, rest) ← reader bs; ok (some v, rest)
  | false ↦ ok (none, bs)
]

abbrev pub shortstr_reader : List ℕ → Reading (GoString × List ℕ)
shortstr_reader bs = lift (read_shortstr bs)

abbrev pub octet_reader : List ℕ → Reading (ℕ × List ℕ)
octet_reader bs = lift (read_octet bs)

abbrev pub longlong_reader : List ℕ → Reading (ℕ × List ℕ)
longlong_reader bs = lift (read_longlong bs)

unfoldable pub read_props : ℕ → Bool → List ℕ → Reading (Properties × List ℕ)
unfolding read_prop
read_props flags strict bs = do
  (content_type, bs1) ← read_prop flags content_type_mask shortstr_reader bs
  (content_encoding, bs2) ← read_prop flags content_encoding_mask shortstr_reader bs1
  (headers, bs3) ← read_prop flags headers_mask (read_table strict) bs2
  (delivery_mode, bs4) ← read_prop flags delivery_mode_mask octet_reader bs3
  (priority, bs5) ← read_prop flags priority_mask octet_reader bs4
  (correlation_id, bs6) ← read_prop flags correlation_id_mask shortstr_reader bs5
  (reply_to, bs7) ← read_prop flags reply_to_mask shortstr_reader bs6
  (expiration, bs8) ← read_prop flags expiration_mask shortstr_reader bs7
  (message_id, bs9) ← read_prop flags message_id_mask shortstr_reader bs8
  (timestamp, bs10) ← read_prop flags timestamp_mask longlong_reader bs9
  (type_name, bs11) ← read_prop flags type_mask shortstr_reader bs10
  (user_id, bs12) ← read_prop flags user_id_mask shortstr_reader bs11
  (app_id, bs13) ← read_prop flags app_id_mask shortstr_reader bs12
  (reserved, bs14) ← read_prop flags reserved_mask shortstr_reader bs13
  ok (
    record {
      content_type = content_type;
      content_encoding = content_encoding;
      headers = headers;
      delivery_mode = delivery_mode;
      priority = priority;
      correlation_id = correlation_id;
      reply_to = reply_to;
      expiration = expiration;
      message_id = message_id;
      timestamp = timestamp;
      type_name = type_name;
      user_id = user_id;
      app_id = app_id;
      reserved = reserved;
    },
    bs14,
  )

unfoldable pub read_header : Bool → List ℕ → Reading (ContentHeaderFrame × List ℕ)
unfolding read_props
read_header strict bs = do
  (content_class, bs1) ← lift (read_short bs)
  (content_weight, bs2) ← lift (read_short bs1)
  elim (content_weight == 0) [
    | false ↦ failed
    | true ↦ do
      (content_body_size, bs3) ← lift (read_longlong bs2)
      (property_flags, bs4) ← lift (read_short bs3)
      (properties, bs5) ← read_props property_flags strict bs4
      ok (
        record {
          content_class = content_class;
          content_weight = content_weight;
          content_body_size = content_body_size;
          property_flags = property_flags;
          properties = properties;
        },
        bs5,
      )
  ]
