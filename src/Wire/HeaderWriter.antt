-- ===== src/Wire/HeaderWriter.antt =====
-- WriteProps of amqp/amqpwriter.go, and the header that SendContent of server/channel.go encodes.
use dispatchd.Amqp.Types.{Properties, ContentHeaderFrame}
use dispatchd.Wire.{write_octet, write_short, write_longlong, write_shortstr}
use dispatchd.Wire.Masks.{
  content_type_mask, content_encoding_mask, headers_mask, delivery_mode_mask, priority_mask,
  correlation_id_mask, reply_to_mask, expiration_mask, message_id_mask, timestamp_mask, type_mask,
  user_id_mask, app_id_mask, reserved_mask, or_mask,
}
use dispatchd.Wire.FieldWriter.{Attempt, Writing, wrote, write_table, ◌>>=◌}
use dispatchd.Common.{GoString, List, Option, Outcome, [], done, none, panic, some, ℕ, ◌++◌}

-- The new flags, and the bytes that one property adds.
unfoldable pub write_prop : {A : Type 0} → ℕ → (A → Writing) → Option A → ℕ → Attempt (ℕ × List ℕ)
write_prop mask write none flags = wrote (flags, [])
write_prop mask write (some v) flags = do bs ← write v; wrote (or_mask flags mask, bs)

abbrev pub shortstr_writer : GoString → Writing
shortstr_writer s = done (write_shortstr s)

abbrev pub octet_writer : ℕ → Writing
octet_writer b = wrote (write_octet b)

abbrev pub longlong_writer : ℕ → Writing
longlong_writer i = wrote (write_longlong i)

-- The flags and the bytes of all properties that are not nil.
unfoldable pub write_props : Properties → Attempt (ℕ × List ℕ)
unfolding write_prop
write_props p = do
  (flags1, bs1) ← write_prop content_type_mask shortstr_writer p.content_type 0
  (flags2, bs2) ← write_prop content_encoding_mask shortstr_writer p.content_encoding flags1
  (flags3, bs3) ← write_prop headers_mask write_table p.headers flags2
  (flags4, bs4) ← write_prop delivery_mode_mask octet_writer p.delivery_mode flags3
  (flags5, bs5) ← write_prop priority_mask octet_writer p.priority flags4
  (flags6, bs6) ← write_prop correlation_id_mask shortstr_writer p.correlation_id flags5
  (flags7, bs7) ← write_prop reply_to_mask shortstr_writer p.reply_to flags6
  (flags8, bs8) ← write_prop expiration_mask shortstr_writer p.expiration flags7
  (flags9, bs9) ← write_prop message_id_mask shortstr_writer p.message_id flags8
  (flags10, bs10) ← write_prop timestamp_mask longlong_writer p.timestamp flags9
  (flags11, bs11) ← write_prop type_mask shortstr_writer p.type_name flags10
  (flags12, bs12) ← write_prop user_id_mask shortstr_writer p.user_id flags11
  (flags13, bs13) ← write_prop app_id_mask shortstr_writer p.app_id flags12
  (flags14, bs14) ← write_prop reserved_mask shortstr_writer p.reserved flags13
  wrote (
    flags14,
    bs1
        ++ (bs2
            ++ (bs3
                ++ (bs4
                    ++ (bs5
                        ++ (bs6
                            ++ (bs7
                                ++ (bs8
                                    ++ (bs9 ++ (bs10 ++ (bs11 ++ (bs12 ++ (bs13 ++ bs14)))))))))))),
  )

-- SendContent panics on an error of WriteProps.
unfoldable pub write_header : ContentHeaderFrame → Outcome (List ℕ)
unfolding write_props
write_header h = elim (write_props h.properties) [
  | panic ↦ panic
  | done none ↦ panic
  | done (some (flags, bs)) ↦ done (
      write_short h.content_class
      ++ (write_short h.content_weight
          ++ (write_longlong h.content_body_size ++ (write_short flags ++ bs))))
]
