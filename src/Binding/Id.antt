-- ===== src/Binding/Id.antt =====
-- binding/binding.go, calcId, with Write of QueueBind in
-- amqp/protocol_protobuf_readwrite_generated.go. The hash of the bytes is left out.
use dispatchd.Amqp.Table.{Table}
use dispatchd.Wire.{write_octet, write_short, write_shortstr}
use dispatchd.Wire.FieldWriter.{Writing, wrote, write_table, ◌>>=◌}
use dispatchd.Common.{GoString, List, Option, Outcome, done, ℕ, ◌++◌}

-- What Write of a QueueBind puts after the class and the method; `none` is its error.
unfoldable pub write_queue_bind : GoString → GoString → GoString → Table → Writing
write_queue_bind queue exchange routing_key arguments = do
  q ← done (write_shortstr queue)
  e ← done (write_shortstr exchange)
  k ← done (write_shortstr routing_key)
  a ← write_table arguments
  wrote (write_short 0 ++ (q ++ (e ++ (k ++ (write_octet 0 ++ a)))))

-- The error of Write is dropped, and what was written is hashed; a panic is not.
unfoldable pub calc_id : GoString → GoString → GoString → Table → Outcome (Option (List ℕ))
unfolding write_queue_bind
calc_id queue exchange key arguments = write_queue_bind queue exchange key arguments
