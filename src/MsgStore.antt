-- ===== src/MsgStore.antt =====
-- msgstore/msgstore.go: the messages in memory with their reference counts, and the operations on
-- disk that are queued for the next write.
pub mod Acquire
pub mod Batch
pub mod Refs
pub mod Adding
pub mod Persist
use dispatchd.Amqp.Types.{Message, IndexMessage, QueueMessage, TxMessage, WireFrame}
use dispatchd.Limits.Holders.{Holders}
use dispatchd.Common.{
  Bool, GoString, List, Map, Option, Outcome, [], done, false, find, if◌then◌else◌, length, map,
  none, panic, put, remove, some, ℕ, ◌%◌, ◌++◌, ◌+◌, ◌-◌, ◌==◌, ◌>>=◌, ◌^◌, ◌||◌, ◌∷◌, nat_eq,
  str_eq, pair_eq,
}

-- A PersistKey is a pair of a queue's name and a message's id.
pub record MessageStore : Type 0 where
  pub index : Map ℕ IndexMessage
  pub messages : Map ℕ Message
  pub add_ops : Map (GoString × ℕ) QueueMessage
  pub del_ops : Map (GoString × ℕ) QueueMessage
  pub delivered_ops : Map (GoString × ℕ) QueueMessage

abbrev pub new_message_store : MessageStore
new_message_store = record {
  index = [];
  messages = [];
  add_ops = [];
  del_ops = [];
  delivered_ops = [];
}

payload_size : ℕ → List WireFrame → ℕ
payload_size size [] = size
payload_size size (f ∷ fs) = payload_size ((size + length f.payload % 2 ^ 32) % 2 ^ 32) fs

unfoldable pub message_size : Message → ℕ
unfolding payload_size
message_size msg = payload_size 0 msg.payload

-- A message without a header is a nil dereference.
unfoldable pub is_durable : Message → Outcome Bool
is_durable msg = elim msg.header [
  | none ↦ panic
  | some header ↦ done (elim header.properties.delivery_mode [ none ↦ false | some dm ↦ dm == 2 ])
]

-- What the first loop of AddTxMessages builds.
pub record Prepared : Type 0 where
  pub any_durable : Bool
  pub index_messages : Map ℕ IndexMessage
  pub queue_messages : Map GoString (List QueueMessage)

abbrev pub nothing_prepared : Prepared
nothing_prepared = record { any_durable = false; index_messages = []; queue_messages = [] }

-- The index message of the batch, made at the first message with its id, with one more reference.
unfoldable pub count_ref : Prepared → ℕ → Bool → IndexMessage
count_ref p id durable = elim (find id p.index_messages) [
  | none ↦ record { id = id; refs = 1; durable = durable; delivery_count = 0 }
  | some im ↦ record im { refs = (im.refs + 1) % 2 ^ 32 }
]

unfoldable pub queued : Prepared → GoString → List QueueMessage
queued p q = elim (find q p.queue_messages) [ none ↦ [] | some qms ↦ qms ]

unfoldable pub new_queue_message : Message → Bool → QueueMessage
new_queue_message msg durable = record {
  id = msg.id;
  delivery_count = 0;
  durable = durable;
  msg_size = message_size msg;
  local_id = msg.local_id;
}

unfoldable pub prepare_with : Prepared → TxMessage → Bool → Prepared
unfolding count_ref queued new_queue_message
prepare_with p m durable = record {
  any_durable = p.any_durable || durable;
  index_messages = put m.msg.id (count_ref p m.msg.id durable) p.index_messages;
  queue_messages =
      put m.queue_name (queued p m.queue_name ++ new_queue_message m.msg durable ∷ [])
        p.queue_messages;
}

unfoldable pub prepare_one : Prepared → TxMessage → Outcome Prepared
unfolding prepare_with
prepare_one p m = do durable ← is_durable m.msg; done (prepare_with p m durable)

unfoldable pub prepare : Prepared → List TxMessage → Outcome Prepared
unfolding prepare_one
prepare p [] = done p
prepare p (m ∷ ms) = do q ← prepare_one p m; prepare q ms

queue_ops :
    GoString → List QueueMessage → Map (GoString × ℕ) QueueMessage → Map (GoString × ℕ) QueueMessage
queue_ops q [] ops = ops
queue_ops q (qm ∷ qms) ops = queue_ops q qms (put (q, qm.id) qm ops)

unfoldable pub all_ops :
    Map GoString (List QueueMessage)
    → Map (GoString × ℕ) QueueMessage
    → Map (GoString × ℕ) QueueMessage
unfolding queue_ops
all_ops [] ops = ops
all_ops ((q, qms) ∷ rest) ops = all_ops rest (queue_ops q qms ops)

-- The last loop: the store takes over the messages and the index messages of the batch. Each id has
-- its index message by then.
unfoldable pub remember : Map ℕ IndexMessage → List TxMessage → MessageStore → MessageStore
remember ims [] ms = ms
remember ims (m ∷ rest) ms = remember ims rest (record ms {
  index = elim (find m.msg.id ims) [ none ↦ ms.index | some im ↦ put m.msg.id im ms.index ];
  messages = put m.msg.id m.msg ms.messages;
})

unfoldable pub add_tx_messages :
    MessageStore → List TxMessage → Outcome (MessageStore × Map GoString (List QueueMessage))
unfolding prepare all_ops remember
add_tx_messages ms msgs = do
  p ← prepare nothing_prepared msgs
  let ops = if p.any_durable then all_ops p.queue_messages ms.add_ops else ms.add_ops
  done (remember p.index_messages msgs (record ms { add_ops = ops }), p.queue_messages)

unfoldable pub tx_message : Message → GoString → TxMessage
tx_message msg q = record { msg = msg; queue_name = q }

unfoldable pub add_message :
    MessageStore
    → Message
    → List GoString
    → Outcome (MessageStore × Map GoString (List QueueMessage))
unfolding tx_message
add_message ms msg queues = add_tx_messages ms (map (tx_message msg) queues)

-- The queue message is changed in place: the caller goes on with the one that is returned.
unfoldable pub incr_delivery_count :
    MessageStore → GoString → QueueMessage → MessageStore × QueueMessage
incr_delivery_count ms q qm =
    let qm' = record qm { delivery_count = (qm.delivery_count + 1) % 2 ^ 32 } in
    (
      if qm.durable then record ms { delivered_ops = put (q, qm.id) qm' ms.delivered_ops } else ms,
      qm',
    )

-- The part of RemoveRef that changes the store.
unfoldable pub drop_ref : MessageStore → QueueMessage → GoString → IndexMessage → MessageStore
drop_ref ms qm q im =
    let refs = (im.refs + 2 ^ 32 - 1) % 2 ^ 32 in
    if im.durable
    then record ms { del_ops = put (q, im.id) qm ms.del_ops }
    else if refs == 0
    then record ms { index = remove qm.id ms.index; messages = remove qm.id ms.messages }
    else record ms { index = put qm.id (record im { refs = refs }) ms.index }

-- The rest of the store's operations acquire or release the resources of holders.
module _ {H R : Type 0} (holders : Holders H R) where
  open holders use {acquire, release}

  -- The loop stops at the first holder that refuses; those that did not are listed.
  unfoldable pub acquire_all : List R → QueueMessage → H → List R × H
  acquire_all [] qm h = ([], h)
  acquire_all (r ∷ rs) qm h =
      let rest = acquire_all rs qm (acquire r qm h).1 in
      if (acquire r qm h).0 then (r ∷ rest.0, rest.1) else ([], (acquire r qm h).1)

  unfoldable pub release_all : List R → QueueMessage → H → H
  release_all [] qm h = h
  release_all (r ∷ rs) qm h = release_all rs qm (release r qm h)

  -- `none` for (nil, false).
  unfoldable pub get : MessageStore → QueueMessage → List R → H → Outcome (Option Message × H)
  unfolding acquire_all release_all
  get ms qm rhs h =
      let (acquired, h') = acquire_all rhs qm h in
      if length acquired == length rhs
      then (elim (find qm.id ms.messages) [ none ↦ panic | some msg ↦ done (some msg, h') ])
      else done (none, release_all acquired qm h')

  unfoldable pub remove_ref :
      MessageStore → QueueMessage → GoString → List R → H → Outcome (MessageStore × H)
  unfolding drop_ref release_all
  remove_ref ms qm q rhs h = elim (find qm.id ms.index) [
    | none ↦ panic
    | some im ↦ if q == [] then panic else done (drop_ref ms qm q im, release_all rhs qm h)
  ]

  unfoldable pub get_and_decr_ref :
      MessageStore → QueueMessage → GoString → List R → H → Outcome (Message × MessageStore × H)
  unfolding remove_ref
  get_and_decr_ref ms qm q rhs h = elim (find qm.id ms.messages) [
    | none ↦ panic
    | some msg ↦ do (ms', h') ← remove_ref ms qm q rhs h; done (msg, ms', h')
  ]
