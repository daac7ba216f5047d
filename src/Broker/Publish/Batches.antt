-- ===== src/Broker/Publish/Batches.antt =====
-- The batch that AddMessage makes of one message: one queue message, the same, for each queue.
use dispatchd.Amqp.Types.{Message, TxMessage}
use dispatchd.MsgStore.{
  Prepared, prepare, prepare_with, prepare_one, is_durable, tx_message, new_queue_message, queued,
}
use dispatchd.MsgStore.Batch.{count_id, all_queued, has_id, add_one}
use dispatchd.Broker.Publish.{names}
use dispatchd.Broker.Publish.Enqueue.{in_flight}
use dispatchd.Common.{
  All, Bool, GoString, IsUnique, List, Map, [], arith, contains, done, find, find-put,
  if◌then◌else◌, length, map, none, put-IsUnique, refl, some, str_beq_iff, true, ℕ, ◌++◌, ◌+◌, ◌==◌,
  ◌∙◌, ◌∷◌, ◌≡◌, ◌≢◌, nat_eq, str_eq, pair_eq,
}

abbrev pub batch : Message → Map GoString Bool → List TxMessage
batch msg r = map (tx_message msg) (names r)

pub batch_headers :
    (msg : Message) (r : Map GoString Bool)
    → msg.header ≢ none
    → All (λ m. m.msg.header ≢ none) (batch msg r)
unfolding names tx_message
batch_headers msg [] h = tt
batch_headers msg ((q, t) ∷ r) h = (h, batch_headers msg r h)

pub batch_ids :
    (msg : Message) (r : Map GoString Bool) (id : ℕ) → has_id id (batch msg r) ≡ true → msg.id ≡ id
unfolding names tx_message has_id
batch_ids msg [] id h = absurd (ground arith)
batch_ids msg ((q, t) ∷ r) id h = ground (arith, batch_ids msg r id)

pub length-batch : (msg : Message) (r : Map GoString Bool) → length (batch msg r) ≡ length r
unfolding names
length-batch msg [] = refl
length-batch msg ((q, t) ∷ r) = omega (arith, length-batch msg r)

find_first :
    (msg : Message) (d : Bool) (name : GoString) (p : Prepared) (q : GoString)
    → find name p.queue_messages ≡ none
    → find q (prepare_with p (tx_message msg name) d).queue_messages
      ≡ (if name == q then some (new_queue_message msg d ∷ []) else find q p.queue_messages)
unfolding prepare_with tx_message queued
find_first msg d name p q f =
    ground
      (arith, f, find-put q name (queued p name ++ new_queue_message msg d ∷ []) p.queue_messages)

count_first :
    (msg : Message) (d : Bool) (name : GoString) (p : Prepared) (id : ℕ)
    → IsUnique p.queue_messages
    → count_id id (all_queued (prepare_with p (tx_message msg name) d).queue_messages)
      ≡ (if (new_queue_message msg d).id == id then 1 else 0)
        + count_id id (all_queued p.queue_messages)
unfolding prepare_with tx_message
count_first msg d name p id u =
    add_one p (tx_message msg name) d id u ∙ (unfold new_queue_message in refl)

first-IsUnique :
    (msg : Message) (d : Bool) (name : GoString) (p : Prepared)
    → IsUnique p.queue_messages
    → IsUnique (prepare_with p (tx_message msg name) d).queue_messages
unfolding prepare_with tx_message
first-IsUnique msg d name p u = put-IsUnique name _ p.queue_messages u

prepare_first :
    (msg : Message) (d : Bool) (name : GoString) (t : Bool) (r : Map GoString Bool)
    (p p' : Prepared)
    → is_durable msg ≡ done d
    → prepare (prepare_with p (tx_message msg name) d) (batch msg r) ≡ done p'
    → prepare p (batch msg ((name, t) ∷ r)) ≡ done p'
unfolding prepare names tx_message
prepare_first msg d name t r p p' e f = rw (prepare_one, e) f

-- A batch of one message prepares one queue message for each of its queues.
pub prepare-batch :
    (msg : Message) (d : Bool)
    → is_durable msg ≡ done d
    → (r : Map GoString Bool) (p : Prepared) → IsUnique p.queue_messages
    → IsUnique r
    → ((q : GoString) → contains q r ≡ true → find q p.queue_messages ≡ none)
    → (p' : Prepared) × (prepare p (batch msg r) ≡ done p')
      × ((id : ℕ)
          → count_id id (all_queued p'.queue_messages)
            ≡ in_flight id r (new_queue_message msg d) + count_id id (all_queued p.queue_messages))
      × ((q : GoString)
          → find q p'.queue_messages ≡ (
              if contains q r
              then some (new_queue_message msg d ∷ [])
              else find q p.queue_messages))
unfolding prepare names in_flight contains find
prepare-batch msg d e [] p u v n = (p, refl, λ id. omega arith, λ q. refl)
prepare-batch msg d e ((name, t) ∷ r) p u v n =
    let first = prepare_with p (tx_message msg name) d in
    let none_yet : find name p.queue_messages ≡ none =
      n name (ground (arith, str_beq_iff name name)) in
    let (p', f, c, g) = prepare-batch msg d e r first (first-IsUnique msg d name p u) v.1 (λ q h.
      ground (arith, find_first msg d name p q none_yet, n q, h, v.0, str_beq_iff name q)) in
    (
      p',
      prepare_first msg d name t r p p' e f,
      λ id. omega (arith, c id, count_first msg d name p id u),
      λ q. ground (arith, g q, find_first msg d name p q none_yet, v.0, str_beq_iff name q),
    )
