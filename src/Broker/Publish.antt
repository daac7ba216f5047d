-- ===== src/Broker/Publish.antt =====
-- server/server.go, publish, and commitTx of server/channel.go: messages go into the store and to the
-- backs of their queues. ConsumeImmediate of queue/queue.go and of consumer/consumer.go, which
-- publish calls for an immediate message; the lock of the queue's consumers is taken to be free.
pub mod Enqueue
pub mod Batches
pub mod Routed
pub mod Commit
use dispatchd.Amqp.Types.{Message, QueueMessage, TxAck}
use dispatchd.MsgStore.{add_message, add_tx_messages, remove_ref, get, queued, nothing_prepared}
use dispatchd.Exchange.{Exchange, queues_for_publish, is_nil}
use dispatchd.Channel.{rollback_tx, add_unacked_message}
use dispatchd.Parties.{Party, Parties, the_channel, consumer, parties, update}
use dispatchd.Queue
use dispatchd.Queue.{Queue}
use dispatchd.Broker.{Broker, deliver, tx_ack_message, send_content}
use dispatchd.Common.{
  Bool, GoString, List, Map, Option, Outcome, [], done, false, find, if◌then◌else◌, ltb, none, not,
  put, some, true, ℕ, ◌%◌, ◌&&◌, ◌+◌, ◌>>=◌, ◌^◌, ◌||◌, ◌∷◌, nat_eq, str_eq, pair_eq,
}

-- BasicReturn, without its text.
pub record Returned : Type 0 where
  pub exchange : GoString
  pub routing_key : GoString
  pub reply_code : ℕ

unfoldable pub return_message : Message → ℕ → Returned
return_message msg code = record {
  exchange = msg.method.exchange;
  routing_key = msg.method.routing_key;
  reply_code = code;
}

unfoldable pub drop_queued : List Party → Broker → GoString → QueueMessage → Outcome Broker
drop_queued rhs b name qm = do
  (store', h) ← remove_ref parties b.store qm name rhs b.parties
  done (record b { store = store'; parties = h })

-- Adds to a queue that was found; a closed queue refuses, and the reference is removed.
unfoldable pub add_or_drop : List Party → Broker → GoString → Queue → QueueMessage → Outcome Broker
unfolding drop_queued
add_or_drop rhs b name q qm =
    if (Queue.add q qm).1
    then done (record b { queues = put name (Queue.add q qm).0 b.queues })
    else drop_queued rhs b name qm

unfoldable pub enqueue_one : Broker → GoString → QueueMessage → Outcome Broker
unfolding add_or_drop drop_queued
enqueue_one b name qm = elim (find name b.queues) [
  | none ↦ drop_queued [] b name qm
  | some q ↦ add_or_drop [] b name q qm
]

unfoldable pub enqueue_all : Broker → GoString → List QueueMessage → Outcome Broker
unfolding enqueue_one
enqueue_all b name [] = done b
enqueue_all b name (qm ∷ qms) = do b' ← enqueue_one b name qm; enqueue_all b' name qms

-- A missing key gives the nil slice.
abbrev pub queued_for : Option (List QueueMessage) → List QueueMessage
queued_for none = []
queued_for (some qms) = qms

-- The loop over the queues that the message was routed to.
unfoldable pub enqueue_queues :
    Map GoString Bool → Map GoString (List QueueMessage) → Broker → Outcome Broker
unfolding enqueue_all
enqueue_queues [] qms b = done b
enqueue_queues ((name, _) ∷ rest) qms b = do
  b' ← enqueue_all b name (queued_for (find name qms))
  enqueue_queues rest qms b'

unfoldable pub names : Map GoString Bool → List GoString
names [] = []
names ((name, _) ∷ rest) = name ∷ names rest

-- SendContent and the count of ConsumeImmediate.
unfoldable pub sent_immediate : Broker → ℕ → ℕ → Message → Outcome Broker
unfolding send_content
sent_immediate b c tag msg = do
  b' ←
      send_content b
        (deliver (b.parties.consumers c).consumer_tag tag
          (ltb 0 msg.redelivered && ltb msg.redelivered (2 ^ 31)) msg)
        msg
  let h = b'.parties
  let stat = ((h.consumers c).stat_count + 1) % 2 ^ 64
  done (record b' {
    parties = record h {
      consumers = update c (record (h.consumers c) { stat_count = stat }) h.consumers;
    };
  })

-- One consumer is sent an immediate message; one that does not ack keeps the reference and the
-- resources.
unfoldable pub consume_immediate : Broker → ℕ → QueueMessage → Message → Outcome Broker
unfolding sent_immediate
consume_immediate b c qm msg =
    let h = b.parties in
    if not (h.consumers c).no_ack
    then (do
      (ch, tag) ←
          add_unacked_message h.channel (h.consumers c).consumer_tag qm (h.consumers c).queue_name
      sent_immediate (record b { parties = record h { channel = ch } }) c tag msg)
    else sent_immediate b c 0 msg

-- The consumers of the queue in order, until one can take the message.
unfoldable pub offer : Broker → List ℕ → QueueMessage → Outcome (Broker × Bool)
unfolding consume_immediate
offer b [] qm = done (b, false)
offer b (c ∷ cs) qm = do
  (got, h) ← get parties b.store qm (consumer c ∷ the_channel ∷ []) b.parties
  elim got [
    | none ↦ offer (record b { parties = h }) cs qm
    | some msg ↦ do b' ← consume_immediate (record b { parties = h }) c qm msg; done (b', true)
  ]

offer_all : Broker → GoString → List QueueMessage → Bool → Outcome (Broker × Bool)
unfolding offer drop_queued
offer_all b name [] consumed = done (b, consumed)
offer_all b name (qm ∷ qms) consumed = elim (find name b.queues) [
  | none ↦ offer_all b name qms consumed
  | some q ↦ do
    (b', taken) ← offer b q.consumers qm
    b'' ← if taken then done b' else drop_queued [] b' name qm
    offer_all b'' name qms (taken || consumed)
]

offer_queues :
    Map GoString Bool → Map GoString (List QueueMessage) → Broker → Bool → Outcome (Broker × Bool)
unfolding offer_all
offer_queues [] qms b consumed = done (b, consumed)
offer_queues ((name, _) ∷ rest) qms b consumed = do
  (b', consumed') ← offer_all b name (queued_for (find name qms)) consumed
  offer_queues rest qms b' consumed'

unfoldable pub publish_immediate :
    Broker → Map GoString Bool → Message → Outcome (Broker × Option Returned)
unfolding offer_queues names return_message
publish_immediate b queues msg = do
  (store', qms) ← add_message b.store msg (names queues)
  (b', consumed) ← offer_queues queues qms (record b { store = store' }) false
  done (b', if consumed then none else some (return_message msg 313))

unfoldable pub publish_plain :
    Broker → Map GoString Bool → Message → Outcome (Broker × Option Returned)
unfolding enqueue_queues names
publish_plain b queues msg = do
  (store', qms) ← add_message b.store msg (names queues)
  b' ← enqueue_queues queues qms (record b { store = store' })
  done (b', none)

unfoldable pub publish : Broker → Exchange → Message → Outcome (Broker × Option Returned)
unfolding publish_immediate publish_plain return_message
publish b ex msg =
    if ex.closed
    then (if msg.method.mandatory || msg.method.immediate
        then done (b, some (return_message msg 313))
        else done (b, none))
    else (do
      queues ← queues_for_publish ex msg.method
      if is_nil queues && (msg.method.mandatory || msg.method.immediate)
          then done (b, some (return_message msg 313))
          else if msg.method.immediate
          then publish_immediate b queues msg
          else publish_plain b queues msg)

-- The first loop of commitTx. The messages of a queue that is gone are left alone.
unfoldable pub commit_all : Broker → GoString → List QueueMessage → Outcome Broker
unfolding add_or_drop
commit_all b name [] = done b
commit_all b name (qm ∷ qms) = elim (find name b.queues) [
  | none ↦ done b
  | some q ↦ do b' ← add_or_drop (the_channel ∷ []) b name q qm; commit_all b' name qms
]

unfoldable pub commit_queues : Map GoString (List QueueMessage) → Broker → Outcome Broker
unfolding commit_all
commit_queues [] b = done b
commit_queues ((name, qms) ∷ rest) b = do b' ← commit_all b name qms; commit_queues rest b'

unfoldable pub commit_acks : List TxAck → Broker → Outcome Broker
commit_acks [] b = done b
commit_acks (ack ∷ acks) b = do b' ← tx_ack_message b ack; commit_acks acks b'

unfoldable pub commit_tx : Broker → Outcome Broker
unfolding commit_queues commit_acks
commit_tx b = do
  (store', qms) ← add_tx_messages b.store b.parties.channel.tx_messages
  b1 ← commit_queues qms (record b { store = store' })
  b2 ← commit_acks b.parties.channel.tx_acks b1
  done (record b2 { parties = record b2.parties { channel = rollback_tx b2.parties.channel } })
