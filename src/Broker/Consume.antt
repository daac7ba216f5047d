-- ===== src/Broker/Consume.antt =====
-- consumer/consumer.go, consumeOne and ConsumeImmediate, and basicGet of server/basicMethods.go: a
-- message leaves its queue for the client.
pub mod Noted
pub mod Delivery
pub mod Get
use dispatchd.Amqp.Types.{QueueMessage, Message}
use dispatchd.MsgStore.{MessageStore, remove_ref, get_and_decr_ref}
use dispatchd.Consumer.{Consumer, ping}
use dispatchd.Channel.{add_unacked_message, next_delivery_tag}
use dispatchd.Parties.{Parties, the_channel, consumer, parties, update}
use dispatchd.Queue
use dispatchd.Queue.{Queue}
use dispatchd.Broker.{Broker, Sent, deliver, get_ok, get_empty, send_content}
use dispatchd.Common.{
  Bool, GoString, List, Option, Outcome, [], done, false, true, ◌==◌, ◌||◌, find, if◌then◌else◌,
  ltb, none, not, put, some, ℕ, ◌%◌, ◌&&◌, ◌++◌, ◌+◌, ◌>>=◌, ◌^◌, ◌∷◌, nat_eq, str_eq, pair_eq,
}

-- qm.DeliveryCount > 0, in int32.
abbrev pub redelivered : QueueMessage → Bool
redelivered qm = ltb 0 qm.delivery_count && ltb qm.delivery_count (2 ^ 31)

-- StatCount += 1, and Ping.
abbrev pub counted : Consumer → Consumer
counted c = record c { stat_count = (c.stat_count + 1) % 2 ^ 64 }

unfoldable pub count_delivery : ℕ → Broker → Broker
count_delivery c b =
    let h = b.parties in
    record b {
      parties = record h { consumers = update c (ping (counted (h.consumers c))) h.consumers };
    }

unfoldable pub send_deliver : Broker → ℕ → ℕ → QueueMessage → Message → Outcome Broker
unfolding count_delivery send_content
send_deliver b c tag qm msg = do
  b' ← send_content b (deliver (b.parties.consumers c).consumer_tag tag (redelivered qm) msg) msg
  done (count_delivery c b')

-- An acking consumer's message is noted as unacked; another's is dropped from the store at once.
unfoldable pub settle_delivery : Broker → ℕ → QueueMessage → Message → Outcome Broker
unfolding send_deliver
settle_delivery b c qm msg =
    let h = b.parties in
    if not (h.consumers c).no_ack
    then (do
      (ch, tag) ←
          add_unacked_message h.channel (h.consumers c).consumer_tag qm (h.consumers c).queue_name
      send_deliver (record b { parties = record h { channel = ch } }) c tag qm msg)
    else (do
      (store', h') ←
          remove_ref parties b.store qm (h.consumers c).queue_name (the_channel ∷ consumer c ∷ []) h
      send_deliver (record b { store = store'; parties = h' }) c 0 qm msg)

after_get : Broker → ℕ → Queue × Option (QueueMessage × Message) × Parties → Outcome Broker
unfolding settle_delivery
after_get b c (q, none, h) = done (record b { parties = h })
after_get b c (q, some (qm, msg), h) =
    settle_delivery
      (record b { queues = put (b.parties.consumers c).queue_name q b.queues; parties = h }) c qm
      msg

unfoldable pub is_among : ℕ → List ℕ → Bool
is_among c [] = false
is_among c (d ∷ ds) = d == c || is_among c ds

-- A consumer has a pointer to its queue, which lists it as long as it is open. So a queue that is found
-- under the name and does not list the consumer is another one, made after its own was deleted: its
-- own is closed, and gives nothing.
unfoldable pub consume_one : Broker → ℕ → Outcome Broker
unfolding after_get is_among
consume_one b c = elim (find (b.parties.consumers c).queue_name b.queues) [
  | none ↦ done b
  | some q ↦ elim (is_among c q.consumers) [
    | false ↦ done b
    | true ↦ do
      got ← Queue.get_one b.store q (the_channel ∷ consumer c ∷ []) b.parties
      after_get b c got
  ]
]

-- basicGet acknowledges at once, whatever the client asked for; `none` is the error 404.
unfoldable pub basic_get : Broker → GoString → Outcome (Option Broker)
unfolding next_delivery_tag send_content
basic_get b name = elim (find name b.queues) [
  | none ↦ done none
  | some q ↦ elim (Queue.get_one_forced q).1 [
    | none ↦ done (some (record b { sent = b.sent ++ get_empty ∷ [] }))
    | some qm ↦ do
      (msg, store', h) ← get_and_decr_ref parties b.store qm q.name (the_channel ∷ []) b.parties
      let ch = next_delivery_tag h.channel
      b' ←
          send_content
            (record b {
              store = store';
              queues = put name (Queue.get_one_forced q).0 b.queues;
              parties = record h { channel = ch };
            })
            (get_ok ch.delivery_tag (redelivered qm) msg) msg
      done (some b')
  ]
]
