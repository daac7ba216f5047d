-- ===== src/Tests/Delivery.antt =====
-- The store, the queue and the settling of deliveries on concrete inputs.
use dispatchd.Amqp.Types.{TxMessage, QueueMessage}
use dispatchd.Limits.{Limit, give_back, acquire_limit, give_back-starves}
use dispatchd.MsgStore.{MessageStore, add_tx_messages, get}
use dispatchd.MsgStore.Acquire.{AllTake, get_all_or_nothing}
use dispatchd.MsgStore.Batch.{count_id, all_queued, has_id, refs_of}
use dispatchd.MsgStore.Refs.{IsBalanced, IsBalanced-same, one_more}
use dispatchd.MsgStore.Adding.{add_tx_messages-IsBalanced}
use dispatchd.Consumer.{Consumer}
use dispatchd.Parties.{Parties, the_channel, consumer, parties}
use dispatchd.Queue.{Queue, blocks, runs, add_consumer, process_one, nth}
use dispatchd.Queue.Order.{drain, add_all, fifo}
use dispatchd.Queue.Wake.{IsAwake, process_one-IsAwake}
use dispatchd.Queue.Lock.{exclusive_refused_blocks}
use dispatchd.Broker.{Broker, ack_below, nack_below, covers}
use dispatchd.Broker.Balance.{IsConsistent, outstanding}
use dispatchd.Broker.Acks.{Settles, ack_below-Settles, nack_below-Settles}
use dispatchd.Broker.Consume.{consume_one}
use dispatchd.Broker.Consume.Delivery.{FrontUnsendable, consume_one-IsConsistent}
use dispatchd.Tests.Data.{
  a_message, a_queued, a_store, a_queue, some_parties, a_broker, no_others, a_broker-IsConsistent,
  a_broker-IsTagged, some_parties-IsInRange,
}
use dispatchd.Common.{
  Bool, GoString, List, Map, [], arith, bytes, done, false, find, if◌then◌else◌, none, not, panic,
  refl, some, total, true, ℕ, ◌+◌, ◌<◌, ◌==◌, ◌∷◌, ◌≡◌, ◌⊎◌, nat_eq, str_eq, pair_eq,
}

abbrev unused_limit : Limit
unused_limit = record { prefetch_size = 0; prefetch_count = 2; active_size = 0; active_count = 0 }

give_back-starves_example : (acquire_limit (give_back unused_limit a_queued) a_queued).0 ≡ false
give_back-starves_example =
    give_back-starves unused_limit a_queued a_queued refl (omega arith) (omega arith)

get_all_or_nothing_example :
    ((h' : Parties) × (get parties a_store a_queued (the_channel ∷ consumer 0 ∷ []) some_parties
        ≡ done (some a_message, h'))
      × AllTake parties a_queued (the_channel ∷ consumer 0 ∷ []) some_parties h')
    ⊎ (get parties a_store a_queued (the_channel ∷ consumer 0 ∷ []) some_parties
        ≡ done (none, some_parties))
unfolding find
get_all_or_nothing_example =
    get_all_or_nothing parties a_store a_queued (the_channel ∷ consumer 0 ∷ []) some_parties
      a_message some_parties-IsInRange refl

abbrev fresh : TxMessage
fresh = record { msg = record a_message { id = 8 }; queue_name = bytes "q" }

fresh_id : (id : ℕ) → has_id id (fresh ∷ []) ≡ true → find id a_store.index ≡ none
unfolding has_id find
fresh_id id h = ground (arith, h)

add_tx_messages-IsBalanced_example :
    (ms' : MessageStore) × (qms : Map GoString (List QueueMessage)) × (add_tx_messages a_store
        (fresh ∷ [])
      ≡ done (ms', qms))
    × IsBalanced ms' (λ id. count_id id (all_queued qms) + outstanding no_others a_broker id)
    × ((id : ℕ)
        → refs_of id ms'.index ≡ (
            if has_id id (fresh ∷ [])
            then count_id id (all_queued qms)
            else refs_of id a_store.index))
add_tx_messages-IsBalanced_example =
    add_tx_messages-IsBalanced a_store (outstanding no_others a_broker) (fresh ∷ [])
      a_broker-IsConsistent.balanced ((λ e. cc), tt) fresh_id (omega arith)

fifo_example : drain 2 (add_all a_queue (a_queued ∷ [])) ≡ a_queued ∷ a_queued ∷ []
fifo_example = fifo a_queue (a_queued ∷ []) refl

exclusive_refused_blocks_example :
    (q' : Queue) × (add_consumer a_queue 1 true ≡ runs (q', 403))
    × (q'.consumers ≡ 0 ∷ [])
    × ((d : ℕ) (exclusive : Bool) → add_consumer q' d exclusive ≡ blocks)
    × ((heap : ℕ → Consumer) → process_one q' heap ≡ blocks)
exclusive_refused_blocks_example = exclusive_refused_blocks a_queue 1 refl refl (λ e. cc)

ack_below-Settles_example :
    (b' : Broker) × (ack_below a_broker 0 false ≡ done b')
    × Settles no_others a_broker (λ k. not (covers 0 k)) b'
ack_below-Settles_example = ack_below-Settles no_others a_broker a_broker-IsConsistent 0 false refl

nack_below-Settles_example :
    (b' : Broker) × (nack_below a_broker 1 true false ≡ done b')
    × Settles no_others a_broker (λ k. not (covers 1 k)) b'
nack_below-Settles_example =
    nack_below-Settles no_others a_broker a_broker-IsConsistent 1 true false refl

consume_one-IsConsistent_example :
    ((b' : Broker) × (consume_one a_broker 0 ≡ done b') × IsConsistent no_others b')
    ⊎ ((consume_one a_broker 0 ≡ panic) × FrontUnsendable a_broker (bytes "q"))
consume_one-IsConsistent_example =
    consume_one-IsConsistent no_others a_broker 0 a_broker-IsConsistent a_broker-IsTagged
      some_parties-IsInRange (λ e. cc)

-- What is left when the copy in the queue is taken away.
abbrev one_left : ℕ → ℕ
one_left id = if 7 == id then 1 else 0

one_left-IsBalanced : IsBalanced a_store (one_more a_queued one_left)
unfolding total count_id
one_left-IsBalanced =
    IsBalanced-same a_store a_store (outstanding no_others a_broker) (one_more a_queued one_left)
      refl refl (λ id. ground arith) a_broker-IsConsistent.balanced

process_one-IsAwake_example :
    (q' : Queue) × (heap' : ℕ → Consumer) × (process_one a_queue some_parties.consumers
      ≡ runs (q', heap'))
    × ((i : ℕ) → i < 1 → IsAwake (heap' (nth (0 ∷ []) i)))
process_one-IsAwake_example = process_one-IsAwake a_queue some_parties.consumers refl (omega arith)
