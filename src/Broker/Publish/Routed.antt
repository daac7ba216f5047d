-- ===== src/Broker/Publish/Routed.antt =====
-- What publish does to the queues that a message is routed to.
use dispatchd.Amqp.Types.{Message, QueueMessage, TxMessage}
use dispatchd.MsgStore.{
  MessageStore, Prepared, nothing_prepared, prepare, is_durable, new_queue_message, add_message,
  add_tx_messages,
}
use dispatchd.MsgStore.Batch.{count_id, all_queued, is_durable_total}
use dispatchd.MsgStore.Refs.{IsBalanced-same}
use dispatchd.MsgStore.Adding.{add_tx_messages-IsBalanced}
use dispatchd.Exchange.{Exchange, queues_for_publish, is_nil}
use dispatchd.Exchange.Unique.{queues_for_publish-IsUnique}
use dispatchd.Broker.{Broker}
use dispatchd.Broker.Balance.{outstanding, IsConsistent}
use dispatchd.Broker.Publish.{return_message, publish, publish_plain, names}
use dispatchd.Broker.Publish.Enqueue.{
  in_flight, IsNameList, with_added, enqueue_queues-IsConsistent,
}
use dispatchd.Broker.Publish.Batches.{batch, batch_headers, batch_ids, length-batch, prepare-batch}
use dispatchd.Common.{
  Bool, Bool-cases, GoString, IsUnique, List, Map, [], arith, contains, done, false, find,
  if◌then◌else◌, inl, inr, length, none, refl, some, true, ℕ, ◌&&◌, ◌+◌, ◌<◌, ◌^◌, ◌∙◌, ◌∷◌, ◌≡◌,
  ◌≢◌, nat_eq, str_eq, pair_eq,
}

pub same_queued :
    (ms ms' : MessageStore) (txs : List TxMessage) (qms : Map GoString (List QueueMessage))
    (p : Prepared)
    → prepare nothing_prepared txs ≡ done p
    → add_tx_messages ms txs ≡ done (ms', qms)
    → qms ≡ p.queue_messages
unfolding add_tx_messages
same_queued ms ms' txs qms p f e = ground (arith, f, e)

module _ (others : ℕ → ℕ) (b : Broker) (msg : Message) (r : Map GoString Bool)
    (ok : IsConsistent others b) (has_header : msg.header ≢ none)
    (fresh : find msg.id b.store.index ≡ none) (small : length r < 2 ^ 32)
    (unique : IsUnique r) where
  -- The store after AddMessage, with the queue messages that it returns in flight.
  stored :
      (d : Bool)
      → is_durable msg ≡ done d
      → (ms : MessageStore) × (qms : Map GoString (List QueueMessage)) × (add_message b.store msg
            (names r)
          ≡ done (ms, qms))
        × ((q : GoString) → contains q r ≡ true → find q qms ≡ some (new_queue_message msg d ∷ []))
        × IsConsistent
            (λ id. in_flight id r (new_queue_message msg d) + others id)
            (record b { store = ms })
  unfolding add_message count_id all_queued find
  stored d durable =
      let (ms, qms, e, w, counts) =
        add_tx_messages-IsBalanced b.store (outstanding others b) (batch msg r) ok.balanced
          (batch_headers msg r has_header) (λ id h. rw (← batch_ids msg r id h) fresh)
          (rw (length-batch msg r) small) in
      let (p, f, c, g) = prepare-batch msg d durable r nothing_prepared tt unique (λ q h. refl) in
      let k : qms ≡ p.queue_messages = same_queued b.store ms (batch msg r) qms p f e in
      (
        ms,
        qms,
        e,
        λ q h. rw k (g q ∙ rw h refl),
        record {
          balanced =
              IsBalanced-same ms ms (λ id. count_id id (all_queued qms) + outstanding others b id)
                (outstanding (λ id. in_flight id r (new_queue_message msg d) + others id)
                  (record b { store = ms }))
                refl refl (λ id. rw k (omega (arith, c id))) w;
          queues_unique = ok.queues_unique;
          acks_unique = ok.acks_unique;
          named = ok.named;
        },
      )

  -- The part of publish for a message that is not immediate.
  pub publish_plain-IsConsistent :
      IsNameList r
      → (d : Bool) × (is_durable msg ≡ done d)
        × (b' : Broker) × (publish_plain b r msg ≡ done (b', none))
        × IsConsistent others b'
        × ((n : GoString)
            → find n b'.queues ≡ (
                if contains n r
                then with_added (new_queue_message msg d) (find n b.queues)
                else find n b.queues))
  unfolding publish_plain
  publish_plain-IsConsistent named =
      let (d, durable) = is_durable_total msg has_header in
      let (ms, qms, e, has, c) = stored d durable in
      let (b', f, c', q) =
        enqueue_queues-IsConsistent others r qms (new_queue_message msg d) (record b { store = ms })
          unique named has c in
      (d, durable, b', rw (e, f) refl, c', q)

-- In a consistent broker, publishing to an open exchange a message that has a header and a new id,
-- is not immediate, and is routed to fewer than 2^32 queues, all with names, never panics and
-- leaves the broker consistent. Each queue that it is routed to has one queue message more, at its
-- back, unless it is closed or gone; no other queue changes. The message is returned with code 313
-- exactly if it is mandatory and routed to no queue.
pub publish-IsConsistent :
    (others : ℕ → ℕ) (b : Broker) (ex : Exchange) (msg : Message) (r : Map GoString Bool)
    → IsConsistent others b
    → msg.header ≢ none
    → find msg.id b.store.index ≡ none
    → ex.closed ≡ false
    → msg.method.immediate ≡ false
    → queues_for_publish ex msg.method ≡ done r
    → length r < 2 ^ 32
    → IsNameList r
    → (d : Bool) × (is_durable msg ≡ done d)
      × (b' : Broker) × (publish b ex msg
          ≡ done (
            b',
            if is_nil r && msg.method.mandatory then some (return_message msg 313) else none,
          ))
      × IsConsistent others b'
      × ((n : GoString)
          → find n b'.queues ≡ (
              if contains n r
              then with_added (new_queue_message msg d) (find n b.queues)
              else find n b.queues))
unfolding publish is_nil contains find
publish-IsConsistent others b ex msg [] ok h fresh o i e small named =
    let (d, durable) = is_durable_total msg h in
    elim (Bool-cases msg.method.mandatory) [
      | inl must ↦ (d, durable, b, ground (arith, e, o, must), ok, λ n. refl)
      | inr may ↦
          let (d', durable', b', f, c, q) =
            publish_plain-IsConsistent others b msg [] ok h fresh small tt named in
          (d', durable', b', ground (arith, e, o, i, may, f), c, q)
    ]
publish-IsConsistent others b ex msg (x ∷ r) ok h fresh o i e small named =
    let (d, durable, b', f, c, q) =
      publish_plain-IsConsistent others b msg (x ∷ r) ok h fresh small
        (queues_for_publish-IsUnique ex msg.method (x ∷ r) e) named in
    (d, durable, b', ground (arith, e, o, i, f), c, q)
