-- ===== src/Broker/Publish/Commit.antt =====
-- commitTx of server/channel.go keeps the invariant, if the queues of the transaction are there.
use dispatchd.Amqp.Types.{QueueMessage, TxMessage, TxAck}
use dispatchd.MsgStore.{Prepared, nothing_prepared, prepare, prepare_one, prepare_with, is_durable}
use dispatchd.MsgStore.Batch.{
  count_id, count_id-append, all_queued, has_id, prepare_total, nothing_prepared-IsCounted,
  refs_of-nothing_prepared,
}
use dispatchd.MsgStore.Refs.{IsBalanced-same}
use dispatchd.MsgStore.Adding.{add_tx_messages-IsBalanced}
use dispatchd.Channel.{rollback_tx}
use dispatchd.Parties.{the_channel}
use dispatchd.Broker.{Broker, ack_one, nack_one, tx_ack_message}
use dispatchd.Broker.Balance.{outstanding, IsConsistent, IsConsistent-same}
use dispatchd.Broker.Acks.{ack_one-Settles, nack_one-Settles, ack_below-Settles, nack_below-Settles}
use dispatchd.Broker.Publish.{commit_all, commit_queues, commit_acks, commit_tx}
use dispatchd.Broker.Publish.Enqueue.{add_or_drop-IsConsistent}
use dispatchd.Broker.Publish.Routed.{same_queued}
use dispatchd.Common.{
  All, Bool, Bool-cases, GoString, List, Map, Option-cases, Outcome-cases, [], arith, contains,
  contains-put, done, false, find, inl, inr, length, none, refl, str_beq_iff, true, ℕ, ◌+◌, ◌<◌,
  ◌==◌, ◌^◌, ◌||◌, ◌∙◌, ◌∷◌, ◌≡◌, ◌≢◌, nat_eq, str_eq, pair_eq,
}

unfoldable pub has_queue : GoString → List TxMessage → Bool
has_queue q [] = false
has_queue q (m ∷ ms) = m.queue_name == q || has_queue q ms

contains-prepare_with :
    (p : Prepared) (m : TxMessage) (d : Bool) (q : GoString)
    → contains q (prepare_with p m d).queue_messages
      ≡ (m.queue_name == q || contains q p.queue_messages)
unfolding prepare_with
contains-prepare_with p m d q = contains-put q m.queue_name _ p.queue_messages

contains-prepare :
    (p : Prepared) (ms : List TxMessage) (p' : Prepared) (q : GoString)
    → prepare p ms ≡ done p'
    → contains q p'.queue_messages ≡ (has_queue q ms || contains q p.queue_messages)
unfolding prepare prepare_one has_queue
contains-prepare p [] p' q e = ground arith
contains-prepare p (m ∷ ms) p' q e = elim (Outcome-cases (is_durable m.msg)) [
  | inr f ↦ absurd (ground (arith, e, f))
  | inl (d, f) ↦ ground (
    arith,
    contains-prepare (prepare_with p m d) ms p' q (ground (arith, e, f)),
    contains-prepare_with p m d q,
  )
]

commit_all-IsConsistent :
    (others : ℕ → ℕ) (name : GoString) (qms : List QueueMessage) (b : Broker)
    → name ≢ []
    → contains name b.queues ≡ true
    → IsConsistent (λ id. count_id id qms + others id) b
    → (b' : Broker) × (commit_all b name qms ≡ done b')
      × IsConsistent others b'
      × ((n : GoString) → contains n b'.queues ≡ contains n b.queues)
unfolding commit_all count_id
commit_all-IsConsistent others name [] b named there ok =
    (b, refl, IsConsistent-same (λ id. omega arith) ok, λ n. refl)
commit_all-IsConsistent others name (qm ∷ qms) b named there ok =
    elim (Option-cases (find name b.queues)) [
      | inl e ↦ absurd (unfold contains in ground (arith, e, there))
      | inr (q, e) ↦
          let (b1, e1, c1, k1, s1) =
            add_or_drop-IsConsistent (λ id. count_id id qms + others id) b name qm named
              (IsConsistent-same (λ id. omega arith) ok) (the_channel ∷ []) q e in
          let (b2, e2, c2, k2) =
            commit_all-IsConsistent others name qms b1 named (k1 name ∙ there) c1 in
          (b2, rw (e, commit_all, e1) e2, c2, λ n. k2 n ∙ k1 n)
    ]

commit_queues-IsConsistent :
    (others : ℕ → ℕ) (m : Map GoString (List QueueMessage)) (b : Broker)
    → ((n : GoString) → contains n m ≡ true → (n ≢ []) × (contains n b.queues ≡ true))
    → IsConsistent (λ id. count_id id (all_queued m) + others id) b
    → (b' : Broker) × (commit_queues m b ≡ done b') × IsConsistent others b'
unfolding commit_queues all_queued count_id
commit_queues-IsConsistent others [] b there ok =
    (b, refl, IsConsistent-same (λ id. omega arith) ok)
commit_queues-IsConsistent others ((name, qms) ∷ m) b there ok =
    let here : (name ≢ []) × (contains name b.queues ≡ true) =
      there name (unfold contains find in ground (arith, str_beq_iff name name)) in
    let (b1, e1, c1, k1) =
      commit_all-IsConsistent (λ id. count_id id (all_queued m) + others id) name qms b here.0
        here.1
        (IsConsistent-same (λ id. omega (arith, count_id-append id qms (all_queued m))) ok) in
    let (b2, e2, c2) =
      commit_queues-IsConsistent others m b1
        (λ n h. let t = there n (unfold contains find in ground (arith, h)) in (t.0, k1 n ∙ t.1))
        c1 in
    (b2, rw e1 e2, c2)

-- Each ack of a transaction is settled, or its tag is not awaited and nothing happens.
tx_ack_message-IsConsistent :
    (others : ℕ → ℕ) (b : Broker) (ack : TxAck)
    → IsConsistent others b
    → (b' : Broker) × (tx_ack_message b ack ≡ done b') × IsConsistent others b'
unfolding tx_ack_message
tx_ack_message-IsConsistent others b ack ok = elim (Bool-cases ack.multiple) [
  | inl all ↦ elim (Bool-cases ack.nack) [
    | inl nack ↦
        let (b', e, t) =
          nack_below-Settles others b ok ack.tag ack.requeue_nack true (ground arith) in
        (b', ground (arith, all, nack, e), t.0)
    | inr no_nack ↦
        let (b', e, t) = ack_below-Settles others b ok ack.tag true (ground arith) in
        (b', ground (arith, all, no_nack, e), t.0)
  ]
  | inr one ↦ elim (Option-cases (find ack.tag b.parties.channel.awaiting_acks)) [
    | inl f ↦ (b, unfold ack_one nack_one in ground (arith, one, f), ok)
    | inr (u, f) ↦
        let awaited : contains ack.tag b.parties.channel.awaiting_acks ≡ true =
          unfold contains in ground (arith, f) in
        elim (Bool-cases ack.nack) [
          | inl nack ↦
              let (b', e, t) =
                nack_one-Settles others b ok ack.tag ack.requeue_nack true (ground arith) awaited in
              (b', ground (arith, one, nack, e), t.0)
          | inr no_nack ↦
              let (b', e, t, q) = ack_one-Settles others b ok ack.tag true (ground arith) awaited in
              (b', ground (arith, one, no_nack, e), t.0)
        ]
  ]
]

commit_acks-IsConsistent :
    (others : ℕ → ℕ) (acks : List TxAck) (b : Broker)
    → IsConsistent others b
    → (b' : Broker) × (commit_acks acks b ≡ done b') × IsConsistent others b'
unfolding commit_acks
commit_acks-IsConsistent others [] b ok = (b, refl, ok)
commit_acks-IsConsistent others (ack ∷ acks) b ok =
    let (b1, e1, c1) = tx_ack_message-IsConsistent others b ack ok in
    let (b2, e2, c2) = commit_acks-IsConsistent others acks b1 c1 in (b2, rw e1 e2, c2)

pub commit_tx-IsConsistent :
    (others : ℕ → ℕ) (b : Broker)
    → IsConsistent others b
    → All (λ m. m.msg.header ≢ none) b.parties.channel.tx_messages
    → ((id : ℕ) → has_id id b.parties.channel.tx_messages ≡ true → find id b.store.index ≡ none)
    → length b.parties.channel.tx_messages < 2 ^ 32
    → ((q : GoString)
        → has_queue q b.parties.channel.tx_messages ≡ true
        → (q ≢ []) × (contains q b.queues ≡ true))
    → (b' : Broker) × (commit_tx b ≡ done b')
      × IsConsistent others b'
      × (b'.parties.channel.tx_messages ≡ [])
      × (b'.parties.channel.tx_acks ≡ [])
unfolding commit_tx rollback_tx
commit_tx-IsConsistent others b ok headers fresh small there =
    let txs = b.parties.channel.tx_messages in
    let (ms, qms, e, w, counts) =
      add_tx_messages-IsBalanced b.store (outstanding others b) txs ok.balanced headers fresh
        small in
    let (p, f, counted, k) =
      prepare_total 0 nothing_prepared txs headers nothing_prepared-IsCounted
        refs_of-nothing_prepared (omega arith) in
    let same : qms ≡ p.queue_messages = same_queued b.store ms txs qms p f e in
    let (b1, e1, c1) =
      commit_queues-IsConsistent others qms (record b { store = ms })
        (λ n h. there n (
          unfold contains find in
          ground (arith, rw same at h, contains-prepare nothing_prepared txs p n f)))
        (record {
          balanced =
              IsBalanced-same ms ms (λ id. count_id id (all_queued qms) + outstanding others b id)
                (outstanding (λ id. count_id id (all_queued qms) + others id)
                  (record b { store = ms }))
                refl refl (λ id. omega arith) w;
          queues_unique = ok.queues_unique;
          acks_unique = ok.acks_unique;
          named = ok.named;
        }) in
    let (b2, e2, c2) = commit_acks-IsConsistent others b.parties.channel.tx_acks b1 c1 in
    (
      record b2 { parties = record b2.parties { channel = rollback_tx b2.parties.channel } },
      rw (e, e1, e2) refl,
      record {
        balanced = c2.balanced;
        queues_unique = c2.queues_unique;
        acks_unique = c2.acks_unique;
        named = c2.named;
      },
      refl,
      refl,
    )
