-- ===== src/MsgStore/Adding.antt =====
-- AddTxMessages keeps the reference counts right.
use dispatchd.Amqp.Types.{IndexMessage, QueueMessage, TxMessage}
use dispatchd.MsgStore.{
  MessageStore, Prepared, nothing_prepared, remember, all_ops, add_tx_messages,
}
use dispatchd.MsgStore.Batch.{
  count_id, all_queued, refs_of, has_id, IsCounted, prepare_total, nothing_prepared-IsCounted,
  refs_of-nothing_prepared,
}
use dispatchd.MsgStore.Refs.{IdBalanced, IsBalanced}
use dispatchd.Common.{
  All, Bool-cases, GoString, List, Map, Option, Option-cases, [], arith, contains, contains-put,
  done, false, find, find-put, if◌then◌else◌, inl, inr, length, none, refl, some, true, ℕ, ◌+◌, ◌<◌,
  ◌^◌, ◌||◌, ◌∷◌, ◌≡◌, ◌≢◌, nat_eq, str_eq, pair_eq,
}

module _ (ims : Map ℕ IndexMessage) where
  remember_index :
      (txs : List TxMessage) (ms : MessageStore) (id : ℕ)
      → ((j : ℕ) → has_id j txs ≡ true → contains j ims ≡ true)
      → find id (remember ims txs ms).index
        ≡ (if has_id id txs then find id ims else find id ms.index)
  unfolding remember has_id contains
  remember_index [] ms id h = refl
  remember_index (m ∷ txs) ms id h = elim (Option-cases (find m.msg.id ims)) [
    | inl e ↦ absurd (ground (arith, h m.msg.id, e))
    | inr (im, e) ↦
        rw (remember_index txs _ id (λ j p. h j (ground (arith, p))))
          (ground (arith, e, find-put id m.msg.id im ms.index))
  ]

  remember_messages :
      (txs : List TxMessage) (ms : MessageStore) (id : ℕ)
      → contains id (remember ims txs ms).messages ≡ (has_id id txs || contains id ms.messages)
  unfolding remember has_id
  remember_messages [] ms id = refl
  remember_messages (m ∷ txs) ms id =
      rw (remember_messages txs _ id) (ground (arith, contains-put id m.msg.id m.msg ms.messages))

-- What a batch does to one id: to one of its own, and to any other.
module _ (ms : MessageStore) (outs : ℕ → ℕ) (txs : List TxMessage) (p : Prepared)
    (ops : Map (GoString × ℕ) QueueMessage) (counted : IsCounted p)
    (covered : (id : ℕ) → contains id p.index_messages ≡ has_id id txs) (id : ℕ) where
  abbrev grown : MessageStore
  grown = remember p.index_messages txs (record ms { add_ops = ops })

  abbrev grown_outs : ℕ → ℕ
  grown_outs j = count_id j (all_queued p.queue_messages) + outs j

  grown_index :
      find id grown.index ≡ (if has_id id txs then find id p.index_messages else find id ms.index)
  grown_index =
      remember_index p.index_messages txs (record ms { add_ops = ops }) id
        (λ j h. ground (arith, covered j))

  grown_messages : contains id grown.messages ≡ (has_id id txs || contains id ms.messages)
  grown_messages = remember_messages p.index_messages txs (record ms { add_ops = ops }) id

  grown_refs :
      refs_of id grown.index
      ≡ (if has_id id txs then count_id id (all_queued p.queue_messages) else refs_of id ms.index)
  unfolding refs_of
  grown_refs = elim (Bool-cases (has_id id txs)) [
    | inl h ↦ rw (refs_of, grown_index, h) (unfold refs_of in counted.refs id)
    | inr h ↦ rw (refs_of, grown_index, h) refl
  ]

  new_id :
      (im : IndexMessage)
      → find id p.index_messages ≡ some im
      → has_id id txs ≡ true
      → outs id ≡ 0
      → IdBalanced grown grown_outs id (find id grown.index)
  unfolding refs_of
  new_id im f h z =
      rw (grown_index, h, f)
        (ground (arith, h, f, grown_messages, counted.positive id im f, counted.refs id))

  old_id :
      (o : Option IndexMessage)
      → find id ms.index ≡ o
      → has_id id txs ≡ false
      → IdBalanced ms outs id o
      → IdBalanced grown grown_outs id (find id grown.index)
  unfolding refs_of contains
  old_id none f h b =
      rw (grown_index, h, f) (ground (arith, h, covered id, grown_messages, counted.refs id))
  old_id (some im) f h b =
      rw (grown_index, h, f) (ground (arith, h, covered id, grown_messages, counted.refs id))

  grown_id :
      (o : Option IndexMessage)
      → find id ms.index ≡ o
      → IdBalanced ms outs id o
      → (has_id id txs ≡ true → o ≡ none)
      → IdBalanced grown grown_outs id (find id grown.index)
  unfolding contains
  grown_id o f b fresh = elim (Bool-cases (has_id id txs)) [
    | inr h ↦ old_id o f h b
    | inl h ↦ elim (Option-cases (find id p.index_messages)) [
      | inl e ↦ absurd (ground (arith, covered id, h, e))
      | inr (im, e) ↦ let z : IdBalanced ms outs id none = rw (fresh h) at b in new_id im e h z.0
    ]
  ]

-- Adding a batch of fewer than 2^32 messages whose ids are new, each with its header, to a store
-- whose counts are right never panics; every queue message that comes back is outstanding after
-- it, and the counts are right for them too. Each message of the batch, durable or not, has as many
-- references as queue messages that come back, and no other message has more or fewer than before.
pub add_tx_messages-IsBalanced :
    (ms : MessageStore) (outs : ℕ → ℕ) (txs : List TxMessage)
    → IsBalanced ms outs
    → All (λ m. m.msg.header ≢ none) txs
    → ((id : ℕ) → has_id id txs ≡ true → find id ms.index ≡ none)
    → length txs < 2 ^ 32
    → (ms' : MessageStore) × (qms : Map GoString (List QueueMessage)) × (add_tx_messages ms txs
        ≡ done (ms', qms))
      × IsBalanced ms' (λ id. count_id id (all_queued qms) + outs id)
      × ((id : ℕ)
          → refs_of id ms'.index
            ≡ (if has_id id txs then count_id id (all_queued qms) else refs_of id ms.index))
unfolding add_tx_messages
add_tx_messages-IsBalanced ms outs txs b h fresh small =
    let (p, e, c, k) =
      prepare_total 0 nothing_prepared txs h nothing_prepared-IsCounted refs_of-nothing_prepared
        (omega arith) in
    let ops = if p.any_durable then all_ops p.queue_messages ms.add_ops else ms.add_ops in
    (
      remember p.index_messages txs (record ms { add_ops = ops }),
      p.queue_messages,
      rw e,
      record {
        at = λ id.
            grown_id ms outs txs p ops c (λ j. unfold find contains in ground (arith, k j)) id
              (find id ms.index) refl (b.at id) (fresh id);
      },
      λ id. grown_refs ms outs txs p ops c (λ j. unfold find contains in ground (arith, k j)) id,
    )
