-- ===== src/MsgStore/Persist/Lost.antt =====
-- Deletions that persistOnce does not carry out.
use dispatchd.Amqp.Types.{IndexMessage, QueueMessage}
use dispatchd.Limits.Holders.{Holders}
use dispatchd.MsgStore.{MessageStore, remove_ref, drop_ref}
use dispatchd.MsgStore.Persist.{
  Database, Ops, without, clear_ops, persist_adds, persist_dels, persist_once,
}
use dispatchd.Common.{
  Bool-cases, GoString, List, Outcome-cases, [], arith, contains, done, find, inl, inr, put, refl,
  remove, some, true, ℕ, ◌==◌, ◌∷◌, ◌≡◌, nat_eq, str_eq, pair_eq,
}

memory_kept :
    {D : Type 0} (db : Database D) (ms ms' : MessageStore) (d d' : D)
    → without ms.del_ops ms.add_ops ≡ []
    → persist_once db ms d ≡ done (ms', d')
    → ms' ≡ clear_ops ms
unfolding persist_once
memory_kept db ms ms' d d' e h =
    elim (Outcome-cases (persist_adds db (clear_ops ms) (without ms.add_ops ms.del_ops) d)) [
      | inl (d1, f) ↦ ground (arith, e, h, f)
      | inr crash ↦ absurd (ground (arith, h, crash))
    ]

cancelled :
    (k : GoString × ℕ) (qm : QueueMessage) (adds : Ops)
    → contains k adds ≡ true
    → without ((k, qm) ∷ []) adds ≡ []
unfolding without
cancelled k qm adds h = ground (arith, h)

module _ {H R : Type 0} (holders : Holders H R) where
  drops :
      (ms ms1 : MessageStore) (qm : QueueMessage) (q : GoString) (im : IndexMessage) (rhs : List R)
      (h h1 : H)
      → find qm.id ms.index ≡ some im
      → im.id ≡ qm.id
      → im.durable ≡ true
      → ms.del_ops ≡ []
      → remove_ref holders ms qm q rhs h ≡ done (ms1, h1)
      → ms1 ≡ record ms { del_ops = ((q, qm.id), qm) ∷ [] }
  unfolding remove_ref drop_ref put remove
  drops ms ms1 qm q im rhs h h1 f own durable none_queued r = elim (Bool-cases (q == [])) [
    | inl nameless ↦ absurd (ground (arith, f, nameless, r))
    | inr named ↦ ground (arith, f, named, r, own, durable, none_queued)
  ]

  -- When a queue's reference to a durable message is removed before the addition of the message to
  -- that queue has been written, the two operations cancel out, and the next persistOnce forgets both:
  -- the messages and their references stay in memory as they were, with nothing queued that would
  -- remove them. (No other deletion is queued.)
  pub acked_early_stays :
      {D : Type 0} (db : Database D) (ms ms1 ms2 : MessageStore) (qm : QueueMessage) (q : GoString)
      (im : IndexMessage) (rhs : List R) (h h1 : H) (d d2 : D)
      → find qm.id ms.index ≡ some im
      → im.id ≡ qm.id
      → im.durable ≡ true
      → contains (q, qm.id) ms.add_ops ≡ true
      → ms.del_ops ≡ []
      → remove_ref holders ms qm q rhs h ≡ done (ms1, h1)
      → persist_once db ms1 d ≡ done (ms2, d2)
      → (ms2.messages ≡ ms.messages)
        × (ms2.index ≡ ms.index)
        × (ms2.add_ops ≡ [])
        × (ms2.del_ops ≡ [])
        × (ms2.delivered_ops ≡ [])
  unfolding clear_ops
  acked_early_stays db ms ms1 ms2 qm q im rhs h h1 d d2 f own durable queued none_queued r p =
      let queued_one = drops ms ms1 qm q im rhs h h1 f own durable none_queued r in
      let none_left : without ms1.del_ops ms1.add_ops ≡ [] =
        rw queued_one (cancelled (q, qm.id) qm ms.add_ops queued) in
      let same = memory_kept db ms1 ms2 d d2 none_left p in
      rw (same, queued_one) (refl, refl, refl, refl, refl)

-- The first deletion of a batch after which a message has no reference left is the last that is
-- carried out, whatever follows it in the batch.
pub persist_dels-stops :
    {D : Type 0} (db : Database D) (ms : MessageStore) (q : GoString) (id : ℕ) (qm : QueueMessage)
    (ops : Ops) (d : D) (im : IndexMessage)
    → db.get_index qm.id (db.delete_queue_message q qm.id d) ≡ some im
    → im.refs ≡ 1
    → persist_dels db ms (((q, id), qm) ∷ ops) d
      ≡ done (
        record ms { index = remove qm.id ms.index; messages = remove qm.id ms.messages },
        db.delete_message qm.id (db.delete_index qm.id (db.delete_queue_message q qm.id d)),
      )
unfolding persist_dels
persist_dels-stops db ms q id qm ops d im f one = ground (arith, f, one)
