-- ===== src/MsgStore/Persist/Saved.antt =====
-- What persistOnce writes of the index.
use dispatchd.Amqp.Types.{IndexMessage, QueueMessage}
use dispatchd.MsgStore.{MessageStore}
use dispatchd.MsgStore.Persist.{
  Database, Ops, without, clear_ops, persist_add, persist_adds, persist_delivered, persist_once,
}
use dispatchd.Common.{
  Bool, GoString, Option-cases, [], arith, contains, done, false, find, if◌then◌else◌, inl, inr,
  none, refl, some, ℕ, ◌&&◌, ◌==◌, ◌||◌, ◌∙◌, ◌∷◌, ◌≡◌, nat_eq, str_eq, pair_eq,
}

-- Some operation is about the message.
unfoldable pub mentions : ℕ → Ops → Bool
mentions id [] = false
mentions id (((q, j), qm) ∷ ops) = j == id || mentions id ops

-- The messages and the index have the same ids, and an index message stands under its id.
pub record IsPaired (ms : MessageStore) : Type 0 where
  pub same_ids : (id : ℕ) → contains id ms.messages ≡ contains id ms.index
  pub own_ids : (id : ℕ) (im : IndexMessage) → find id ms.index ≡ some im → im.id ≡ id

without_nothing : (ops : Ops) → without ops [] ≡ ops
unfolding without find
without_nothing [] = refl
without_nothing ((k, qm) ∷ ops) = ground (arith, without_nothing ops)

module _ {D : Type 0} (db : Database D) where
  open db use {
    put_message, put_index, get_index, put_queue_message, get-put_index, get-put_message,
    get-put_queue_message,
  }

  delivered_index :
      (id : ℕ) (ops : Ops) (d : D) → get_index id (persist_delivered db ops d) ≡ get_index id d
  unfolding persist_delivered
  delivered_index id [] d = refl
  delivered_index id (((q, j), qm) ∷ ops) d =
      delivered_index id ops (put_queue_message q qm d) ∙ get-put_queue_message id q qm d

  module _ (ms : MessageStore) (paired : IsPaired ms) where
    -- One addition.
    added :
        (j : ℕ) (q : GoString) (qm : QueueMessage) (d : D)
        → (d' : D) × (persist_add db (find j ms.messages) (find j ms.index) q qm d ≡ done d')
          × ((id : ℕ)
              → get_index id d'
                ≡ (if j == id && contains j ms.index then find j ms.index else get_index id d))
    unfolding persist_add contains
    added j q qm d = elim (Option-cases (find j ms.index)) [
      | inl absent ↦
          let none_too : find j ms.messages ≡ none = ground (arith, paired.same_ids j, absent) in
          (d, rw (none_too, absent) refl, λ id. ground (arith, absent))
      | inr (im, f) ↦ elim (Option-cases (find j ms.messages)) [
        | inl lost ↦ absurd (ground (arith, paired.same_ids j, f, lost))
        | inr (msg, g) ↦ (
          put_queue_message q qm (put_index im (put_message msg d)),
          rw (g, f) refl,
          λ id.
              get-put_queue_message id q qm (put_index im (put_message msg d))
              ∙ get-put_index id im (put_message msg d)
              ∙ ground (arith, f, paired.own_ids j im f, get-put_message id msg d),
        )
      ]
    ]

    adds_saved :
        (ops : Ops) (d : D)
        → (d' : D) × (persist_adds db ms ops d ≡ done d')
          × ((id : ℕ)
              → get_index id d' ≡ (
                  if mentions id ops && contains id ms.index
                  then find id ms.index
                  else get_index id d))
    unfolding persist_adds mentions
    adds_saved [] d = (d, refl, λ id. refl)
    adds_saved (((q, j), qm) ∷ ops) d =
        let (d1, e1, g1) = added j q qm d in
        let (d2, e2, g2) = adds_saved ops d1 in
        (d2, rw (e1, e2) refl, λ id. g2 id ∙ ground (arith, g1 id))

cleared-IsPaired : (ms : MessageStore) → IsPaired ms → IsPaired (clear_ops ms)
unfolding clear_ops
cleared-IsPaired ms p = record { same_ids = p.same_ids; own_ids = p.own_ids }

-- If the ids of the store are in order and no deletion is queued, persistOnce does not panic, leaves
-- the messages and the index in memory as they were with nothing queued any more, and saves the index
-- message of each message whose addition was queued and which is still there. Of every other message
-- it leaves what the database had in its index.
pub persist_once-saves :
    {D : Type 0} (db : Database D) (ms : MessageStore) (d : D)
    → IsPaired ms
    → ms.del_ops ≡ []
    → (d' : D) × (persist_once db ms d ≡ done (clear_ops ms, d'))
      × ((id : ℕ)
          → db.get_index id d' ≡ (
              if mentions id ms.add_ops && contains id ms.index
              then find id ms.index
              else db.get_index id d))
unfolding persist_once
persist_once-saves db ms d paired none_queued =
    let (d1, e, g) = adds_saved db (clear_ops ms) (cleared-IsPaired ms paired) ms.add_ops d in
    let adds : without ms.add_ops ms.del_ops ≡ ms.add_ops =
      rw none_queued (without_nothing ms.add_ops) in
    (
      persist_delivered db (without ms.delivered_ops ms.del_ops) d1,
      rw (persist_once, adds, e, none_queued) refl,
      λ id. delivered_index db id (without ms.delivered_ops ms.del_ops) d1 ∙ g id,
    )
