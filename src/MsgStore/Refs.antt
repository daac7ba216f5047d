-- ===== src/MsgStore/Refs.antt =====
-- The reference counts of the messages in memory are the numbers of queue messages outstanding.
use mathlib.Core.Path.{subst}
use dispatchd.Amqp.Types.{IndexMessage, QueueMessage}
use dispatchd.Limits.Holders.{Holders}
use dispatchd.MsgStore.{MessageStore, drop_ref, remove_ref, release_all}
use dispatchd.MsgStore.Batch.{count_id}
use dispatchd.Common.{
  Bool-cases, GoString, List, Option, Option-cases, [], arith, contains, contains-remove, done,
  false, find, find-put, find-remove, if◌then◌else◌, inl, inr, nat_beq_iff, none, refl, some,
  str_beq_iff, true, ℕ, ◌%◌, ◌+◌, ◌-◌, ◌<◌, ◌==◌, ◌^◌, ◌≡◌, ◌≢◌, nat_eq, str_eq, pair_eq,
}

abbrev pub one_more : QueueMessage → (ℕ → ℕ) → ℕ → ℕ
one_more qm outs id = (if qm.id == id then 1 else 0) + outs id

-- `outs` counts, for each id, the queue messages that some queue or some channel still holds. An id in the index has
-- its message, and at least one reference; a message that is not durable has as many references as
-- it has queue messages outstanding. An id that is not in the index has none.
abbrev pub IdBalanced : MessageStore → (ℕ → ℕ) → ℕ → Option IndexMessage → Type 0
IdBalanced ms outs id none = (outs id ≡ 0) × (contains id ms.messages ≡ false)
IdBalanced ms outs id (some im) =
    (contains id ms.messages ≡ true)
    × (im.id ≡ id)
    × (0 < im.refs)
    × (im.refs < 2 ^ 32)
    × (im.durable ≡ false → im.refs ≡ outs id)

pub record IsBalanced (ms : MessageStore) (outs : ℕ → ℕ) : Type 0 where
  pub at : (id : ℕ) → IdBalanced ms outs id (find id ms.index)

same_id :
    (ms ms' : MessageStore) (outs outs' : ℕ → ℕ)
    → ms'.messages ≡ ms.messages
    → (id : ℕ) → outs' id ≡ outs id
    → (o : Option IndexMessage) → IdBalanced ms outs id o
    → IdBalanced ms' outs' id o
same_id ms ms' outs outs' m id e none b = rw (m, e) b
same_id ms ms' outs outs' m id e (some im) b = rw (m, e) b

-- Only the index, the messages and the counts matter.
pub IsBalanced-same :
    (ms ms' : MessageStore) (outs outs' : ℕ → ℕ)
    → ms'.index ≡ ms.index
    → ms'.messages ≡ ms.messages
    → ((id : ℕ) → outs' id ≡ outs id)
    → IsBalanced ms outs
    → IsBalanced ms' outs'
IsBalanced-same ms ms' outs outs' i m o b = record {
  at = λ id. rw i (same_id ms ms' outs outs' m id (o id) (find id ms.index) (b.at id));
}

indexed :
    (ms : MessageStore) (qm : QueueMessage) (outs : ℕ → ℕ) (o : Option IndexMessage)
    → IdBalanced ms (one_more qm outs) qm.id o
    → o ≢ none
unfolding count_id
indexed ms qm outs none b e = ground arith
indexed ms qm outs (some im) b e = cc

-- What a reference less does to one id.
module _ (ms : MessageStore) (qm : QueueMessage) (outs : ℕ → ℕ) (q : GoString) (im : IndexMessage)
    (found : find qm.id ms.index ≡ some im)
    (own : IdBalanced ms (one_more qm outs) qm.id (some im)) where
  other_id :
      (id : ℕ) (o : Option IndexMessage)
      → find id ms.index ≡ o
      → (qm.id == id) ≡ false
      → IdBalanced ms (one_more qm outs) id o
      → (find id (drop_ref ms qm q im).index ≡ o) × IdBalanced (drop_ref ms qm q im) outs id o
  unfolding drop_ref count_id
  other_id id none f h b = ground (
    arith,
    find-remove id qm.id ms.index,
    contains-remove id qm.id ms.messages,
    find-put id qm.id (record im { refs = (im.refs + 2 ^ 32 - 1) % 2 ^ 32 }) ms.index,
  )
  other_id id (some x) f h b = ground (
    arith,
    find-remove id qm.id ms.index,
    contains-remove id qm.id ms.messages,
    find-put id qm.id (record im { refs = (im.refs + 2 ^ 32 - 1) % 2 ^ 32 }) ms.index,
  )

  own_id :
      (o : Option IndexMessage)
      → find qm.id (drop_ref ms qm q im).index ≡ o
      → IdBalanced (drop_ref ms qm q im) outs qm.id o
  unfolding drop_ref count_id
  own_id none f = ground (
    arith,
    find-remove qm.id qm.id ms.index,
    contains-remove qm.id qm.id ms.messages,
    find-put qm.id qm.id (record im { refs = (im.refs + 2 ^ 32 - 1) % 2 ^ 32 }) ms.index,
  )
  own_id (some x) f = ground (
    arith,
    find-remove qm.id qm.id ms.index,
    contains-remove qm.id qm.id ms.messages,
    find-put qm.id qm.id (record im { refs = (im.refs + 2 ^ 32 - 1) % 2 ^ 32 }) ms.index,
  )

  drop_id :
      (id : ℕ)
      → IdBalanced ms (one_more qm outs) id (find id ms.index)
      → IdBalanced (drop_ref ms qm q im) outs id (find id (drop_ref ms qm q im).index)
  drop_id id b = elim (Bool-cases (qm.id == id)) [
    | inl same ↦
        subst (λ j. IdBalanced (drop_ref ms qm q im) outs j (find j (drop_ref ms qm q im).index))
          ((nat_beq_iff qm.id id).0 same) (own_id (find qm.id (drop_ref ms qm q im).index) refl)
    | inr other ↦ let (e, c) = other_id id (find id ms.index) refl other b in rw e c
  ]

module _ {H R : Type 0} (holders : Holders H R) where
  -- In a store whose counts are right, removing the reference of an outstanding queue message,
  -- under a name that is not empty, never panics and releases the holders; the message is
  -- outstanding no more, and the counts are right for the rest.
  pub remove_ref-IsBalanced :
      (ms : MessageStore) (qm : QueueMessage) (outs : ℕ → ℕ) (q : GoString) (rhs : List R) (h : H)
      → IsBalanced ms (one_more qm outs)
      → q ≢ []
      → (ms' : MessageStore) × (remove_ref holders ms qm q rhs h
          ≡ done (ms', release_all holders rhs qm h))
        × IsBalanced ms' outs
  unfolding remove_ref
  remove_ref-IsBalanced ms qm outs q rhs h b n = elim (Option-cases (find qm.id ms.index)) [
    | inl e ↦ absurd (indexed ms qm outs (find qm.id ms.index) (b.at qm.id) e)
    | inr (im, e) ↦ (
      drop_ref ms qm q im,
      rw (e, remove_ref) (ground (arith, str_beq_iff q [])),
      record { at = λ id. drop_id ms qm outs q im e (rw e at (b.at qm.id)) id (b.at id) },
    )
  ]
