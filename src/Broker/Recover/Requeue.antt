-- ===== src/Broker/Recover/Requeue.antt =====
-- Recovering with requeue puts every unacked message back.
use dispatchd.Amqp.Types.{UnackedMessage}
use dispatchd.MsgStore.{incr_delivery_count}
use dispatchd.MsgStore.Batch.{count_id}
use dispatchd.MsgStore.Refs.{IsBalanced, IsBalanced-same}
use dispatchd.Queue.{Queue, readd}
use dispatchd.Broker.{Broker, requeue_one}
use dispatchd.Broker.Balance.{held_by_queue, held_unacked, IsConsistent}
use dispatchd.Broker.Recover.{recover_one, recover_all, clear_acks, recover}
use dispatchd.Common.{
  All, IsUnique, Map, Option-cases, [], arith, contains, contains-put, done, find, inl, inr,
  put-IsUnique, refl, some, total, total-put, true, ℕ, ◌+◌, ◌∷◌, ◌≡◌, nat_eq, str_eq, pair_eq,
}

-- Every unacked message's queue is there.
abbrev pub HasQueues : Broker → Map ℕ UnackedMessage → Type 0
HasQueues b = All (λ e. contains e.1.queue_name b.queues ≡ true)

-- What the queues hold and what is still to be put back is outstanding.
pub record IsRecovering (others : ℕ → ℕ) (rest : Map ℕ UnackedMessage) (b : Broker) : Type 0 where
  pub balanced :
      IsBalanced b.store
        (λ id. total (held_by_queue id) b.queues + total (held_unacked id) rest + others id)
  pub queues_unique : IsUnique b.queues

module _ (others : ℕ → ℕ) (b : Broker) (tag : ℕ) (u : UnackedMessage) (rest : Map ℕ UnackedMessage)
    (q : Queue) (has : find u.queue_name b.queues ≡ some q) where
  put_back_count :
      (id : ℕ)
      → held_by_queue id (readd b.store q u.queue_name u.msg).1
        ≡ held_unacked id u + held_by_queue id q
  unfolding readd incr_delivery_count count_id
  put_back_count id = refl

  requeue_one-IsRecovering :
      IsRecovering others ((tag, u) ∷ rest) b → IsRecovering others rest (requeue_one b u q)
  unfolding requeue_one
  requeue_one-IsRecovering i = record {
    balanced =
        IsBalanced-same b.store (readd b.store q u.queue_name u.msg).0
          (λ id.
            total (held_by_queue id) b.queues
            + total (held_unacked id) ((tag, u) ∷ rest)
            + others id)
          _ (unfold readd incr_delivery_count in ground arith)
          (unfold readd incr_delivery_count in ground arith)
          (λ id.
            unfold total in
            ground (
              arith,
              has,
              total-put (held_by_queue id) u.queue_name (readd b.store q u.queue_name u.msg).1
                  b.queues i.queues_unique,
              put_back_count id,
            ))
          i.balanced;
    queues_unique =
        put-IsUnique u.queue_name (readd b.store q u.queue_name u.msg).1 b.queues i.queues_unique;
  }

  still_there : (r : Map ℕ UnackedMessage) → HasQueues b r → HasQueues (requeue_one b u q) r
  unfolding requeue_one
  still_there [] h = tt
  still_there ((k, v) ∷ r) h = (
    ground (
      arith,
      h.0,
      contains-put v.queue_name u.queue_name (readd b.store q u.queue_name u.msg).1 b.queues,
    ),
    still_there r h.1,
  )

recover_all-IsRecovering :
    (others : ℕ → ℕ) (rest : Map ℕ UnackedMessage) (b : Broker)
    → HasQueues b rest
    → IsRecovering others rest b
    → IsRecovering others [] (recover_all rest b)
unfolding recover_all recover_one contains
recover_all-IsRecovering others [] b h i = i
recover_all-IsRecovering others ((tag, u) ∷ rest) b h i =
    elim (Option-cases (find u.queue_name b.queues)) [
      | inl e ↦ absurd (ground (arith, e, h.0))
      | inr (q, e) ↦
          rw (recover_one, e)
            (recover_all-IsRecovering others rest (requeue_one b u q)
              (still_there others b tag u rest q e rest h.1)
              (requeue_one-IsRecovering others b tag u rest q e i))
    ]

-- In a consistent broker where the queues of all unacked messages are there, recovering with requeue
-- leaves nothing unacked on the channel and the broker consistent.
pub recover-IsConsistent :
    (others : ℕ → ℕ) (b : Broker)
    → IsConsistent others b
    → HasQueues b b.parties.channel.awaiting_acks
    → (b' : Broker) × (recover b true ≡ done b')
      × IsConsistent others b'
      × (b'.parties.channel.awaiting_acks ≡ [])
unfolding recover clear_acks total
recover-IsConsistent others b ok h =
    let i =
      recover_all-IsRecovering others b.parties.channel.awaiting_acks b h
        (record { balanced = ok.balanced; queues_unique = ok.queues_unique }) in
    (
      clear_acks (recover_all b.parties.channel.awaiting_acks b),
      refl,
      record {
        balanced = i.balanced;
        queues_unique = i.queues_unique;
        acks_unique = tt;
        named = tt;
      },
      refl,
    )
