-- ===== src/Broker/Settling.antt =====
-- Settling one unacked message, by an ack or a nack, keeps the invariant of the broker.
use dispatchd.Amqp.Types.{UnackedMessage}
use dispatchd.MsgStore.{MessageStore, remove_ref, release_all, incr_delivery_count}
use dispatchd.MsgStore.Batch.{count_id}
use dispatchd.MsgStore.Refs.{one_more, IsBalanced, IsBalanced-same, remove_ref-IsBalanced}
use dispatchd.Parties.{Parties, parties}
use dispatchd.Queue.{Queue, readd}
use dispatchd.Broker.{
  Broker, holders_of, forget, ping_found, settle_ack, requeue_one, drop_one, requeue_or_drop,
  settle_nack,
}
use dispatchd.Broker.Balance.{
  held_by_queue, held_unacked, outstanding, IsConsistent, SameDeliveries,
  release_all-SameDeliveries, ping_found-SameDeliveries, All-remove, find-IsNamed,
}
use dispatchd.Common.{
  Bool, Bool-cases, GoString, IsUnique, Map, Option, Option-cases, ap, arith, done, find,
  if◌then◌else◌, inl, inr, none, put, put-IsUnique, refl, remove, remove-IsUnique, some, total,
  total-put, total-remove, true, ℕ, ◌%◌, ◌+◌, ◌^◌, ◌∙◌, ◌∷◌, ◌≡◌, nat_eq, str_eq, pair_eq,
}

finished :
    (tag : ℕ) (u : UnackedMessage) (h h' : Parties)
    → SameDeliveries h h'
    → (ping_found u (forget tag h')).channel.awaiting_acks ≡ remove tag h.channel.awaiting_acks
finished tag u h h' s =
    (ping_found-SameDeliveries u (forget tag h')).awaiting
    ∙ unfold forget in ap (remove tag) s.awaiting

-- The queues after a nack.
abbrev pub nacked_queues : Broker → UnackedMessage → Bool → Option Queue → Map GoString Queue
nacked_queues b u requeue none = b.queues
nacked_queues b u requeue (some q) =
    if requeue
    then put u.queue_name
        (record q {
          queue = record u.msg { delivery_count = (u.msg.delivery_count + 1) % 2 ^ 32 } ∷ q.queue;
          maybe_ready = true;
        })
        b.queues
    else b.queues

-- What is left of the broker's outstanding messages when one delivery is taken off.
abbrev without : (ℕ → ℕ) → Broker → ℕ → ℕ → ℕ
without others b tag id =
    total (held_by_queue id) b.queues
    + total (held_unacked id) (remove tag b.parties.channel.awaiting_acks)
    + others id

module _ (others : ℕ → ℕ) (b : Broker) (tag : ℕ) (u : UnackedMessage)
    (found : find tag b.parties.channel.awaiting_acks ≡ some u) (ok : IsConsistent others b) where
  IsBalanced-before : IsBalanced b.store (one_more u.msg (without others b tag))
  IsBalanced-before =
      IsBalanced-same b.store b.store (outstanding others b) (one_more u.msg (without others b tag))
        refl refl
        (λ id. ground (
          arith,
          found,
          total-remove (held_unacked id) tag b.parties.channel.awaiting_acks ok.acks_unique,
        ))
        ok.balanced

  -- A broker that has let the delivery go, with a store that is balanced for it.
  let_go :
      (store' : MessageStore) (queues' : Map GoString Queue) (h' : Parties)
      → SameDeliveries b.parties h'
      → IsUnique queues'
      → IsBalanced store' (λ id.
        total (held_by_queue id) queues'
        + total (held_unacked id) (remove tag b.parties.channel.awaiting_acks)
        + others id)
      → IsConsistent others
          (record b { store = store'; queues = queues'; parties = ping_found u (forget tag h') })
  let_go store' queues' h' s q w = record {
    balanced = rw (finished tag u b.parties h' s) w;
    queues_unique = q;
    acks_unique =
        rw (finished tag u b.parties h' s)
          (remove-IsUnique tag b.parties.channel.awaiting_acks ok.acks_unique);
    named =
        rw (finished tag u b.parties h' s)
          (All-remove tag b.parties.channel.awaiting_acks ok.named);
  }

  abbrev released_by : Parties
  released_by = release_all parties (holders_of b.parties.channel u) u.msg b.parties

  released_same : SameDeliveries b.parties released_by
  released_same = release_all-SameDeliveries (holders_of b.parties.channel u) u.msg b.parties

  dropped :
      (store' : MessageStore) × (remove_ref parties b.store u.msg u.queue_name
          (holders_of b.parties.channel u)
          b.parties
        ≡ done (store', released_by))
      × IsBalanced store' (without others b tag)
  dropped =
      remove_ref-IsBalanced parties b.store u.msg (without others b tag) u.queue_name
        (holders_of b.parties.channel u) b.parties IsBalanced-before
        (find-IsNamed tag u b.parties.channel.awaiting_acks ok.named found)

  -- An ack of an unacked message never panics: the message is unacked no more, the queues are as
  -- they were, and the store still counts exactly what is outstanding.
  pub settle_ack-IsConsistent :
      (b' : Broker) × (settle_ack b tag u ≡ done b')
      × IsConsistent others b'
      × (b'.parties.channel.awaiting_acks ≡ remove tag b.parties.channel.awaiting_acks)
      × (b'.queues ≡ b.queues)
  unfolding settle_ack
  settle_ack-IsConsistent =
      let (store', e, w) = dropped in
      (
        record b { store = store'; parties = ping_found u (forget tag released_by) },
        rw e,
        let_go store' b.queues released_by released_same ok.queues_unique w,
        finished tag u b.parties released_by released_same,
        refl,
      )

  module _ (q : Queue) (has : find u.queue_name b.queues ≡ some q) where
    abbrev requeued : Queue
    requeued = (readd b.store q u.queue_name u.msg).1

    requeued_count : (id : ℕ) → held_by_queue id requeued ≡ held_unacked id u + held_by_queue id q
    unfolding readd incr_delivery_count count_id
    requeued_count id = refl

    requeued-IsBalanced : IsBalanced (readd b.store q u.queue_name u.msg).0 (λ id.
        total (held_by_queue id) (put u.queue_name requeued b.queues)
        + total (held_unacked id) (remove tag b.parties.channel.awaiting_acks)
        + others id)
    requeued-IsBalanced =
        IsBalanced-same b.store _ (one_more u.msg (without others b tag)) _
          (unfold readd incr_delivery_count in ground arith)
          (unfold readd incr_delivery_count in ground arith)
          (λ id. ground (
            arith,
            has,
            total-put (held_by_queue id) u.queue_name requeued b.queues ok.queues_unique,
            requeued_count id,
          ))
          IsBalanced-before

  -- So too for a nack. It puts the message back at the front of its queue, with one delivery more,
  -- if that is asked for and the queue is there, and otherwise leaves the queues as they were.
  pub settle_nack-IsConsistent :
      (requeue : Bool)
      → (b' : Broker) × (settle_nack b tag u requeue ≡ done b')
        × IsConsistent others b'
        × (b'.parties.channel.awaiting_acks ≡ remove tag b.parties.channel.awaiting_acks)
        × (b'.queues ≡ nacked_queues b u requeue (find u.queue_name b.queues))
  unfolding settle_nack
  settle_nack-IsConsistent requeue = elim (Option-cases (find u.queue_name b.queues)) [
    | inl e ↦
        let (store', d, w) = dropped in
        (
          record b { store = store'; parties = ping_found u (forget tag released_by) },
          rw (e, requeue_or_drop, drop_one, d),
          let_go store' b.queues released_by released_same ok.queues_unique w,
          finished tag u b.parties released_by released_same,
          rw e,
        )
    | inr (q, e) ↦ elim (Bool-cases requeue) [
      | inr no_requeue ↦
          let (store', d, w) = dropped in
          (
            record b { store = store'; parties = ping_found u (forget tag released_by) },
            rw (e, requeue_or_drop, no_requeue, drop_one, d),
            let_go store' b.queues released_by released_same ok.queues_unique w,
            finished tag u b.parties released_by released_same,
            rw (e, no_requeue),
          )
      | inl again ↦ (
        record b {
          store = (readd b.store q u.queue_name u.msg).0;
          queues = put u.queue_name (requeued q e) b.queues;
          parties = ping_found u (forget tag released_by);
        },
        rw (e, requeue_or_drop, again, requeue_one),
        let_go (readd b.store q u.queue_name u.msg).0 (put u.queue_name (requeued q e) b.queues)
            released_by released_same
            (put-IsUnique u.queue_name (requeued q e) b.queues ok.queues_unique)
            (requeued-IsBalanced q e),
        finished tag u b.parties released_by released_same,
        rw (e, again) (unfold readd incr_delivery_count in refl),
      )
    ]
  ]
