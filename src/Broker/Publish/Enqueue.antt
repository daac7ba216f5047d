-- ===== src/Broker/Publish/Enqueue.antt =====
-- Putting queue messages at the backs of their queues keeps the invariant: what was in flight is in a
-- queue, or its reference is gone.
use dispatchd.Amqp.Types.{QueueMessage}
use dispatchd.MsgStore.{release_all}
use dispatchd.MsgStore.Batch.{count_id, count_id-append}
use dispatchd.MsgStore.Refs.{one_more, IsBalanced-same, remove_ref-IsBalanced}
use dispatchd.Parties.{Party, parties}
use dispatchd.Queue
use dispatchd.Queue.{Queue}
use dispatchd.Broker.{Broker}
use dispatchd.Broker.Balance.{
  held_by_queue, outstanding, IsConsistent, IsConsistent-same, SameDeliveries, SameDeliveries-refl,
  release_all-SameDeliveries,
}
use dispatchd.Broker.Publish.{drop_queued, add_or_drop, enqueue_one, enqueue_all, enqueue_queues}
use dispatchd.Common.{
  All, Bool, Bool-cases, GoString, IsUnique, List, Map, Option, Option-cases, [], arith, contains,
  done, false, find, find-put, if◌then◌else◌, inl, inr, none, put, put-IsUnique, refl, some,
  str_beq_iff, total-put, true, ℕ, ◌+◌, ◌==◌, ◌∙◌, ◌∷◌, ◌≡◌, ◌≢◌, nat_eq, str_eq, pair_eq,
}

-- What a queue is after a message was added: a closed one is as it was.
abbrev pub with_added : QueueMessage → Option Queue → Option Queue
with_added qm none = none
with_added qm (some q) = some (Queue.add q qm).0

module _ (others : ℕ → ℕ) (b : Broker) (name : GoString) (qm : QueueMessage) (named : name ≢ [])
    (ok : IsConsistent (one_more qm others) b) where
  dropped_here :
      (rhs : List Party)
      → (b' : Broker) × (drop_queued rhs b name qm ≡ done b')
        × IsConsistent others b'
        × (b'.queues ≡ b.queues)
        × SameDeliveries b.parties b'.parties
  unfolding drop_queued
  dropped_here rhs =
      let (store', e, w) =
        remove_ref-IsBalanced parties b.store qm (outstanding others b) name rhs b.parties
          (IsBalanced-same b.store b.store (outstanding (one_more qm others) b)
            (one_more qm (outstanding others b)) refl refl (λ id. omega arith) ok.balanced)
          named in
      let s = release_all-SameDeliveries rhs qm b.parties in
      (
        record b { store = store'; parties = release_all parties rhs qm b.parties },
        rw e refl,
        record {
          balanced = rw s.awaiting w;
          queues_unique = ok.queues_unique;
          acks_unique = rw s.awaiting ok.acks_unique;
          named = rw s.awaiting ok.named;
        },
        refl,
        s,
      )

  added_count :
      (q : Queue) (id : ℕ)
      → q.closed ≡ false
      → held_by_queue id (Queue.add q qm).0 ≡ held_by_queue id q + (if qm.id == id then 1 else 0)
  unfolding Queue.add count_id
  added_count q id o = ground (arith, o, count_id-append id q.queue (qm ∷ []))

  added_here :
      (q : Queue)
      → find name b.queues ≡ some q
      → q.closed ≡ false
      → IsConsistent others (record b { queues = put name (Queue.add q qm).0 b.queues })
  added_here q f o = record {
    balanced =
        IsBalanced-same b.store b.store (outstanding (one_more qm others) b)
          (outstanding others (record b { queues = put name (Queue.add q qm).0 b.queues })) refl
          refl
          (λ id. ground (
            arith,
            f,
            total-put (held_by_queue id) name (Queue.add q qm).0 b.queues ok.queues_unique,
            added_count q id o,
          ))
          ok.balanced;
    queues_unique = put-IsUnique name (Queue.add q qm).0 b.queues ok.queues_unique;
    acks_unique = ok.acks_unique;
    named = ok.named;
  }

  -- One queue message on its way is added to its queue, or its reference is removed; no other queue
  -- changes.
  pub enqueue_one-IsConsistent :
      (b' : Broker) × (enqueue_one b name qm ≡ done b')
      × IsConsistent others b'
      × ((n : GoString)
          → find n b'.queues
            ≡ (if name == n then with_added qm (find n b.queues) else find n b.queues))
  unfolding enqueue_one add_or_drop Queue.add
  enqueue_one-IsConsistent = elim (Option-cases (find name b.queues)) [
    | inl e ↦
        let (b', d, c, s, t) = dropped_here [] in
        (b', rw (e, enqueue_one) d, c, λ n. rw s (ground (arith, e, str_beq_iff name n)))
    | inr (q, e) ↦ elim (Bool-cases q.closed) [
      | inl shut ↦
          let (b', d, c, s, t) = dropped_here [] in
          (
            b',
            rw (e, enqueue_one, add_or_drop, shut) d,
            c,
            λ n. rw s (ground (arith, e, shut, str_beq_iff name n)),
          )
      | inr o ↦ (
        record b { queues = put name (Queue.add q qm).0 b.queues },
        rw (e, enqueue_one, add_or_drop, o) refl,
        added_here q e o,
        λ n. ground (arith, e, o, find-put n name (Queue.add q qm).0 b.queues, str_beq_iff name n),
      )
    ]
  ]

  -- So too in the commit of a transaction, which finds the queue first.
  pub add_or_drop-IsConsistent :
      (rhs : List Party) (q : Queue)
      → find name b.queues ≡ some q
      → (b' : Broker) × (add_or_drop rhs b name q qm ≡ done b')
        × IsConsistent others b'
        × ((n : GoString) → contains n b'.queues ≡ contains n b.queues)
        × SameDeliveries b.parties b'.parties
  unfolding add_or_drop Queue.add contains
  add_or_drop-IsConsistent rhs q e = elim (Bool-cases q.closed) [
    | inl shut ↦
        let (b', d, c, s, t) = dropped_here rhs in
        (b', rw (shut, add_or_drop) d, c, λ n. rw s refl, t)
    | inr o ↦ (
      record b { queues = put name (Queue.add q qm).0 b.queues },
      rw (o, add_or_drop) refl,
      added_here q e o,
      λ n. ground (arith, e, find-put n name (Queue.add q qm).0 b.queues, str_beq_iff name n),
      SameDeliveries-refl b.parties,
    )
  ]

-- The queue messages in flight, at the queues of a list.
unfoldable pub in_flight : ℕ → Map GoString Bool → QueueMessage → ℕ
in_flight id [] qm = 0
in_flight id ((name, _) ∷ rest) qm = (if qm.id == id then 1 else 0) + in_flight id rest qm

abbrev pub IsNameList : Map GoString Bool → Type 0
IsNameList = All (λ q. q.0 ≢ [])

one_queued :
    (name : GoString) (t : Bool) (r : Map GoString Bool) (qms : Map GoString (List QueueMessage))
    (qm : QueueMessage) (b b1 : Broker)
    → find name qms ≡ some (qm ∷ [])
    → enqueue_one b name qm ≡ done b1
    → enqueue_queues ((name, t) ∷ r) qms b ≡ enqueue_queues r qms b1
unfolding enqueue_queues enqueue_all
one_queued name t r qms qm b b1 f e = rw (enqueue_queues, f, e) refl

-- So does the loop over the queues of a message, each of which is to get the same queue message.
pub enqueue_queues-IsConsistent :
    (others : ℕ → ℕ) (r : Map GoString Bool) (qms : Map GoString (List QueueMessage))
    (qm : QueueMessage) (b : Broker)
    → IsUnique r
    → IsNameList r
    → ((name : GoString) → contains name r ≡ true → find name qms ≡ some (qm ∷ []))
    → IsConsistent (λ id. in_flight id r qm + others id) b
    → (b' : Broker) × (enqueue_queues r qms b ≡ done b')
      × IsConsistent others b'
      × ((n : GoString)
          → find n b'.queues
            ≡ (if contains n r then with_added qm (find n b.queues) else find n b.queues))
unfolding enqueue_queues enqueue_all in_flight contains find
enqueue_queues-IsConsistent others [] qms qm b u named has ok =
    (b, refl, IsConsistent-same (λ id. omega arith) ok, λ n. refl)
enqueue_queues-IsConsistent others ((name, t) ∷ r) qms qm b u named has ok =
    let (b1, e1, c1, f1) =
      enqueue_one-IsConsistent (λ id. in_flight id r qm + others id) b name qm named.0
        (IsConsistent-same (λ id. omega arith) ok) in
    let (b2, e2, c2, f2) =
      enqueue_queues-IsConsistent others r qms qm b1 u.1 named.1 (λ n h. has n (ground (arith, h)))
        c1 in
    (
      b2,
      one_queued name t r qms qm b b1 (has name (ground (arith, str_beq_iff name name))) e1 ∙ e2,
      c2,
      λ n. ground (arith, f1 n, f2 n, u.0, str_beq_iff name n),
    )
