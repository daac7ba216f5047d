-- ===== src/Broker/Consume/Delivery.antt =====
-- Delivering from a queue keeps the invariant of the broker.
use dispatchd.Amqp.Types.{QueueMessage, Message}
use dispatchd.MsgStore.Acquire.{AllTake, none_left, takes}
use dispatchd.MsgStore.Batch.{count_id}
use dispatchd.MsgStore.Refs.{IdBalanced, IsBalanced-same}
use dispatchd.Consumer.{took}
use dispatchd.Parties.{Party, Parties, the_channel, consumer, parties, acquire, IsInRange}
use dispatchd.Queue.{Queue, get_one}
use dispatchd.Queue.Order.{get_one_nothing, get_one_front}
use dispatchd.Broker.{Broker, encoded}
use dispatchd.Broker.Balance.{held_by_queue, outstanding, IsConsistent, SameDeliveries}
use dispatchd.Broker.Consume.{consume_one, is_among}
use dispatchd.Broker.Consume.Noted.{IsTagged, IsHolding, settle_delivery-IsDelivered}
use dispatchd.Common.{
  Bool-cases, GoString, List, List-cases, Map, Option-cases, [], arith, contains, done, find, inl,
  inr, none, panic, true, ◌⊎◌, put, put-IsUnique, refl, some, total-put, total-remove, ℕ, ◌∙◌, ◌∷◌,
  ◌≡◌, ◌≢◌, nat_eq, str_eq, pair_eq,
}

-- A queue message that a queue of the broker holds has its message in the store.
pub stored :
    (others : ℕ → ℕ) (b : Broker) (name : GoString) (q : Queue) (qm : QueueMessage)
    (rest : List QueueMessage)
    → IsConsistent others b
    → find name b.queues ≡ some q
    → q.queue ≡ qm ∷ rest
    → (msg : Message) × (find qm.id b.store.messages ≡ some msg)
unfolding count_id contains
stored others b name q qm rest ok f e = elim (Option-cases (find qm.id b.store.messages)) [
  | inr m ↦ m
  | inl none_found ↦ absurd (elim (Option-cases (find qm.id b.store.index)) [
    | inl i ↦
        let z : IdBalanced b.store (outstanding others b) qm.id none =
          rw i at (ok.balanced.at qm.id) in
        ground (arith, z.0, f, e, total-remove (held_by_queue qm.id) name b.queues ok.queues_unique)
    | inr (im, i) ↦
        let z : IdBalanced b.store (outstanding others b) qm.id (some im) =
          rw i at (ok.balanced.at qm.id) in
        ground (arith, z.0, none_found)
  ])
]

-- Acquiring changes no delivery that the channel keeps.
acquire-SameDeliveries :
    (r : Party) (qm : QueueMessage) (h : Parties) → SameDeliveries h (acquire r qm h).1
unfolding acquire
acquire-SameDeliveries the_channel qm h = record {
  awaiting = ground arith;
  consumers = ground arith;
  tx_mode = ground arith;
  tx_acks = ground arith;
  delivery_tag = ground arith;
}
acquire-SameDeliveries (consumer c) qm h = record {
  awaiting = ground arith;
  consumers = ground arith;
  tx_mode = ground arith;
  tx_acks = ground arith;
  delivery_tag = ground arith;
}

acquire_names :
    (r : Party) (qm : QueueMessage) (h : Parties) (c : ℕ)
    → ((acquire r qm h).1.consumers c).queue_name ≡ (h.consumers c).queue_name
unfolding acquire took
acquire_names the_channel qm h c = ground arith
acquire_names (consumer d) qm h c = ground arith

all_taken :
    (qm : QueueMessage) (rs : List Party) (h h' : Parties)
    → AllTake parties qm rs h h'
    → SameDeliveries h h' × ((c : ℕ) → (h'.consumers c).queue_name ≡ (h.consumers c).queue_name)
all_taken qm rs h h' (none_left _) = (
  record { awaiting = refl; consumers = refl; tx_mode = refl; tx_acks = refl; delivery_tag = refl },
  λ c. refl,
)
all_taken qm rs h h' (takes r rest _ _ t a) =
    let (s, n) = all_taken qm rest (acquire r qm h).1 h' a in
    let p = acquire-SameDeliveries r qm h in
    (
      record {
        awaiting = s.awaiting ∙ p.awaiting;
        consumers = s.consumers ∙ p.consumers;
        tx_mode = s.tx_mode ∙ p.tx_mode;
        tx_acks = s.tx_acks ∙ p.tx_acks;
        delivery_tag = s.delivery_tag ∙ p.delivery_tag;
      },
      λ c. n c ∙ acquire_names r qm h c,
    )

-- What GetOne on the consumer's queue leaves to settle.
taken_off :
    (others : ℕ → ℕ) (b : Broker) (c : ℕ) (q : Queue) (qm : QueueMessage) (rest : List QueueMessage)
    (h' : Parties)
    → IsConsistent others b
    → find (b.parties.consumers c).queue_name b.queues ≡ some q
    → q.queue ≡ qm ∷ rest
    → SameDeliveries b.parties h'
    → IsHolding others
        (record b {
          queues = put (b.parties.consumers c).queue_name (record q { queue = rest }) b.queues;
          parties = h';
        })
        qm
unfolding count_id
taken_off others b c q qm rest h' ok f e s = record {
  balanced =
      IsBalanced-same b.store b.store (outstanding others b) _ refl refl
        (λ id. ground (
          arith,
          f,
          e,
          s.awaiting,
          total-put (held_by_queue id) (b.parties.consumers c).queue_name
              (record q { queue = rest }) b.queues ok.queues_unique,
        ))
        ok.balanced;
  queues_unique =
      put-IsUnique (b.parties.consumers c).queue_name (record q { queue = rest }) b.queues
        ok.queues_unique;
  acks_unique = rw s.awaiting ok.acks_unique;
  named = rw s.awaiting ok.named;
}

still-IsTagged :
    (b : Broker) (queues : Map GoString Queue) (h' : Parties)
    → SameDeliveries b.parties h'
    → IsTagged b
    → IsTagged (record b { queues = queues; parties = h' })
still-IsTagged b queues h' s t = record {
  given = rw (s.awaiting, s.delivery_tag) t.given;
  room = rw s.delivery_tag t.room;
}

-- The front of a queue is a message whose header SendContent cannot encode.
abbrev pub FrontUnsendable : Broker → GoString → Type 0
FrontUnsendable b name =
    (q : Queue) × (qm : QueueMessage) × (rest : List QueueMessage) × (msg : Message) × (find name
        b.queues
      ≡ some q)
    × (q.queue ≡ qm ∷ rest)
    × (find qm.id b.store.messages ≡ some msg)
    × (encoded msg ≡ panic)

-- In a consistent broker whose awaited tags were all given out, with a tag left to give and the
-- counters of the holders in range, one round of a consumer of a queue with a name keeps the broker
-- consistent, whether the consumer acks or not and whether there is a message for it or not. It
-- panics only where the header of the message at the front of the queue cannot be encoded.
pub consume_one-IsConsistent :
    (others : ℕ → ℕ) (b : Broker) (c : ℕ)
    → IsConsistent others b
    → IsTagged b
    → IsInRange b.parties
    → (b.parties.consumers c).queue_name ≢ []
    → ((b' : Broker) × (consume_one b c ≡ done b') × IsConsistent others b')
      ⊎ ((consume_one b c ≡ panic) × FrontUnsendable b (b.parties.consumers c).queue_name)
unfolding consume_one
consume_one-IsConsistent others b c ok t v n =
    elim (Option-cases (find (b.parties.consumers c).queue_name b.queues)) [
      | inl e ↦ inl (b, rw (e, consume_one), ok)
      | inr (q, f) ↦ elim (Bool-cases (is_among c q.consumers)) [
        | inr other ↦ inl (b, rw (f, consume_one, other), ok)
        | inl among ↦ elim (Bool-cases q.closed) [
          | inl o ↦ idle q f among (get_one_nothing b.store q both b.parties v (inl o))
          | inr o ↦ elim (List-cases q.queue) [
            | inl e ↦ idle q f among (get_one_nothing b.store q both b.parties v (inr e))
            | inr (qm, rest, e) ↦
                let (msg, m) =
                  stored others b (b.parties.consumers c).queue_name q qm rest ok f e in
                elim (get_one_front b.store q both b.parties v qm rest msg o e m) [
                  | inr g ↦ idle q f among g
                  | inl (h', g, a) ↦
                      let (s, names) = all_taken qm both b.parties h' a in
                      elim (settle_delivery-IsDelivered others
                        (record b {
                          queues =
                              put (b.parties.consumers c).queue_name (record q { queue = rest })
                                b.queues;
                          parties = h';
                        })
                        c qm msg (taken_off others b c q qm rest h' ok f e s)
                        (still-IsTagged b _ h' s t) (rw (names c) n)) [
                          | inl (b', d, i) ↦ inl (b', rw (f, consume_one, among, g) d, i)
                          | inr (p, fault) ↦
                              inr (
                                rw (f, consume_one, among, g) p,
                                (q, qm, rest, msg, f, e, m, fault),
                              )
                        ]
                ]
          ]
        ]
      ]
    ]
  where
    both : List Party
    both = the_channel ∷ consumer c ∷ []

    idle :
        (q : Queue)
        → find (b.parties.consumers c).queue_name b.queues ≡ some q
        → is_among c q.consumers ≡ true
        → get_one b.store q both b.parties ≡ done (q, none, b.parties)
        → ((b' : Broker) × (consume_one b c ≡ done b') × IsConsistent others b')
          ⊎ ((consume_one b c ≡ panic) × FrontUnsendable b (b.parties.consumers c).queue_name)
    idle q f among g = inl (b, rw (f, consume_one, among, g), ok)
