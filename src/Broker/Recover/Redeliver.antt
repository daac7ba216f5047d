-- ===== src/Broker/Recover/Redeliver.antt =====
-- Recovering without requeue sends every unacked message again.
use dispatchd.Amqp.Types.{Message, UnackedMessage, IndexMessage}
use dispatchd.MsgStore.{MessageStore, incr_delivery_count}
use dispatchd.MsgStore.Refs.{IdBalanced, IsBalanced-same}
use dispatchd.Broker.{Broker, Sent, deliver, encoded, with_sent, send_content}
use dispatchd.Broker.Balance.{held_unacked, outstanding, IsConsistent, All-remove, find-IsNamed}
use dispatchd.Broker.Recover.{counted_again, sent_again, redeliver_one, redeliver_all, recover}
use dispatchd.Common.{
  All, Bool-cases, GoString, IsSub, IsSub-cons, IsSub-refl, IsSub-remove, IsUnique, Map, Option,
  Option-cases, Outcome-cases, ◌⊎◌, ◌&&◌, ◌^◌, ◌∙◌, ap, sym, ltb, [], arith, contains, done, false,
  find, inl, inr, none, panic, put, put-IsUnique, refl, remove, some, total, total-put,
  total-remove, true, ℕ, ◌<◌, ◌==◌, ◌∷◌, ◌≡◌, nat_eq, str_eq, pair_eq,
}

abbrev pub HasConsumers : Map GoString ℕ → Map ℕ UnackedMessage → Type 0
HasConsumers cs = All (λ e. contains e.1.consumer_tag cs ≡ true)

-- A message whose header SendContent cannot encode is unacked.
abbrev pub IsUnsendable : Broker → UnackedMessage → Type 0
IsUnsendable b u =
    (msg : Message) × (find u.msg.id b.store.messages ≡ some msg) × (encoded msg ≡ panic)

abbrev pub HasUnsendable : Broker → Map ℕ UnackedMessage → Type 0
HasUnsendable b acks =
    (tag : ℕ) × (u : UnackedMessage) × (find tag acks ≡ some u) × IsUnsendable b u

-- The message of an id that is outstanding is in the store.
outstanding-stored :
    (ms : MessageStore) (outs : ℕ → ℕ) (id : ℕ) (o : Option IndexMessage)
    → IdBalanced ms outs id o
    → 0 < outs id
    → contains id ms.messages ≡ true
outstanding-stored ms outs id none z p = absurd (omega arith)
outstanding-stored ms outs id (some im) z p = z.0

module _ (others : ℕ → ℕ) (b : Broker) (tag : ℕ) (u : UnackedMessage)
    (found : find tag b.parties.channel.awaiting_acks ≡ some u) (ok : IsConsistent others b) where
  unacked-stored : (msg : Message) × (find u.msg.id b.store.messages ≡ some msg)
  unfolding contains
  unacked-stored =
      let here : contains u.msg.id b.store.messages ≡ true =
        outstanding-stored b.store (outstanding others b) u.msg.id (find u.msg.id b.store.index)
          (ok.balanced.at u.msg.id)
          (ground (
            arith,
            found,
            total-remove (held_unacked u.msg.id) tag b.parties.channel.awaiting_acks ok.acks_unique,
          )) in
      elim (Option-cases (find u.msg.id b.store.messages)) [
        | inl e ↦ absurd (ground (arith, e, here))
        | inr m ↦ m
      ]

  again_total :
      (id : ℕ) (w : UnackedMessage)
      → w.msg.id ≡ u.msg.id
      → total (held_unacked id) (put tag w b.parties.channel.awaiting_acks)
        ≡ total (held_unacked id) b.parties.channel.awaiting_acks
  again_total id w e = ground (
    arith,
    e,
    found,
    total-put (held_unacked id) tag w b.parties.channel.awaiting_acks ok.acks_unique,
  )

  counted_again-IsConsistent : IsConsistent others (counted_again b tag u)
  unfolding counted_again put incr_delivery_count
  counted_again-IsConsistent = record {
    balanced =
        IsBalanced-same b.store (incr_delivery_count b.store u.queue_name u.msg).0
          (outstanding others b) (outstanding others (counted_again b tag u)) (ground arith)
          (ground arith)
          (λ id. omega (
            arith,
            again_total id (record u { msg = (incr_delivery_count b.store u.queue_name u.msg).1 })
                refl,
          ))
          ok.balanced;
    queues_unique = ok.queues_unique;
    acks_unique =
        put-IsUnique tag (record u { msg = (incr_delivery_count b.store u.queue_name u.msg).1 })
          b.parties.channel.awaiting_acks ok.acks_unique;
    named = (
      find-IsNamed tag u b.parties.channel.awaiting_acks ok.named found,
      All-remove tag b.parties.channel.awaiting_acks ok.named,
    );
  }

  again-IsConsistent : (s : Sent) → IsConsistent others (with_sent (counted_again b tag u) s)
  again-IsConsistent s =
      let i = counted_again-IsConsistent in
      record {
        balanced = i.balanced;
        queues_unique = i.queues_unique;
        acks_unique = i.acks_unique;
        named = i.named;
      }

  -- Sending one unacked message again.
  redeliver_one-cases :
      contains u.consumer_tag b.parties.channel.consumers ≡ true
      → ((s : Sent) × (redeliver_one b tag u ≡ done (with_sent (counted_again b tag u) s)))
        ⊎ ((redeliver_one b tag u ≡ panic) × IsUnsendable b u)
  unfolding contains redeliver_one sent_again send_content
  redeliver_one-cases h = elim (Option-cases (find u.consumer_tag b.parties.channel.consumers)) [
    | inl e ↦ absurd (ground (arith, e, h))
    | inr (c, e) ↦
        let (msg, m) = unacked-stored in
        elim (Outcome-cases (encoded msg)) [
          | inr fault ↦ inr (rw (e, redeliver_one, m, send_content, fault) refl, (msg, m, fault))
          | inl (bs, fine) ↦ inl (
            deliver (b.parties.consumers c).consumer_tag tag
                (ltb 0 msg.redelivered && ltb msg.redelivered (2 ^ 31)) msg,
            rw (e, redeliver_one, m, send_content, fine) refl,
          )
        ]
  ]

redeliver_one-consumers :
    (b b' : Broker) (tag : ℕ) (u : UnackedMessage)
    → redeliver_one b tag u ≡ done b'
    → b'.parties.channel.consumers ≡ b.parties.channel.consumers
unfolding redeliver_one sent_again send_content counted_again
redeliver_one-consumers b b' tag u e =
    elim (Option-cases (find u.consumer_tag b.parties.channel.consumers)) [
      | inl f ↦ absurd (ground (arith, e, f))
      | inr (c, f) ↦ elim (Option-cases (find u.msg.id b.store.messages)) [
        | inl g ↦ absurd (ground (arith, e, f, g))
        | inr (msg, g) ↦ elim (Outcome-cases (encoded msg)) [
          | inr fault ↦ absurd (ground (arith, e, f, g, fault))
          | inl (bs, fine) ↦ ground (arith, e, f, g, fine)
        ]
      ]
    ]

redeliver_all_panics :
    (rest : Map ℕ UnackedMessage) (b : Broker) (tag : ℕ) (u : UnackedMessage)
    → find tag rest ≡ some u
    → find u.consumer_tag b.parties.channel.consumers ≡ none
    → redeliver_all rest b ≡ panic
unfolding redeliver_all find
redeliver_all_panics [] b tag u f e = absurd (ground arith)
redeliver_all_panics ((k, w) ∷ rest) b tag u f e = elim (Outcome-cases (redeliver_one b k w)) [
  | inr p ↦ rw p refl
  | inl (b1, d) ↦ elim (Bool-cases (k == tag)) [
    | inl here ↦
        let same_one : w ≡ u = ground (arith, f, here) in
        absurd (unfold redeliver_one in ground (arith, rw same_one at d, e))
    | inr there ↦ rw d (
        redeliver_all_panics rest b1 tag u (ground (arith, f, there))
          (rw (redeliver_one-consumers b b1 k w d) e))
  ]
]

-- An unacked message whose consumer is gone makes the recovery without requeue panic.
pub recover_panics :
    (b : Broker) (tag : ℕ) (u : UnackedMessage)
    → find tag b.parties.channel.awaiting_acks ≡ some u
    → find u.consumer_tag b.parties.channel.consumers ≡ none
    → recover b false ≡ panic
unfolding recover
recover_panics b tag u f e = redeliver_all_panics b.parties.channel.awaiting_acks b tag u f e

still-IsSub :
    (rest : Map ℕ UnackedMessage) (b : Broker) (k : ℕ) (u : UnackedMessage)
    → contains k rest ≡ false
    → IsSub rest b.parties.channel.awaiting_acks
    → IsSub rest (counted_again b k u).parties.channel.awaiting_acks
unfolding counted_again put
still-IsSub rest b k u a s =
    IsSub-cons k _ rest (remove k b.parties.channel.awaiting_acks) a
      (IsSub-remove k rest b.parties.channel.awaiting_acks a s)

same_messages :
    (b : Broker) (tag : ℕ) (u : UnackedMessage)
    → (counted_again b tag u).store.messages ≡ b.store.messages
unfolding counted_again incr_delivery_count
same_messages b tag u = ground arith

still_there :
    (k : ℕ) (u : UnackedMessage) (rest : Map ℕ UnackedMessage) (tag : ℕ) (w : UnackedMessage)
    → contains k rest ≡ false
    → find tag rest ≡ some w
    → find tag ((k, u) ∷ rest) ≡ some w
unfolding find contains
still_there k u rest tag w a there = ground (arith, a, there)

redeliver_all-IsConsistent :
    (others : ℕ → ℕ) (rest : Map ℕ UnackedMessage) (b : Broker)
    → IsUnique rest
    → IsSub rest b.parties.channel.awaiting_acks
    → HasConsumers b.parties.channel.consumers rest
    → IsConsistent others b
    → ((b' : Broker) × (redeliver_all rest b ≡ done b') × IsConsistent others b')
      ⊎ ((redeliver_all rest b ≡ panic) × HasUnsendable b rest)
unfolding redeliver_all
redeliver_all-IsConsistent others [] b q s h ok = inl (b, refl, ok)
redeliver_all-IsConsistent others ((k, u) ∷ rest) b q s h ok =
    elim (redeliver_one-cases others b k u s.0 ok h.0) [
      | inr (p, fault) ↦ inr (rw p refl, (k, u, unfold find in ground arith, fault))
      | inl (sent, e) ↦
          let b1 = with_sent (counted_again b k u) sent in
          elim (redeliver_all-IsConsistent others rest b1 q.1 (still-IsSub rest b k u q.0 s.1)
            (rw (redeliver_one-consumers b b1 k u e) h.1)
            (again-IsConsistent others b k u s.0 ok sent)) [
              | inl (b2, f, t) ↦ inl (b2, rw e f, t)
              | inr (f, (tag, w, there, (msg, m, fault))) ↦ inr (
                rw e f,
                (
                  tag,
                  w,
                  still_there k u rest tag w q.0 there,
                  (
                    msg,
                    ap (λ (ms : Map ℕ Message). find w.msg.id ms) (sym (same_messages b k u)) ∙ m,
                    fault,
                  ),
                ),
              )
            ]
    ]

-- In a consistent broker where every unacked message has its consumer, the recovery without requeue
-- leaves the broker consistent. It panics only where the header of an unacked message cannot be
-- encoded.
pub recover_again-IsConsistent :
    (others : ℕ → ℕ) (b : Broker)
    → IsConsistent others b
    → HasConsumers b.parties.channel.consumers b.parties.channel.awaiting_acks
    → ((b' : Broker) × (recover b false ≡ done b') × IsConsistent others b')
      ⊎ ((recover b false ≡ panic) × HasUnsendable b b.parties.channel.awaiting_acks)
unfolding recover
recover_again-IsConsistent others b ok h =
    redeliver_all-IsConsistent others b.parties.channel.awaiting_acks b ok.acks_unique
      (IsSub-refl b.parties.channel.awaiting_acks ok.acks_unique) h ok
