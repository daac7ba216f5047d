-- ===== src/Broker/Balance.antt =====
-- The invariant of the broker: the store counts exactly the queue messages that the queues and the
-- unacked deliveries hold.
use dispatchd.Amqp.Types.{QueueMessage, UnackedMessage}
use dispatchd.MsgStore.{release_all}
use dispatchd.MsgStore.Batch.{count_id}
use dispatchd.MsgStore.Refs.{IsBalanced, IsBalanced-same}
use dispatchd.Parties.{Party, Parties, the_channel, consumer, parties, release}
use dispatchd.Queue.{Queue}
use dispatchd.Broker.{Broker, ping_found}
use dispatchd.Common.{
  All, Bool-cases, IsUnique, List, Map, Option-cases, [], arith, find, if◌then◌else◌, inl, inr,
  refl, remove, some, total, ℕ, ◌+◌, ◌==◌, ◌∙◌, ◌∷◌, ◌≡◌, ◌≢◌, nat_eq, str_eq, pair_eq,
}

abbrev pub held_by_queue : ℕ → Queue → ℕ
held_by_queue id q = count_id id q.queue

abbrev pub held_unacked : ℕ → UnackedMessage → ℕ
held_unacked id u = if u.msg.id == id then 1 else 0

-- The queue messages with an id that are somewhere: in the queues, unacked on this channel, and
-- unacked on the other channels, which `others` counts.
abbrev pub outstanding : (ℕ → ℕ) → Broker → ℕ → ℕ
outstanding others b id =
    total (held_by_queue id) b.queues
    + total (held_unacked id) b.parties.channel.awaiting_acks
    + others id

abbrev pub IsNamed : ℕ × UnackedMessage → Type 0
IsNamed (k, u) = u.queue_name ≢ []

pub record IsConsistent (others : ℕ → ℕ) (b : Broker) : Type 0 where
  pub balanced : IsBalanced b.store (outstanding others b)
  pub queues_unique : IsUnique b.queues
  pub acks_unique : IsUnique b.parties.channel.awaiting_acks
  pub named : All IsNamed b.parties.channel.awaiting_acks

-- Only the numbers that `others` counts matter.
pub IsConsistent-same :
    {others others' : ℕ → ℕ} {b : Broker}
    → ((id : ℕ) → others' id ≡ others id)
    → IsConsistent others b
    → IsConsistent others' b
IsConsistent-same {others} {others'} {b} e ok = record {
  balanced =
      IsBalanced-same b.store b.store (outstanding others b) (outstanding others' b) refl refl
        (λ id. omega (arith, e id)) ok.balanced;
  queues_unique = ok.queues_unique;
  acks_unique = ok.acks_unique;
  named = ok.named;
}

-- Releasing and waking holders leaves what the channel keeps about deliveries.
pub record SameDeliveries (h h' : Parties) : Type 0 where
  pub awaiting : h'.channel.awaiting_acks ≡ h.channel.awaiting_acks
  pub consumers : h'.channel.consumers ≡ h.channel.consumers
  pub tx_mode : h'.channel.tx_mode ≡ h.channel.tx_mode
  pub tx_acks : h'.channel.tx_acks ≡ h.channel.tx_acks
  pub delivery_tag : h'.channel.delivery_tag ≡ h.channel.delivery_tag

release-SameDeliveries :
    (r : Party) (qm : QueueMessage) (h : Parties) → SameDeliveries h (release r qm h)
unfolding release
release-SameDeliveries the_channel qm h = record {
  awaiting = refl;
  consumers = refl;
  tx_mode = refl;
  tx_acks = refl;
  delivery_tag = refl;
}
release-SameDeliveries (consumer c) qm h = record {
  awaiting = refl;
  consumers = refl;
  tx_mode = refl;
  tx_acks = refl;
  delivery_tag = refl;
}

pub SameDeliveries-refl : (h : Parties) → SameDeliveries h h
SameDeliveries-refl h = record {
  awaiting = refl;
  consumers = refl;
  tx_mode = refl;
  tx_acks = refl;
  delivery_tag = refl;
}

pub SameDeliveries-trans :
    {h h' h'' : Parties} → SameDeliveries h h' → SameDeliveries h' h'' → SameDeliveries h h''
SameDeliveries-trans s t = record {
  awaiting = t.awaiting ∙ s.awaiting;
  consumers = t.consumers ∙ s.consumers;
  tx_mode = t.tx_mode ∙ s.tx_mode;
  tx_acks = t.tx_acks ∙ s.tx_acks;
  delivery_tag = t.delivery_tag ∙ s.delivery_tag;
}

pub release_all-SameDeliveries :
    (rs : List Party) (qm : QueueMessage) (h : Parties)
    → SameDeliveries h (release_all parties rs qm h)
unfolding release_all
release_all-SameDeliveries [] qm h = record {
  awaiting = refl;
  consumers = refl;
  tx_mode = refl;
  tx_acks = refl;
  delivery_tag = refl;
}
release_all-SameDeliveries (r ∷ rs) qm h =
    SameDeliveries-trans (release-SameDeliveries r qm h)
      (release_all-SameDeliveries rs qm (release r qm h))

pub ping_found-SameDeliveries :
    (u : UnackedMessage) (h : Parties) → SameDeliveries h (ping_found u h)
unfolding ping_found
ping_found-SameDeliveries u h = elim (Option-cases (find u.consumer_tag h.channel.consumers)) [
  | inl e ↦
      rw (e, ping_found)
        (record {
          awaiting = refl;
          consumers = refl;
          tx_mode = refl;
          tx_acks = refl;
          delivery_tag = refl;
        })
  | inr (c, e) ↦
      rw (e, ping_found)
        (record {
          awaiting = refl;
          consumers = refl;
          tx_mode = refl;
          tx_acks = refl;
          delivery_tag = refl;
        })
]

pub All-remove : (k : ℕ) (m : Map ℕ UnackedMessage) → All IsNamed m → All IsNamed (remove k m)
unfolding remove
All-remove k [] a = tt
All-remove k ((j, u) ∷ m) a = ground (arith, All-remove k m a.1)

pub find-IsNamed :
    (k : ℕ) (u : UnackedMessage) (m : Map ℕ UnackedMessage)
    → All IsNamed m
    → find k m ≡ some u
    → u.queue_name ≢ []
unfolding find
find-IsNamed k u [] a f = absurd (ground arith)
find-IsNamed k u ((j, w) ∷ m) a f = elim (Bool-cases (j == k)) [
  | inl same ↦ let e : w ≡ u = ground arith in rw (← e) a.0
  | inr other ↦ find-IsNamed k u m a.1 (ground arith)
]
