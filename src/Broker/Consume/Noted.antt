-- ===== src/Broker/Consume/Noted.antt =====
-- Settling a message that a consumer took: it is noted as unacked, or its reference is removed.
use dispatchd.Amqp.Types.{QueueMessage, Message, UnackedMessage}
use dispatchd.MsgStore.{MessageStore, release_all}
use dispatchd.MsgStore.Refs.{one_more, IsBalanced, IsBalanced-same, remove_ref-IsBalanced}
use dispatchd.Channel.{Channel, add_unacked_message}
use dispatchd.Parties.{Parties, the_channel, consumer, parties}
use dispatchd.Broker.{Broker, deliver, encoded, with_sent, send_content}
use dispatchd.Broker.Balance.{
  held_unacked, outstanding, IsConsistent, SameDeliveries, release_all-SameDeliveries, IsNamed,
  All-remove, IsNamed,
}
use dispatchd.Broker.Consume.{settle_delivery, send_deliver, count_delivery, redelivered}
use dispatchd.Common.{
  All, Outcome, Outcome-cases, panic, ◌⊎◌, Bool-cases, IsUnique, [], arith, contains, done, false,
  inl, inr, put, put-IsUnique, refl, total, total-put, true, ℕ, ◌%◌, ◌+◌, ◌<◌, ◌^◌, ◌∷◌, ◌≡◌, ◌≢◌,
  ◌≤◌, nat_eq, str_eq, pair_eq,
}

-- The tags that are awaited were given out, and there is one more to give.
pub record IsTagged (b : Broker) : Type 0 where
  pub given :
      (k : ℕ)
      → contains k b.parties.channel.awaiting_acks ≡ true
      → k ≤ b.parties.channel.delivery_tag
  pub room : b.parties.channel.delivery_tag + 1 < 2 ^ 64

-- A broker that holds one queue message less than its store counts, and is about to settle it.
pub record IsHolding (others : ℕ → ℕ) (b : Broker) (qm : QueueMessage) : Type 0 where
  pub balanced : IsBalanced b.store (one_more qm (outstanding others b))
  pub queues_unique : IsUnique b.queues
  pub acks_unique : IsUnique b.parties.channel.awaiting_acks
  pub named : All IsNamed b.parties.channel.awaiting_acks

module _ (others : ℕ → ℕ) (b : Broker) (c : ℕ) (qm : QueueMessage) (msg : Message)
    (holding : IsHolding others b qm) (tagged : IsTagged b)
    (name : (b.parties.consumers c).queue_name ≢ []) where
  fresh_tag : contains (b.parties.channel.delivery_tag + 1) b.parties.channel.awaiting_acks ≡ false
  fresh_tag =
      elim (Bool-cases
        (contains (b.parties.channel.delivery_tag + 1) b.parties.channel.awaiting_acks)) [
          | inl h ↦ absurd (omega (arith, tagged.given _ h))
          | inr h ↦ h
        ]

  abbrev unacked : UnackedMessage
  unacked = record {
    consumer_tag = (b.parties.consumers c).consumer_tag;
    msg = qm;
    queue_name = (b.parties.consumers c).queue_name;
  }

  abbrev noted : Channel
  noted = record b.parties.channel {
    delivery_tag = b.parties.channel.delivery_tag + 1;
    awaiting_acks =
        put (b.parties.channel.delivery_tag + 1) unacked b.parties.channel.awaiting_acks;
  }

  add_unacked :
      add_unacked_message b.parties.channel
        (b.parties.consumers c).consumer_tag
        qm
        (b.parties.consumers c).queue_name
      ≡ done (noted, b.parties.channel.delivery_tag + 1)
  unfolding add_unacked_message
  add_unacked =
      let e : (b.parties.channel.delivery_tag + 1) % 2 ^ 64 ≡ b.parties.channel.delivery_tag + 1 =
        omega (arith, tagged.room) in
      rw (e, fresh_tag)

  noted_total :
      (id : ℕ)
      → total (held_unacked id) noted.awaiting_acks
        ≡ held_unacked id unacked + total (held_unacked id) b.parties.channel.awaiting_acks
  unfolding contains
  noted_total id = ground (
    arith,
    fresh_tag,
    total-put (held_unacked id) (b.parties.channel.delivery_tag + 1) unacked
        b.parties.channel.awaiting_acks holding.acks_unique,
  )

  noted-IsNamed : All IsNamed noted.awaiting_acks
  unfolding put
  noted-IsNamed = (
    name,
    All-remove (b.parties.channel.delivery_tag + 1) b.parties.channel.awaiting_acks holding.named,
  )

  -- A call that keeps the broker consistent, or panics on a header that cannot be encoded.
  abbrev pub IsDelivered : Outcome Broker → Type 0
  IsDelivered r =
      ((b' : Broker) × (r ≡ done b') × IsConsistent others b')
      ⊎ ((r ≡ panic) × (encoded msg ≡ panic))

  sent-IsDelivered :
      (b1 : Broker) (tag : ℕ) → IsConsistent others b1 → IsDelivered (send_deliver b1 c tag qm msg)
  unfolding send_deliver send_content count_delivery
  sent-IsDelivered b1 tag ok = elim (Outcome-cases (encoded msg)) [
    | inr fault ↦ inr (rw (send_deliver, send_content, fault) refl, fault)
    | inl (bs, e) ↦ inl (
      count_delivery c
          (with_sent b1 (deliver (b1.parties.consumers c).consumer_tag tag (redelivered qm) msg)),
      rw (send_deliver, send_content, e) refl,
      record {
        balanced = ok.balanced;
        queues_unique = ok.queues_unique;
        acks_unique = ok.acks_unique;
        named = ok.named;
      },
    )
  ]

  dropped-IsConsistent :
      (store' : MessageStore) (h' : Parties)
      → SameDeliveries b.parties h'
      → IsBalanced store' (outstanding others b)
      → IsConsistent others (record b { store = store'; parties = h' })
  dropped-IsConsistent store' h' s w = record {
    balanced = rw s.awaiting w;
    queues_unique = holding.queues_unique;
    acks_unique = rw s.awaiting holding.acks_unique;
    named = rw s.awaiting holding.named;
  }

  noted-IsConsistent :
      IsConsistent others (record b { parties = record b.parties { channel = noted } })
  noted-IsConsistent = record {
    balanced =
        IsBalanced-same b.store b.store (one_more qm (outstanding others b)) _ refl refl
          (λ id. omega (arith, noted_total id)) holding.balanced;
    queues_unique = holding.queues_unique;
    acks_unique =
        put-IsUnique (b.parties.channel.delivery_tag + 1) unacked b.parties.channel.awaiting_acks
          holding.acks_unique;
    named = noted-IsNamed;
  }

  pub settle_delivery-IsDelivered : IsDelivered (settle_delivery b c qm msg)
  unfolding settle_delivery
  settle_delivery-IsDelivered = elim (Bool-cases (b.parties.consumers c).no_ack) [
    | inl no_ack ↦
        let (store', e, w) =
          remove_ref-IsBalanced parties b.store qm (outstanding others b)
            (b.parties.consumers c).queue_name (the_channel ∷ consumer c ∷ []) b.parties
            holding.balanced name in
        let h' = release_all parties (the_channel ∷ consumer c ∷ []) qm b.parties in
        rw (no_ack, e)
          (sent-IsDelivered (record b { store = store'; parties = h' }) 0
            (dropped-IsConsistent store' h'
              (release_all-SameDeliveries (the_channel ∷ consumer c ∷ []) qm b.parties) w))
    | inr acks ↦
        rw (acks, add_unacked)
          (sent-IsDelivered _ (b.parties.channel.delivery_tag + 1) noted-IsConsistent)
  ]
