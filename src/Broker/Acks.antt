-- ===== src/Broker/Acks.antt =====
-- The four methods that settle deliveries: ackOne, ackBelow, nackOne and nackBelow.
use dispatchd.Amqp.Types.{UnackedMessage}
use dispatchd.Broker.{
  Broker, settle_ack, settle_nack, ack_one, nack_one, ack_below, nack_below, covers, settle_below,
  is_deferred,
}
use dispatchd.Broker.Balance.{IsConsistent}
use dispatchd.Broker.Settling.{settle_ack-IsConsistent, settle_nack-IsConsistent}
use dispatchd.Common.{
  Bool, Bool-cases, IsSub, IsSub-refl, IsSub-remove, IsUnique, Map, Option-cases, Outcome, [],
  arith, contains, done, false, find, find-remove, if◌then◌else◌, inl, inr, none, not, refl, remove,
  some, true, ℕ, ◌&&◌, ◌==◌, ◌∷◌, ◌≡◌, nat_eq, str_eq, pair_eq,
}

-- A method that settles deliveries went well: the broker is consistent, and of the unacked messages
-- those are left that `kept` says.
abbrev pub Settles : (ℕ → ℕ) → Broker → (ℕ → Bool) → Broker → Type 0
Settles others b kept b' =
    IsConsistent others b'
    × ((k : ℕ)
        → find k b'.parties.channel.awaiting_acks
          ≡ (if kept k then find k b.parties.channel.awaiting_acks else none))

module _ (others : ℕ → ℕ) (settle : Broker → ℕ → UnackedMessage → Outcome Broker)
    (step : (b : Broker) (k : ℕ) (u : UnackedMessage)
      → find k b.parties.channel.awaiting_acks ≡ some u
      → IsConsistent others b
      → (b' : Broker) × (settle b k u ≡ done b')
        × IsConsistent others b'
        × (b'.parties.channel.awaiting_acks ≡ remove k b.parties.channel.awaiting_acks))
    (tag : ℕ) where
  loop_Settles :
      (rest : Map ℕ UnackedMessage) (b : Broker)
      → IsUnique rest
      → IsSub rest b.parties.channel.awaiting_acks
      → IsConsistent others b
      → (b' : Broker) × (settle_below settle tag rest b ≡ done b')
        × Settles others b (λ k. not (covers tag k && contains k rest)) b'
  unfolding settle_below contains find
  loop_Settles [] b q s c = (b, refl, (c, λ k. ground arith))
  loop_Settles ((k, u) ∷ rest) b q s c = elim (Bool-cases (covers tag k)) [
    | inr out ↦
        let (b', e, t) = loop_Settles rest b q.1 s.1 c in
        (b', rw out e, (t.0, λ j. ground (arith, out, t.1 j)))
    | inl hit ↦
        let (b1, e1, c1, a1) = step b k u s.0 c in
        let (b', e, t) =
          loop_Settles rest b1 q.1
            (rw a1 (IsSub-remove k rest b.parties.channel.awaiting_acks q.0 s.1)) c1 in
        (
          b',
          rw (hit, e1) e,
          (
            t.0,
            λ j. ground (arith, hit, t.1 j, a1, find-remove j k b.parties.channel.awaiting_acks),
          ),
        )
  ]

  pub all_below_Settles :
      (b : Broker)
      → IsConsistent others b
      → (b' : Broker) × (settle_below settle tag b.parties.channel.awaiting_acks b ≡ done b')
        × Settles others b (λ k. not (covers tag k)) b'
  unfolding contains
  all_below_Settles b c =
      let (b', e, t) =
        loop_Settles b.parties.channel.awaiting_acks b c.acks_unique
          (IsSub-refl b.parties.channel.awaiting_acks c.acks_unique) c in
      (b', e, (t.0, λ k. ground (arith, t.1 k)))

module _ (others : ℕ → ℕ) (b : Broker) (ok : IsConsistent others b) (tag : ℕ) where
  -- In a consistent broker an ack of a tag that is awaited, outside a transaction or at its
  -- commit, never panics, settles that tag and no other, and leaves the queues and the broker
  -- consistent.
  pub ack_one-Settles :
      (commit_tx : Bool)
      → is_deferred b commit_tx ≡ false
      → contains tag b.parties.channel.awaiting_acks ≡ true
      → (b' : Broker) × (ack_one b tag commit_tx ≡ done (b', none))
        × Settles others b (λ k. not (k == tag)) b'
        × (b'.queues ≡ b.queues)
  unfolding ack_one contains
  ack_one-Settles commit_tx now has =
      elim (Option-cases (find tag b.parties.channel.awaiting_acks)) [
        | inl e ↦ absurd (ground (arith, e))
        | inr (u, e) ↦
            let (b', s, c, a, q) = settle_ack-IsConsistent others b tag u e ok in
            (
              b',
              rw (e, ack_one, now, s),
              (c, λ k. rw a (ground (arith, find-remove k tag b.parties.channel.awaiting_acks))),
              q,
            )
      ]

  -- In a consistent broker a nack of a tag that is awaited, outside a transaction or at its
  -- commit, never panics, settles that tag and no other, and leaves the broker consistent, whether
  -- it requeues or not.
  pub nack_one-Settles :
      (requeue commit_tx : Bool)
      → is_deferred b commit_tx ≡ false
      → contains tag b.parties.channel.awaiting_acks ≡ true
      → (b' : Broker) × (nack_one b tag requeue commit_tx ≡ done (b', none))
        × Settles others b (λ k. not (k == tag)) b'
  unfolding nack_one contains
  nack_one-Settles requeue commit_tx now has =
      elim (Option-cases (find tag b.parties.channel.awaiting_acks)) [
        | inl e ↦ absurd (ground (arith, e))
        | inr (u, e) ↦
            let (b', s, c, a, q) = settle_nack-IsConsistent others b tag u e ok requeue in
            (
              b',
              rw (e, nack_one, now, s),
              (c, λ k. rw a (ground (arith, find-remove k tag b.parties.channel.awaiting_acks))),
            )
      ]

  -- In a consistent broker an ack of all up to a tag, outside a transaction or at its commit,
  -- never panics, settles exactly the tags that are at most that one, or all if it is 0, and
  -- leaves the broker consistent.
  pub ack_below-Settles :
      (commit_tx : Bool)
      → is_deferred b commit_tx ≡ false
      → (b' : Broker) × (ack_below b tag commit_tx ≡ done b')
        × Settles others b (λ k. not (covers tag k)) b'
  unfolding ack_below
  ack_below-Settles commit_tx now = rw now (
      all_below_Settles others settle_ack
        (λ b k u f c.
          let (b', e, i, a, q) = settle_ack-IsConsistent others b k u f c in (b', e, i, a))
        tag b ok)

  -- In a consistent broker a nack of all up to a tag, outside a transaction or at its commit,
  -- never panics, settles exactly the tags that are at most that one, or all if it is 0, and
  -- leaves the broker consistent, whether it requeues or not.
  pub nack_below-Settles :
      (requeue commit_tx : Bool)
      → is_deferred b commit_tx ≡ false
      → (b' : Broker) × (nack_below b tag requeue commit_tx ≡ done b')
        × Settles others b (λ k. not (covers tag k)) b'
  unfolding nack_below
  nack_below-Settles requeue commit_tx now = rw now (
      all_below_Settles others (λ b k u. settle_nack b k u requeue)
        (λ b k u f c.
          let (b', e, i, a, q) = settle_nack-IsConsistent others b k u f c requeue in (b', e, i, a))
        tag b ok)
