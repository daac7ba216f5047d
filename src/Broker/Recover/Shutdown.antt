-- ===== src/Broker/Recover/Shutdown.antt =====
-- What the shutdown of a channel does to its unacked messages.
use dispatchd.Channel.{closed}
use dispatchd.Parties.{Parties}
use dispatchd.Broker.{Broker}
use dispatchd.Broker.Balance.{IsConsistent}
use dispatchd.Broker.Acks.{nack_below-Settles}
use dispatchd.Broker.Recover.{
  remove_consumer, remove_consumers, retire, deregister_channel, is_closed, shutdown,
}
use dispatchd.Common.{
  GoString, Map, [], arith, done, false, find, none, refl, true, ℕ, ◌-◌, ◌<◌, ◌^◌, ◌∙◌, ◌∷◌, ◌≡◌,
  nat_eq, str_eq, pair_eq,
}

-- Stopping consumers leaves the deliveries and the mode of the channel.
record SameAcks (h h' : Parties) : Type 0 where
  awaiting : h'.channel.awaiting_acks ≡ h.channel.awaiting_acks
  tx_mode : h'.channel.tx_mode ≡ h.channel.tx_mode

remove_consumer-SameAcks : (h : Parties) (tag : GoString) → SameAcks h (remove_consumer h tag).0
unfolding remove_consumer
remove_consumer-SameAcks h tag = record { awaiting = ground arith; tx_mode = ground arith }

remove_consumers-SameAcks : (cs : Map GoString ℕ) (h : Parties) → SameAcks h (remove_consumers cs h)
unfolding remove_consumers
remove_consumers-SameAcks [] h = record { awaiting = refl; tx_mode = refl }
remove_consumers-SameAcks ((tag, c) ∷ cs) h =
    let s = remove_consumer-SameAcks h (h.consumers c).consumer_tag in
    let t = remove_consumers-SameAcks cs (remove_consumer h (h.consumers c).consumer_tag).0 in
    record { awaiting = t.awaiting ∙ s.awaiting; tx_mode = t.tx_mode ∙ s.tx_mode }

retire-SameAcks : (h : Parties) → SameAcks h (retire h)
unfolding retire
retire-SameAcks h =
    let s =
      remove_consumers-SameAcks h.channel.consumers
        (record h { channel = record h.channel { state = closed } }) in
    record { awaiting = s.awaiting; tx_mode = s.tx_mode }

-- The broker when the channel is closed, forgotten and without consumers.
abbrev withdrawn : Broker → Broker
withdrawn b = record b {
  parties = retire b.parties;
  registered = deregister_channel b.parties.channel.id b.registered;
}

withdrawn-IsConsistent :
    (others : ℕ → ℕ) (b : Broker) → IsConsistent others b → IsConsistent others (withdrawn b)
withdrawn-IsConsistent others b ok =
    let s = retire-SameAcks b.parties in
    record {
      balanced = rw s.awaiting ok.balanced;
      queues_unique = ok.queues_unique;
      acks_unique = rw s.awaiting ok.acks_unique;
      named = rw s.awaiting ok.named;
    }

-- In a consistent broker the shutdown of a channel that is not closed and not transactional never
-- panics, leaves the broker consistent and none of the channel's tags awaited.
pub shutdown-IsConsistent :
    (others : ℕ → ℕ) (b : Broker)
    → IsConsistent others b
    → is_closed b.parties.channel.state ≡ false
    → b.parties.channel.tx_mode ≡ false
    → (b' : Broker) × (shutdown b ≡ done b')
      × IsConsistent others b'
      × ((k : ℕ) → k < 2 ^ 64 → find k b'.parties.channel.awaiting_acks ≡ none)
unfolding shutdown
shutdown-IsConsistent others b ok o n =
    let s = retire-SameAcks b.parties in
    let (b', e, t) =
      nack_below-Settles others (withdrawn b) (withdrawn-IsConsistent others b ok) (2 ^ 64 - 1) true
        false (ground (arith, s.tx_mode, n)) in
    (b', ground (arith, o, e), t.0, λ k h. ground (arith, t.1 k, h))
