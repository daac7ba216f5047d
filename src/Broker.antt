-- ===== src/Broker.antt =====
-- What the handlers of one channel work on: the message store, the queues, the channel and the
-- consumers, and what has been sent to the client. The methods below are those of server/channel.go
-- that settle deliveries.
pub mod Acks
pub mod Balance
pub mod Settling
pub mod Consume
pub mod Publish
pub mod Recover
pub mod Subscribing
use dispatchd.Amqp.Types.{QueueMessage, Message, UnackedMessage, TxAck, AmqpError, new_soft_error}
use dispatchd.MsgStore.{MessageStore, remove_ref, release_all, incr_delivery_count}
use dispatchd.Consumer.{ping}
use dispatchd.Channel.{Channel}
use dispatchd.Parties.{Party, Parties, the_channel, consumer, parties, release, update}
use dispatchd.Wire.HeaderWriter.{write_header}
use dispatchd.Queue
use dispatchd.Queue.{Queue, readd}
use dispatchd.Common.{
  Bool, GoString, List, Map, Option, Outcome, [], done, false, find, if◌then◌else◌, leb, none, not,
  panic, put, remove, some, true, ℕ, ◌&&◌, ◌++◌, ◌==◌, ◌>>=◌, ◌||◌, ◌∷◌, nat_eq, str_eq, pair_eq,
}

pub data Sent : Type 0 where
  deliver : GoString → ℕ → Bool → Message → Sent
  get_ok : ℕ → Bool → Message → Sent
  get_empty : Sent

-- `registered` are the ids of the channels of the connection.
pub record Broker : Type 0 where
  pub store : MessageStore
  pub queues : Map GoString Queue
  pub parties : Parties
  pub registered : List ℕ
  pub sent : List Sent

-- The header of a message as SendContent encodes it. A nil header is dereferenced.
unfoldable pub encoded : Message → Outcome (List ℕ)
encoded msg = elim msg.header [ none ↦ panic | some h ↦ write_header h ]

abbrev pub with_sent : Broker → Sent → Broker
with_sent b s = record b { sent = b.sent ++ s ∷ [] }

-- SendContent encodes the header before anything is sent.
unfoldable pub send_content : Broker → Sent → Message → Outcome Broker
unfolding encoded
send_content b s msg = do bs ← encoded msg; done (with_sent b s)

-- The channel, and the consumer if the channel still has it.
unfoldable pub holders_of : Channel → UnackedMessage → List Party
holders_of ch u = elim (find u.consumer_tag ch.consumers) [
  | none ↦ the_channel ∷ []
  | some c ↦ the_channel ∷ consumer c ∷ []
]

-- delete(channel.awaitingAcks, tag)
unfoldable pub forget : ℕ → Parties → Parties
forget tag h = record h {
  channel = record h.channel { awaiting_acks = remove tag h.channel.awaiting_acks };
}

unfoldable pub ping_found : UnackedMessage → Parties → Parties
ping_found u h = elim (find u.consumer_tag h.channel.consumers) [
  | none ↦ h
  | some c ↦ record h { consumers = update c (ping (h.consumers c)) h.consumers }
]

unfoldable pub add_tx_ack : Broker → TxAck → Broker
add_tx_ack b ack =
    let h = b.parties in
    record b {
      parties = record h { channel = record h.channel { tx_acks = h.channel.tx_acks ++ ack ∷ [] } };
    }

-- What ackOne and each round of ackBelow do to an unacked message.
unfoldable pub settle_ack : Broker → ℕ → UnackedMessage → Outcome Broker
unfolding holders_of forget ping_found
settle_ack b tag u = do
  (store', h') ←
      remove_ref parties b.store u.msg u.queue_name (holders_of b.parties.channel u) b.parties
  done (record b { store = store'; parties = ping_found u (forget tag h') })

-- The branch of nackOne and nackBelow that requeues, and the one that drops.
requeue_one : Broker → UnackedMessage → Queue → Broker
requeue_one b u q =
    let (store', q') = readd b.store q u.queue_name u.msg in
    record b {
      store = store';
      queues = put u.queue_name q' b.queues;
      parties = release_all parties (holders_of b.parties.channel u) u.msg b.parties;
    }

drop_one : Broker → UnackedMessage → Outcome Broker
drop_one b u = do
  (store', h') ←
      remove_ref parties b.store u.msg u.queue_name (holders_of b.parties.channel u) b.parties
  done (record b { store = store'; parties = h' })

requeue_or_drop : Broker → UnackedMessage → Bool → Outcome Broker
unfolding requeue_one drop_one
requeue_or_drop b u requeue = elim (find u.queue_name b.queues) [
  | none ↦ drop_one b u
  | some q ↦ if requeue then done (requeue_one b u q) else drop_one b u
]

unfoldable pub settle_nack : Broker → ℕ → UnackedMessage → Bool → Outcome Broker
unfolding requeue_or_drop forget ping_found
settle_nack b tag u requeue = do
  b' ← requeue_or_drop b u requeue
  done (record b' { parties = ping_found u (forget tag b'.parties) })

new_tx_ack : ℕ → Bool → Bool → Bool → TxAck
new_tx_ack tag nack requeue_nack multiple = record {
  tag = tag;
  nack = nack;
  requeue_nack = requeue_nack;
  multiple = multiple;
}

-- Whether an ack is only noted, for the commit of the transaction.
abbrev pub is_deferred : Broker → Bool → Bool
is_deferred b commit_tx = b.parties.channel.tx_mode && not commit_tx

unfoldable pub ack_one : Broker → ℕ → Bool → Outcome (Broker × Option AmqpError)
unfolding settle_ack add_tx_ack new_tx_ack
ack_one b tag commit_tx = elim (find tag b.parties.channel.awaiting_acks) [
  | none ↦ done (b, some (new_soft_error 406 60 80))
  | some u ↦
      if is_deferred b commit_tx
      then done (add_tx_ack b (new_tx_ack tag false false false), none)
      else (do b' ← settle_ack b tag u; done (b', none))
]

unfoldable pub nack_one : Broker → ℕ → Bool → Bool → Outcome (Broker × Option AmqpError)
unfolding settle_nack add_tx_ack new_tx_ack
nack_one b tag requeue commit_tx = elim (find tag b.parties.channel.awaiting_acks) [
  | none ↦ done (b, some (new_soft_error 406 60 120))
  | some u ↦
      if is_deferred b commit_tx
      then done (add_tx_ack b (new_tx_ack tag true requeue false), none)
      else (do b' ← settle_nack b tag u requeue; done (b', none))
]

-- k <= tag || tag == 0
abbrev pub covers : ℕ → ℕ → Bool
covers tag k = leb k tag || tag == 0

-- The loop over the map of unacked messages, which deletes what it has settled.
unfoldable pub settle_below :
    (Broker → ℕ → UnackedMessage → Outcome Broker)
    → ℕ
    → Map ℕ UnackedMessage
    → Broker
    → Outcome Broker
settle_below settle tag [] b = done b
settle_below settle tag ((k, u) ∷ rest) b =
    if covers tag k
    then (do b' ← settle b k u; settle_below settle tag rest b')
    else settle_below settle tag rest b

unfoldable pub ack_below : Broker → ℕ → Bool → Outcome Broker
unfolding settle_ack settle_below add_tx_ack new_tx_ack
ack_below b tag commit_tx =
    if is_deferred b commit_tx
    then done (add_tx_ack b (new_tx_ack tag false false true))
    else settle_below settle_ack tag b.parties.channel.awaiting_acks b

unfoldable pub nack_below : Broker → ℕ → Bool → Bool → Outcome Broker
unfolding settle_nack settle_below add_tx_ack new_tx_ack
nack_below b tag requeue commit_tx =
    if is_deferred b commit_tx
    then done (add_tx_ack b (new_tx_ack tag true requeue true))
    else settle_below (λ b k u. settle_nack b k u requeue) tag b.parties.channel.awaiting_acks b

-- The acks of a transaction, applied at its commit. The errors are dropped.
unfoldable pub tx_ack_message : Broker → TxAck → Outcome Broker
unfolding ack_one nack_one ack_below nack_below
tx_ack_message b ack =
    if ack.multiple
    then (if ack.nack then nack_below b ack.tag ack.requeue_nack true else ack_below b ack.tag true)
    else if ack.nack
    then (do (b', _) ← nack_one b ack.tag ack.requeue_nack true; done b')
    else (do (b', _) ← ack_one b ack.tag true; done b')
