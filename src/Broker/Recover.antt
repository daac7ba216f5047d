-- ===== src/Broker/Recover.antt =====
-- server/channel.go: recover, changeFlow, removeConsumer and shutdown; Redeliver of
-- consumer/consumer.go and deregisterChannel of server/connection.go.
pub mod Requeue
pub mod Redeliver
pub mod Shutdown
use dispatchd.Amqp.Types.{UnackedMessage, Message}
use dispatchd.MsgStore.{release_all, incr_delivery_count}
use dispatchd.Consumer.{ping, stop}
use dispatchd.Channel.{State, init, open_, closing, closed}
use dispatchd.Parties.{Parties, parties, update}
use dispatchd.Broker.{Broker, Sent, deliver, holders_of, requeue_one, nack_below, send_content}
use dispatchd.Common.{
  Bool, GoString, List, Map, Outcome, [], bool_beq, done, false, find, if◌then◌else◌, ltb, none,
  panic, put, remove, some, true, ℕ, ◌&&◌, ◌-◌, ◌==◌, ◌>>=◌, ◌^◌, ◌∷◌, nat_eq, str_eq, pair_eq,
}

ping_all : Map GoString ℕ → Parties → Parties
ping_all [] h = h
ping_all ((tag, c) ∷ rest) h =
    ping_all rest (record h { consumers = update c (ping (h.consumers c)) h.consumers })

unfoldable pub change_flow : Parties → Bool → Parties
unfolding ping_all
change_flow h active =
    if bool_beq h.channel.flow active
    then h
    else (let h' = record h { channel = record h.channel { flow = active } } in
        if active then ping_all h.channel.consumers h' else h')

-- A queue that is gone gets nothing, and its reference is left alone.
unfoldable pub recover_one : Broker → UnackedMessage → Broker
unfolding requeue_one
recover_one b u = elim (find u.queue_name b.queues) [
  | none ↦ record b {
    parties = release_all parties (holders_of b.parties.channel u) u.msg b.parties;
  }
  | some q ↦ requeue_one b u q
]

unfoldable pub recover_all : Map ℕ UnackedMessage → Broker → Broker
recover_all [] b = b
recover_all ((tag, u) ∷ rest) b = recover_all rest (recover_one b u)

unfoldable pub clear_acks : Broker → Broker
clear_acks b = record b {
  parties = record b.parties { channel = record b.parties.channel { awaiting_acks = [] } };
}

-- The delivery count goes up in place.
unfoldable pub counted_again : Broker → ℕ → UnackedMessage → Broker
counted_again b tag u =
    let (store', qm) = incr_delivery_count b.store u.queue_name u.msg in
    let ch = b.parties.channel in
    record b {
      store = store';
      parties = record b.parties {
        channel = record ch { awaiting_acks = put tag (record u { msg = qm }) ch.awaiting_acks };
      };
    }

-- Redeliver: the message is sent under its old tag.
unfoldable pub sent_again : Broker → ℕ → UnackedMessage → ℕ → Message → Outcome Broker
unfolding counted_again send_content
sent_again b tag u c msg =
    send_content (counted_again b tag u)
      (deliver (b.parties.consumers c).consumer_tag tag
        (ltb 0 msg.redelivered && ltb msg.redelivered (2 ^ 31)) msg)
      msg

-- A message that the store lost is a panic; so is a consumer that is gone, since its nil pointer
-- stands among the holders whose resources RemoveRef releases.
unfoldable pub redeliver_one : Broker → ℕ → UnackedMessage → Outcome Broker
unfolding sent_again
redeliver_one b tag u = elim (find u.consumer_tag b.parties.channel.consumers) [
  | none ↦ panic
  | some c ↦ elim (find u.msg.id b.store.messages) [
    | none ↦ panic
    | some msg ↦ sent_again b tag u c msg
  ]
]

unfoldable pub redeliver_all : Map ℕ UnackedMessage → Broker → Outcome Broker
unfolding redeliver_one
redeliver_all [] b = done b
redeliver_all ((tag, u) ∷ rest) b = do b' ← redeliver_one b tag u; redeliver_all rest b'

unfoldable pub recover : Broker → Bool → Outcome Broker
unfolding recover_all redeliver_all clear_acks
recover b requeue =
    if requeue
    then done (clear_acks (recover_all b.parties.channel.awaiting_acks b))
    else redeliver_all b.parties.channel.awaiting_acks b

-- The flag says that the consumer was found.
unfoldable pub remove_consumer : Parties → GoString → Parties × Bool
remove_consumer h tag = elim (find tag h.channel.consumers) [
  | none ↦ (h, false)
  | some c ↦ (
    record h {
      channel = record h.channel { consumers = remove tag h.channel.consumers };
      consumers = update c (stop (h.consumers c)) h.consumers;
    },
    true,
  )
]

remove_consumers : Map GoString ℕ → Parties → Parties
unfolding remove_consumer
remove_consumers [] h = h
remove_consumers ((tag, c) ∷ rest) h =
    remove_consumers rest (remove_consumer h (h.consumers c).consumer_tag).0

unfoldable pub is_closed : State → Bool
is_closed init = false
is_closed open_ = false
is_closed closing = false
is_closed closed = true

-- The parties when the channel is closed and its consumers are stopped.
unfoldable pub retire : Parties → Parties
unfolding remove_consumers
retire h =
    remove_consumers h.channel.consumers
      (record h { channel = record h.channel { state = closed } })

-- deregisterChannel: the connection forgets the channel.
unfoldable pub deregister_channel : ℕ → List ℕ → List ℕ
deregister_channel id [] = []
deregister_channel id (i ∷ is) =
    if i == id then deregister_channel id is else i ∷ deregister_channel id is

unfoldable pub shutdown : Broker → Outcome Broker
unfolding retire is_closed deregister_channel
shutdown b =
    if is_closed b.parties.channel.state
    then done b
    else nack_below
        (record b {
          parties = retire b.parties;
          registered = deregister_channel b.parties.channel.id b.registered;
        })
        (2 ^ 64 - 1) true false
