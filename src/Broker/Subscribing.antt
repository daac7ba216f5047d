-- ===== src/Broker/Subscribing.antt =====
-- The handlers of server/basicMethods.go that add and remove consumers, set limits and settle
-- deliveries, and addConsumer of server/channel.go. `c` is where a new consumer stands in the heap, and
-- `random` what util.RandomId returns. The rounds of a consumer that was started are in Broker/Consume.
pub mod Cancelling
use dispatchd.Amqp.Types.{AmqpError, new_soft_error, new_hard_error}
use dispatchd.Consumer.{Consumer, new_consumer}
use dispatchd.Channel.{Channel, set_prefetch}
use dispatchd.Parties.{Parties, update}
use dispatchd.Queue.{Queue, Locked, blocks, runs, add_consumer}
use dispatchd.Exchange.{is_nil}
use dispatchd.Broker.{Broker, ack_one, ack_below, nack_one, nack_below}
use dispatchd.Broker.Recover.{recover, remove_consumer}
use dispatchd.Common.{
  Bool, GoString, Option, Outcome, [], contains, done, false, find, if◌then◌else◌, none, put, some,
  suc, true, zero, ℕ, ◌>>=◌, nat_eq, str_eq, pair_eq,
}

-- The fields of the method that are read.
pub record BasicConsume : Type 0 where
  pub queue : GoString
  pub consumer_tag : GoString
  pub no_local : Bool
  pub no_ack : Bool
  pub exclusive : Bool
  pub no_wait : Bool

-- What is sent back.
pub data Receipt : Type 0 where
  nothing qos_ok recover_ok : Receipt
  consume_ok cancel_ok : GoString → Receipt

abbrev pub Received : Type 0
Received = Broker × Receipt × Option AmqpError

unfoldable pub consumer_of : Channel → Queue → BasicConsume → Consumer
unfolding new_consumer
consumer_of ch q m =
    new_consumer m.consumer_tag m.exclusive m.no_ack m.no_local q.name ch.default_prefetch_size
      ch.default_prefetch_count ch.conn_id

unfoldable pub with_queue : Broker → GoString → Queue → Broker
with_queue b name q = record b { queues = put name q b.queues }

unfoldable pub with_consumer : Broker → ℕ → Consumer → Broker
with_consumer b c new = record b {
  parties = record b.parties {
    channel = record b.parties.channel {
      consumers = put new.consumer_tag c b.parties.channel.consumers;
    };
    consumers = update c new b.parties.consumers;
  };
}

-- What follows Queue.AddConsumer, given the queue that it leaves and its code.
unfoldable pub added_to :
    Broker → ℕ → GoString → Consumer → Locked (Queue × ℕ) → Locked (Broker × Option AmqpError)
unfolding with_queue with_consumer new_soft_error
added_to b c name new blocks = blocks
added_to b c name new (runs (q, zero)) = runs (with_consumer (with_queue b name q) c new, none)
added_to b c name new (runs (q, suc code)) =
    runs (with_queue b name q, some (new_soft_error (suc code) 60 20))

-- addConsumer of the channel, for the queue `q`, which stands under `name`.
unfoldable pub subscribe :
    Broker → ℕ → GoString → Queue → BasicConsume → Locked (Broker × Option AmqpError)
unfolding added_to consumer_of new_hard_error
subscribe b c name q m =
    if contains m.consumer_tag b.parties.channel.consumers
    then runs (b, some (new_hard_error 530 60 20))
    else added_to b c name (consumer_of b.parties.channel q m) (add_consumer q c m.exclusive)

-- What is sent after addConsumer.
unfoldable pub confirmed : BasicConsume → Locked (Broker × Option AmqpError) → Locked Received
confirmed m blocks = blocks
confirmed m (runs (b, some err)) = runs (b, nothing, some err)
confirmed m (runs (b, none)) =
    runs (b, if m.no_wait then nothing else consume_ok m.consumer_tag, none)

-- The queue that is named, or the one that the channel named last.
unfoldable pub named_queue : Channel → GoString → GoString
unfolding is_nil
named_queue ch name = if is_nil name then ch.last_queue_name else name

unfoldable pub tagged : BasicConsume → GoString → BasicConsume
unfolding is_nil
tagged m random = if is_nil m.consumer_tag then record m { consumer_tag = random } else m

unfoldable pub not_found : Broker → ℕ → Received
unfolding new_soft_error
not_found b method_id = (b, nothing, some (new_soft_error 404 60 method_id))

unfoldable pub basic_consume : Broker → ℕ → GoString → BasicConsume → Locked Received
unfolding subscribe confirmed named_queue tagged not_found is_nil
basic_consume b c random m =
    let name = named_queue b.parties.channel m.queue in
    if is_nil name then runs (not_found b 20) else elim (find name b.queues) [
      | none ↦ runs (not_found b 20)
      | some q ↦ confirmed (tagged m random) (subscribe b c name q (tagged m random))
    ]

unfoldable pub cancelled : Broker → GoString → Bool → Parties × Bool → Received
unfolding not_found
cancelled b tag no_wait (h, false) = not_found b 30
cancelled b tag no_wait (h, true) =
    (record b { parties = h }, if no_wait then nothing else cancel_ok tag, none)

unfoldable pub basic_cancel : Broker → GoString → Bool → Received
unfolding cancelled
basic_cancel b tag no_wait = cancelled b tag no_wait (remove_consumer b.parties tag)

unfoldable pub basic_qos : Broker → ℕ → ℕ → Bool → Received
basic_qos b count size global = (
  record b {
    parties = record b.parties { channel = set_prefetch b.parties.channel count size global };
  },
  qos_ok,
  none,
)

unfoldable pub basic_recover : Broker → Bool → Outcome Received
basic_recover b requeue = do b' ← recover b requeue; done (b', recover_ok, none)

-- ackOne and nackOne say whether the tag was found.
unfoldable pub basic_ack : Broker → ℕ → Bool → Outcome Received
basic_ack b tag multiple =
    if multiple
    then (do b' ← ack_below b tag false; done (b', nothing, none))
    else (do (b', err) ← ack_one b tag false; done (b', nothing, err))

unfoldable pub basic_nack : Broker → ℕ → Bool → Bool → Outcome Received
basic_nack b tag multiple requeue =
    if multiple
    then (do b' ← nack_below b tag requeue false; done (b', nothing, none))
    else (do (b', err) ← nack_one b tag requeue false; done (b', nothing, err))

unfoldable pub basic_reject : Broker → ℕ → Bool → Outcome Received
basic_reject b tag requeue = do (b', err) ← nack_one b tag requeue false; done (b', nothing, err)
