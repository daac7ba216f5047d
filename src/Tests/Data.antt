-- ===== src/Tests/Data.antt =====
-- A broker with one message: one copy is in the queue "q", one is unacked on the channel under tag 1.
use mathlib.Core.Path.{subst}
use dispatchd.Amqp.Table.{end}
use dispatchd.Amqp.Types.{
  BasicPublish, Properties, ContentHeaderFrame, Message, QueueMessage, minus_one,
}
use dispatchd.Limits.{Limit}
use dispatchd.MsgStore.{MessageStore}
use dispatchd.MsgStore.Batch.{count_id}
use dispatchd.MsgStore.Refs.{IdBalanced, IsBalanced}
use dispatchd.Consumer.{Consumer}
use dispatchd.Channel.{Channel, open_}
use dispatchd.Parties.{Parties, IsInRange}
use dispatchd.Queue.{Queue}
use dispatchd.Broker.{Broker}
use dispatchd.Broker.Balance.{IsConsistent, outstanding}
use dispatchd.Broker.Consume.Noted.{IsTagged}
use dispatchd.Common.{
  Bool-cases, GoString, [], arith, bytes, contains, false, find, inl, inr, nat_beq, nat_beq_iff,
  none, refl, some, total, true, ℕ, ◌∷◌, nat_eq, str_eq, pair_eq,
}

abbrev pub publish_to : GoString → GoString → BasicPublish
publish_to ex key = record {
  exchange = ex;
  routing_key = key;
  mandatory = false;
  immediate = false;
}

abbrev pub no_properties : Properties
no_properties = record {
  content_type = none;
  content_encoding = none;
  headers = none;
  delivery_mode = none;
  priority = none;
  correlation_id = none;
  reply_to = none;
  expiration = none;
  message_id = none;
  timestamp = none;
  type_name = none;
  user_id = none;
  app_id = none;
  reserved = none;
}

abbrev pub a_header : ContentHeaderFrame
a_header = record {
  content_class = 60;
  content_weight = 0;
  content_body_size = 3;
  property_flags = 0;
  properties = no_properties;
}

abbrev pub a_message : Message
a_message = record {
  id = 7;
  header = some a_header;
  payload = record { frame_type = 3; channel = 1; payload = bytes "abc" } ∷ [];
  exchange = [];
  key = bytes "q";
  method = publish_to [] (bytes "q");
  redelivered = 0;
  local_id = 5;
}

abbrev pub a_queued : QueueMessage
a_queued = record { id = 7; delivery_count = 0; durable = false; msg_size = 3; local_id = 5 }

abbrev pub a_store : MessageStore
a_store = record {
  index = (7, record { id = 7; refs = 2; durable = false; delivery_count = 0 }) ∷ [];
  messages = (7, a_message) ∷ [];
  add_ops = [];
  del_ops = [];
  delivered_ops = [];
}

abbrev pub a_queue : Queue
a_queue = record {
  name = bytes "q";
  durable = false;
  arguments = end;
  auto_delete = false;
  exclusive = false;
  closed = false;
  queue = a_queued ∷ [];
  consumer_locked = false;
  consumers = 0 ∷ [];
  current_consumer = 0;
  stat_count = 1;
  maybe_ready = true;
  sole_consumer = none;
  conn_id = minus_one;
  delete_active = 0;
  has_had_consumers = true;
}

abbrev pub a_limit : Limit
a_limit = record { prefetch_size = 0; prefetch_count = 2; active_size = 3; active_count = 1 }

abbrev pub a_consumer : Consumer
a_consumer = record {
  consumer_tag = bytes "c";
  exclusive = false;
  no_ack = false;
  no_local = false;
  queue_name = bytes "q";
  limit = a_limit;
  incoming = true;
  stopped = false;
  stat_count = 1;
  local_id = 9;
}

abbrev pub a_channel : Channel
a_channel = record {
  id = 1;
  conn_id = 9;
  state = open_;
  current_message = none;
  consumers = (bytes "c", 0) ∷ [];
  last_queue_name = bytes "q";
  flow = true;
  tx_mode = false;
  tx_messages = [];
  tx_acks = [];
  delivery_tag = 1;
  awaiting_acks =
      (1, record { consumer_tag = bytes "c"; msg = a_queued; queue_name = bytes "q" }) ∷ [];
  limit = a_limit;
  default_prefetch_size = 0;
  default_prefetch_count = 0;
}

abbrev pub some_parties : Parties
some_parties = record { channel = a_channel; consumers = λ _. a_consumer }

abbrev pub a_broker : Broker
a_broker = record {
  store = a_store;
  queues = (bytes "q", a_queue) ∷ [];
  parties = some_parties;
  registered = 0 ∷ 1 ∷ [];
  sent = [];
}

abbrev pub no_others : ℕ → ℕ
no_others id = 0

a_store-IsBalanced : IsBalanced a_store (outstanding no_others a_broker)
unfolding find contains total count_id
a_store-IsBalanced = record {
  at = λ id. elim (Bool-cases (nat_beq 7 id)) [
    | inl same ↦
        subst (λ j. IdBalanced a_store (outstanding no_others a_broker) j (find j a_store.index))
          ((nat_beq_iff 7 id).0 same) (refl, refl, omega arith, omega arith, λ _. refl)
    | inr other ↦ rw other (ground (arith, other), ground (arith, other))
  ];
}

pub a_broker-IsConsistent : IsConsistent no_others a_broker
unfolding contains find
a_broker-IsConsistent = record {
  balanced = a_store-IsBalanced;
  queues_unique = (refl, tt);
  acks_unique = (refl, tt);
  named = ((λ e. cc), tt);
}

pub a_broker-IsTagged : IsTagged a_broker
unfolding contains find
a_broker-IsTagged = record { given = λ k h. ground arith; room = omega arith }

pub some_parties-IsInRange : IsInRange some_parties
some_parties-IsInRange = record { channel = omega arith; consumers = λ c. omega arith }
