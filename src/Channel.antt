-- ===== src/Channel.antt =====
-- server/channel.go: the state of one channel, and what touches nothing else.
use dispatchd.Amqp.Types.{
  Message, QueueMessage, UnackedMessage, TxMessage, TxAck, BasicPublish, new_message,
}
use dispatchd.Limits.{Limit}
use dispatchd.Common.{
  Bool, GoString, List, Map, Option, Outcome, [], contains, done, false, if◌then◌else◌, none, panic,
  put, some, true, ℕ, ◌%◌, ◌+◌, ◌^◌, nat_eq, str_eq, pair_eq,
}

pub data State : Type 0 where
  init open_ closing closed : State

-- `consumers` maps a tag to the consumer's place in the heap of the broker.
pub record Channel : Type 0 where
  pub id : ℕ
  pub conn_id : ℕ
  pub state : State
  pub current_message : Option Message
  pub consumers : Map GoString ℕ
  pub last_queue_name : GoString
  pub flow : Bool
  pub tx_mode : Bool
  pub tx_messages : List TxMessage
  pub tx_acks : List TxAck
  pub delivery_tag : ℕ
  pub awaiting_acks : Map ℕ UnackedMessage
  pub limit : Limit
  pub default_prefetch_size : ℕ
  pub default_prefetch_count : ℕ

unfoldable pub new_channel : ℕ → ℕ → Channel
new_channel id conn_id = record {
  id = id;
  conn_id = conn_id;
  state = init;
  current_message = none;
  consumers = [];
  last_queue_name = [];
  flow = true;
  tx_mode = false;
  tx_messages = [];
  tx_acks = [];
  delivery_tag = 0;
  awaiting_acks = [];
  limit = record { prefetch_size = 0; prefetch_count = 0; active_size = 0; active_count = 0 };
  default_prefetch_size = 0;
  default_prefetch_count = 0;
}

unfoldable pub start_tx_mode : Channel → Channel
start_tx_mode ch = record ch { tx_mode = true }

unfoldable pub rollback_tx : Channel → Channel
rollback_tx ch = record ch { tx_messages = []; tx_acks = [] }

unfoldable pub set_prefetch : Channel → ℕ → ℕ → Bool → Channel
set_prefetch ch count size global =
    if global
    then record ch { limit = record ch.limit { prefetch_size = size; prefetch_count = count } }
    else record ch { default_prefetch_size = size; default_prefetch_count = count }

unfoldable pub set_state_open : Channel → Channel
set_state_open ch = record ch { state = open_ }

-- `id` is what util.NextId returns.
unfoldable pub start_publish : Channel → ℕ → BasicPublish → Channel
unfolding new_message
start_publish ch id method = record ch { current_message = some (new_message id method ch.conn_id) }

-- deliveryTag++ in uint64; the new tag is the result.
unfoldable pub next_delivery_tag : Channel → Channel
next_delivery_tag ch = record ch { delivery_tag = (ch.delivery_tag + 1) % 2 ^ 64 }

unfoldable pub new_unacked_message : GoString → QueueMessage → GoString → UnackedMessage
new_unacked_message tag qm queue_name = record {
  consumer_tag = tag;
  msg = qm;
  queue_name = queue_name;
}

-- A tag that is awaited already makes it panic.
unfoldable pub add_unacked_message :
    Channel → GoString → QueueMessage → GoString → Outcome (Channel × ℕ)
unfolding next_delivery_tag new_unacked_message
add_unacked_message ch consumer_tag qm queue_name =
    let ch' = next_delivery_tag ch in
    let tag = ch'.delivery_tag in
    if contains tag ch'.awaiting_acks
    then panic
    else done (
      record ch' {
        awaiting_acks = put tag (new_unacked_message consumer_tag qm queue_name) ch'.awaiting_acks;
      },
      tag,
    )
