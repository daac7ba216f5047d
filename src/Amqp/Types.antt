-- ===== src/Amqp/Types.antt =====
-- amqp/messages.proto, amqp/types.go, amqp/tx.go and amqp/errors.go: the records that the server
-- keeps. An int64, int32 or narrower number is held as its bit pattern, so -1 is `minus_one`.
use dispatchd.Amqp.Table.{Table}
use dispatchd.Common.{Bool, GoString, List, Option, [], false, none, true, ℕ, ◌-◌, ◌^◌}

abbrev pub minus_one : ℕ
minus_one = 2 ^ 64 - 1

-- The fields of BasicPublish that are read.
pub record BasicPublish : Type 0 where
  pub exchange : GoString
  pub routing_key : GoString
  pub mandatory : Bool
  pub immediate : Bool

-- A nil field of the properties is `none`.
pub record Properties : Type 0 where
  pub content_type : Option GoString
  pub content_encoding : Option GoString
  pub headers : Option Table
  pub delivery_mode : Option ℕ
  pub priority : Option ℕ
  pub correlation_id : Option GoString
  pub reply_to : Option GoString
  pub expiration : Option GoString
  pub message_id : Option GoString
  pub timestamp : Option ℕ
  pub type_name : Option GoString
  pub user_id : Option GoString
  pub app_id : Option GoString
  pub reserved : Option GoString

pub record ContentHeaderFrame : Type 0 where
  pub content_class : ℕ
  pub content_weight : ℕ
  pub content_body_size : ℕ
  pub property_flags : ℕ
  pub properties : Properties

pub record WireFrame : Type 0 where
  pub frame_type : ℕ
  pub channel : ℕ
  pub payload : GoString

pub record Message : Type 0 where
  pub id : ℕ
  pub header : Option ContentHeaderFrame
  pub payload : List WireFrame
  pub exchange : GoString
  pub key : GoString
  pub method : BasicPublish
  pub redelivered : ℕ
  pub local_id : ℕ

-- `id` is what util.NextId returns.
unfoldable pub new_message : ℕ → BasicPublish → ℕ → Message
new_message id method local_id = record {
  id = id;
  header = none;
  payload = [];
  exchange = method.exchange;
  key = method.routing_key;
  method = method;
  redelivered = 0;
  local_id = local_id;
}

pub record IndexMessage : Type 0 where
  pub id : ℕ
  pub refs : ℕ
  pub durable : Bool
  pub delivery_count : ℕ

pub record QueueMessage : Type 0 where
  pub id : ℕ
  pub delivery_count : ℕ
  pub durable : Bool
  pub msg_size : ℕ
  pub local_id : ℕ

pub record UnackedMessage : Type 0 where
  pub consumer_tag : GoString
  pub msg : QueueMessage
  pub queue_name : GoString

pub record TxMessage : Type 0 where
  pub msg : Message
  pub queue_name : GoString

pub record TxAck : Type 0 where
  pub tag : ℕ
  pub nack : Bool
  pub requeue_nack : Bool
  pub multiple : Bool

-- The text of an error is not modelled.
pub record AmqpError : Type 0 where
  pub code : ℕ
  pub class_id : ℕ
  pub method_id : ℕ
  pub soft : Bool

unfoldable pub new_soft_error : ℕ → ℕ → ℕ → AmqpError
new_soft_error code class_id method_id = record {
  code = code;
  class_id = class_id;
  method_id = method_id;
  soft = true;
}

unfoldable pub new_hard_error : ℕ → ℕ → ℕ → AmqpError
new_hard_error code class_id method_id = record {
  code = code;
  class_id = class_id;
  method_id = method_id;
  soft = false;
}
