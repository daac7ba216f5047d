-- ===== src/Methods.antt =====
-- What the handlers of the protocol's methods share: server/queueMethods.go,
-- server/exchangeMethods.go and the other files server/*Methods.go. A handler works on a session, the
-- tables of the server and one channel, and returns the error that is then sent to the client.
pub mod Queues
pub mod Exchanges
pub mod Replacing
pub mod Default
pub mod Tables
pub mod Effects
pub mod Tidy
pub mod Crash
pub mod Declaring
pub mod Owners
use dispatchd.Amqp.Types.{AmqpError, new_soft_error, new_hard_error}
use dispatchd.Channel.{Channel}
use dispatchd.Server.{Server}
use dispatchd.Exchange.{is_nil}
use dispatchd.Common.{
  Bool, GoString, List, Option, [], if◌then◌else◌, leb, length, ltb, none, not, some, true, ℕ, ◌&&◌,
  ◌++◌, ◌==◌, ◌||◌, ◌∷◌, nat_eq, str_eq, pair_eq,
}

-- The methods that are sent back, with the fields that carry something.
pub data Reply : Type 0 where
  queue_declare_ok : GoString → ℕ → ℕ → Reply
  queue_purge_ok queue_delete_ok : ℕ → Reply
  queue_bind_ok queue_unbind_ok exchange_declare_ok exchange_delete_ok : Reply

-- `timeouts` are the exchanges whose auto-delete timeout was started.
pub record Session : Type 0 where
  pub server : Server
  pub channel : Channel
  pub replies : List Reply
  pub timeouts : List GoString

abbrev pub Answer : Type 0
Answer = Session × Option AmqpError

-- SendMethod, unless the client said no-wait.
unfoldable pub answer : Session → Bool → Reply → Answer
answer s no_wait r = (if no_wait then s else record s { replies = s.replies ++ r ∷ [] }, none)

unfoldable pub refuse : Session → ℕ → ℕ → ℕ → Answer
unfolding new_soft_error
refuse s code class_id method_id = (s, some (new_soft_error code class_id method_id))

unfoldable pub refuse_hard : Session → ℕ → ℕ → ℕ → Answer
unfolding new_hard_error
refuse_hard s code class_id method_id = (s, some (new_hard_error code class_id method_id))

-- An empty name stands for the queue that the channel named last; `none` if there is none.
unfoldable pub queue_name : Session → GoString → Option GoString
unfolding is_nil
queue_name s name =
    if is_nil name
    then (if is_nil s.channel.last_queue_name then none else some s.channel.last_queue_name)
    else some name

-- [a-zA-Z0-9-_.:]
unfoldable pub is_name_char : ℕ → Bool
is_name_char c =
    (leb b'a' c && leb c b'z')
    || (leb b'A' c && leb c b'Z')
    || (leb b'0' c && leb c b'9')
    || c == b'-'
    || c == b'_'
    || c == b'.'
    || c == b':'

unfoldable pub all_name_chars : GoString → Bool
unfolding is_name_char
all_name_chars [] = true
all_name_chars (c ∷ s) = is_name_char c && all_name_chars s

-- CheckExchangeOrQueueName of amqp/types.go; true for no error.
unfoldable pub check_name : GoString → Bool
unfolding all_name_chars
check_name s = not (ltb 127 (length s)) && all_name_chars s
