-- ===== src/Binding.antt =====
-- binding/binding.go: a binding of a queue to an exchange, and when a message matches it.
pub mod Topic
pub mod Id
pub mod Made
pub mod Routes
pub mod Matching
use dispatchd.Amqp.Table.{Table}
use dispatchd.Amqp.Types.{BasicPublish}
use Id.{calc_id}
use Topic.{Piece, valid_key, compile_key, match_pieces}
use dispatchd.Common.{
  Bool, GoString, List, Option, Outcome, done, if◌then◌else◌, none, panic, some, ◌&&◌, ◌==◌, ◌>>=◌,
  nat_eq, str_eq, pair_eq,
}

-- The fields of BindingState that are compared or matched; the id is a hash of the others.
pub record Binding : Type 0 where
  pub queue_name : GoString
  pub exchange_name : GoString
  pub key : GoString
  pub arguments : Table
  pub topic : Bool
  pub topic_matcher : Option (List Piece)

-- The fields of a binding; `none` is the error of a topic key that the pattern refuses.
unfoldable pub binding_of : GoString → GoString → GoString → Table → Bool → Option Binding
binding_of queue_name exchange_name key arguments topic =
    if topic
    then (if valid_key key
        then some (record {
          queue_name = queue_name;
          exchange_name = exchange_name;
          key = key;
          arguments = arguments;
          topic = topic;
          topic_matcher = some (compile_key key);
        })
        else none)
    else some (record {
      queue_name = queue_name;
      exchange_name = exchange_name;
      key = key;
      arguments = arguments;
      topic = topic;
      topic_matcher = none;
    })

-- The id is made only of a binding that passes; its encoding can panic.
unfoldable pub new_binding :
    GoString → GoString → GoString → Table → Bool → Outcome (Option Binding)
unfolding binding_of
new_binding queue_name exchange_name key arguments topic =
    elim (binding_of queue_name exchange_name key arguments topic) [
      | none ↦ done none
      | some b ↦ do id ← calc_id queue_name exchange_name key arguments; done (some b)
    ]

-- Both pointers are non-nil wherever the server calls it.
unfoldable pub equals : Binding → Binding → Bool
equals b c = b.queue_name == c.queue_name && b.exchange_name == c.exchange_name && b.key == c.key

unfoldable pub match_direct : Binding → BasicPublish → Bool
match_direct b m = m.exchange == b.exchange_name && b.key == m.routing_key

unfoldable pub match_fanout : Binding → BasicPublish → Bool
match_fanout b m = m.exchange == b.exchange_name

-- A nil matcher is dereferenced.
unfoldable pub run_matcher : Option (List Piece) → GoString → Outcome Bool
run_matcher none key = panic
run_matcher (some re) key = done (match_pieces re key)

unfoldable pub match_topic : Binding → BasicPublish → Outcome Bool
unfolding run_matcher
match_topic b m = do
  let ex = b.exchange_name == m.exchange
  matches ← run_matcher b.topic_matcher m.routing_key
  done (ex && matches)
