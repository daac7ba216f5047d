-- ===== src/Tests/Handlers.antt =====
-- The handlers of the queue and exchange methods on concrete inputs.
use dispatchd.Amqp.Table.{end, equivalent_tables, null, pair}
use dispatchd.Exchange.{
  is_topic, exchange_name_to_type, Exchange, ex_type_topic, has_binding, add_binding, is_nil,
}
use dispatchd.Queue.{runs}
use dispatchd.Wire.{write_shortstr}
use dispatchd.Methods.{queue_name, Session, answer, refuse, check_name, queue_declare_ok}
use dispatchd.Methods.Queues.{
  is_locked, QueueDeclare, QueueBind, QueueDelete, queue_declare, queue_bind, queue_purge,
  queue_delete, queue_unbind,
}
use dispatchd.Methods.Exchanges.{has_prefix, ExchangeDeclare, exchange_declare, exchange_delete}
use dispatchd.Methods.Declaring.{default_binding, declare_twice, first, new_one}
use dispatchd.Methods.Crash.{IsFatal, is_taken, queue_bind_panics}
use dispatchd.Wire.FieldWriter.{write_table, write_value}
use dispatchd.Methods.Owners.{exclusive_refused}
use dispatchd.Methods.Replacing.{exchange_declare_server, fresh, asked, creates, gives_way}
use dispatchd.Methods.Default.{default_exchange_lost}
use dispatchd.Methods.Tables.{IsTidy}
use dispatchd.Methods.Tidy.{here, next, purges, deletes_exchange, Reach-IsTidy}
use dispatchd.Tests.Data.{a_channel, a_queue, some_parties}
use dispatchd.Tests.Lifecycle.{fan}
use dispatchd.Common.{
  GoString, [], arith, bytes, contains, done, false, find, if◌then◌else◌, none, panic, put, refl,
  some, str_beq, true, ◌==◌, ◌↔◌, ◌∷◌, ◌≡◌, nat_eq, str_eq, pair_eq,
}

abbrev default_one : Exchange
default_one = record {
  name = [];
  ex_type = ex_type_topic;
  durable = true;
  auto_delete = false;
  internal = false;
  arguments = end;
  system = true;
  bindings = [];
  closed = false;
  delete_active = 0;
}

-- The queue "q" belongs to connection 4, the session to connection 9.
abbrev a_session : Session
a_session = record {
  server = record {
    queues = (bytes "q", record a_queue { conn_id = 4 }) ∷ [];
    exchanges = ([], default_one) ∷ (bytes "e", fan) ∷ [];
    consumers = some_parties.consumers;
  };
  channel = a_channel;
  replies = [];
  timeouts = [];
}

abbrev declares_queue : GoString → QueueDeclare
declares_queue name = record {
  queue = name;
  passive = false;
  durable = false;
  exclusive = false;
  auto_delete = false;
  no_wait = false;
  arguments = end;
}

declare_twice_example :
    (queue_declare a_session (declares_queue []) (bytes "r")
      ≡ done (first a_session (declares_queue []) (bytes "r") default_one, none))
    × (queue_declare
          (first a_session (declares_queue []) (bytes "r") default_one)
          (declares_queue [])
          (bytes "r")
        ≡ done (
            answer
              (first a_session (declares_queue []) (bytes "r") default_one)
              false
              (queue_declare_ok (bytes "r") 0 0)))
    × ((n : GoString)
        → find n (first a_session (declares_queue []) (bytes "r") default_one).server.queues ≡ (
            if bytes "r" == n
            then some (new_one a_session (declares_queue []) (bytes "r") default_one)
            else find n a_session.server.queues))
    × ((e : GoString)
        → find e (first a_session (declares_queue []) (bytes "r") default_one).server.exchanges ≡ (
            if [] == e
            then some (add_binding default_one (default_binding (bytes "r")))
            else find e a_session.server.exchanges))
    × (has_binding
          (default_binding (bytes "r"))
          (add_binding default_one (default_binding (bytes "r"))).bindings
        ≡ true)
unfolding find str_beq check_name is_nil equivalent_tables
declare_twice_example =
    declare_twice a_session (declares_queue []) (bytes "r") default_one refl refl refl refl refl

abbrev a_bind : QueueBind
a_bind = record {
  queue = bytes "q";
  exchange = bytes "e";
  routing_key = bytes "k";
  no_wait = false;
  arguments = end;
}

abbrev a_delete : QueueDelete
a_delete = record { queue = bytes "q"; if_unused = false; if_empty = false; no_wait = false }

exclusive_refused_example :
    (queue_declare a_session (declares_queue (bytes "q")) [] ≡ done (refuse a_session 405 50 10))
    × (queue_bind a_session a_bind true ≡ done (refuse a_session 405 50 20))
    × (queue_purge a_session (bytes "q") false ≡ refuse a_session 405 50 30)
    × (queue_delete a_session a_delete ≡ done (runs (refuse a_session 405 50 40)))
    × (queue_unbind a_session a_bind true ≡ done (refuse a_session 405 50 50))
unfolding find str_beq check_name
exclusive_refused_example =
    exclusive_refused a_session (bytes "q") (record a_queue { conn_id = 4 }) refl (λ e. cc)
      (λ e. omega arith) (λ e. omega arith) (declares_queue (bytes "q")) a_bind a_delete [] true
      false fan refl refl refl refl refl refl refl

-- A binding with a nil value among its arguments, by the connection that owns the queue.
abbrev fatal_bind : QueueBind
fatal_bind = record a_bind { arguments = pair (bytes "x") null end }

abbrev owner_session : Session
owner_session = record a_session { channel = record a_channel { conn_id = 4 } }

queue_bind_panics_example :
    (queue_bind owner_session fatal_bind true ≡ panic) ↔ IsFatal owner_session fatal_bind
queue_bind_panics_example = queue_bind_panics owner_session fatal_bind true

fatal_bind_test : queue_bind owner_session fatal_bind true ≡ panic
unfolding find str_beq is_taken is_topic is_locked write_table write_value queue_name write_shortstr
fatal_bind_test = (queue_bind_panics owner_session fatal_bind true).1 (
  bytes "q",
  fan,
  record a_queue { conn_id = 4 },
  refl,
  refl,
  refl,
  refl,
  refl,
  (omega arith, omega arith, omega arith, refl),
)

abbrev declares_topic : GoString → ExchangeDeclare
declares_topic name = record {
  exchange = name;
  type_name = bytes "topic";
  passive = false;
  durable = false;
  auto_delete = false;
  internal = false;
  no_wait = false;
  arguments = end;
}

exchange_declare_server_example :
    (exchange_declare a_session (declares_topic (bytes "n")) true).0.server
    ≡ record a_session.server {
      exchanges =
          put
            (bytes "n")
            (fresh (declares_topic (bytes "n")) ex_type_topic)
            a_session.server.exchanges;
    }
unfolding asked creates gives_way find str_beq check_name has_prefix exchange_name_to_type
exchange_declare_server_example =
    exchange_declare_server a_session (declares_topic (bytes "n")) true

default_exchange_lost_example :
    (find [] (exchange_declare a_session (declares_topic []) true).0.server.exchanges
      ≡ some (fresh (declares_topic []) ex_type_topic))
    × ((exchange_delete (exchange_declare a_session (declares_topic []) true).0 [] false).1 ≡ none)
    × (find []
          (exchange_delete
            (exchange_declare a_session (declares_topic []) true).0
            []
            false).0.server.exchanges
        ≡ none)
    × (queue_declare
          (exchange_delete (exchange_declare a_session (declares_topic []) true).0 [] false).0
          (declares_queue (bytes "r"))
          []
        ≡ panic)
unfolding find str_beq check_name is_nil
default_exchange_lost_example =
    default_exchange_lost a_session default_one (declares_topic []) (declares_queue (bytes "r")) []
      true false refl refl refl refl refl refl refl refl refl refl

a_session-IsTidy : IsTidy a_session.server
unfolding contains find str_beq
a_session-IsTidy = record {
  queues = (refl, tt);
  exchanges = ((refl, tt), ((refl, (refl, tt)), tt));
  queues_unique = (refl, tt);
  exchanges_unique = (refl, (refl, tt));
}

Reach-IsTidy_example :
    IsTidy (exchange_delete (queue_purge a_session (bytes "q") false).0 (bytes "e") false).0.server
Reach-IsTidy_example =
    Reach-IsTidy a_session-IsTidy
      (next (next here (purges (bytes "q") false refl)) (deletes_exchange (bytes "e") false refl))
