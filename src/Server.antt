-- ===== src/Server.antt =====
-- server/server.go, deleteQueue, deleteQueuesForConn and deleteExchange with what they call, and Delete and
-- cancelConsumers of queue/queue.go. Errors are given by their codes.
pub mod Deletion
pub mod Closing
use dispatchd.Amqp.Types.{minus_one}
use dispatchd.Consumer.{Consumer, stop}
use dispatchd.Parties.{update}
use dispatchd.Exchange
use dispatchd.Exchange.{Exchange, is_nil, remove_bindings_for_queue}
use dispatchd.Queue
use dispatchd.Queue.{Queue, Locked, blocks, runs, purge}
use dispatchd.Common.{
  Bool, GoString, List, Map, Option, Outcome, [], done, false, find, if◌then◌else◌, none, not,
  panic, remove, some, ℕ, ◌&&◌, ◌==◌, ◌>>=◌, ◌∷◌, nat_eq, str_eq, pair_eq,
}

-- The tables of the server, and the heap of the consumers.
pub record Server : Type 0 where
  pub queues : Map GoString Queue
  pub exchanges : Map GoString Exchange
  pub consumers : ℕ → Consumer

unfoldable pub stop_all : List ℕ → (ℕ → Consumer) → ℕ → Consumer
stop_all [] heap = heap
stop_all (c ∷ cs) heap = stop_all cs (update c (stop (heap c)) heap)

unfoldable pub cancel_consumers : Queue → (ℕ → Consumer) → Locked (Queue × (ℕ → Consumer))
unfolding stop_all
cancel_consumers q heap =
    if q.consumer_locked
    then blocks
    else runs (record q { sole_consumer = none; consumers = [] }, stop_all q.consumers heap)

-- What is left of the queue and the consumers, and the number of messages purged, or `none` for
-- either error.
unfoldable pub delete_queue_state :
    Queue → (ℕ → Consumer) → Bool → Bool → Outcome (Locked (Queue × (ℕ → Consumer) × Option ℕ))
unfolding cancel_consumers purge
delete_queue_state q heap if_unused if_empty =
    if not q.closed
    then panic
    else if if_unused && not (is_nil q.consumers)
    then done (runs (q, heap, none))
    else if if_empty && not (is_nil q.queue)
    then done (runs (q, heap, none))
    else done (elim (cancel_consumers q heap) [
      | blocks ↦ blocks
      | runs (q', heap') ↦ runs ((purge q').0, heap', some (purge q').1)
    ])

unfoldable pub unbind_everywhere : GoString → Map GoString Exchange → Map GoString Exchange
unbind_everywhere q [] = []
unbind_everywhere q ((name, ex) ∷ exs) =
    (name, remove_bindings_for_queue ex q) ∷ unbind_everywhere q exs

-- The result is the number of messages and the code, 0 for no error.
unfoldable pub delete_queue :
    Server → GoString → Bool → Bool → ℕ → Outcome (Locked (Server × ℕ × ℕ))
unfolding delete_queue_state unbind_everywhere
delete_queue s name if_unused if_empty conn_id = elim (find name s.queues) [
  | none ↦ done (runs (s, 0, 404))
  | some q ↦
      if not (q.conn_id == minus_one) && not (q.conn_id == conn_id)
      then done (runs (s, 0, 405))
      else (do
        r ← delete_queue_state (Queue.close q) s.consumers if_unused if_empty
        done (elim r [
          | blocks ↦ blocks
          | runs (q', heap, none) ↦ runs (
            record {
              queues = remove name s.queues;
              exchanges = unbind_everywhere name s.exchanges;
              consumers = heap;
            },
            0,
            406,
          )
          | runs (q', heap, some n) ↦ runs (
            record {
              queues = remove name s.queues;
              exchanges = unbind_everywhere name s.exchanges;
              consumers = heap;
            },
            n,
            0,
          )
        ]))
]

-- The names of the queues of a connection.
unfoldable pub names_of_conn : ℕ → Map GoString Queue → List GoString
names_of_conn conn_id [] = []
names_of_conn conn_id ((key, q) ∷ qs) =
    let rest = names_of_conn conn_id qs in if q.conn_id == conn_id then q.name ∷ rest else rest

unfoldable pub delete_named : Server → List GoString → ℕ → Outcome (Locked Server)
unfolding delete_queue
delete_named s [] conn_id = done (runs s)
delete_named s (name ∷ names) conn_id = do
  r ← delete_queue s name false false conn_id
  elim r [ blocks ↦ done blocks | runs (s', purged, code) ↦ delete_named s' names conn_id ]

unfoldable pub delete_queues_for_conn : Server → ℕ → Outcome (Locked Server)
unfolding delete_named names_of_conn
delete_queues_for_conn s conn_id = delete_named s (names_of_conn conn_id s.queues) conn_id

unfoldable pub delete_exchange : Server → GoString → Server × ℕ
delete_exchange s name = elim (find name s.exchanges) [
  | none ↦ (s, 404)
  | some ex ↦ if ex.system then (s, 530) else (record s { exchanges = remove name s.exchanges }, 0)
]
