-- ===== src/Methods/Queues.antt =====
-- server/queueMethods.go, and addQueue of server/server.go. What the database says to a write or a
-- deletion is the argument `saved`; what util.RandomId returns is the argument `random`.
use dispatchd.Amqp.Table.{Table, end}
use dispatchd.Amqp.Types.{minus_one}
use dispatchd.Binding.{Binding, new_binding}
use dispatchd.Exchange.{Exchange, is_nil, is_topic, add_binding, remove_binding}
use dispatchd.Queue.{
  Queue, Locked, blocks, runs, new_queue, equivalent_queues, len, active_consumer_count, purge,
}
use dispatchd.Server.{Server, delete_queue}
use dispatchd.Methods.{
  Session, Answer, answer, refuse, queue_name, check_name, queue_declare_ok, queue_purge_ok,
  queue_delete_ok, queue_bind_ok, queue_unbind_ok,
}
use dispatchd.Common.{
  Bool, GoString, Option, Outcome, [], done, false, find, if◌then◌else◌, none, not, panic, put,
  some, suc, true, zero, ℕ, ◌&&◌, ◌++◌, ◌==◌, ◌>>=◌, ◌∷◌, nat_eq, str_eq, pair_eq,
}

-- The fields of the methods that are read.
pub record QueueDeclare : Type 0 where
  pub queue : GoString
  pub passive : Bool
  pub durable : Bool
  pub exclusive : Bool
  pub auto_delete : Bool
  pub no_wait : Bool
  pub arguments : Table

pub record QueueBind : Type 0 where
  pub queue : GoString
  pub exchange : GoString
  pub routing_key : GoString
  pub no_wait : Bool
  pub arguments : Table

pub record QueueDelete : Type 0 where
  pub queue : GoString
  pub if_unused : Bool
  pub if_empty : Bool
  pub no_wait : Bool

-- Without a default exchange a nil pointer is locked. The flag says that the binding was made.
unfoldable pub add_queue : Server → Queue → Outcome (Server × Bool)
unfolding new_binding
add_queue s q =
    let s' = record s { queues = put q.name q s.queues } in
    (do
      made ← new_binding q.name [] q.name end false
      elim made [
        | none ↦ done (s', false)
        | some b ↦ elim (find [] s.exchanges) [
          | none ↦ panic
          | some ex ↦ done (record s' { exchanges = put [] (add_binding ex b) s.exchanges }, true)
        ]
      ])

unfoldable pub set_last_queue : Session → GoString → Session
set_last_queue s name = record s { channel = record s.channel { last_queue_name = name } }

-- Whether the queue belongs to another connection than the session's.
unfoldable pub is_locked : Session → Queue → Bool
is_locked s q = not (q.conn_id == minus_one) && not (q.conn_id == s.channel.conn_id)

unfoldable pub declare_passive : Session → QueueDeclare → GoString → Answer
unfolding answer refuse set_last_queue
declare_passive s m name = elim (find name s.server.queues) [
  | none ↦ refuse s 404 50 10
  | some q ↦
      answer (set_last_queue s name) m.no_wait
        (queue_declare_ok name (len q) (active_consumer_count q))
]

-- The queue that the client asks for.
unfoldable pub queue_of : Session → QueueDeclare → GoString → Queue
unfolding new_queue
queue_of s m name =
    new_queue name m.durable m.exclusive m.auto_delete m.arguments
      (if m.exclusive then s.channel.conn_id else minus_one)

unfoldable pub declare_done : Session → QueueDeclare → GoString → Answer
unfolding answer set_last_queue
declare_done s m name = answer (set_last_queue s name) m.no_wait (queue_declare_ok name 0 0)

-- An error of the database is dropped here.
unfoldable pub declare_active : Session → QueueDeclare → GoString → Outcome Answer
unfolding declare_done queue_of is_locked refuse add_queue
declare_active s m name = elim (find name s.server.queues) [
  | some q ↦
      if is_locked s q
      then done (refuse s 405 50 10)
      else if not (equivalent_queues q (queue_of s m name))
      then done (refuse s 406 50 10)
      else done (declare_done s m name)
  | none ↦ do
    (server, made) ← add_queue s.server (queue_of s m name)
    elim made [
      | false ↦ done (refuse (record s { server = server }) 500 50 10)
      | true ↦ done (declare_done (record s { server = server }) m name)
    ]
]

unfoldable pub queue_declare : Session → QueueDeclare → GoString → Outcome Answer
unfolding declare_passive declare_active refuse is_nil
queue_declare s m random =
    let name = if is_nil m.queue then random else m.queue in
    if not (check_name name)
    then done (refuse s 406 50 10)
    else if m.passive
    then done (declare_passive s m name)
    else declare_active s m name

-- The exchange is changed in place, before the binding is saved.
unfoldable pub bind_made : Session → QueueBind → Bool → Exchange → Queue → Option Binding → Answer
unfolding answer refuse
bind_made s m saved ex q none = refuse s 500 50 20
bind_made s m saved ex q (some b) =
    let s' = record s {
      server = record s.server { exchanges = put m.exchange (add_binding ex b) s.server.exchanges };
    } in
    if ex.durable && q.durable && not saved
    then refuse s' 500 50 20
    else answer s' m.no_wait queue_bind_ok

unfoldable pub bind_found :
    Session → QueueBind → GoString → Bool → Exchange → Queue → Outcome Answer
unfolding bind_made refuse is_locked
bind_found s m name saved ex q =
    if q.closed
    then done (refuse s 404 50 20)
    else if is_locked s q
    then done (refuse s 405 50 20)
    else (do
      made ← new_binding name m.exchange m.routing_key m.arguments (is_topic ex)
      done (bind_made s m saved ex q made))

unfoldable pub queue_bind : Session → QueueBind → Bool → Outcome Answer
unfolding bind_found refuse queue_name
queue_bind s m saved = elim (queue_name s m.queue) [
  | none ↦ done (refuse s 404 50 20)
  | some name ↦ elim (find m.exchange s.server.exchanges) [
    | none ↦ done (refuse s 404 50 20)
    | some ex ↦ elim (find name s.server.queues) [
      | none ↦ done (refuse s 404 50 20)
      | some q ↦ bind_found s m name saved ex q
    ]
  ]
]

unfoldable pub purge_found : Session → GoString → Bool → Queue → Answer
unfolding answer refuse is_locked purge
purge_found s name no_wait q =
    if is_locked s q
    then refuse s 405 50 30
    else answer
        (record s { server = record s.server { queues = put name (purge q).0 s.server.queues } })
        no_wait (queue_purge_ok (purge q).1)

unfoldable pub queue_purge : Session → GoString → Bool → Answer
unfolding purge_found refuse queue_name
queue_purge s queue no_wait = elim (queue_name s queue) [
  | none ↦ refuse s 404 50 30
  | some name ↦ elim (find name s.server.queues) [
    | none ↦ refuse s 404 50 30
    | some q ↦ purge_found s name no_wait q
  ]
]

-- What is sent after deleteQueue, given its count and its code.
unfoldable pub deleted : Session → Bool → Locked (Server × ℕ × ℕ) → Locked Answer
unfolding answer refuse
deleted s no_wait blocks = blocks
deleted s no_wait (runs (server, purged, zero)) =
    runs (answer (record s { server = server }) no_wait (queue_delete_ok purged))
deleted s no_wait (runs (server, purged, suc code)) =
    runs (refuse (record s { server = server }) (suc code) 50 40)

unfoldable pub queue_delete : Session → QueueDelete → Outcome (Locked Answer)
unfolding deleted refuse queue_name
queue_delete s m = elim (queue_name s m.queue) [
  | none ↦ done (runs (refuse s 404 50 40))
  | some name ↦ do
    r ← delete_queue s.server name m.if_unused m.if_empty s.channel.conn_id
    done (deleted s m.no_wait r)
]

-- The exchange that a binding was taken from, and whether its timeout starts.
unfoldable pub unbound : Session → GoString → Exchange × Bool → Session
unbound s name (ex, starts) = record s {
  server = record s.server { exchanges = put name ex s.server.exchanges };
  timeouts = if starts then s.timeouts ++ name ∷ [] else s.timeouts;
}

unfoldable pub unbind_made : Session → QueueBind → Bool → Exchange → Queue → Option Binding → Answer
unfolding answer refuse unbound
unbind_made s m saved ex q none = refuse s 500 50 50
unbind_made s m saved ex q (some b) =
    if q.durable && ex.durable && not saved
    then refuse s 500 50 50
    else answer (unbound s m.exchange (remove_binding ex b)) false queue_unbind_ok

unfoldable pub unbind_found : Session → QueueBind → GoString → Bool → Queue → Outcome Answer
unfolding unbind_made refuse is_locked
unbind_found s m name saved q =
    if is_locked s q then done (refuse s 405 50 50) else elim (find m.exchange s.server.exchanges) [
      | none ↦ done (refuse s 404 50 50)
      | some ex ↦ do
        made ← new_binding name m.exchange m.routing_key m.arguments (is_topic ex)
        done (unbind_made s m saved ex q made)
    ]

-- QueueUnbind has the fields of QueueBind but for no-wait.
unfoldable pub queue_unbind : Session → QueueBind → Bool → Outcome Answer
unfolding unbind_found refuse queue_name
queue_unbind s m saved = elim (queue_name s m.queue) [
  | none ↦ done (refuse s 404 50 50)
  | some name ↦ elim (find name s.server.queues) [
    | none ↦ done (refuse s 404 50 50)
    | some q ↦ unbind_found s m name saved q
  ]
]
