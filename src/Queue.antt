-- ===== src/Queue.antt =====
-- queue/queue.go: a queue, its list of queue messages and its consumers.
pub mod Order
pub mod Lock
pub mod Wake
use dispatchd.Amqp.Types.{Message, QueueMessage, minus_one}
use dispatchd.Amqp.Table.{Table, equivalent_tables}
use dispatchd.MsgStore
use dispatchd.MsgStore.{MessageStore, incr_delivery_count}
use dispatchd.Consumer.{Consumer, ping}
use dispatchd.Parties.{Party, Parties, parties, update}
use dispatchd.Common.{
  Bool, GoString, List, Option, Outcome, [], bool_beq, done, false, if◌then◌else◌, length, none,
  not, some, suc, true, zero, ℕ, ◌%◌, ◌&&◌, ◌++◌, ◌+◌, ◌==◌, ◌>>=◌, ◌^◌, ◌∷◌, nat_eq, str_eq,
  pair_eq,
}

-- `maybe_ready` says whether the buffered channel of that name holds a value, `consumer_locked`
-- whether consumerLock is held by a call that has returned. `consumers` and `sole_consumer` are
-- places in the heap. Times are in nanoseconds.
pub record Queue : Type 0 where
  pub name : GoString
  pub durable : Bool
  pub arguments : Table
  pub auto_delete : Bool
  pub exclusive : Bool
  pub closed : Bool
  pub queue : List QueueMessage
  pub consumer_locked : Bool
  pub consumers : List ℕ
  pub current_consumer : ℕ
  pub stat_count : ℕ
  pub maybe_ready : Bool
  pub sole_consumer : Option ℕ
  pub conn_id : ℕ
  pub delete_active : ℕ
  pub has_had_consumers : Bool

unfoldable pub new_queue : GoString → Bool → Bool → Bool → Table → ℕ → Queue
new_queue name durable exclusive auto_delete arguments conn_id = record {
  name = name;
  durable = durable;
  arguments = arguments;
  auto_delete = auto_delete;
  exclusive = exclusive;
  closed = false;
  queue = [];
  consumer_locked = false;
  consumers = [];
  current_consumer = 0;
  stat_count = 0;
  maybe_ready = false;
  sole_consumer = none;
  conn_id = conn_id;
  delete_active = 0;
  has_had_consumers = false;
}

unfoldable pub new_from_persisted_state : GoString → Bool → Table → Queue
unfolding new_queue
new_from_persisted_state name durable arguments =
    new_queue name durable false false arguments minus_one

-- Auto-delete is left out of the comparison.
unfoldable pub equivalent_queues : Queue → Queue → Bool
equivalent_queues p q =
    p.name == q.name
    && bool_beq p.durable q.durable
    && bool_beq p.exclusive q.exclusive
    && equivalent_tables p.arguments q.arguments

unfoldable pub len : Queue → ℕ
len q = length q.queue % 2 ^ 32

unfoldable pub active_consumer_count : Queue → ℕ
active_consumer_count q = length q.consumers % 2 ^ 32

unfoldable pub load_from_msg_store : Queue → List QueueMessage → Queue
load_from_msg_store q loaded = record q { queue = loaded; maybe_ready = true }

unfoldable pub close : Queue → Queue
close q = record q { closed = true }

unfoldable pub purge : Queue → Queue × ℕ
unfolding len
purge q = (record q { queue = [] }, len q)

unfoldable pub add : Queue → QueueMessage → Queue × Bool
add q qm =
    if not q.closed
    then (
      record q {
        stat_count = (q.stat_count + 1) % 2 ^ 64;
        queue = q.queue ++ qm ∷ [];
        maybe_ready = true;
      },
      true,
    )
    else (q, false)

unfoldable pub readd : MessageStore → Queue → GoString → QueueMessage → MessageStore × Queue
readd ms q queue_name qm =
    let (ms', qm') = incr_delivery_count ms queue_name qm in
    (ms', record q { queue = qm' ∷ q.queue; maybe_ready = true })

unfoldable pub get_one_forced : Queue → Queue × Option QueueMessage
get_one_forced q = elim q.queue [
  | [] ↦ (q, none)
  | qm ∷ rest ↦ (record q { queue = rest }, some qm)
]

-- The outcome of MsgStore.Get, with the front of the queue removed where it was acquired.
unfoldable pub take_front :
    Queue
    → QueueMessage
    → List QueueMessage
    → Option Message × Parties
    → Queue × Option (QueueMessage × Message) × Parties
take_front q qm rest (none, h) = (q, none, h)
take_front q qm rest (some msg, h) = (record q { queue = rest }, some (qm, msg), h)

unfoldable pub get_one :
    MessageStore
    → Queue
    → List Party
    → Parties
    → Outcome (Queue × Option (QueueMessage × Message) × Parties)
unfolding take_front
get_one ms q rhs h = elim q.queue [
  | [] ↦ done (q, none, h)
  | qm ∷ rest ↦
      if q.closed
      then done (q, none, h)
      else (do got ← MsgStore.get parties ms qm rhs h; done (take_front q qm rest got))
]

-- What a call that takes consumerLock does: it waits for ever if the lock is never given back.
pub data Locked {ℓ} (A : Type ℓ) : Type ℓ where
  blocks : Locked A
  runs : A → Locked A

unfoldable pub is_empty {ℓ} : {A : Type ℓ} → List A → Bool
is_empty [] = true
is_empty (x ∷ xs) = false

-- The code is 0 for no error. The refusal of an exclusive consumer returns with the lock held.
unfoldable pub add_consumer : Queue → ℕ → Bool → Locked (Queue × ℕ)
unfolding is_empty
add_consumer q c exclusive =
    if q.closed
    then runs (q, 0)
    else if q.consumer_locked
    then blocks
    else if exclusive
    then (if is_empty q.consumers
        then runs (
          record q {
            delete_active = 0;
            sole_consumer = some c;
            consumers = q.consumers ++ c ∷ [];
            has_had_consumers = true;
          },
          0,
        )
        else runs (record q { delete_active = 0; consumer_locked = true }, 403))
    else runs (
      record q { delete_active = 0; consumers = q.consumers ++ c ∷ []; has_had_consumers = true },
      0,
    )

unfoldable pub nth : List ℕ → ℕ → ℕ
nth [] i = 0
nth (c ∷ cs) zero = c
nth (c ∷ cs) (suc i) = nth cs i

ping_loop : ℕ → List ℕ → ℕ → (ℕ → Consumer) → ℕ × (ℕ → Consumer)
unfolding nth
ping_loop zero cs current heap = (current, heap)
ping_loop (suc count) cs current heap =
    let next = (current + 1) % length cs in
    ping_loop count cs next (update (nth cs next) (ping (heap (nth cs next))) heap)

unfoldable pub process_one : Queue → (ℕ → Consumer) → Locked (Queue × (ℕ → Consumer))
unfolding ping_loop is_empty
process_one q heap =
    if q.consumer_locked
    then blocks
    else if is_empty q.consumers
    then runs (q, heap)
    else (let (current, heap') =
          ping_loop (length q.consumers) q.consumers q.current_consumer heap in
        runs (record q { current_consumer = current }, heap'))
