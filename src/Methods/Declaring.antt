-- ===== src/Methods/Declaring.antt =====
-- Declaring a queue.
use dispatchd.Amqp.Table.{equivalent_tables, end}
use dispatchd.Binding.{Binding, binding_of, new_binding, equals}
use dispatchd.Binding.Made.{new_binding-end}
use dispatchd.Exchange.Bindings.{has_binding-add_binding}
use dispatchd.Exchange.{Exchange, is_nil, add_binding, has_binding}
use dispatchd.Queue.{Queue, equivalent_queues}
use dispatchd.Server.{Server}
use dispatchd.Methods.{Session, answer, check_name, queue_declare_ok}
use dispatchd.Methods.Queues.{
  QueueDeclare, add_queue, queue_of, is_locked, declare_active, declare_done, queue_declare,
}
use dispatchd.Common.{
  GoString, [], ap, arith, beq_refl, done, false, find, find-put, if◌then◌else◌, none, panic, put,
  refl, some, str_beq_iff, true, ◌==◌, ◌∙◌, ◌≡◌, nat_eq, str_eq, pair_eq,
}

-- The name that the queue gets.
abbrev pub declared_name : QueueDeclare → GoString → GoString
declared_name m random = if is_nil m.queue then random else m.queue

-- The binding that every queue has to the default exchange.
abbrev pub default_binding : GoString → Binding
default_binding name = record {
  queue_name = name;
  exchange_name = [];
  key = name;
  arguments = end;
  topic = false;
  topic_matcher = none;
}

-- The server once the queue is there, given the default exchange.
abbrev pub with_queue : Server → Queue → Exchange → Server
with_queue s q ex = record s {
  queues = put q.name q s.queues;
  exchanges = put [] (add_binding ex (default_binding q.name)) s.exchanges;
}

default_made :
    (name : GoString) → new_binding name [] name end false ≡ done (some (default_binding name))
unfolding binding_of
default_made name = new_binding-end name [] name false (default_binding name) refl

pub add_queue_bound :
    (s : Server) (q : Queue) (ex : Exchange)
    → find [] s.exchanges ≡ some ex
    → add_queue s q ≡ done (with_queue s q ex, true)
unfolding add_queue
add_queue_bound s q ex f = ground (arith, default_made q.name, f)

-- Without a default exchange no queue can be added.
pub add_queue_lost : (s : Server) (q : Queue) → find [] s.exchanges ≡ none → add_queue s q ≡ panic
unfolding add_queue
add_queue_lost s q f = ground (arith, default_made q.name, f)

equals_self : (b : Binding) → equals b b ≡ true
unfolding equals
equals_self b = ground (
  arith,
  str_beq_iff b.queue_name b.queue_name,
  str_beq_iff b.exchange_name b.exchange_name,
  str_beq_iff b.key b.key,
)

added_binding : (e : Exchange) (b : Binding) → has_binding b (add_binding e b).bindings ≡ true
added_binding e b = has_binding-add_binding e b b ∙ rw (equals_self b) refl

module _ (s : Session) (m : QueueDeclare) (random : GoString) (ex : Exchange) where
  abbrev pub new_one : Queue
  new_one = queue_of s m (declared_name m random)

  name_of_new : new_one.name ≡ declared_name m random
  unfolding queue_of
  name_of_new = refl

  -- The session after a queue was made.
  abbrev pub after_declare : Session
  after_declare = record s { server = with_queue s.server new_one ex }

  -- The session that the first declaration leaves.
  abbrev pub first : Session
  first = (declare_done after_declare m (declared_name m random)).0

  module _ (active : m.passive ≡ false) (valid : check_name (declared_name m random) ≡ true)
      (default_there : find [] s.server.exchanges ≡ some ex) where
    to_active : queue_declare s m random ≡ declare_active s m (declared_name m random)
    unfolding queue_declare
    to_active = ground (arith, active, valid)

    declared :
        find (declared_name m random) s.server.queues ≡ none
        → queue_declare s m random ≡ done (declare_done after_declare m (declared_name m random))
    unfolding declare_active
    declared absent =
        to_active
        ∙ rw (declare_active, absent, add_queue_bound s.server new_one ex default_there) refl

    first_server : first.server ≡ with_queue s.server new_one ex
    unfolding declare_done
    first_server = ground arith

    first_channel : first.channel.conn_id ≡ s.channel.conn_id
    unfolding declare_done
    first_channel = ground arith

    queue_there : find (declared_name m random) first.server.queues ≡ some new_one
    queue_there = rw first_server (
        find-put (declared_name m random) new_one.name new_one s.server.queues
        ∙ rw (name_of_new, beq_refl {A = GoString} (declared_name m random)) refl)

    unlocked : is_locked first new_one ≡ false
    unfolding is_locked queue_of
    unlocked = ground (arith, first_channel)

    same_again :
        equivalent_tables m.arguments m.arguments ≡ true → equivalent_queues new_one new_one ≡ true
    unfolding equivalent_queues queue_of
    same_again e = ground (arith, e, str_beq_iff (declared_name m random) (declared_name m random))

    again :
        equivalent_tables m.arguments m.arguments ≡ true
        → queue_declare first m random ≡ done (declare_done first m (declared_name m random))
    unfolding queue_declare declare_active
    again e = ground (arith, active, valid, queue_there, unlocked, same_again e)

    answered : declare_done after_declare m (declared_name m random) ≡ (first, none)
    unfolding declare_done
    answered = ground arith

    answered_again :
        declare_done first m (declared_name m random)
        ≡ answer first m.no_wait (queue_declare_ok (declared_name m random) 0 0)
    unfolding declare_done
    answered_again = ground arith

    -- A queue that is not there yet, declared under a valid name by a server that has its default
    -- exchange, is made as it was asked for, empty, and bound to the default exchange by its own name; no
    -- other queue and no other exchange changes. Declared once more in the same way (if its arguments
    -- equal themselves, which a NaN among them prevents), the answer is again that the queue is there,
    -- and the server is as it was.
    pub declare_twice :
        find (declared_name m random) s.server.queues ≡ none
        → equivalent_tables m.arguments m.arguments ≡ true
        → (queue_declare s m random ≡ done (first, none))
          × (queue_declare first m random
              ≡ done (answer first m.no_wait (queue_declare_ok (declared_name m random) 0 0)))
          × ((n : GoString)
              → find n first.server.queues
                ≡ (if declared_name m random == n then some new_one else find n s.server.queues))
          × ((e : GoString)
              → find e first.server.exchanges ≡ (
                  if [] == e
                  then some (add_binding ex (default_binding (declared_name m random)))
                  else find e s.server.exchanges))
          × (has_binding
                (default_binding (declared_name m random))
                (add_binding ex (default_binding (declared_name m random))).bindings
              ≡ true)
    unfolding is_nil queue_of
    declare_twice absent e = (
      declared absent ∙ ap done answered,
      again e ∙ ap done answered_again,
      λ n. rw first_server (find-put n new_one.name new_one s.server.queues),
      λ x. rw first_server (find-put x [] _ s.server.exchanges),
      added_binding _ _,
    )
