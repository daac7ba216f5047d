-- ===== src/Methods/Owners.antt =====
-- An exclusive queue and the handlers that another connection calls.
use dispatchd.Amqp.Types.{minus_one}
use dispatchd.Exchange.{Exchange, is_nil}
use dispatchd.Queue.{Queue, runs}
use dispatchd.Server.{delete_queue}
use dispatchd.Methods.{Session, refuse, check_name}
use dispatchd.Methods.Queues.{
  QueueDeclare, QueueBind, QueueDelete, is_locked, declare_active, queue_declare, queue_bind,
  queue_purge, queue_delete, queue_unbind, bind_found, purge_found, unbind_found, deleted,
}
use dispatchd.Common.{
  Bool, GoString, List-cases, [], arith, done, false, find, inl, inr, refl, some, true, ◌≡◌, ◌≢◌,
  nat_eq, str_eq, pair_eq,
}

module _ (s : Session) (name : GoString) (q : Queue) (here : find name s.server.queues ≡ some q)
    (named : name ≢ []) (owned : q.conn_id ≢ minus_one)
    (foreign : q.conn_id ≢ s.channel.conn_id) where
  locked : is_locked s q ≡ true
  unfolding is_locked
  locked = ground (arith, owned, foreign)

  nonempty : is_nil name ≡ false
  unfolding is_nil
  nonempty = elim (List-cases name) [ inl e ↦ absurd (named e) | inr (c, r, e) ↦ rw e refl ]

  declare_refused :
      (m : QueueDeclare) (random : GoString)
      → m.queue ≡ name
      → m.passive ≡ false
      → check_name name ≡ true
      → queue_declare s m random ≡ done (refuse s 405 50 10)
  unfolding queue_declare declare_active
  declare_refused m random em mp c =
      let empty : is_nil m.queue ≡ false = rw em nonempty in
      ground (arith, empty, em, mp, c, here, locked)

  bind_refused :
      (b : QueueBind) (saved : Bool) (ex : Exchange)
      → b.queue ≡ name
      → find b.exchange s.server.exchanges ≡ some ex
      → q.closed ≡ false
      → queue_bind s b saved ≡ done (refuse s 405 50 20)
  unfolding queue_bind bind_found
  bind_refused b saved ex eb fe open_q =
      let empty : is_nil b.queue ≡ false = rw eb nonempty in
      ground (arith, empty, eb, fe, here, open_q, locked)

  purge_refused : (no_wait : Bool) → queue_purge s name no_wait ≡ refuse s 405 50 30
  unfolding queue_purge purge_found
  purge_refused no_wait = ground (arith, nonempty, here, locked)

  delete_refused :
      (d : QueueDelete) → d.queue ≡ name → queue_delete s d ≡ done (runs (refuse s 405 50 40))
  unfolding queue_delete deleted delete_queue is_locked
  delete_refused d ed =
      let empty : is_nil d.queue ≡ false = rw ed nonempty in ground (arith, empty, ed, here, locked)

  unbind_refused :
      (b : QueueBind) (saved : Bool)
      → b.queue ≡ name
      → queue_unbind s b saved ≡ done (refuse s 405 50 50)
  unfolding queue_unbind unbind_found
  unbind_refused b saved eb =
      let empty : is_nil b.queue ≡ false = rw eb nonempty in ground (arith, empty, eb, here, locked)

  -- A queue that belongs to another connection can be neither declared again, nor bound to an
  -- exchange, nor purged, deleted or unbound: each of these five is refused with code 405, and
  -- changes nothing. (Redeclaring is meant without the passive flag, binding while the queue is open
  -- and of an exchange that is there.)
  pub exclusive_refused :
      (m : QueueDeclare) (b : QueueBind) (d : QueueDelete) (random : GoString)
      (saved no_wait : Bool) (ex : Exchange)
      → m.queue ≡ name
      → m.passive ≡ false
      → check_name name ≡ true
      → b.queue ≡ name
      → find b.exchange s.server.exchanges ≡ some ex
      → q.closed ≡ false
      → d.queue ≡ name
      → (queue_declare s m random ≡ done (refuse s 405 50 10))
        × (queue_bind s b saved ≡ done (refuse s 405 50 20))
        × (queue_purge s name no_wait ≡ refuse s 405 50 30)
        × (queue_delete s d ≡ done (runs (refuse s 405 50 40)))
        × (queue_unbind s b saved ≡ done (refuse s 405 50 50))
  exclusive_refused m b d random saved no_wait ex em mp c eb fe open_q ed = (
    declare_refused m random em mp c,
    bind_refused b saved ex eb fe open_q,
    purge_refused no_wait,
    delete_refused d ed,
    unbind_refused b saved eb,
  )
