-- ===== src/Methods/Tidy.antt =====
-- Any sequence of the handlers that change the tables of the server keeps them in order.
use mathlib.Core.Path.{subst}
use dispatchd.Amqp.Types.{AmqpError}
use dispatchd.Exchange.{Exchange, new_exchange, add_binding, remove_binding}
use dispatchd.Queue.{Queue, runs, purge}
use dispatchd.Server.{Server}
use dispatchd.Methods.{Session}
use dispatchd.Methods.Queues.{
  QueueDeclare, QueueBind, QueueDelete, queue_declare, queue_bind, queue_purge, queue_delete,
  queue_unbind,
}
use dispatchd.Methods.Exchanges.{ExchangeDeclare, exchange_declare, exchange_delete, add_exchange}
use dispatchd.Methods.Declaring.{with_queue, default_binding}
use dispatchd.Methods.Replacing.{fresh, exchange_declare_or}
use dispatchd.Methods.Tables.{
  IsOwn, IsTidy, exchange_name-binding_of, add_binding-IsOwn, remove_binding-IsOwn,
  delete_queue-IsTidy,
}
use dispatchd.Methods.Effects.{
  with_exchange, declare_effect, bind_effect, unbind_effect, purge_effect, delete_effect,
  exchange_delete_effect,
}
use dispatchd.Common.{
  Bool, Each-find, Each-put, Each-remove, GoString, Option, [], done, find, inl, inr, put,
  put-IsUnique, refl, remove-IsUnique, some, sym, ℕ, ◌≡◌, nat_eq, str_eq, pair_eq,
}

-- One handler has run, by any client, and has returned.
pub data Step (s : Session) : Session → Type 0 where
  declares :
      {t : Session} (m : QueueDeclare) (random : GoString) (err : Option AmqpError)
      → queue_declare s m random ≡ done (t, err)
      → Step s t
  binds :
      {t : Session} (m : QueueBind) (saved : Bool) (err : Option AmqpError)
      → queue_bind s m saved ≡ done (t, err)
      → Step s t
  unbinds :
      {t : Session} (m : QueueBind) (saved : Bool) (err : Option AmqpError)
      → queue_unbind s m saved ≡ done (t, err)
      → Step s t
  purges :
      {t : Session} (queue : GoString) (no_wait : Bool)
      → t ≡ (queue_purge s queue no_wait).0
      → Step s t
  deletes :
      {t : Session} (m : QueueDelete) (err : Option AmqpError)
      → queue_delete s m ≡ done (runs (t, err))
      → Step s t
  declares_exchange :
      {t : Session} (m : ExchangeDeclare) (saved : Bool)
      → t ≡ (exchange_declare s m saved).0
      → Step s t
  deletes_exchange :
      {t : Session} (name : GoString) (no_wait : Bool)
      → t ≡ (exchange_delete s name no_wait).0
      → Step s t
  -- Another channel, of this connection or of another, takes its turn.
  switches : {t : Session} → t.server ≡ s.server → Step s t

pub data Reach (s : Session) : Session → Type 0 where
  here : Reach s s
  next : {t u : Session} → Reach s t → Step t u → Reach s u

put_queue-IsTidy :
    (v : Server) (name : GoString) (q : Queue)
    → IsTidy v
    → q.name ≡ name
    → IsTidy (record v { queues = put name q v.queues })
put_queue-IsTidy v name q t e = record {
  queues = Each-put _ name q v.queues e t.queues;
  exchanges = t.exchanges;
  queues_unique = put-IsUnique name q v.queues t.queues_unique;
  exchanges_unique = t.exchanges_unique;
}

put_exchange-IsTidy :
    (v : Server) (name : GoString) (ex : Exchange)
    → IsTidy v
    → IsOwn name ex
    → IsTidy (with_exchange v name ex)
put_exchange-IsTidy v name ex t o = record {
  queues = t.queues;
  exchanges = Each-put IsOwn name ex v.exchanges o t.exchanges;
  queues_unique = t.queues_unique;
  exchanges_unique = put-IsUnique name ex v.exchanges t.exchanges_unique;
}

own :
    (v : Server) (name : GoString) (ex : Exchange)
    → IsTidy v
    → find name v.exchanges ≡ some ex
    → IsOwn name ex
own v name ex t f = Each-find IsOwn name ex v.exchanges f t.exchanges

with_queue-IsTidy :
    (v : Server) (q : Queue) (ex : Exchange)
    → IsTidy v
    → find [] v.exchanges ≡ some ex
    → IsTidy (with_queue v q ex)
with_queue-IsTidy v q ex t f =
    put_exchange-IsTidy (record v { queues = put q.name q v.queues }) [] _
      (put_queue-IsTidy v q.name q t refl)
      (add_binding-IsOwn [] ex (default_binding q.name) (own v [] ex t f) refl)

add_exchange-IsTidy :
    (v : Server) (m : ExchangeDeclare) (t : ℕ) → IsTidy v → IsTidy (add_exchange v (fresh m t))
unfolding add_exchange new_exchange
add_exchange-IsTidy v m t h = put_exchange-IsTidy v m.exchange (fresh m t) h (refl, tt)

IsTidy-of : {v w : Server} → w ≡ v → IsTidy v → IsTidy w
IsTidy-of e t = subst IsTidy (sym e) t

Step-IsTidy : {s t : Session} → Step s t → IsTidy s.server → IsTidy t.server
unfolding purge
Step-IsTidy {s} {t} (declares m random err e) h = elim (declare_effect s m random t err e) [
  | inl same ↦ IsTidy-of same h
  | inr (q, ex, f, w) ↦ IsTidy-of w (with_queue-IsTidy s.server q ex h f)
]
Step-IsTidy {s} {t} (binds m saved err e) h = elim (bind_effect s m saved t err e) [
  | inl same ↦ IsTidy-of same h
  | inr (name, ex, b, f, made, w) ↦ IsTidy-of w (
      put_exchange-IsTidy s.server m.exchange (add_binding ex b) h (
        add_binding-IsOwn m.exchange ex b (own s.server m.exchange ex h f)
          (exchange_name-binding_of name m.exchange m.routing_key m.arguments _ b made)))
]
Step-IsTidy {s} {t} (unbinds m saved err e) h = elim (unbind_effect s m saved t err e) [
  | inl same ↦ IsTidy-of same h
  | inr (ex, b, f, w) ↦ IsTidy-of w (
      put_exchange-IsTidy s.server m.exchange (remove_binding ex b).0 h
        (remove_binding-IsOwn m.exchange ex b (own s.server m.exchange ex h f)))
]
Step-IsTidy {s} {t} (purges queue no_wait e) h = elim (purge_effect s queue no_wait) [
  | inl same ↦ rw e (IsTidy-of same h)
  | inr (name, q, f, w) ↦ rw e (
      IsTidy-of w (
        put_queue-IsTidy s.server name (purge q).0 h
          (Each-find (λ k (r : Queue). r.name ≡ k) name q s.server.queues f h.queues)))
]
Step-IsTidy {s} {t} (deletes m err e) h = elim (delete_effect s m t err e) [
  | inl same ↦ IsTidy-of same h
  | inr (name, n, code, d) ↦
      delete_queue-IsTidy s.server name m.if_unused m.if_empty s.channel.conn_id t.server n code d h
]
Step-IsTidy {s} {t} (declares_exchange m saved e) h = elim (exchange_declare_or s m saved) [
  | inl same ↦ rw e (IsTidy-of same h)
  | inr p ↦ rw e (IsTidy-of p.1 (add_exchange-IsTidy s.server m p.0 h))
]
Step-IsTidy {s} {t} (deletes_exchange name no_wait e) h =
    elim (exchange_delete_effect s name no_wait) [
      | inl same ↦ rw e (IsTidy-of same h)
      | inr w ↦ rw e (
          IsTidy-of w (record {
            queues = h.queues;
            exchanges = Each-remove IsOwn name s.server.exchanges h.exchanges;
            queues_unique = h.queues_unique;
            exchanges_unique = remove-IsUnique name s.server.exchanges h.exchanges_unique;
          }))
    ]
Step-IsTidy (switches e) h = IsTidy-of e h

-- However the declarations, bindings, purges and deletions of clients follow one another, each queue
-- and each exchange stands under its own name and no name twice, and every binding carries the name of
-- the exchange that has it, if that was so at the start.
pub Reach-IsTidy : {s t : Session} → IsTidy s.server → Reach s t → IsTidy t.server
Reach-IsTidy h here = h
Reach-IsTidy h (next r st) = Step-IsTidy st (Reach-IsTidy h r)
