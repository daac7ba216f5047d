-- ===== src/Methods/Effects.antt =====
-- What each handler does to the tables of the server.
use dispatchd.Amqp.Types.{AmqpError}
use dispatchd.Binding.{Binding, binding_of}
use dispatchd.Binding.Made.{new_binding-cases}
use dispatchd.Exchange.{Exchange, add_binding, remove_binding, is_topic, is_nil}
use dispatchd.Queue.{Queue, blocks, runs, purge}
use dispatchd.Server.{Server, delete_queue}
use dispatchd.Methods.{Session, queue_name, check_name}
use dispatchd.Methods.Queues.{
  QueueDeclare, QueueBind, QueueDelete, is_locked, queue_of, declare_passive, declare_active,
  queue_declare, queue_bind, bind_found, bind_made, unbind_made, queue_purge, purge_found,
  queue_delete, deleted, queue_unbind, unbind_found,
}
use dispatchd.Methods.Exchanges.{exchange_delete}
use dispatchd.Methods.Declaring.{with_queue, add_queue_bound, add_queue_lost}
use dispatchd.Common.{
  Bool, Bool-cases, GoString, Option, Option-cases, Outcome-cases, [], arith, done, find,
  if◌then◌else◌, inl, inr, not, put, remove, some, suc, zero, ℕ, ◌&&◌, ◌||◌, ◌≡◌, ◌⊎◌, nat_eq,
  str_eq, pair_eq,
}

module _ (s : Session) (m : QueueDeclare) (random : GoString) (s' : Session)
    (err : Option AmqpError) where
  passive_effect : (name : GoString) → (declare_passive s m name).0.server ≡ s.server
  unfolding declare_passive
  passive_effect name = elim (Option-cases (find name s.server.queues)) [
    | inl absent ↦ ground (arith, absent)
    | inr (q, f) ↦ ground (arith, f)
  ]

  active_effect :
      (name : GoString)
      → declare_active s m name ≡ done (s', err)
      → (s'.server ≡ s.server)
        ⊎ ((q : Queue) × (ex : Exchange) × (find [] s.server.exchanges ≡ some ex)
            × (s'.server ≡ with_queue s.server q ex))
  unfolding declare_active
  active_effect name e = elim (Option-cases (find name s.server.queues)) [
    | inr (q, f) ↦ inl (elim (Bool-cases (is_locked s q)) [
      | inl locked ↦ ground (arith, e, f, locked)
      | inr free ↦ ground (arith, e, f, free)
    ])
    | inl absent ↦ elim (Option-cases (find [] s.server.exchanges)) [
      | inl lost ↦
          absurd (ground (arith, e, absent, add_queue_lost s.server (queue_of s m name) lost))
      | inr (ex, f) ↦ inr (
        queue_of s m name,
        ex,
        f,
        ground (arith, e, absent, add_queue_bound s.server (queue_of s m name) ex f),
      )
    ]
  ]

  pub declare_effect :
      queue_declare s m random ≡ done (s', err)
      → (s'.server ≡ s.server)
        ⊎ ((q : Queue) × (ex : Exchange) × (find [] s.server.exchanges ≡ some ex)
            × (s'.server ≡ with_queue s.server q ex))
  unfolding queue_declare
  declare_effect e =
      let name = if is_nil m.queue then random else m.queue in
      elim (Bool-cases (check_name name)) [
        | inr bad ↦ inl (ground (arith, e, bad))
        | inl good ↦ elim (Bool-cases m.passive) [
          | inl passive ↦ inl (ground (arith, e, good, passive, passive_effect name))
          | inr active ↦ active_effect name (ground (arith, e, good, active))
        ]
      ]

-- The tables with the exchange of the name replaced.
abbrev pub with_exchange : Server → GoString → Exchange → Server
with_exchange v name ex = record v { exchanges = put name ex v.exchanges }

module _ (s : Session) (m : QueueBind) (saved : Bool) (s' : Session) (err : Option AmqpError) where
  bound_effect :
      (name : GoString) (ex : Exchange) (q : Queue)
      → bind_found s m name saved ex q ≡ done (s', err)
      → (s'.server ≡ s.server)
        ⊎ ((b : Binding) × (binding_of name m.exchange m.routing_key m.arguments (is_topic ex)
              ≡ some b)
            × (s'.server ≡ with_exchange s.server m.exchange (add_binding ex b)))
  unfolding bind_found bind_made
  bound_effect name ex q e = elim (Bool-cases (q.closed || is_locked s q)) [
    | inl shut ↦ inl (ground (arith, e, shut))
    | inr open_q ↦
        elim (new_binding-cases name m.exchange m.routing_key m.arguments (is_topic ex)) [
          | inl crash ↦ absurd (ground (arith, e, open_q, crash))
          | inr (inl bad) ↦ inl (ground (arith, e, open_q, bad))
          | inr (inr (b, f, made)) ↦ inr (b, f, ground (arith, e, open_q, made))
        ]
  ]

  pub bind_effect :
      queue_bind s m saved ≡ done (s', err)
      → (s'.server ≡ s.server)
        ⊎ ((name : GoString) × (ex : Exchange) × (b : Binding) × (find m.exchange s.server.exchanges
              ≡ some ex)
            × (binding_of name m.exchange m.routing_key m.arguments (is_topic ex) ≡ some b)
            × (s'.server ≡ with_exchange s.server m.exchange (add_binding ex b)))
  unfolding queue_bind
  bind_effect e = elim (Option-cases (queue_name s m.queue)) [
    | inl no_name ↦ inl (ground (arith, e, no_name))
    | inr (name, n) ↦ elim (Option-cases (find m.exchange s.server.exchanges)) [
      | inl no_ex ↦ inl (ground (arith, e, n, no_ex))
      | inr (ex, fe) ↦ elim (Option-cases (find name s.server.queues)) [
        | inl no_q ↦ inl (ground (arith, e, n, fe, no_q))
        | inr (q, fq) ↦ elim (bound_effect name ex q (ground (arith, e, n, fe, fq))) [
          | inl same ↦ inl same
          | inr (b, made, put_it) ↦ inr (name, ex, b, fe, made, put_it)
        ]
      ]
    ]
  ]

  unbound_effect :
      (name : GoString) (q : Queue)
      → unbind_found s m name saved q ≡ done (s', err)
      → (s'.server ≡ s.server)
        ⊎ ((ex : Exchange) × (b : Binding) × (find m.exchange s.server.exchanges ≡ some ex)
            × (s'.server ≡ with_exchange s.server m.exchange (remove_binding ex b).0))
  unfolding unbind_found unbind_made
  unbound_effect name q e = elim (Bool-cases (is_locked s q)) [
    | inl locked ↦ inl (ground (arith, e, locked))
    | inr free ↦ elim (Option-cases (find m.exchange s.server.exchanges)) [
      | inl no_ex ↦ inl (ground (arith, e, free, no_ex))
      | inr (ex, fe) ↦
          elim (new_binding-cases name m.exchange m.routing_key m.arguments (is_topic ex)) [
            | inl crash ↦ absurd (ground (arith, e, free, fe, crash))
            | inr (inl bad) ↦ inl (ground (arith, e, free, fe, bad))
            | inr (inr (b, f, made)) ↦ elim (Bool-cases (q.durable && ex.durable && not saved)) [
              | inl lost ↦ inl (ground (arith, e, free, fe, made, lost))
              | inr fine ↦ inr (ex, b, fe, ground (arith, e, free, fe, made, fine))
            ]
          ]
    ]
  ]

  pub unbind_effect :
      queue_unbind s m saved ≡ done (s', err)
      → (s'.server ≡ s.server)
        ⊎ ((ex : Exchange) × (b : Binding) × (find m.exchange s.server.exchanges ≡ some ex)
            × (s'.server ≡ with_exchange s.server m.exchange (remove_binding ex b).0))
  unfolding queue_unbind
  unbind_effect e = elim (Option-cases (queue_name s m.queue)) [
    | inl no_name ↦ inl (ground (arith, e, no_name))
    | inr (name, n) ↦ elim (Option-cases (find name s.server.queues)) [
      | inl no_q ↦ inl (ground (arith, e, n, no_q))
      | inr (q, fq) ↦ unbound_effect name q (ground (arith, e, n, fq))
    ]
  ]

module _ (s : Session) where
  pub purge_effect :
      (queue : GoString) (no_wait : Bool)
      → ((queue_purge s queue no_wait).0.server ≡ s.server)
        ⊎ ((name : GoString) × (q : Queue) × (find name s.server.queues ≡ some q)
            × ((queue_purge s queue no_wait).0.server
                ≡ record s.server { queues = put name (purge q).0 s.server.queues }))
  unfolding queue_purge purge_found
  purge_effect queue no_wait = elim (Option-cases (queue_name s queue)) [
    | inl no_name ↦ inl (ground (arith, no_name))
    | inr (name, e) ↦ elim (Option-cases (find name s.server.queues)) [
      | inl no_q ↦ inl (ground (arith, e, no_q))
      | inr (q, fq) ↦ elim (Bool-cases (is_locked s q)) [
        | inl locked ↦ inl (ground (arith, e, fq, locked))
        | inr free ↦ inr (name, q, fq, ground (arith, e, fq, free))
      ]
    ]
  ]

  pub delete_effect :
      (m : QueueDelete) (s' : Session) (err : Option AmqpError)
      → queue_delete s m ≡ done (runs (s', err))
      → (s'.server ≡ s.server)
        ⊎ ((name : GoString) × (n : ℕ) × (code : ℕ) × (delete_queue s.server name m.if_unused
                m.if_empty s.channel.conn_id
              ≡ done (runs (s'.server, n, code))))
  unfolding queue_delete deleted
  delete_effect m s' err e = elim (Option-cases (queue_name s m.queue)) [
    | inl no_name ↦ inl (ground (arith, e, no_name))
    | inr (name, f) ↦
        elim (Outcome-cases (delete_queue s.server name m.if_unused m.if_empty s.channel.conn_id)) [
          | inr crash ↦ absurd (ground (arith, e, f, crash))
          | inl (blocks, r) ↦ absurd (ground (arith, e, f, r))
          | inl (runs (v, n, zero), r) ↦ inr (name, n, zero, ground (arith, e, f, r))
          | inl (runs (v, n, suc code), r) ↦ inr (name, n, suc code, ground (arith, e, f, r))
        ]
  ]

  pub exchange_delete_effect :
      (name : GoString) (no_wait : Bool)
      → ((exchange_delete s name no_wait).0.server ≡ s.server)
        ⊎ ((exchange_delete s name no_wait).0.server
            ≡ record s.server { exchanges = remove name s.server.exchanges })
  unfolding exchange_delete
  exchange_delete_effect name no_wait = elim (Option-cases (find name s.server.exchanges)) [
    | inl absent ↦ inl (ground (arith, absent))
    | inr (ex, f) ↦ elim (Bool-cases ex.system) [
      | inl kept ↦ inl (ground (arith, f, kept))
      | inr gone ↦ inr (ground (arith, f, gone))
    ]
  ]
