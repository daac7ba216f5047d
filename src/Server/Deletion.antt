-- ===== src/Server/Deletion.antt =====
-- What the deletion of a queue leaves.
use dispatchd.Amqp.Types.{minus_one}
use dispatchd.Consumer.{Consumer}
use dispatchd.Exchange.{Exchange, is_nil, bindings_for_queue}
use dispatchd.Exchange.Bindings.{bindings_for_queue-remove}
use dispatchd.Queue.{Queue, runs, close, purge, len}
use dispatchd.Server.{
  Server, stop_all, cancel_consumers, delete_queue_state, unbind_everywhere, delete_queue,
}
use dispatchd.Common.{
  All, Bool, Bool-cases, GoString, Map, [], arith, done, false, find, find-remove, if◌then◌else◌,
  inl, inr, none, not, refl, remove, some, str_beq_iff, true, ℕ, ◌&&◌, ◌==◌, ◌||◌, ◌∙◌, ◌∷◌, ◌≡◌,
  ◌⊎◌, nat_eq, str_eq, pair_eq,
}

-- No exchange has a binding of the queue.
abbrev pub IsUnbound : GoString → Map GoString Exchange → Type 0
IsUnbound q = All (λ e. bindings_for_queue e.1 q ≡ [])

unbind_everywhere-IsUnbound :
    (q : GoString) (exs : Map GoString Exchange) → IsUnbound q (unbind_everywhere q exs)
unfolding unbind_everywhere
unbind_everywhere-IsUnbound q [] = tt
unbind_everywhere-IsUnbound q ((name, ex) ∷ exs) = (
  bindings_for_queue-remove ex q q ∙ ground (arith, str_beq_iff q q),
  unbind_everywhere-IsUnbound q exs,
)

-- Whether an if-unused or an if-empty is not met.
abbrev pub is_refused : Queue → Bool → Bool → Bool
is_refused q if_unused if_empty =
    (if_unused && not (is_nil q.consumers)) || (if_empty && not (is_nil q.queue))

delete_queue_state_runs :
    (q : Queue) (heap : ℕ → Consumer) (if_unused if_empty : Bool)
    → q.closed ≡ true
    → q.consumer_locked ≡ false
    → (q' : Queue) × (heap' : ℕ → Consumer) × (delete_queue_state q heap if_unused if_empty
        ≡ done (runs (q', heap', if is_refused q if_unused if_empty then none else some (len q))))
unfolding delete_queue_state cancel_consumers purge len
delete_queue_state_runs q heap if_unused if_empty shut free =
    elim (Bool-cases (is_refused q if_unused if_empty)) [
      | inl refused ↦ (q, heap, ground (arith, shut, refused))
      | inr accepted ↦ (
        (purge (record q { sole_consumer = none; consumers = [] })).0,
        stop_all q.consumers heap,
        ground (arith, shut, free, accepted),
      )
    ]

-- Deleting a queue that is there, its lock free, by a connection that may, removes it from the server
-- and its bindings from every exchange, and no other queue. That is so even where if-unused or
-- if-empty is not met and the answer is 406.
pub delete_queue-IsUnbound :
    (s : Server) (name : GoString) (q : Queue) (if_unused if_empty : Bool) (conn_id : ℕ)
    → find name s.queues ≡ some q
    → q.consumer_locked ≡ false
    → (q.conn_id ≡ minus_one) ⊎ (q.conn_id ≡ conn_id)
    → (s' : Server) × (delete_queue s name if_unused if_empty conn_id
        ≡ done (
            runs (
              s',
              if is_refused q if_unused if_empty then 0 else len q,
              if is_refused q if_unused if_empty then 406 else 0,
            )))
      × ((m : GoString) → find m s'.queues ≡ (if name == m then none else find m s.queues))
      × IsUnbound name s'.exchanges
unfolding delete_queue close len
delete_queue-IsUnbound s name q if_unused if_empty conn_id here free allowed =
    let (q', heap, e) =
      delete_queue_state_runs (close q) s.consumers if_unused if_empty refl free in
    let may : (not (q.conn_id == minus_one) && not (q.conn_id == conn_id)) ≡ false =
      ground (arith, allowed) in
    (
      record {
        queues = remove name s.queues;
        exchanges = unbind_everywhere name s.exchanges;
        consumers = heap;
      },
      rw (delete_queue, here, may, e)
          (elim (Bool-cases (is_refused q if_unused if_empty)) [
            | inl refused ↦ rw refused refl
            | inr accepted ↦ rw accepted refl
          ]),
      λ m. find-remove m name s.queues,
      unbind_everywhere-IsUnbound name s.exchanges,
    )
