-- ===== src/Methods/Tables.antt =====
-- The tables of the server: each queue and each exchange under its own name.
use mathlib.Core.Path.{subst}
use dispatchd.Amqp.Types.{minus_one}
use dispatchd.Amqp.Table.{Table}
use dispatchd.Binding.{Binding, binding_of, equals}
use dispatchd.Consumer.{Consumer}
use dispatchd.Exchange.{
  Exchange, add_binding, remove_binding, remove_first, remove_bindings_for_queue, has_binding,
}
use dispatchd.Queue.{Queue, close, blocks, runs}
use dispatchd.Server.{Server, unbind_everywhere, delete_queue, delete_queue_state}
use dispatchd.Common.{
  All, All-append, Bool, Bool-cases, Each, Each-remove, GoString, IsUnique, List, Map, Option-cases,
  Outcome-cases, [], arith, contains, done, find, inl, inr, keep, none, not, refl, remove,
  remove-IsUnique, some, ℕ, ◌&&◌, ◌==◌, ◌∙◌, ◌∷◌, ◌≡◌, ◌⊎◌, nat_eq, str_eq, pair_eq,
}

-- An exchange stands under its name, and its bindings carry that name.
abbrev pub IsOwn : GoString → Exchange → Type 0
IsOwn k ex = (ex.name ≡ k) × All (λ (b : Binding). b.exchange_name ≡ k) ex.bindings

pub record IsTidy (s : Server) : Type 0 where
  pub queues : Each (λ k (q : Queue). q.name ≡ k) s.queues
  pub exchanges : Each IsOwn s.exchanges
  pub queues_unique : IsUnique s.queues
  pub exchanges_unique : IsUnique s.exchanges

pub exchange_name-binding_of :
    (q e k : GoString) (a : Table) (t : Bool) (b : Binding)
    → binding_of q e k a t ≡ some b
    → b.exchange_name ≡ e
unfolding binding_of
exchange_name-binding_of q e k a t b h = ground (arith, h)

pub add_binding-IsOwn :
    (k : GoString) (ex : Exchange) (b : Binding)
    → IsOwn k ex
    → b.exchange_name ≡ k
    → IsOwn k (add_binding ex b)
unfolding add_binding
add_binding-IsOwn k ex b o h = elim (Bool-cases (has_binding b ex.bindings)) [
  | inl old ↦ rw old o
  | inr new ↦
      rw new
        (o.0, All-append (λ (c : Binding). c.exchange_name ≡ k) ex.bindings (b ∷ []) o.1 (h, tt))
]

All-remove_first :
    (P : Binding → Type 0) (b : Binding) (bs : List Binding) → All P bs → All P (remove_first b bs)
unfolding remove_first
All-remove_first P b [] h = tt
All-remove_first P b (c ∷ bs) h = elim (Bool-cases (equals b c)) [
  | inl same ↦ rw same h.1
  | inr other ↦ rw other (h.0, All-remove_first P b bs h.1)
]

All-keep : {A : Type 0} (P : A → Type 0) (p : A → Bool) (xs : List A) → All P xs → All P (keep p xs)
unfolding keep
All-keep P p [] h = tt
All-keep P p (x ∷ xs) h = elim (Bool-cases (p x)) [
  | inl kept ↦ rw kept (h.0, All-keep P p xs h.1)
  | inr dropped ↦ rw dropped (All-keep P p xs h.1)
]

pub remove_binding-IsOwn :
    (k : GoString) (ex : Exchange) (b : Binding) → IsOwn k ex → IsOwn k (remove_binding ex b).0
unfolding remove_binding
remove_binding-IsOwn k ex b o = (o.0, All-remove_first _ b ex.bindings o.1)

unbind_everywhere-Own :
    (q : GoString) (exs : Map GoString Exchange)
    → Each IsOwn exs
    → Each IsOwn (unbind_everywhere q exs)
unfolding unbind_everywhere remove_bindings_for_queue
unbind_everywhere-Own q [] h = tt
unbind_everywhere-Own q ((name, ex) ∷ exs) h =
    ((h.0.0, All-keep _ _ ex.bindings h.0.1), unbind_everywhere-Own q exs h.1)

contains-unbind_everywhere :
    (k q : GoString) (exs : Map GoString Exchange)
    → contains k (unbind_everywhere q exs) ≡ contains k exs
unfolding unbind_everywhere contains find
contains-unbind_everywhere k q [] = refl
contains-unbind_everywhere k q ((name, ex) ∷ exs) =
    ground (arith, contains-unbind_everywhere k q exs)

unbind_everywhere-IsUnique :
    (q : GoString) (exs : Map GoString Exchange) → IsUnique exs → IsUnique (unbind_everywhere q exs)
unfolding unbind_everywhere
unbind_everywhere-IsUnique q [] u = tt
unbind_everywhere-IsUnique q ((name, ex) ∷ exs) u =
    (contains-unbind_everywhere name q exs ∙ u.0, unbind_everywhere-IsUnique q exs u.1)

-- What deleting a queue leaves in the tables.
emptied :
    (s : Server) (name : GoString) (heap : ℕ → Consumer)
    → IsTidy s
    → IsTidy (record {
      queues = remove name s.queues;
      exchanges = unbind_everywhere name s.exchanges;
      consumers = heap;
    })
emptied s name heap t = record {
  queues = Each-remove _ name s.queues t.queues;
  exchanges = unbind_everywhere-Own name s.exchanges t.exchanges;
  queues_unique = remove-IsUnique name s.queues t.queues_unique;
  exchanges_unique = unbind_everywhere-IsUnique name s.exchanges t.exchanges_unique;
}

abbrev left_by_delete : Server → GoString → (ℕ → Consumer) → Server
left_by_delete s name heap = record {
  queues = remove name s.queues;
  exchanges = unbind_everywhere name s.exchanges;
  consumers = heap;
}

module _ (s : Server) (name : GoString) (if_unused if_empty : Bool) (conn_id : ℕ) (s' : Server)
    (n code : ℕ)
    (e : delete_queue s name if_unused if_empty conn_id ≡ done (runs (s', n, code))) where
  found_by_delete :
      (q : Queue)
      → find name s.queues ≡ some q
      → (s ≡ s') ⊎ ((heap : ℕ → Consumer) × (left_by_delete s name heap ≡ s'))
  unfolding delete_queue
  found_by_delete q f =
      elim (Bool-cases (not (q.conn_id == minus_one) && not (q.conn_id == conn_id))) [
        | inl foreign ↦ inl (ground (arith, e, f, foreign))
        | inr own ↦
            elim (Outcome-cases (delete_queue_state (close q) s.consumers if_unused if_empty)) [
              | inr crash ↦ absurd (ground (arith, e, f, own, crash))
              | inl (blocks, r) ↦ absurd (ground (arith, e, f, own, r))
              | inl (runs (q', heap, none), r) ↦ inr (heap, ground (arith, e, f, own, r))
              | inl (runs (q', heap, some m), r) ↦ inr (heap, ground (arith, e, f, own, r))
            ]
      ]

  pub delete_queue-IsTidy : IsTidy s → IsTidy s'
  unfolding delete_queue
  delete_queue-IsTidy t = elim (Option-cases (find name s.queues)) [
    | inl absent ↦ subst IsTidy (ground (arith, e, absent)) t
    | inr (q, f) ↦ elim (found_by_delete q f) [
      | inl same ↦ subst IsTidy same t
      | inr (heap, left) ↦ subst IsTidy left (emptied s name heap t)
    ]
  ]
