-- ===== src/Server/Closing.antt =====
-- Which queues deleteQueuesForConn deletes.
use dispatchd.Queue.{Queue, runs}
use dispatchd.Server.{Server, delete_queue, names_of_conn, delete_named, delete_queues_for_conn}
use dispatchd.Server.Deletion.{delete_queue-IsUnbound}
use dispatchd.Common.{
  Bool, Bool-cases, Each, GoString, IsUnique, List, Map, Option, Option-cases, [], arith, contains,
  done, false, find, if◌then◌else◌, inl, inr, none, refl, some, str_beq_iff, true, ℕ, ◌==◌, ◌||◌,
  ◌∙◌, ◌∷◌, ◌≡◌, nat_eq, str_eq, pair_eq,
}

abbrev is_named : GoString → List GoString → Bool
is_named m [] = false
is_named m (n ∷ ns) = n == m || is_named m ns

-- A queue under one of the names can be deleted by the connection, without waiting.
abbrev IsReady : ℕ → List GoString → Map GoString Queue → Type 0
IsReady conn_id names qs =
    (n : GoString) (q : Queue)
    → is_named n names ≡ true
    → find n qs ≡ some q
    → (q.consumer_locked ≡ false) × (q.conn_id ≡ conn_id)

-- What is ready for several names is ready for those that follow the first, once that is deleted.
IsReady-after :
    (conn_id : ℕ) (n : GoString) (ns : List GoString) (qs qs' : Map GoString Queue)
    → IsReady conn_id (n ∷ ns) qs
    → ((m : GoString) → find m qs' ≡ (if n == m then none else find m qs))
    → IsReady conn_id ns qs'
IsReady-after conn_id n ns qs qs' ready left m q among here = elim (Bool-cases (n == m)) [
  | inl same ↦ absurd (ground (arith, left m, same, here))
  | inr other ↦ ready m q (ground (arith, among)) (ground (arith, left m, other, here))
]

missing :
    (s : Server) (n : GoString) (conn_id : ℕ)
    → find n s.queues ≡ none
    → delete_queue s n false false conn_id ≡ done (runs (s, 0, 404))
unfolding delete_queue
missing s n conn_id absent = rw (delete_queue, absent) refl

named_deleted :
    (s : Server) (names : List GoString) (conn_id : ℕ)
    → IsReady conn_id names s.queues
    → (s' : Server) × (delete_named s names conn_id ≡ done (runs s'))
      × ((m : GoString) → find m s'.queues ≡ (if is_named m names then none else find m s.queues))
unfolding delete_named
named_deleted s [] conn_id ready = (s, refl, λ m. refl)
named_deleted s (n ∷ ns) conn_id ready = elim (Option-cases (find n s.queues)) [
  | inl absent ↦
      let gone : (m : GoString) → find m s.queues ≡ (if n == m then none else find m s.queues) =
        λ m. ground (arith, absent, str_beq_iff n m) in
      let (s2, e2, left2) =
        named_deleted s ns conn_id (IsReady-after conn_id n ns s.queues s.queues ready gone) in
      (s2, rw (missing s n conn_id absent) e2, λ m. left2 m ∙ ground (arith, gone m))
  | inr (q, here) ↦
      let (free, own) = ready n q (ground (arith, str_beq_iff n n)) here in
      let (s1, e, left, unbound) =
        delete_queue-IsUnbound s n q false false conn_id here free (inr own) in
      let (s2, e2, left2) =
        named_deleted s1 ns conn_id (IsReady-after conn_id n ns s.queues s1.queues ready left) in
      (s2, rw e e2, λ m. left2 m ∙ ground (arith, left m))
]

-- Whether a queue that was looked up belongs to the connection.
abbrev pub belongs : ℕ → Option Queue → Bool
belongs conn_id none = false
belongs conn_id (some q) = q.conn_id == conn_id

-- The names that are collected are the keys of the queues of the connection, if each queue stands under
-- its own name.
names_belong :
    (conn_id : ℕ) (qs : Map GoString Queue) (m : GoString)
    → Each (λ k (q : Queue). q.name ≡ k) qs
    → IsUnique qs
    → is_named m (names_of_conn conn_id qs) ≡ belongs conn_id (find m qs)
unfolding names_of_conn find contains
names_belong conn_id [] m own u = refl
names_belong conn_id ((k, q) ∷ qs) m own u =
    ground (
      arith,
      names_belong conn_id qs m own.1 u.1,
      own.0,
      u.0,
      str_beq_iff k m,
      str_beq_iff q.name m,
    )

-- deleteQueuesForConn deletes every queue that belongs to the connection and no other, and does not
-- wait, if each queue stands under its own name and once, and none of the connection's has its lock
-- held.
pub delete_queues_for_conn_all :
    (s : Server) (conn_id : ℕ)
    → Each (λ k (q : Queue). q.name ≡ k) s.queues
    → IsUnique s.queues
    → ((n : GoString) (q : Queue)
        → find n s.queues ≡ some q
        → q.conn_id ≡ conn_id
        → q.consumer_locked ≡ false)
    → (s' : Server) × (delete_queues_for_conn s conn_id ≡ done (runs s'))
      × ((m : GoString)
          → find m s'.queues
            ≡ (if belongs conn_id (find m s.queues) then none else find m s.queues))
unfolding delete_queues_for_conn
delete_queues_for_conn_all s conn_id own unique free =
    let names : (m : GoString)
        → is_named m (names_of_conn conn_id s.queues) ≡ belongs conn_id (find m s.queues) =
      λ m. names_belong conn_id s.queues m own unique in
    let mine : (n : GoString) (q : Queue)
        → is_named n (names_of_conn conn_id s.queues) ≡ true
        → find n s.queues ≡ some q
        → q.conn_id ≡ conn_id =
      λ n q among here. ground (arith, names n, among, here) in
    let (s', e, left) =
      named_deleted s (names_of_conn conn_id s.queues) conn_id
        (λ n q among here. (free n q here (mine n q among here), mine n q among here)) in
    (s', e, λ m. left m ∙ ground (arith, names m))
