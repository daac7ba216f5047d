-- ===== src/MsgStore/Batch.antt =====
-- What AddTxMessages builds from a batch: as many references for an id as queue messages with it.
use dispatchd.Amqp.Types.{Message, IndexMessage, QueueMessage, TxMessage}
use dispatchd.MsgStore.{
  Prepared, nothing_prepared, count_ref, queued, new_queue_message, prepare_with, prepare_one,
  prepare, is_durable,
}
use dispatchd.Common.{
  All, Bool, Bool-cases, GoString, IsUnique, List, Map, Option, Option-cases, [], ap, arith,
  contains, contains-put, done, false, find, find-put, if◌then◌else◌, inl, inr, length, none, put,
  put-IsUnique, refl, remove, some, str_beq_iff, sym, ℕ, ◌++◌, ◌+◌, ◌<◌, ◌==◌, ◌^◌, ◌||◌, ◌∙◌, ◌∷◌,
  ◌≡◌, ◌≢◌, ◌≤◌, nat_eq, str_eq, pair_eq,
}

unfoldable pub count_id : ℕ → List QueueMessage → ℕ
count_id id [] = 0
count_id id (qm ∷ qms) = (if qm.id == id then 1 else 0) + count_id id qms

pub count_id-append :
    (id : ℕ) (xs ys : List QueueMessage) → count_id id (xs ++ ys) ≡ count_id id xs + count_id id ys
unfolding count_id
count_id-append id [] ys = omega arith
count_id-append id (x ∷ xs) ys = omega (arith, count_id-append id xs ys)

-- The queue messages of all the queues.
unfoldable pub all_queued : Map GoString (List QueueMessage) → List QueueMessage
all_queued [] = []
all_queued ((q, qms) ∷ m) = qms ++ all_queued m

abbrev messages_of : Option (List QueueMessage) → List QueueMessage
messages_of none = []
messages_of (some qms) = qms

count_id-absent :
    (id : ℕ) (q : GoString) (m : Map GoString (List QueueMessage))
    → contains q m ≡ false
    → count_id id (all_queued (remove q m)) ≡ count_id id (all_queued m)
unfolding all_queued remove contains find
count_id-absent id q [] h = refl
count_id-absent id q ((r, qms) ∷ m) h = ground (
  arith,
  count_id-absent id q m,
  count_id-append id qms (all_queued m),
  count_id-append id qms (all_queued (remove q m)),
)

count_id-remove :
    (id : ℕ) (q : GoString) (m : Map GoString (List QueueMessage))
    → IsUnique m
    → count_id id (all_queued m)
      ≡ count_id id (messages_of (find q m)) + count_id id (all_queued (remove q m))
unfolding all_queued remove find count_id
count_id-remove id q [] u = omega arith
count_id-remove id q ((r, qms) ∷ m) u = elim (Bool-cases (r == q)) [
  | inl same ↦
      let e : r ≡ q = (str_beq_iff r q).0 same in
      rw same
        (omega (arith, count_id-append id qms (all_queued m), count_id-absent id q m (rw e at u.0)))
  | inr other ↦ rw other (
      omega (
        arith,
        count_id-append id qms (all_queued m),
        count_id-append id qms (all_queued (remove q m)),
        count_id-remove id q m u.1,
      ))
]

pub is_durable_total : (msg : Message) → msg.header ≢ none → (d : Bool) × (is_durable msg ≡ done d)
unfolding is_durable
is_durable_total msg h = elim (Option-cases msg.header) [
  | inl e ↦ absurd (h e)
  | inr (hd, e) ↦
      (elim hd.properties.delivery_mode [ none ↦ false | some dm ↦ dm == 2 ], rw (e, is_durable))
]

-- The references of an id in the batch so far.
unfoldable pub refs_of : ℕ → Map ℕ IndexMessage → ℕ
refs_of id ims = elim (find id ims) [ none ↦ 0 | some im ↦ im.refs ]

pub record IsCounted (p : Prepared) : Type 0 where
  pub unique : IsUnique p.queue_messages
  pub refs : (id : ℕ) → refs_of id p.index_messages ≡ count_id id (all_queued p.queue_messages)
  pub positive :
      (id : ℕ) (im : IndexMessage)
      → find id p.index_messages ≡ some im
      → (0 < im.refs) × (im.refs < 2 ^ 32) × (im.id ≡ id)

unfoldable pub has_id : ℕ → List TxMessage → Bool
has_id id [] = false
has_id id (m ∷ ms) = m.msg.id == id || has_id id ms

-- One more message: its id has one reference and one queue message more, no other id changes.
pub add_one :
    (p : Prepared) (m : TxMessage) (durable : Bool) (id : ℕ)
    → IsUnique p.queue_messages
    → count_id id (
        all_queued (
          put m.queue_name
            (queued p m.queue_name ++ new_queue_message m.msg durable ∷ [])
            p.queue_messages))
      ≡ (if m.msg.id == id then 1 else 0) + count_id id (all_queued p.queue_messages)
unfolding put queued all_queued new_queue_message count_id
add_one p m durable id u = ground (
  arith,
  count_id-remove id m.queue_name p.queue_messages u,
  count_id-append id (queued p m.queue_name ++ new_queue_message m.msg durable ∷ [])
      (all_queued (remove m.queue_name p.queue_messages)),
  count_id-append id (queued p m.queue_name) (new_queue_message m.msg durable ∷ []),
)

module _ (p : Prepared) (m : TxMessage) (durable : Bool) where
  refs_of-prepare_with :
      (id : ℕ)
      → refs_of id p.index_messages + 1 < 2 ^ 32
      → refs_of id (prepare_with p m durable).index_messages
        ≡ (if m.msg.id == id then 1 else 0) + refs_of id p.index_messages
  unfolding prepare_with count_ref refs_of
  refs_of-prepare_with id small =
      ground (arith, find-put id m.msg.id (count_ref p m.msg.id durable) p.index_messages)

  contains-prepare_with :
      (id : ℕ)
      → contains id (prepare_with p m durable).index_messages
        ≡ (m.msg.id == id || contains id p.index_messages)
  unfolding prepare_with
  contains-prepare_with id =
      contains-put id m.msg.id (count_ref p m.msg.id durable) p.index_messages

  index-prepare_with :
      ((id : ℕ) → refs_of id p.index_messages + 1 < 2 ^ 32)
      → IsCounted p
      → (id : ℕ) (im : IndexMessage) → find id (prepare_with p m durable).index_messages ≡ some im
      → (0 < im.refs) × (im.refs < 2 ^ 32) × (im.id ≡ id)
  unfolding prepare_with count_ref refs_of
  index-prepare_with small c id im f = elim (Option-cases (find m.msg.id p.index_messages)) [
    | inl e ↦ ground (
      arith,
      find-put id m.msg.id (count_ref p m.msg.id durable) p.index_messages,
      c.positive id im,
      e,
    )
    | inr (old, e) ↦ ground (
      arith,
      find-put id m.msg.id (count_ref p m.msg.id durable) p.index_messages,
      c.positive id im,
      c.positive m.msg.id old e,
      small m.msg.id,
      e,
    )
  ]

  prepare_with-IsCounted :
      ((id : ℕ) → refs_of id p.index_messages + 1 < 2 ^ 32)
      → IsCounted p
      → IsCounted (prepare_with p m durable)
  prepare_with-IsCounted small c = record {
    unique =
        unfold prepare_with in
        put-IsUnique m.queue_name (queued p m.queue_name ++ new_queue_message m.msg durable ∷ [])
          p.queue_messages c.unique;
    refs = λ id.
        refs_of-prepare_with id (small id)
        ∙ ap (λ (n : ℕ). (if m.msg.id == id then 1 else 0) + n) (c.refs id)
        ∙ sym (unfold prepare_with in add_one p m durable id c.unique);
    positive = index-prepare_with small c;
  }

-- The batch is built without a panic if every message has its header, and counts its references if
-- they stay below 2 ^ 32.
pub prepare_total :
    (n : ℕ) (p : Prepared) (ms : List TxMessage)
    → All (λ m. m.msg.header ≢ none) ms
    → IsCounted p
    → ((id : ℕ) → refs_of id p.index_messages ≤ n)
    → n + length ms < 2 ^ 32
    → (p' : Prepared) × (prepare p ms ≡ done p')
      × IsCounted p'
      × ((id : ℕ) → contains id p'.index_messages ≡ (has_id id ms || contains id p.index_messages))
unfolding prepare has_id
prepare_total n p [] h c b s = (p, refl, c, λ id. refl)
prepare_total n p (m ∷ ms) h c b s =
    let (d, e) = is_durable_total m.msg h.0 in
    let q = prepare_with p m d in
    let (p', f, c', k) =
      prepare_total (n + 1) q ms h.1 (prepare_with-IsCounted p m d (λ id. omega (arith, b id)) c)
        (λ id. ground (arith, b id, refs_of-prepare_with p m d id (omega (arith, b id))))
        (omega arith) in
    (p', rw (e, prepare_one) f, c', λ id. ground (arith, k id, contains-prepare_with p m d id))

pub nothing_prepared-IsCounted : IsCounted nothing_prepared
unfolding refs_of all_queued count_id find
nothing_prepared-IsCounted = record {
  unique = tt;
  refs = λ id. refl;
  positive = λ id im f. absurd (ground arith);
}

pub refs_of-nothing_prepared : (id : ℕ) → refs_of id nothing_prepared.index_messages ≤ 0
unfolding refs_of find
refs_of-nothing_prepared id = omega arith
