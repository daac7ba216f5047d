-- ===== src/Exchange/Publish.antt =====
-- The queues that a published message is routed to.
use dispatchd.Amqp.Types.{BasicPublish}
use dispatchd.Binding.Topic.{match_pieces}
use dispatchd.Binding.{Binding, match_direct, match_topic, run_matcher}
use dispatchd.Exchange.{
  Exchange, ex_type_direct, ex_type_fanout, ex_type_topic, direct_queues, fanout_queues,
  topic_queues, add_unseen, queues_for_publish,
}
use dispatchd.Common.{
  All, Any, Bool, GoString, List, Map, Option-cases, [], arith, contains, contains-put, done, find,
  if◌then◌else◌, inl, inr, keep, none, panic, put, refl, remove, str_beq_iff, true, ◌&&◌, ◌==◌,
  ◌||◌, ◌↔◌, ◌∷◌, ◌≡◌, ◌≢◌, ◌⊎◌, nat_eq, str_eq, pair_eq,
}

-- `q` is the queue of a binding in the list that `p` takes.
abbrev pub Bound : (Binding → Type 0) → GoString → List Binding → Type 0
Bound p q = Any (λ b. (b.queue_name ≡ q) × p b)

contains-fanout :
    (bs : List Binding) (q : GoString) (queues : Map GoString Bool)
    → (contains q (fanout_queues bs queues) ≡ true)
      ↔ ((contains q queues ≡ true) ⊎ Bound (λ _. Unit) q bs)
unfolding fanout_queues
contains-fanout [] q queues = ground arith
contains-fanout (b ∷ bs) q queues = ground (
  arith,
  contains-fanout bs q (put b.queue_name true queues),
  contains-put q b.queue_name true queues,
  str_beq_iff b.queue_name q,
)

contains-add_unseen :
    (q r : GoString) (queues : Map GoString Bool)
    → contains r (add_unseen q queues) ≡ (q == r || contains r queues)
unfolding add_unseen
contains-add_unseen q r queues = ground (arith, contains-put r q true queues, str_beq_iff q r)

-- Every binding in the list has its expression.
abbrev pub IsReady : List Binding → Type 0
IsReady = All (λ b. b.topic_matcher ≢ none)

match_topic_total :
    (b : Binding) (m : BasicPublish)
    → b.topic_matcher ≢ none
    → (x : Bool) × (match_topic b m ≡ done x)
unfolding match_topic
match_topic_total b m h = elim (Option-cases b.topic_matcher) [
  | inl e ↦ absurd (h e)
  | inr (re, e) ↦ (
    b.exchange_name == m.exchange && match_pieces re m.routing_key,
    rw (e, match_topic, run_matcher),
  )
]

topic_queues_total :
    (bs : List Binding) (m : BasicPublish) (queues : Map GoString Bool)
    → IsReady bs
    → (r : Map GoString Bool) × (topic_queues bs m queues ≡ done r)
      × ((q : GoString)
          → (contains q r ≡ true)
            ↔ ((contains q queues ≡ true) ⊎ Bound (λ b. match_topic b m ≡ done true) q bs))
unfolding topic_queues
topic_queues_total [] m queues h = (queues, refl, λ q. ground arith)
topic_queues_total (b ∷ bs) m queues h =
    let (x, e) = match_topic_total b m h.0 in
    let next : Map GoString Bool = if x then add_unseen b.queue_name queues else queues in
    let (r, f, g) = topic_queues_total bs m next h.1 in
    (
      r,
      rw e f,
      λ q.
          ground
            (arith, g q, contains-add_unseen b.queue_name q queues, str_beq_iff b.queue_name q),
    )

topic_queues_panic :
    (bs : List Binding) (m : BasicPublish) (queues : Map GoString Bool)
    → Any (λ b. b.topic_matcher ≡ none) bs
    → topic_queues bs m queues ≡ panic
unfolding topic_queues match_topic
topic_queues_panic [] m queues h = absurd h
topic_queues_panic (b ∷ bs) m queues (inl e) = rw (e, match_topic, run_matcher)
topic_queues_panic (b ∷ bs) m queues (inr h) = elim (Option-cases b.topic_matcher) [
  | inl e ↦ rw (e, match_topic, run_matcher)
  | inr (re, e) ↦ rw (e, match_topic, run_matcher) (topic_queues_panic bs m _ h)
]

abbrev pub first_queue : List Binding → Map GoString Bool
first_queue [] = []
first_queue (b ∷ bs) = (b.queue_name, true) ∷ []

first_one :
    (bs : List Binding) (p q : GoString)
    → contains p (first_queue bs) ≡ true
    → contains q (first_queue bs) ≡ true
    → p ≡ q
unfolding contains find
first_one [] p q hp hq = absurd (ground arith)
first_one (b ∷ bs) p q hp hq =
    ground (arith, str_beq_iff b.queue_name p, str_beq_iff b.queue_name q)

module _ (ex : Exchange) (m : BasicPublish) (here : m.exchange ≡ ex.name) where
  here_beq : (m.exchange == ex.name) ≡ true
  here_beq = (str_beq_iff m.exchange ex.name).1 here

  -- A fanout exchange routes a message that names it to every queue bound to it, whatever the keys,
  -- and to no other.
  pub publish_fanout :
      ex.ex_type ≡ ex_type_fanout
      → (r : Map GoString Bool) × (queues_for_publish ex m ≡ done r)
        × ((q : GoString) → (contains q r ≡ true) ↔ Bound (λ _. Unit) q ex.bindings)
  unfolding queues_for_publish contains find
  publish_fanout t = (
    fanout_queues ex.bindings [],
    ground (arith, here_beq),
    λ q. ground (arith, contains-fanout ex.bindings q []),
  )

  -- A topic exchange whose bindings all have an expression routes a message that names it to the
  -- queues of the bindings that match it, and to no other.
  pub publish_topic :
      ex.ex_type ≡ ex_type_topic
      → IsReady ex.bindings
      → (r : Map GoString Bool) × (queues_for_publish ex m ≡ done r)
        × ((q : GoString)
            → (contains q r ≡ true) ↔ Bound (λ b. match_topic b m ≡ done true) q ex.bindings)
  unfolding queues_for_publish contains find
  publish_topic t h =
      let (r, e, f) = topic_queues_total ex.bindings m [] h in
      (r, ground (arith, here_beq, e), λ q. ground (arith, f q))

  -- If any binding of a topic exchange was made without an expression, every message that names the
  -- exchange makes the server panic.
  pub publish_topic_panics :
      ex.ex_type ≡ ex_type_topic
      → Any (λ b. b.topic_matcher ≡ none) ex.bindings
      → queues_for_publish ex m ≡ panic
  unfolding queues_for_publish
  publish_topic_panics t h = ground (arith, here_beq, topic_queues_panic ex.bindings m [] h)

  direct_first :
      (bs : List Binding) → direct_queues bs m [] ≡ first_queue (keep (λ b. match_direct b m) bs)
  unfolding direct_queues keep put remove
  direct_first [] = refl
  direct_first (b ∷ bs) = ground (arith, direct_first bs)

  -- A direct exchange routes a message that names it to the queue of the first binding that matches
  -- it, or to none if none matches.
  pub publish_direct :
      ex.ex_type ≡ ex_type_direct
      → queues_for_publish ex m ≡ done (first_queue (keep (λ b. match_direct b m) ex.bindings))
  unfolding queues_for_publish
  publish_direct t = ground (arith, here_beq, direct_first ex.bindings)

  -- Two queues that a direct exchange routes one message to are the same queue.
  pub publish_direct_one :
      ex.ex_type ≡ ex_type_direct
      → (r : Map GoString Bool) (p q : GoString) → queues_for_publish ex m ≡ done r
      → contains p r ≡ true
      → contains q r ≡ true
      → p ≡ q
  publish_direct_one t r p q e hp hq =
      let f : r ≡ first_queue (keep (λ b. match_direct b m) ex.bindings) = cc (publish_direct t) in
      first_one (keep (λ b. match_direct b m) ex.bindings) p q (rw f at hp) (rw f at hq)
