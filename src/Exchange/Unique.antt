-- ===== src/Exchange/Unique.antt =====
-- QueuesForPublish names each queue once.
use dispatchd.Amqp.Types.{BasicPublish}
use dispatchd.Binding.{Binding, match_topic}
use dispatchd.Exchange.{
  Exchange, direct_queues, fanout_queues, topic_queues, add_unseen, queues_for_publish,
}
use dispatchd.Common.{
  Bool, GoString, IsUnique, List, Map, Outcome-cases, [], arith, done, if◌then◌else◌, inl, inr, put,
  put-IsUnique, true, ◌∷◌, ◌≡◌, nat_eq, str_eq, pair_eq,
}

direct_queues-IsUnique :
    (bs : List Binding) (m : BasicPublish) (queues : Map GoString Bool)
    → IsUnique queues
    → IsUnique (direct_queues bs m queues)
unfolding direct_queues
direct_queues-IsUnique [] m queues u = u
direct_queues-IsUnique (b ∷ bs) m queues u =
    ground (arith, direct_queues-IsUnique bs m queues u, put-IsUnique b.queue_name true queues u)

fanout_queues-IsUnique :
    (bs : List Binding) (queues : Map GoString Bool)
    → IsUnique queues
    → IsUnique (fanout_queues bs queues)
unfolding fanout_queues
fanout_queues-IsUnique [] queues u = u
fanout_queues-IsUnique (b ∷ bs) queues u =
    fanout_queues-IsUnique bs (put b.queue_name true queues)
      (put-IsUnique b.queue_name true queues u)

add_unseen-IsUnique :
    (q : GoString) (queues : Map GoString Bool) → IsUnique queues → IsUnique (add_unseen q queues)
unfolding add_unseen
add_unseen-IsUnique q queues u = ground (arith, put-IsUnique q true queues u)

topic_queues-IsUnique :
    (bs : List Binding) (m : BasicPublish) (queues r : Map GoString Bool)
    → IsUnique queues
    → topic_queues bs m queues ≡ done r
    → IsUnique r
unfolding topic_queues
topic_queues-IsUnique [] m queues r u e = ground arith
topic_queues-IsUnique (b ∷ bs) m queues r u e = elim (Outcome-cases (match_topic b m)) [
  | inr f ↦ absurd (ground (arith, e, f))
  | inl (x, f) ↦
      topic_queues-IsUnique bs m (if x then add_unseen b.queue_name queues else queues) r
        (ground (arith, add_unseen-IsUnique b.queue_name queues u)) (ground (arith, e, f))
]

pub queues_for_publish-IsUnique :
    (ex : Exchange) (m : BasicPublish) (r : Map GoString Bool)
    → queues_for_publish ex m ≡ done r
    → IsUnique r
unfolding queues_for_publish
queues_for_publish-IsUnique ex m r e = ground (
  arith,
  e,
  direct_queues-IsUnique ex.bindings m [] tt,
  fanout_queues-IsUnique ex.bindings [] tt,
  topic_queues-IsUnique ex.bindings m [] r tt,
)
