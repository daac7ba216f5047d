-- ===== src/Broker/Consume/Get.antt =====
-- basicGet keeps the invariant of the broker.
use dispatchd.Amqp.Types.{QueueMessage}
use dispatchd.MsgStore.{get_and_decr_ref, release_all}
use dispatchd.MsgStore.Batch.{count_id}
use dispatchd.MsgStore.Refs.{one_more, IsBalanced, IsBalanced-same, remove_ref-IsBalanced}
use dispatchd.Channel.{next_delivery_tag}
use dispatchd.Parties.{the_channel, parties}
use dispatchd.Queue.{Queue, get_one_forced}
use dispatchd.Broker.{Broker, get_ok, get_empty, encoded, send_content}
use dispatchd.Broker.Balance.{held_by_queue, outstanding, IsConsistent, release_all-SameDeliveries}
use dispatchd.Broker.Consume.{redelivered, basic_get}
use dispatchd.Broker.Consume.Delivery.{stored, FrontUnsendable}
use dispatchd.Common.{
  GoString, List, List-cases, [], arith, done, find, find-put, inl, inr, none, panic, Outcome-cases,
  ◌⊎◌, put, put-IsUnique, refl, some, str_beq_iff, total-put, ℕ, ◌++◌, ◌∷◌, ◌≡◌, ◌≢◌, nat_eq,
  str_eq, pair_eq,
}

-- The store counts one message more than there is when the front of a queue is taken off.
front_taken :
    (others : ℕ → ℕ) (b : Broker) (name : GoString) (q : Queue) (qm : QueueMessage)
    (rest : List QueueMessage)
    → IsConsistent others b
    → find name b.queues ≡ some q
    → q.queue ≡ qm ∷ rest
    → IsBalanced b.store (
        one_more qm (
          outstanding others (record b { queues = put name (record q { queue = rest }) b.queues })))
unfolding count_id
front_taken others b name q qm rest ok f e =
    IsBalanced-same b.store b.store (outstanding others b) _ refl refl
      (λ id. ground (
        arith,
        f,
        e,
        total-put (held_by_queue id) name (record q { queue = rest }) b.queues ok.queues_unique,
      ))
      ok.balanced

-- In a consistent broker basicGet on a queue that is there and has a name leaves the broker
-- consistent, the tags that are awaited included, and takes the front off the queue. It panics only
-- where the header of the message at the front of the queue cannot be encoded.
pub basic_get-IsConsistent :
    (others : ℕ → ℕ) (b : Broker) (name : GoString) (q : Queue)
    → IsConsistent others b
    → find name b.queues ≡ some q
    → q.name ≢ []
    → ((b' : Broker) × (basic_get b name ≡ done (some b'))
        × IsConsistent others b'
        × (b'.parties.channel.awaiting_acks ≡ b.parties.channel.awaiting_acks)
        × (find name b'.queues ≡ some (get_one_forced q).0))
      ⊎ ((basic_get b name ≡ panic) × FrontUnsendable b name)
unfolding basic_get get_and_decr_ref next_delivery_tag send_content
basic_get-IsConsistent others b name q ok f n = elim (List-cases q.queue) [
  | inl e ↦
      let empty : get_one_forced q ≡ (q, none) = unfold get_one_forced in ground (arith, e) in
      inl (
        record b { sent = b.sent ++ get_empty ∷ [] },
        rw (basic_get, f, empty) refl,
        record {
          balanced = ok.balanced;
          queues_unique = ok.queues_unique;
          acks_unique = ok.acks_unique;
          named = ok.named;
        },
        refl,
        rw empty f,
      )
  | inr (qm, rest, e) ↦
      let left : (get_one_forced q).0 ≡ record q { queue = rest } =
        unfold get_one_forced in ground (arith, e) in
      let taken : (get_one_forced q).1 ≡ some qm = unfold get_one_forced in ground (arith, e) in
      let (msg, m) = stored others b name q qm rest ok f e in
      let b1 = record b { queues = put name (record q { queue = rest }) b.queues } in
      let (store', d, w) =
        remove_ref-IsBalanced parties b.store qm (outstanding others b1) q.name (the_channel ∷ [])
          b.parties (front_taken others b name q qm rest ok f e) n in
      let s = release_all-SameDeliveries (the_channel ∷ []) qm b.parties in
      let h = release_all parties (the_channel ∷ []) qm b.parties in
      elim (Outcome-cases (encoded msg)) [
        | inr fault ↦ inr (
          rw (basic_get, f, taken, get_and_decr_ref, m, d, send_content, fault) refl,
          (q, qm, rest, msg, f, e, m, fault),
        )
        | inl (bs, fine) ↦ inl (
          record b {
            store = store';
            queues = put name (get_one_forced q).0 b.queues;
            parties = record h { channel = next_delivery_tag h.channel };
            sent =
                b.sent
                ++ get_ok (next_delivery_tag h.channel).delivery_tag (redelivered qm) msg ∷ [];
          },
          rw (basic_get, f, taken, get_and_decr_ref, m, d, send_content, fine) refl,
          record {
            balanced = rw (left, s.awaiting) w;
            queues_unique = put-IsUnique name (get_one_forced q).0 b.queues ok.queues_unique;
            acks_unique = rw s.awaiting ok.acks_unique;
            named = rw s.awaiting ok.named;
          },
          s.awaiting,
          ground (arith, find-put name name (get_one_forced q).0 b.queues, str_beq_iff name name),
        )
      ]
]
