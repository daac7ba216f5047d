-- ===== src/Broker/Subscribing/Cancelling.antt =====
-- A consumer that is added to a queue and cancelled.
use mathlib.Core.Path.{subst}
use dispatchd.MsgStore.Batch.{count_id}
use dispatchd.MsgStore.Refs.{IsBalanced-same}
use dispatchd.Consumer.{Consumer, new_consumer, stop}
use dispatchd.Parties.{Parties, update}
use dispatchd.Queue.{Queue, runs, add_consumer, is_empty}
use dispatchd.Exchange.{is_nil}
use dispatchd.Broker.{Broker}
use dispatchd.Broker.Balance.{IsConsistent, held_by_queue, outstanding}
use dispatchd.Broker.Recover.{remove_consumer}
use dispatchd.Broker.Subscribing.{
  Received, BasicConsume, nothing, consume_ok, cancel_ok, consumer_of, with_queue, with_consumer,
  added_to, subscribe, confirmed, named_queue, tagged, basic_consume, cancelled, basic_cancel,
}
use dispatchd.Common.{
  Bool, GoString, Option, [], ap, arith, contains, false, find, find-put, Bool-cases, sym,
  nat_beq_iff, find-remove, put, remove, put-IsUnique, total, measured, total-put, if◌then◌else◌,
  inl, inr, none, refl, some, str_beq_iff, true, ℕ, ◌==◌, ◌++◌, ◌∙◌, ◌∷◌, ◌≡◌, ◌⊎◌, nat_eq, str_eq,
  pair_eq,
}

-- A queue after a consumer has joined it.
abbrev pub joined : Queue → ℕ → Bool → Queue
joined q c exclusive = record q {
  delete_active = 0;
  sole_consumer = if exclusive then some c else q.sole_consumer;
  consumers = q.consumers ++ c ∷ [];
  has_had_consumers = true;
}

joins :
    (q : Queue) (c : ℕ) (exclusive : Bool)
    → q.closed ≡ false
    → q.consumer_locked ≡ false
    → (exclusive ≡ false) ⊎ (q.consumers ≡ [])
    → add_consumer q c exclusive ≡ runs (joined q c exclusive, 0)
unfolding add_consumer is_empty
joins q c true o l (inl x) = absurd (cc)
joins q c true o l (inr e) = ground (arith, o, l, e)
joins q c false o l e = ground (arith, o, l)

-- Another queue in the place of one with the same messages, and one more consumer.
replaced-IsConsistent :
    (others : ℕ → ℕ) (b : Broker) (name : GoString) (q q' : Queue) (c : ℕ) (new : Consumer)
    → IsConsistent others b
    → find name b.queues ≡ some q
    → q'.queue ≡ q.queue
    → IsConsistent others (with_consumer (with_queue b name q') c new)
unfolding with_consumer with_queue
replaced-IsConsistent others b name q q' c new ok here same =
    let same_total : (id : ℕ)
        → total (held_by_queue id) (put name q' b.queues) ≡ total (held_by_queue id) b.queues =
      λ id. omega (
        arith,
        total-put (held_by_queue id) name q' b.queues ok.queues_unique,
        ap (measured (held_by_queue id)) here,
        ap (count_id id) same,
      ) in
    record {
      balanced =
          IsBalanced-same b.store b.store (outstanding others b)
            (outstanding others (with_consumer (with_queue b name q') c new)) refl refl
            (λ id. omega (arith, same_total id)) ok.balanced;
      queues_unique = put-IsUnique name q' b.queues ok.queues_unique;
      acks_unique = ok.acks_unique;
      named = ok.named;
    }

module _ (b : Broker) (c : ℕ) (m : BasicConsume) (q : Queue) where
  -- The broker once the consumer has joined, and once it is cancelled.
  abbrev pub after_consume : Broker
  after_consume =
      with_consumer (with_queue b m.queue (joined q c m.exclusive)) c
        (consumer_of b.parties.channel q m)

  abbrev pub after_cancel : Broker
  after_cancel = (basic_cancel after_consume m.consumer_tag false).0

  -- What removeConsumer leaves.
  abbrev left : Parties
  left = record after_consume.parties {
    channel = record after_consume.parties.channel {
      consumers = remove m.consumer_tag after_consume.parties.channel.consumers;
    };
    consumers = update c (stop (after_consume.parties.consumers c)) after_consume.parties.consumers;
  }

  module _ (random : GoString) (others : ℕ → ℕ) (ok : IsConsistent others b)
      (here : find m.queue b.queues ≡ some q) (open_q : q.closed ≡ false)
      (free : q.consumer_locked ≡ false) (allowed : (m.exclusive ≡ false) ⊎ (q.consumers ≡ []))
      (named : is_nil m.queue ≡ false) (tag : is_nil m.consumer_tag ≡ false)
      (new : contains m.consumer_tag b.parties.channel.consumers ≡ false) where
    subscribed : subscribe b c m.queue q m ≡ runs (after_consume, none)
    unfolding subscribe added_to
    subscribed = rw (subscribe, new, joins q c m.exclusive open_q free allowed) refl

    consumed :
        basic_consume b c random m
        ≡ runs (after_consume, if m.no_wait then nothing else consume_ok m.consumer_tag, none)
    unfolding basic_consume confirmed named_queue tagged
    consumed = ground (arith, named, tag, here, subscribed)

    tag_of : (consumer_of b.parties.channel q m).consumer_tag ≡ m.consumer_tag
    unfolding consumer_of new_consumer
    tag_of = refl

    own_place : find m.consumer_tag after_consume.parties.channel.consumers ≡ some c
    unfolding with_consumer with_queue consumer_of new_consumer
    own_place =
        find-put m.consumer_tag m.consumer_tag c b.parties.channel.consumers
        ∙ ground (arith, str_beq_iff m.consumer_tag m.consumer_tag)

    cancels :
        basic_cancel after_consume m.consumer_tag false
        ≡ (record after_consume { parties = left }, cancel_ok m.consumer_tag, none)
    unfolding basic_cancel cancelled remove_consumer
    cancels = rw (basic_cancel, remove_consumer, own_place) refl

    now : after_cancel ≡ record after_consume { parties = left }
    now = ap (λ (r : Received). r.0) cancels

    consistent : IsConsistent others after_consume
    consistent =
        replaced-IsConsistent others b m.queue q (joined q c m.exclusive) c
          (consumer_of b.parties.channel q m) ok here refl

    IsConsistent-still : IsConsistent others (record after_consume { parties = left })
    unfolding with_consumer with_queue
    IsConsistent-still = record {
      balanced = consistent.balanced;
      queues_unique = consistent.queues_unique;
      acks_unique = consistent.acks_unique;
      named = consistent.named;
    }

    absent : find m.consumer_tag b.parties.channel.consumers ≡ none
    unfolding contains
    absent = ground (arith, new)

    queue_there : find m.queue after_consume.queues ≡ some (joined q c m.exclusive)
    unfolding with_consumer with_queue
    queue_there =
        find-put m.queue m.queue (joined q c m.exclusive) b.queues
        ∙ ground (arith, str_beq_iff m.queue m.queue)

    same_consumers :
        (t : GoString) → find t left.channel.consumers ≡ find t b.parties.channel.consumers
    unfolding with_consumer with_queue consumer_of new_consumer contains
    same_consumers t =
        let tags = b.parties.channel.consumers in
        let two =
          find-remove t m.consumer_tag (put m.consumer_tag c tags)
          ∙ ap (λ (o : Option ℕ). if m.consumer_tag == t then none else o)
              (find-put t m.consumer_tag c tags) in
        elim (Bool-cases (m.consumer_tag == t)) [
          | inl same ↦
              two
              ∙ rw same (
                  sym absent
                  ∙ ap (λ (k : GoString). find k tags) ((str_beq_iff m.consumer_tag t).0 same))
          | inr other ↦ two ∙ rw other refl
        ]

    stopped_now : (left.consumers c).stopped ≡ true
    unfolding stop
    stopped_now = ground (arith, nat_beq_iff c c)

    -- A consumer with a new tag joins an open queue whose lock is free, and which has no consumers if
    -- it is to be exclusive. Then basic.consume confirms it, puts it last among the consumers of the
    -- queue and keeps a consistent broker consistent. If the client cancels it at once, that is
    -- confirmed too, the channel has the consumers that it had before, and the broker is still
    -- consistent; but the queue keeps the stopped consumer.
    pub basic_cancel-basic_consume :
        (basic_consume b c random m
          ≡ runs (after_consume, if m.no_wait then nothing else consume_ok m.consumer_tag, none))
        × IsConsistent others after_consume
        × (basic_cancel after_consume m.consumer_tag false
            ≡ (after_cancel, cancel_ok m.consumer_tag, none))
        × IsConsistent others after_cancel
        × ((t : GoString)
            → find t after_cancel.parties.channel.consumers ≡ find t b.parties.channel.consumers)
        × ((after_cancel.parties.consumers c).stopped ≡ true)
        × (find m.queue after_cancel.queues ≡ some (joined q c m.exclusive))
    basic_cancel-basic_consume = (
      consumed,
      consistent,
      cancels ∙ ap (λ (v : Broker). (v, cancel_ok m.consumer_tag, none)) (sym now),
      subst (IsConsistent others) (sym now) IsConsistent-still,
      λ t. ap (λ (v : Broker). find t v.parties.channel.consumers) now ∙ same_consumers t,
      ap (λ (v : Broker). (v.parties.consumers c).stopped) now ∙ stopped_now,
      ap (λ (v : Broker). find m.queue v.queues) now ∙ queue_there,
    )
