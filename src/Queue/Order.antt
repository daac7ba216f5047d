-- ===== src/Queue/Order.antt =====
-- The order in which a queue gives its messages out.
use mathlib.Core.List.{append-nil, append_assoc}
use dispatchd.Amqp.Types.{Message, QueueMessage}
use dispatchd.MsgStore.{MessageStore, incr_delivery_count}
use dispatchd.MsgStore.Acquire.{AllTake, get_all_or_nothing}
use dispatchd.Parties.{Party, Parties, parties, IsInRange}
use dispatchd.Queue.{Queue, add, readd, get_one_forced, get_one, take_front}
use dispatchd.Common.{
  GoString, List, List-cases, [], ap, arith, done, false, find, inl, inr, length, length-append,
  none, refl, some, suc, sym, take, true, zero, ℕ, ◌%◌, ◌++◌, ◌+◌, ◌^◌, ◌∙◌, ◌∷◌, ◌≡◌, ◌⊎◌, nat_eq,
  str_eq, pair_eq,
}

unfoldable pub add_all : Queue → List QueueMessage → Queue
add_all q [] = q
add_all q (qm ∷ qms) = add_all (add q qm).0 qms

added : (q : Queue) (qm : QueueMessage) → q.closed ≡ false → (add q qm).0.queue ≡ q.queue ++ qm ∷ []
unfolding add
added q qm o = ground arith

take_all {ℓ} : {A : Type ℓ} (xs : List A) → take (length xs) xs ≡ xs
take_all [] = refl
take_all (x ∷ xs) = ap (◌∷◌ x) (take_all xs)

-- Takes messages out by GetOneForced, at most `n`, in the order in which they come.
unfoldable pub drain : ℕ → Queue → List QueueMessage
drain zero q = []
drain (suc n) q = elim (get_one_forced q).1 [
  | none ↦ []
  | some qm ↦ qm ∷ drain n (get_one_forced q).0
]

add_all_queue :
    (q : Queue) (qms : List QueueMessage)
    → q.closed ≡ false
    → (add_all q qms).queue ≡ q.queue ++ qms
unfolding add_all add
add_all_queue q [] o = sym (append-nil q.queue)
add_all_queue q (qm ∷ qms) o =
    add_all_queue (add q qm).0 qms (unfold add in ground arith)
    ∙ (ap (λ (l : List QueueMessage). l ++ qms) (added q qm o) ∙ append_assoc q.queue (qm ∷ []) qms)

drain_queue : (n : ℕ) (q : Queue) → drain n q ≡ take n q.queue
unfolding drain get_one_forced
drain_queue zero q = refl
drain_queue (suc n) q = elim (List-cases q.queue) [
  | inl e ↦ rw (e, get_one_forced)
  | inr (qm, rest, e) ↦
      rw (e, get_one_forced) (ap (◌∷◌ qm) (drain_queue n (record q { queue = rest })))
]

-- First in, first out: what an open queue gives out, after any messages are added, is what it held
-- and then those messages, in the order in which they were added.
pub fifo :
    (q : Queue) (qms : List QueueMessage)
    → q.closed ≡ false
    → drain (length q.queue + length qms) (add_all q qms) ≡ q.queue ++ qms
fifo q qms o =
    drain_queue _ (add_all q qms)
    ∙ (ap (take (length q.queue + length qms)) (add_all_queue q qms o)
        ∙ rw (← length-append q.queue qms) (take_all (q.queue ++ qms)))

-- The front, taken out and put back by a nack, is the front again, before what followed it; only
-- its delivery count has gone up.
pub readd-get_one_forced :
    (ms : MessageStore) (q q' : Queue) (name : GoString) (qm : QueueMessage)
    → get_one_forced q ≡ (q', some qm)
    → (readd ms q' name qm).1.queue
        ≡ record qm { delivery_count = (qm.delivery_count + 1) % 2 ^ 32 } ∷ q'.queue
      × (q.queue ≡ qm ∷ q'.queue)
unfolding readd incr_delivery_count get_one_forced
readd-get_one_forced ms q q' name qm e = ground arith

module _ (ms : MessageStore) (q : Queue) (rhs : List Party) (h : Parties)
    (valid : IsInRange h) where
  -- GetOne on a closed queue, or on an empty one, gets nothing and changes nothing, the holders
  -- included.
  pub get_one_nothing : (q.closed ≡ true) ⊎ (q.queue ≡ []) → get_one ms q rhs h ≡ done (q, none, h)
  unfolding get_one
  get_one_nothing c = ground arith

  -- Given holders in range, GetOne on an open queue whose front is in the store either takes the
  -- front off, every holder having taken it in turn, or changes nothing at all.
  pub get_one_front :
      (qm : QueueMessage) (rest : List QueueMessage) (msg : Message)
      → q.closed ≡ false
      → q.queue ≡ qm ∷ rest
      → find qm.id ms.messages ≡ some msg
      → ((h' : Parties) × (get_one ms q rhs h
            ≡ done (record q { queue = rest }, some (qm, msg), h'))
          × AllTake parties qm rhs h h')
        ⊎ (get_one ms q rhs h ≡ done (q, none, h))
  unfolding get_one take_front
  get_one_front qm rest msg o e f = elim (get_all_or_nothing parties ms qm rhs h msg valid f) [
    | inl (h', g, t) ↦ inl (h', rw (e, o, g), t)
    | inr g ↦ inr (rw (e, o, g))
  ]
