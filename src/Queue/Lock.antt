-- ===== src/Queue/Lock.antt =====
-- What the refusal of an exclusive consumer does to the queue.
use dispatchd.Consumer.{Consumer}
use dispatchd.Queue.{Queue, blocks, runs, add_consumer, process_one, is_empty}
use dispatchd.Common.{Bool, [], arith, false, refl, true, ℕ, ◌≡◌, ◌≢◌}

-- An open queue that has consumers, its lock free, refuses an exclusive consumer with code 403,
-- and keeps its consumers; but from then on every call that adds a consumer to it while it is
-- open, and every round of its loop, waits for ever.
pub exclusive_refused_blocks :
    (q : Queue) (c : ℕ)
    → q.closed ≡ false
    → q.consumer_locked ≡ false
    → q.consumers ≢ []
    → (q' : Queue) × (add_consumer q c true ≡ runs (q', 403))
      × (q'.consumers ≡ q.consumers)
      × ((d : ℕ) (exclusive : Bool) → add_consumer q' d exclusive ≡ blocks)
      × ((heap : ℕ → Consumer) → process_one q' heap ≡ blocks)
unfolding add_consumer process_one is_empty
exclusive_refused_blocks q c o l n = (
  record q { delete_active = 0; consumer_locked = true },
  ground arith,
  refl,
  λ d e. ground arith,
  λ heap. ground arith,
)
