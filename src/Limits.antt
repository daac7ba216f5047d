-- ===== src/Limits.antt =====
-- The prefetch limits that server/channel.go and consumer/consumer.go keep in the same four fields:
-- active counts against limits, 0 for no limit, in uint16 and uint32.
pub mod Holders
use dispatchd.Amqp.Types.{QueueMessage}
use dispatchd.Common.{
  Bool, arith, false, if◌then◌else◌, ltb, true, ℕ, ◌%◌, ◌&&◌, ◌+◌, ◌-◌, ◌<◌, ◌==◌, ◌^◌, ◌||◌, ◌≡◌,
  nat_eq, str_eq, pair_eq,
}

pub record Limit : Type 0 where
  pub prefetch_size : ℕ
  pub prefetch_count : ℕ
  pub active_size : ℕ
  pub active_count : ℕ

unfoldable pub size_ok : Limit → Bool
size_ok l = l.prefetch_size == 0 || ltb l.active_size l.prefetch_size

unfoldable pub count_ok : Limit → Bool
count_ok l = l.prefetch_count == 0 || ltb l.active_count l.prefetch_count

-- activeCount += 1; activeSize += qm.MsgSize
unfoldable pub take_one : Limit → QueueMessage → Limit
take_one l qm = record l {
  active_count = (l.active_count + 1) % 2 ^ 16;
  active_size = (l.active_size + qm.msg_size) % 2 ^ 32;
}

-- activeCount -= 1; activeSize -= qm.MsgSize
unfoldable pub give_back : Limit → QueueMessage → Limit
give_back l qm = record l {
  active_count = (l.active_count + 2 ^ 16 - 1) % 2 ^ 16;
  active_size = (l.active_size + 2 ^ 32 - qm.msg_size % 2 ^ 32) % 2 ^ 32;
}

-- AcquireResources of a channel.
unfoldable pub acquire_limit : Limit → QueueMessage → Bool × Limit
unfolding size_ok count_ok take_one
acquire_limit l qm = if size_ok l && count_ok l then (true, take_one l qm) else (false, l)

abbrev pub InRange : Limit → Type 0
InRange l = (l.active_size < 2 ^ 32) × (l.active_count < 2 ^ 16)

pub take_one-InRange : (l : Limit) (qm : QueueMessage) → InRange (take_one l qm)
unfolding take_one
take_one-InRange l qm = omega arith

pub give_back-InRange : (l : Limit) (qm : QueueMessage) → InRange (give_back l qm)
unfolding give_back
give_back-InRange l qm = omega arith

-- Giving back undoes taking, in spite of the wrap-around, for counters in range.
pub give_back-take_one :
    (l : Limit) (qm : QueueMessage) → InRange l → give_back (take_one l qm) qm ≡ l
unfolding give_back take_one
give_back-take_one l qm h = ground arith

pub give_back_comm :
    (l : Limit) (p q : QueueMessage) → give_back (give_back l p) q ≡ give_back (give_back l q) p
unfolding give_back
give_back_comm l p q = ground arith

-- A channel that has taken nothing, and has a limit on the count, refuses the next message after
-- it has given back what it never took.
pub give_back-starves :
    (l : Limit) (qm next : QueueMessage)
    → l.active_count ≡ 0
    → 0 < l.prefetch_count
    → l.prefetch_count < 2 ^ 16
    → (acquire_limit (give_back l qm) next).0 ≡ false
unfolding acquire_limit give_back
give_back-starves l qm next z p q = ground arith
