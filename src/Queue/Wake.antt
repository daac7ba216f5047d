-- ===== src/Queue/Wake.antt =====
-- The loop of the queue wakes its consumers.
use native.Mathlib.Nat.{mod-eq_of_lt, mod_self}
use mathlib.Core.Path.{subst}
use dispatchd.Consumer.{Consumer, ping}
use dispatchd.Parties.{update}
use dispatchd.Queue.{Queue, runs, nth, ping_loop, process_one, is_empty}
use dispatchd.Common.{
  Bool-cases, List, List-cases, arith, beq_refl, false, if◌then◌else◌, inl, inr, length, ltb,
  nat_beq_iff, suc, true, zero, ℕ, ◌%◌, ◌+◌, ◌-◌, ◌<◌, ◌==◌, ◌≡◌, ◌≤◌, ◌⊎◌, nat_eq, str_eq, pair_eq,
}

-- A consumer that is stopped, or whose wake-up flag is up.
abbrev pub IsAwake : Consumer → Type 0
IsAwake c = (c.stopped ≡ true) ⊎ (c.incoming ≡ true)

ping-IsAwake : (c : Consumer) → IsAwake (ping c)
unfolding ping
ping-IsAwake c = elim (Bool-cases c.stopped) [
  | inl e ↦ inl (ground (arith, e))
  | inr e ↦ inr (ground (arith, e))
]

update_kept :
    (k c : ℕ) (heap : ℕ → Consumer) → IsAwake (heap c) → IsAwake (update k (ping (heap k)) heap c)
update_kept k c heap a = elim (Bool-cases (k == c)) [
  | inl e ↦ rw e (ping-IsAwake (heap k))
  | inr e ↦ rw e a
]

update_here : (k : ℕ) (heap : ℕ → Consumer) → IsAwake (update k (ping (heap k)) heap k)
update_here k heap = let e : (k == k) ≡ true = beq_refl k in rw e (ping-IsAwake (heap k))

ping_loop_kept :
    (count : ℕ) (cs : List ℕ) (current : ℕ) (heap : ℕ → Consumer) (c : ℕ)
    → IsAwake (heap c)
    → IsAwake ((ping_loop count cs current heap).1 c)
unfolding ping_loop
ping_loop_kept zero cs current heap c a = a
ping_loop_kept (suc count) cs current heap c a =
    ping_loop_kept count cs ((current + 1) % length cs) _ c
      (update_kept (nth cs ((current + 1) % length cs)) c heap a)

next_place :
    (current n : ℕ)
    → current < n
    → ((current + 1 < n) × ((current + 1) % n ≡ current + 1))
      ⊎ ((current + 1 ≡ n) × ((current + 1) % n ≡ 0))
next_place current n h = elim (Bool-cases (ltb (current + 1) n)) [
  | inl e ↦ inl (ground (arith, e), mod-eq_of_lt (ground (arith, e)))
  | inr e ↦ let last : current + 1 ≡ n = ground (arith, e, h) in inr (last, rw last (mod_self n))
]

-- How many rounds it takes from one place to another.
abbrev rounds : ℕ → ℕ → ℕ → ℕ
rounds n current i = if ltb current i then i - current else i + n - current

ping_loop-IsAwake :
    (count : ℕ) (cs : List ℕ) (current : ℕ) (heap : ℕ → Consumer) (i : ℕ)
    → current < length cs
    → i < length cs
    → rounds (length cs) current i ≤ count
    → IsAwake ((ping_loop count cs current heap).1 (nth cs i))
unfolding ping_loop
ping_loop-IsAwake zero cs current heap i c h r = absurd (ground (arith, r, c, h))
ping_loop-IsAwake (suc count) cs current heap i c h r =
    let next = (current + 1) % length cs in
    let heap' = update (nth cs next) (ping (heap (nth cs next))) heap in
    elim (Bool-cases (next == i)) [
      | inl here ↦
          let e : next ≡ i = (nat_beq_iff next i).0 here in
          ping_loop_kept count cs next heap' (nth cs i)
            (subst (λ j. IsAwake (heap' (nth cs j))) e (update_here (nth cs next) heap))
      | inr there ↦
          ping_loop-IsAwake count cs next heap' i (ground (arith, next_place current (length cs) c))
            h (ground (arith, next_place current (length cs) c, r, there))
    ]

-- One round of the loop of a queue whose lock is free and whose current place is one of its list of
-- consumers wakes every consumer of the list that is not stopped.
pub process_one-IsAwake :
    (q : Queue) (heap : ℕ → Consumer)
    → q.consumer_locked ≡ false
    → q.current_consumer < length q.consumers
    → (q' : Queue) × (heap' : ℕ → Consumer) × (process_one q heap ≡ runs (q', heap'))
      × ((i : ℕ) → i < length q.consumers → IsAwake (heap' (nth q.consumers i)))
unfolding process_one is_empty
process_one-IsAwake q heap free place = elim (List-cases q.consumers) [
  | inl e ↦ absurd (ground (arith, e, place))
  | inr (c, cs, e) ↦ (
    record q {
      current_consumer = (ping_loop (length q.consumers) q.consumers q.current_consumer heap).0;
    },
    (ping_loop (length q.consumers) q.consumers q.current_consumer heap).1,
    ground (arith, free, e),
    λ i h.
        ping_loop-IsAwake (length q.consumers) q.consumers q.current_consumer heap i place h
          (ground (arith, h, place)),
  )
]
