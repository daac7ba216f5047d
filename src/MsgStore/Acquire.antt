-- ===== src/MsgStore/Acquire.antt =====
-- Acquiring the resources of several holders is all or nothing.
use dispatchd.Amqp.Types.{Message, QueueMessage}
use dispatchd.Limits.Holders.{Holders}
use dispatchd.MsgStore.{MessageStore, acquire_all, release_all, get}
use dispatchd.Common.{
  Bool-cases, List, [], ap, arith, done, find, inl, inr, length, none, refl, some, true, ◌==◌, ◌∙◌,
  ◌∷◌, ◌≡◌, ◌≤◌, ◌⊎◌, nat_eq, str_eq, pair_eq,
}

module _ {H R : Type 0} (holders : Holders H R) where
  open holders use {
    acquire, release, IsValid, acquire-IsValid, acquire_refused, release-acquire, release_comm,
  }

  release_all_comm :
      (r : R) (rs : List R) (qm : QueueMessage) (h : H)
      → release_all holders rs qm (release r qm h) ≡ release r qm (release_all holders rs qm h)
  unfolding release_all
  release_all_comm r [] qm h = refl
  release_all_comm r (s ∷ rs) qm h =
      rw (release_comm s r qm h) (release_all_comm r rs qm (release s qm h))

  -- What the loop acquired, released in the same order, leaves every holder as it was.
  release_all-acquire_all :
      (rs : List R) (qm : QueueMessage) (h : H)
      → IsValid h
      → release_all holders (acquire_all holders rs qm h).0 qm (acquire_all holders rs qm h).1 ≡ h
  unfolding acquire_all release_all
  release_all-acquire_all [] qm h v = refl
  release_all-acquire_all (r ∷ rs) qm h v = elim (Bool-cases (acquire r qm h).0) [
    | inl taken ↦ rw taken (
        release_all_comm r (acquire_all holders rs qm (acquire r qm h).1).0 qm _
        ∙ ap (release r qm)
            (release_all-acquire_all rs qm (acquire r qm h).1 (acquire-IsValid r qm h v))
        ∙ release-acquire r qm h v taken)
    | inr refused ↦ rw refused (acquire_refused r qm h refused)
  ]

  -- Every holder of the list takes the message, one after the other, from `h` to `h'`.
  pub data AllTake (qm : QueueMessage) : List R → H → H → Type 0 where
    none_left : (h : H) → AllTake qm [] h h
    takes :
        (r : R) (rs : List R) (h h' : H)
        → (acquire r qm h).0 ≡ true
        → AllTake qm rs (acquire r qm h).1 h'
        → AllTake qm (r ∷ rs) h h'

  length_acquired :
      (rs : List R) (qm : QueueMessage) (h : H) → length (acquire_all holders rs qm h).0 ≤ length rs
  unfolding acquire_all
  length_acquired [] qm h = omega arith
  length_acquired (r ∷ rs) qm h = ground (arith, length_acquired rs qm (acquire r qm h).1)

  acquire_all-AllTake :
      (rs : List R) (qm : QueueMessage) (h : H)
      → length (acquire_all holders rs qm h).0 ≡ length rs
      → AllTake qm rs h (acquire_all holders rs qm h).1
  unfolding acquire_all
  acquire_all-AllTake [] qm h e = none_left h
  acquire_all-AllTake (r ∷ rs) qm h e = elim (Bool-cases (acquire r qm h).0) [
    | inl taken ↦
        rw taken
          (takes r rs h _ taken (acquire_all-AllTake rs qm (acquire r qm h).1 (ground arith)))
    | inr refused ↦ absurd (ground arith)
  ]

  -- Given valid holders, Get on a message that the store has either gets it, and every holder has
  -- taken it in turn; or it gets nothing, and every holder is as it was.
  pub get_all_or_nothing :
      (ms : MessageStore) (qm : QueueMessage) (rhs : List R) (h : H) (msg : Message)
      → IsValid h
      → find qm.id ms.messages ≡ some msg
      → ((h' : H) × (get holders ms qm rhs h ≡ done (some msg, h')) × AllTake qm rhs h h')
        ⊎ (get holders ms qm rhs h ≡ done (none, h))
  unfolding get
  get_all_or_nothing ms qm rhs h msg v found =
      elim (Bool-cases (length (acquire_all holders rhs qm h).0 == length rhs)) [
        | inl all ↦ inl (
          (acquire_all holders rhs qm h).1,
          ground (arith, all),
          acquire_all-AllTake rhs qm h (ground arith),
        )
        | inr some_refused ↦ inr (ground (arith, some_refused, release_all-acquire_all rhs qm h v))
      ]
