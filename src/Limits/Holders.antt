-- ===== src/Limits/Holders.antt =====
-- amqp/types.go, MessageResourceHolder: what has limits on the messages that it can handle, as an
-- interface over the state `H` of all the holders, which are named by `R`.
use dispatchd.Amqp.Types.{QueueMessage}
use dispatchd.Common.{Bool, false, true, ◌≡◌}

pub record Holders (H R : Type 0) : Type 1 where
  pub acquire : R → QueueMessage → H → Bool × H
  pub release : R → QueueMessage → H → H
  pub IsValid : H → Type 0
  pub acquire-IsValid : (r : R) (qm : QueueMessage) (h : H) → IsValid h → IsValid (acquire r qm h).1
  pub acquire_refused :
      (r : R) (qm : QueueMessage) (h : H) → (acquire r qm h).0 ≡ false → (acquire r qm h).1 ≡ h
  pub release-acquire :
      (r : R) (qm : QueueMessage) (h : H)
      → IsValid h
      → (acquire r qm h).0 ≡ true
      → release r qm (acquire r qm h).1 ≡ h
  pub release_comm :
      (r s : R) (qm : QueueMessage) (h : H)
      → release r qm (release s qm h) ≡ release s qm (release r qm h)
