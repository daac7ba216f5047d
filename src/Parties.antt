-- ===== src/Parties.antt =====
-- The two holders of resources, a channel (server/channel.go) and its consumers
-- (consumer/consumer.go), as an instance of the interface. A consumer is shared by its queue and its
-- channel, so the consumers stand in a heap.
use mathlib.Core.Path.{fun_ext}
use dispatchd.Amqp.Types.{QueueMessage}
use dispatchd.Limits.{InRange, give_back, acquire_limit, take_one-InRange, give_back-take_one}
use dispatchd.Limits.Holders.{Holders}
use dispatchd.Consumer.{Consumer, accepts, took, released}
use dispatchd.Channel.{Channel}
use dispatchd.Common.{
  Bool, Bool-cases, ap, arith, false, if◌then◌else◌, inl, inr, refl, true, ℕ, ◌==◌, ◌≡◌, nat_eq,
  str_eq, pair_eq,
}

pub data Party : Type 0 where
  the_channel : Party
  consumer : ℕ → Party

pub record Parties : Type 0 where
  pub channel : Channel
  pub consumers : ℕ → Consumer

abbrev pub update {ℓ} : {A : Type ℓ} → ℕ → A → (ℕ → A) → ℕ → A
update k v f j = if k == j then v else f j

-- AcquireResources of the channel, and of a consumer.
unfoldable pub acquire : Party → QueueMessage → Parties → Bool × Parties
unfolding acquire_limit accepts took
acquire the_channel qm h =
    let (ok, l) = acquire_limit h.channel.limit qm in
    if ok then (true, record h { channel = record h.channel { limit = l } }) else (false, h)
acquire (consumer c) qm h =
    if accepts h.channel.flow (h.consumers c) qm
    then (true, record h { consumers = update c (took (h.consumers c) qm) h.consumers })
    else (false, h)

-- ReleaseResources of the channel, and of a consumer.
unfoldable pub release : Party → QueueMessage → Parties → Parties
unfolding released
release the_channel qm h = record h {
  channel = record h.channel { limit = give_back h.channel.limit qm };
}
release (consumer c) qm h = record h {
  consumers = update c (released (h.consumers c) qm) h.consumers;
}

pub record IsInRange (h : Parties) : Type 0 where
  pub channel : InRange h.channel.limit
  pub consumers : (c : ℕ) → InRange (h.consumers c).limit

pub acquire-IsInRange :
    (r : Party) (qm : QueueMessage) (h : Parties) → IsInRange h → IsInRange (acquire r qm h).1
unfolding acquire took
acquire-IsInRange the_channel qm h v = record {
  channel = ground (arith, take_one-InRange h.channel.limit qm);
  consumers = λ c. ground (arith, v.consumers c);
}
acquire-IsInRange (consumer c) qm h v = record {
  channel = ground arith;
  consumers = λ d. ground (arith, v.consumers d, take_one-InRange (h.consumers c).limit qm);
}

pub acquire_refused :
    (r : Party) (qm : QueueMessage) (h : Parties)
    → (acquire r qm h).0 ≡ false
    → (acquire r qm h).1 ≡ h
unfolding acquire
acquire_refused the_channel qm h e = ground arith
acquire_refused (consumer c) qm h e = ground arith

update_restored :
    (h : Parties) (c : ℕ) (a b : Consumer)
    → b ≡ h.consumers c
    → record h { consumers = update c b (update c a h.consumers) } ≡ h
update_restored h c a b e =
    ap (λ (f : ℕ → Consumer). record h { consumers = f }) (fun_ext λ d. ground (arith, e))

pub release-acquire :
    (r : Party) (qm : QueueMessage) (h : Parties)
    → IsInRange h
    → (acquire r qm h).0 ≡ true
    → release r qm (acquire r qm h).1 ≡ h
unfolding release acquire took
release-acquire the_channel qm h v e =
    ground (arith, give_back-take_one h.channel.limit qm v.channel)
release-acquire (consumer c) qm h v e =
    elim (Bool-cases (accepts h.channel.flow (h.consumers c) qm)) [
      | inl taken ↦ rw taken (
          update_restored h c (took (h.consumers c) qm) _
            (ground (arith, give_back-take_one (h.consumers c).limit qm (v.consumers c))))
      | inr refused ↦ absurd (ground arith)
    ]

pub release_comm :
    (r s : Party) (qm : QueueMessage) (h : Parties)
    → release r qm (release s qm h) ≡ release s qm (release r qm h)
unfolding release
release_comm the_channel the_channel qm h = refl
release_comm the_channel (consumer c) qm h = refl
release_comm (consumer c) the_channel qm h = refl
release_comm (consumer c) (consumer d) qm h =
    ap (λ (f : ℕ → Consumer). record h { consumers = f }) (fun_ext λ j. ground arith)

abbrev pub parties : Holders Parties Party
parties = record {
  acquire = acquire;
  release = release;
  IsValid = IsInRange;
  acquire-IsValid = acquire-IsInRange;
  acquire_refused = acquire_refused;
  release-acquire = release-acquire;
  release_comm = release_comm;
}
