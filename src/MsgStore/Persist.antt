-- ===== src/MsgStore/Persist.antt =====
-- msgstore/msgstore.go, persistOnce with clearOps and what they call: the queued operations are
-- written to the database. The database (bolt, with the protobuf encoding of what it holds) is a
-- parameter; its errors, on which persistOnce panics, are not modelled.
pub mod Saved
pub mod Lost
use dispatchd.Amqp.Types.{Message, IndexMessage, QueueMessage}
use dispatchd.MsgStore.{MessageStore}
use dispatchd.Common.{
  Bool, GoString, Map, Option, Outcome, [], contains, done, false, find, if◌then◌else◌, leb, none,
  panic, remove, some, true, ℕ, ◌-◌, ◌==◌, ◌>>=◌, ◌^◌, ◌||◌, ◌∷◌, ◌≡◌, nat_eq, str_eq, pair_eq,
}

-- The buckets for the content, the index and each queue.
pub record Database (D : Type 0) : Type 0 where
  pub put_message : Message → D → D
  pub delete_message : ℕ → D → D
  pub put_index : IndexMessage → D → D
  pub delete_index : ℕ → D → D
  pub get_index : ℕ → D → Option IndexMessage
  pub put_queue_message : GoString → QueueMessage → D → D
  pub delete_queue_message : GoString → ℕ → D → D
  -- What is documented of a bucket, for the index.
  pub get-put_index :
      (id : ℕ) (im : IndexMessage) (d : D)
      → get_index id (put_index im d) ≡ (if im.id == id then some im else get_index id d)
  pub get-put_message :
      (id : ℕ) (m : Message) (d : D) → get_index id (put_message m d) ≡ get_index id d
  pub get-put_queue_message :
      (id : ℕ) (q : GoString) (qm : QueueMessage) (d : D)
      → get_index id (put_queue_message q qm d) ≡ get_index id d

abbrev pub Ops : Type 0
Ops = Map (GoString × ℕ) QueueMessage

-- The entries whose key is not in the other map.
unfoldable pub without : Ops → Ops → Ops
unfolding contains
without [] other = []
without ((k, qm) ∷ ops) other =
    let rest = without ops other in if contains k other then rest else (k, qm) ∷ rest

unfoldable pub clear_ops : MessageStore → MessageStore
clear_ops ms = record ms { add_ops = []; del_ops = []; delivered_ops = [] }

module _ {D : Type 0} (db : Database D) where
  open db use {
    put_message, delete_message, put_index, delete_index, get_index, put_queue_message,
    delete_queue_message,
  }

  -- A message that is in one of the two maps only is a panic; one that is in neither is skipped.
  unfoldable pub persist_add :
      Option Message → Option IndexMessage → GoString → QueueMessage → D → Outcome D
  persist_add (some msg) (some im) q qm d =
      done (put_queue_message q qm (put_index im (put_message msg d)))
  persist_add none none q qm d = done d
  persist_add _ _ q qm d = panic

  unfoldable pub persist_adds : MessageStore → Ops → D → Outcome D
  unfolding persist_add
  persist_adds ms [] d = done d
  persist_adds ms (((q, id), qm) ∷ ops) d = do
    d' ← persist_add (find id ms.messages) (find id ms.index) q qm d
    persist_adds ms ops d'

  unfoldable pub persist_delivered : Ops → D → D
  persist_delivered [] d = d
  persist_delivered (((q, id), qm) ∷ ops) d = persist_delivered ops (put_queue_message q qm d)

  -- The reference count, an int32, must be at least 1; an entry that is not there reads as 0. The flag
  -- says that no reference remains.
  unfoldable pub decr_index_message : MessageStore → ℕ → D → Outcome (MessageStore × D × Bool)
  decr_index_message ms id d = elim (get_index id d) [
    | none ↦ panic
    | some im ↦
        if im.refs == 0 || leb (2 ^ 31) im.refs
        then panic
        else if im.refs == 1
        then done (
          record ms { index = remove id ms.index; messages = remove id ms.messages },
          delete_index id d,
          true,
        )
        else done (ms, put_index (record im { id = id; refs = im.refs - 1 }) d, false)
  ]

  -- The loop over the deletions, which ends at the first message that has no reference left.
  unfoldable pub persist_dels : MessageStore → Ops → D → Outcome (MessageStore × D)
  unfolding decr_index_message
  persist_dels ms [] d = done (ms, d)
  persist_dels ms (((q, id), qm) ∷ ops) d = do
    (ms', d', gone) ← decr_index_message ms qm.id (delete_queue_message q qm.id d)
    elim gone [ true ↦ done (ms', delete_message qm.id d') | false ↦ persist_dels ms' ops d' ]

  unfoldable pub persist_once : MessageStore → D → Outcome (MessageStore × D)
  unfolding persist_adds persist_delivered persist_dels without clear_ops
  persist_once ms d = do
    d' ← persist_adds (clear_ops ms) (without ms.add_ops ms.del_ops) d
    persist_dels (clear_ops ms) (without ms.del_ops ms.add_ops)
        (persist_delivered (without ms.delivered_ops ms.del_ops) d')
