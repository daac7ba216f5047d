-- ===== src/Tests/Storing.antt =====
-- The database on concrete inputs.
use dispatchd.Amqp.Types.{IndexMessage}
use dispatchd.MsgStore.{MessageStore, remove_ref, drop_ref}
use dispatchd.MsgStore.Persist.{Database, without, clear_ops, persist_once}
use dispatchd.MsgStore.Persist.Saved.{IsPaired, mentions, persist_once-saves}
use dispatchd.MsgStore.Persist.Lost.{acked_early_stays}
use dispatchd.Parties.{parties}
use dispatchd.Tests.Data.{a_message, a_queued, some_parties}
use dispatchd.Common.{
  Option, [], arith, bytes, contains, done, find, if◌then◌else◌, none, put, remove, str_beq, refl,
  some, true, ℕ, ◌&&◌, ◌==◌, ◌∷◌, ◌≡◌, nat_eq, str_eq, pair_eq,
}

-- A database of which only the index is kept.
abbrev Index : Type 0
Index = ℕ → Option IndexMessage

abbrev index_only : Database Index
index_only = record {
  put_message = λ m d. d;
  delete_message = λ id d. d;
  put_index = λ im d id. if im.id == id then some im else d id;
  delete_index = λ old d id. if old == id then none else d id;
  get_index = λ id d. d id;
  put_queue_message = λ q qm d. d;
  delete_queue_message = λ q id d. d;
  get-put_index = λ id im d. refl;
  get-put_message = λ id m d. refl;
  get-put_queue_message = λ id q qm d. refl;
}

abbrev nothing_saved : Index
nothing_saved id = none

-- A durable message whose addition to the queue "q" is to be written.
abbrev a_durable : IndexMessage
a_durable = record { id = 7; refs = 1; durable = true; delivery_count = 0 }

abbrev queued_store : MessageStore
queued_store = record {
  index = (7, a_durable) ∷ [];
  messages = (7, a_message) ∷ [];
  add_ops = ((bytes "q", 7), a_queued) ∷ [];
  del_ops = [];
  delivered_ops = [];
}

queued_store-IsPaired : IsPaired queued_store
unfolding contains find
queued_store-IsPaired = record {
  same_ids = λ id. ground arith;
  own_ids = λ id im f. ground (arith, f);
}

persist_once-saves_example :
    (d' : Index) × (persist_once index_only queued_store nothing_saved
      ≡ done (clear_ops queued_store, d'))
    × ((id : ℕ)
        → d' id ≡ (
            if mentions id queued_store.add_ops && contains id queued_store.index
            then find id queued_store.index
            else none))
persist_once-saves_example =
    persist_once-saves index_only queued_store nothing_saved queued_store-IsPaired refl

-- The consumer acknowledges the message before the next round of the loop that writes.
abbrev acked_store : MessageStore
acked_store = record queued_store { del_ops = ((bytes "q", 7), a_queued) ∷ [] }

acked_early_stays_example :
    ((clear_ops queued_store).messages ≡ queued_store.messages)
    × ((clear_ops queued_store).index ≡ queued_store.index)
    × ((clear_ops queued_store).add_ops ≡ [])
    × ((clear_ops queued_store).del_ops ≡ [])
    × ((clear_ops queued_store).delivered_ops ≡ [])
unfolding find contains remove_ref drop_ref persist_once without clear_ops str_beq put remove
acked_early_stays_example =
    acked_early_stays parties index_only queued_store acked_store (clear_ops queued_store) a_queued
      (bytes "q") a_durable [] some_parties some_parties nothing_saved nothing_saved refl refl refl
      refl refl refl refl
