-- ===== src/Tests/Lifecycle.antt =====
-- Publishing, transactions, recovery and shutdown on concrete inputs.
use dispatchd.Amqp.Table.{end}
use dispatchd.Amqp.Types.{Message}
use dispatchd.MsgStore.{is_durable, new_queue_message}
use dispatchd.MsgStore.Batch.{has_id}
use dispatchd.Exchange.{Exchange, ex_type_fanout, queues_for_publish, is_nil}
use dispatchd.Channel.{Channel}
use dispatchd.Queue.{get_one_forced}
use dispatchd.Broker.{Broker}
use dispatchd.Broker.Balance.{IsConsistent}
use dispatchd.Broker.Consume.{basic_get}
use dispatchd.Broker.Consume.Delivery.{FrontUnsendable}
use dispatchd.Broker.Consume.Get.{basic_get-IsConsistent}
use dispatchd.Broker.Publish.{publish, commit_tx}
use dispatchd.Broker.Publish.Enqueue.{with_added}
use dispatchd.Broker.Publish.Routed.{publish-IsConsistent}
use dispatchd.Broker.Publish.Commit.{has_queue, commit_tx-IsConsistent}
use dispatchd.Broker.Recover.{recover, shutdown, is_closed}
use dispatchd.Broker.Recover.Requeue.{recover-IsConsistent}
use dispatchd.Broker.Recover.Redeliver.{HasUnsendable, recover_again-IsConsistent}
use dispatchd.Broker.Recover.Shutdown.{shutdown-IsConsistent}
use dispatchd.Tests.Data.{
  publish_to, a_message, a_queue, a_channel, some_parties, a_broker, no_others,
  a_broker-IsConsistent,
}
use dispatchd.Common.{
  Bool, GoString, [], arith, bytes, contains, done, false, find, if◌then◌else◌, none, panic, put,
  refl, remove, some, str_beq, str_beq_iff, true, ℕ, ◌<◌, ◌^◌, ◌∷◌, ◌≡◌, ◌≢◌, ◌⊎◌, nat_eq, str_eq,
  pair_eq,
}

abbrev pub news : Message
news = record a_message { id = 8; method = publish_to (bytes "e") (bytes "k") }

abbrev pub fan : Exchange
fan = record {
  name = bytes "e";
  ex_type = ex_type_fanout;
  durable = false;
  auto_delete = false;
  internal = false;
  arguments = end;
  system = false;
  bindings =
      record {
        queue_name = bytes "q";
        exchange_name = bytes "e";
        key = [];
        arguments = end;
        topic = false;
        topic_matcher = none;
      }
      ∷ [];
  closed = false;
  delete_active = 0;
}

pub news_routed : queues_for_publish fan news.method ≡ done ((bytes "q", true) ∷ [])
unfolding queues_for_publish put remove str_beq
news_routed = refl

publish-IsConsistent_example :
    (d : Bool) × (is_durable news ≡ done d)
    × (b' : Broker) × (publish a_broker fan news ≡ done (b', none))
    × IsConsistent no_others b'
    × ((n : GoString)
        → find n b'.queues ≡ (
            if contains n ((bytes "q", true) ∷ [])
            then with_added (new_queue_message news d) (find n a_broker.queues)
            else find n a_broker.queues))
unfolding find is_nil
publish-IsConsistent_example =
    publish-IsConsistent no_others a_broker fan news ((bytes "q", true) ∷ []) a_broker-IsConsistent
      (λ e. cc) refl refl refl news_routed (omega arith) ((λ e. cc), tt)

abbrev tx_channel : Channel
tx_channel = record a_channel {
  tx_mode = true;
  tx_messages = record { msg = news; queue_name = bytes "q" } ∷ [];
  tx_acks = record { tag = 1; nack = false; requeue_nack = false; multiple = false } ∷ [];
}

abbrev tx_broker : Broker
tx_broker = record a_broker { parties = record some_parties { channel = tx_channel } }

tx_broker-IsConsistent : IsConsistent no_others tx_broker
tx_broker-IsConsistent = record {
  balanced = a_broker-IsConsistent.balanced;
  queues_unique = a_broker-IsConsistent.queues_unique;
  acks_unique = a_broker-IsConsistent.acks_unique;
  named = a_broker-IsConsistent.named;
}

tx_fresh : (id : ℕ) → has_id id tx_channel.tx_messages ≡ true → find id tx_broker.store.index ≡ none
unfolding has_id find
tx_fresh id h = ground (arith, h)

tx_there :
    (q : GoString)
    → has_queue q tx_channel.tx_messages ≡ true
    → (q ≢ []) × (contains q tx_broker.queues ≡ true)
unfolding has_queue contains find str_beq
tx_there q h =
    let e : bytes "q" ≡ q = (str_beq_iff (bytes "q") q).0 (ground (arith, h)) in
    rw (← e) ((λ x. cc), refl)

commit_tx-IsConsistent_example :
    (b' : Broker) × (commit_tx tx_broker ≡ done b')
    × IsConsistent no_others b'
    × (b'.parties.channel.tx_messages ≡ [])
    × (b'.parties.channel.tx_acks ≡ [])
commit_tx-IsConsistent_example =
    commit_tx-IsConsistent no_others tx_broker tx_broker-IsConsistent ((λ e. cc), tt) tx_fresh
      (omega arith) tx_there

recover-IsConsistent_example :
    (b' : Broker) × (recover a_broker true ≡ done b')
    × IsConsistent no_others b'
    × (b'.parties.channel.awaiting_acks ≡ [])
unfolding contains find str_beq
recover-IsConsistent_example =
    recover-IsConsistent no_others a_broker a_broker-IsConsistent (refl, tt)

recover_again-IsConsistent_example :
    ((b' : Broker) × (recover a_broker false ≡ done b') × IsConsistent no_others b')
    ⊎ ((recover a_broker false ≡ panic) × HasUnsendable a_broker a_channel.awaiting_acks)
unfolding contains find str_beq
recover_again-IsConsistent_example =
    recover_again-IsConsistent no_others a_broker a_broker-IsConsistent (refl, tt)

-- The consumer was cancelled after the delivery.
abbrev cancelled : Broker
cancelled = record a_broker {
  parties = record some_parties { channel = record a_channel { consumers = [] } };
}

shutdown-IsConsistent_example :
    (b' : Broker) × (shutdown a_broker ≡ done b')
    × IsConsistent no_others b'
    × ((k : ℕ) → k < 2 ^ 64 → find k b'.parties.channel.awaiting_acks ≡ none)
unfolding is_closed
shutdown-IsConsistent_example =
    shutdown-IsConsistent no_others a_broker a_broker-IsConsistent refl refl

basic_get-IsConsistent_example :
    ((b' : Broker) × (basic_get a_broker (bytes "q") ≡ done (some b'))
      × IsConsistent no_others b'
      × (b'.parties.channel.awaiting_acks ≡ a_channel.awaiting_acks)
      × (find (bytes "q") b'.queues ≡ some (get_one_forced a_queue).0))
    ⊎ ((basic_get a_broker (bytes "q") ≡ panic) × FrontUnsendable a_broker (bytes "q"))
unfolding find str_beq
basic_get-IsConsistent_example =
    basic_get-IsConsistent no_others a_broker (bytes "q") a_queue a_broker-IsConsistent refl
      (λ e. cc)
