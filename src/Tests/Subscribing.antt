-- ===== src/Tests/Subscribing.antt =====
-- A consumer that is added and cancelled, on a concrete input.
use dispatchd.Queue.{runs}
use dispatchd.Exchange.{is_nil}
use dispatchd.Broker.Balance.{IsConsistent}
use dispatchd.Broker.Subscribing.{BasicConsume, consume_ok, cancel_ok, basic_consume, basic_cancel}
use dispatchd.Broker.Subscribing.Cancelling.{
  joined, after_consume, after_cancel, basic_cancel-basic_consume,
}
use dispatchd.Tests.Data.{a_queue, a_broker, a_broker-IsConsistent, no_others}
use dispatchd.Common.{
  GoString, bytes, contains, false, find, inl, none, refl, some, str_beq, true, ◌≡◌, nat_eq, str_eq,
  pair_eq,
}

abbrev consumes : BasicConsume
consumes = record {
  queue = bytes "q";
  consumer_tag = bytes "d";
  no_local = false;
  no_ack = false;
  exclusive = false;
  no_wait = false;
}

-- The queue has one consumer, "c", and "d" is the second.
basic_cancel-basic_consume_example :
    (basic_consume a_broker 1 (bytes "r") consumes
      ≡ runs (after_consume a_broker 1 consumes a_queue, consume_ok (bytes "d"), none))
    × IsConsistent no_others (after_consume a_broker 1 consumes a_queue)
    × (basic_cancel (after_consume a_broker 1 consumes a_queue) (bytes "d") false
        ≡ (after_cancel a_broker 1 consumes a_queue, cancel_ok (bytes "d"), none))
    × IsConsistent no_others (after_cancel a_broker 1 consumes a_queue)
    × ((t : GoString)
        → find t (after_cancel a_broker 1 consumes a_queue).parties.channel.consumers
          ≡ find t a_broker.parties.channel.consumers)
    × (((after_cancel a_broker 1 consumes a_queue).parties.consumers 1).stopped ≡ true)
    × (find (bytes "q") (after_cancel a_broker 1 consumes a_queue).queues
        ≡ some (joined a_queue 1 false))
unfolding find contains str_beq is_nil
basic_cancel-basic_consume_example =
    basic_cancel-basic_consume a_broker 1 consumes a_queue (bytes "r") no_others
      a_broker-IsConsistent refl refl refl (inl refl) refl refl refl
