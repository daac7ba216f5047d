-- ===== src/Consumer.antt =====
-- consumer/consumer.go: one consumer, its prefetch limit and its wake-up flag.
use dispatchd.Amqp.Types.{QueueMessage}
use dispatchd.Limits.{Limit, size_ok, count_ok, take_one, give_back}
use dispatchd.Common.{
  Bool, GoString, false, if◌then◌else◌, not, true, ℕ, ◌&&◌, ◌==◌, nat_eq, str_eq, pair_eq,
}

-- `incoming` says whether the buffered channel of that name, of capacity 1, holds a value.
pub record Consumer : Type 0 where
  pub consumer_tag : GoString
  pub exclusive : Bool
  pub no_ack : Bool
  pub no_local : Bool
  pub queue_name : GoString
  pub limit : Limit
  pub incoming : Bool
  pub stopped : Bool
  pub stat_count : ℕ
  pub local_id : ℕ

unfoldable pub new_consumer : GoString → Bool → Bool → Bool → GoString → ℕ → ℕ → ℕ → Consumer
new_consumer consumer_tag exclusive no_ack no_local queue_name prefetch_size prefetch_count
      local_id =
    record {
      consumer_tag = consumer_tag;
      exclusive = exclusive;
      no_ack = no_ack;
      no_local = no_local;
      queue_name = queue_name;
      limit = record {
        prefetch_size = prefetch_size;
        prefetch_count = prefetch_count;
        active_size = 0;
        active_count = 0;
      };
      incoming = false;
      stopped = false;
      stat_count = 0;
      local_id = local_id;
    }

-- Whether AcquireResources returns true; `flow` is what the channel's FlowActive returns.
unfoldable pub accepts : Bool → Consumer → QueueMessage → Bool
unfolding size_ok count_ok
accepts flow c qm =
    if c.no_local && qm.local_id == c.local_id
    then false
    else if not flow
    then false
    else if c.no_ack
    then true
    else size_ok c.limit && count_ok c.limit

-- What AcquireResources writes where it returns true, and what ReleaseResources writes.
unfoldable pub took : Consumer → QueueMessage → Consumer
took c qm = record c { limit = take_one c.limit qm }

unfoldable pub released : Consumer → QueueMessage → Consumer
released c qm = record c { limit = give_back c.limit qm }

unfoldable pub ping : Consumer → Consumer
ping c = if not c.stopped then record c { incoming = true } else c

-- Closing `incoming` lets every receive go on, so a stopped consumer is as if woken.
unfoldable pub stop : Consumer → Consumer
stop c = if not c.stopped then record c { stopped = true; incoming = true } else c
