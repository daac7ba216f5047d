-- ===== src/Tests/Frames.antt =====
-- The frames of a channel on concrete inputs.
use dispatchd.Amqp.Types.{Message, WireFrame}
use dispatchd.MsgStore.{is_durable, new_queue_message}
use dispatchd.Channel.{Channel, closing}
use dispatchd.Broker.{Broker}
use dispatchd.Broker.Balance.{IsConsistent}
use dispatchd.Broker.Publish.Enqueue.{with_added}
use dispatchd.Intake.{Exchanges}
use dispatchd.Intake.Assembly.{feed, feed-IsConsistent}
use dispatchd.Intake.Loop.{Line, Method, on_frame, closes}
use dispatchd.Intake.States.{closing_ignores}
use dispatchd.Tests.Data.{
  a_header, a_channel, a_broker, a_broker-IsConsistent, no_others, some_parties,
}
use dispatchd.Tests.Lifecycle.{news, fan, news_routed}
use dispatchd.Common.{
  Bool, GoString, Option, [], arith, bytes, contains, done, false, find, if◌then◌else◌, inl, none,
  refl, some, str_beq, true, ◌∷◌, ◌≡◌, nat_eq, str_eq, pair_eq,
}

-- A channel on which `news` is under way, and the two body frames that it comes in.
abbrev busy : Option Message → Broker
busy m = record a_broker {
  parties = record some_parties { channel = record a_channel { current_message = m } };
}

abbrev body : GoString → WireFrame
body p = record { frame_type = 3; channel = 1; payload = p }

abbrev received : Message
received = record news { payload = body (bytes "a") ∷ body (bytes "bc") ∷ [] }

abbrev fans : Exchanges
fans = (bytes "e", fan) ∷ []

busy-IsConsistent : (m : Option Message) → IsConsistent no_others (busy m)
busy-IsConsistent m = record {
  balanced = a_broker-IsConsistent.balanced;
  queues_unique = a_broker-IsConsistent.queues_unique;
  acks_unique = a_broker-IsConsistent.acks_unique;
  named = a_broker-IsConsistent.named;
}

feed-IsConsistent_example :
    (d : Bool) × (is_durable received ≡ done d)
    × (b' : Broker) × (feed
          (busy (some (record news { payload = [] })))
          fans
          (body (bytes "a") ∷ body (bytes "bc") ∷ [])
        ≡ done b')
    × IsConsistent no_others b'
    × (b'.parties.channel.current_message ≡ none)
    × ((n : GoString)
        → find n b'.queues ≡ (
            if contains n ((bytes "q", true) ∷ [])
            then with_added (new_queue_message received d) (find n a_broker.queues)
            else find n a_broker.queues))
unfolding find str_beq
feed-IsConsistent_example =
    feed-IsConsistent no_others (busy (some (record news { payload = [] }))) fans fan news a_header
      (body (bytes "a") ∷ []) (body (bytes "bc")) ((bytes "q", true) ∷ []) (busy-IsConsistent _)
      refl refl refl (omega arith) (omega arith) (omega arith) refl refl refl refl refl news_routed
      (omega arith) ((λ e. cc), tt)

-- Every payload is the method basic.qos.
abbrev always_qos : GoString → Option Method
always_qos payload =
    some (record { class_id = 60; method_id = 10; active = false; run = λ b. done (b, none) })

abbrev line : Channel → Line
line ch = record {
  broker = record a_broker { parties = record some_parties { channel = ch } };
  outgoing = [];
  conn_closing = false;
}

abbrev a_method_frame : WireFrame
a_method_frame = record { frame_type = 1; channel = 1; payload = bytes "m" }

abbrev closing_line : Line
closing_line = line (record a_channel { state = closing })

closing_ignores_example :
    on_frame always_qos true fans closing_line a_method_frame ≡ done closing_line
unfolding closes
closing_ignores_example = closing_ignores always_qos true fans closing_line a_method_frame (
    inl (
      refl,
      inl (
        refl,
        record { class_id = 60; method_id = 10; active = false; run = λ b. done (b, none) },
        refl,
        refl,
      ),
    ))
