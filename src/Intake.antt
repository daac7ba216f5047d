-- ===== src/Intake.antt =====
-- server/channel.go, handleContentHeader and handleContentBody, and basicPublish of
-- server/basicMethods.go: a message is put together from its frames and published.
pub mod Assembly
pub mod Loop
pub mod States
use dispatchd.Amqp.Types.{
  AmqpError, BasicPublish, ContentHeaderFrame, Message, TxMessage, WireFrame, new_soft_error,
  new_hard_error,
}
use dispatchd.Channel.{Channel, start_publish}
use dispatchd.Exchange.{Exchange, queues_for_publish}
use dispatchd.Broker.{Broker}
use dispatchd.Broker.Publish.{Returned, publish, names}
use dispatchd.Wire.FieldReader.{ok, failed, out_of_fuel}
use dispatchd.Wire.HeaderReader.{read_header}
use dispatchd.Wire.HeaderWriter.{write_header}
use dispatchd.Common.{
  Bool, GoString, List, Map, Option, Outcome, [], contains, done, find, if◌then◌else◌, length, ltb,
  none, panic, some, ℕ, ◌%◌, ◌++◌, ◌+◌, ◌>>=◌, ◌^◌, ◌∷◌, nat_eq, str_eq, pair_eq,
}

abbrev pub Exchanges : Type 0
Exchanges = Map GoString Exchange

unfoldable pub set_current : Option Message → Broker → Broker
set_current m b = record b {
  parties = record b.parties { channel = record b.parties.channel { current_message = m } };
}

-- `id` is what util.NextId returns.
unfoldable pub basic_publish : Channel → Exchanges → ℕ → BasicPublish → Channel × Option AmqpError
unfolding start_publish new_soft_error contains
basic_publish ch exchanges id m =
    if contains m.exchange exchanges
    then (start_publish ch id m, none)
    else (ch, some (new_soft_error 404 60 40))

-- The header is read from the payload of its frame.
unfoldable pub handle_content_header : Channel → Bool → GoString → Channel × Option AmqpError
unfolding new_soft_error new_hard_error
handle_content_header ch strict payload = elim ch.current_message [
  | none ↦ (ch, some (new_soft_error 500 0 0))
  | some msg ↦ elim msg.header [
    | some h ↦ (ch, some (new_soft_error 500 0 0))
    | none ↦ elim (read_header strict payload) [
      | ok (h, rest) ↦ (record ch { current_message = some (record msg { header = some h }) }, none)
      | failed ↦ (ch, some (new_hard_error 500 0 0))
      | out_of_fuel ↦ (ch, some (new_hard_error 500 0 0))
    ]
  ]
]

-- The sum of the lengths, in uint64.
unfoldable pub payload_size : List WireFrame → ℕ
payload_size [] = 0
payload_size (f ∷ fs) = (length f.payload + payload_size fs) % 2 ^ 64

unfoldable pub tx_messages_for : Message → List GoString → List TxMessage
tx_messages_for msg [] = []
tx_messages_for msg (q ∷ qs) = record { msg = msg; queue_name = q } ∷ tx_messages_for msg qs

-- What follows a call of `publish`: a message that is returned is sent, which encodes its header.
unfoldable pub send_returned : Broker → Message → Option Returned → Outcome Broker
send_returned b msg none = done b
send_returned b msg (some r) = elim msg.header [
  | none ↦ panic
  | some h ↦ do bs ← write_header h; done b
]

-- The part of handleContentBody that runs once the message is whole. An exchange that is gone is a
-- nil pointer.
unfoldable pub complete : Broker → Exchanges → Message → Outcome (Broker × Option Returned)
unfolding send_returned set_current tx_messages_for names
complete b exchanges msg = elim (find msg.method.exchange exchanges) [
  | none ↦ panic
  | some ex ↦
      if b.parties.channel.tx_mode
      then (do
        queues ← queues_for_publish ex msg.method
        let ch = b.parties.channel
        done (
          set_current none (record b {
            parties = record b.parties {
              channel = record ch {
                tx_messages = ch.tx_messages ++ tx_messages_for msg (names queues);
              };
            };
          }),
          none,
        ))
      else (do
        (b', returned) ← publish b ex msg
        b'' ← send_returned b' msg returned
        done (set_current none b'', returned))
]

-- The results are the broker, what is returned to the client, and the error.
abbrev pub Handled : Type 0
Handled = Outcome (Broker × Option Returned × Option AmqpError)

-- A frame of a message that has its header.
unfoldable pub take_body : Broker → Exchanges → WireFrame → Message → ContentHeaderFrame → Handled
unfolding complete payload_size set_current
take_body b exchanges frame msg h =
    let msg' = record msg { payload = msg.payload ++ frame ∷ [] } in
    if ltb (payload_size msg'.payload) h.content_body_size
    then done (set_current (some msg') b, none, none)
    else (do
      (b', returned) ← complete (set_current (some msg') b) exchanges msg'
      done (b', returned, none))

unfoldable pub refuse_body : Broker → Handled
unfolding new_soft_error
refuse_body b = done (b, none, some (new_soft_error 500 0 0))

unfoldable pub with_header :
    Broker → Exchanges → WireFrame → Message → Option ContentHeaderFrame → Handled
unfolding take_body refuse_body
with_header b exchanges frame msg none = refuse_body b
with_header b exchanges frame msg (some h) = take_body b exchanges frame msg h

unfoldable pub handle_content_body : Broker → Exchanges → WireFrame → Handled
unfolding with_header refuse_body
handle_content_body b exchanges frame = elim b.parties.channel.current_message [
  | none ↦ refuse_body b
  | some msg ↦ with_header b exchanges frame msg msg.header
]
