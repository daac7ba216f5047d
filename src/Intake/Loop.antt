-- ===== src/Intake/Loop.antt =====
-- server/channel.go, the loop of start with routeMethod and sendError, and server/channelMethods.go:
-- what the frames of one channel do, by the state of the channel. What the generated ReadMethod makes
-- of a payload is the argument `read_method`; a method of another class comes with what its handler
-- does.
use dispatchd.Amqp.Types.{AmqpError, WireFrame, new_hard_error}
use dispatchd.Channel.{Channel, State, init, open_, closing, set_state_open}
use dispatchd.Broker.{Broker}
use dispatchd.Broker.Publish.{Returned}
use dispatchd.Broker.Recover.{change_flow, shutdown, is_closed}
use dispatchd.Intake.{Exchanges, handle_content_header, handle_content_body}
use dispatchd.Common.{
  Bool, GoString, List, Option, Outcome, [], done, false, if◌then◌else◌, none, not, some, true, ℕ,
  ◌&&◌, ◌++◌, ◌==◌, ◌>>=◌, ◌||◌, ◌∷◌, nat_eq, str_eq, pair_eq,
}

-- `active` is the field of ChannelFlow.
pub record Method : Type 0 where
  pub class_id : ℕ
  pub method_id : ℕ
  pub active : Bool
  pub run : Broker → Outcome (Broker × Option AmqpError)

pub data Outgoing : Type 0 where
  open_ok close_ok : Outgoing
  flow_ok : Bool → Outgoing
  channel_close connection_close : AmqpError → Outgoing
  message_returned : Returned → Outgoing

-- `conn_closing` is connectStatus.closing of the connection.
pub record Line : Type 0 where
  pub broker : Broker
  pub outgoing : List Outgoing
  pub conn_closing : Bool

abbrev pub state_of : Line → State
state_of l = l.broker.parties.channel.state

abbrev pub Routed : Type 0
Routed = Outcome (Line × Option AmqpError)

abbrev pub set_channel : Channel → Line → Line
set_channel ch l = record l {
  broker = record l.broker { parties = record l.broker.parties { channel = ch } };
}

unfoldable pub send : Outgoing → Line → Line
send m l = record l { outgoing = l.outgoing ++ m ∷ [] }

unfoldable pub is_open : State → Bool
is_open open_ = true
is_open _ = false

unfoldable pub is_closing : State → Bool
is_closing closing = true
is_closing _ = false

unfoldable pub is_init : State → Bool
is_init init = true
is_init _ = false

unfoldable pub hard : Line → ℕ → ℕ → ℕ → Routed
unfolding new_hard_error
hard l code class_id method_id = done (l, some (new_hard_error code class_id method_id))

unfoldable pub channel_open : Line → Routed
unfolding is_open hard set_state_open send
channel_open l =
    if is_open (state_of l)
    then hard l 504 20 10
    else done (set_channel (set_state_open l.broker.parties.channel) (send open_ok l), none)

unfoldable pub channel_flow : Line → Bool → Routed
unfolding change_flow send
channel_flow l active =
    let h = change_flow l.broker.parties active in
    done
      (send (flow_ok h.channel.flow) (record l { broker = record l.broker { parties = h } }), none)

unfoldable pub channel_close_ok : Line → Routed
channel_close_ok l = do b ← shutdown l.broker; done (record l { broker = b }, none)

unfoldable pub channel_close_method : Line → Routed
unfolding channel_close_ok send
channel_close_method l = channel_close_ok (send close_ok l)

unfoldable pub channel_route : Line → Method → Routed
unfolding channel_open channel_flow channel_close_method channel_close_ok hard
channel_route l m =
    if m.method_id == 10
    then channel_open l
    else if m.method_id == 20
    then channel_flow l m.active
    else if m.method_id == 21
    then hard l 540 20 21
    else if m.method_id == 40
    then channel_close_method l
    else if m.method_id == 41
    then channel_close_ok l
    else hard l 540 20 m.method_id

-- The methods that close a channel or the connection.
unfoldable pub closes : Method → Bool
closes m =
    (m.class_id == 20 && (m.method_id == 40 || m.method_id == 41))
    || (m.class_id == 10 && (m.method_id == 50 || m.method_id == 51))

unfoldable pub run_handler : Line → Method → Routed
run_handler l m = do (b, err) ← m.run l.broker; done (record l { broker = b }, err)

unfoldable pub is_routed : ℕ → Bool
is_routed c = c == 10 || c == 40 || c == 50 || c == 60 || c == 90

unfoldable pub route : Line → Method → Routed
unfolding channel_route run_handler hard is_routed
route l m =
    if m.class_id == 20
    then channel_route l m
    else if is_routed m.class_id
    then run_handler l m
    else hard l 540 m.class_id m.method_id

unfoldable pub route_method : Line → Option Method → Routed
unfolding route closes hard is_closing is_init
route_method l none = hard l 500 0 0
route_method l (some m) =
    if is_closing (state_of l) && not (closes m)
    then done (l, none)
    else if is_init (state_of l) && (not (m.class_id == 20) || not (m.method_id == 10))
    then hard l 503 m.class_id m.method_id
    else route l m

unfoldable pub send_error : Line → Option AmqpError → Line
unfolding send
send_error l none = l
send_error l (some e) =
    if e.soft
    then send (channel_close e)
        (set_channel (record l.broker.parties.channel { state = closing }) l)
    else record (send (connection_close e) l) { conn_closing = true }

unfoldable pub header_frame : Line → Bool → WireFrame → Routed
unfolding is_closing
header_frame l strict frame =
    if is_closing (state_of l)
    then done (l, none)
    else (let (ch, err) = handle_content_header l.broker.parties.channel strict frame.payload in
        done (set_channel ch l, err))

unfoldable pub send_back : Option Returned → Line → Line
unfolding send
send_back none l = l
send_back (some r) l = send (message_returned r) l

unfoldable pub body_frame : Line → Exchanges → WireFrame → Routed
unfolding is_closing send_back
body_frame l exchanges frame = if is_closing (state_of l) then done (l, none) else (do
  (b, returned, err) ← handle_content_body l.broker exchanges frame
  done (send_back returned (record l { broker = b }), err))

module _ (read_method : GoString → Option Method) (strict : Bool) (exchanges : Exchanges) where
  unfoldable pub dispatch : Line → WireFrame → Routed
  unfolding route_method header_frame body_frame hard
  dispatch l frame =
      if frame.frame_type == 1
      then route_method l (read_method frame.payload)
      else if frame.frame_type == 2
      then header_frame l strict frame
      else if frame.frame_type == 3
      then body_frame l exchanges frame
      else hard l 500 0 0

  -- One round of the loop, which a closed channel has left.
  unfoldable pub on_frame : Line → WireFrame → Outcome Line
  unfolding dispatch send_error is_closed
  on_frame l frame =
      if is_closed (state_of l)
      then done l
      else (do (l', err) ← dispatch l frame; done (send_error l' err))
