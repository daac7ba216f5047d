-- ===== src/Connection.antt =====
-- server/connection.go, handleIncoming, handleFrame and hardClose, and the handlers of
-- server/connectionMethods.go that change the state of a connection. What heartbeats, timers and the
-- authentication do is left out.
pub mod Admitting
use dispatchd.Amqp.Types.{WireFrame}
use dispatchd.Channel.{Channel, new_channel, set_state_open}
use dispatchd.Common.{
  Bool, List, Map, Option, [], contains, false, if◌then◌else◌, ltb, none, not, put, some, true, ℕ,
  ◌&&◌, ◌++◌, ◌==◌, ◌||◌, ◌∷◌, nat_eq, str_eq, pair_eq,
}

-- `incoming` are the frames that were passed to the channels, in order; `opened` (open), `closing` and `closed`
-- are fields of connectStatus. Nothing sets `closed`. `hung_up` says that the socket is closed.
pub record Connection : Type 0 where
  pub id : ℕ
  pub channels : Map ℕ Channel
  pub incoming : List (ℕ × WireFrame)
  pub opened : Bool
  pub closing : Bool
  pub closed : Bool
  pub hung_up : Bool
  pub max_channels : ℕ
  pub max_frame_size : ℕ

-- What start does to a channel: channel 0 is open at once.
unfoldable pub started : Channel → Channel
unfolding set_state_open
started ch = if ch.id == 0 then set_state_open ch else ch

-- NewAMQPConnection, with the channel 0 that openConnection makes.
unfoldable pub new_connection : ℕ → Connection
unfolding new_channel started
new_connection id = record {
  id = id;
  channels = (0, started (new_channel 0 id)) ∷ [];
  incoming = [];
  opened = false;
  closing = false;
  closed = false;
  hung_up = false;
  max_channels = 4096;
  max_frame_size = 65536;
}

unfoldable pub hard_close : Connection → Connection
hard_close c = record c { hung_up = true }

-- The channel of a frame, which is made if it is not there, takes the frame.
unfoldable pub pass_on : Connection → WireFrame → Connection
unfolding contains new_channel started
pass_on c f = record c {
  channels =
      if contains f.channel c.channels
      then c.channels
      else put f.channel (started (new_channel f.channel c.id)) c.channels;
  incoming = c.incoming ++ (f.channel, f) ∷ [];
}

unfoldable pub handle_frame : Connection → WireFrame → Connection
unfolding hard_close pass_on
handle_frame c f =
    if f.frame_type == 8
    then c
    else if not c.opened && not (f.channel == 0)
    then hard_close c
    else pass_on c f

-- The loop over what ReadFrame gives: none is its error, which closes the socket and ends the loop.
-- Reading from a socket that is closed is such an error too.
unfoldable pub handle_incoming : Connection → List (Option WireFrame) → Connection
unfolding handle_frame hard_close
handle_incoming c [] = c
handle_incoming c (none ∷ rs) = if c.closed || c.hung_up then c else hard_close c
handle_incoming c (some f ∷ rs) =
    let rest = handle_incoming (handle_frame c f) rs in if c.closed || c.hung_up then c else rest

unfoldable pub connection_open : Connection → Connection
connection_open c = record c { opened = true }

unfoldable pub connection_tune_ok : Connection → ℕ → ℕ → Connection
unfolding hard_close
connection_tune_ok c channel_max frame_max =
    if ltb c.max_channels channel_max || ltb c.max_frame_size frame_max
    then hard_close c
    else record c { max_channels = channel_max; max_frame_size = frame_max }

-- connectionClose, which answers first, and connectionCloseOk.
unfoldable pub connection_close : Connection → Connection
unfolding hard_close
connection_close c = hard_close c
