-- ===== src/Intake/States.antt =====
-- What a channel does with frames before it is open, while it closes and once it is closed.
use dispatchd.Amqp.Types.{WireFrame, new_hard_error, new_soft_error}
use dispatchd.Channel.{init, closing, closed}
use dispatchd.Broker.Recover.{is_closed}
use dispatchd.Intake.{Exchanges, handle_content_header, handle_content_body}
use dispatchd.Intake.Loop.{
  Method, Line, state_of, closes, route_method, dispatch, on_frame, connection_close, channel_close,
  send, set_channel,
}
use dispatchd.Common.{
  Bool, GoString, Option, [], arith, done, false, inl, inr, none, refl, some, true, ◌++◌, ◌∙◌, ◌∷◌,
  ◌≡◌, ◌≢◌, ◌⊎◌,
}

module _ (read_method : GoString → Option Method) (strict : Bool) (exchanges : Exchanges) (l : Line)
    (frame : WireFrame) where
  -- A method that does not close, a header, or a body.
  abbrev pub IsIgnorable : Type 0
  IsIgnorable =
      ((frame.frame_type ≡ 1)
        × (m : Method) × (read_method frame.payload ≡ some m)
        × (closes m ≡ false))
      ⊎ (frame.frame_type ≡ 2)
      ⊎ (frame.frame_type ≡ 3)

  method_ignored :
      (m : Method)
      → state_of l ≡ closing
      → closes m ≡ false
      → route_method l (some m) ≡ done (l, none)
  unfolding route_method
  method_ignored m c o = ground (arith, c, o)

  not_closed : state_of l ≡ closing → is_closed (state_of l) ≡ false
  unfolding is_closed
  not_closed c = rw c refl

  dispatch_ignored :
      state_of l ≡ closing
      → IsIgnorable
      → dispatch read_method strict exchanges l frame ≡ done (l, none)
  unfolding dispatch
  dispatch_ignored c (inl (t, m, e, o)) = ground (arith, t, e, method_ignored m c o)
  dispatch_ignored c (inr (inl t)) = ground (arith, t, c)
  dispatch_ignored c (inr (inr t)) = ground (arith, t, c)

  -- While a channel closes, it ignores every header, every body and every method but those that close
  -- the channel or the connection, and once it is closed it ignores every frame: nothing changes and
  -- nothing is sent.
  pub closing_ignores :
      ((state_of l ≡ closing) × IsIgnorable) ⊎ (state_of l ≡ closed)
      → on_frame read_method strict exchanges l frame ≡ done l
  unfolding on_frame
  closing_ignores (inl (c, i)) = ground (arith, not_closed c, dispatch_ignored c i)
  closing_ignores (inr c) = ground (arith, c)

  not_closed_init : state_of l ≡ init → is_closed (state_of l) ≡ false
  unfolding is_closed
  not_closed_init i = rw i refl

  method_refused :
      (m : Method)
      → state_of l ≡ init
      → (m.class_id ≢ 20) ⊎ (m.method_id ≢ 10)
      → route_method l (some m) ≡ done (l, some (new_hard_error 503 m.class_id m.method_id))
  unfolding route_method
  method_refused m i (inl n) = ground (arith, i, n)
  method_refused m i (inr n) = ground (arith, i, n)

  content_refused :
      state_of l ≡ init
      → (frame.frame_type ≡ 2) ⊎ (frame.frame_type ≡ 3)
      → l.broker.parties.channel.current_message ≡ none
      → dispatch read_method strict exchanges l frame ≡ done (l, some (new_soft_error 500 0 0))
  unfolding dispatch handle_content_header handle_content_body
  content_refused i (inl t) c = ground (arith, i, t, c)
  content_refused i (inr t) c = ground (arith, i, t, c)

  dispatched :
      (m : Method)
      → frame.frame_type ≡ 1
      → read_method frame.payload ≡ some m
      → dispatch read_method strict exchanges l frame ≡ route_method l (some m)
  unfolding dispatch
  dispatched m t e = ground (arith, t, e)

  -- Before a channel is open, a method other than channel.open is refused with the error 503, which
  -- closes the connection, and its handler is not run: nothing else changes.
  pub init_refuses :
      (m : Method)
      → state_of l ≡ init
      → frame.frame_type ≡ 1
      → read_method frame.payload ≡ some m
      → (m.class_id ≢ 20) ⊎ (m.method_id ≢ 10)
      → on_frame read_method strict exchanges l frame
        ≡ done (record l {
          conn_closing = true;
          outgoing =
              l.outgoing ++ connection_close (new_hard_error 503 m.class_id m.method_id) ∷ [];
        })
  unfolding on_frame new_hard_error
  init_refuses m i t e n =
      ground (arith, not_closed_init i, dispatched m t e ∙ method_refused m i n)

  -- Before a channel is open, a frame of a message is refused with the error 500, which closes the
  -- channel, if no message has been begun. Nothing else changes.
  pub init_refuses_content :
      state_of l ≡ init
      → (frame.frame_type ≡ 2) ⊎ (frame.frame_type ≡ 3)
      → l.broker.parties.channel.current_message ≡ none
      → on_frame read_method strict exchanges l frame
        ≡ done (
            send
              (channel_close (new_soft_error 500 0 0))
              (set_channel (record l.broker.parties.channel { state = closing }) l))
  unfolding on_frame new_soft_error
  init_refuses_content i t c = ground (arith, not_closed_init i, content_refused i t c)
