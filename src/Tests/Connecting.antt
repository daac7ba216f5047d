-- ===== src/Tests/Connecting.antt =====
-- The frames of a connection on a concrete input.
use dispatchd.Amqp.Types.{WireFrame}
use dispatchd.Connection.{new_connection, handle_incoming}
use dispatchd.Connection.Admitting.{
  admitted, addressed, has_stray, proper, handshake, arrived, has_failed, handle_incoming-admitted,
}
use dispatchd.Common.{List, Option, [], bytes, none, refl, some, true, ℕ, ◌∷◌, ◌≡◌}

abbrev frame_of : ℕ → ℕ → WireFrame
frame_of t ch = record { frame_type = t; channel = ch; payload = bytes "m" }

-- A heartbeat, a method for channel 0, one for channel 1, another for channel 0 and a failed read.
abbrev some_frames : List (Option WireFrame)
some_frames =
    some (frame_of 8 0)
    ∷ some (frame_of 1 0)
    ∷ some (frame_of 1 1)
    ∷ some (frame_of 1 0)
    ∷ none
    ∷ []

handle_incoming-admitted_example :
    ((handle_incoming (new_connection 4) some_frames).incoming ≡ (0, frame_of 1 0) ∷ [])
    × ((handle_incoming (new_connection 4) some_frames).hung_up ≡ true)
unfolding new_connection admitted addressed has_stray proper handshake arrived has_failed
handle_incoming-admitted_example = handle_incoming-admitted (new_connection 4) some_frames refl refl
