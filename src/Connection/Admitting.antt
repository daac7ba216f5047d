-- ===== src/Connection/Admitting.antt =====
-- Which frames reach the channels of a connection.
use mathlib.Core.List.{append-nil, append_assoc}
use dispatchd.Amqp.Types.{WireFrame}
use dispatchd.Connection.{Connection, handle_frame, handle_incoming, hard_close, pass_on}
use dispatchd.Common.{
  Bool, Bool-cases, List, Option, [], arith, false, if◌then◌else◌, inl, inr, none, not, refl, some,
  true, ℕ, ◌&&◌, ◌++◌, ◌==◌, ◌||◌, ◌∷◌, ◌≡◌, nat_eq, str_eq, pair_eq,
}

-- The frames that are not heartbeats.
unfoldable pub proper : List WireFrame → List WireFrame
proper [] = []
proper (f ∷ fs) = if f.frame_type == 8 then proper fs else f ∷ proper fs

-- Those before the first one of another channel than 0, and whether there is such a one.
unfoldable pub handshake : List WireFrame → List WireFrame
handshake [] = []
handshake (f ∷ fs) = if f.channel == 0 then f ∷ handshake fs else []

unfoldable pub has_stray : List WireFrame → Bool
has_stray [] = false
has_stray (f ∷ fs) = not (f.channel == 0) || has_stray fs

unfoldable pub addressed : List WireFrame → List (ℕ × WireFrame)
addressed [] = []
addressed (f ∷ fs) = (f.channel, f) ∷ addressed fs

unfoldable pub admitted : Bool → List WireFrame → List WireFrame
unfolding proper handshake
admitted opened fs = if opened then proper fs else handshake (proper fs)

-- The frames that come in before the first failed read, and whether there is such a one.
unfoldable pub arrived : List (Option WireFrame) → List WireFrame
arrived [] = []
arrived (none ∷ rs) = []
arrived (some f ∷ rs) = f ∷ arrived rs

unfoldable pub has_failed : List (Option WireFrame) → Bool
has_failed [] = false
has_failed (none ∷ rs) = true
has_failed (some f ∷ rs) = has_failed rs

stuck :
    (c : Connection) (rs : List (Option WireFrame)) → c.hung_up ≡ true → handle_incoming c rs ≡ c
unfolding handle_incoming
stuck c [] h = refl
stuck c (none ∷ rs) h = ground (arith, h)
stuck c (some f ∷ rs) h = ground (arith, h)

-- On a connection whose socket is open: while the connection is not, the frames that come in before
-- the first failed read reach channel 0, in their order, up to the first frame for another channel, and
-- exactly such a frame or a failed read closes the socket. Once the connection is open, every frame
-- before the first failed read reaches its channel, in order, and exactly a failed read closes the
-- socket. Heartbeats reach no channel.
pub handle_incoming-admitted :
    (c : Connection) (rs : List (Option WireFrame))
    → c.closed ≡ false
    → c.hung_up ≡ false
    → ((handle_incoming c rs).incoming ≡ c.incoming ++ addressed (admitted c.opened (arrived rs)))
      × ((handle_incoming c rs).hung_up
          ≡ ((not c.opened && has_stray (proper (arrived rs))) || has_failed rs))
unfolding handle_incoming handle_frame admitted addressed has_stray hard_close pass_on arrived
    has_failed
handle_incoming-admitted c [] nc nh = (ground (arith, append-nil c.incoming), ground (arith, nh))
handle_incoming-admitted c (none ∷ rs) nc nh =
    (ground (arith, nc, nh, append-nil c.incoming), ground (arith, nc, nh))
handle_incoming-admitted c (some f ∷ rs) nc nh = elim (Bool-cases (f.frame_type == 8)) [
  | inl beat ↦
      let (i, u) = handle_incoming-admitted c rs nc nh in
      (ground (arith, nc, nh, beat, i), ground (arith, nc, nh, beat, u))
  | inr other ↦ elim (Bool-cases (not c.opened && not (f.channel == 0))) [
    | inl stray ↦ (
      ground (arith, nc, nh, other, stray, stuck (hard_close c) rs refl, append-nil c.incoming),
      ground (arith, nc, nh, other, stray, stuck (hard_close c) rs refl),
    )
    | inr fine ↦
        let (i, u) = handle_incoming-admitted (pass_on c f) rs nc nh in
        (
          ground (
            arith,
            nc,
            nh,
            other,
            fine,
            i,
            append_assoc c.incoming ((f.channel, f) ∷ [])
                (addressed (admitted c.opened (arrived rs))),
          ),
          ground (arith, nc, nh, other, fine, u),
        )
  ]
]
