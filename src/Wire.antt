-- ===== src/Wire.antt =====
-- amqp/amqpreader.go and amqp/amqpwriter.go: integers, strings and frames as bytes. A reader is the
-- list of the bytes that are left; `none` is the error of a read that finds too few.
pub mod Integers
pub mod Strings
pub mod Frames
pub mod FieldReader
pub mod FieldWriter
pub mod Fields
pub mod Masks
pub mod HeaderReader
pub mod HeaderWriter
pub mod PropCodecs
pub mod HeaderTrip
pub mod HeaderEnding
use dispatchd.Amqp.Types.{WireFrame}
use dispatchd.Common.{
  GoString, List, Option, Outcome, [], done, if◌then◌else◌, length, ltb, none, panic, some, suc,
  take, zero, ℕ, ◌%◌, ◌*◌, ◌++◌, ◌+◌, ◌/◌, ◌^◌, ◌∷◌,
}

-- What follows a read that may fail.
infixl 5 ◌>>=◌
abbrev ◌>>=◌ : {A B : Type 0} → Option A → (A → Option B) → Option B
none >>= f = none
some a >>= f = f a

-- binary.Write of an unsigned integer of `n` bytes, big-endian, before the bytes `t`.
unfoldable pub write_be : ℕ → ℕ → List ℕ → List ℕ
write_be zero i t = t
write_be (suc n) i t = write_be n (i / 256) (i % 256 ∷ t)

-- binary.Read of an unsigned integer of `n` bytes, whose bytes so far make `acc`.
unfoldable pub read_be : ℕ → ℕ → List ℕ → Option (ℕ × List ℕ)
read_be zero acc bs = some (acc, bs)
read_be (suc n) acc [] = none
read_be (suc n) acc (b ∷ bs) = read_be n (acc * 256 + b) bs

unfoldable pub write_octet : ℕ → List ℕ
unfolding write_be
write_octet b = write_be 1 b []

unfoldable pub write_short : ℕ → List ℕ
unfolding write_be
write_short i = write_be 2 i []

unfoldable pub write_long : ℕ → List ℕ
unfolding write_be
write_long i = write_be 4 i []

unfoldable pub write_longlong : ℕ → List ℕ
unfolding write_be
write_longlong i = write_be 8 i []

unfoldable pub read_octet : List ℕ → Option (ℕ × List ℕ)
unfolding read_be
read_octet bs = read_be 1 0 bs

unfoldable pub read_short : List ℕ → Option (ℕ × List ℕ)
unfolding read_be
read_short bs = read_be 2 0 bs

unfoldable pub read_long : List ℕ → Option (ℕ × List ℕ)
unfolding read_be
read_long bs = read_be 4 0 bs

unfoldable pub read_longlong : List ℕ → Option (ℕ × List ℕ)
unfolding read_be
read_longlong bs = read_be 8 0 bs

-- binary.Read into a slice of `n` bytes.
unfoldable pub read_slice : ℕ → List ℕ → Option (List ℕ × List ℕ)
read_slice zero bs = some ([], bs)
read_slice (suc n) [] = none
read_slice (suc n) (b ∷ bs) = do (slice, rest) ← read_slice n bs; some (b ∷ slice, rest)

-- `none` is the error of a string that is too long.
unfoldable pub write_shortstr : GoString → Option (List ℕ)
unfolding write_octet
write_shortstr s = if ltb 255 (length s) then none else some (write_octet (length s % 256) ++ s)

unfoldable pub read_shortstr : List ℕ → Option (GoString × List ℕ)
unfolding read_octet read_slice
read_shortstr bs = do (n, rest) ← read_octet bs; read_slice n rest

unfoldable pub write_longstr : List ℕ → List ℕ
unfolding write_long
write_longstr s = write_long (length s % 2 ^ 32) ++ s

unfoldable pub read_longstr : List ℕ → Option (List ℕ × List ℕ)
unfolding read_long read_slice
read_longstr bs = do (n, rest) ← read_long bs; read_slice n rest

abbrev pub frame_end : ℕ
frame_end = 0xCE

-- A frame up to its end byte.
unfoldable pub write_frame_body : WireFrame → List ℕ
unfolding write_octet write_short write_longstr
write_frame_body f = write_octet f.frame_type ++ (write_short f.channel ++ write_longstr f.payload)

unfoldable pub write_frame : WireFrame → List ℕ
unfolding write_frame_body
write_frame f = write_frame_body f ++ frame_end ∷ []

-- The type, the channel and the length, from the seven bytes that were read first.
unfoldable pub read_head : List ℕ → Option (ℕ × ℕ × ℕ)
unfolding read_octet read_short read_long
read_head bs = do
  (frame_type, bs1) ← read_octet bs
  (channel, bs2) ← read_short bs1
  (size, bs3) ← read_long bs2
  some (frame_type, channel, size)

-- The payload and the end byte are read together, in a slice of length+1 bytes, in uint32; the
-- payload is its first length bytes, which panics if the slice is shorter.
unfoldable pub read_payload : ℕ × ℕ × ℕ → List ℕ → Outcome (Option (WireFrame × List ℕ))
unfolding read_slice
read_payload (frame_type, channel, size) bs = elim (read_slice ((size + 1) % 2 ^ 32) bs) [
  | none ↦ done none
  | some (slice, rest) ↦
      if ltb (length slice) size
      then panic
      else done (
          some (
            record { frame_type = frame_type; channel = channel; payload = take size slice },
            rest,
          ))
]

unfoldable pub read_frame : List ℕ → Outcome (Option (WireFrame × List ℕ))
unfolding read_slice read_head read_payload
read_frame bs = elim (read_slice 7 bs) [
  | none ↦ done none
  | some (head, rest) ↦ elim (read_head head) [ none ↦ done none | some h ↦ read_payload h rest ]
]
