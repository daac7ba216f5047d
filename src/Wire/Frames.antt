-- ===== src/Wire/Frames.antt =====
-- ReadFrame on what WriteFrame wrote, and on a length that wraps.
use mathlib.Core.List.{append_assoc}
use dispatchd.Amqp.Types.{WireFrame}
use dispatchd.Wire.{
  write_be, read_be, read_slice, write_octet, read_octet, write_short, read_short, write_long,
  read_long, write_longstr, write_frame_body, read_head, read_payload, read_frame,
}
use dispatchd.Wire.Integers.{read_octet-write_octet, read_short-write_short, read_long-write_long}
use dispatchd.Wire.Strings.{read_slice-append}
use dispatchd.Common.{
  List, [], ap, arith, done, false, length, length-append, ltb, panic, refl, some, take, ℕ, ◌%◌,
  ◌++◌, ◌+◌, ◌<◌, ◌^◌, ◌∙◌, ◌∷◌, ◌≡◌,
}

take-append : (xs ys : List ℕ) → take (length xs) (xs ++ ys) ≡ xs
take-append [] ys = refl
take-append (x ∷ xs) ys = ap (◌∷◌ x) (take-append xs ys)

-- What a frame of the protocol can hold.
pub record IsFrame (f : WireFrame) : Type 0 where
  pub frame_type : f.frame_type < 2 ^ 8
  pub channel : f.channel < 2 ^ 16
  pub size : length f.payload + 1 < 2 ^ 32

head_after :
    (bs bs1 bs2 bs3 : List ℕ) (t c n : ℕ)
    → read_octet bs ≡ some (t, bs1)
    → read_short bs1 ≡ some (c, bs2)
    → read_long bs2 ≡ some (n, bs3)
    → read_head bs ≡ some (t, c, n)
unfolding read_head
head_after bs bs1 bs2 bs3 t c n e1 e2 e3 = rw (e1, e2, e3) refl

frame_after :
    (bs head rest : List ℕ) (h : ℕ × ℕ × ℕ)
    → read_slice 7 bs ≡ some (head, rest)
    → read_head head ≡ some h
    → read_frame bs ≡ read_payload h rest
unfolding read_frame
frame_after bs head rest h e1 e2 = rw (read_frame, e1, e2) refl

payload_after :
    (t c n : ℕ) (s : List ℕ) (e : ℕ) (r : List ℕ)
    → n ≡ length s
    → length s + 1 < 2 ^ 32
    → read_payload (t, c, n) (s ++ e ∷ r)
      ≡ done (some (record { frame_type = t; channel = c; payload = s }, r))
unfolding read_payload
payload_after t c n s e r same small =
    let whole : read_slice ((n + 1) % 2 ^ 32) (s ++ e ∷ r) ≡ some (s ++ e ∷ [], r) =
      let count : (n + 1) % 2 ^ 32 ≡ length (s ++ e ∷ []) =
        omega (arith, length-append s (e ∷ []), same, small) in
      rw (count, ← append_assoc s (e ∷ []) r) (read_slice-append (s ++ e ∷ []) r) in
    let enough : ltb (length (s ++ e ∷ [])) n ≡ false =
      ground (arith, length-append s (e ∷ []), same) in
    rw (read_payload, whole, enough, same, take-append s (e ∷ [])) refl

module _ (f : WireFrame) (ok : IsFrame f) where
  abbrev head_bytes : List ℕ
  head_bytes =
      write_octet f.frame_type
      ++ (write_short f.channel ++ (write_long (length f.payload % 2 ^ 32) ++ []))

  length-head_bytes : length head_bytes ≡ 7
  unfolding write_octet write_short write_long write_be
  length-head_bytes = refl

  split_body : (t : List ℕ) → write_frame_body f ++ t ≡ head_bytes ++ (f.payload ++ t)
  unfolding write_frame_body write_longstr write_octet write_short write_long write_be
  split_body t = refl

  -- A frame that WriteFrame wrote is read back, with the bytes that follow it left, and so it is with
  -- any other byte in the place of the end byte.
  pub read_frame-write_frame_body :
      (e : ℕ) (r : List ℕ) → read_frame (write_frame_body f ++ e ∷ r) ≡ done (some (f, r))
  read_frame-write_frame_body e r =
      ap read_frame (split_body (e ∷ r))
      ∙ frame_after (head_bytes ++ (f.payload ++ e ∷ r)) head_bytes (f.payload ++ e ∷ r)
          (f.frame_type, f.channel, length f.payload % 2 ^ 32)
          (rw (← length-head_bytes) (read_slice-append head_bytes (f.payload ++ e ∷ r)))
          (head_after head_bytes _ _ [] f.frame_type f.channel (length f.payload % 2 ^ 32)
            (read_octet-write_octet f.frame_type _ ok.frame_type)
            (read_short-write_short f.channel _ ok.channel)
            (read_long-write_long (length f.payload % 2 ^ 32) [] (omega arith)))
      ∙ payload_after f.frame_type f.channel (length f.payload % 2 ^ 32) f.payload e r
          (omega (arith, ok.size)) ok.size

-- A frame that says that its payload has 2^32 - 1 bytes makes ReadFrame panic, whatever follows.
pub read_frame_panics :
    (t c d : ℕ) (r : List ℕ) → read_frame (t ∷ c ∷ d ∷ 255 ∷ 255 ∷ 255 ∷ 255 ∷ r) ≡ panic
unfolding read_frame read_slice read_head read_payload read_octet read_short read_long read_be
read_frame_panics t c d r = refl
