-- ===== src/Wire/Masks/Bits.antt =====
-- The arithmetic of the fourteen masks.
use dispatchd.Wire.Masks.{
  content_type_mask, content_encoding_mask, headers_mask, delivery_mode_mask, priority_mask,
  correlation_id_mask, reply_to_mask, expiration_mask, message_id_mask, timestamp_mask, type_mask,
  user_id_mask, app_id_mask, reserved_mask,
}
use dispatchd.Common.{arith, ℕ, ◌%◌, ◌*◌, ◌+◌, ◌/◌, ◌≡◌, ◌≤◌}

-- The flags that fourteen bits make.
module _ (b1 b2 b3 b4 b5 b6 b7 b8 b9 b10 b11 b12 b13 b14 : ℕ) where
  abbrev pub flags : ℕ
  flags =
      0
      + b1 * content_type_mask
      + b2 * content_encoding_mask
      + b3 * headers_mask
      + b4 * delivery_mode_mask
      + b5 * priority_mask
      + b6 * correlation_id_mask
      + b7 * reply_to_mask
      + b8 * expiration_mask
      + b9 * message_id_mask
      + b10 * timestamp_mask
      + b11 * type_mask
      + b12 * user_id_mask
      + b13 * app_id_mask
      + b14 * reserved_mask

  -- Each of the fourteen is 0 or 1.
  pub record AreBits : Type 0 where
    pub each :
        (b1 ≤ 1)
        × (b2 ≤ 1)
        × (b3 ≤ 1)
        × (b4 ≤ 1)
        × (b5 ≤ 1)
        × (b6 ≤ 1)
        × (b7 ≤ 1)
        × (b8 ≤ 1)
        × (b9 ≤ 1)
        × (b10 ≤ 1)
        × (b11 ≤ 1)
        × (b12 ≤ 1)
        × (b13 ≤ 1)
        × (b14 ≤ 1)

module _ {b1 b2 b3 b4 b5 b6 b7 b8 b9 b10 b11 b12 b13 b14 : ℕ}
    (h : AreBits b1 b2 b3 b4 b5 b6 b7 b8 b9 b10 b11 b12 b13 b14) where
  -- Each mask finds its own bit.
  pub bit1 : (flags b1 b2 b3 b4 b5 b6 b7 b8 b9 b10 b11 b12 b13 b14 / content_type_mask) % 2 ≡ b1
  bit1 = omega (arith, h.each)

  pub bit2 : (flags b1 b2 b3 b4 b5 b6 b7 b8 b9 b10 b11 b12 b13 b14 / content_encoding_mask) % 2 ≡ b2
  bit2 = omega (arith, h.each)

  pub bit3 : (flags b1 b2 b3 b4 b5 b6 b7 b8 b9 b10 b11 b12 b13 b14 / headers_mask) % 2 ≡ b3
  bit3 = omega (arith, h.each)

  pub bit4 : (flags b1 b2 b3 b4 b5 b6 b7 b8 b9 b10 b11 b12 b13 b14 / delivery_mode_mask) % 2 ≡ b4
  bit4 = omega (arith, h.each)

  pub bit5 : (flags b1 b2 b3 b4 b5 b6 b7 b8 b9 b10 b11 b12 b13 b14 / priority_mask) % 2 ≡ b5
  bit5 = omega (arith, h.each)

  pub bit6 : (flags b1 b2 b3 b4 b5 b6 b7 b8 b9 b10 b11 b12 b13 b14 / correlation_id_mask) % 2 ≡ b6
  bit6 = omega (arith, h.each)

  pub bit7 : (flags b1 b2 b3 b4 b5 b6 b7 b8 b9 b10 b11 b12 b13 b14 / reply_to_mask) % 2 ≡ b7
  bit7 = omega (arith, h.each)

  pub bit8 : (flags b1 b2 b3 b4 b5 b6 b7 b8 b9 b10 b11 b12 b13 b14 / expiration_mask) % 2 ≡ b8
  bit8 = omega (arith, h.each)

  pub bit9 : (flags b1 b2 b3 b4 b5 b6 b7 b8 b9 b10 b11 b12 b13 b14 / message_id_mask) % 2 ≡ b9
  bit9 = omega (arith, h.each)

  pub bit10 : (flags b1 b2 b3 b4 b5 b6 b7 b8 b9 b10 b11 b12 b13 b14 / timestamp_mask) % 2 ≡ b10
  bit10 = omega (arith, h.each)

  pub bit11 : (flags b1 b2 b3 b4 b5 b6 b7 b8 b9 b10 b11 b12 b13 b14 / type_mask) % 2 ≡ b11
  bit11 = omega (arith, h.each)

  pub bit12 : (flags b1 b2 b3 b4 b5 b6 b7 b8 b9 b10 b11 b12 b13 b14 / user_id_mask) % 2 ≡ b12
  bit12 = omega (arith, h.each)

  pub bit13 : (flags b1 b2 b3 b4 b5 b6 b7 b8 b9 b10 b11 b12 b13 b14 / app_id_mask) % 2 ≡ b13
  bit13 = omega (arith, h.each)

  pub bit14 : (flags b1 b2 b3 b4 b5 b6 b7 b8 b9 b10 b11 b12 b13 b14 / reserved_mask) % 2 ≡ b14
  bit14 = omega (arith, h.each)

  -- Each mask is free while the flags are put together.
  pub free1 : ((0) / content_type_mask) % 2 ≡ 0
  free1 = omega (arith, h.each)

  pub free2 : ((0 + b1 * content_type_mask) / content_encoding_mask) % 2 ≡ 0
  free2 = omega (arith, h.each)

  pub free3 : ((0 + b1 * content_type_mask + b2 * content_encoding_mask) / headers_mask) % 2 ≡ 0
  free3 = omega (arith, h.each)

  pub free4 :
      ((0 + b1 * content_type_mask + b2 * content_encoding_mask + b3 * headers_mask)
          / delivery_mode_mask)
        % 2
      ≡ 0
  free4 = omega (arith, h.each)

  pub free5 :
      ((0
            + b1 * content_type_mask
            + b2 * content_encoding_mask
            + b3 * headers_mask
            + b4 * delivery_mode_mask)
          / priority_mask)
        % 2
      ≡ 0
  free5 = omega (arith, h.each)

  pub free6 :
      ((0
            + b1 * content_type_mask
            + b2 * content_encoding_mask
            + b3 * headers_mask
            + b4 * delivery_mode_mask
            + b5 * priority_mask)
          / correlation_id_mask)
        % 2
      ≡ 0
  free6 = omega (arith, h.each)

  pub free7 :
      ((0
            + b1 * content_type_mask
            + b2 * content_encoding_mask
            + b3 * headers_mask
            + b4 * delivery_mode_mask
            + b5 * priority_mask
            + b6 * correlation_id_mask)
          / reply_to_mask)
        % 2
      ≡ 0
  free7 = omega (arith, h.each)

  pub free8 :
      ((0
            + b1 * content_type_mask
            + b2 * content_encoding_mask
            + b3 * headers_mask
            + b4 * delivery_mode_mask
            + b5 * priority_mask
            + b6 * correlation_id_mask
            + b7 * reply_to_mask)
          / expiration_mask)
        % 2
      ≡ 0
  free8 = omega (arith, h.each)

  pub free9 :
      ((0
            + b1 * content_type_mask
            + b2 * content_encoding_mask
            + b3 * headers_mask
            + b4 * delivery_mode_mask
            + b5 * priority_mask
            + b6 * correlation_id_mask
            + b7 * reply_to_mask
            + b8 * expiration_mask)
          / message_id_mask)
        % 2
      ≡ 0
  free9 = omega (arith, h.each)

  pub free10 :
      ((0
            + b1 * content_type_mask
            + b2 * content_encoding_mask
            + b3 * headers_mask
            + b4 * delivery_mode_mask
            + b5 * priority_mask
            + b6 * correlation_id_mask
            + b7 * reply_to_mask
            + b8 * expiration_mask
            + b9 * message_id_mask)
          / timestamp_mask)
        % 2
      ≡ 0
  free10 = omega (arith, h.each)

  pub free11 :
      ((0
            + b1 * content_type_mask
            + b2 * content_encoding_mask
            + b3 * headers_mask
            + b4 * delivery_mode_mask
            + b5 * priority_mask
            + b6 * correlation_id_mask
            + b7 * reply_to_mask
            + b8 * expiration_mask
            + b9 * message_id_mask
            + b10 * timestamp_mask)
          / type_mask)
        % 2
      ≡ 0
  free11 = omega (arith, h.each)

  pub free12 :
      ((0
            + b1 * content_type_mask
            + b2 * content_encoding_mask
            + b3 * headers_mask
            + b4 * delivery_mode_mask
            + b5 * priority_mask
            + b6 * correlation_id_mask
            + b7 * reply_to_mask
            + b8 * expiration_mask
            + b9 * message_id_mask
            + b10 * timestamp_mask
            + b11 * type_mask)
          / user_id_mask)
        % 2
      ≡ 0
  free12 = omega (arith, h.each)

  pub free13 :
      ((0
            + b1 * content_type_mask
            + b2 * content_encoding_mask
            + b3 * headers_mask
            + b4 * delivery_mode_mask
            + b5 * priority_mask
            + b6 * correlation_id_mask
            + b7 * reply_to_mask
            + b8 * expiration_mask
            + b9 * message_id_mask
            + b10 * timestamp_mask
            + b11 * type_mask
            + b12 * user_id_mask)
          / app_id_mask)
        % 2
      ≡ 0
  free13 = omega (arith, h.each)

  pub free14 :
      ((0
            + b1 * content_type_mask
            + b2 * content_encoding_mask
            + b3 * headers_mask
            + b4 * delivery_mode_mask
            + b5 * priority_mask
            + b6 * correlation_id_mask
            + b7 * reply_to_mask
            + b8 * expiration_mask
            + b9 * message_id_mask
            + b10 * timestamp_mask
            + b11 * type_mask
            + b12 * user_id_mask
            + b13 * app_id_mask)
          / reserved_mask)
        % 2
      ≡ 0
  free14 = omega (arith, h.each)
