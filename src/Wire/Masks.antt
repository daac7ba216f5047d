-- ===== src/Wire/Masks.antt =====
-- The masks of the properties, from amqp/protocol_protobuf_readwrite_generated.go, and what the code
-- does with them.
pub mod Bits
use dispatchd.Common.{Bool, if◌then◌else◌, ℕ, ◌%◌, ◌+◌, ◌/◌, ◌==◌, nat_eq, str_eq, pair_eq}

abbrev pub content_type_mask : ℕ
content_type_mask = 0x8000

abbrev pub content_encoding_mask : ℕ
content_encoding_mask = 0x4000

abbrev pub headers_mask : ℕ
headers_mask = 0x2000

abbrev pub delivery_mode_mask : ℕ
delivery_mode_mask = 0x1000

abbrev pub priority_mask : ℕ
priority_mask = 0x0800

abbrev pub correlation_id_mask : ℕ
correlation_id_mask = 0x0400

abbrev pub reply_to_mask : ℕ
reply_to_mask = 0x0200

abbrev pub expiration_mask : ℕ
expiration_mask = 0x0100

abbrev pub message_id_mask : ℕ
message_id_mask = 0x0080

abbrev pub timestamp_mask : ℕ
timestamp_mask = 0x0040

abbrev pub type_mask : ℕ
type_mask = 0x0020

abbrev pub user_id_mask : ℕ
user_id_mask = 0x0010

abbrev pub app_id_mask : ℕ
app_id_mask = 0x0008

abbrev pub reserved_mask : ℕ
reserved_mask = 0x0004

-- mask & flags != 0 and flags | mask, for a mask of one bit.
abbrev pub has_mask : ℕ → ℕ → Bool
has_mask flags mask = (flags / mask) % 2 == 1

abbrev pub or_mask : ℕ → ℕ → ℕ
or_mask flags mask = if has_mask flags mask then flags else flags + mask
