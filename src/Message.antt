-- ===== src/Message.antt =====
-- internal/protocol/message.go: message IDs in hexadecimal, and times on the wire and in text.
-- `Hex` and `Timestamp` hold the text forms with their round trips.
pub mod Hex
pub mod Timestamp
pub mod Calendar
use rfmpd.Base.{
  All, Bytes, Option, [], if◌then◌else◌, length, none, some, take, ℕ, ◌%◌, ◌++◌, ◌/◌, ◌<◌, ◌==◌,
  ◌>>=◌, ◌^◌, ◌∷◌, ◌≡◌,
}
use Hex.{hex_encode, hex_decode}

-- `[6]byte`
abbrev pub MessageId : Type 0
MessageId = Bytes

abbrev pub IsId : MessageId → Type 0
IsId id = (length id ≡ 6) × All (λ b. b < 256) id

unfoldable pub id_to_hex : MessageId → Bytes
id_to_hex = hex_encode

abbrev check_id : Bytes → Option MessageId
check_id b = if length b == 6 then some b else none

unfoldable pub id_from_hex : Bytes → Option MessageId
id_from_hex s = hex_decode s >>= check_id

-- An ID printed in hexadecimal is read back.
pub id_from_hex-id_to_hex : (id : MessageId) → IsId id → id_from_hex (id_to_hex id) ≡ some id
unfolding id_from_hex id_to_hex
id_from_hex-id_to_hex id (n, h) = rw (Hex.hex_decode-hex_encode id h, n)

-- `binary.BigEndian` on a uint32
abbrev be32 : ℕ → Bytes
be32 e = e / 2 ^ 24 % 256 ∷ e / 2 ^ 16 % 256 ∷ e / 2 ^ 8 % 256 ∷ e % 256 ∷ []

-- `GenerateMessageID`, over SHA-256 as a parameter: the first six bytes of the digest.
unfoldable pub generate_message_id : (Bytes → Bytes) → Bytes → ℕ → Bytes → MessageId
generate_message_id sha256 from_node epoch body =
    take 6 (sha256 (from_node ++ (be32 epoch ++ body)))
