-- ===== src/Ip/Packet.antt =====
-- src/ip.rs: the packets of HART-IP and the errors of a session. The error value of a socket is not looked
-- into by the code, and is left out.
pub mod Laws
use hart_link.Common.{
  ℕ, ◌+◌, ◌-◌, ◌*◌, bit_and, Bool, true, false, not, ◌||◌, Option, none, some, List, [], ◌∷◌, ◌++◌,
  length, get_or, drop, ltb, leb, ◌==◌, if◌then◌else◌, Result, ok, err, ◌>>=◌, checked_add, u16_max,
  usize_max, be16,
}

abbrev pub header_size : ℕ
header_size = 8

abbrev pub maximum_ip_body_bytes : ℕ
maximum_ip_body_bytes = 65535 - header_size

pub data MessageType : Type 0 where
  request response publish nak : MessageType

-- `message_type as u8`
unfoldable pub type_code : MessageType → ℕ
type_code request = 0
type_code response = 1
type_code publish = 2
type_code nak = 15

-- The names of the deadlines that can expire.
pub data Deadline : Type 0 where
  write_deadline read_deadline exchange_deadline io_deadline : Deadline

pub data IpError : Type 0 where
  io : IpError
  truncated : IpError
  message_type_error : ℕ → IpError
  reserved_message_bits : ℕ → IpError
  length_error : ℕ → IpError
  packet_length : (declared actual : ℕ) → IpError
  body_limit : ℕ → IpError
  sequence_error : IpError
  version_error : (expected actual : ℕ) → IpError
  remote_status : ℕ → IpError
  unexpected_message_type : MessageType → IpError
  already_open : IpError
  not_open : IpError
  inactivity_timeout : IpError
  expired : Deadline → IpError
  zero_timeout : IpError
  timeout_limit : Deadline → IpError
  stream_unusable : IpError

-- `MessageType::try_from`
unfoldable pub type_from : ℕ → Result IpError MessageType
type_from value =
    if value == 0
    then ok request
    else if value == 1
    then ok response
    else if value == 2
    then ok publish
    else if value == 15
    then ok nak
    else err (message_type_error value)

pub record IpPacket : Type 0 where
  pub version : ℕ
  pub message_type : MessageType
  pub message_id : ℕ
  pub status : ℕ
  pub sequence : ℕ
  pub body : List ℕ

unfoldable pub encode_header : IpPacket → (total : ℕ) → List ℕ
unfolding type_code
encode_header p total =
    (p.version ∷ type_code p.message_type ∷ p.message_id ∷ p.status ∷ [])
    ++ (be16 p.sequence ++ be16 total)

-- `checked_add` and `u16::try_from`, each refused with the length of the body.
unfoldable pub encode : IpPacket → Result IpError (List ℕ)
unfolding encode_header
encode p = elim (checked_add usize_max header_size (length p.body)) [
  | none ↦ err (length_error (length p.body))
  | some total ↦
      if leb total u16_max
      then ok (encode_header p total ++ p.body)
      else err (length_error (length p.body))
]

-- The big-endian number of two bytes.
abbrev pub from_be16 : ℕ → ℕ → ℕ
from_be16 high low = high * 256 + low

unfoldable pub decode : List ℕ → (maximum_body : ℕ) → Result IpError IpPacket
decode bytes maximum_body =
    let total = from_be16 (get_or bytes 6 0) (get_or bytes 7 0) in
    let reserved = bit_and (get_or bytes 1 0) 0xf0 in
    if ltb (length bytes) header_size
    then err truncated
    else if not (total == length bytes) || ltb total header_size
    then err (packet_length total (length bytes))
    else if ltb maximum_body (total - header_size)
    then err (body_limit (total - header_size))
    else if not (reserved == 0)
    then err (reserved_message_bits reserved)
    else (do
      kind ← type_from (bit_and (get_or bytes 1 0) 0x0f)
      ok (record {
        version = get_or bytes 0 0;
        message_type = kind;
        message_id = get_or bytes 2 0;
        status = get_or bytes 3 0;
        sequence = from_be16 (get_or bytes 4 0) (get_or bytes 5 0);
        body = drop header_size bytes;
      }))
