-- ===== src/Ip/Transport.antt =====
-- src/ip.rs: sending and receiving one packet. How long the stream takes for it is an argument, with which the
-- deadline of a write or a read is compared.
use hart_link.Common.{
  ℕ, ◌+◌, ◌-◌, ◌%◌, ◌^◌, Bool, true, false, not, ◌||◌, List, ◌++◌, length, get_or, ltb, min,
  if◌then◌else◌, Result, ok, err,
}
use hart_link.Ip.Packet.{
  MessageType, IpPacket, IpError, io, length_error, packet_length, body_limit, expired,
  write_deadline, read_deadline, stream_unusable, encode, decode, from_be16, maximum_ip_body_bytes,
  header_size,
}
use hart_link.Ip.Stream.{StreamEnd, closed, stalled, Stream, read_exact, write_all, discard_exact}
use hart_link.Ip.Session.{IpSession}

unfoldable pub new_packet : IpSession → MessageType → ℕ → List ℕ → IpPacket
new_packet s kind id bytes = record {
  version = s.protocol_version;
  message_type = kind;
  message_id = id;
  status = 0;
  sequence = s.next_sequence;
  body = bytes;
}

-- The number that the packet had, when the write ends within its deadline.
unfoldable pub transmit : (wait : ℕ) → IpSession → List ℕ → Result IpError ℕ × IpSession
unfolding write_all
transmit wait s encoded = elim (write_all encoded s.stream) [
  | ok st ↦
      if ltb s.timeouts.io_time wait
      then (err (expired write_deadline), record s { usable = false })
      else (
        ok s.next_sequence,
        record s { stream = st; next_sequence = (s.next_sequence + 1) % 2 ^ 16 },
      )
  | err e ↦ elim e [
    | closed ↦
        if ltb s.timeouts.io_time wait
        then (err (expired write_deadline), record s { usable = false })
        else (err io, record s { usable = false })
    | stalled ↦ (err (expired write_deadline), record s { usable = false })
  ]
]

-- When a write ends: by itself, or by its deadline.
unfoldable pub transmit_time : (wait : ℕ) → IpSession → List ℕ → ℕ
unfolding write_all
transmit_time wait s encoded = elim (write_all encoded s.stream) [
  | ok st ↦ min wait s.timeouts.io_time
  | err e ↦ elim e [ closed ↦ min wait s.timeouts.io_time | stalled ↦ s.timeouts.io_time ]
]

unfoldable pub send :
    (wait : ℕ) → IpSession → MessageType → ℕ → List ℕ → Result IpError ℕ × IpSession
unfolding new_packet transmit
send wait s kind id bytes =
    if not s.usable
    then (err stream_unusable, s)
    else if ltb maximum_ip_body_bytes (length bytes)
    then (err (length_error (length bytes)), s)
    else elim (encode (new_packet s kind id bytes)) [
      | err e ↦ (err e, s)
      | ok encoded ↦ transmit wait s encoded
    ]

-- The time that `send` takes: none on an error before the write.
unfoldable pub send_time : (wait : ℕ) → IpSession → MessageType → ℕ → List ℕ → ℕ
unfolding new_packet transmit_time
send_time wait s kind id bytes =
    if not s.usable || ltb maximum_ip_body_bytes (length bytes)
    then 0
    else elim (encode (new_packet s kind id bytes)) [
      | err e ↦ 0
      | ok encoded ↦ transmit_time wait s encoded
    ]

-- What a read of one packet comes to before the read deadline, or that it waits for ever.
pub data Received : Type 0 where
  got : IpPacket → Received
  failed : IpError → Received
  stuck : Received

abbrev pub broken : StreamEnd → Received
broken closed = failed io
broken stalled = stuck

abbrev pub decoded : Result IpError IpPacket → Received
decoded (ok p) = got p
decoded (err e) = failed e

-- `receive_unbounded` from the header on.
unfoldable pub receive_body : (maximum_body : ℕ) → List ℕ → Stream → (total : ℕ) → Received × Stream
receive_body maximum_body header st total =
    if ltb total header_size
    then (failed (packet_length total header_size), st)
    else if ltb maximum_body (total - header_size)
    then elim (discard_exact st (total - header_size)) [
      | err e ↦ (broken e, st)
      | ok rest ↦ (failed (body_limit (total - header_size)), rest)
    ]
    else elim (read_exact (total - header_size) st) [
      | err e ↦ (broken e, st)
      | ok (bytes, rest) ↦ (decoded (decode (header ++ bytes) maximum_body), rest)
    ]

unfoldable pub receive_unbounded : (maximum_body : ℕ) → Stream → Received × Stream
unfolding receive_body
receive_unbounded maximum_body st = elim (read_exact header_size st) [
  | err e ↦ (broken e, st)
  | ok (header, rest) ↦
      receive_body maximum_body header rest (from_be16 (get_or header 6 0) (get_or header 7 0))
]

-- The errors after which the framing of the stream is uncertain.
abbrev pub breaks_framing : IpError → Bool
breaks_framing io = true
breaks_framing (packet_length _ _) = true
breaks_framing _ = false

unfoldable pub settle : IpSession → Received → Result IpError IpPacket × IpSession
settle s (got p) = (ok p, s)
settle s (failed e) = (err e, if breaks_framing e then record s { usable = false } else s)
settle s stuck = (err (expired read_deadline), record s { usable = false })

-- A read that ends after the deadline is as one that waits for ever.
unfoldable pub within : (limit wait : ℕ) → Received → Received
within limit wait r = if ltb limit wait then stuck else r

unfoldable pub receive : (wait : ℕ) → IpSession → Result IpError IpPacket × IpSession
unfolding settle within
receive wait s =
    if not s.usable
    then (err stream_unusable, s)
    else settle (record s { stream = (receive_unbounded s.maximum_body s.stream).1 })
        (within s.timeouts.io_time wait (receive_unbounded s.maximum_body s.stream).0)

-- When a read ends: by itself, or by its deadline.
unfoldable pub read_time : (limit wait : ℕ) → Received → ℕ
read_time limit wait stuck = limit
read_time limit wait (got p) = min wait limit
read_time limit wait (failed e) = min wait limit

unfoldable pub receive_time : (wait : ℕ) → IpSession → ℕ
unfolding read_time
receive_time wait s =
    if not s.usable
    then 0
    else read_time s.timeouts.io_time wait (receive_unbounded s.maximum_body s.stream).0
