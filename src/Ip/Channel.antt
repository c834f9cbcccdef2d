-- ===== src/Ip/Channel.antt =====
-- src/ip.rs: `IpPacketChannel`, a session as a byte channel.
pub mod Drained
use hart_link.Common.{
  ℕ, zero, suc, min, Bool, true, false, not, none, some, List, [], ◌∷◌, ◌++◌, length, take, drop,
  ◌==◌, if◌then◌else◌, Result, ok, err,
}
use hart_link.Ip.Packet.{IpPacket, IpError, io}
use hart_link.Ip.Session.{IpSession, take_published}
use hart_link.Ip.Exchange.{Pace, request_in_session}

pub data ChannelError : Type 0 where
  undrained_before_send undrained_session empty_buffer channel_closed : ChannelError
  channel_io : ChannelError
  channel_protocol : IpError → ChannelError

pub record IpPacketChannel : Type 0 where
  pub session : IpSession
  pub message_id : ℕ
  pub pending : List ℕ

unfoldable pub new_channel : IpSession → ℕ → IpPacketChannel
new_channel s id = record { session = s; message_id = id; pending = [] }

unfoldable pub channel_error : IpError → ChannelError
channel_error io = channel_io
channel_error other = channel_protocol other

unfoldable pub into_session : IpPacketChannel → Result ChannelError IpSession
into_session c = elim c.pending [ [] ↦ ok c.session | _ ∷ _ ↦ err undrained_session ]

-- The loop of `send` over `take_published`, with a round for each retained packet and one more.
unfoldable pub drain_published : ℕ → IpSession → List ℕ → List ℕ × IpSession
drain_published zero s pending = (pending, s)
drain_published (suc fuel) s pending = elim ((take_published s).0) [
  | none ↦ (pending, (take_published s).1)
  | some p ↦ drain_published fuel (take_published s).1 (pending ++ p.body)
]

unfoldable pub channel_send :
    Pace → IpPacketChannel → List ℕ → Result ChannelError (Unit {0}) × IpPacketChannel
unfolding drain_published
channel_send pace c bytes =
    if not (length c.pending == 0)
    then (err undrained_before_send, c)
    else (let answer = request_in_session pace c.session c.message_id bytes in
        elim answer.0 [
          | err e ↦ (err (channel_error e), record c { session = answer.1 })
          | ok p ↦
              let drained = drain_published (suc (length answer.1.published)) answer.1 c.pending in
              (ok tt, record c { session = drained.1; pending = drained.0 ++ p.body })
        ])

-- The bytes that `receive` puts in a buffer of a length.
unfoldable pub channel_receive :
    IpPacketChannel → (buffer : ℕ) → Result ChannelError (List ℕ) × IpPacketChannel
channel_receive c buffer =
    if buffer == 0
    then (err empty_buffer, c)
    else if length c.pending == 0
    then (err channel_closed, c)
    else (let count = min buffer (length c.pending) in
        (ok (take count c.pending), record c { pending = drop count c.pending }))
