-- ===== src/Ip/Exchange.antt =====
-- src/ip.rs: the request-response exchange of a session, and the calls made of it. How long the stream takes
-- for each write and read is an argument, and the deadline of the exchange is compared with it.
pub mod Ends
pub mod Answers
pub mod Early
pub mod Receiving
pub mod Publishing
pub mod Delivers
pub mod Calls
use hart_link.Common.{
  ℕ, ◌+◌, Bool, true, false, not, ◌||◌, List, [], ◌∷◌, ltb, ◌==◌, if◌then◌else◌, Result, ok, err,
  saturating_add, be32,
}
use hart_link.Ip.Packet.{
  MessageType, request, response, publish, nak, IpPacket, IpError, sequence_error, version_error,
  remote_status, unexpected_message_type, already_open, not_open, inactivity_timeout, expired,
  read_deadline, exchange_deadline,
}
use hart_link.Ip.Session.{IpSession, retain_published}
use hart_link.Ip.Transport.{receive, receive_time, send, send_time}

-- What one round of the exchange decides about a packet.
pub data Judged : Type 0 where
  answered : Result IpError IpPacket → IpSession → Judged
  again : (unmatched : ℕ) → IpSession → Judged

abbrev pub is_publish : MessageType → Bool
is_publish publish = true
is_publish request = false
is_publish response = false
is_publish nak = false

-- A packet of this request's number and identifier.
unfoldable pub judge_matching : IpPacket → Result IpError IpPacket
judge_matching p = elim p.message_type [
  | nak ↦ err (remote_status p.status)
  | response ↦ if not (p.status == 0) then err (remote_status p.status) else ok p
  | other ↦ err (unexpected_message_type other)
]

unfoldable pub judge : IpSession → IpPacket → (sequence message_id unmatched : ℕ) → Judged
unfolding judge_matching
judge s p sequence message_id unmatched =
    if not (p.version == s.protocol_version)
    then answered (err (version_error s.protocol_version p.version)) s
    else if is_publish p.message_type
    then again unmatched (retain_published s p)
    else if not (p.sequence == sequence) || not (p.message_id == message_id)
    then (let skipped = record s { unmatched_skipped = saturating_add s.unmatched_skipped 1 } in
        if ltb s.maximum_unmatched (saturating_add unmatched 1)
        then answered (err sequence_error) skipped
        else again (saturating_add unmatched 1) skipped)
    else answered (judge_matching p) s

-- The exits of a round, and its way round again.
abbrev pub if_received :
    (IpSession → IpPacket → Result IpError IpPacket × IpSession)
    → Result IpError IpPacket × IpSession
    → Result IpError IpPacket × IpSession
if_received next (err e, s) = (err e, s)
if_received next (ok p, s) = next s p

abbrev pub if_again :
    (ℕ → IpSession → Result IpError IpPacket × IpSession)
    → Judged
    → Result IpError IpPacket × IpSession
if_again next (answered r s) = (r, s)
if_again next (again n s) = next n s

-- The session after a deadline has cut it short.
abbrev pub cut_short : IpSession → IpSession
cut_short s = record s { usable = false }

-- The deadline that ends a wait which nothing else ends: a read's own one, unless that of the exchange comes
-- before it.
unfoldable pub first_deadline : IpSession → (elapsed : ℕ) → IpError
first_deadline s elapsed =
    if ltb s.timeouts.exchange_time (elapsed + s.timeouts.io_time)
    then expired exchange_deadline
    else expired read_deadline

-- The list has, for each read of a packet, the time that it takes; after the list no read ends. `elapsed` is
-- the time since the exchange began.
unfoldable pub exchange_loop :
    (waits : List ℕ)
    → (elapsed : ℕ) → IpSession
    → (sequence message_id unmatched : ℕ) → Result IpError IpPacket × IpSession
unfolding first_deadline
exchange_loop [] elapsed s sequence message_id unmatched =
    (err (first_deadline s elapsed), cut_short s)
exchange_loop (wait ∷ waits) elapsed s sequence message_id unmatched =
    if ltb s.timeouts.exchange_time (elapsed + receive_time wait s)
    then (err (expired exchange_deadline), cut_short s)
    else if_received
        (λ s' p.
          if_again
            (λ n t. exchange_loop waits (elapsed + receive_time wait s) t sequence message_id n)
            (judge s' p sequence message_id unmatched))
        (receive wait s)

-- How long the stream takes in an exchange: for the write, and for each read of a packet.
pub record Pace : Type 0 where
  pub writing : ℕ
  pub reading : List ℕ

unfoldable pub exchange_unchecked :
    Pace → IpSession → ℕ → List ℕ → Result IpError IpPacket × IpSession
unfolding exchange_loop
exchange_unchecked pace s message_id bytes =
    if ltb s.timeouts.exchange_time (send_time pace.writing s request message_id bytes)
    then (err (expired exchange_deadline), cut_short s)
    else elim ((send pace.writing s request message_id bytes).0) [
      | err e ↦ (err e, (send pace.writing s request message_id bytes).1)
      | ok sequence ↦
          exchange_loop pace.reading (send_time pace.writing s request message_id bytes)
            (send pace.writing s request message_id bytes).1 sequence message_id 0
    ]

abbrev pub is_ok {ℓ κ} : {E : Type ℓ} {A : Type κ} → Result E A → Bool
is_ok (ok _) = true
is_ok (err _) = false

-- `open`, with the inactivity time in milliseconds.
unfoldable pub open_session :
    Pace → IpSession → (milliseconds : ℕ) → Result IpError IpPacket × IpSession
unfolding exchange_unchecked
open_session pace s milliseconds =
    if s.is_open
    then (err already_open, s)
    else if ltb 4294967295 milliseconds
    then (err inactivity_timeout, s)
    else (let answer = exchange_unchecked pace s 0 (1 ∷ be32 milliseconds) in
        (answer.0, if is_ok answer.0 then record (answer.1) { is_open = true } else answer.1))

unfoldable pub request_in_session :
    Pace → IpSession → ℕ → List ℕ → Result IpError IpPacket × IpSession
unfolding exchange_unchecked
request_in_session pace s message_id bytes =
    if not s.is_open then (err not_open, s) else exchange_unchecked pace s message_id bytes

unfoldable pub keep_alive : Pace → IpSession → Result IpError IpPacket × IpSession
unfolding request_in_session
keep_alive pace s = request_in_session pace s 2 []

unfoldable pub token_passing : Pace → IpSession → List ℕ → Result IpError IpPacket × IpSession
unfolding request_in_session
token_passing pace s bytes = request_in_session pace s 3 bytes

unfoldable pub close_session : Pace → IpSession → Result IpError IpPacket × IpSession
unfolding exchange_unchecked
close_session pace s =
    if not s.is_open
    then (err not_open, s)
    else (let answer = exchange_unchecked pace s 1 [] in
        (answer.0, if is_ok answer.0 then record (answer.1) { is_open = false } else answer.1))
