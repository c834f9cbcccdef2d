-- ===== src/Ip/Tests.antt =====
-- Runs of the HART-IP theorems at concrete packets, streams and sessions.
use hart_link.Common.{ℕ, ◌≡◌, ◌≢◌, refl, arith, ap, true, none, List, [], ◌∷◌, ◌++◌, ok, err}
use hart_link.Ip.Packet.{
  response, publish, IpPacket, expired, exchange_deadline, encode, decode, encode_header, type_code,
  type_from,
}
use hart_link.Ip.Packet.Laws.{encode-decode_packet}
use hart_link.Ip.Stream.{stalled, Stream, write_all, read_exact}
use hart_link.Ip.Session.{IpSession, retain_published}
use hart_link.Ip.Session.Retained.{IsSession, retain_published-IsSession}
use hart_link.Ip.Transport.{
  send_time, transmit_time, send, transmit, receive, receive_time, new_packet, within,
  receive_unbounded, settle, read_time,
}
use hart_link.Ip.Exchange.{Pace, exchange_unchecked, exchange_loop, first_deadline}
use hart_link.Ip.Exchange.Answers.{Answers}
use hart_link.Ip.Exchange.Receiving.{encode_packets, retain_all}
use hart_link.Ip.Exchange.Publishing.{Published}
use hart_link.Ip.Exchange.Delivers.{InTime, exchange_unchecked-delivers}
use hart_link.Ip.Exchange.Calls.{
  exchange_unchecked-Answers, exchange_unchecked-early, opening, asking, limiting, taking,
  run_calls, run_calls-IsSession,
}
use hart_link.Ip.Channel.{IpPacketChannel, channel_send}
use hart_link.Ip.Channel.Drained.{bodies, channel_send-delivers}

-- An answer to the first request, and a Publish packet before it.
abbrev answer_packet : IpPacket
answer_packet = record {
  version = 1;
  message_type = response;
  message_id = 3;
  status = 0;
  sequence = 1;
  body = 6 ∷ 7 ∷ [];
}

abbrev burst_packet : IpPacket
burst_packet = record {
  version = 1;
  message_type = publish;
  message_id = 3;
  status = 0;
  sequence = 77;
  body = 42 ∷ [];
}

abbrev answer_bytes : List ℕ
answer_bytes = 1 ∷ 1 ∷ 3 ∷ 0 ∷ 0 ∷ 1 ∷ 0 ∷ 10 ∷ 6 ∷ 7 ∷ []

abbrev burst_bytes : List ℕ
burst_bytes = 1 ∷ 2 ∷ 3 ∷ 0 ∷ 0 ∷ 77 ∷ 0 ∷ 9 ∷ 42 ∷ []

encoded_answer : encode answer_packet ≡ ok answer_bytes
unfolding encode encode_header type_code
encoded_answer = refl

encoded_bursts : encode_packets (burst_packet ∷ []) ≡ ok burst_bytes
unfolding encode_packets encode encode_header type_code
encoded_bursts = refl

decoded_burst : decode burst_bytes 64 ≡ ok burst_packet
unfolding decode type_from
decoded_burst = refl

encode-decode_packet_example : encode burst_packet ≡ ok burst_bytes
encode-decode_packet_example =
    encode-decode_packet burst_bytes 64 burst_packet (omega arith) decoded_burst

-- The Publish packet, the answer, and one more byte, on a stream that then stalls.
abbrev stream : Stream
stream = record {
  incoming = burst_bytes ++ (answer_bytes ++ (1 ∷ []));
  incoming_end = stalled;
  outgoing = [];
  outgoing_end = none;
}

abbrev session : IpSession
session = record {
  stream = stream;
  next_sequence = 1;
  maximum_body = 64;
  protocol_version = 1;
  is_open = true;
  published = burst_packet ∷ [];
  published_bytes = 1;
  maximum_published = 1;
  maximum_published_bytes = 100;
  maximum_unmatched = 16;
  timeouts = record { io_time = 10; exchange_time = 30 };
  published_dropped = 0;
  unmatched_skipped = 0;
  usable = true;
}

-- A write of 2, and reads of 3 and 9, within an io time of 10 and an exchange time of 30.
abbrev steady : Pace
steady = record { writing = 2; reading = 3 ∷ 9 ∷ [] }

steady-InTime : InTime session steady 2
steady-InTime = record {
  writing = omega arith;
  enough = omega arith;
  each = (omega arith, (omega arith, tt));
  whole = omega arith;
}

-- A stream that stalls before its first packet, and an exchange that has less time than a read: the deadline
-- of the exchange ends it.
abbrev hurried : IpSession
hurried = record session {
  stream = record stream { incoming = [] };
  timeouts = record { io_time = 10; exchange_time = 5 };
}

hurried_early : (exchange_unchecked steady hurried 3 (9 ∷ [])).0 ≡ err (expired exchange_deadline)
unfolding exchange_unchecked exchange_loop first_deadline send_time transmit_time new_packet send
    transmit encode encode_header type_code write_all receive within receive_unbounded read_exact
    settle receive_time read_time
hurried_early = refl

session-IsSession : IsSession session
session-IsSession = record {
  counted = refl;
  few = omega arith;
  small = omega arith;
  packet_limit = omega arith;
  byte_limit = omega arith;
}

-- The one packet that the session may retain makes room for the next.
retain_published-IsSession_example : IsSession (retain_published session burst_packet)
retain_published-IsSession_example =
    retain_published-IsSession session burst_packet session-IsSession

run_calls-IsSession_example :
    IsSession
      (run_calls session (asking steady 3 (9 ∷ []) ∷ taking ∷ limiting 0 ∷ opening steady ∷ []))
run_calls-IsSession_example =
    run_calls-IsSession (asking steady 3 (9 ∷ []) ∷ taking ∷ limiting 0 ∷ opening steady ∷ [])
      session session-IsSession

answer-Answers : Answers 1 1 3 answer_packet
answer-Answers = record {
  same_version = refl;
  same_sequence = refl;
  same_id = refl;
  is_response = refl;
  success = refl;
}

burst-Published : Published session burst_packet
burst-Published = record {
  is_packet = omega arith;
  fits = omega arith;
  same_version = refl;
  kind = refl;
}

exchange_unchecked-delivers_example :
    (t : IpSession) × (exchange_unchecked steady session 3 (9 ∷ []) ≡ (ok answer_packet, t))
    × (t.published ≡ (retain_all session (burst_packet ∷ [])).published)
    × (t.stream.incoming ≡ 1 ∷ [])
exchange_unchecked-delivers_example =
    exchange_unchecked-delivers (burst_packet ∷ []) session answer_packet (9 ∷ []) burst_bytes
      answer_bytes (1 ∷ []) 3 steady refl refl (omega arith) (burst-Published, tt) (omega arith)
      (omega arith) answer-Answers encoded_bursts encoded_answer refl steady-InTime

answered : (exchange_unchecked steady session 3 (9 ∷ [])).0 ≡ ok answer_packet
answered =
    let (t, e, _, _) =
      exchange_unchecked-delivers (burst_packet ∷ []) session answer_packet (9 ∷ []) burst_bytes
        answer_bytes (1 ∷ []) 3 steady refl refl (omega arith) (burst-Published, tt) (omega arith)
        (omega arith) answer-Answers encoded_bursts encoded_answer refl steady-InTime in
    ap (λ o. o.0) e

exchange_unchecked-Answers_example : Answers 1 1 3 answer_packet
exchange_unchecked-Answers_example =
    exchange_unchecked-Answers steady session 3 (9 ∷ []) answer_packet answered

exchange_unchecked-early_example :
    (exchange_unchecked steady session 3 (9 ∷ [])).0 ≢ err (expired exchange_deadline)
exchange_unchecked-early_example = exchange_unchecked-early steady session 3 (9 ∷ []) (omega arith)

abbrev channel : IpPacketChannel
channel = record { session = session; message_id = 3; pending = [] }

channel_send-delivers_example :
    ((channel_send steady channel (9 ∷ [])).0 ≡ ok tt)
    × ((channel_send steady channel (9 ∷ [])).1.pending
        ≡ bodies (retain_all session (burst_packet ∷ [])).published ++ answer_packet.body)
channel_send-delivers_example =
    channel_send-delivers channel (burst_packet ∷ []) answer_packet (9 ∷ []) burst_bytes
      answer_bytes (1 ∷ []) steady refl refl refl refl (omega arith) (burst-Published, tt)
      (omega arith) (omega arith) answer-Answers encoded_bursts encoded_answer refl steady-InTime
