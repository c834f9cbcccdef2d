-- ===== src/Ip/Exchange/Calls.antt =====
-- The calls of a session: whole exchanges, and any sequence of calls.
use hart_link.Common.{
  ℕ, ◌+◌, ◌≤◌, ◌<◌, Bool-cases, ◌≡◌, ◌≢◌, refl, arith, ap, ◌∙◌, Bool, true, false, not, inl, inr,
  ◌⊎◌, if◌then◌else◌, List, [], ◌∷◌, be32, ltb, Result, ok, err,
}
use hart_link.Ip.Packet.{
  MessageType, request, IpPacket, IpError, expired, exchange_deadline, encode,
}
use hart_link.Ip.Stream.{write_all}
use hart_link.Ip.Session.{
  IpSession, take_published, with_maximum_published, with_maximum_published_bytes,
}
use hart_link.Ip.Session.Retained.{
  IsSession, take_published-IsSession, with_maximum_published-IsSession,
  with_maximum_published_bytes-IsSession,
}
use hart_link.Ip.Transport.{send_time, transmit_time, new_packet, send, transmit}
use hart_link.Ip.Exchange.{
  Pace, cut_short, exchange_loop, exchange_unchecked, open_session, request_in_session, keep_alive,
  token_passing, close_session, is_ok,
}
use hart_link.Ip.Exchange.Ends.{
  Untouched-IsSession, send-Untouched, cut_short-IsSession, exchange_loop-IsSession,
}
use hart_link.Ip.Exchange.Answers.{Answers, exchange_loop-Answers}
use hart_link.Ip.Exchange.Early.{total_time, exchange_loop-early}

-- The number that a request is sent with, and what the sending leaves alone.
send-ok :
    (wait : ℕ) (s : IpSession) (kind : MessageType) (id n : ℕ) (bytes : List ℕ)
    → (send wait s kind id bytes).0 ≡ ok n
    → (n ≡ s.next_sequence)
      × ((send wait s kind id bytes).1.protocol_version ≡ s.protocol_version)
      × ((send wait s kind id bytes).1.timeouts ≡ s.timeouts)
unfolding send transmit write_all
send-ok wait s kind id n bytes e = ground (arith, e)

Result-send : (r : Result IpError ℕ) → ((n : ℕ) × (r ≡ ok n)) ⊎ ((e : IpError) × (r ≡ err e))
Result-send (ok n) = inl (n, refl)
Result-send (err e) = inr (e, refl)

-- A property of every end of an exchange: of its deadline during the sending, of an error of the sending, and
-- of the loop.
module _ (pace : Pace) (s : IpSession) (id : ℕ) (bytes : List ℕ)
    (Post : Result IpError IpPacket → IpSession → Type 0)
    (late : s.timeouts.exchange_time < send_time pace.writing s request id bytes
      → Post (err (expired exchange_deadline)) (cut_short s))
    (unsent : (e : IpError)
      → (send pace.writing s request id bytes).0 ≡ err e
      → Post (err e) (send pace.writing s request id bytes).1)
    (looped : (n : ℕ)
      → (send pace.writing s request id bytes).0 ≡ ok n
      → (let o =
            exchange_loop pace.reading
              (send_time pace.writing s request id bytes)
              (send pace.writing s request id bytes).1
              n
              id
              0 in
          Post o.0 o.1)) where
  pub exchange_unchecked_rule :
      Post (exchange_unchecked pace s id bytes).0 (exchange_unchecked pace s id bytes).1
  unfolding exchange_unchecked
  exchange_unchecked_rule =
      elim (Bool-cases (ltb s.timeouts.exchange_time (send_time pace.writing s request id bytes))) [
        | inl over ↦ rw (exchange_unchecked, over) (late (ground (arith, over)))
        | inr inside ↦ elim (Result-send (send pace.writing s request id bytes).0) [
          | inl (n, sent) ↦ rw (exchange_unchecked, inside, sent) (looped n sent)
          | inr (x, refused) ↦ rw (exchange_unchecked, inside, refused) (unsent x refused)
        ]
      ]

-- The answer of an exchange is a response with the request's number, identifier and protocol version, and
-- with status zero.
pub exchange_unchecked-Answers :
    (pace : Pace) (s : IpSession) (id : ℕ) (bytes : List ℕ) (p : IpPacket)
    → (exchange_unchecked pace s id bytes).0 ≡ ok p
    → Answers s.protocol_version s.next_sequence id p
exchange_unchecked-Answers pace s id bytes p e =
    exchange_unchecked_rule pace s id bytes
      (λ r t. r ≡ ok p → Answers s.protocol_version s.next_sequence id p) (λ over f. cc)
      (λ x refused f. cc)
      (λ n sent f.
        let (number, version, _) = send-ok pace.writing s request id n bytes sent in
        rw (version, number) at
          (exchange_loop-Answers pace.reading (send_time pace.writing s request id bytes)
            (send pace.writing s request id bytes).1 n id 0 p f))
      e

err_inj : {x y : IpError} → ◌≡◌ {A = Result IpError IpPacket} (err x) (err y) → x ≡ y
err_inj e = cc

encode-early : (p : IpPacket) → encode p ≢ err (expired exchange_deadline)
unfolding encode
encode-early p e = ground (arith, e)

send-early :
    (wait : ℕ) (s : IpSession) (kind : MessageType) (id : ℕ) (bytes : List ℕ)
    → (send wait s kind id bytes).0 ≢ err (expired exchange_deadline)
unfolding send transmit
send-early wait s kind id bytes e = ground (arith, e, encode-early (new_packet s kind id bytes))

send_time-limit :
    (wait : ℕ) (s : IpSession) (kind : MessageType) (id : ℕ) (bytes : List ℕ)
    → send_time wait s kind id bytes ≤ s.timeouts.io_time
unfolding send_time transmit_time
send_time-limit wait s kind id bytes = ground arith

send_time-ok :
    (wait : ℕ) (s : IpSession) (kind : MessageType) (id n : ℕ) (bytes : List ℕ)
    → (send wait s kind id bytes).0 ≡ ok n
    → send_time wait s kind id bytes ≤ wait
unfolding send transmit send_time transmit_time
send_time-ok wait s kind id n bytes e = ground (arith, e)

-- Where the deadline of the exchange leaves time for the write, for all reads of the list and for one more
-- read that lasts until its own deadline, the exchange does not end by the deadline of the exchange.
pub exchange_unchecked-early :
    (pace : Pace) (s : IpSession) (id : ℕ) (bytes : List ℕ)
    → pace.writing + total_time pace.reading + s.timeouts.io_time ≤ s.timeouts.exchange_time
    → (exchange_unchecked pace s id bytes).0 ≢ err (expired exchange_deadline)
exchange_unchecked-early pace s id bytes time =
    exchange_unchecked_rule pace s id bytes (λ r t. r ≢ err (expired exchange_deadline))
      (λ over e. omega (arith, time, over, send_time-limit pace.writing s request id bytes))
      (λ x refused e.
        send-early pace.writing s request id bytes (refused ∙ ap (λ y. err y) (err_inj e)))
      (λ n sent.
        let (_, _, same) = send-ok pace.writing s request id n bytes sent in
        exchange_loop-early pace.reading (send_time pace.writing s request id bytes)
          (send pace.writing s request id bytes).1 n id 0
          (rw same (omega (arith, time, send_time-ok pace.writing s request id n bytes sent))))

exchange_unchecked-IsSession :
    (pace : Pace) (s : IpSession) (id : ℕ) (bytes : List ℕ)
    → IsSession s
    → IsSession (exchange_unchecked pace s id bytes).1
exchange_unchecked-IsSession pace s id bytes v =
    let after =
      Untouched-IsSession s (send pace.writing s request id bytes).1
        (send-Untouched pace.writing s request id bytes) v in
    exchange_unchecked_rule pace s id bytes (λ r t. IsSession t) (λ over. cut_short-IsSession s v)
      (λ x refused. after)
      (λ n sent.
        exchange_loop-IsSession pace.reading (send_time pace.writing s request id bytes)
          (send pace.writing s request id bytes).1 n id 0 after)

-- What an application calls on a session, with how long the stream takes in each exchange.
pub data Call : Type 0 where
  opening closing keeping : (pace : Pace) → Call
  asking : (pace : Pace) → (id : ℕ) → List ℕ → Call
  passing : (pace : Pace) → List ℕ → Call
  taking : Call
  limiting limiting_bytes : ℕ → Call

unfoldable pub run_call : IpSession → Call → IpSession
unfolding open_session close_session keep_alive request_in_session token_passing take_published
    with_maximum_published with_maximum_published_bytes
run_call s (opening pace) = (open_session pace s 60000).1
run_call s (closing pace) = (close_session pace s).1
run_call s (keeping pace) = (keep_alive pace s).1
run_call s (asking pace id bytes) = (request_in_session pace s id bytes).1
run_call s (passing pace bytes) = (token_passing pace s bytes).1
run_call s taking = (take_published s).1
run_call s (limiting n) = with_maximum_published s n
run_call s (limiting_bytes n) = with_maximum_published_bytes s n

unfoldable pub run_calls : IpSession → List Call → IpSession
run_calls s [] = s
run_calls s (c ∷ cs) = run_calls (run_call s c) cs

if-IsSession :
    (b : Bool) (x y : Result IpError IpPacket × IpSession)
    → IsSession x.1
    → IsSession y.1
    → IsSession (if b then x else y).1
if-IsSession true x y v w = v
if-IsSession false x y v w = w

request_in_session-IsSession :
    (pace : Pace) (s : IpSession) (id : ℕ) (bytes : List ℕ)
    → IsSession s
    → IsSession (request_in_session pace s id bytes).1
unfolding request_in_session
request_in_session-IsSession pace s id bytes v =
    if-IsSession (not s.is_open) _ _ v (exchange_unchecked-IsSession pace s id bytes v)

marked-IsSession :
    (b value : Bool) (s : IpSession)
    → IsSession s
    → IsSession (if b then record s { is_open = value } else s)
marked-IsSession true value s v = record {
  counted = v.counted;
  few = v.few;
  small = v.small;
  packet_limit = v.packet_limit;
  byte_limit = v.byte_limit;
}
marked-IsSession false value s v = v

open_session-IsSession :
    (pace : Pace) (s : IpSession) (ms : ℕ) → IsSession s → IsSession (open_session pace s ms).1
unfolding open_session
open_session-IsSession pace s ms v =
    let answer = exchange_unchecked pace s 0 (1 ∷ be32 ms) in
    if-IsSession s.is_open _ _ v (
      if-IsSession (ltb 4294967295 ms) _ _ v (
        marked-IsSession (is_ok answer.0) true answer.1
          (exchange_unchecked-IsSession pace s 0 (1 ∷ be32 ms) v)))

close_session-IsSession :
    (pace : Pace) (s : IpSession) → IsSession s → IsSession (close_session pace s).1
unfolding close_session
close_session-IsSession pace s v =
    let answer = exchange_unchecked pace s 1 [] in
    if-IsSession (not s.is_open) _ _ v (
      marked-IsSession (is_ok answer.0) false answer.1 (exchange_unchecked-IsSession pace s 1 [] v))

run_call-IsSession : (s : IpSession) (c : Call) → IsSession s → IsSession (run_call s c)
unfolding run_call keep_alive token_passing
run_call-IsSession s (opening pace) v = open_session-IsSession pace s 60000 v
run_call-IsSession s (closing pace) v = close_session-IsSession pace s v
run_call-IsSession s (keeping pace) v = request_in_session-IsSession pace s 2 [] v
run_call-IsSession s (asking pace id bytes) v = request_in_session-IsSession pace s id bytes v
run_call-IsSession s (passing pace bytes) v = request_in_session-IsSession pace s 3 bytes v
run_call-IsSession s taking v = take_published-IsSession s v
run_call-IsSession s (limiting n) v = with_maximum_published-IsSession s n v
run_call-IsSession s (limiting_bytes n) v = with_maximum_published_bytes-IsSession s n v

-- Through any sequence of calls, with whatever arrives on the stream, the retained Publish packets stay
-- within both limits, the limits within their hard bounds, and the byte count is that of the packets.
pub run_calls-IsSession :
    (cs : List Call) (s : IpSession) → IsSession s → IsSession (run_calls s cs)
unfolding run_calls
run_calls-IsSession [] s v = v
run_calls-IsSession (c ∷ cs) s v = run_calls-IsSession cs (run_call s c) (run_call-IsSession s c v)
