-- ===== src/Ip/Exchange/Delivers.antt =====
-- A response that arrives behind Publish packets is the answer of the exchange.
use mathlib.Core.List.{append_assoc}
use hart_link.Common.{
  ℕ, suc, ◌+◌, ◌%◌, ◌^◌, ◌≤◌, ◌≡◌, refl, arith, ap, sym, ◌∙◌, true, false, not, none, List, [], ◌∷◌,
  ◌++◌, length, ltb, take, ok, ok_inj, All,
}
use hart_link.Ip.Packet.{request, IpPacket, encode, encode_header}
use hart_link.Ip.Packet.Laws.{IsPacket, encode_lem}
use hart_link.Ip.Stream.{Stream, write_all}
use hart_link.Ip.Session.{IpSession, retain_published}
use hart_link.Ip.Transport.{
  receive, receive_time, send_time, transmit_time, new_packet, transmit, send,
}
use hart_link.Ip.Exchange.{Pace, if_again, again, judge, exchange_loop, exchange_unchecked}
use hart_link.Ip.Exchange.Answers.{Answers}
use hart_link.Ip.Exchange.Early.{total_time}
use hart_link.Ip.Exchange.Receiving.{receive-encode, encode_packets, retain_all}
use hart_link.Ip.Exchange.Publishing.{
  Published, retain_published-stream, retain_all-stream, encode_packets_inv, judge-publish,
  judge-response, retain_published-kept, Published-All, retain_all-sent,
}

-- The write and the first `count` reads end within their own deadlines, and all within that of the exchange.
pub record InTime (s : IpSession) (pace : Pace) (count : ℕ) : Type 0 where
  pub writing : pace.writing ≤ s.timeouts.io_time
  pub enough : count ≤ length pace.reading
  pub each : All (λ w. w ≤ s.timeouts.io_time) (take count pace.reading)
  pub whole : pace.writing + total_time (take count pace.reading) ≤ s.timeouts.exchange_time

-- The same for the reads to come, `elapsed` after the beginning of the exchange.
record ReadsInTime (s : IpSession) (waits : List ℕ) (elapsed count : ℕ) : Type 0 where
  enough : count ≤ length waits
  each : All (λ w. w ≤ s.timeouts.io_time) (take count waits)
  whole : elapsed + total_time (take count waits) ≤ s.timeouts.exchange_time

-- The session after the Publish packets and the response that ends the exchange.
abbrev pub after : IpSession → List IpPacket → (more : List ℕ) → IpSession
after s ps more = record (retain_all s ps) { stream = record (s.stream) { incoming = more } }

ReadsInTime-later :
    (s u : IpSession) (wait : ℕ) (waits : List ℕ) (elapsed count : ℕ)
    → u.timeouts ≡ s.timeouts
    → ReadsInTime s (wait ∷ waits) elapsed (suc count)
    → ReadsInTime u waits (elapsed + wait) count
ReadsInTime-later s u wait waits elapsed count same v = record {
  enough = omega (arith, v.enough);
  each = rw same v.each.1;
  whole = rw same (omega (arith, v.whole));
}

-- A round that receives a packet in time.
round_lem :
    (s t : IpSession) (p : IpPacket) (wait : ℕ) (waits : List ℕ) (elapsed sequence id k : ℕ)
    → receive wait s ≡ (ok p, t)
    → receive_time wait s ≡ wait
    → elapsed + wait ≤ s.timeouts.exchange_time
    → exchange_loop (wait ∷ waits) elapsed s sequence id k
      ≡ if_again
          (λ n u. exchange_loop waits (elapsed + wait) u sequence id n)
          (judge t p sequence id k)
unfolding exchange_loop
round_lem s t p wait waits elapsed sequence id k got_it took inside =
    let timely : ltb s.timeouts.exchange_time (elapsed + wait) ≡ false = ground (arith, inside) in
    rw (took, timely, got_it) refl

exchange_loop-delivers :
    (ps : List IpPacket) (s : IpSession) (r : IpPacket) (wire last more : List ℕ)
    (sequence id k elapsed : ℕ) (waits : List ℕ)
    → s.usable ≡ true
    → All (Published s) ps
    → IsPacket r
    → length r.body ≤ s.maximum_body
    → Answers s.protocol_version sequence id r
    → encode_packets ps ≡ ok wire
    → encode r ≡ ok last
    → s.stream.incoming ≡ wire ++ (last ++ more)
    → ReadsInTime s waits elapsed (suc (length ps))
    → exchange_loop waits elapsed s sequence id k ≡ (ok r, after s ps more)
unfolding encode_packets retain_all
exchange_loop-delivers ps s r wire last more sequence id k elapsed [] open_stream hs h fits a e f
      front time =
    absurd (omega (arith, time.enough))
exchange_loop-delivers [] s r wire last more sequence id k elapsed (wait ∷ waits) open_stream hs h
      fits a e f front time =
    let nothing : [] ≡ wire = ok_inj e in
    let (here, took) =
      receive-encode wait s r last more time.each.0 open_stream h fits f
        (front ∙ ap (λ w. w ++ (last ++ more)) (sym nothing)) in
    let t = record s { stream = record (s.stream) { incoming = more } } in
    round_lem s t r wait waits elapsed sequence id k here took (omega (arith, time.whole))
    ∙ rw (judge-response t r sequence id k a) refl
exchange_loop-delivers (p ∷ ps) s r wire last more sequence id k elapsed (wait ∷ waits) open_stream
      (hp, hs) h fits a e f front time =
    let (bytes, rest, f1, f2, joined) = encode_packets_inv p ps wire e in
    let whole : s.stream.incoming ≡ bytes ++ (rest ++ (last ++ more)) =
      front ∙ (ap (λ w. w ++ (last ++ more)) joined ∙ append_assoc bytes rest (last ++ more)) in
    let st = record (s.stream) { incoming = rest ++ (last ++ more) } in
    let u = record (retain_published s p) { stream = st } in
    let (usable, body_limit, version, same_times) = retain_published-kept s p in
    let (here, took) =
      receive-encode wait s p bytes (rest ++ (last ++ more)) time.each.0 open_stream hp.is_packet
        hp.fits f1 whole in
    let seen : judge (record s { stream = st }) p sequence id k ≡ again k u =
      judge-publish (record s { stream = st }) p sequence id k
        (record {
          is_packet = hp.is_packet;
          fits = hp.fits;
          same_version = hp.same_version;
          kind = hp.kind;
        })
      ∙ ap (again k) (retain_published-stream s p st) in
    let later =
      exchange_loop-delivers ps u r rest last more sequence id k (elapsed + wait) waits
        (usable ∙ open_stream) (Published-All s u ps body_limit version hs) h (rw body_limit fits)
        (record {
          same_version = a.same_version ∙ sym version;
          same_sequence = a.same_sequence;
          same_id = a.same_id;
          is_response = a.is_response;
          success = a.success;
        })
        f2 f refl (ReadsInTime-later s u wait waits elapsed (suc (length ps)) same_times time) in
    let same : after u ps more ≡ after s (p ∷ ps) more =
      ap {A = IpSession} (λ t. record t { stream = record (s.stream) { incoming = more } })
        (retain_all-stream ps (retain_published s p) st) in
    round_lem s (record s { stream = st }) p wait waits elapsed sequence id k here took
      (omega (arith, time.whole))
    ∙ rw seen (later ∙ ap (λ t. (ok r, t)) same)

write_all_lem :
    (st : Stream) (bytes : List ℕ)
    → st.outgoing_end ≡ none
    → write_all bytes st ≡ ok (record st { outgoing = st.outgoing ++ bytes })
unfolding write_all
write_all_lem st bytes h = ground (arith, h)

send_lem :
    (wait : ℕ) (s : IpSession) (id : ℕ) (bytes : List ℕ)
    → wait ≤ s.timeouts.io_time
    → s.usable ≡ true
    → s.stream.outgoing_end ≡ none
    → length bytes ≤ 65527
    → (sent : List ℕ) × (encode (new_packet s request id bytes) ≡ ok sent)
      × (send wait s request id bytes ≡ (
        ok s.next_sequence,
        record s {
          stream = record (s.stream) { outgoing = s.stream.outgoing ++ sent };
          next_sequence = (s.next_sequence + 1) % 2 ^ 16;
        },
      ))
      × (send_time wait s request id bytes ≡ wait)
unfolding send transmit send_time transmit_time new_packet
send_lem wait s id bytes timely open_stream writable room =
    let e = encode_lem (new_packet s request id bytes) room in
    let short : ltb 65527 (length bytes) ≡ false = ground arith in
    let usable : not s.usable ≡ false = ground (arith, open_stream) in
    let inside : ltb s.timeouts.io_time wait ≡ false = ground (arith, timely) in
    let written =
      write_all_lem s.stream
        (encode_header (new_packet s request id bytes) (8 + length bytes) ++ bytes) writable in
    (
      encode_header (new_packet s request id bytes) (8 + length bytes) ++ bytes,
      e,
      rw (usable, short, e, transmit, written, inside) refl,
      rw (send_time, usable, short, e, transmit_time, written) (omega (arith, timely)),
    )

-- A request on a usable, writable stream, whose answer arrives behind Publish packets that the session takes;
-- the write and each read up to that of the answer end within their own deadlines, and all within that of the
-- exchange: the exchange returns that answer, has retained the packets in their order as `retain_published`
-- does, and leaves what comes after the answer in the stream.
pub exchange_unchecked-delivers :
    (ps : List IpPacket) (s : IpSession) (r : IpPacket) (body wire last more : List ℕ) (id : ℕ)
    (pace : Pace)
    → s.usable ≡ true
    → s.stream.outgoing_end ≡ none
    → length body ≤ 65527
    → All (Published s) ps
    → IsPacket r
    → length r.body ≤ s.maximum_body
    → Answers s.protocol_version s.next_sequence id r
    → encode_packets ps ≡ ok wire
    → encode r ≡ ok last
    → s.stream.incoming ≡ wire ++ (last ++ more)
    → InTime s pace (suc (length ps))
    → (t : IpSession) × (exchange_unchecked pace s id body ≡ (ok r, t))
      × (t.published ≡ (retain_all s ps).published)
      × (t.stream.incoming ≡ more)
unfolding exchange_unchecked
exchange_unchecked-delivers ps s r body wire last more id pace open_stream writable room hs h fits a
      e f front time =
    let (sent, _, gone, took) =
      send_lem pace.writing s id body time.writing open_stream writable room in
    let s1 = record s {
      stream = record (s.stream) { outgoing = s.stream.outgoing ++ sent };
      next_sequence = (s.next_sequence + 1) % 2 ^ 16;
    } in
    let answer =
      exchange_loop-delivers ps s1 r wire last more s.next_sequence id 0 pace.writing pace.reading
        open_stream (Published-All s s1 ps refl refl hs) h fits a e f front
        (record { enough = time.enough; each = time.each; whole = time.whole }) in
    let inside : ltb s.timeouts.exchange_time pace.writing ≡ false = ground (arith, time.whole) in
    (
      after s1 ps more,
      rw (exchange_unchecked, took, inside, gone, gone, took, answer) refl,
      ap (λ t. t.published) (retain_all-sent ps s s1.stream s1.next_sequence),
      refl,
    )
