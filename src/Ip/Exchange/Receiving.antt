-- ===== src/Ip/Exchange/Receiving.antt =====
-- What receiving does on the bytes of an encoded packet.
use mathlib.Core.List.{append_assoc}
use hart_link.Common.{
  ℕ, ◌+◌, ◌-◌, ◌≤◌, ◌<◌, ◌≡◌, refl, arith, ap, ◌∙◌, true, false, List, [], ◌∷◌, ◌++◌, length,
  length-append, take-append, drop-append, get_or, ltb, leb, ◌>>=◌, Result, ok,
}
use hart_link.Ip.Packet.{IpPacket, IpError, decode, encode, encode_header, from_be16}
use hart_link.Ip.Packet.Laws.{IsPacket, encode_lem, encode_inv, decode-encode_packet}
use hart_link.Ip.Stream.{Stream, read_exact}
use hart_link.Ip.Session.{IpSession, retain_published}
use hart_link.Ip.Transport.{
  got, receive_body, receive_unbounded, settle, receive, within, receive_time, read_time,
}
use hart_link.Ip.Exchange.Answers.{receive_step}

pub read_exact-append :
    (st : Stream) (xs ys : List ℕ)
    → read_exact (length xs) (record st { incoming = xs ++ ys })
      ≡ ok (xs, record st { incoming = ys })
unfolding read_exact
read_exact-append st xs ys =
    let enough : leb (length xs) (length (xs ++ ys)) ≡ true =
      rw (length-append xs ys) (ground arith) in
    rw (enough, take-append xs ys, drop-append xs ys) refl

pub receive_unbounded_lem :
    (m : ℕ) (st rest : Stream) (header : List ℕ)
    → read_exact 8 st ≡ ok (header, rest)
    → receive_unbounded m st
      ≡ receive_body m header rest (from_be16 (get_or header 6 0) (get_or header 7 0))
unfolding receive_unbounded
receive_unbounded_lem m st rest header e = rw (receive_unbounded, e) refl

pub receive_body_lem :
    (m total : ℕ) (header bytes : List ℕ) (st rest : Stream) (p : IpPacket)
    → 8 ≤ total
    → total ≤ m + 8
    → read_exact (total - 8) st ≡ ok (bytes, rest)
    → decode (header ++ bytes) m ≡ ok p
    → receive_body m header st total ≡ (got p, rest)
unfolding receive_body
receive_body_lem m total header bytes st rest p least most e d =
    let long : ltb total 8 ≡ false = ground arith in
    let within : ltb m (total - 8) ≡ false = ground arith in rw (long, within, e, d) refl

pub header_length :
    (p : IpPacket) (n : ℕ) (st : Stream) (ys : List ℕ)
    → read_exact 8 (record st { incoming = encode_header p n ++ ys })
      ≡ ok (encode_header p n, record st { incoming = ys })
unfolding encode_header
header_length p n st ys = read_exact-append st (encode_header p n) ys

pub header_total :
    (p : IpPacket) (n : ℕ)
    → n < 65536
    → from_be16 (get_or (encode_header p n) 6 0) (get_or (encode_header p n) 7 0) ≡ n
unfolding encode_header
header_total p n h = omega arith

pub receive_unbounded-encode :
    (m : ℕ) (st : Stream) (p : IpPacket) (more : List ℕ)
    → IsPacket p
    → length p.body ≤ 65527
    → length p.body ≤ m
    → receive_unbounded m
        (record st { incoming = encode_header p (8 + length p.body) ++ (p.body ++ more) })
      ≡ (got p, record st { incoming = more })
receive_unbounded-encode m st p more h room fits =
    let n = 8 + length p.body in
    let header = encode_header p n in
    let same : n - 8 ≡ length p.body = omega arith in
    let rest = read_exact-append st p.body more in
    receive_unbounded_lem m (record st { incoming = header ++ (p.body ++ more) })
      (record st { incoming = p.body ++ more }) header (header_length p n st (p.body ++ more))
    ∙ (ap (receive_body m header (record st { incoming = p.body ++ more }))
          (header_total p n (omega arith))
        ∙ receive_body_lem m n header p.body (record st { incoming = p.body ++ more })
            (record st { incoming = more }) p (omega arith) (omega arith) (rw same rest)
            (decode-encode_packet p (header ++ p.body) m h fits (encode_lem p room)))

-- The bytes of a packet at the front of the stream are received as that packet.
pub receive-encode :
    (wait : ℕ) (s : IpSession) (p : IpPacket) (bytes more : List ℕ)
    → wait ≤ s.timeouts.io_time
    → s.usable ≡ true
    → IsPacket p
    → length p.body ≤ s.maximum_body
    → encode p ≡ ok bytes
    → s.stream.incoming ≡ bytes ++ more
    → (receive wait s ≡ (ok p, record s { stream = record (s.stream) { incoming = more } }))
      × (receive_time wait s ≡ wait)
unfolding settle within receive_time read_time
receive-encode wait s p bytes more timely open_stream h fits e front =
    let (room, shape) = encode_inv p bytes e in
    let n = 8 + length p.body in
    let whole : s.stream.incoming ≡ encode_header p n ++ (p.body ++ more) =
      front ∙ (ap (λ t. t ++ more) shape ∙ append_assoc (encode_header p n) p.body more) in
    let read : receive_unbounded s.maximum_body s.stream
        ≡ (got p, record (s.stream) { incoming = more }) =
      ap (λ xs. receive_unbounded s.maximum_body (record (s.stream) { incoming = xs })) whole
      ∙ receive_unbounded-encode s.maximum_body s.stream p more h room fits in
    let inside : ltb s.timeouts.io_time wait ≡ false = ground (arith, timely) in
    (
      receive_step wait s open_stream ∙ rw (read, within, inside) refl,
      rw (receive_time, open_stream, read) (omega (arith, timely)),
    )

-- The packets in order on the wire.
unfoldable pub encode_packets : List IpPacket → Result IpError (List ℕ)
encode_packets [] = ok []
encode_packets (p ∷ ps) = do bytes ← encode p; rest ← encode_packets ps; ok (bytes ++ rest)

-- The packets retained one after another.
unfoldable pub retain_all : IpSession → List IpPacket → IpSession
retain_all s [] = s
retain_all s (p ∷ ps) = retain_all (retain_published s p) ps
