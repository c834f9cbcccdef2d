-- ===== src/Ip/Session/Retained.antt =====
-- The retained packets stay within their two limits, and their bytes are counted right.
use hart_link.Common.{
  ℕ, suc, ◌+◌, ◌-◌, ◌≤◌, ◌<◌, ◌≡◌, arith, min, Bool-cases, inl, inr, List, [], ◌∷◌, ◌++◌, length,
  length-append, ltb, leb, ◌||◌, ◌==◌, saturating_add,
}
use hart_link.Ip.Packet.{IpPacket}
use hart_link.Ip.Stream.{Stream}
use hart_link.Ip.Session.{
  IpSession, make_room, retain_published, shrink, enforce_published_limits, take_published,
  new_session, with_maximum_published, with_maximum_published_bytes, maximum_ip_published_packets,
  maximum_ip_published_bytes,
}

-- The body bytes of packets.
abbrev pub body_bytes : List IpPacket → ℕ
body_bytes [] = 0
body_bytes (p ∷ ps) = length p.body + body_bytes ps

pub record IsSession (s : IpSession) : Type 0 where
  pub counted : s.published_bytes ≡ body_bytes s.published
  pub few : length s.published ≤ s.maximum_published
  pub small : s.published_bytes ≤ s.maximum_published_bytes
  pub packet_limit : s.maximum_published ≤ maximum_ip_published_packets
  pub byte_limit : s.maximum_published_bytes ≤ maximum_ip_published_bytes

pub new_session-IsSession : (st : Stream) → IsSession (new_session st)
unfolding new_session
new_session-IsSession st = omega arith

body_bytes-append : (ps qs : List IpPacket) → body_bytes (ps ++ qs) ≡ body_bytes ps + body_bytes qs
body_bytes-append [] qs = omega arith
body_bytes-append (p ∷ ps) qs = omega (arith, body_bytes-append ps qs)

make_room_lem :
    (most most_bytes bytes : ℕ) (ps : List IpPacket) (held dropped : ℕ)
    → held ≡ body_bytes ps
    → held ≤ 67108864
    → bytes ≤ most_bytes
    → 0 < most
    → most_bytes ≤ 67108864
    → (let k = make_room most most_bytes bytes ps held dropped in
        (k.held ≡ body_bytes k.packets) × (length k.packets < most) × (k.held + bytes ≤ most_bytes))
unfolding make_room
make_room_lem most most_bytes bytes [] held dropped e le fits pos bound = omega arith
make_room_lem most most_bytes bytes (p ∷ ps) held dropped e le fits pos bound =
    elim (Bool-cases (leb most (suc (length ps)) || ltb most_bytes (saturating_add held bytes))) [
      | inl full ↦
          rw (make_room, full)
            (make_room_lem most most_bytes bytes ps (held - length p.body)
              (saturating_add dropped 1) (omega (arith, e)) (omega arith) fits pos bound)
      | inr room ↦ rw (make_room, room) (e, ground (arith, room), ground (arith, room))
    ]

shrink_lem :
    (most most_bytes : ℕ) (ps : List IpPacket) (held dropped : ℕ)
    → held ≡ body_bytes ps
    → (let k = shrink most most_bytes ps held dropped in
        (k.held ≡ body_bytes k.packets) × (length k.packets ≤ most) × (k.held ≤ most_bytes))
unfolding shrink
shrink_lem most most_bytes [] held dropped e = ground arith
shrink_lem most most_bytes (p ∷ ps) held dropped e =
    elim (Bool-cases (ltb most (suc (length ps)) || ltb most_bytes held)) [
      | inl full ↦
          rw (shrink, full)
            (shrink_lem most most_bytes ps (held - length p.body) (saturating_add dropped 1)
              (omega (arith, e)))
      | inr room ↦ rw (shrink, room) (e, ground (arith, room), ground (arith, room))
    ]

-- Retaining a Publish packet, dropping it, or evicting older ones for it keeps the session within its
-- limits, with its bytes counted right.
pub retain_published-IsSession :
    (s : IpSession) (p : IpPacket) → IsSession s → IsSession (retain_published s p)
unfolding retain_published
retain_published-IsSession s p v =
    let k =
      make_room s.maximum_published s.maximum_published_bytes (length p.body) s.published
        s.published_bytes s.published_dropped in
    elim (Bool-cases (
      (s.maximum_published == 0)
      || ((s.maximum_published_bytes == 0) || ltb s.maximum_published_bytes (length p.body)))) [
        | inl refused ↦
            rw (retain_published, refused)
              (record {
                counted = v.counted;
                few = v.few;
                small = v.small;
                packet_limit = v.packet_limit;
                byte_limit = v.byte_limit;
              })
        | inr taken ↦
            let (a, b, c) =
              make_room_lem s.maximum_published s.maximum_published_bytes (length p.body)
                s.published s.published_bytes s.published_dropped v.counted
                (omega (arith, v.small, v.byte_limit)) (ground (arith, taken))
                (ground (arith, taken)) v.byte_limit in
            rw (retain_published, taken)
              (record {
                counted = omega (arith, a, c, v.byte_limit, body_bytes-append k.packets (p ∷ []));
                few = omega (arith, b, length-append k.packets (p ∷ []));
                small = omega (arith, c);
                packet_limit = v.packet_limit;
                byte_limit = v.byte_limit;
              })
      ]

-- A smaller limit evicts the oldest packets until both limits hold.
pub with_maximum_published-IsSession :
    (s : IpSession) (n : ℕ) → IsSession s → IsSession (with_maximum_published s n)
unfolding with_maximum_published enforce_published_limits
with_maximum_published-IsSession s n v =
    let (a, b, c) =
      shrink_lem (min n 4096) s.maximum_published_bytes s.published s.published_bytes
        s.published_dropped v.counted in
    record {
      counted = a;
      few = b;
      small = c;
      packet_limit = omega arith;
      byte_limit = v.byte_limit;
    }

pub with_maximum_published_bytes-IsSession :
    (s : IpSession) (n : ℕ) → IsSession s → IsSession (with_maximum_published_bytes s n)
unfolding with_maximum_published_bytes enforce_published_limits
with_maximum_published_bytes-IsSession s n v =
    let (a, b, c) =
      shrink_lem s.maximum_published (min n 67108864) s.published s.published_bytes
        s.published_dropped v.counted in
    record {
      counted = a;
      few = b;
      small = c;
      packet_limit = v.packet_limit;
      byte_limit = omega arith;
    }

pub take_published-IsSession : (s : IpSession) → IsSession s → IsSession (take_published s).1
unfolding take_published
take_published-IsSession s v = ground (arith, v)
