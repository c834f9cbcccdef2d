-- ===== src/Ip/Session.antt =====
-- src/ip.rs: the state of a HART-IP session, its limits and the packets that it retains.
pub mod Retained
use hart_link.Common.{
  ℕ, suc, ◌+◌, ◌-◌, min, Bool, true, false, ◌||◌, Option, none, some, List, [], ◌∷◌, ◌++◌, length,
  ltb, leb, ◌==◌, if◌then◌else◌, Result, ok, err, ◌>>=◌, saturating_add,
}
use hart_link.Ip.Packet.{
  IpPacket, IpError, Deadline, io_deadline, exchange_deadline, zero_timeout, timeout_limit,
  maximum_ip_body_bytes,
}
use hart_link.Ip.Stream.{Stream}

abbrev pub protocol_version_1 : ℕ
protocol_version_1 = 1

abbrev pub maximum_ip_published_packets : ℕ
maximum_ip_published_packets = 4096

abbrev pub maximum_ip_unmatched_packets : ℕ
maximum_ip_unmatched_packets = 4096

abbrev pub default_maximum_ip_published_bytes : ℕ
default_maximum_ip_published_bytes = 1048576

abbrev pub maximum_ip_published_bytes : ℕ
maximum_ip_published_bytes = 67108864

-- 24 hours in nanoseconds; every duration is its number of nanoseconds.
abbrev pub maximum_ip_timeout : ℕ
maximum_ip_timeout = 86400000000000

pub record IpTimeouts : Type 0 where
  pub io_time : ℕ
  pub exchange_time : ℕ

unfoldable pub validate_timeouts : IpTimeouts → Result IpError (Unit {0})
validate_timeouts t =
    if (t.io_time == 0) || (t.exchange_time == 0)
    then err zero_timeout
    else if ltb maximum_ip_timeout t.io_time
    then err (timeout_limit io_deadline)
    else if ltb maximum_ip_timeout t.exchange_time
    then err (timeout_limit exchange_deadline)
    else ok tt

pub record IpSession : Type 0 where
  pub stream : Stream
  pub next_sequence : ℕ
  pub maximum_body : ℕ
  pub protocol_version : ℕ
  pub is_open : Bool
  pub published : List IpPacket
  pub published_bytes : ℕ
  pub maximum_published : ℕ
  pub maximum_published_bytes : ℕ
  pub maximum_unmatched : ℕ
  pub timeouts : IpTimeouts
  pub published_dropped : ℕ
  pub unmatched_skipped : ℕ
  pub usable : Bool

unfoldable pub new_session : Stream → IpSession
new_session s = record {
  stream = s;
  next_sequence = 1;
  maximum_body = 8192;
  protocol_version = protocol_version_1;
  is_open = false;
  published = [];
  published_bytes = 0;
  maximum_published = 128;
  maximum_published_bytes = default_maximum_ip_published_bytes;
  maximum_unmatched = 16;
  timeouts = record { io_time = 10000000000; exchange_time = 30000000000 };
  published_dropped = 0;
  unmatched_skipped = 0;
  usable = true;
}

unfoldable pub with_maximum_body : IpSession → ℕ → IpSession
with_maximum_body s limit = record s {
  maximum_body = if ltb maximum_ip_body_bytes limit then maximum_ip_body_bytes else limit;
}

unfoldable pub with_maximum_unmatched : IpSession → ℕ → IpSession
with_maximum_unmatched s limit = record s {
  maximum_unmatched =
      if ltb maximum_ip_unmatched_packets limit then maximum_ip_unmatched_packets else limit;
}

unfoldable pub with_timeouts : IpSession → IpTimeouts → Result IpError IpSession
unfolding validate_timeouts
with_timeouts s t = do u ← validate_timeouts t; ok (record s { timeouts = t })

-- The packets that a `while` loop leaves, the bytes they are counted with, and the packets dropped so far.
pub record Kept : Type 0 where
  pub packets : List IpPacket
  pub held : ℕ
  pub dropped : ℕ

-- The loop of `retain_published`: room for one more packet of `bytes` bytes.
unfoldable pub make_room : (most most_bytes bytes : ℕ) → List IpPacket → (held dropped : ℕ) → Kept
make_room most most_bytes bytes [] held dropped = record {
  packets = [];
  held = held;
  dropped = dropped;
}
make_room most most_bytes bytes (p ∷ ps) held dropped =
    elim (leb most (suc (length ps)) || ltb most_bytes (saturating_add held bytes)) [
      | true ↦ make_room most most_bytes bytes ps (held - length p.body) (saturating_add dropped 1)
      | false ↦ record { packets = p ∷ ps; held = held; dropped = dropped }
    ]

unfoldable pub retain_published : IpSession → IpPacket → IpSession
unfolding make_room
retain_published s packet =
    let bytes = length packet.body in
    if (s.maximum_published == 0)
      || ((s.maximum_published_bytes == 0) || ltb s.maximum_published_bytes bytes)
    then record s { published_dropped = saturating_add s.published_dropped 1 }
    else (let k =
          make_room s.maximum_published s.maximum_published_bytes bytes s.published
            s.published_bytes s.published_dropped in
        record s {
          published = k.packets ++ packet ∷ [];
          published_bytes = saturating_add k.held bytes;
          published_dropped = k.dropped;
        })

-- The loop of `enforce_published_limits`.
unfoldable pub shrink : (most most_bytes : ℕ) → List IpPacket → (held dropped : ℕ) → Kept
shrink most most_bytes [] held dropped =
    if ltb most 0 || ltb most_bytes held
    then record { packets = []; held = 0; dropped = dropped }
    else record { packets = []; held = held; dropped = dropped }
shrink most most_bytes (p ∷ ps) held dropped =
    elim (ltb most (suc (length ps)) || ltb most_bytes held) [
      | true ↦ shrink most most_bytes ps (held - length p.body) (saturating_add dropped 1)
      | false ↦ record { packets = p ∷ ps; held = held; dropped = dropped }
    ]

unfoldable pub enforce_published_limits : IpSession → IpSession
unfolding shrink
enforce_published_limits s =
    let k =
      shrink s.maximum_published s.maximum_published_bytes s.published s.published_bytes
        s.published_dropped in
    record s { published = k.packets; published_bytes = k.held; published_dropped = k.dropped }

unfoldable pub with_maximum_published : IpSession → ℕ → IpSession
unfolding enforce_published_limits
with_maximum_published s limit =
    enforce_published_limits
      (record s { maximum_published = min limit maximum_ip_published_packets })

unfoldable pub with_maximum_published_bytes : IpSession → ℕ → IpSession
unfolding enforce_published_limits
with_maximum_published_bytes s limit =
    enforce_published_limits
      (record s { maximum_published_bytes = min limit maximum_ip_published_bytes })

unfoldable pub take_published : IpSession → Option IpPacket × IpSession
take_published s = elim s.published [
  | [] ↦ (none, s)
  | p ∷ ps ↦
      (some p, record s { published = ps; published_bytes = s.published_bytes - length p.body })
]
