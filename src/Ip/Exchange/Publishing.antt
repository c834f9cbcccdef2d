-- ===== src/Ip/Exchange/Publishing.antt =====
-- What an exchange makes of a Publish packet, and of a response.
use hart_link.Common.{
  ℕ, ◌≤◌, ◌≡◌, refl, arith, ap, sym, ◌∙◌, false, not, List, [], ◌∷◌, ◌++◌, length, ltb, ◌||◌,
  Bool-cases, inl, inr, ◌==◌, ok, ok_inj, bind_inv, All,
}
use hart_link.Ip.Packet.{publish, IpPacket, encode}
use hart_link.Ip.Packet.Laws.{IsPacket}
use hart_link.Ip.Stream.{Stream}
use hart_link.Ip.Session.{IpSession, retain_published}
use hart_link.Ip.Exchange.{answered, again, judge_matching, judge}
use hart_link.Ip.Exchange.Answers.{Answers}
use hart_link.Ip.Exchange.Receiving.{encode_packets, retain_all}

-- A Publish packet that this session takes.
pub record Published (s : IpSession) (p : IpPacket) : Type 0 where
  pub is_packet : IsPacket p
  pub fits : length p.body ≤ s.maximum_body
  pub same_version : p.version ≡ s.protocol_version
  pub kind : p.message_type ≡ publish

pub retain_published-stream :
    (s : IpSession) (p : IpPacket) (st : Stream)
    → retain_published (record s { stream = st }) p ≡ record (retain_published s p) { stream = st }
unfolding retain_published
retain_published-stream s p st =
    elim (Bool-cases (
      (s.maximum_published == 0)
      || ((s.maximum_published_bytes == 0) || ltb s.maximum_published_bytes (length p.body)))) [
        | inl refused ↦ rw (retain_published, refused) refl
        | inr taken ↦ rw (retain_published, taken) refl
      ]

pub retain_all-stream :
    (ps : List IpPacket) (s : IpSession) (st : Stream)
    → retain_all (record s { stream = st }) ps ≡ record (retain_all s ps) { stream = st }
unfolding retain_all
retain_all-stream [] s st = refl
retain_all-stream (p ∷ ps) s st =
    ap (λ t. retain_all t ps) (retain_published-stream s p st)
    ∙ retain_all-stream ps (retain_published s p) st

pub encode_packets_inv :
    (p : IpPacket) (ps : List IpPacket) (wire : List ℕ)
    → encode_packets (p ∷ ps) ≡ ok wire
    → (bytes : List ℕ) × (rest : List ℕ) × (encode p ≡ ok bytes)
      × (encode_packets ps ≡ ok rest)
      × (wire ≡ bytes ++ rest)
unfolding encode_packets
encode_packets_inv p ps wire e =
    let (bytes, front, later) = bind_inv (encode p) _ wire e in
    let (rest, back, last) = bind_inv (encode_packets ps) _ wire later in
    (bytes, rest, front, back, sym (ok_inj last))

pub judge-publish :
    (s : IpSession) (p : IpPacket) (sequence id k : ℕ)
    → Published s p
    → judge s p sequence id k ≡ again k (retain_published s p)
unfolding judge
judge-publish s p sequence id k v =
    let version : not (p.version == s.protocol_version) ≡ false = ground (arith, v.same_version) in
    rw (version, v.kind) refl

pub judge-response :
    (s : IpSession) (p : IpPacket) (sequence id k : ℕ)
    → Answers s.protocol_version sequence id p
    → judge s p sequence id k ≡ answered (ok p) s
unfolding judge judge_matching
judge-response s p sequence id k v =
    let version : not (p.version == s.protocol_version) ≡ false = ground (arith, v.same_version) in
    let own : (not (p.sequence == sequence) || not (p.message_id == id)) ≡ false =
      ground (arith, v.same_sequence, v.same_id) in
    let good : not (p.status == 0) ≡ false = ground (arith, v.success) in
    rw (version, own, v.is_response, good) refl

pub retain_published-kept :
    (s : IpSession) (p : IpPacket)
    → ((retain_published s p).usable ≡ s.usable)
      × ((retain_published s p).maximum_body ≡ s.maximum_body)
      × ((retain_published s p).protocol_version ≡ s.protocol_version)
      × ((retain_published s p).timeouts ≡ s.timeouts)
unfolding retain_published
retain_published-kept s p = ground arith

pub Published-All :
    (s t : IpSession) (ps : List IpPacket)
    → t.maximum_body ≡ s.maximum_body
    → t.protocol_version ≡ s.protocol_version
    → All (Published s) ps
    → All (Published t) ps
Published-All s t [] b v h = tt
Published-All s t (p ∷ ps) b v (hp, hs) = (
  record {
    is_packet = hp.is_packet;
    fits = rw b hp.fits;
    same_version = hp.same_version ∙ sym v;
    kind = hp.kind;
  },
  Published-All s t ps b v hs,
)

retain_published-sent :
    (s : IpSession) (p : IpPacket) (st : Stream) (n : ℕ)
    → retain_published (record s { stream = st; next_sequence = n }) p
      ≡ record (retain_published s p) { stream = st; next_sequence = n }
unfolding retain_published
retain_published-sent s p st n =
    elim (Bool-cases (
      (s.maximum_published == 0)
      || ((s.maximum_published_bytes == 0) || ltb s.maximum_published_bytes (length p.body)))) [
        | inl refused ↦ rw (retain_published, refused) refl
        | inr taken ↦ rw (retain_published, taken) refl
      ]

-- What is retained depends neither on the stream nor on the next number.
pub retain_all-sent :
    (ps : List IpPacket) (s : IpSession) (st : Stream) (n : ℕ)
    → retain_all (record s { stream = st; next_sequence = n }) ps
      ≡ record (retain_all s ps) { stream = st; next_sequence = n }
unfolding retain_all
retain_all-sent [] s st n = refl
retain_all-sent (p ∷ ps) s st n =
    ap (λ t. retain_all t ps) (retain_published-sent s p st n)
    ∙ retain_all-sent ps (retain_published s p) st n
