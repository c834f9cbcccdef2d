-- ===== src/Ip/Channel/Drained.antt =====
-- The bytes that a channel hands on: the bodies of the retained Publish packets, then that of the answer.
use mathlib.Core.List.{append_assoc, append-nil}
use hart_link.Common.{
  ℕ, zero, suc, ◌-◌, ◌≤◌, ◌<◌, ◌≡◌, refl, arith, ap, sym, ◌∙◌, Bool, true, false, not, none, some,
  List, [], ◌∷◌, ◌++◌, length, ◌==◌, if◌then◌else◌, Result, ok, All,
}
use hart_link.Ip.Packet.{IpPacket, IpError, encode}
use hart_link.Ip.Packet.Laws.{IsPacket}
use hart_link.Ip.Session.{IpSession, take_published}
use hart_link.Ip.Exchange.{Pace, request_in_session, exchange_unchecked}
use hart_link.Ip.Exchange.Answers.{Answers}
use hart_link.Ip.Exchange.Receiving.{encode_packets, retain_all}
use hart_link.Ip.Exchange.Publishing.{Published}
use hart_link.Ip.Exchange.Delivers.{InTime, exchange_unchecked-delivers}
use hart_link.Ip.Channel.{IpPacketChannel, drain_published, channel_send}

-- The bodies in order.
abbrev pub bodies : List IpPacket → List ℕ
bodies [] = []
bodies (p ∷ ps) = p.body ++ bodies ps

take_none : (s : IpSession) → s.published ≡ [] → take_published s ≡ (none, s)
unfolding take_published
take_none s e = ground (arith, e)

take_some :
    (s : IpSession) (p : IpPacket) (ps : List IpPacket)
    → s.published ≡ p ∷ ps
    → take_published s
      ≡ (some p, record s { published = ps; published_bytes = s.published_bytes - length p.body })
unfolding take_published
take_some s p ps e = ground (arith, e)

drain_published_lem :
    (fuel : ℕ) (s : IpSession) (ps : List IpPacket) (pending : List ℕ)
    → s.published ≡ ps
    → length ps < fuel
    → (drain_published fuel s pending).0 ≡ pending ++ bodies ps
unfolding drain_published
drain_published_lem zero s ps pending e h = absurd (omega arith)
drain_published_lem (suc fuel) s [] pending e h =
    rw (drain_published, take_none s e) (sym (append-nil pending))
drain_published_lem (suc fuel) s (p ∷ ps) pending e h =
    rw (drain_published, take_some s p ps e, take_some s p ps e)
      (drain_published_lem fuel
          (record s { published = ps; published_bytes = s.published_bytes - length p.body }) ps
          (pending ++ p.body) refl (omega arith)
        ∙ append_assoc pending p.body (bodies ps))

if_else {ℓ} :
    {A : Type ℓ} (b : Bool) (x y : A) {z : A} → b ≡ true → y ≡ z → (if not b then x else y) ≡ z
if_else true x y h e = e
if_else false x y h e = absurd (cc)

if_open :
    {answer : Result IpError IpPacket × IpSession} (pace : Pace) (c : IpPacketChannel)
    (body : List ℕ)
    → c.session.is_open ≡ true
    → exchange_unchecked pace c.session c.message_id body ≡ answer
    → request_in_session pace c.session c.message_id body ≡ answer
unfolding request_in_session
if_open pace c body is e = if_else c.session.is_open _ _ is e

channel_send_lem :
    (c : IpPacketChannel) (t : IpSession) (r : IpPacket) (ps : List IpPacket) (body : List ℕ)
    (pace : Pace)
    → c.pending ≡ []
    → request_in_session pace c.session c.message_id body ≡ (ok r, t)
    → t.published ≡ ps
    → ((channel_send pace c body).0 ≡ ok tt)
      × ((channel_send pace c body).1.pending ≡ bodies ps ++ r.body)
unfolding channel_send
channel_send_lem c t r ps body pace empty asked kept =
    let nothing : not (length c.pending == 0) ≡ false = ground (arith, empty) in
    let drained : (drain_published (suc (length t.published)) t c.pending).0 ≡ bodies ps =
      drain_published_lem (suc (length t.published)) t ps c.pending kept (rw (kept) (omega arith))
      ∙ ap (λ l. l ++ bodies ps) empty in
    rw (channel_send, nothing, asked, asked) (refl, ap (λ l. l ++ r.body) drained)

-- Sending over a channel with an open session and nothing pending, whose answer arrives behind Publish
-- packets, the write and each read up to that of the answer within their own deadlines, and all within that of
-- the exchange: the bytes then pending are the bodies of all retained packets, in their order, and the body of
-- the answer.
pub channel_send-delivers :
    (c : IpPacketChannel) (ps : List IpPacket) (r : IpPacket) (body wire last more : List ℕ)
    (pace : Pace)
    → c.pending ≡ []
    → c.session.is_open ≡ true
    → c.session.usable ≡ true
    → c.session.stream.outgoing_end ≡ none
    → length body ≤ 65527
    → All (Published c.session) ps
    → IsPacket r
    → length r.body ≤ c.session.maximum_body
    → Answers c.session.protocol_version c.session.next_sequence c.message_id r
    → encode_packets ps ≡ ok wire
    → encode r ≡ ok last
    → c.session.stream.incoming ≡ wire ++ (last ++ more)
    → InTime c.session pace (suc (length ps))
    → ((channel_send pace c body).0 ≡ ok tt)
      × ((channel_send pace c body).1.pending
          ≡ bodies (retain_all c.session ps).published ++ r.body)
channel_send-delivers c ps r body wire last more pace empty is usable writable room hs h fits a e f
      front time =
    let (t, answer, kept, _) =
      exchange_unchecked-delivers ps c.session r body wire last more c.message_id pace usable
        writable room hs h fits a e f front time in
    channel_send_lem c t r (retain_all c.session ps).published body pace empty
      (if_open pace c body is answer) kept
