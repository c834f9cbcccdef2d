-- ===== src/Ip/Exchange/Answers.antt =====
-- What an exchange answers.
use hart_link.Common.{
  ℕ, ◌≡◌, refl, arith, ap, sym, ◌∙◌, true, false, Bool-cases, inl, inr, List, Result, ok, err,
}
use hart_link.Ip.Packet.{response, IpPacket, IpError, stream_unusable}
use hart_link.Ip.Session.{IpSession, retain_published}
use hart_link.Ip.Transport.{Received, receive_unbounded, settle, receive, within}
use hart_link.Ip.Exchange.{answered, again, judge_matching, judge, exchange_loop}
use hart_link.Ip.Exchange.Ends.{exchange_loop_rule}

pub receive_step :
    (wait : ℕ) (s : IpSession)
    → s.usable ≡ true
    → receive wait s
      ≡ settle
          (record s { stream = (receive_unbounded s.maximum_body s.stream).1 })
          (within s.timeouts.io_time wait (receive_unbounded s.maximum_body s.stream).0)
unfolding receive
receive_step wait s h = rw h refl

pub receive_unusable :
    (wait : ℕ) (s : IpSession) → s.usable ≡ false → receive wait s ≡ (err stream_unusable, s)
unfolding receive
receive_unusable wait s h = rw h refl

-- An answer of the loop is a response to the request: its protocol version, number and identifier are the
-- request's, its type is Response and its status is zero.
pub record Answers (version sequence id : ℕ) (p : IpPacket) : Type 0 where
  pub same_version : p.version ≡ version
  pub same_sequence : p.sequence ≡ sequence
  pub same_id : p.message_id ≡ id
  pub is_response : p.message_type ≡ response
  pub success : p.status ≡ 0

settle-kept :
    (s : IpSession) (r : Received)
    → ((settle s r).1.protocol_version ≡ s.protocol_version)
      × ((settle s r).1.timeouts ≡ s.timeouts)
unfolding settle
settle-kept s r = ground arith

pub receive-kept :
    (wait : ℕ) (s : IpSession)
    → ((receive wait s).1.protocol_version ≡ s.protocol_version)
      × ((receive wait s).1.timeouts ≡ s.timeouts)
receive-kept wait s = elim (Bool-cases s.usable) [
  | inr broken_stream ↦ rw (receive_unusable wait s broken_stream) (refl, refl)
  | inl open_stream ↦
      rw (receive_step wait s open_stream) (
        settle-kept _
          (within s.timeouts.io_time wait (receive_unbounded s.maximum_body s.stream).0))
]

judge-Answers :
    (s u : IpSession) (p q : IpPacket) (sequence id k : ℕ)
    → judge s p sequence id k ≡ answered (ok q) u
    → Answers s.protocol_version sequence id q
unfolding judge judge_matching
judge-Answers s u p q sequence id k e = ground (arith, e)

pub judge-kept :
    (s u : IpSession) (p : IpPacket) (sequence id k more : ℕ)
    → judge s p sequence id k ≡ again more u
    → (u.protocol_version ≡ s.protocol_version) × (u.timeouts ≡ s.timeouts)
unfolding judge retain_published
judge-kept s u p sequence id k more e = ground (arith, e)

AnsweredWell : (version sequence id : ℕ) → Result IpError IpPacket → Type 0
AnsweredWell version sequence id r = (p : IpPacket) → r ≡ ok p → Answers version sequence id p

pub exchange_loop-Answers :
    (waits : List ℕ) (elapsed : ℕ) (s : IpSession) (sequence id unmatched : ℕ) (p : IpPacket)
    → (exchange_loop waits elapsed s sequence id unmatched).0 ≡ ok p
    → Answers s.protocol_version sequence id p
unfolding AnsweredWell
exchange_loop-Answers waits elapsed s sequence id unmatched p e =
    exchange_loop_rule sequence id (λ ws n t. t.protocol_version ≡ s.protocol_version)
      (λ r t. AnsweredWell s.protocol_version sequence id r) (λ n t v q f. cc)
      (λ w ws n t v over q f. cc) (λ w ws n t u x v f q g. cc)
      (λ w ws n t u y q r k v f g a h.
        rw (ap (λ o. o.1.protocol_version) (sym f) ∙ (receive-kept w t).0 ∙ v) at
          (judge-Answers u y q a sequence id k (g ∙ ap (λ r. answered r y) h)))
      (λ w ws n t u y q k more v f g.
        (judge-kept u y q sequence id k more g).0
        ∙ (ap (λ o. o.1.protocol_version) (sym f) ∙ ((receive-kept w t).0 ∙ v)))
      waits elapsed s unmatched refl p e
