-- ===== src/Ip/Exchange/Ends.antt =====
-- An exchange keeps the session's limits, and ends by an answer or an error of its own.
use hart_link.Common.{
  ℕ, ◌+◌, ◌<◌, ltb, [], ◌∷◌, if◌then◌else◌, ◌≡◌, refl, arith, ap, sym, subst, ◌∙◌, not, Bool-cases,
  inl, inr, List, Result, ok, err,
}
use hart_link.Ip.Packet.{MessageType, IpPacket, IpError, expired, exchange_deadline}
use hart_link.Ip.Session.{IpSession}
use hart_link.Ip.Session.Retained.{IsSession, body_bytes, retain_published-IsSession}
use hart_link.Ip.Transport.{
  transmit, send, Received, receive_unbounded, settle, receive, within, receive_time,
}
use hart_link.Ip.Exchange.{
  Judged, answered, again, judge, if_received, if_again, exchange_loop, first_deadline, cut_short,
}

-- A step that touches neither the retained packets nor their limits keeps the session's invariant.
pub record Untouched (s t : IpSession) : Type 0 where
  pub packets : t.published ≡ s.published
  pub held : t.published_bytes ≡ s.published_bytes
  pub most : t.maximum_published ≡ s.maximum_published
  pub most_bytes : t.maximum_published_bytes ≡ s.maximum_published_bytes

pub Untouched-IsSession : (s t : IpSession) → Untouched s t → IsSession s → IsSession t
Untouched-IsSession s t u v = record {
  counted = u.held ∙ v.counted ∙ sym (ap body_bytes u.packets);
  few = rw (u.packets, u.most) v.few;
  small = rw (u.held, u.most_bytes) v.small;
  packet_limit = rw u.most v.packet_limit;
  byte_limit = rw u.most_bytes v.byte_limit;
}

pub send-Untouched :
    (wait : ℕ) (s : IpSession) (kind : MessageType) (id : ℕ) (bytes : List ℕ)
    → Untouched s (send wait s kind id bytes).1
unfolding send transmit
send-Untouched wait s kind id bytes = ground arith

settle-Untouched : (s : IpSession) (r : Received) → Untouched s (settle s r).1
unfolding settle
settle-Untouched s r = ground arith

receive-Untouched : (wait : ℕ) (s : IpSession) → Untouched s (receive wait s).1
unfolding receive
receive-Untouched wait s = elim (Bool-cases (not s.usable)) [
  | inl broken_stream ↦
      rw (receive, broken_stream)
        (record { packets = refl; held = refl; most = refl; most_bytes = refl })
  | inr open_stream ↦
      let read =
        settle-Untouched (record s { stream = (receive_unbounded s.maximum_body s.stream).1 })
          (within s.timeouts.io_time wait (receive_unbounded s.maximum_body s.stream).0) in
      rw (receive, open_stream)
        (record {
          packets = read.packets;
          held = read.held;
          most = read.most;
          most_bytes = read.most_bytes;
        })
]

-- The session after a round.
abbrev judged_session : Judged → IpSession
judged_session (answered r s) = s
judged_session (again n s) = s

judge-IsSession :
    (s : IpSession) (p : IpPacket) (sequence id unmatched : ℕ)
    → IsSession s
    → IsSession (judged_session (judge s p sequence id unmatched))
unfolding judge
judge-IsSession s p sequence id unmatched v = ground (arith, v, retain_published-IsSession s p v)

-- A postcondition of the loop: from an invariant that each round keeps, by every exit.
module _ (sequence id : ℕ) (Inv : List ℕ → ℕ → IpSession → Type 0)
    (Post : Result IpError IpPacket → IpSession → Type 0)
    (silent : (elapsed : ℕ) (s : IpSession)
      → Inv [] elapsed s
      → Post (err (first_deadline s elapsed)) (cut_short s))
    (late : (wait : ℕ) (waits : List ℕ) (elapsed : ℕ) (s : IpSession)
      → Inv (wait ∷ waits) elapsed s
      → s.timeouts.exchange_time < elapsed + receive_time wait s
      → Post (err (expired exchange_deadline)) (cut_short s))
    (unread : (wait : ℕ) (waits : List ℕ) (elapsed : ℕ) (s t : IpSession) (e : IpError)
      → Inv (wait ∷ waits) elapsed s
      → receive wait s ≡ (err e, t)
      → Post (err e) t)
    (exit : (wait : ℕ) (waits : List ℕ) (elapsed : ℕ) (s t u : IpSession) (p : IpPacket)
        (r : Result IpError IpPacket) (unmatched : ℕ)
      → Inv (wait ∷ waits) elapsed s
      → receive wait s ≡ (ok p, t)
      → judge t p sequence id unmatched ≡ answered r u
      → Post r u)
    (round : (wait : ℕ) (waits : List ℕ) (elapsed : ℕ) (s t u : IpSession) (p : IpPacket)
        (unmatched more : ℕ)
      → Inv (wait ∷ waits) elapsed s
      → receive wait s ≡ (ok p, t)
      → judge t p sequence id unmatched ≡ again more u
      → Inv waits (elapsed + receive_time wait s) u) where
  abbrev Holds : Result IpError IpPacket × IpSession → Type 0
  Holds o = Post o.0 o.1

  -- What the loop does with the session and the time that a round leaves.
  abbrev Later : List ℕ → ℕ → Type 0
  Later waits elapsed =
      (more : ℕ) (u : IpSession)
      → Inv waits elapsed u
      → Holds (exchange_loop waits elapsed u sequence id more)

  judged_rule :
      (wait : ℕ) (waits : List ℕ) (elapsed : ℕ) (s t : IpSession) (p : IpPacket) (unmatched : ℕ)
      → Inv (wait ∷ waits) elapsed s
      → receive wait s ≡ (ok p, t)
      → Later waits (elapsed + receive_time wait s)
      → (j : Judged) → judge t p sequence id unmatched ≡ j
      → Holds
          (if_again (λ k u. exchange_loop waits (elapsed + receive_time wait s) u sequence id k) j)
  judged_rule wait waits elapsed s t p unmatched h e later (answered r u) f =
      exit wait waits elapsed s t u p r unmatched h e f
  judged_rule wait waits elapsed s t p unmatched h e later (again more u) f =
      later more u (round wait waits elapsed s t u p unmatched more h e f)

  received_rule :
      (wait : ℕ) (waits : List ℕ) (elapsed : ℕ) (s : IpSession) (unmatched : ℕ)
      → Inv (wait ∷ waits) elapsed s
      → Later waits (elapsed + receive_time wait s)
      → (r : Result IpError IpPacket × IpSession) → receive wait s ≡ r
      → Holds (
          if_received
            (λ t p.
              if_again
                (λ k u. exchange_loop waits (elapsed + receive_time wait s) u sequence id k)
                (judge t p sequence id unmatched))
            r)
  received_rule wait waits elapsed s unmatched h later (err e, t) f =
      unread wait waits elapsed s t e h f
  received_rule wait waits elapsed s unmatched h later (ok p, t) f =
      judged_rule wait waits elapsed s t p unmatched h f later (judge t p sequence id unmatched)
        refl

  timed_rule :
      (o : Result IpError IpPacket × IpSession) (limit ended : ℕ) (s : IpSession)
      → (limit < ended → Post (err (expired exchange_deadline)) (cut_short s))
      → Holds o
      → Holds (if ltb limit ended then (err (expired exchange_deadline), cut_short s) else o)
  timed_rule o limit ended s cut holds = elim (Bool-cases (ltb limit ended)) [
    | inl over ↦ rw over (cut (ground (arith, over)))
    | inr inside ↦ rw inside holds
  ]

  pub exchange_loop_rule :
      (waits : List ℕ) (elapsed : ℕ) (s : IpSession) (unmatched : ℕ)
      → Inv waits elapsed s
      → Holds (exchange_loop waits elapsed s sequence id unmatched)
  unfolding exchange_loop
  exchange_loop_rule [] elapsed s unmatched h = silent elapsed s h
  exchange_loop_rule (wait ∷ waits) elapsed s unmatched h =
      timed_rule _ s.timeouts.exchange_time (elapsed + receive_time wait s) s
        (late wait waits elapsed s h)
        (received_rule wait waits elapsed s unmatched h
          (λ more u k. exchange_loop_rule waits (elapsed + receive_time wait s) u more k)
          (receive wait s) refl)

pub cut_short-IsSession : (s : IpSession) → IsSession s → IsSession (cut_short s)
cut_short-IsSession s v = record {
  counted = v.counted;
  few = v.few;
  small = v.small;
  packet_limit = v.packet_limit;
  byte_limit = v.byte_limit;
}

-- Whatever arrives, and however long it takes, an exchange keeps the retained packets within their limits and
-- their bytes counted.
pub exchange_loop-IsSession :
    (waits : List ℕ) (elapsed : ℕ) (s : IpSession) (sequence id unmatched : ℕ)
    → IsSession s
    → IsSession (exchange_loop waits elapsed s sequence id unmatched).1
exchange_loop-IsSession waits elapsed s sequence id unmatched v =
    exchange_loop_rule sequence id (λ ws n s. IsSession s) (λ r s. IsSession s)
      (λ n s v. cut_short-IsSession s v) (λ w ws n s v over. cut_short-IsSession s v)
      (λ w ws n s t e v f. received_IsSession w s t (err e) v f)
      (λ w ws n s t u p r k v f g.
        judged_IsSession t p sequence id k (answered r u) g (received_IsSession w s t (ok p) v f))
      (λ w ws n s t u p k more v f g.
        judged_IsSession t p sequence id k (again more u) g (received_IsSession w s t (ok p) v f))
      waits elapsed s unmatched v
  where
    received_IsSession :
        (wait : ℕ) (s t : IpSession) (r : Result IpError IpPacket)
        → IsSession s
        → receive wait s ≡ (r, t)
        → IsSession t
    received_IsSession wait s t r v f =
        subst IsSession (ap (λ o. o.1) f)
          (Untouched-IsSession s (receive wait s).1 (receive-Untouched wait s) v)

    judged_IsSession :
        (t : IpSession) (p : IpPacket) (sequence id k : ℕ) (j : Judged)
        → judge t p sequence id k ≡ j
        → IsSession t
        → IsSession (judged_session j)
    judged_IsSession t p sequence id k j g v =
        subst (λ j. IsSession (judged_session j)) g (judge-IsSession t p sequence id k v)
