-- ===== src/Ip/Exchange/Early.antt =====
-- When the deadline of an exchange is long enough for it not to be what ends the exchange.
use hart_link.Common.{
  ℕ, ◌+◌, ◌-◌, ◌≤◌, ◌≡◌, ◌≢◌, refl, arith, ap, sym, ◌∙◌, Bool-cases, inl, inr, List, [], ◌∷◌, ◌++◌,
  take, drop, get_or, Result, ok, err, ltb,
}
use hart_link.Ip.Packet.{
  IpPacket, IpError, expired, exchange_deadline, decode, from_be16, type_from,
}
use hart_link.Ip.Stream.{Stream, read_exact}
use hart_link.Ip.Session.{IpSession}
use hart_link.Ip.Transport.{
  Received, got, failed, stuck, receive_body, receive_unbounded, settle, receive, within, read_time,
  receive_time,
}
use hart_link.Ip.Exchange.{answered, judge_matching, judge, exchange_loop, first_deadline}
use hart_link.Ip.Exchange.Ends.{exchange_loop_rule}
use hart_link.Ip.Exchange.Answers.{receive_step, receive_unusable, receive-kept, judge-kept}

-- The sum of times.
abbrev pub total_time : List ℕ → ℕ
total_time [] = 0
total_time (w ∷ ws) = w + total_time ws

decode-early : (bytes : List ℕ) (m : ℕ) → decode bytes m ≢ err (expired exchange_deadline)
unfolding decode type_from
decode-early bytes m e = ground (arith, e)

receive_body-early :
    (m : ℕ) (header : List ℕ) (st : Stream) (total : ℕ)
    → (receive_body m header st total).0 ≢ failed (expired exchange_deadline)
unfolding receive_body read_exact
receive_body-early m header st total e =
    ground (arith, e, decode-early (header ++ take (total - 8) st.incoming) m)

receive_unbounded-early :
    (m : ℕ) (st : Stream) → (receive_unbounded m st).0 ≢ failed (expired exchange_deadline)
unfolding receive_unbounded read_exact
receive_unbounded-early m st e =
    let header = take 8 st.incoming in
    let rest = record st { incoming = drop 8 st.incoming } in
    let total = from_be16 (get_or header 6 0) (get_or header 7 0) in
    ground (arith, e, receive_body-early m header rest total)

settle-early :
    (s t : IpSession) (r : Received)
    → settle s r ≡ (err (expired exchange_deadline), t)
    → r ≡ failed (expired exchange_deadline)
unfolding settle
settle-early s t (got q) e = absurd (ground (arith, e))
settle-early s t (failed x) e = ground (arith, e)
settle-early s t stuck e = absurd (ground (arith, e))

within-early :
    (limit wait : ℕ) (r : Received)
    → r ≢ failed (expired exchange_deadline)
    → within limit wait r ≢ failed (expired exchange_deadline)
unfolding within
within-early limit wait r h e = elim (Bool-cases (ltb limit wait)) [
  | inl late ↦ ground (arith, e, late)
  | inr timely ↦ h (rw (within, timely) at e)
]

receive-early : (wait : ℕ) (s t : IpSession) → receive wait s ≢ (err (expired exchange_deadline), t)
receive-early wait s t e = elim (Bool-cases s.usable) [
  | inr broken_stream ↦ ground (arith, e, receive_unusable wait s broken_stream)
  | inl open_stream ↦
      within-early s.timeouts.io_time wait (receive_unbounded s.maximum_body s.stream).0
        (receive_unbounded-early s.maximum_body s.stream)
        (settle-early _ t _ (sym (receive_step wait s open_stream) ∙ e))
]

judge-early :
    (s u : IpSession) (p : IpPacket) (sequence id k : ℕ)
    → judge s p sequence id k ≢ answered (err (expired exchange_deadline)) u
unfolding judge judge_matching
judge-early s u p sequence id k e = ground (arith, e)

read_time-bound :
    (limit wait : ℕ) (r : Received)
    → (read_time limit wait r ≤ limit) × ((r ≢ stuck) → read_time limit wait r ≤ wait)
unfolding read_time
read_time-bound limit wait (got p) = (omega arith, λ h. omega arith)
read_time-bound limit wait (failed e) = (omega arith, λ h. omega arith)
read_time-bound limit wait stuck = (omega arith, λ h. absurd (h refl))

receive_time-limit : (wait : ℕ) (s : IpSession) → receive_time wait s ≤ s.timeouts.io_time
unfolding receive_time
receive_time-limit wait s =
    ground
      (arith, read_time-bound s.timeouts.io_time wait (receive_unbounded s.maximum_body s.stream).0)

settle-ok : (s t : IpSession) (r : Received) (p : IpPacket) → settle s r ≡ (ok p, t) → r ≢ stuck
unfolding settle
settle-ok s t (got q) p e f = ground (arith, f)
settle-ok s t (failed x) p e f = ground (arith, e)
settle-ok s t stuck p e f = ground (arith, e)

within-ok : (limit wait : ℕ) (r : Received) → within limit wait r ≢ stuck → r ≢ stuck
unfolding within
within-ok limit wait r h f = elim (Bool-cases (ltb limit wait)) [
  | inl late ↦ h (rw (within, late) refl)
  | inr timely ↦ h (rw (within, timely) f)
]

-- A packet that arrives takes no longer than its wait.
receive_time-ok :
    (wait : ℕ) (s t : IpSession) (p : IpPacket)
    → receive wait s ≡ (ok p, t)
    → receive_time wait s ≤ wait
unfolding receive_time
receive_time-ok wait s t p e = elim (Bool-cases s.usable) [
  | inr broken_stream ↦ absurd (ground (arith, e, receive_unusable wait s broken_stream))
  | inl open_stream ↦
      let r = (receive_unbounded s.maximum_body s.stream).0 in
      let read =
        settle-ok _ t (within s.timeouts.io_time wait r) p
          (sym (receive_step wait s open_stream) ∙ e) in
      rw (receive_time, open_stream)
        ((read_time-bound s.timeouts.io_time wait r).1 (within-ok s.timeouts.io_time wait r read))
]

first_deadline-early :
    (s : IpSession) (elapsed : ℕ)
    → elapsed + s.timeouts.io_time ≤ s.timeouts.exchange_time
    → first_deadline s elapsed ≢ expired exchange_deadline
unfolding first_deadline
first_deadline-early s elapsed h e = ground (arith, e, h)

-- The time left at a point of an exchange is enough for the waits to come and one more.
record Spare (io_limit exchange_limit : ℕ) (waits : List ℕ) (elapsed : ℕ) (s : IpSession)
    : Type 0 where
  same_io : s.timeouts.io_time ≡ io_limit
  same_exchange : s.timeouts.exchange_time ≡ exchange_limit
  enough : elapsed + total_time waits + io_limit ≤ exchange_limit

err_inj : {x y : IpError} → ◌≡◌ {A = Result IpError IpPacket} (err x) (err y) → x ≡ y
err_inj e = cc

pub exchange_loop-early :
    (waits : List ℕ) (elapsed : ℕ) (s : IpSession) (sequence id unmatched : ℕ)
    → elapsed + total_time waits + s.timeouts.io_time ≤ s.timeouts.exchange_time
    → (exchange_loop waits elapsed s sequence id unmatched).0 ≢ err (expired exchange_deadline)
exchange_loop-early waits elapsed s sequence id unmatched h =
    exchange_loop_rule sequence id (Spare s.timeouts.io_time s.timeouts.exchange_time)
      (λ r t. r ≢ err (expired exchange_deadline))
      (λ n t v e.
        first_deadline-early t n (omega (arith, v.same_io, v.same_exchange, v.enough)) (err_inj e))
      (λ w ws n t v over e.
        omega (arith, v.same_io, v.same_exchange, v.enough, receive_time-limit w t))
      (λ w ws n t u x v f g. receive-early w t u (f ∙ ap (λ r. (r, u)) g))
      (λ w ws n t u y p r k v f g e. judge-early u y p sequence id k (g ∙ ap (λ r. answered r y) e))
      (λ w ws n t u y p k more v f g.
        let (_, kept) = judge-kept u y p sequence id k more g in
        let same : y.timeouts ≡ t.timeouts =
          kept ∙ (ap (λ o. o.1.timeouts) (sym f) ∙ (receive-kept w t).1) in
        record {
          same_io = ap (λ x. x.io_time) same ∙ v.same_io;
          same_exchange = ap (λ x. x.exchange_time) same ∙ v.same_exchange;
          enough = omega (arith, v.enough, receive_time-ok w t u p f);
        })
      waits elapsed s unmatched (record { same_io = refl; same_exchange = refl; enough = h })
