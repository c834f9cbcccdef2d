-- ===== src/Ip/Stream.antt =====
-- The asynchronous stream under a HART-IP session, as far as src/ip.rs relies on it: `read_exact` gives exactly
-- the bytes asked for when they arrive, and fails or waits for ever when the stream ends before; `write_all`
-- takes the bytes, fails, or waits for ever. A read that fails leaves a session that never reads again, so
-- what it has consumed is not kept.
pub mod Discard
use hart_link.Common.{
  ℕ, suc, zero, ◌-◌, ◌≤◌, ◌<◌, ◌≡◌, refl, arith, min, Bool, true, false, Option, none, some, List,
  [], ◌∷◌, ◌++◌, length, length-drop, take, drop, leb, ltb, ◌==◌, if◌then◌else◌, Result, ok, err,
}

pub data StreamEnd : Type 0 where
  closed stalled : StreamEnd

pub record Stream : Type 0 where
  pub incoming : List ℕ
  pub incoming_end : StreamEnd
  pub outgoing : List ℕ
  pub outgoing_end : Option StreamEnd

unfoldable pub read_exact : ℕ → Stream → Result StreamEnd (List ℕ × Stream)
read_exact n s =
    if leb n (length s.incoming)
    then ok (take n s.incoming, record s { incoming = drop n s.incoming })
    else err s.incoming_end

unfoldable pub write_all : List ℕ → Stream → Result StreamEnd Stream
write_all bytes s = elim s.outgoing_end [
  | none ↦ ok (record s { outgoing = s.outgoing ++ bytes })
  | some e ↦ err e
]

-- The loop of `discard_exact` over chunks of at most 1024 bytes, with one round of fuel for each byte.
unfoldable pub discard_loop : ℕ → Stream → (remaining : ℕ) → Result StreamEnd Stream
unfolding read_exact
discard_loop zero s remaining = ok s
discard_loop (suc fuel) s remaining =
    if remaining == 0 then ok s else elim (read_exact (min remaining 1024) s) [
      | err e ↦ err e
      | ok (scratch, rest) ↦ discard_loop fuel rest (remaining - min remaining 1024)
    ]

unfoldable pub discard_exact : Stream → ℕ → Result StreamEnd Stream
unfolding discard_loop
discard_exact s remaining = discard_loop remaining s remaining
