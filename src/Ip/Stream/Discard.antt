-- ===== src/Ip/Stream/Discard.antt =====
-- Discarding a body chunk by chunk is skipping it at once.
use hart_link.Common.{
  ℕ, suc, zero, ◌+◌, ◌-◌, ◌≤◌, ◌≡◌, refl, arith, ◌∙◌, min, true, false, Bool-cases, inl, inr, List,
  [], ◌∷◌, length, length-drop, drop, leb, ◌==◌, if◌then◌else◌, Result, ok, err,
}
use hart_link.Ip.Stream.{StreamEnd, Stream, read_exact, discard_loop, discard_exact}

drop-drop : (m k : ℕ) (xs : List ℕ) → drop k (drop m xs) ≡ drop (m + k) xs
drop-drop zero k xs = let e : 0 + k ≡ k = omega arith in rw e refl
drop-drop (suc m) zero [] = let e : suc m + 0 ≡ suc m = omega arith in rw e refl
drop-drop (suc m) (suc k) [] = let e : suc m + suc k ≡ suc (m + suc k) = omega arith in rw e refl
drop-drop (suc m) k (x ∷ xs) =
    let e : suc m + k ≡ suc (m + k) = omega arith in rw e (drop-drop m k xs)

-- A read of `n` bytes, without the bytes.
abbrev pub skip : ℕ → Stream → Result StreamEnd Stream
skip n s =
    if leb n (length s.incoming)
    then ok (record s { incoming = drop n s.incoming })
    else err s.incoming_end

-- A part skipped, and then the rest.
skip_rest :
    (s : Stream) (m n : ℕ)
    → m ≤ n
    → m ≤ length s.incoming
    → skip (n - m) (record s { incoming = drop m s.incoming }) ≡ skip n s
skip_rest s m n le fits =
    let sum : m + (n - m) ≡ n = omega arith in
    let left = length-drop m s.incoming in
    elim (Bool-cases (leb n (length s.incoming))) [
      | inl enough ↦
          let same : leb (n - m) (length (drop m s.incoming)) ≡ true =
            rw left (ground (arith, enough)) in
          rw (enough, same, drop-drop m (n - m) s.incoming, sum) refl
      | inr short ↦
          let same : leb (n - m) (length (drop m s.incoming)) ≡ false =
            rw left (ground (arith, short)) in
          rw (short, same) refl
    ]

read_some : (s : Stream) (m : ℕ) → m ≤ length s.incoming → leb m (length s.incoming) ≡ true
read_some s m h = ground arith

discard_loop-skip :
    (fuel : ℕ) (s : Stream) (remaining : ℕ)
    → remaining ≤ fuel
    → discard_loop fuel s remaining ≡ skip remaining s
unfolding discard_loop read_exact
discard_loop-skip zero s zero h = rw (read_some s zero (omega arith)) refl
discard_loop-skip zero s (suc r) h = absurd (omega arith)
discard_loop-skip (suc fuel) s zero h = rw (read_some s zero (omega arith)) refl
discard_loop-skip (suc fuel) s (suc r) h =
    let chunk = min (suc r) 1024 in
    let some_left : (suc r == 0) ≡ false = ground arith in
    elim (Bool-cases (leb chunk (length s.incoming))) [
      | inl enough ↦
          let step =
            discard_loop-skip fuel (record s { incoming = drop chunk s.incoming }) (suc r - chunk)
              (omega arith) in
          rw (some_left, enough)
            (step ∙ skip_rest s chunk (suc r) (omega arith) (ground (arith, enough)))
      | inr short ↦
          let same : leb (suc r) (length s.incoming) ≡ false = ground (arith, short) in
          rw (some_left, short, same) refl
    ]

-- `discard_exact` skips exactly the bytes it is asked to, whatever its chunks, and fails as one read would.
pub discard_exact-skip : (s : Stream) (remaining : ℕ) → discard_exact s remaining ≡ skip remaining s
unfolding discard_exact
discard_exact-skip s remaining = discard_loop-skip remaining s remaining (omega arith)
