-- ===== src/Wire/Decoder/Search.antt =====
-- The search for a delimiter in bytes that begin with preambles and a delimiter.
use mathlib.Core.List.{append-nil}
use hart_link.Common.{
  ℕ, zero, suc, ◌+◌, ◌≤◌, ◌≡◌, refl, arith, ap, true, false, none, some, List, [], ◌∷◌, ◌++◌, take,
  replicate,
}
use hart_link.Wire.Frame.{FrameKind, kind_from_delimiter}
use hart_link.Wire.Decoder.State.{ChecksumPolicy, strict, known_gateway, DecodeLimits}
use hart_link.Wire.Decoder.Candidate.{
  is_possible_delimiter, candidate_at, candidate_from, find_candidate, last_other,
}

-- A preamble byte is no delimiter under any policy.
preamble_not_delimiter : (p : ChecksumPolicy) → is_possible_delimiter 0xff p ≡ false
unfolding is_possible_delimiter kind_from_delimiter
preamble_not_delimiter strict = refl
preamble_not_delimiter (known_gateway true n) = refl
preamble_not_delimiter (known_gateway false n) = refl

last_other-replicate : (n : ℕ) → last_other (replicate n 0xff) ≡ none
unfolding last_other
last_other-replicate zero = refl
last_other-replicate (suc n) = rw (last_other-replicate n, last_other)

skip_preamble :
    (limits : DecodeLimits) (bytes : List ℕ) (index : ℕ)
    → candidate_at limits bytes index 0xff ≡ none
unfolding candidate_at
skip_preamble limits bytes index = rw (preamble_not_delimiter limits.checksum_policy)

take_preambles : (n : ℕ) (xs : List ℕ) → take n (replicate n 0xff ++ xs) ≡ replicate n 0xff
take_preambles zero xs = refl
take_preambles (suc n) xs = ap (◌∷◌ 0xff) (take_preambles n xs)

at_delimiter :
    (limits : DecodeLimits) (p d : ℕ) (tail : List ℕ) (k : FrameKind)
    → kind_from_delimiter d ≡ some k
    → limits.minimum_preambles ≤ p
    → p ≤ 255
    → candidate_at limits (replicate p 0xff ++ d ∷ tail) p d ≡ some (p, 0, p)
unfolding candidate_at is_possible_delimiter
at_delimiter limits p d tail k e enough few =
    rw (e, take_preambles p (d ∷ tail), last_other-replicate p) (ground arith)

skip_preambles :
    (limits : DecodeLimits) (bytes : List ℕ) (n index : ℕ) (tail : List ℕ)
    → candidate_from limits bytes index (replicate n 0xff ++ tail)
      ≡ candidate_from limits bytes (n + index) tail
unfolding candidate_from
skip_preambles limits bytes zero index tail = let e : zero + index ≡ index = omega arith in rw e
skip_preambles limits bytes (suc n) index tail =
    let e : suc n + index ≡ n + suc index = omega arith in
    rw (e, skip_preamble limits bytes index, candidate_from)
      (skip_preambles limits bytes n (suc index) tail)

-- The search stops at the delimiter, and keeps all its preambles.
pub find_candidate-preambles :
    (limits : DecodeLimits) (p d : ℕ) (tail : List ℕ) (k : FrameKind)
    → kind_from_delimiter d ≡ some k
    → limits.minimum_preambles ≤ p
    → p ≤ 255
    → find_candidate (replicate p 0xff ++ d ∷ tail) limits ≡ some (p, 0, p)
unfolding find_candidate candidate_from
find_candidate-preambles limits p d tail k e enough few =
    let z : p + 0 ≡ p = omega arith in
    rw (
      skip_preambles limits (replicate p 0xff ++ d ∷ tail) p 0 (d ∷ tail),
      z,
      candidate_from,
      at_delimiter limits p d tail k e enough few,
    )

-- Preambles alone hold no candidate.
pub find_candidate-only_preambles :
    (limits : DecodeLimits) (n : ℕ) → find_candidate (replicate n 0xff) limits ≡ none
unfolding find_candidate candidate_from
find_candidate-only_preambles limits n =
    rw (← append-nil {A = ℕ} (replicate n 0xff))
      (skip_preambles limits (replicate n 0xff ++ []) n 0 [])
