-- ===== src/Wire/Decoder/Reading/Prefix.antt =====
-- `analyze` on bytes that break off inside an encoded frame.
use mathlib.Core.List.{append_assoc}
use hart_link.Common.{
  ℕ, ◌+◌, ◌/◌, bit_and, not, ◌==◌, if◌then◌else◌, ◌≤◌, ◌<◌, ◌≡◌, arith, ap, sym, ◌∙◌, ◌⊎◌, inl, inr,
  Bool, true, false, none, some, List, [], ◌∷◌, ◌++◌, length, get_or, get_or-prefix, replicate, leb,
  append_split, cons_parts, subst, replicate_prefix, length-append,
}
use hart_link.Wire.Address.Laws.{is_long}
use hart_link.Wire.Frame.{Frame, is_burst}
use hart_link.Wire.Frame.Layout.{IsFrame, frame_body, frame_bytes}
use hart_link.Wire.Decoder.State.{DecodeLimits, no_candidate, need_more}
use hart_link.Wire.Decoder.Candidate.{find_candidate}
use hart_link.Wire.Decoder.Analysis.{repaired_delimiter, analyze_at, analyze}
use hart_link.Wire.Decoder.Search.{find_candidate-preambles, find_candidate-only_preambles}
use hart_link.Wire.Decoder.Reading.{
  delimiter_kept, stream, back, d, lead, addr, check_at, command_at, count_here, check,
  address_len-length, length-lead, delimiter_here, length-frame_bytes,
}

lt-cases : (a b : ℕ) → (a < b) ⊎ (b ≤ a)
lt-cases a b = ground arith

-- `analyze` waits where the count byte, or the byte of the checksum, is not there yet.
module _ (bytes : List ℕ) (limits : DecodeLimits) (di d la le count : ℕ) (long : Bool)
    (here : get_or bytes di 0 ≡ d) (whole : repaired_delimiter limits d ≡ (d, none))
    (long_back : not (bit_and d 0x80 == 0) ≡ long) (length_back : bit_and (d / 32) 0x03 ≡ le)
    (address_len : (if long then 5 else 1) ≡ la) where
  waits_for_count : length bytes ≤ di + 1 + la + le + 1 → analyze_at bytes limits di di ≡ need_more
  unfolding analyze_at
  waits_for_count h =
      let out : leb (length bytes) (di + 1 + la + le + 1) ≡ true = ground arith in
      rw (here, whole, long_back, address_len, length_back, out)

  waits_for_checksum :
      di + 1 + la + le + 1 < length bytes
      → get_or bytes (di + 1 + la + le + 1) 0 ≡ count
      → length bytes ≤ di + 1 + la + le + 1 + 1 + count
      → analyze_at bytes limits di di ≡ need_more
  unfolding analyze_at
  waits_for_checksum h n k =
      let counted : leb (length bytes) (di + 1 + la + le + 1) ≡ false = ground arith in
      let out : leb (length bytes) (di + 1 + la + le + 1 + 1 + count) ≡ true = ground arith in
      rw (here, whole, long_back, address_len, length_back, counted, n, out)

module _ (f : Frame) (v : IsFrame f) (rest bytes more : List ℕ) (limits : DecodeLimits)
    (same : bytes ++ more ≡ stream f v rest) (enough : limits.minimum_preambles ≤ f.preambles)
    (short : length bytes < length (frame_bytes f)) where
  shorter : length bytes ≤ check_at f v rest
  shorter = omega (arith, short, length-frame_bytes f v rest)

  read_prefix : (i : ℕ) → i < length bytes → get_or bytes i 0 ≡ get_or (stream f v rest) i 0
  read_prefix i h = sym (get_or-prefix bytes more i 0 h) ∙ ap (λ (t : List ℕ). get_or t i 0) same

  pub read_prefix_at :
      (i : ℕ) {y : ℕ} → i < length bytes → get_or (stream f v rest) i 0 ≡ y → get_or bytes i 0 ≡ y
  read_prefix_at i h e = read_prefix i h ∙ e

  analyze_at_prefix :
      f.preambles < length bytes → analyze_at bytes limits f.preambles f.preambles ≡ need_more
  analyze_at_prefix h = elim (lt-cases (command_at f v rest + 1) (length bytes)) [
    | inl more ↦
        waits_for_checksum bytes limits f.preambles (d f v rest) (length (addr f v rest))
          (length f.expansion) (length f.payload) (is_long f.address)
          (read_prefix_at f.preambles h (delimiter_here f v rest)) (delimiter_kept f v rest limits)
          (back f v rest).long_back (back f v rest).length_back
          (address_len-length f.address (is_burst f.kind)) more
          (read_prefix_at (command_at f v rest + 1) more (count_here f v rest)) shorter
    | inr less ↦
        waits_for_count bytes limits f.preambles (d f v rest) (length (addr f v rest))
          (length f.expansion) (length f.payload) (is_long f.address)
          (read_prefix_at f.preambles h (delimiter_here f v rest)) (delimiter_kept f v rest limits)
          (back f v rest).long_back (back f v rest).length_back
          (address_len-length f.address (is_burst f.kind)) less
  ]

  abbrev tail : List ℕ
  tail =
      ((addr f v rest ++ (f.expansion ++ (f.wire_command ∷ length f.payload ∷ f.payload)))
        ++ check f v rest ∷ [])
      ++ rest

  split_here : bytes ++ more ≡ replicate f.preambles 0xff ++ d f v rest ∷ tail
  split_here = same ∙ append_assoc (lead f v rest) (frame_body f ++ check f v rest ∷ []) rest

  found_delimiter :
      f.preambles < length bytes → find_candidate bytes limits ≡ some (f.preambles, 0, f.preambles)
  found_delimiter h =
      let (b, front, left) =
        append_split (lead f v rest) bytes (d f v rest ∷ tail) more split_here
          (omega (arith, length-lead f v rest)) in
      go b front left
    where
      go :
          (b : List ℕ)
          → bytes ≡ lead f v rest ++ b
          → b ++ more ≡ d f v rest ∷ tail
          → find_candidate bytes limits ≡ some (f.preambles, 0, f.preambles)
      go [] front left = absurd (
          omega (arith, h, ap length front, length-append (lead f v rest) [], length-lead f v rest))
      go (x ∷ b) front left =
          rw (front, (cons_parts left).0)
            (find_candidate-preambles limits f.preambles (d f v rest) b f.kind
              (back f v rest).kind_back enough v.preambles_fit)

  -- Inside a frame the decoder finds only preambles, or waits for more bytes.
  pub analyze-prefix :
      ((analyze bytes limits ≡ no_candidate)
        × (bytes ≡ replicate (length bytes) 0xff)
        × (length bytes ≤ 255))
      ⊎ (analyze bytes limits ≡ need_more)
  unfolding analyze
  analyze-prefix = elim (lt-cases f.preambles (length bytes)) [
    | inr few ↦
        let ones =
          replicate_prefix f.preambles 0xff bytes (d f v rest ∷ tail) more split_here few in
        let none_found : find_candidate bytes limits ≡ none =
          subst (λ xs. find_candidate xs limits ≡ none) (sym ones)
            (find_candidate-only_preambles limits (length bytes)) in
        inl (rw (none_found, analyze), ones, omega (arith, few, v.preambles_fit))
    | inl enough_bytes ↦
        inr (rw (found_delimiter enough_bytes, analyze) (analyze_at_prefix enough_bytes))
  ]
