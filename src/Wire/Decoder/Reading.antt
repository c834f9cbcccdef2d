-- ===== src/Wire/Decoder/Reading.antt =====
-- `analyze` on bytes that begin with an encoded frame.
pub mod Prefix
use mathlib.Core.List.{append_assoc}
use mathlib.Core.Path.{ap₂}
use hart_link.Common.{
  ℕ, zero, suc, ◌+◌, ◌/◌, ◌≤◌, ◌<◌, ◌≡◌, refl, arith, ap, sym, subst, ◌∙◌, bit_and, bit_xor, Bool,
  true, false, not, ◌&&◌, Option, none, some, List, [], ◌∷◌, ◌++◌, length, get_or, slice, replicate,
  length-replicate, length-append, slice_of, get_or_of, ◌==◌, ==_self, leb, if◌then◌else◌, ok,
}
use hart_link.Common.Bits.{bit_xor-sixteen_ne}
use hart_link.Wire.Address.{Address, polling, unique, encoded_len, read_from}
use hart_link.Wire.Address.Laws.{is_long, address_bytes, length-address_bytes, read_from-write_to}
use hart_link.Wire.Frame.{
  Frame, FrameKind, PhysicalLayer, kind_from_delimiter, layer_from_delimiter, is_burst,
  xor_checksum,
}
use hart_link.Wire.Frame.Delimiter.{ReadsBack, delimiter_byte-ReadsBack}
use hart_link.Wire.Frame.Layout.{IsFrame, frame_delimiter, frame_body, frame_bytes}
use hart_link.Wire.Decoder.State.{DecodeLimits, ChecksumPolicy, DecoderStep, framing}
use hart_link.Wire.Decoder.Candidate.{find_candidate, allow_delimiter_repair, is_some}
use hart_link.Wire.Decoder.Analysis.{
  repaired_delimiter, final_repair, build_frame, analyze_at, analyze,
}
use hart_link.Wire.Decoder.Search.{find_candidate-preambles}

address_len-length :
    (a : Address) (b : Bool) → (if is_long a then 5 else 1) ≡ length (address_bytes a b)
unfolding encoded_len
address_len-length (polling node m) b = sym (length-address_bytes (polling node m) b)
address_len-length (unique t d m) b = sym (length-address_bytes (unique t d m) b)

no_repair : (allowed : Bool) → final_repair (allowed && false) none none ≡ none
unfolding final_repair
no_repair true = refl
no_repair false = refl

kept_delimiter :
    (limits : DecodeLimits) (d : ℕ) (kind : FrameKind)
    → kind_from_delimiter d ≡ some kind
    → repaired_delimiter limits d ≡ (d, none)
unfolding repaired_delimiter
kept_delimiter limits d kind e = rw e

-- `analyze` at a candidate, from what stands at each of the places that it reads.
module _ (bytes : List ℕ) (limits : DecodeLimits) (di d la le command count : ℕ) (address : Address)
    (kind : FrameKind) (layer : PhysicalLayer) (long : Bool) (expansion payload : List ℕ)
    (kind_back : kind_from_delimiter d ≡ some kind) (layer_back : layer_from_delimiter d ≡ layer)
    (long_back : not (bit_and d 0x80 == 0) ≡ long) (length_back : bit_and (d / 32) 0x03 ≡ le)
    (address_len : (if long then 5 else 1) ≡ la) (few : di ≤ 255)
    (command_here : get_or bytes (di + 1 + la + le) 0 ≡ command)
    (count_here : get_or bytes (di + 1 + la + le + 1) 0 ≡ count)
    (address_here : read_from (slice (di + 1) (di + 1 + la) bytes) long ≡ ok address)
    (expansion_here : slice (di + 1 + la) (di + 1 + la + le) bytes ≡ expansion)
    (payload_here : slice (di + 1 + la + le + 1 + 1) (di + 1 + la + le + 1 + 1 + count) bytes
      ≡ payload) where
  abbrev frame_read : Frame
  frame_read = record {
    preambles = di;
    kind = kind;
    physical_layer = layer;
    address = address;
    expansion = expansion;
    wire_command = command;
    payload = payload;
    repair = none;
  }

  build_frame_lem :
      build_frame bytes di di d none
      ≡ framing frame_read (di + 1 + la + le + 1 + 1 + count + 1) false
  unfolding build_frame
  build_frame_lem =
      let fits : leb di 255 ≡ true = ground arith in
      rw (
        build_frame, long_back, address_len, address_here, kind_back, long_back, address_len,
        length_back, count_here, layer_back, fits, expansion_here, command_here, payload_here,
      )

  analyze_at_lem :
      (body : List ℕ) (check : ℕ)
      → di + 1 + la + le + 1 + 1 + count < length bytes
      → get_or bytes di 0 ≡ d
      → slice di (di + 1 + la + le + 1 + 1 + count) bytes ≡ body
      → get_or bytes (di + 1 + la + le + 1 + 1 + count) 0 ≡ check
      → xor_checksum body ≡ check
      → analyze_at bytes limits di di
        ≡ framing frame_read (di + 1 + la + le + 1 + 1 + count + 1) false
  unfolding analyze_at
  analyze_at_lem body check room delimiter_here body_here check_here sum =
      let whole : leb (length bytes) (di + 1 + la + le + 1) ≡ false = ground arith in
      let whole' : leb (length bytes) (di + 1 + la + le + 1 + 1 + count) ≡ false = ground arith in
      let flipped : (bit_xor check 0x10 == check) ≡ false =
        ground (arith, bit_xor-sixteen_ne check) in
      rw
        (
          delimiter_here,
          kept_delimiter limits d kind kind_back,
          long_back,
          address_len,
          length_back,
          whole,
          count_here,
          whole',
          body_here,
          check_here,
          sum,
          flipped,
          ==_self check,
        )
        (rw (no_repair (allow_delimiter_repair limits.checksum_policy)) build_frame_lem)

module _ (f : Frame) (v : IsFrame f) (rest : List ℕ) where
  -- The frame, and whatever follows it in the buffer.
  abbrev stream : List ℕ
  stream = frame_bytes f ++ rest

  abbrev lead : List ℕ
  lead = replicate f.preambles 0xff

  abbrev d : ℕ
  d = frame_delimiter f

  abbrev addr : List ℕ
  addr = address_bytes f.address (is_burst f.kind)

  abbrev check : ℕ
  check = xor_checksum (frame_body f)

  -- What follows the count, the command and the expansion.
  abbrev after_count : List ℕ
  after_count = f.payload ++ (check ∷ rest)

  abbrev after_command : List ℕ
  after_command = length f.payload ∷ after_count

  abbrev after_expansion : List ℕ
  after_expansion = f.wire_command ∷ after_command

  length-lead : length lead ≡ f.preambles
  length-lead = length-replicate f.preambles 0xff

  back : ReadsBack f.kind f.physical_layer (is_long f.address) (length f.expansion) d
  back =
      delimiter_byte-ReadsBack f.kind f.physical_layer (is_long f.address) (length f.expansion)
        v.expansion_fits

  delimiter_kept : (limits : DecodeLimits) → repaired_delimiter limits d ≡ (d, none)
  delimiter_kept limits = kept_delimiter limits d f.kind back.kind_back

  abbrev command_at : ℕ
  command_at = f.preambles + 1 + length addr + length f.expansion

  abbrev check_at : ℕ
  check_at = command_at + 1 + 1 + length f.payload

  delimiter_here : get_or stream f.preambles 0 ≡ d
  delimiter_here =
      get_or_of stream lead d (addr ++ (f.expansion ++ after_expansion)) f.preambles 0
        (simp append_assoc) (omega (arith, length-lead))

  command_here : get_or stream command_at 0 ≡ f.wire_command
  command_here =
      get_or_of stream (lead ++ (d ∷ (addr ++ f.expansion))) f.wire_command after_command command_at
        0 (simp append_assoc)
        (omega (
          arith,
          length-lead,
          length-append lead (d ∷ (addr ++ f.expansion)),
          length-append addr f.expansion,
        ))

  count_here : get_or stream (command_at + 1) 0 ≡ length f.payload
  count_here =
      get_or_of stream (lead ++ (d ∷ (addr ++ (f.expansion ++ (f.wire_command ∷ [])))))
        (length f.payload) after_count (command_at + 1) 0 (simp append_assoc)
        (omega (
          arith,
          length-lead,
          length-append lead (d ∷ (addr ++ (f.expansion ++ (f.wire_command ∷ [])))),
          length-append addr (f.expansion ++ (f.wire_command ∷ [])),
          length-append f.expansion (f.wire_command ∷ []),
        ))

  body_length : length (frame_body f) ≡ 1 + length addr + length f.expansion + 2 + length f.payload
  body_length = omega (
    arith,
    length-append addr (f.expansion ++ (f.wire_command ∷ length f.payload ∷ f.payload)),
    length-append f.expansion (f.wire_command ∷ length f.payload ∷ f.payload),
  )

  check_here : get_or stream check_at 0 ≡ check
  check_here =
      get_or_of stream (lead ++ frame_body f) check rest check_at 0 (simp append_assoc)
        (omega (arith, length-lead, body_length, length-append lead (frame_body f)))

  body_here : slice f.preambles check_at stream ≡ frame_body f
  body_here =
      slice_of stream lead (frame_body f) (check ∷ rest) f.preambles check_at (simp append_assoc)
        (omega (arith, length-lead)) (omega (arith, length-lead, body_length))

  address_here : slice (f.preambles + 1) (f.preambles + 1 + length addr) stream ≡ addr
  address_here =
      slice_of stream (lead ++ d ∷ []) addr (f.expansion ++ after_expansion) _ _ (simp append_assoc)
        (omega (arith, length-lead, length-append lead (d ∷ [])))
        (omega (arith, length-lead, length-append lead (d ∷ [])))

  expansion_here : slice (f.preambles + 1 + length addr) command_at stream ≡ f.expansion
  expansion_here =
      slice_of stream (lead ++ (d ∷ addr)) f.expansion after_expansion _ _ (simp append_assoc)
        (omega (arith, length-lead, length-append lead (d ∷ addr)))
        (omega (arith, length-lead, length-append lead (d ∷ addr)))

  payload_here : slice (command_at + 1 + 1) check_at stream ≡ f.payload
  payload_here =
      slice_of stream
        (lead ++ (d ∷ (addr ++ (f.expansion ++ (f.wire_command ∷ length f.payload ∷ [])))))
        f.payload (check ∷ rest) _ _ (simp append_assoc) (omega (arith, front))
        (omega (arith, front))
    where
      front :
          length (lead ++ (d ∷ (addr ++ (f.expansion ++ (f.wire_command ∷ length f.payload ∷ [])))))
          ≡ command_at + 1 + 1
      front = omega (
        arith,
        length-lead,
        length-append lead
            (d ∷ (addr ++ (f.expansion ++ (f.wire_command ∷ length f.payload ∷ [])))),
        length-append addr (f.expansion ++ (f.wire_command ∷ length f.payload ∷ [])),
        length-append f.expansion (f.wire_command ∷ length f.payload ∷ []),
      )

  pub length-stream : length stream ≡ check_at + 1 + length rest
  length-stream = omega (
    arith,
    length-lead,
    body_length,
    length-append (frame_bytes f) rest,
    length-append lead (frame_body f ++ check ∷ []),
    length-append (frame_body f) (check ∷ []),
  )

  length-frame_bytes : length (frame_bytes f) ≡ check_at + 1
  length-frame_bytes = omega (
    arith,
    length-lead,
    body_length,
    length-append lead (frame_body f ++ check ∷ []),
    length-append (frame_body f) (check ∷ []),
  )

  analyze_at-stream :
      (limits : DecodeLimits)
      → analyze_at stream limits f.preambles f.preambles ≡ framing f (length (frame_bytes f)) false
  analyze_at-stream limits = rw length-frame_bytes (
      subst (λ g. analyze_at stream limits f.preambles f.preambles ≡ framing g (check_at + 1) false)
        same_frame
        (analyze_at_lem stream limits f.preambles d (length addr) (length f.expansion)
          f.wire_command (length f.payload) f.address f.kind f.physical_layer (is_long f.address)
          f.expansion f.payload back.kind_back back.layer_back back.long_back back.length_back
          (address_len-length f.address (is_burst f.kind)) v.preambles_fit command_here count_here
          (rw address_here (read_from-write_to f.address (is_burst f.kind) v.address_fits))
          expansion_here payload_here (frame_body f) check (omega (arith, length-stream))
          delimiter_here body_here check_here refl))
    where
      same_frame : record f { repair = none } ≡ f
      same_frame = λ i. record f { repair = sym v.unrepaired i }

  -- Whatever follows, the first thing found in the bytes of a frame that fits the wire and has enough
  -- preambles for the limits is that frame.
  pub analyze-frame_bytes :
      (limits : DecodeLimits)
      → limits.minimum_preambles ≤ f.preambles
      → analyze stream limits ≡ framing f (length (frame_bytes f)) false
  unfolding analyze
  analyze-frame_bytes limits enough = rw (found, analyze) (analyze_at-stream limits)
    where
      found : find_candidate stream limits ≡ some (f.preambles, 0, f.preambles)
      found = rw (append_assoc lead (frame_body f ++ check ∷ []) rest) (
          find_candidate-preambles limits f.preambles d _ f.kind back.kind_back enough
            v.preambles_fit)
