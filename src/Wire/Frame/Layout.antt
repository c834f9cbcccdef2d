-- ===== src/Wire/Frame/Layout.antt =====
-- The byte sequence that `encode` produces, written as a sum of its parts.
use mathlib.Core.List.{append_assoc}
use hart_link.Common.{
  ℕ, ◌≤◌, ◌<◌, ◌≡◌, refl, arith, ap, length-append, length-replicate, Bool, true, false, none, List,
  [], ◌∷◌, ◌++◌, length, replicate, drop-append, leb, ltb, ◌==◌, ok,
}
use hart_link.Wire.Address.{Address, polling, unique, write_to, encoded_len}
use hart_link.Wire.Address.Laws.{IsAddress, is_long, address_bytes, length-address_bytes}
use hart_link.Wire.Frame.{
  Frame, delimiter_byte, is_burst, encode, xor_checksum, max_encoded_frame_size,
}

-- A frame whose fields fit their places on the wire, and that needed no repair.
pub record IsFrame (f : Frame) : Type 0 where
  pub preambles_fit : f.preambles ≤ 255
  pub address_fits : IsAddress f.address
  pub expansion_fits : length f.expansion ≤ 3
  pub payload_fits : length f.payload ≤ 255
  pub unrepaired : f.repair ≡ none

abbrev pub frame_delimiter : Frame → ℕ
frame_delimiter f = delimiter_byte f.kind f.physical_layer (is_long f.address) (length f.expansion)

-- From the delimiter to the end of the payload: what the checksum covers.
abbrev pub frame_body : Frame → List ℕ
frame_body f =
    frame_delimiter f
    ∷ (address_bytes f.address (is_burst f.kind)
        ++ (f.expansion ++ (f.wire_command ∷ length f.payload ∷ f.payload)))

abbrev pub frame_bytes : Frame → List ℕ
frame_bytes f = replicate f.preambles 0xff ++ (frame_body f ++ xor_checksum (frame_body f) ∷ [])

write_to-append :
    (a : Address) (b : Bool) (out : List ℕ) → write_to a b out ≡ out ++ address_bytes a b
unfolding write_to
write_to-append (polling node m) b out = refl
write_to-append (unique t d m) b out = simp append_assoc

encoded_len-is_long : (a : Address) → (encoded_len a == 5) ≡ is_long a
unfolding encoded_len
encoded_len-is_long (polling node m) = refl
encoded_len-is_long (unique t d m) = refl

-- The output of `encode` before the checksum is pushed.
output_lem :
    (f : Frame)
    → (((write_to f.address (is_burst f.kind) (replicate f.preambles 0xff ++ frame_delimiter f ∷ [])
              ++ f.expansion)
            ++ f.wire_command ∷ [])
          ++ length f.payload ∷ [])
        ++ f.payload
      ≡ replicate f.preambles 0xff ++ frame_body f
output_lem f = rw write_to-append (simp append_assoc)

-- A frame whose lists fit is encoded: preambles, delimiter, address, expansion, command, count,
-- payload and checksum, in this order.
pub encode_lem :
    (f : Frame) → length f.expansion ≤ 3 → length f.payload ≤ 255 → encode f ≡ ok (frame_bytes f)
unfolding encode
encode_lem f he hp =
    let small : ltb 3 (length f.expansion) ≡ false = ground arith in
    let fits : leb (length f.payload) 255 ≡ true = ground arith in
    rw
      (
        small,
        fits,
        encoded_len-is_long f.address,
        output_lem f,
        drop-append (replicate f.preambles 0xff) (frame_body f),
      )
      (ap ok (append_assoc (replicate f.preambles 0xff) (frame_body f) _))

address_len-le : (a : Address) → encoded_len a ≤ 5
unfolding encoded_len
address_len-le (polling node m) = omega arith
address_len-le (unique t d m) = omega arith

-- The bytes of a frame are at least one and at most `MAX_ENCODED_FRAME_SIZE`.
pub length-frame_bytes :
    (f : Frame)
    → IsFrame f
    → (0 < length (frame_bytes f)) × (length (frame_bytes f) ≤ max_encoded_frame_size)
length-frame_bytes f v = omega (
  arith,
  v,
  address_len-le f.address,
  length-address_bytes f.address (is_burst f.kind),
  length-append (replicate f.preambles 0xff) (frame_body f ++ xor_checksum (frame_body f) ∷ []),
  length-append (frame_body f) (xor_checksum (frame_body f) ∷ []),
  length-replicate {A = ℕ} f.preambles 0xff,
  length-append (address_bytes f.address (is_burst f.kind))
      (f.expansion ++ (f.wire_command ∷ length f.payload ∷ f.payload)),
  length-append f.expansion (f.wire_command ∷ length f.payload ∷ f.payload),
)
