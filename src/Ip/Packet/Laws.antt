-- ===== src/Ip/Packet/Laws.antt =====
-- Packets and their bytes.
use hart_link.Common.{
  ℕ, suc, ◌+◌, ◌-◌, ◌*◌, ◌/◌, ◌%◌, ◌≤◌, ◌<◌, ◌≡◌, refl, arith, ◌∙◌, bit_and, true, false, not, ◌||◌,
  List, [], ◌∷◌, ◌++◌, length, ltb, ◌==◌, ok, IsByte, All,
}
use hart_link.Common.Bits.{holds_below, holds_below-at}
use hart_link.Ip.Packet.{
  MessageType, request, response, publish, nak, type_code, type_from, IpPacket, encode_header,
  encode, decode,
}

-- A packet whose sequence number fits its two bytes.
abbrev pub IsPacket : IpPacket → Type 0
IsPacket p = p.sequence < 65536

type_code_low : (t : MessageType) → bit_and (type_code t) 0xf0 ≡ 0
unfolding type_code
type_code_low request = refl
type_code_low response = refl
type_code_low publish = refl
type_code_low nak = refl

type_from-type_code : (t : MessageType) → type_from (bit_and (type_code t) 0x0f) ≡ ok t
unfolding type_code type_from
type_from-type_code request = refl
type_from-type_code response = refl
type_from-type_code publish = refl
type_from-type_code nak = refl

-- A packet is encoded exactly when its body fits the two-byte length; the bytes are the header and the body.
pub encode_lem :
    (p : IpPacket)
    → length p.body ≤ 65527
    → encode p ≡ ok (encode_header p (8 + length p.body) ++ p.body)
unfolding encode
encode_lem p h = ground arith

pub encode_inv :
    (p : IpPacket) (bytes : List ℕ)
    → encode p ≡ ok bytes
    → (length p.body ≤ 65527) × (bytes ≡ encode_header p (8 + length p.body) ++ p.body)
unfolding encode
encode_inv p bytes e = ground (arith, e)

-- The tests of `decode` on the bytes of a packet, with the two numbers of the header read.
decode_tests :
    (p : IpPacket) (maximum_body : ℕ)
    → length p.body ≤ maximum_body
    → (ltb (suc (suc (suc (suc (suc (suc (suc (suc (length p.body))))))))) 8 ≡ false)
      × (((8 + length p.body) == (suc (suc (suc (suc (suc (suc (suc (suc (length p.body))))))))))
          ≡ true)
      × (ltb (8 + length p.body) 8 ≡ false)
      × (ltb maximum_body (8 + length p.body - 8) ≡ false)
decode_tests p maximum_body h = ground arith

-- What is encoded is decoded as the same packet, where the body is within the receiver's limit.
pub decode-encode_packet :
    (p : IpPacket) (bytes : List ℕ) (maximum_body : ℕ)
    → IsPacket p
    → length p.body ≤ maximum_body
    → encode p ≡ ok bytes
    → decode bytes maximum_body ≡ ok p
unfolding decode encode_header
decode-encode_packet p bytes maximum_body h fits e =
    let (room, shape) = encode_inv p bytes e in
    let n = 8 + length p.body in
    let declared : n / 256 % 256 * 256 + n % 256 ≡ n = omega arith in
    let number : p.sequence / 256 % 256 * 256 + p.sequence % 256 ≡ p.sequence = omega arith in
    let (long, whole, least, within) = decode_tests p maximum_body fits in
    rw
      (
        shape,
        declared,
        number,
        long,
        whole,
        least,
        within,
        type_code_low p.message_type,
        type_from-type_code p.message_type,
      )
      refl

low_table : holds_below 256 (λ x. not (bit_and x 0xf0 == 0) || (bit_and x 0x0f == x)) ≡ true
unfolding holds_below
low_table = refl

low_byte : (x : ℕ) → x < 256 → bit_and x 0xf0 ≡ 0 → bit_and x 0x0f ≡ x
low_byte x h e = ground (arith, holds_below-at 256 _ x low_table h, e)

type_code-type_from : (x : ℕ) (t : MessageType) → type_from x ≡ ok t → type_code t ≡ x
unfolding type_from type_code
type_code-type_from x t e = ground (arith, e)

-- Where every test of `decode` passes.
decode_inv :
    (b0 b1 b2 b3 b4 b5 b6 b7 : ℕ) (rest : List ℕ) (maximum_body : ℕ) (p : IpPacket)
    → decode (b0 ∷ b1 ∷ b2 ∷ b3 ∷ b4 ∷ b5 ∷ b6 ∷ b7 ∷ rest) maximum_body ≡ ok p
    → (b6 * 256 + b7 ≡ 8 + length rest)
      × (bit_and b1 0xf0 ≡ 0)
      × (type_from (bit_and b1 0x0f) ≡ ok p.message_type)
      × (p.version ≡ b0)
      × (p.message_id ≡ b2)
      × (p.status ≡ b3)
      × (p.sequence ≡ b4 * 256 + b5)
      × (p.body ≡ rest)
      × (length rest ≤ maximum_body)
unfolding decode
decode_inv b0 b1 b2 b3 b4 b5 b6 b7 rest maximum_body p e = ground (arith, e)

decode_long :
    (bytes : List ℕ) (maximum_body : ℕ) (p : IpPacket)
    → decode bytes maximum_body ≡ ok p
    → 8 ≤ length bytes
unfolding decode
decode_long bytes maximum_body p e = ground (arith, e)

encode-decode_long :
    (b0 b1 b2 b3 b4 b5 b6 b7 : ℕ) (rest : List ℕ) (maximum_body : ℕ) (p : IpPacket)
    → All IsByte (b0 ∷ b1 ∷ b2 ∷ b3 ∷ b4 ∷ b5 ∷ b6 ∷ b7 ∷ rest)
    → decode (b0 ∷ b1 ∷ b2 ∷ b3 ∷ b4 ∷ b5 ∷ b6 ∷ b7 ∷ rest) maximum_body ≡ ok p
    → encode p ≡ ok (b0 ∷ b1 ∷ b2 ∷ b3 ∷ b4 ∷ b5 ∷ b6 ∷ b7 ∷ rest)
unfolding encode_header
encode-decode_long b0 b1 b2 b3 b4 b5 b6 b7 rest maximum_body p
      (h0, (h1, (h2, (h3, (h4, (h5, (h6, (h7, hs)))))))) e =
    let (total, high, kind, v, i, st, sq, bd, within) =
      decode_inv b0 b1 b2 b3 b4 b5 b6 b7 rest maximum_body p e in
    let code : type_code p.message_type ≡ b1 =
      type_code-type_from (bit_and b1 0x0f) p.message_type kind ∙ low_byte b1 h1 high in
    let fits : length p.body ≤ 65527 = rw bd (omega arith) in
    let n6 : (8 + length rest) / 256 % 256 ≡ b6 = omega arith in
    let n7 : (8 + length rest) % 256 ≡ b7 = omega arith in
    let n4 : (b4 * 256 + b5) / 256 % 256 ≡ b4 = omega arith in
    let n5 : (b4 * 256 + b5) % 256 ≡ b5 = omega arith in
    encode_lem p fits ∙ rw (code, v, i, st, sq, bd, n6, n7, n4, n5) refl

-- The wire form is canonical: bytes that are decoded are the bytes of the packet that they give.
pub encode-decode_packet :
    (bytes : List ℕ) (maximum_body : ℕ) (p : IpPacket)
    → All IsByte bytes
    → decode bytes maximum_body ≡ ok p
    → encode p ≡ ok bytes
encode-decode_packet (b0 ∷ b1 ∷ b2 ∷ b3 ∷ b4 ∷ b5 ∷ b6 ∷ b7 ∷ rest) maximum_body p h e =
    encode-decode_long b0 b1 b2 b3 b4 b5 b6 b7 rest maximum_body p h e
encode-decode_packet [] m p h e = absurd (omega (arith, decode_long [] m p e))
encode-decode_packet (a ∷ []) m p h e = absurd (omega (arith, decode_long (a ∷ []) m p e))
encode-decode_packet (a ∷ b ∷ []) m p h e = absurd (omega (arith, decode_long (a ∷ b ∷ []) m p e))
encode-decode_packet (a ∷ b ∷ c ∷ []) m p h e =
    absurd (omega (arith, decode_long (a ∷ b ∷ c ∷ []) m p e))
encode-decode_packet (a ∷ b ∷ c ∷ d ∷ []) m p h e =
    absurd (omega (arith, decode_long (a ∷ b ∷ c ∷ d ∷ []) m p e))
encode-decode_packet (a ∷ b ∷ c ∷ d ∷ k ∷ []) m p h e =
    absurd (omega (arith, decode_long (a ∷ b ∷ c ∷ d ∷ k ∷ []) m p e))
encode-decode_packet (a ∷ b ∷ c ∷ d ∷ k ∷ l ∷ []) m p h e =
    absurd (omega (arith, decode_long (a ∷ b ∷ c ∷ d ∷ k ∷ l ∷ []) m p e))
encode-decode_packet (a ∷ b ∷ c ∷ d ∷ k ∷ l ∷ n ∷ []) m p h e =
    absurd (omega (arith, decode_long (a ∷ b ∷ c ∷ d ∷ k ∷ l ∷ n ∷ []) m p e))
