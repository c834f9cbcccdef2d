-- ===== src/Operation/Text/Packed.antt =====
-- Unpacking a packed text gives the text without its trailing spaces.
use hart_link.Common.{
  ℕ, zero, suc, ◌+◌, ◌-◌, ◌*◌, ◌/◌, ◌%◌, ◌^◌, ◌≤◌, ◌<◌, ◌≡◌, refl, arith, ap, ◌∙◌, bit_and, bit_or,
  true, false, ◌&&◌, List, [], ◌∷◌, ◌++◌, All, map, length, length-append, length-replicate,
  replicate, take, ltb, ◌==◌, u8_max, ok,
}
use hart_link.Common.Bits.{holds_below, holds_below-at, bit_or-fields}
use hart_link.Operation.Text.{
  text_codes, resize, pack_group, pack_groups, pack_text, ascii_of, unpack_group, unpack_groups,
  unpack_text, trim_end, trim_end_matches, is_whitespace,
}

-- Masks as remainders.
mask_table :
    holds_below 256
      (λ x. (bit_and x 0x03 == x % 4) && ((bit_and x 0x0f == x % 16) && (bit_and x 0x3f == x % 64)))
    ≡ true
unfolding holds_below
mask_table = refl

masks :
    (x : ℕ)
    → x < 256
    → (bit_and x 0x03 ≡ x % 4) × (bit_and x 0x0f ≡ x % 16) × (bit_and x 0x3f ≡ x % 64)
masks x h = ground (arith, holds_below-at 256 _ x mask_table h)

-- The characters that a packed text can hold.
abbrev pub IsPackable : ℕ → Type 0
IsPackable c = (0x20 ≤ c) × (c ≤ 0x5f)

code_table :
    holds_below 64
      (λ i. (ascii_of (bit_and (i + 0x20) 0x3f) == i + 0x20) && ltb (bit_and (i + 0x20) 0x3f) 64)
    ≡ true
unfolding holds_below ascii_of
code_table = refl

ascii-code : (c : ℕ) → IsPackable c → (ascii_of (bit_and c 0x3f) ≡ c) × (bit_and c 0x3f < 64)
ascii-code c h =
    let back : c - 0x20 + 0x20 ≡ c = omega arith in
    let row = holds_below-at 64 _ (c - 0x20) code_table (omega arith) in
    ground (arith, rw back at row)

module _ (a b c d : ℕ) (ha : a < 64) (hb : b < 64) (hc : c < 64) (hd : d < 64) where
  first : bit_or (a * 2 ^ 2 % 256) (b / 2 ^ 4) ≡ a * 4 + b / 16
  first =
      let e : a * 2 ^ 2 % 256 ≡ a * 2 ^ 2 = omega arith in
      rw e (bit_or-fields 2 a (b / 16) (omega arith))

  second : bit_or (b * 2 ^ 4 % 256) (c / 2 ^ 2) ≡ b % 16 * 16 + c / 4
  second =
      let e : b * 2 ^ 4 % 256 ≡ (b % 16) * 2 ^ 4 = omega arith in
      rw e (bit_or-fields 4 (b % 16) (c / 4) (omega arith))

  third : bit_or (c * 2 ^ 6 % 256) d ≡ c % 4 * 64 + d
  third =
      let e : c * 2 ^ 6 % 256 ≡ (c % 4) * 2 ^ 6 = omega arith in rw e (bit_or-fields 6 (c % 4) d hd)

  -- The four codes come back out of the three bytes.
  unpack-pack_group :
      (bytes : List ℕ)
      → unpack_groups (pack_group a b c d ++ bytes)
        ≡ ascii_of a ∷ ascii_of b ∷ ascii_of c ∷ ascii_of d ∷ unpack_groups bytes
  unfolding unpack_groups unpack_group pack_group
  unpack-pack_group bytes =
      let x = a * 4 + b / 16 in
      let y = b % 16 * 16 + c / 4 in
      let z = c % 4 * 64 + d in
      let (mx, _, _) = masks x (omega arith) in
      let (_, my, _) = masks y (omega arith) in
      let (_, _, mz) = masks z (omega arith) in
      let e1 : x / 2 ^ 2 ≡ a = omega arith in
      let e2 : bit_or (x % 4 * 2 ^ 4 % 256) (y / 2 ^ 4) ≡ b =
        let s1 : x % 4 * 2 ^ 4 % 256 ≡ (b / 16) * 2 ^ 4 = omega arith in
        let s2 : y / 2 ^ 4 ≡ b % 16 = omega arith in
        rw (s1, s2) (bit_or-fields 4 (b / 16) (b % 16) (omega arith) ∙ omega arith) in
      let e3 : bit_or (y % 16 * 2 ^ 2 % 256) (z / 2 ^ 6) ≡ c =
        let s1 : y % 16 * 2 ^ 2 % 256 ≡ (c / 4) * 2 ^ 2 = omega arith in
        let s2 : z / 2 ^ 6 ≡ c % 4 = omega arith in
        rw (s1, s2) (bit_or-fields 2 (c / 4) (c % 4) (omega arith) ∙ omega arith) in
      let e4 : z % 64 ≡ d = omega arith in
      rw (first, second, third, mx, my, mz, e1, e2, e3, e4) refl

-- The codes of packable characters.
codes_of : List ℕ → List ℕ
codes_of = map (λ c. bit_and c 0x3f)

text_codes_lem :
    (capacity taken : ℕ) (cs : List ℕ)
    → All IsPackable cs
    → taken + length cs ≤ capacity
    → text_codes capacity taken cs ≡ ok (codes_of cs)
unfolding text_codes codes_of
text_codes_lem capacity taken [] h le = refl
text_codes_lem capacity taken (c ∷ cs) (hc, hs) le =
    let rec = text_codes_lem capacity (taken + 1) cs hs (omega arith) in ground (arith, rec)

-- Groups of four codes come back.
unpack-pack_groups :
    (k : ℕ) (codes : List ℕ)
    → All (λ c. c < 64) codes
    → length codes ≡ k * 4
    → unpack_groups (pack_groups codes) ≡ map ascii_of codes
unfolding pack_groups unpack_groups
unpack-pack_groups k [] h e = refl
unpack-pack_groups (suc k) (a ∷ b ∷ c ∷ d ∷ codes) (ha, (hb, (hc, (hd, hs)))) e =
    unpack-pack_group a b c d ha hb hc hd (pack_groups codes)
    ∙ ap (λ t. ascii_of a ∷ ascii_of b ∷ ascii_of c ∷ ascii_of d ∷ t)
        (unpack-pack_groups k codes hs (omega arith))
unpack-pack_groups zero (a ∷ codes) h e = absurd (omega arith)
unpack-pack_groups (suc k) (a ∷ []) h e = absurd (omega arith)
unpack-pack_groups (suc k) (a ∷ b ∷ []) h e = absurd (omega arith)
unpack-pack_groups (suc k) (a ∷ b ∷ c ∷ []) h e = absurd (omega arith)

-- Four codes take three bytes.
length-pack_groups :
    (k : ℕ) (codes : List ℕ) → length codes ≡ k * 4 → length (pack_groups codes) ≡ k * 3
unfolding pack_groups pack_group
length-pack_groups zero [] e = refl
length-pack_groups (suc k) (a ∷ b ∷ c ∷ d ∷ codes) e =
    omega (arith, length-pack_groups k codes (omega arith))
length-pack_groups zero (a ∷ codes) e = absurd (omega arith)
length-pack_groups (suc k) [] e = absurd (omega arith)
length-pack_groups (suc k) (a ∷ []) e = absurd (omega arith)
length-pack_groups (suc k) (a ∷ b ∷ []) e = absurd (omega arith)
length-pack_groups (suc k) (a ∷ b ∷ c ∷ []) e = absurd (omega arith)

-- Unpacking the padded codes of a text gives the padded text.
take_within : {A : Type 0} → (n : ℕ) (xs : List A) → length xs ≤ n → take n xs ≡ xs
take_within zero [] h = refl
take_within (suc n) [] h = refl
take_within zero (x ∷ xs) h = absurd (omega arith)
take_within (suc n) (x ∷ xs) h = ap (◌∷◌ x) (take_within n xs (omega arith))

padded :
    (n : ℕ) (cs : List ℕ)
    → All IsPackable cs
    → (All (λ c. c < 64) (codes_of cs ++ replicate n (bit_and 0x20 0x3f)))
      × (map ascii_of (codes_of cs ++ replicate n (bit_and 0x20 0x3f)) ≡ cs ++ replicate n 0x20)
unfolding codes_of ascii_of
padded zero [] h = (tt, refl)
padded (suc n) [] h = let (p, q) = padded n [] tt in ((omega arith, p), ap (◌∷◌ 0x20) q)
padded n (c ∷ cs) (hc, hs) =
    let (p, q) = padded n cs hs in let (r, s) = ascii-code c hc in ((s, p), rw r (ap (◌∷◌ c) q))

length-codes_of : (cs : List ℕ) → length (codes_of cs) ≡ length cs
unfolding codes_of
length-codes_of [] = refl
length-codes_of (c ∷ cs) = ap suc (length-codes_of cs)

-- Spaces at the end are trimmed.
trim_end-spaces : (n : ℕ) → trim_end_matches is_whitespace (replicate n 0x20) ≡ []
unfolding trim_end_matches is_whitespace
trim_end-spaces zero = refl
trim_end-spaces (suc n) = rw (trim_end-spaces n) refl

trim_end-append_spaces :
    (cs : List ℕ) (n : ℕ)
    → trim_end_matches is_whitespace (cs ++ replicate n 0x20) ≡ trim_end_matches is_whitespace cs
unfolding trim_end_matches
trim_end-append_spaces [] n = trim_end-spaces n
trim_end-append_spaces (c ∷ cs) n = rw (trim_end-append_spaces cs n) refl

padded_codes : List ℕ → ℕ → List ℕ
padded_codes cs n = codes_of cs ++ replicate n (bit_and 0x20 0x3f)

length-padded_codes : (cs : List ℕ) (n : ℕ) → length (padded_codes cs n) ≡ length cs + n
unfolding padded_codes
length-padded_codes cs n = omega (
  arith,
  length-append (codes_of cs) (replicate n (bit_and 0x20 0x3f)),
  length-codes_of cs,
  length-replicate n (bit_and 0x20 0x3f),
)

resize-codes_of :
    (cs : List ℕ) (n : ℕ)
    → length cs ≤ n
    → resize n (bit_and 0x20 0x3f) (codes_of cs) ≡ padded_codes cs (n - length cs)
unfolding padded_codes
resize-codes_of cs n le =
    let whole = take_within n (codes_of cs) (omega (arith, length-codes_of cs)) in
    rw (whole, length-codes_of cs) refl

pack_text_lem :
    (text : List ℕ) (k : ℕ)
    → k * 3 ≤ 255
    → All IsPackable text
    → length text ≤ k * 4
    → pack_text text (k * 3) ≡ ok (pack_groups (padded_codes text (k * 4 - length text)))
unfolding pack_text
pack_text_lem text k hk hs le =
    let capacity : k * 3 / 3 * 4 ≡ k * 4 = omega arith in
    let within : ltb u8_max (k * 3) ≡ false = grind arith in
    let groups : (k * 3 % 3 == 0) ≡ true = grind arith in
    rw
      (
        within,
        groups,
        capacity,
        text_codes_lem (k * 4) 0 text hs (omega arith),
        resize-codes_of text (k * 4) le,
      )
      refl

-- A text of characters in 0x20..=0x5F that fits in the output is packed, in exactly the output's
-- length, and unpacking gives it back without the whitespace at its end.
pub unpack_text-pack_text :
    (text : List ℕ) (k : ℕ)
    → k * 3 ≤ 255
    → All IsPackable text
    → length text ≤ k * 4
    → (bytes : List ℕ) × (pack_text text (k * 3) ≡ ok bytes)
      × (length bytes ≡ k * 3)
      × (unpack_text bytes ≡ trim_end text)
unfolding pack_text unpack_text trim_end padded_codes codes_of
unpack_text-pack_text text k hk hs le =
    let fill = k * 4 - length text in
    let codes = padded_codes text fill in
    let size = length-padded_codes text fill in
    let count : length codes ≡ k * 4 = unfold padded_codes in omega (arith, size) in
    let (small, back) = padded fill text hs in
    (
      pack_groups codes,
      pack_text_lem text k hk hs le,
      length-pack_groups k codes count,
      ap (trim_end_matches is_whitespace) (unpack-pack_groups k codes small count ∙ back)
          ∙ trim_end-append_spaces text fill,
    )
