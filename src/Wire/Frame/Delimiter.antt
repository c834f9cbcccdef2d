-- ===== src/Wire/Frame/Delimiter.antt =====
-- The fields of a delimiter byte, read back.
use hart_link.Common.{
  ℕ, ◌/◌, ◌<◌, ◌≤◌, ◌≡◌, refl, arith, bit_and, Bool, true, false, ◌&&◌, not, Option, some, ◌==◌,
}
use hart_link.Common.Bits.{holds_below, holds_below-at}
use hart_link.Wire.Frame.{
  FrameKind, request, response, burst, PhysicalLayer, fsk, psk, delimiter_byte, kind_from_delimiter,
  layer_from_delimiter,
}

abbrev same_kind : Option FrameKind → FrameKind → Bool
same_kind (some request) request = true
same_kind (some response) response = true
same_kind (some burst) burst = true
same_kind _ _ = false

same_kind_eq : (o : Option FrameKind) (k : FrameKind) → same_kind o k ≡ true → o ≡ some k
same_kind_eq (some request) request h = refl
same_kind_eq (some response) response h = refl
same_kind_eq (some burst) burst h = refl
same_kind_eq o k h = ground arith

abbrev same_layer : PhysicalLayer → PhysicalLayer → Bool
same_layer fsk fsk = true
same_layer psk psk = true
same_layer _ _ = false

same_layer_eq : (l m : PhysicalLayer) → same_layer l m ≡ true → l ≡ m
same_layer_eq fsk fsk h = refl
same_layer_eq psk psk h = refl
same_layer_eq l m h = ground arith

abbrev same_bool : Bool → Bool → Bool
same_bool true b = b
same_bool false b = not b

-- The decoder's view of a delimiter: kind, layer, long bit, expansion length, and a byte.
abbrev reads_back : FrameKind → PhysicalLayer → Bool → ℕ → Bool
reads_back k l long n =
    let d = delimiter_byte k l long n in
    same_kind (kind_from_delimiter d) k
    && (same_layer (layer_from_delimiter d) l
        && (same_bool (not (bit_and d 0x80 == 0)) long
            && ((bit_and (d / 32) 0x03 == n) && (d / 256 == 0))))

reads_back_table :
    (k : FrameKind) (l : PhysicalLayer) (long : Bool) → holds_below 4 (reads_back k l long) ≡ true
unfolding holds_below delimiter_byte kind_from_delimiter layer_from_delimiter
reads_back_table request fsk true = refl
reads_back_table request fsk false = refl
reads_back_table request psk true = refl
reads_back_table request psk false = refl
reads_back_table response fsk true = refl
reads_back_table response fsk false = refl
reads_back_table response psk true = refl
reads_back_table response psk false = refl
reads_back_table burst fsk true = refl
reads_back_table burst fsk false = refl
reads_back_table burst psk true = refl
reads_back_table burst psk false = refl

pub record ReadsBack (k : FrameKind) (l : PhysicalLayer) (long : Bool) (n d : ℕ) : Type 0 where
  pub kind_back : kind_from_delimiter d ≡ some k
  pub layer_back : layer_from_delimiter d ≡ l
  pub long_back : not (bit_and d 0x80 == 0) ≡ long
  pub length_back : bit_and (d / 32) 0x03 ≡ n
  pub byte : d < 256

-- Every field of a delimiter byte is read back, for the expansion lengths that a frame may have.
pub delimiter_byte-ReadsBack :
    (k : FrameKind) (l : PhysicalLayer) (long : Bool) (n : ℕ)
    → n ≤ 3
    → ReadsBack k l long n (delimiter_byte k l long n)
delimiter_byte-ReadsBack k l long n h =
    let d = delimiter_byte k l long n in
    let e = holds_below-at 4 (reads_back k l long) n (reads_back_table k l long) (omega arith) in
    record {
      kind_back = same_kind_eq (kind_from_delimiter d) k (ground (arith, e));
      layer_back = same_layer_eq (layer_from_delimiter d) l (ground (arith, e));
      long_back = ground (arith, e);
      length_back = ground (arith, e);
      byte = ground (arith, e);
    }
