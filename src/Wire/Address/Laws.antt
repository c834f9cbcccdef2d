-- ===== src/Wire/Address/Laws.antt =====
-- Reading an address back from the bytes that `write_to` wrote.
use hart_link.Common.{
  ℕ, ◌/◌, ◌%◌, ◌<◌, ◌≤◌, ◌≡◌, refl, arith, bit_and, bit_or, Bool, true, false, List, [], length,
  ==_iff, ◌==◌, ok, join16_value, join24_value, ◌&&◌,
}
use hart_link.Common.Bits.{holds_below, holds_below-at}
use hart_link.Wire.Address.{
  Address, polling, unique, Master, primary, secondary, address_bit, burst_bit, from_address_byte,
  write_to, read_from, encoded_len,
}

-- The address fits its fields on the wire.
abbrev pub IsAddress : Address → Type 0
IsAddress (polling node master) = node ≤ 63
IsAddress (unique expanded_type device_id master) =
    (expanded_type ≤ 0x3fff) × (device_id ≤ 0x00ffffff)

abbrev pub is_long : Address → Bool
is_long (polling node master) = false
is_long (unique expanded_type device_id master) = true

same_master : Master → Master → Bool
same_master primary primary = true
same_master secondary secondary = true
same_master _ _ = false

same_master_eq : (m n : Master) → same_master m n ≡ true → m ≡ n
unfolding same_master
same_master_eq primary primary h = refl
same_master_eq secondary secondary h = refl
same_master_eq primary secondary h = cc
same_master_eq secondary primary h = cc

-- The first address byte, whose low six bits carry `x`.
abbrev lead : Master → Bool → ℕ → ℕ
lead m burst x = bit_or (bit_or (address_bit m) (burst_bit burst)) x

-- The master, the six low bits and the range of such a byte.
abbrev lead_fits : Master → Bool → ℕ → Bool
lead_fits m burst x =
    same_master (from_address_byte (lead m burst x)) m
    && ((bit_and (lead m burst x) 0x3f == x) && (lead m burst x / 256 == 0))

lead_table : (m : Master) (burst : Bool) → holds_below 64 (lead_fits m burst) ≡ true
unfolding holds_below address_bit burst_bit from_address_byte same_master
lead_table primary true = refl
lead_table primary false = refl
lead_table secondary true = refl
lead_table secondary false = refl

lead_lem :
    (m : Master) (burst : Bool) (x : ℕ)
    → x < 64
    → (from_address_byte (lead m burst x) ≡ m)
      × (bit_and (lead m burst x) 0x3f ≡ x)
      × (lead m burst x < 256)
lead_lem m burst x h = ground (
  arith,
  holds_below-at 64 (lead_fits m burst) x (lead_table m burst) h,
  same_master_eq (from_address_byte (lead m burst x)) m,
)

mask_table : holds_below 64 (λ x. bit_and x 0x3f == x) ≡ true
unfolding holds_below
mask_table = refl

mask_lem : (x : ℕ) → x < 64 → bit_and x 0x3f ≡ x
mask_lem x h = (==_iff _ x).0 (holds_below-at 64 _ x mask_table h)

-- The bytes of an address, as `write_to` leaves them in an empty output.
abbrev pub address_bytes : Address → Bool → List ℕ
address_bytes a burst = write_to a burst []

pub length-address_bytes :
    (a : Address) (burst : Bool) → length (address_bytes a burst) ≡ encoded_len a
unfolding write_to encoded_len
length-address_bytes (polling node m) burst = refl
length-address_bytes (unique t d m) burst = refl

-- An address that fits its fields is read back whole from the bytes written for it, whatever the
-- burst bit.
pub read_from-write_to :
    (a : Address) (burst : Bool) → IsAddress a → read_from (write_to a burst []) (is_long a) ≡ ok a
unfolding write_to read_from
read_from-write_to (polling node m) burst h = ground (arith, lead_lem m burst node (omega arith))
read_from-write_to (unique t d m) burst h = rw (mask_lem (t / 256 % 256) (omega arith)) (
    ground (
      arith,
      lead_lem m burst (t / 256 % 256) (omega arith),
      join16_value (t / 256 % 256) (t % 256) (omega arith),
      join24_value (d / 65536 % 256) (d / 256 % 256) (d % 256) (omega arith) (omega arith),
    ))
