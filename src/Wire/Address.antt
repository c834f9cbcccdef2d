-- ===== src/Wire/Address.antt =====
-- src/wire/address.rs, with the error type of src/wire/frame.rs.
pub mod Laws
use hart_link.Common.{
  ℕ, ◌*◌, ◌/◌, ◌^◌, bit_and, bit_or, Bool, true, false, Option, none, some, List, [], ◌∷◌, ◌++◌,
  length, get_or, ltb, ◌==◌, if◌then◌else◌, Result, ok, err, ◌>>=◌, be16, be24, join16, join24,
}

-- Error while constructing or decoding a data-link frame.
pub data WireError : Type 0 where
  bad_polling_address : ℕ → WireError
  expanded_device_type : ℕ → WireError
  device_identifier : ℕ → WireError
  expansion_length : ℕ → WireError
  payload_length : ℕ → WireError
  truncated : WireError
  bad_delimiter : ℕ → WireError
  bad_checksum : (expected actual : ℕ) → WireError

pub data Master : Type 0 where
  primary secondary : Master

unfoldable pub address_bit : Master → ℕ
address_bit primary = 0x80
address_bit secondary = 0

unfoldable pub from_address_byte : ℕ → Master
from_address_byte byte = if bit_and byte 0x80 == 0 then secondary else primary

pub data Address : Type 0 where
  polling : (node : ℕ) → Master → Address
  unique : (expanded_type device_id : ℕ) → Master → Address

-- `Address::polling` and `Address::unique`, the validating constructors.
unfoldable pub new_polling : ℕ → Master → Result WireError Address
new_polling node master =
    if ltb 63 node then err (bad_polling_address node) else ok (polling node master)

unfoldable pub new_unique : ℕ → ℕ → Master → Result WireError Address
new_unique expanded_type device_id master =
    if ltb 0x3fff expanded_type
    then err (expanded_device_type expanded_type)
    else if ltb 0x00ffffff device_id
    then err (device_identifier device_id)
    else ok (unique expanded_type device_id master)

unfoldable pub encoded_len : Address → ℕ
encoded_len (polling node master) = 1
encoded_len (unique expanded_type device_id master) = 5

unfoldable pub address_master : Address → Master
address_master (polling node master) = master
address_master (unique expanded_type device_id master) = master

unfoldable pub polling_node : Address → Option ℕ
polling_node (polling node master) = some node
polling_node (unique expanded_type device_id master) = none

unfoldable pub unique_parts : Address → Option (ℕ × ℕ)
unique_parts (unique expanded_type device_id master) = some (expanded_type, device_id)
unique_parts (polling node master) = none

-- `u8::from(burst) << 6`
unfoldable pub burst_bit : Bool → ℕ
burst_bit true = 0x40
burst_bit false = 0

-- What `write_to` appends to the output.
unfoldable pub write_to : Address → Bool → List ℕ → List ℕ
unfolding address_bit burst_bit
write_to (polling node master) burst output =
    output ++ bit_or (bit_or (address_bit master) (burst_bit burst)) node ∷ []
write_to (unique expanded_type device_id master) burst output =
    let type_bytes = be16 expanded_type in
    ((output
        ++ bit_or (bit_or (address_bit master) (burst_bit burst))
            (bit_and (get_or type_bytes 0 0) 0x3f)
          ∷ [])
      ++ get_or type_bytes 1 0 ∷ [])
    ++ be24 device_id

unfoldable pub read_from : List ℕ → Bool → Result WireError Address
unfolding from_address_byte new_polling new_unique
read_from [] long = err truncated
read_from (first ∷ rest) long =
    let bytes = first ∷ rest in
    let master = from_address_byte first in
    if long
    then (if ltb (length bytes) 5
        then err truncated
        else new_unique (join16 (bit_and first 0x3f) (get_or bytes 1 0))
            (join24 (get_or bytes 2 0) (get_or bytes 3 0) (get_or bytes 4 0)) master)
    else new_polling (bit_and first 0x3f) master
