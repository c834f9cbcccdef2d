-- ===== src/Operation/Tests.antt =====
-- Runs of the operation codecs' theorems at concrete data.
use hart_link.Common.{ℕ, ◌*◌, ◌≡◌, ◌≢◌, none, refl, arith, All, List, [], ◌∷◌, length, ok}
use hart_link.Operation.Codec.{
  PayloadReader, PayloadWriter, new_reader, new_writer, finish_reader, write_u8, write_u16,
  write_u24, write_bytes,
}
use hart_link.Operation.Codec.Fields.{
  Field, byte, half, triple, raw, FitsField, write_field, write_fields, read_fields,
  read_fields-write_fields,
}
use hart_link.Wire.Address.{polling, primary}
use hart_link.Wire.Frame.{Frame, fsk, request, response, encode, delimiter}
use hart_link.Wire.Frame.Layout.{frame_bytes}
use hart_link.Operation.Exchange.{
  Request, DeviceReply, to_frame, from_frame, wire_parts, validate_request, is_expanded,
}
use hart_link.Operation.Exchange.Carried.{carried, to_frame-carried, from_frame-wire_parts}
use hart_link.Operation.Text.{pack_text, unpack_text, trim_end}
use hart_link.Operation.Text.Packed.{unpack_text-pack_text}

abbrev fields : List Field
fields = byte 7 ∷ half 0x1234 ∷ triple 0x56789a ∷ raw (1 ∷ 2 ∷ []) ∷ []

abbrev payload : PayloadWriter
payload = record { written = 7 ∷ 0x12 ∷ 0x34 ∷ 0x56 ∷ 0x78 ∷ 0x9a ∷ 1 ∷ 2 ∷ [] }

fields_written : write_fields new_writer fields ≡ ok payload
unfolding write_fields write_field write_u8 write_u16 write_u24 write_bytes
fields_written = refl

fields_fit : All FitsField fields
fields_fit = (omega arith, (omega arith, (omega arith, (tt, tt))))

read_fields-write_fields_example :
    (r : PayloadReader) × (read_fields (new_reader payload.written) fields "payload"
      ≡ ok (fields, r))
    × (finish_reader r ≡ ok tt)
read_fields-write_fields_example =
    read_fields-write_fields fields payload "payload" fields_fit fields_written (omega arith)

-- "PUMP 7 " with a space at its end.
abbrev tag_text : List ℕ
tag_text = 0x50 ∷ 0x55 ∷ 0x4d ∷ 0x50 ∷ 0x20 ∷ 0x37 ∷ 0x20 ∷ []

unpack_text-pack_text_example :
    (bytes : List ℕ) × (pack_text tag_text (2 * 3) ≡ ok bytes)
    × (length bytes ≡ 2 * 3)
    × (unpack_text bytes ≡ trim_end tag_text)
unpack_text-pack_text_example =
    unpack_text-pack_text tag_text 2 (omega arith) (omega arith) (omega arith)

-- A write of an expanded command, and the frame that answers it.
abbrev order : Request
order = record {
  address = polling 3 primary;
  command = 0x1234;
  data_bytes = 7 ∷ 8 ∷ [];
  preambles = 5;
  frame_expansion = [];
  physical_layer = fsk;
  retry_safety = none;
}

abbrev order_frame : Frame
order_frame = record {
  preambles = 5;
  kind = request;
  physical_layer = fsk;
  address = polling 3 primary;
  expansion = [];
  wire_command = 31;
  payload = 0x12 ∷ 0x34 ∷ 7 ∷ 8 ∷ [];
  repair = none;
}

abbrev answer_frame : Frame
answer_frame = record {
  preambles = 5;
  kind = response;
  physical_layer = fsk;
  address = polling 3 primary;
  expansion = [];
  wire_command = 31;
  payload = 0 ∷ 0x40 ∷ 0x12 ∷ 0x34 ∷ 7 ∷ 8 ∷ [];
  repair = none;
}

order_framed : to_frame order ≡ ok order_frame
unfolding to_frame validate_request wire_parts is_expanded delimiter
order_framed = refl

order_parts : wire_parts 0x1234 (7 ∷ 8 ∷ []) ≡ ok (31, 0x12 ∷ 0x34 ∷ 7 ∷ 8 ∷ [])
unfolding wire_parts is_expanded
order_parts = refl

expanded_ne : order.command ≢ 31
expanded_ne e = omega (arith, e)

to_frame-carried_example :
    (encode order_frame ≡ ok (frame_bytes order_frame))
    × (carried order_frame.wire_command order_frame.payload ≡ (0x1234, 7 ∷ 8 ∷ []))
to_frame-carried_example = to_frame-carried order order_frame (omega arith) expanded_ne order_framed

from_frame-wire_parts_example :
    (r : DeviceReply) × (from_frame answer_frame ≡ ok r)
    × (r.command ≡ 0x1234)
    × (r.response_code ≡ 0)
    × (r.device_status ≡ 0x40)
    × (r.data_bytes ≡ 7 ∷ 8 ∷ [])
from_frame-wire_parts_example =
    from_frame-wire_parts answer_frame 0x1234 31 0 0x40 (7 ∷ 8 ∷ []) (0x12 ∷ 0x34 ∷ 7 ∷ 8 ∷ [])
      (omega arith) expanded_ne order_parts refl refl refl
