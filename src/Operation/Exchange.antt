-- ===== src/Operation/Exchange.antt =====
-- src/operation/mod.rs: requests and replies, to and from frames. A command number is a native number
-- below 2 ^ 16.
pub mod Carried
use hart_link.Common.{
  ℕ, ◌+◌, ◌*◌, bit_and, Bool, true, false, not, Option, none, some, List, [], ◌∷◌, ◌++◌, length,
  drop, get_or, ltb, leb, ◌==◌, if◌then◌else◌, Result, ok, err, ◌>>=◌, ◌>>◌, reject_if, map_err,
  saturating_add, u8_max, be16, join16,
}
use hart_link.Wire.Address.{Address, WireError, expansion_length, payload_length}
use hart_link.Wire.Frame.{
  PhysicalLayer, fsk, FrameKind, request, response, burst, is_burst, Frame, delimiter,
}
use hart_link.Operation.Codec.{
  OperationError, command_mismatch, device_status, communication_status, truncated_field,
  invalid_value, wire_failure,
}

pub data OperationSafety : Type 0 where
  read_only idempotent_write action : OperationSafety

-- `CommandCode::is_expanded`
unfoldable pub is_expanded : ℕ → Bool
is_expanded command = ltb u8_max command

pub record Request : Type 0 where
  pub address : Address
  pub command : ℕ
  pub data_bytes : List ℕ
  pub preambles : ℕ
  pub frame_expansion : List ℕ
  pub physical_layer : PhysicalLayer
  pub retry_safety : Option OperationSafety

unfoldable pub new_request : Address → ℕ → List ℕ → Request
new_request to number bytes = record {
  address = to;
  command = number;
  data_bytes = bytes;
  preambles = 5;
  frame_expansion = [];
  physical_layer = fsk;
  retry_safety = none;
}

unfoldable pub validate_request : Request → Result OperationError (Unit {0})
unfolding is_expanded
validate_request r =
    let service_bytes = (if is_expanded r.command then 1 else 0) * 2 in
    let payload_len = saturating_add (length r.data_bytes) service_bytes in
    if ltb u8_max payload_len
    then err (wire_failure (payload_length payload_len))
    else if ltb 3 (length r.frame_expansion)
    then err (wire_failure (expansion_length (length r.frame_expansion)))
    else ok tt

unfoldable pub try_new_request : Address → ℕ → List ℕ → Result OperationError Request
unfolding new_request validate_request
try_new_request to number bytes =
    validate_request (new_request to number bytes) >>= λ _. ok (new_request to number bytes)

unfoldable pub with_frame_expansion : Request → List ℕ → Result OperationError Request
with_frame_expansion r expansion =
    if ltb 3 (length expansion)
    then err (invalid_value "frame expansion length")
    else ok (record r { frame_expansion = expansion })

-- The wire command and the payload; the number of an expanded command goes in front of the data.
unfoldable pub wire_parts : ℕ → List ℕ → Result OperationError (ℕ × List ℕ)
unfolding is_expanded
wire_parts number bytes =
    if is_expanded number
    then ok (31, be16 number ++ bytes)
    else if leb number u8_max
    then ok (number, bytes)
    else err (invalid_value "standard command number")

unfoldable pub to_frame : Request → Result OperationError Frame
unfolding validate_request wire_parts delimiter
to_frame r = do
  u ← validate_request r
  (number, bytes) ← wire_parts r.command r.data_bytes
  let frame : Frame = record {
    preambles = r.preambles;
    kind = request;
    physical_layer = r.physical_layer;
    address = r.address;
    expansion = r.frame_expansion;
    wire_command = number;
    payload = bytes;
    repair = none;
  }
  d ← map_err wire_failure (delimiter frame)
  ok frame

pub record DeviceReply : Type 0 where
  pub address : Address
  pub command : ℕ
  pub response_code : ℕ
  pub device_status : ℕ
  pub data_bytes : List ℕ
  pub burst : Bool
  pub physical_layer : PhysicalLayer
  pub response_preambles : ℕ
  pub frame_expansion : List ℕ

abbrev pub is_request : FrameKind → Bool
is_request request = true
is_request response = false
is_request burst = false

-- The command number of a reply and where its data start.
unfoldable pub reply_command : ℕ → List ℕ → Result OperationError (ℕ × ℕ)
reply_command number bytes =
    if number == 31
    then (if ltb (length bytes) 4
        then err (truncated_field "expanded command number" (length bytes))
        else ok (join16 (get_or bytes 2 0) (get_or bytes 3 0), 4))
    else ok (number, 2)

unfoldable pub from_frame : Frame → Result OperationError DeviceReply
unfolding reply_command
from_frame f = do
  reject_if (is_request f.kind) (invalid_value "response frame type")
  reject_if (ltb (length f.payload) 2)
      (truncated_field "response code and status" (length f.payload))
  (number, start) ← reply_command f.wire_command f.payload
  ok (record {
    address = f.address;
    command = number;
    response_code = get_or f.payload 0 0;
    device_status = get_or f.payload 1 0;
    data_bytes = drop start f.payload;
    burst = is_burst f.kind;
    physical_layer = f.physical_layer;
    response_preambles = f.preambles;
    frame_expansion = f.expansion;
  })

unfoldable pub require_command : DeviceReply → ℕ → Result OperationError (Unit {0})
require_command r expected =
    if not (r.command == expected) then err (command_mismatch expected r.command) else ok tt

unfoldable pub require_success : DeviceReply → ℕ → Result OperationError (Unit {0})
unfolding require_command
require_success r expected = do
  u ← require_command r expected
  if not (bit_and r.response_code 0x80 == 0)
      then err (communication_status r.response_code r.device_status)
      else if not (r.response_code == 0)
      then err (hart_link.Operation.Codec.device_status r.response_code r.device_status)
      else ok tt
