-- ===== src/Operation/Exchange/Carried.antt =====
-- What the frame of a request carries.
use hart_link.Common.{
  ℕ, ◌+◌, ◌*◌, ◌/◌, ◌%◌, ◌≤◌, ◌<◌, ◌≡◌, ◌≢◌, refl, arith, ap, sym, ◌∙◌, true, false, Bool-cases,
  inl, inr, List, ◌∷◌, ◌++◌, length, drop, get_or, ltb, leb, ◌==◌, if◌then◌else◌, Result, ok,
  ok_inj, be16, join16, join16_value,
}
use hart_link.Wire.Frame.{is_burst, Frame, encode}
use hart_link.Wire.Frame.Layout.{frame_bytes, encode_lem}
use hart_link.Operation.Codec.{OperationError}
use hart_link.Operation.Exchange.{
  Request, is_expanded, validate_request, wire_parts, to_frame, DeviceReply, is_request,
  reply_command, from_frame,
}

-- The command number and the data in a request's frame, as the device reads them.
abbrev pub carried : ℕ → List ℕ → ℕ × List ℕ
carried number bytes =
    if number == 31
    then (join16 (get_or bytes 0 0) (get_or bytes 1 0), drop 2 bytes)
    else (number, bytes)

validate_request_lem :
    (r : Request)
    → validate_request r ≡ ok tt
    → ((if is_expanded r.command then 1 else 0) * 2 + length r.data_bytes ≤ 255)
      × (length r.frame_expansion ≤ 3)
unfolding validate_request
validate_request_lem r e = ground arith

-- The parts of a command number that is not 31.
wire_parts_lem :
    (number : ℕ) (bytes : List ℕ)
    → number < 65536
    → number ≢ 31
    → (w : ℕ) × (p : List ℕ) × (wire_parts number bytes ≡ ok (w, p))
      × (carried w p ≡ (number, bytes))
      × (length p ≡ (if is_expanded number then 1 else 0) * 2 + length bytes)
unfolding wire_parts is_expanded
wire_parts_lem number bytes small ne = elim (Bool-cases (ltb 255 number)) [
  | inl big ↦
      let joined : join16 (number / 256 % 256) (number % 256) ≡ number =
        join16_value (number / 256 % 256) (number % 256) (omega arith) ∙ omega arith in
      (31, be16 number ++ bytes, rw big refl, ap (λ n. (n, bytes)) joined, rw big (omega arith))
  | inr little ↦
      let not_service : (number == 31) ≡ false = ground (arith, ne) in
      let fits : leb number 255 ≡ true = ground (arith, little) in
      (number, bytes, rw (little, fits) refl, rw not_service refl, rw little (omega arith))
]

to_frame-wire_parts :
    (r : Request) (f : Frame) (w : ℕ) (p : List ℕ)
    → wire_parts r.command r.data_bytes ≡ ok (w, p)
    → to_frame r ≡ ok f
    → (validate_request r ≡ ok tt)
      × (f.wire_command ≡ w)
      × (f.payload ≡ p)
      × (f.expansion ≡ r.frame_expansion)
unfolding to_frame
to_frame-wire_parts r f w p parts e = ground (arith, parts, e)

-- A request of a command other than 31 whose frame is made is one that the wire can carry: `encode`
-- does not fail on the frame, and the frame holds the command number and the data unchanged.
pub to_frame-carried :
    (r : Request) (f : Frame)
    → r.command < 65536
    → r.command ≢ 31
    → to_frame r ≡ ok f
    → (encode f ≡ ok (frame_bytes f))
      × (carried f.wire_command f.payload ≡ (r.command, r.data_bytes))
to_frame-carried r f small ne e =
    let (w, p, parts, same, size) = wire_parts_lem r.command r.data_bytes small ne in
    let (valid, number, bytes, expansion) = to_frame-wire_parts r f w p parts e in
    let (room, short) = validate_request_lem r valid in
    let three : length f.expansion ≤ 3 = rw expansion short in
    let count : length f.payload ≤ 255 = rw (bytes, size) room in
    (encode_lem f three count, rw (number, bytes) same)

-- The command number and the data start of a reply to a command other than 31.
reply_command_lem :
    (number w code status : ℕ) (bytes p : List ℕ)
    → number < 65536
    → number ≢ 31
    → wire_parts number bytes ≡ ok (w, p)
    → (start : ℕ) × (reply_command w (code ∷ status ∷ p) ≡ ok (number, start))
      × (drop start (code ∷ status ∷ p) ≡ bytes)
unfolding wire_parts is_expanded reply_command
reply_command_lem number w code status bytes p small ne e = elim (Bool-cases (ltb 255 number)) [
  | inl big ↦
      let made : ◌≡◌ {A = Result OperationError (ℕ × List ℕ)} (ok (31, be16 number ++ bytes))
          (ok (w, p)) =
        rw big at e in
      let wire : 31 ≡ w = ap (λ x. x.0) (ok_inj made) in
      let carries : be16 number ++ bytes ≡ p = ap (λ x. x.1) (ok_inj made) in
      let joined : join16 (number / 256 % 256) (number % 256) ≡ number =
        join16_value (number / 256 % 256) (number % 256) (omega arith) ∙ omega arith in
      let room : ltb (length (code ∷ status ∷ (be16 number ++ bytes))) 4 ≡ false = ground arith in
      (4, rw (sym wire, sym carries, joined, room) refl, rw (sym carries) refl)
  | inr little ↦
      let not_service : (number == 31) ≡ false = ground (arith, ne) in
      let fits : leb number 255 ≡ true = ground (arith, little) in
      let made : ◌≡◌ {A = Result OperationError (ℕ × List ℕ)} (ok (number, bytes)) (ok (w, p)) =
        rw (little, fits) at e in
      let wire : number ≡ w = ap (λ x. x.0) (ok_inj made) in
      let carries : bytes ≡ p = ap (λ x. x.1) (ok_inj made) in
      (2, rw (sym wire, not_service) refl, sym carries)
]

-- A response or burst frame that answers a command other than 31, with a code and a status in front of
-- the command's own bytes, is read as a reply of that command with that code, status and data.
pub from_frame-wire_parts :
    (f : Frame) (number w code status : ℕ) (bytes p : List ℕ)
    → number < 65536
    → number ≢ 31
    → wire_parts number bytes ≡ ok (w, p)
    → is_request f.kind ≡ false
    → f.wire_command ≡ w
    → f.payload ≡ code ∷ status ∷ p
    → (r : DeviceReply) × (from_frame f ≡ ok r)
      × (r.command ≡ number)
      × (r.response_code ≡ code)
      × (r.device_status ≡ status)
      × (r.data_bytes ≡ bytes)
unfolding from_frame
from_frame-wire_parts f number w code status bytes p small ne parts answers wire payload =
    let (start, found, carries) = reply_command_lem number w code status bytes p small ne parts in
    let long : ltb (length (code ∷ status ∷ p)) 2 ≡ false = ground arith in
    let reply : DeviceReply = record {
      address = f.address;
      command = number;
      response_code = code;
      device_status = status;
      data_bytes = drop start (code ∷ status ∷ p);
      burst = is_burst f.kind;
      physical_layer = f.physical_layer;
      response_preambles = f.preambles;
      frame_expansion = f.expansion;
    } in
    (reply, rw (answers, payload, long, wire, found) refl, refl, refl, refl, carries)
