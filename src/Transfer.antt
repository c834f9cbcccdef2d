-- ===== src/Transfer.antt =====
-- src/service/transfer.rs: the sender and the receiver of a block transfer. A method that changes the
-- object returns its result and the new state.

mod Tests
pub mod Sequence
pub mod Receiver
pub mod Delivery
use hart_link.Common.{
  ℕ, ◌+◌, ◌-◌, ◌*◌, ◌/◌, min, max, Bool, true, false, not, ◌&&◌, Option, none, some, List, [], ◌++◌,
  length, slice, ltb, leb, ◌==◌, if◌then◌else◌, Result, ok, err, u16_max, usize_max, checked_add,
}

abbrev pub maximum_transfer_bytes : ℕ
maximum_transfer_bytes = 65536 * 251

pub data TransferError : Type 0 where
  bad_block_size : ℕ → TransferError
  block_data_size : ℕ → TransferError
  empty_intermediate_block : TransferError
  out_of_order : (expected actual : ℕ) → TransferError
  limit : TransferError
  already_complete : TransferError
  incomplete : TransferError
  sequence_space : TransferError

pub record TransferBlock : Type 0 where
  pub sequence : ℕ
  pub last : Bool
  pub block_data : List ℕ

pub record TransferProgress : Type 0 where
  pub next_sequence : ℕ
  pub transferred_bytes : ℕ
  pub complete : Bool

pub record BlockSender : Type 0 where
  pub source : List ℕ
  pub block_size : ℕ
  pub offset : ℕ
  pub sequence : ℕ
  pub complete : Bool

-- `usize::div_ceil`
abbrev pub div_ceil : ℕ → ℕ → ℕ
div_ceil a b = (a + b - 1) / b

-- `BlockSender::new`
unfoldable pub new_sender : List ℕ → ℕ → Result TransferError BlockSender
new_sender source block_size =
    if not (leb 1 block_size && leb block_size 251)
    then err (bad_block_size block_size)
    else if ltb maximum_transfer_bytes (length source)
    then err limit
    else if ltb (u16_max + 1) (div_ceil (max (length source) 1) block_size)
    then err sequence_space
    else ok (record {
      source = source;
      block_size = block_size;
      offset = 0;
      sequence = 0;
      complete = false;
    })

-- The end of `next_block`: the next number, where the block was not the last.
unfoldable pub advance_sender :
    BlockSender
    → TransferBlock
    → Option ℕ
    → Result TransferError (Option TransferBlock) × BlockSender
advance_sender s block none = (err sequence_space, s)
advance_sender s block (some n) = (ok (some block), record s { sequence = n })

unfoldable pub next_block : BlockSender → Result TransferError (Option TransferBlock) × BlockSender
unfolding advance_sender
next_block s =
    if s.complete
    then (ok none, s)
    else (let end = min (min (s.offset + s.block_size) usize_max) (length s.source) in
        let last = end == length s.source in
        let block : TransferBlock = record {
          sequence = s.sequence;
          last = last;
          block_data = slice s.offset end s.source;
        } in
        let s' = record s { offset = end; complete = last } in
        if not last
        then advance_sender s' block (checked_add u16_max s.sequence 1)
        else (ok (some block), s'))

unfoldable pub sender_progress : BlockSender → TransferProgress
sender_progress s = record {
  next_sequence = s.sequence;
  transferred_bytes = min s.offset (length s.source);
  complete = s.complete;
}

pub record BlockReceiver : Type 0 where
  pub bytes : List ℕ
  pub maximum_bytes : ℕ
  pub next_sequence : ℕ
  pub complete : Bool

-- `BlockReceiver::new` and `BlockReceiver::try_new`
unfoldable pub new_receiver : ℕ → BlockReceiver
new_receiver maximum_bytes = record {
  bytes = [];
  maximum_bytes = min maximum_bytes maximum_transfer_bytes;
  next_sequence = 0;
  complete = false;
}

unfoldable pub try_new_receiver : ℕ → Result TransferError BlockReceiver
unfolding new_receiver
try_new_receiver maximum_bytes =
    if ltb maximum_transfer_bytes maximum_bytes then err limit else ok (new_receiver maximum_bytes)

unfoldable pub receiver_progress : BlockReceiver → TransferProgress
receiver_progress r = record {
  next_sequence = r.next_sequence;
  transferred_bytes = length r.bytes;
  complete = r.complete;
}

-- The end of `accept`: the next number, where the block was not the last.
unfoldable pub advance_receiver :
    BlockReceiver → Option ℕ → Result TransferError TransferProgress × BlockReceiver
unfolding receiver_progress
advance_receiver r none = (err sequence_space, r)
advance_receiver r (some n) =
    let r' = record r { next_sequence = n } in (ok (receiver_progress r'), r')

-- `accept` from the size check on, with the new length.
unfoldable pub store_block :
    BlockReceiver → TransferBlock → Option ℕ → Result TransferError TransferProgress × BlockReceiver
unfolding advance_receiver
store_block r block none = (err limit, r)
store_block r block (some new_len) =
    if ltb r.maximum_bytes new_len
    then (err limit, r)
    else (let r' = record r { bytes = r.bytes ++ block.block_data; complete = block.last } in
        if not block.last
        then advance_receiver r' (checked_add u16_max r'.next_sequence 1)
        else (ok (receiver_progress r'), r'))

unfoldable pub accept :
    BlockReceiver → TransferBlock → Result TransferError TransferProgress × BlockReceiver
unfolding store_block
accept r block =
    if r.complete
    then (err already_complete, r)
    else if ltb 251 (length block.block_data)
    then (err (block_data_size (length block.block_data)), r)
    else if (length block.block_data == 0) && not block.last
    then (err empty_intermediate_block, r)
    else if not (block.sequence == r.next_sequence)
    then (err (out_of_order r.next_sequence block.sequence), r)
    else store_block r block (checked_add usize_max (length r.bytes) (length block.block_data))

-- `finish`
unfoldable pub finish : BlockReceiver → Result TransferError (List ℕ)
finish r = if r.complete then ok r.bytes else err incomplete
