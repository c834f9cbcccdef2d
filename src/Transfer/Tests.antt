-- ===== src/Transfer/Tests.antt =====
-- Runs of the transfer's theorems at concrete blocks.
use hart_link.Common.{
  ℕ, ◌+◌, ◌≡◌, ◌≢◌, refl, arith, true, false, some, List, [], ◌∷◌, length, ok, err, if◌then◌else◌,
}
use hart_link.Transfer.{
  BlockSender, TransferBlock, out_of_order, sequence_space, new_sender, new_receiver, accept,
  finish, incomplete,
}
use hart_link.Transfer.Receiver.{
  IsReceiver, new_receiver-IsReceiver, accept-IsReceiver, accept_refused,
}
use hart_link.Transfer.Sequence.{offer_all, offer_all-in_order, Ordered, block_bytes, has_last}
use hart_link.Transfer.Delivery.{deliver, deliver_whole}

abbrev source_bytes : List ℕ
source_bytes = 1 ∷ 2 ∷ 3 ∷ 4 ∷ 5 ∷ []

abbrev sender : BlockSender
sender = record {
  source = source_bytes;
  block_size = 2;
  offset = 0;
  sequence = 0;
  complete = false;
}

abbrev first_block : TransferBlock
first_block = record { sequence = 0; last = false; block_data = 7 ∷ 8 ∷ [] }

abbrev later_block : TransferBlock
later_block = record { sequence = 4; last = true; block_data = 9 ∷ [] }

sender_made : new_sender source_bytes 2 ≡ ok sender
unfolding new_sender
sender_made = refl

deliver_whole_example :
    deliver (length source_bytes + 2) sender (new_receiver 100) ≡ some (ok source_bytes)
deliver_whole_example = deliver_whole source_bytes 2 100 sender sender_made (omega arith)

later_refused : (accept (new_receiver 100) later_block).0 ≡ err (out_of_order 0 4)
unfolding accept new_receiver
later_refused = refl

-- A block that is repeated, and one that comes too early, before the second of the sequence.
abbrev second_block : TransferBlock
second_block = record { sequence = 1; last = true; block_data = 5 ∷ [] }

abbrev offered : List TransferBlock
offered = first_block ∷ first_block ∷ later_block ∷ second_block ∷ later_block ∷ []

taken : (offer_all (new_receiver 100) offered).1 ≡ first_block ∷ second_block ∷ []
unfolding offer_all accept new_receiver
taken = refl

offer_all-in_order_example :
    let o = offer_all (new_receiver 100) offered in
    Ordered 0 o.1
    × (o.0.bytes ≡ block_bytes o.1)
    × (finish o.0 ≡ (if has_last o.1 then ok (block_bytes o.1) else err incomplete))
offer_all-in_order_example = offer_all-in_order 100 offered (omega arith)

not_sequence_space : out_of_order 0 4 ≢ sequence_space
not_sequence_space e = cc

accept_refused_example : (accept (new_receiver 100) later_block).1 ≡ new_receiver 100
accept_refused_example =
    accept_refused (new_receiver 100) later_block (out_of_order 0 4) later_refused
      not_sequence_space

accept-IsReceiver_example : IsReceiver (accept (new_receiver 100) first_block).1
accept-IsReceiver_example =
    accept-IsReceiver (new_receiver 100) first_block (new_receiver-IsReceiver 100)
