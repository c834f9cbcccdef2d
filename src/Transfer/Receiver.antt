-- ===== src/Transfer/Receiver.antt =====
-- What a receiver keeps, whatever blocks it is offered.
use hart_link.Common.{ℕ, ◌≤◌, ◌≡◌, ◌≢◌, arith, false, ◌++◌, length, length-append, ok, err}
use hart_link.Transfer.{
  BlockReceiver, TransferBlock, TransferError, TransferProgress, sequence_space, accept,
  new_receiver, receiver_progress, maximum_transfer_bytes,
}

-- The received bytes are within the limit, and the next number is a 16-bit one.
pub record IsReceiver (r : BlockReceiver) : Type 0 where
  pub within : length r.bytes ≤ r.maximum_bytes
  pub capped : r.maximum_bytes ≤ maximum_transfer_bytes
  pub numbered : r.next_sequence ≤ 65535

pub new_receiver-IsReceiver : (n : ℕ) → IsReceiver (new_receiver n)
unfolding new_receiver
new_receiver-IsReceiver n = omega arith

-- Every block, accepted or refused, leaves a receiver that is within its limits within them.
pub accept-IsReceiver :
    (r : BlockReceiver) (b : TransferBlock) → IsReceiver r → IsReceiver (accept r b).1
unfolding accept
accept-IsReceiver r b v = ground (arith, length-append r.bytes b.block_data)

-- A refused block leaves the receiver as it was, except where the numbers are exhausted.
pub accept_refused :
    (r : BlockReceiver) (b : TransferBlock) (e : TransferError)
    → (accept r b).0 ≡ err e
    → e ≢ sequence_space
    → (accept r b).1 ≡ r
unfolding accept
accept_refused r b e h n = ground arith

-- What an accepted block leaves.
pub accept_accepted :
    (r : BlockReceiver) (b : TransferBlock) (p : TransferProgress)
    → (accept r b).0 ≡ ok p
    → (r.complete ≡ false)
      × (b.sequence ≡ r.next_sequence)
      × ((accept r b).1.bytes ≡ r.bytes ++ b.block_data)
      × ((accept r b).1.complete ≡ b.last)
      × (p ≡ receiver_progress (accept r b).1)
unfolding accept
accept_accepted r b p h = ground arith
