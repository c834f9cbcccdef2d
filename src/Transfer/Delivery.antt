-- ===== src/Transfer/Delivery.antt =====
-- A transfer from a sender to a receiver, block by block.
use native.Mathlib.Nat.{lt-div-mul-add}
use hart_link.Common.{
  ℕ, zero, suc, ◌+◌, ◌-◌, ◌*◌, ◌/◌, ◌≤◌, ◌<◌, min, max, ◌≡◌, refl, arith, ap, sym, ◌∙◌, ◌⊎◌, inl,
  inr, Bool, true, false, Option, none, some, List, length, take, take_all, slice,
  take-append-slice, length-slice, length-take, ◌==◌, ==_self, ◌&&◌, ltb, leb, Result, ok, err,
  ok_inj, u16_max, usize_max, checked_add, Bool-cases,
}
use hart_link.Transfer.{
  BlockSender, BlockReceiver, TransferBlock, TransferError, TransferProgress, new_sender,
  next_block, new_receiver, receiver_progress, accept, finish, maximum_transfer_bytes, div_ceil,
}

-- The transfer loop: `none` is an exhausted fuel, an error is that of either side.
unfoldable pub deliver : ℕ → BlockSender → BlockReceiver → Option (Result TransferError (List ℕ))
deliver zero s r = none
deliver (suc fuel) s r = elim ((next_block s).0) [
  | err e ↦ some (err e)
  | ok none ↦ some (finish r)
  | ok (some block) ↦ elim ((accept r block).0) [
    | err e ↦ some (err e)
    | ok progress ↦ deliver fuel (next_block s).1 (accept r block).1
  ]
]

deliver_step :
    (fuel : ℕ) (s s' : BlockSender) (r r' : BlockReceiver) (b : TransferBlock)
    (p : TransferProgress)
    → next_block s ≡ (ok (some b), s')
    → accept r b ≡ (ok p, r')
    → deliver (suc fuel) s r ≡ deliver fuel s' r'
unfolding deliver
deliver_step fuel s s' r r' b p e a = rw (e, deliver, a, e, a)

deliver_done :
    (fuel : ℕ) (s s' : BlockSender) (r : BlockReceiver)
    → next_block s ≡ (ok none, s')
    → deliver (suc fuel) s r ≡ some (finish r)
unfolding deliver
deliver_done fuel s s' r e = rw (e, deliver)

lt-cases : (a b : ℕ) → (a < b) ⊎ (b ≤ a)
lt-cases a b = ground arith

mul_mono : (a b c : ℕ) → a ≤ b → a * c ≤ b * c
mul_mono a b c h = grind arith

zero_mul : (n : ℕ) → 0 * n ≡ 0
zero_mul n = omega arith

not_ltb : (a b : ℕ) → ltb a b ≡ false → b ≤ a
not_ltb a b h = ground arith

lt_of_mul-lt : (a b c : ℕ) → a * c < b * c → a < b
lt_of_mul-lt a b c h = grind arith

and_false : (b : Bool) → (b && false) ≡ false
and_false true = refl
and_false false = refl

module _ (source : List ℕ) (bs m : ℕ) where
  -- Both sides after `k` full blocks.
  abbrev sender_at : ℕ → BlockSender
  sender_at k = record {
    source = source;
    block_size = bs;
    offset = k * bs;
    sequence = k;
    complete = false;
  }

  abbrev receiver_at : ℕ → BlockReceiver
  receiver_at k = record {
    bytes = take (k * bs) source;
    maximum_bytes = m;
    next_sequence = k;
    complete = false;
  }

  abbrev block_at : ℕ → TransferBlock
  block_at k = record {
    sequence = k;
    last = false;
    block_data = slice (k * bs) (suc k * bs) source;
  }

  abbrev last_block : ℕ → TransferBlock
  last_block k = record {
    sequence = k;
    last = true;
    block_data = slice (k * bs) (length source) source;
  }

  next_offset : (k : ℕ) → suc k * bs ≡ k * bs + bs
  next_offset k = grind arith

  module _ (size : 1 ≤ bs) (size_fits : bs ≤ 251) (room : length source ≤ m)
      (whole : length source ≤ maximum_transfer_bytes) (numbers : length source ≤ 65536 * bs) where
    number_fits : (k : ℕ) → suc k * bs < length source → checked_add u16_max k 1 ≡ some (suc k)
    number_fits k h =
        let below : suc k < 65536 = lt_of_mul-lt (suc k) 65536 bs (omega arith) in ground arith

    send_block :
        (k : ℕ)
        → suc k * bs < length source
        → next_block (sender_at k) ≡ (ok (some (block_at k)), sender_at (suc k))
    unfolding next_block
    send_block k h =
        let end : min (min (k * bs + bs) usize_max) (length source) ≡ suc k * bs =
          omega (arith, next_offset k) in
        let not_last : (suc k * bs == length source) ≡ false = ground arith in
        let counted : checked_add u16_max k 1 ≡ some (suc k) = number_fits k h in
        rw (end, not_last, counted)

    receive_block :
        (k : ℕ)
        → suc k * bs < length source
        → (p : TransferProgress) × (accept (receiver_at k) (block_at k)
            ≡ (ok p, receiver_at (suc k)))
    unfolding accept
    receive_block k h =
        let taken : length (take (k * bs) source) ≡ k * bs =
          omega (arith, length-take (k * bs) source, next_offset k) in
        let sliced : length (slice (k * bs) (suc k * bs) source) ≡ bs = omega (
          arith,
          length-slice (k * bs) (suc k * bs) source (omega (arith, next_offset k)) (omega arith),
          next_offset k,
        ) in
        let small : ltb 251 bs ≡ false = ground arith in
        let filled : (bs == 0) ≡ false = ground arith in
        let fits : ltb m (k * bs + bs) ≡ false = ground (arith, next_offset k) in
        let summed : checked_add usize_max (k * bs) bs ≡ some (k * bs + bs) =
          ground (arith, next_offset k) in
        (
          receiver_progress (receiver_at (suc k)),
          rw (
            sliced,
            small,
            filled,
            ==_self k,
            taken,
            summed,
            fits,
            number_fits k h,
            take-append-slice (k * bs) (suc k * bs) source (omega (arith, next_offset k)),
          ),
        )

    send_last :
        (k : ℕ)
        → k * bs ≤ length source
        → length source ≤ suc k * bs
        → next_block (sender_at k) ≡ (
          ok (some (last_block k)),
          record (sender_at k) { offset = length source; complete = true },
        )
    unfolding next_block
    send_last k lo hi =
        let end : min (min (k * bs + bs) usize_max) (length source) ≡ length source =
          omega (arith, next_offset k) in
        rw (end, ==_self (length source))

    receive_last :
        (k : ℕ)
        → k * bs ≤ length source
        → length source ≤ suc k * bs
        → (p : TransferProgress) × (accept (receiver_at k) (last_block k)
            ≡ (ok p, record (receiver_at k) { bytes = source; complete = true }))
    unfolding accept
    receive_last k lo hi =
        let taken : length (take (k * bs) source) ≡ k * bs =
          omega (arith, length-take (k * bs) source) in
        let sliced : length (slice (k * bs) (length source) source) ≡ length source - k * bs =
          length-slice (k * bs) (length source) source lo (omega arith) in
        let small : ltb 251 (length source - k * bs) ≡ false = ground (arith, next_offset k) in
        let fits : ltb m (k * bs + (length source - k * bs)) ≡ false = ground arith in
        let summed : checked_add usize_max (k * bs) (length source - k * bs)
            ≡ some (k * bs + (length source - k * bs)) =
          ground arith in
        (
          receiver_progress (record (receiver_at k) { bytes = source; complete = true }),
          rw (
            sliced,
            small,
            and_false (length source - k * bs == 0),
            ==_self k,
            taken,
            summed,
            fits,
            take-append-slice (k * bs) (length source) source lo,
            take_all source,
          ),
        )

    deliver_last :
        (fuel k : ℕ)
        → k * bs ≤ length source
        → length source ≤ suc k * bs
        → deliver (suc (suc fuel)) (sender_at k) (receiver_at k) ≡ some (ok source)
    deliver_last fuel k lo hi =
        let (p, received) = receive_last k lo hi in
        let done = record (sender_at k) { offset = length source; complete = true } in
        let full = record (receiver_at k) { bytes = source; complete = true } in
        deliver_step (suc fuel) (sender_at k) done (receiver_at k) full (last_block k) p
          (send_last k lo hi) received
        ∙ deliver_done fuel done done full (unfold next_block in refl)
        ∙ ap some (unfold finish in refl)

    deliver_from :
        (fuel k : ℕ)
        → k * bs ≤ length source
        → length source + 2 ≤ k * bs + fuel
        → deliver fuel (sender_at k) (receiver_at k) ≡ some (ok source)
    deliver_from zero k lo h = absurd (omega arith)
    deliver_from (suc zero) k lo h = absurd (omega arith)
    deliver_from (suc (suc fuel)) k lo h = elim (lt-cases (suc k * bs) (length source)) [
      | inr hi ↦ deliver_last fuel k lo hi
      | inl more ↦
          let (p, received) = receive_block k more in
          deliver_step (suc fuel) (sender_at k) (sender_at (suc k)) (receiver_at k)
            (receiver_at (suc k)) (block_at k) p (send_block k more) received
          ∙ deliver_from (suc fuel) (suc k) (omega arith) (omega (arith, next_offset k))
    ]

ceil_bound : (n b : ℕ) → 1 ≤ b → (n + b - 1) / b ≤ 65536 → n ≤ 65536 * b
ceil_bound n b h k =
    omega (arith, lt-div-mul-add {a = n + b - 1} {b = b} h, mul_mono ((n + b - 1) / b) 65536 b k)

-- What `BlockSender::new` has checked: the sender stands before its first block.
new_sender_checks :
    (source : List ℕ) (bs : ℕ) (s : BlockSender)
    → new_sender source bs ≡ ok s
    → (s ≡ sender_at source bs 0 0)
      × (1 ≤ bs)
      × (bs ≤ 251)
      × (length source ≤ maximum_transfer_bytes)
      × (length source ≤ 65536 * bs)
unfolding new_sender
new_sender_checks source bs s e = elim (Bool-cases (leb 1 bs && leb bs 251)) [
  | inr out ↦ absurd (let e' = rw out at e in cc)
  | inl size ↦ elim (Bool-cases (ltb maximum_transfer_bytes (length source))) [
    | inl long ↦ absurd (let e' = rw (size, long) at e in cc)
    | inr short ↦ elim (Bool-cases (ltb (u16_max + 1) (div_ceil (max (length source) 1) bs))) [
      | inl many ↦ absurd (let e' = rw (size, short, many) at e in cc)
      | inr few ↦
          let e' = rw (size, short, few) at e in
          let blocks = not_ltb (u16_max + 1) (div_ceil (max (length source) 1) bs) few in
          let positive : 1 ≤ bs = ground arith in
          (
            rw (zero_mul bs) (sym (ok_inj e')),
            positive,
            ground arith,
            ground arith,
            omega (arith, ceil_bound (max (length source) 1) bs positive blocks),
          )
    ]
  ]
]

-- Every source that `BlockSender::new` takes arrives whole: a new receiver with room for it accepts
-- each block of the sender, no number overflows, the loop ends within two rounds more than there
-- are bytes, and `finish` returns the source.
pub deliver_whole :
    (source : List ℕ) (block_size maximum_bytes : ℕ) (s : BlockSender)
    → new_sender source block_size ≡ ok s
    → length source ≤ maximum_bytes
    → deliver (length source + 2) s (new_receiver maximum_bytes) ≡ some (ok source)
unfolding new_receiver
deliver_whole source block_size maximum_bytes s e room =
    let (start, positive, small, whole, numbers) = new_sender_checks source block_size s e in
    rw (start, zero_mul block_size)
      (rw (zero_mul block_size) at (
        deliver_from source block_size (min maximum_bytes maximum_transfer_bytes) positive small
          (omega arith) whole numbers (length source + 2) 0 (omega arith) (omega arith)))
