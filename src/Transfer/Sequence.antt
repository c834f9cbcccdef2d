-- ===== src/Transfer/Sequence.antt =====
-- What a receiver has taken after any blocks whatever: lost, repeated and reordered ones are not in it.
use mathlib.Core.List.{append_assoc, append-nil}
use hart_link.Common.{
  ℕ, suc, ◌+◌, ◌≤◌, ◌<◌, ◌≡◌, ◌≢◌, refl, arith, ap, sym, ◌∙◌, Bool, Bool-cases, true, false, inl,
  inr, ◌||◌, if◌then◌else◌, List, [], ◌∷◌, ◌++◌, length, Result, ok, err, Result-cases,
}
use hart_link.Transfer.{
  BlockReceiver, TransferBlock, TransferError, TransferProgress, sequence_space, incomplete, accept,
  finish, new_receiver,
}
use hart_link.Transfer.Receiver.{accept_refused, accept_accepted}

abbrev accepted_of {ℓ} :
    {A : Type ℓ} → Result TransferError A → TransferBlock → List TransferBlock → List TransferBlock
accepted_of (ok p) b bs = b ∷ bs
accepted_of (err e) b bs = bs

-- The receiver after it is offered blocks one after another, with those that it accepted.
unfoldable pub offer_all : BlockReceiver → List TransferBlock → BlockReceiver × List TransferBlock
offer_all r [] = (r, [])
offer_all r (b ∷ bs) =
    let rest = offer_all (accept r b).1 bs in (rest.0, accepted_of (accept r b).0 b rest.1)

abbrev pub block_bytes : List TransferBlock → List ℕ
block_bytes [] = []
block_bytes (b ∷ bs) = b.block_data ++ block_bytes bs

abbrev pub has_last : List TransferBlock → Bool
has_last [] = false
has_last (b ∷ bs) = b.last || has_last bs

-- Blocks with the numbers from `n` on, none of them behind a last block.
unfoldable pub Ordered : (n : ℕ) → List TransferBlock → Type 0
Ordered n [] = Unit
Ordered n (b ∷ bs) = (b.sequence ≡ n) × (b.last ≡ true → bs ≡ []) × Ordered (suc n) bs

accept-space :
    (r : BlockReceiver) (b : TransferBlock)
    → r.next_sequence < 65535
    → (accept r b).0 ≢ err sequence_space
unfolding accept
accept-space r b h e = ground (arith, e, h)

accept-next :
    (r : BlockReceiver) (b : TransferBlock) (p : TransferProgress)
    → (accept r b).0 ≡ ok p
    → b.last ≡ false
    → (accept r b).1.next_sequence ≡ suc r.next_sequence
unfolding accept
accept-next r b p e h = ground (arith, e, h)

accept-complete :
    (r : BlockReceiver) (b : TransferBlock)
    → r.complete ≡ true
    → (e : TransferError) × (accept r b ≡ (err e, r))
unfolding accept
accept-complete r b h = rw h (_, refl)

offer_all-complete :
    (bs : List TransferBlock) (r : BlockReceiver) → r.complete ≡ true → offer_all r bs ≡ (r, [])
unfolding offer_all
offer_all-complete [] r h = refl
offer_all-complete (b ∷ bs) r h =
    let (e, same) = accept-complete r b h in rw (same, offer_all-complete bs r h) refl

or_last : (b c : Bool) → b ≡ true → (b || c) ≡ true
or_last b c h = rw h refl

or_more : (b c : Bool) → b ≡ false → (b || c) ≡ c
or_more b c h = rw h refl

record InOrder (r : BlockReceiver) (o : BlockReceiver × List TransferBlock) : Type 0 where
  ordered : Ordered r.next_sequence o.1
  whole : o.0.bytes ≡ r.bytes ++ block_bytes o.1
  ended : o.0.complete ≡ has_last o.1

offer_all-InOrder :
    (bs : List TransferBlock) (r : BlockReceiver)
    → r.complete ≡ false
    → r.next_sequence + length bs ≤ 65535
    → InOrder r (offer_all r bs)
unfolding offer_all Ordered
offer_all-InOrder [] r h room = record { ordered = tt; whole = sym (append-nil r.bytes); ended = h }
offer_all-InOrder (b ∷ bs) r h room = elim (Result-cases (accept r b).0) [
  | inr (e, q) ↦
      let same =
        accept_refused r b e q
          (λ f. accept-space r b (omega (arith, room)) (q ∙ ap (λ x. err x) f)) in
      rw (q, same) (offer_all-InOrder bs r h (omega (arith, room)))
  | inl (p, q) ↦
      let (_, number, bytes, complete, _) = accept_accepted r b p q in
      elim (Bool-cases b.last) [
        | inl last ↦
            let done = offer_all-complete bs (accept r b).1 (complete ∙ last) in
            rw (q, done)
              (record {
                ordered = (number, (λ l. refl), tt);
                whole = bytes ∙ sym (ap (λ l. r.bytes ++ l) (append-nil b.block_data));
                ended = complete ∙ (last ∙ sym (or_last b.last false last));
              })
        | inr more ↦
            let next = accept-next r b p q more in
            let later =
              offer_all-InOrder bs (accept r b).1 (complete ∙ more) (omega (arith, next, room)) in
            rw q (record {
              ordered = (number, (λ l. absurd (ground (arith, l, more))), rw next at later.ordered);
              whole =
                  later.whole
                  ∙ (ap (λ l. l ++ block_bytes (offer_all (accept r b).1 bs).1) bytes
                      ∙ append_assoc r.bytes b.block_data
                          (block_bytes (offer_all (accept r b).1 bs).1));
              ended = later.ended ∙ sym (or_more b.last _ more);
            })
      ]
]

-- A new receiver that is offered fewer than 65536 blocks, whatever they are: the blocks that it accepts have
-- the numbers from zero on without a gap or a repetition, none of them comes after a last block, the bytes it
-- has are theirs in this order, and it finishes with these bytes if it has accepted a last block and not
-- otherwise.
pub offer_all-in_order :
    (maximum : ℕ) (bs : List TransferBlock)
    → length bs ≤ 65535
    → (let o = offer_all (new_receiver maximum) bs in
        Ordered 0 o.1
        × (o.0.bytes ≡ block_bytes o.1)
        × (finish o.0 ≡ (if has_last o.1 then ok (block_bytes o.1) else err incomplete)))
unfolding new_receiver finish
offer_all-in_order maximum bs room =
    let v = offer_all-InOrder bs (new_receiver maximum) refl (omega (arith, room)) in
    (v.ordered, v.whole, rw (v.ended, v.whole) refl)
