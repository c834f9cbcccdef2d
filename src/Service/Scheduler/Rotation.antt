-- ===== src/Service/Scheduler/Rotation.antt =====
-- No request is left behind: what scheduling takes, and that it takes something while there is something.
use native.Mathlib.Nat.{mod-lt, mod-eq_of_lt, mod-add-mod, add-mod_right}
use native.Mathlib.Decide.{ℕ_discrete}
use hart_link.Common.{
  ℕ, zero, suc, ◌+◌, ◌-◌, ◌%◌, ◌<◌, ◌≡◌, ◌≢◌, arith, sym, Bool, true, none, some, List, [], ◌∷◌,
  length, get_elem?, Bool-cases, inl, inr, ◌∙◌, ltb,
}
use hart_link.Service.QueueConfig.{QueuePriority}
use hart_link.Service.QueueSet.{QueueSlot, slot_priority, pop_front, pop_at}
use hart_link.Service.Scheduler.{
  QueueCursor, pop_round, is_weighted, in_range, pop_rotation, pop_weighted,
}

-- An offset that leads from one position of a ring to another.
reach :
    (n start i : ℕ)
    → start < n
    → i < n
    → i ≢ start
    → (k : ℕ) × (k < n - 1) × ((start + (1 + k)) % n ≡ i)
reach n start i hs hi ne = elim (Bool-cases (ltb start i)) [
  | inl forward ↦
      let above : start < i = grind (arith, forward) in
      let sum : start + (1 + (i - start - 1)) ≡ i = omega arith in
      (i - start - 1, omega arith, rw sum (mod-eq_of_lt hi))
  | inr back ↦
      let below : i < start = grind (arith, back, ne) in
      let sum : start + (1 + (i + n - start - 1)) ≡ i + n = omega arith in
      (i + n - start - 1, omega arith, rw sum (add-mod_right i n ∙ mod-eq_of_lt hi))
]

-- All offsets of a whole round, from any start.
reach_all : (n start i : ℕ) → i < n → (k : ℕ) × (k < n) × ((start + (1 + k)) % n ≡ i)
reach_all n start i hi =
    let s = start % n in
    let hs = mod-lt start {m = n} (omega arith) in
    elim (ℕ_discrete i s) [
      | yes e ↦
          let sum : s + (1 + (n - 1)) ≡ s + n = omega (arith, hs) in
          (
            n - 1,
            omega arith,
            sym (mod-add-mod start n (1 + (n - 1)))
                ∙ (rw sum (add-mod_right s n ∙ mod-eq_of_lt hs) ∙ sym e),
          )
      | no ne ↦
          let (k, below, sum) = reach n s i hs hi ne in
          (k, omega arith, sym (mod-add-mod start n (1 + k)) ∙ sum)
    ]

module _ {T : Type 0} where
  -- A slot that has entries and passes the test gives one.
  pub pop_at-ready :
      (slots : List (QueueSlot T)) (i : ℕ) (slot : QueueSlot T) (wanted : QueuePriority → Bool)
      → get_elem? slots i ≡ some slot
      → wanted (slot_priority slot) ≡ true
      → pop_at slots i wanted ≡ none
      → slot.entries ≡ []
  unfolding pop_at pop_front
  pop_at-ready slots i slot wanted e w n = ground (arith, e, w, n)

  -- A round that gives nothing has tried every offset.
  pop_round-none :
      (slots : List (QueueSlot T)) (start offset left : ℕ) (wanted : QueuePriority → Bool)
      → pop_round slots start offset left wanted ≡ none
      → (k : ℕ) → k < left
      → pop_at slots ((start + (offset + k)) % length slots) wanted ≡ none
  unfolding pop_round
  pop_round-none slots start offset zero wanted e k h = absurd (omega arith)
  pop_round-none slots start offset (suc left) wanted e zero h =
      let zeroth : offset + 0 ≡ offset = omega arith in rw zeroth (ground (arith, e))
  pop_round-none slots start offset (suc left) wanted e (suc k) h =
      let later : pop_round slots start (offset + 1) left wanted ≡ none = ground (arith, e) in
      let there = pop_round-none slots start (offset + 1) left wanted later k (omega arith) in
      let same : offset + 1 + k ≡ offset + suc k = omega arith in rw same at there

  -- A whole round that gives nothing: no slot in reach gives anything.
  pop_round-others :
      (slots : List (QueueSlot T)) (start i : ℕ) (wanted : QueuePriority → Bool)
      → start < length slots
      → i < length slots
      → i ≢ start
      → pop_round slots start 1 (length slots - 1) wanted ≡ none
      → pop_at slots i wanted ≡ none
  pop_round-others slots start i wanted hs hi ne e =
      let (k, below, there) = reach (length slots) start i hs hi ne in
      rw there at (pop_round-none slots start 1 (length slots - 1) wanted e k below)

  pub pop_round-all :
      (slots : List (QueueSlot T)) (start i : ℕ) (wanted : QueuePriority → Bool)
      → i < length slots
      → pop_round slots start 1 (length slots) wanted ≡ none
      → pop_at slots i wanted ≡ none
  pop_round-all slots start i wanted hi e =
      let (k, below, there) = reach_all (length slots) start i hi in
      rw there at (pop_round-none slots start 1 (length slots) wanted e k below)

  pub get_elem?-lt :
      (slots : List (QueueSlot T)) (i : ℕ) (slot : QueueSlot T)
      → get_elem? slots i ≡ some slot
      → i < length slots
  get_elem?-lt [] i slot e = absurd (cc)
  get_elem?-lt (s ∷ ss) zero slot e = omega arith
  get_elem?-lt (s ∷ ss) (suc i) slot e = omega (arith, get_elem?-lt ss i slot e)

  -- Three tries that give nothing when the rotation gives nothing.
  pop_rotation-tries :
      (slots : List (QueueSlot T)) (cursor : QueueCursor)
      → (pop_rotation slots cursor).entry ≡ none
      → (pop_round slots cursor.weighted_index 1 (length slots - 1) is_weighted ≡ none)
        × (pop_at slots cursor.weighted_index is_weighted ≡ none)
  unfolding pop_rotation
  pop_rotation-tries slots cursor e = ground (arith, e)

  pop_rotation-none :
      (slots : List (QueueSlot T)) (cursor : QueueCursor) (i : ℕ) (slot : QueueSlot T)
      → cursor.weighted_index < length slots
      → (pop_rotation slots cursor).entry ≡ none
      → get_elem? slots i ≡ some slot
      → is_weighted (slot_priority slot) ≡ true
      → slot.entries ≡ []
  pop_rotation-none slots cursor i slot within e at_i w =
      let (round, here) = pop_rotation-tries slots cursor e in
      let gone : pop_at slots i is_weighted ≡ none = elim (ℕ_discrete i cursor.weighted_index) [
        | yes same ↦ rw same here
        | no ne ↦
            pop_round-others slots cursor.weighted_index i is_weighted within
              (get_elem?-lt slots i slot at_i) ne round
      ] in
      pop_at-ready slots i slot is_weighted at_i w gone

  in_range-lt :
      (s : QueueSlot T) (ss : List (QueueSlot T)) (cursor : QueueCursor)
      → (in_range (s ∷ ss) cursor).weighted_index < length (s ∷ ss)
  unfolding in_range
  in_range-lt s ss cursor = ground arith

  -- The weighted rotation gives nothing only when no weighted queue has a waiting request.
  pub pop_weighted-none :
      (slots : List (QueueSlot T)) (cursor : QueueCursor) (i : ℕ) (slot : QueueSlot T)
      → (pop_weighted slots cursor).entry ≡ none
      → get_elem? slots i ≡ some slot
      → is_weighted (slot_priority slot) ≡ true
      → slot.entries ≡ []
  unfolding pop_weighted
  pop_weighted-none [] cursor i slot e at_i w = absurd (cc)
  pop_weighted-none (s ∷ ss) cursor i slot e at_i w =
      pop_rotation-none (s ∷ ss) (in_range (s ∷ ss) cursor) i slot (in_range-lt s ss cursor) e at_i
        w
