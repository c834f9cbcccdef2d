-- ===== src/Service/Scheduler/Strict.antt =====
-- Strict queues: the rank that is served, and scheduling as a whole.
use hart_link.Common.{
  ℕ, zero, suc, ◌+◌, ◌%◌, ◌≤◌, ◌<◌, ◌≡◌, ◌≢◌, refl, arith, ap, Bool, true, false, Option, none,
  some, List, [], ◌∷◌, length, get_elem?, Option-cases, inl, inr, ◌⊎◌, ltb, ltb→lt, ==_self, ==_iff,
  max,
}
use hart_link.Service.QueueConfig.{QueuePriority, weighted, strict}
use hart_link.Service.QueueSet.{QueueEntry, QueueSlot, slot_priority, pop_front, pop_at}
use hart_link.Service.Scheduler.{
  QueueCursor, pop_round, ready_rank, larger, rank_with, is_strict, pop_strict, pop_weighted,
  pop_scheduled,
}
use hart_link.Service.Scheduler.Rotation.{
  pop_at-ready, pop_round-all, get_elem?-lt, pop_weighted-none,
}

larger-some :
    (a b : Option ℕ) (rank : ℕ) → larger a b ≡ some rank → (a ≡ some rank) ⊎ (b ≡ some rank)
larger-some none b rank e = inr e
larger-some (some a) none rank e = inl e
larger-some (some a) (some b) rank e = ground (arith, e)

rank_with-some :
    (p : QueuePriority) (queued rank : ℕ)
    → rank_with p queued ≡ some rank
    → (p ≡ strict rank) × (0 < queued)
rank_with-some (weighted w) queued rank e = absurd (cc)
rank_with-some (strict r) queued rank e = ground (arith, e)

larger_left :
    (rank : ℕ) (b : Option ℕ) → (top : ℕ) × (larger (some rank) b ≡ some top) × (rank ≤ top)
larger_left rank none = (rank, refl, omega arith)
larger_left rank (some b) = (max rank b, refl, omega arith)

larger_right :
    (a : Option ℕ) (rank : ℕ) → (top : ℕ) × (larger a (some rank) ≡ some top) × (rank ≤ top)
larger_right none rank = (rank, refl, omega arith)
larger_right (some a) rank = (max a rank, refl, omega arith)

length-zero : {A : Type 0} → (xs : List A) → length xs ≡ 0 → xs ≡ []
length-zero [] e = refl
length-zero (x ∷ xs) e = absurd (omega arith)

is_strict-eq : (p : QueuePriority) (rank : ℕ) → is_strict rank p ≡ true → p ≡ strict rank
is_strict-eq (weighted w) rank e = absurd (cc)
is_strict-eq (strict r) rank e = ap strict ((==_iff r rank).0 e)

length-positive : {A : Type 0} → (xs : List A) → xs ≢ [] → 0 < length xs
length-positive [] ne = absurd (ne refl)
length-positive (x ∷ xs) ne = omega arith

module _ {T : Type 0} where
  -- Nothing is in flight: the counter of every slot is the number of its waiting requests.
  abbrev pub IsSettled : List (QueueSlot T) → Type 0
  IsSettled [] = Unit
  IsSettled (s ∷ ss) = (s.queued ≡ length s.entries) × IsSettled ss

  IsSettled-at :
      (slots : List (QueueSlot T)) (i : ℕ) (slot : QueueSlot T)
      → IsSettled slots
      → get_elem? slots i ≡ some slot
      → slot.queued ≡ length slot.entries
  IsSettled-at [] i slot h e = absurd (cc)
  IsSettled-at (s ∷ ss) zero slot (h, hs) e = ground (arith, h, e)
  IsSettled-at (s ∷ ss) (suc i) slot (h, hs) e = IsSettled-at ss i slot hs e

  -- The rank to serve is that of a slot with requests.
  ready_rank-member :
      (slots : List (QueueSlot T)) (rank : ℕ)
      → ready_rank slots ≡ some rank
      → (i : ℕ) × (slot : QueueSlot T) × (get_elem? slots i ≡ some slot)
        × (slot_priority slot ≡ strict rank)
        × (0 < slot.queued)
  unfolding ready_rank
  ready_rank-member [] rank e = absurd (cc)
  ready_rank-member (s ∷ ss) rank e =
      elim (larger-some (rank_with (slot_priority s) s.queued) (ready_rank ss) rank e) [
        | inl here ↦
            let (p, h) = rank_with-some (slot_priority s) s.queued rank here in
            (zero, s, refl, p, h)
        | inr there ↦
            let (i, slot, at_i, p, h) = ready_rank-member ss rank there in (suc i, slot, at_i, p, h)
      ]

  -- No slot with requests has a larger rank than the one to serve.
  ready_rank-le :
      (slots : List (QueueSlot T)) (i : ℕ) (slot : QueueSlot T) (rank : ℕ)
      → get_elem? slots i ≡ some slot
      → slot_priority slot ≡ strict rank
      → 0 < slot.queued
      → (top : ℕ) × (ready_rank slots ≡ some top) × (rank ≤ top)
  unfolding ready_rank
  ready_rank-le [] i slot rank e p h = absurd (cc)
  ready_rank-le (s ∷ ss) zero slot rank e p h =
      let ready : rank_with (slot_priority slot) slot.queued ≡ some rank =
        rw p (ground (arith, h)) in
      let same : slot ≡ s = cc in
      let here = rw same at ready in rw here (larger_left rank (ready_rank ss))
  ready_rank-le (s ∷ ss) (suc i) slot rank e p h =
      let (top, found, le) = ready_rank-le ss i slot rank e p h in
      let (most, found_here, above) = larger_right (rank_with (slot_priority s) s.queued) top in
      (most, rw found found_here, omega arith)

  -- With nothing in flight, a strict slot that has a waiting request has one to serve.
  pop_strict-round :
      (slots : List (QueueSlot T)) (cursor : QueueCursor) (top : ℕ)
      → ready_rank slots ≡ some top
      → (pop_strict slots cursor).entry ≡ none
      → pop_round slots cursor.strict_index 1 (length slots) (is_strict top) ≡ none
  unfolding pop_strict
  pop_strict-round slots cursor top r e = ground (arith, r, e)

  -- Strict scheduling gives nothing, with nothing in flight, only when no request has a rank.
  pop_strict-idle :
      (slots : List (QueueSlot T)) (cursor : QueueCursor) (top : ℕ)
      → IsSettled slots
      → (pop_strict slots cursor).entry ≡ none
      → ready_rank slots ≢ some top
  pop_strict-idle slots cursor top settled e r =
      let (j, slot, at_j, p, h) = ready_rank-member slots top r in
      let round = pop_strict-round slots cursor top r e in
      let gone =
        pop_round-all slots cursor.strict_index j (is_strict top) (get_elem?-lt slots j slot at_j)
          round in
      let wanted : is_strict top (slot_priority slot) ≡ true = rw p (==_self top) in
      let none_left = pop_at-ready slots j slot (is_strict top) at_j wanted gone in
      let count = IsSettled-at slots j slot settled at_j in
      let zero_count : length slot.entries ≡ 0 = rw none_left refl in
      omega (arith, count, zero_count, h)

  pop_strict-none :
      (slots : List (QueueSlot T)) (cursor : QueueCursor) (i : ℕ) (slot : QueueSlot T) (rank : ℕ)
      → IsSettled slots
      → (pop_strict slots cursor).entry ≡ none
      → get_elem? slots i ≡ some slot
      → slot_priority slot ≡ strict rank
      → slot.entries ≡ []
  pop_strict-none slots cursor i slot rank settled e at_i p =
      elim (ltb 0 slot.queued) as (λ b. ltb 0 slot.queued ≡ b → slot.entries ≡ []) [
        | true ↦ λ busy.
            let (top, found, _) =
              ready_rank-le slots i slot rank at_i p (ltb→lt 0 slot.queued busy) in
            absurd (pop_strict-idle slots cursor top settled e found)
        | false ↦ λ quiet.
            let count = IsSettled-at slots i slot settled at_i in
            length-zero slot.entries (ground (arith, quiet, count))
      ]
        refl

  tries :
      (slots : List (QueueSlot T)) (cursor : QueueCursor)
      → (pop_scheduled slots cursor).entry ≡ none
      → ((pop_strict slots cursor).entry ≡ none) × ((pop_weighted slots cursor).entry ≡ none)
  unfolding pop_scheduled
  tries slots cursor e = ground (arith, e)

  -- Scheduling gives nothing, with nothing in flight, only when no queue has a waiting request.
  pub pop_scheduled-none :
      (slots : List (QueueSlot T)) (cursor : QueueCursor)
      → IsSettled slots
      → (pop_scheduled slots cursor).entry ≡ none
      → (i : ℕ) (slot : QueueSlot T) → get_elem? slots i ≡ some slot
      → slot.entries ≡ []
  pop_scheduled-none slots cursor settled e i slot at_i =
      let (no_strict, no_weighted) = tries slots cursor e in
      elim (slot_priority slot) as (λ p. slot_priority slot ≡ p → slot.entries ≡ []) [
        | weighted weight ↦ λ p. pop_weighted-none slots cursor i slot no_weighted at_i (rw p refl)
        | strict rank ↦ λ p. pop_strict-none slots cursor i slot rank settled no_strict at_i p
      ]
        refl

  -- What a slot gives is its first entry.
  pop_at-some :
      (slots : List (QueueSlot T)) (i queue : ℕ) (wanted : QueuePriority → Bool)
      (entry : QueueEntry T) (rest : List (QueueSlot T))
      → pop_at slots i wanted ≡ some ((queue, entry), rest)
      → (slot : QueueSlot T) × (get_elem? slots i ≡ some slot)
        × (wanted (slot_priority slot) ≡ true)
        × (slot.id ≡ queue)
        × (get_elem? slot.entries 0 ≡ some entry)
  unfolding pop_at pop_front
  pop_at-some slots i queue wanted entry rest e = elim (Option-cases (get_elem? slots i)) [
    | inl missing ↦ absurd (ground (arith, e, missing))
    | inr (slot, found) ↦
        (slot, found, ground (arith, e, found), ground (arith, e, found), ground (arith, e, found))
  ]

  pop_round-some :
      (slots : List (QueueSlot T)) (start offset left index : ℕ) (wanted : QueuePriority → Bool)
      (entry : ℕ × QueueEntry T) (rest : List (QueueSlot T))
      → pop_round slots start offset left wanted ≡ some (index, entry, rest)
      → pop_at slots index wanted ≡ some (entry, rest)
  unfolding pop_round
  pop_round-some slots start offset zero index wanted entry rest e = absurd (cc)
  pop_round-some slots start offset (suc left) index wanted entry rest e =
      elim (Option-cases (pop_at slots ((start + offset) % length slots) wanted)) [
        | inl nothing ↦
            pop_round-some slots start (offset + 1) left index wanted entry rest
              (ground (arith, e, nothing))
        | inr (got, found) ↦ ground (arith, e, found)
      ]

  strict_serves :
      (slots : List (QueueSlot T)) (cursor : QueueCursor) (index : ℕ) (entry : ℕ × QueueEntry T)
      (rest : List (QueueSlot T)) (top : ℕ)
      → ready_rank slots ≡ some top
      → pop_round slots cursor.strict_index 1 (length slots) (is_strict top)
        ≡ some (index, entry, rest)
      → (pop_scheduled slots cursor).entry ≡ some entry
  unfolding pop_scheduled pop_strict
  strict_serves slots cursor index entry rest top r e = ground (arith, r, e)

  strict_not_served :
      (slots : List (QueueSlot T)) (cursor : QueueCursor) (top : ℕ)
      → ready_rank slots ≡ some top
      → pop_round slots cursor.strict_index 1 (length slots) (is_strict top) ≡ none
      → (pop_strict slots cursor).entry ≡ none
  unfolding pop_strict
  strict_not_served slots cursor top r e = ground (arith, r, e)

  -- With nothing in flight, a strict queue of rank `rank` with a waiting request is served before every
  -- weighted queue and every strict queue of a smaller rank: scheduling gives the first waiting request of
  -- a strict queue whose rank is at least `rank`.
  pub pop_scheduled-strict_first :
      (slots : List (QueueSlot T)) (cursor : QueueCursor) (i : ℕ) (slot : QueueSlot T) (rank : ℕ)
      → IsSettled slots
      → get_elem? slots i ≡ some slot
      → slot_priority slot ≡ strict rank
      → slot.entries ≢ []
      → (j : ℕ) × (served : QueueSlot T) × (top : ℕ) × (entry : QueueEntry T) × (get_elem? slots j
          ≡ some served)
        × (slot_priority served ≡ strict top)
        × (rank ≤ top)
        × (get_elem? served.entries 0 ≡ some entry)
        × ((pop_scheduled slots cursor).entry ≡ some (served.id, entry))
  pop_scheduled-strict_first slots cursor i slot rank settled at_i p busy =
      let waiting = length-positive slot.entries busy in
      let (top, found, le) =
        ready_rank-le slots i slot rank at_i p
          (omega (arith, waiting, IsSettled-at slots i slot settled at_i)) in
      elim (Option-cases (pop_round slots cursor.strict_index 1 (length slots) (is_strict top))) [
        | inl nothing ↦ absurd (
            pop_strict-idle slots cursor top settled
              (strict_not_served slots cursor top found nothing) found)
        | inr ((j, (queue, entry), rest), got) ↦
            let (served, at_j, w, name, first) =
              pop_at-some slots j queue (is_strict top) entry rest (
                pop_round-some slots cursor.strict_index 1 (length slots) j (is_strict top)
                  (queue, entry) rest got) in
            (
              j,
              served,
              top,
              entry,
              at_j,
              is_strict-eq (slot_priority served) top w,
              le,
              first,
              rw name (strict_serves slots cursor j (queue, entry) rest top found got),
            )
      ]
