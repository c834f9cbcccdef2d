-- ===== src/Service/Scheduler.antt =====
-- src/service/queue_set.rs: the scheduling of a link's queues, strict ranks first, then the weighted
-- rotation.
pub mod Rotation
pub mod Strict
use hart_link.Common.{
  ℕ, zero, suc, ◌+◌, ◌-◌, ◌%◌, Bool, true, false, not, ◌&&◌, Option, none, some, List, [], ◌∷◌,
  ◌++◌, map, length, ltb, leb, max, ◌==◌, if◌then◌else◌, Result, ok, err, ◌>>=◌, map_err, usize_max,
  u16_max, min, get_elem?,
}
use hart_link.Service.QueueConfig.{
  QueuePriority, weighted, strict, QueueConfig, encode, decode, weighted_priority,
}
use hart_link.Service.QueueSet.{QueueEntry, QueueSlot, slot_priority, pop_front, pop_at}

pub record QueueCursor : Type 0 where
  pub weighted_index : ℕ
  pub weighted_used : ℕ
  pub strict_index : ℕ

-- What a scheduling call returns, with the state after it.
pub record Popped {ℓ} (T : Type ℓ) : Type ℓ where
  pub entry : Option (ℕ × QueueEntry T)
  pub cursor : QueueCursor
  pub slots : List (QueueSlot T)

abbrev pub new_cursor : QueueCursor
new_cursor = record { weighted_index = 0; weighted_used = 0; strict_index = 0 }

-- The strict rank of a queue with so many requests.
abbrev pub rank_with : QueuePriority → ℕ → Option ℕ
rank_with (weighted _) queued = none
rank_with (strict rank) queued = if ltb 0 queued then some rank else none

-- `Iterator::max`, one element at a time.
abbrev pub larger : Option ℕ → Option ℕ → Option ℕ
larger none b = b
larger (some a) none = some a
larger (some a) (some b) = some (max a b)

module _ {ℓ} {T : Type ℓ} where
  -- The loops over the slots behind the cursor: `for offset in ..`, with the offsets that are left.
  unfoldable pub pop_round :
      List (QueueSlot T)
      → (start offset left : ℕ) → (QueuePriority → Bool)
      → Option (ℕ × (ℕ × QueueEntry T) × List (QueueSlot T))
  unfolding pop_at
  pop_round slots start offset zero wanted = none
  pop_round slots start offset (suc left) wanted =
      let index = (start + offset) % length slots in
      let later = pop_round slots start (offset + 1) left wanted in
      elim (pop_at slots index wanted) [
        | some (entry, rest) ↦ some (index, entry, rest)
        | none ↦ later
      ]

  -- The largest strict rank of a slot with requests, those in flight included.
  unfoldable pub ready_rank : List (QueueSlot T) → Option ℕ
  ready_rank [] = none
  ready_rank (s ∷ ss) = larger (rank_with (slot_priority s) s.queued) (ready_rank ss)

abbrev pub is_weighted : QueuePriority → Bool
is_weighted (weighted _) = true
is_weighted (strict _) = false

abbrev pub is_strict : ℕ → QueuePriority → Bool
is_strict rank (weighted _) = false
is_strict rank (strict other) = other == rank

-- The priority of a weighted queue that has not used its quota.
abbrev pub has_quota : ℕ → QueuePriority → Bool
has_quota used (weighted weight) = ltb used weight
has_quota used (strict _) = false

abbrev pub weight_or_one : QueuePriority → ℕ
weight_or_one (weighted weight) = weight
weight_or_one (strict _) = 1

module _ {ℓ} {T : Type ℓ} where
  unfoldable pub pop_strict : List (QueueSlot T) → QueueCursor → Popped T
  unfolding ready_rank pop_round
  pop_strict slots cursor = elim (ready_rank slots) [
    | none ↦ record { entry = none; cursor = cursor; slots = slots }
    | some rank ↦ elim (pop_round slots cursor.strict_index 1 (length slots) (is_strict rank)) [
      | none ↦ record { entry = none; cursor = cursor; slots = slots }
      | some (index, entry, rest) ↦ record {
        entry = some entry;
        cursor = record cursor { strict_index = index };
        slots = rest;
      }
    ]
  ]

  -- The cursor is set back to the first slot when it is past the last one.
  unfoldable pub in_range : List (QueueSlot T) → QueueCursor → QueueCursor
  in_range slots cursor =
      if leb (length slots) cursor.weighted_index
      then record cursor { weighted_index = 0; weighted_used = 0 }
      else cursor

  unfoldable pub current_weight : List (QueueSlot T) → ℕ → ℕ
  current_weight slots i = elim (get_elem? slots i) [
    | none ↦ 1
    | some s ↦ weight_or_one (slot_priority s)
  ]

  -- `pop_weighted` on a set that is not empty, with the cursor in range.
  unfoldable pub pop_rotation : List (QueueSlot T) → QueueCursor → Popped T
  unfolding pop_at pop_round current_weight
  pop_rotation slots cursor =
      let current = cursor.weighted_index in
      elim (pop_at slots current (has_quota cursor.weighted_used)) [
        | some (entry, rest) ↦ record {
          entry = some entry;
          cursor = record cursor { weighted_used = min u16_max (cursor.weighted_used + 1) };
          slots = rest;
        }
        | none ↦ elim (pop_round slots current 1 (length slots - 1) is_weighted) [
          | some (index, entry, rest) ↦ record {
            entry = some entry;
            cursor = record cursor { weighted_index = index; weighted_used = 1 };
            slots = rest;
          }
          | none ↦ elim (pop_at slots current is_weighted) [
            | some (entry, rest) ↦ record {
              entry = some entry;
              cursor = record cursor { weighted_used = current_weight slots current };
              slots = rest;
            }
            | none ↦ record { entry = none; cursor = cursor; slots = slots }
          ]
        ]
      ]

  unfoldable pub pop_weighted : List (QueueSlot T) → QueueCursor → Popped T
  unfolding in_range pop_rotation
  pop_weighted [] cursor = record { entry = none; cursor = cursor; slots = [] }
  pop_weighted (s ∷ ss) cursor = pop_rotation (s ∷ ss) (in_range (s ∷ ss) cursor)

  unfoldable pub pop_scheduled : List (QueueSlot T) → QueueCursor → Popped T
  unfolding pop_strict pop_weighted
  pop_scheduled slots cursor = elim ((pop_strict slots cursor).entry) [
    | some entry ↦ pop_strict slots cursor
    | none ↦ pop_weighted slots cursor
  ]
