-- ===== src/Service/QueueSet.antt =====
-- src/service/queue_set.rs: the bounded queues of one link. The atomics and the mutexes become the fields
-- of an explicit state, and a call is a step on it. The semaphore of a slot is the number of its free
-- permits. Wake-ups (`Notify`) carry no state.
use hart_link.Common.{
  ℕ, zero, suc, ◌+◌, ◌-◌, Bool, true, false, Option, none, some, List, [], ◌∷◌, ◌++◌, map, ◌==◌,
  if◌then◌else◌, Result, ok, err, ◌>>=◌, map_err, usize_max, get_elem?,
}
use hart_link.Service.QueueConfig.{QueuePriority, QueueConfig, encode, decode, weighted_priority}

pub data QueueError : Type 0 where
  unknown_queue : ℕ → QueueError
  no_weight : QueueError

pub data QueuePushError : Type 0 where
  queue_full : QueuePushError
  queue_closed : QueuePushError
  queue_deadline : QueuePushError
  push_unknown : ℕ → QueuePushError

-- An item and the slot whose permit it holds.
pub record QueueEntry {ℓ} (T : Type ℓ) : Type ℓ where
  pub item : T
  pub permit : ℕ

pub record QueueSlot {ℓ} (T : Type ℓ) : Type ℓ where
  pub id : ℕ
  pub capacity : ℕ
  pub priority : ℕ
  pub permits : ℕ
  pub permits_closed : Bool
  pub queued : ℕ
  pub entries : List (QueueEntry T)

pub record QueueSet {ℓ} (T : Type ℓ) : Type ℓ where
  pub slots : List (QueueSlot T)
  pub input_closed : Bool
  pub runner_closed : Bool

pub record QueueSnapshot : Type 0 where
  pub id : ℕ
  pub capacity : ℕ
  pub queued : ℕ
  pub priority : QueuePriority

module _ {ℓ} {A : Type ℓ} where
  -- The list with the element at an index changed.
  abbrev pub update : ℕ → (A → A) → List A → List A
  update i f [] = []
  update zero f (x ∷ xs) = f x ∷ xs
  update (suc i) f (x ∷ xs) = x ∷ update i f xs

module _ {ℓ} {T : Type ℓ} where
  -- `QueueSlot::new`
  unfoldable pub new_slot : QueueConfig → QueueSlot T
  unfolding encode
  new_slot config = record {
    id = config.id;
    capacity = config.capacity;
    priority = encode config.priority;
    permits = config.capacity;
    permits_closed = false;
    queued = 0;
    entries = [];
  }

  unfoldable pub slot_priority : QueueSlot T → QueuePriority
  unfolding decode
  slot_priority slot = decode slot.priority

  -- `QueueSlot::pop_front`
  unfoldable pub pop_front : QueueSlot T → Option (QueueEntry T × QueueSlot T)
  pop_front slot = elim slot.entries [
    | [] ↦ none
    | entry ∷ rest ↦ some (entry, record slot { entries = rest })
  ]

  unfoldable pub new_set : List QueueConfig → QueueSet T
  unfolding new_slot
  new_set definitions = record {
    slots = map new_slot definitions;
    input_closed = false;
    runner_closed = false;
  }

  -- The map `indices`, which keeps the last of equal identifiers.
  unfoldable pub index_of : ℕ → List (QueueSlot T) → Option ℕ
  index_of queue [] = none
  index_of queue (s ∷ ss) = elim (index_of queue ss) [
    | some i ↦ some (suc i)
    | none ↦ if s.id == queue then some 0 else none
  ]

  -- `QueueSet::slot`, by its index.
  unfoldable pub find_slot : QueueSet T → ℕ → Result QueueError ℕ
  unfolding index_of
  find_slot set queue = elim (index_of queue set.slots) [
    | some i ↦ ok i
    | none ↦ err (unknown_queue queue)
  ]

  unfoldable pub set_priority : QueueSet T → ℕ → QueuePriority → Result QueueError (QueueSet T)
  unfolding find_slot encode
  set_priority set queue policy = do
    i ← find_slot set queue
    ok (record set { slots = update i (λ s. record s { priority = encode policy }) set.slots })

  unfoldable pub set_weight : QueueSet T → ℕ → ℕ → Result QueueError (QueueSet T)
  unfolding weighted_priority set_priority
  set_weight set queue weight = do
    policy ← map_err (λ _. no_weight) (weighted_priority weight)
    set_priority set queue policy

  unfoldable pub pending_total : List (QueueSlot T) → ℕ
  pending_total [] = 0
  pending_total (s ∷ ss) = s.queued + pending_total ss

  unfoldable pub slot_snapshot : QueueSlot T → QueueSnapshot
  unfolding slot_priority
  slot_snapshot slot = record {
    id = slot.id;
    capacity = slot.capacity;
    queued = slot.queued;
    priority = slot_priority slot;
  }

  -- `QueueSet::snapshot` and `snapshots`
  unfoldable pub set_snapshot : QueueSet T → ℕ → Result QueueError QueueSnapshot
  unfolding find_slot slot_snapshot
  set_snapshot set queue = do
    i ← find_slot set queue
    elim (get_elem? set.slots i) [
      | none ↦ err (unknown_queue queue)
      | some slot ↦ ok (slot_snapshot slot)
    ]

  unfoldable pub set_snapshots : QueueSet T → List QueueSnapshot
  unfolding slot_snapshot
  set_snapshots set = map slot_snapshot set.slots

  -- `finish_push`, for a permit taken from the slot at an index.
  unfoldable pub finish_push : QueueSet T → ℕ → T → Result QueuePushError (QueueSet T)
  finish_push set i value =
      if set.runner_closed
      then err queue_closed
      else ok (record set {
        slots =
            update i
              (λ s. record s {
                entries = s.entries ++ record { item = value; permit = i } ∷ [];
                queued = s.queued + 1;
              })
              set.slots;
      })

  -- `try_acquire_owned`: a closed semaphore is told before one without permits.
  unfoldable pub try_acquire : QueueSet T → ℕ → Result QueuePushError (QueueSet T)
  try_acquire set i = elim (get_elem? set.slots i) [
    | none ↦ err queue_closed
    | some s ↦
        if s.permits_closed
        then err queue_closed
        else if s.permits == 0
        then err queue_full
        else ok
            (record set { slots = update i (λ t. record t { permits = t.permits - 1 }) set.slots })
  ]

  unfoldable pub try_push : QueueSet T → ℕ → T → Result QueuePushError (QueueSet T)
  unfolding find_slot try_acquire finish_push
  try_push set queue value = do
    i ← map_err (λ _. push_unknown queue) (find_slot set queue)
    open_set ← if set.runner_closed then err queue_closed else ok set
    taken ← try_acquire open_set i
    finish_push taken i value

  -- The wait of `push` for a permit, over the states in which it looks for one before its deadline.
  unfoldable pub wait_permit : List (QueueSet T) → ℕ → Result QueuePushError (QueueSet T)
  unfolding try_acquire
  wait_permit [] i = err queue_deadline
  wait_permit (now ∷ later) i = elim (try_acquire now i) [
    | ok taken ↦ ok taken
    | err e ↦ elim e [ queue_full ↦ wait_permit later i | _ ↦ err queue_closed ]
  ]

  -- `push`, which finds the first state at once, and the later ones as other calls change it.
  unfoldable pub push :
      QueueSet T → (later : List (QueueSet T)) → ℕ → T → Result QueuePushError (QueueSet T)
  unfolding find_slot wait_permit finish_push
  push set later queue value = do
    i ← map_err (λ _. push_unknown queue) (find_slot set queue)
    open_set ← if set.runner_closed then err queue_closed else ok set
    taken ← wait_permit (open_set ∷ later) i
    finish_push taken i value

  -- A slot that passes a test on its priority gives its first entry.
  unfoldable pub pop_at :
      List (QueueSlot T)
      → ℕ
      → (QueuePriority → Bool)
      → Option ((ℕ × QueueEntry T) × List (QueueSlot T))
  unfolding pop_front
  pop_at slots i wanted = elim (get_elem? slots i) [
    | none ↦ none
    | some slot ↦
        if wanted (slot_priority slot)
        then elim (pop_front slot) [
          | none ↦ none
          | some (entry, rest) ↦ some ((slot.id, entry), update i (λ _. rest) slots)
        ]
        else none
  ]

  unfoldable pub pop_from : QueueSet T → ℕ → Option (QueueEntry T × QueueSet T)
  unfolding find_slot pop_at
  pop_from set queue = elim (find_slot set queue) [
    | err _ ↦ none
    | ok i ↦ elim (pop_at set.slots i (λ _. true)) [
      | none ↦ none
      | some ((_, entry), rest) ↦ some (entry, record set { slots = rest })
    ]
  ]

  -- `push_front`: an unknown identifier drops the entry, and so frees its permit.
  unfoldable pub push_front : QueueSet T → ℕ → QueueEntry T → QueueSet T
  unfolding find_slot
  push_front set queue entry = elim (find_slot set queue) [
    | err _ ↦ record set {
      slots = update entry.permit (λ s. record s { permits = s.permits + 1 }) set.slots;
    }
    | ok i ↦ record set {
      slots = update i (λ s. record s { entries = entry ∷ s.entries }) set.slots;
    }
  ]

  -- `finish_entry`: the permit is free again; `fetch_sub` wraps at zero.
  unfoldable pub finish_entry : QueueSet T → ℕ → QueueEntry T → T × QueueSet T
  unfolding find_slot
  finish_entry set queue entry =
      let freed = update entry.permit (λ s. record s { permits = s.permits + 1 }) set.slots in
      (
        entry.item,
        elim (find_slot set queue) [
          | err _ ↦ record set { slots = freed }
          | ok i ↦ record set {
            slots =
                update i
                  (λ s. record s { queued = if s.queued == 0 then usize_max else s.queued - 1 })
                  freed;
          }
        ],
      )

  unfoldable pub close_input : QueueSet T → QueueSet T
  close_input set = record set { input_closed = true }

  unfoldable pub close_runner : QueueSet T → QueueSet T
  close_runner set = if set.runner_closed then set else record set {
    runner_closed = true;
    slots = map {A = QueueSlot T} (λ s. record s { permits_closed = true }) set.slots;
  }
