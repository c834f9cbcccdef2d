-- ===== src/Service/QueueConfig.antt =====
-- src/service/queue_set.rs: priorities and the validated layout of a link's queues.
pub mod Laws
use hart_link.Common.{
  ℕ, zero, suc, ◌+◌, ◌%◌, ◌^◌, bit_and, bit_or, Bool, true, false, not, any, Option, none, some,
  List, [], ◌∷◌, length, ltb, ◌==◌, if◌then◌else◌, Result, ok, err, ◌>>=◌, checked_add, usize_max,
}

abbrev pub maximum_queue_capacity : ℕ
maximum_queue_capacity = 1048576

abbrev pub maximum_total_queue_capacity : ℕ
maximum_total_queue_capacity = 1048576

abbrev pub maximum_link_queues : ℕ
maximum_link_queues = 256

pub data QueuePriority : Type 0 where
  weighted : ℕ → QueuePriority
  strict : ℕ → QueuePriority

pub data QueueConfigError : Type 0 where
  zero_capacity : ℕ → QueueConfigError
  capacity_limit : (queue capacity : ℕ) → QueueConfigError
  zero_weight : QueueConfigError
  duplicate_id : ℕ → QueueConfigError
  no_queues : QueueConfigError
  too_many_queues : QueueConfigError
  total_capacity : ℕ → QueueConfigError
  missing_default : ℕ → QueueConfigError

-- `QueuePriority::weighted`
unfoldable pub weighted_priority : ℕ → Result QueueConfigError QueuePriority
weighted_priority weight = if weight == 0 then err zero_weight else ok (weighted weight)

-- The priority in one atomic word: bit 31 marks a strict rank.
unfoldable pub encode : QueuePriority → ℕ
encode (weighted weight) = weight
encode (strict rank) = bit_or (2 ^ 31) rank

unfoldable pub decode : ℕ → QueuePriority
decode value =
    let lower = value % 2 ^ 16 in
    if not (bit_and value (2 ^ 31) == 0)
    then strict lower
    else if lower == 0
    then weighted 1
    else weighted lower

pub record QueueConfig : Type 0 where
  pub id : ℕ
  pub capacity : ℕ
  pub priority : QueuePriority

-- `QueueConfig::new`
unfoldable pub new_config : (id capacity : ℕ) → QueuePriority → Result QueueConfigError QueueConfig
new_config queue size policy =
    if size == 0
    then err (zero_capacity queue)
    else if ltb maximum_queue_capacity size
    then err (capacity_limit queue size)
    else ok (record { id = queue; capacity = size; priority = policy })

-- `QueueConfig::weighted`
unfoldable pub weighted_config : (id capacity weight : ℕ) → Result QueueConfigError QueueConfig
unfolding weighted_priority new_config
weighted_config queue size weight =
    weighted_priority weight >>= λ policy. new_config queue size policy

-- `QueueConfig::strict`
unfoldable pub strict_config : (id capacity rank : ℕ) → Result QueueConfigError QueueConfig
unfolding new_config
strict_config queue size rank = new_config queue size (strict rank)

-- The loop of `validate_layout`: the identifiers seen and the total so far.
unfoldable pub check_definitions :
    List QueueConfig → (ids : List ℕ) (total : ℕ) → Result QueueConfigError (List ℕ)
check_definitions [] ids total = ok ids
check_definitions (d ∷ ds) ids total =
    let later = check_definitions ds (d.id ∷ ids) (total + d.capacity) in
    if any (λ i. i == d.id) ids
    then err (duplicate_id d.id)
    else elim (checked_add usize_max total d.capacity) [
      | none ↦ err (total_capacity usize_max)
      | some sum ↦ if ltb maximum_total_queue_capacity sum then err (total_capacity sum) else later
    ]

unfoldable pub validate_layout :
    List QueueConfig → (default : ℕ) → Result QueueConfigError (Unit {0})
unfolding check_definitions
validate_layout [] default = err no_queues
validate_layout (d ∷ ds) default =
    let definitions = d ∷ ds in
    if ltb maximum_link_queues (length definitions) then err too_many_queues else (do
      ids ← check_definitions definitions [] 0
      if not (any (λ i. i == default) ids) then err (missing_default default) else ok tt)
