-- ===== src/Service/QueueConfig/Laws.antt =====
-- The encoding of priorities and the layouts that are accepted.
use native.Mathlib.Nat.{pow-suc}
use hart_link.Common.{
  ℕ, zero, suc, ◌+◌, ◌%◌, ◌^◌, ◌≤◌, ◌<◌, ◌≡◌, refl, arith, ap, ◌∙◌, ◌*◌, ◌/◌, bit_and, bit_or, true,
  false, any, List, [], ◌∷◌, length, ◌⊎◌, inl, inr, ◌==◌, Result, ok, err,
}
use hart_link.Common.Bits.{bit_or-fields, bit_and-two_pow, tbit, tbit-bit_or, tbit-two_pow_self}
use hart_link.Service.QueueConfig.{
  QueuePriority, QueueConfig, QueueConfigError, check_definitions, validate_layout,
  maximum_total_queue_capacity, maximum_link_queues, weighted, strict, encode, decode,
}

-- A priority of two-byte numbers, a weight not zero.
abbrev pub IsPriority : QueuePriority → Type 0
IsPriority (weighted weight) = (0 < weight) × (weight < 2 ^ 16)
IsPriority (strict rank) = rank < 2 ^ 16

tbit_small : (k x : ℕ) → x < 2 ^ k → tbit x k ≡ 0
unfolding tbit
tbit_small zero x h = omega arith
tbit_small (suc k) x h = tbit_small k (x / 2) (omega (arith, pow-suc 2 k))

-- A priority read from the atomic word is the one that was stored, for a weight that is not zero.
pub decode-encode : (p : QueuePriority) → IsPriority p → decode (encode p) ≡ p
unfolding encode decode
decode-encode (weighted weight) (positive, small) =
    let clear : bit_and weight (2 ^ 31) ≡ 0 =
      bit_and-two_pow weight 31 ∙ ap (λ t. t * 2 ^ 31) (tbit_small 31 weight (omega arith)) in
    let lower : weight % 2 ^ 16 ≡ weight = omega arith in ground (arith, clear, lower)
decode-encode (strict rank) small =
    let word = bit_or-fields 31 1 rank (omega arith) in
    let high : tbit (bit_or (2 ^ 31) rank) 31 ≡ 1 = omega (
      arith,
      tbit-bit_or (2 ^ 31) rank 31,
      tbit-two_pow_self 31,
      tbit_small 31 rank (omega arith),
    ) in
    let marked : bit_and (bit_or (2 ^ 31) rank) (2 ^ 31) ≡ 2 ^ 31 =
      bit_and-two_pow (bit_or (2 ^ 31) rank) 31 ∙ ap (λ t. t * 2 ^ 31) high in
    let lower : bit_or (2 ^ 31) rank % 2 ^ 16 ≡ rank = omega (arith, word) in
    rw (marked, lower) refl

-- No identifier of `ids` is that of a definition, and the definitions have distinct ones.
abbrev pub Fresh : List ℕ → List QueueConfig → Type 0
Fresh ids [] = Unit
Fresh ids (d ∷ ds) = (any (λ i. i == d.id) ids ≡ false) × Fresh (d.id ∷ ids) ds

abbrev pub capacities : List QueueConfig → ℕ
capacities [] = 0
capacities (d ∷ ds) = d.capacity + capacities ds

abbrev pub seen : List ℕ → List QueueConfig → List ℕ
seen ids [] = ids
seen ids (d ∷ ds) = seen (d.id ∷ ids) ds

-- A definition that passes: its identifier is new and the total stays in the bound.
Result-cases :
    (r : Result QueueConfigError (List ℕ))
    → ((a : List ℕ) × (r ≡ ok a)) ⊎ ((e : QueueConfigError) × (r ≡ err e))
Result-cases (ok a) = inl (a, refl)
Result-cases (err e) = inr (e, refl)

check_definitions_step :
    (d : QueueConfig) (ds : List QueueConfig) (ids out : List ℕ) (total : ℕ)
    → check_definitions (d ∷ ds) ids total ≡ ok out
    → (any (λ i. i == d.id) ids ≡ false)
      × (total + d.capacity ≤ maximum_total_queue_capacity)
      × (check_definitions ds (d.id ∷ ids) (total + d.capacity) ≡ ok out)
unfolding check_definitions
check_definitions_step d ds ids out total e = ground arith

check_definitions_lem :
    (ds : List QueueConfig) (ids out : List ℕ) (total : ℕ)
    → total ≤ maximum_total_queue_capacity
    → check_definitions ds ids total ≡ ok out
    → Fresh ids ds × (total + capacities ds ≤ maximum_total_queue_capacity) × (out ≡ seen ids ds)
unfolding check_definitions
check_definitions_lem [] ids out total le e = (tt, omega arith, cc)
check_definitions_lem (d ∷ ds) ids out total le e =
    let (fresh, bound, later) = check_definitions_step d ds ids out total e in
    let (others, sum, last) =
      check_definitions_lem ds (d.id ∷ ids) out (total + d.capacity) bound later in
    ((fresh, others), omega arith, last)

-- The three tests that an accepted layout has passed.
validate_layout_steps :
    (ds : List QueueConfig) (default : ℕ)
    → validate_layout ds default ≡ ok tt
    → (0 < length ds)
      × (length ds ≤ maximum_link_queues)
      × ((ids : List ℕ) × (check_definitions ds [] 0 ≡ ok ids)
          × (any (λ i. i == default) ids ≡ true))
unfolding validate_layout
validate_layout_steps [] default e = absurd (cc)
validate_layout_steps (d ∷ ds) default e =
    let checked = check_definitions (d ∷ ds) [] 0 in
    elim (Result-cases checked) [
      | inl (ids, found) ↦
          (omega arith, ground (arith, e, found), (ids, found, ground (arith, e, found)))
      | inr (error, found) ↦ absurd (ground (arith, e, found))
    ]

-- A layout that is accepted has between 1 and 256 queues, distinct identifiers, a total capacity
-- within the bound, and a queue with the default's identifier.
pub validate_layout-IsLayout :
    (ds : List QueueConfig) (default : ℕ)
    → validate_layout ds default ≡ ok tt
    → (0 < length ds)
      × (length ds ≤ maximum_link_queues)
      × Fresh [] ds
      × (capacities ds ≤ maximum_total_queue_capacity)
      × (any (λ i. i == default) (seen [] ds) ≡ true)
validate_layout-IsLayout ds default e =
    let (some_queue, few, (ids, found, has)) = validate_layout_steps ds default e in
    let (fresh, sum, out) = check_definitions_lem ds [] ids 0 (omega arith) found in
    (some_queue, few, fresh, omega arith, rw out at has)
