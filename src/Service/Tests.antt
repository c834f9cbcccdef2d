-- ===== src/Service/Tests.antt =====
-- Runs of the queues' theorems at concrete layouts and slots.
use hart_link.Common.{
  ℕ, ◌≤◌, ◌<◌, ◌≡◌, ◌≢◌, refl, arith, false, true, any, none, some, List, [], ◌∷◌, length,
  get_elem?, ◌==◌, ok,
}
use hart_link.Service.QueueConfig.{
  weighted, strict, QueueConfig, encode, decode, validate_layout, check_definitions,
  maximum_link_queues, maximum_total_queue_capacity,
}
use hart_link.Service.QueueConfig.Laws.{
  decode-encode, Fresh, capacities, seen, validate_layout-IsLayout,
}
use hart_link.Service.QueueSet.{QueueEntry, QueueSlot, slot_priority}
use hart_link.Service.Scheduler.{
  new_cursor, pop_scheduled, pop_strict, pop_weighted, pop_rotation, in_range, ready_rank,
}
use hart_link.Service.Scheduler.Strict.{pop_scheduled-none, pop_scheduled-strict_first}

decode-encode_example : decode (encode (strict 9)) ≡ strict 9
decode-encode_example = decode-encode (strict 9) (omega arith)

abbrev layout : List QueueConfig
layout =
    record { id = 0; capacity = 8; priority = weighted 1 }
    ∷ record { id = 5; capacity = 4; priority = strict 2 }
    ∷ []

layout_accepted : validate_layout layout 5 ≡ ok tt
unfolding validate_layout check_definitions
layout_accepted = refl

validate_layout-IsLayout_example :
    (0 < length layout)
    × (length layout ≤ maximum_link_queues)
    × Fresh [] layout
    × (capacities layout ≤ maximum_total_queue_capacity)
    × (any (λ i. i == 5) (seen [] layout) ≡ true)
validate_layout-IsLayout_example = validate_layout-IsLayout layout 5 layout_accepted

abbrev request : QueueEntry ℕ
request = record { item = 40; permit = 1 }

abbrev idle_slot : QueueSlot ℕ
idle_slot = record {
  id = 0;
  capacity = 8;
  priority = 1;
  permits = 8;
  permits_closed = false;
  queued = 0;
  entries = [];
}

abbrev busy_slot : QueueSlot ℕ
busy_slot = record {
  id = 5;
  capacity = 4;
  priority = 2147483650;
  permits = 3;
  permits_closed = false;
  queued = 1;
  entries = request ∷ [];
}

nothing_popped : (pop_scheduled (idle_slot ∷ []) new_cursor).entry ≡ none
unfolding pop_scheduled pop_strict pop_weighted pop_rotation in_range ready_rank slot_priority
nothing_popped = refl

pop_scheduled-none_example : idle_slot.entries ≡ []
pop_scheduled-none_example =
    pop_scheduled-none (idle_slot ∷ []) new_cursor (refl, tt) nothing_popped 0 idle_slot refl

busy_priority : slot_priority busy_slot ≡ strict 2
unfolding slot_priority decode
busy_priority = refl

busy_entries : busy_slot.entries ≢ []
busy_entries e = cc

pop_scheduled-strict_first_example :
    (j : ℕ) × (served : QueueSlot ℕ) × (top : ℕ) × (entry : QueueEntry ℕ) × (get_elem?
        (idle_slot ∷ busy_slot ∷ [])
        j
      ≡ some served)
    × (slot_priority served ≡ strict top)
    × (2 ≤ top)
    × (get_elem? served.entries 0 ≡ some entry)
    × ((pop_scheduled (idle_slot ∷ busy_slot ∷ []) new_cursor).entry ≡ some (served.id, entry))
pop_scheduled-strict_first_example =
    pop_scheduled-strict_first (idle_slot ∷ busy_slot ∷ []) new_cursor 1 busy_slot 2
      (refl, (refl, tt)) refl busy_priority busy_entries
