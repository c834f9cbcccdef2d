-- ===== src/Mesh/Graph/Route.antt =====
-- src/mesh/topology.rs: `route`, the breadth-first search over usable links, and `reconstruct_route`.
pub mod Walks
pub mod Frontier
pub mod Shortest
use hart_link.Common.{
  ℕ, zero, suc, Bool, true, false, not, ◌&&◌, ◌||◌, Option, none, some, List, [], ◌∷◌, ◌++◌, length,
  retain, ◌==◌, if◌then◌else◌,
}
use hart_link.Common.Maps.{Key, nat_key, pair_key, lookup, put, contains, set_insert}
use hart_link.Mesh.Schedule.{DeviceId}
use hart_link.Mesh.Graph.{LinkHealth, NodeState, MeshGraph, f32_ge, in_unit, ordered_pair, adjacent}

abbrev pub is_active : Option NodeState → Bool
is_active none = false
is_active (some n) = n.active

abbrev pub is_reliable : (minimum_reliability : ℕ) → Option LinkHealth → Bool
is_reliable minimum_reliability none = false
is_reliable minimum_reliability (some h) = f32_ge h.reliability minimum_reliability

-- The filter of `neighbors`.
unfoldable pub usable : MeshGraph → (minimum_reliability : ℕ) → (id candidate : DeviceId) → Bool
unfolding f32_ge ordered_pair
usable g minimum_reliability id candidate =
    is_reliable minimum_reliability (lookup (ordered_pair id candidate) g.links)
    && is_active (lookup candidate g.nodes)

unfoldable pub neighbors : MeshGraph → (minimum_reliability : ℕ) → DeviceId → List DeviceId
unfolding usable adjacent
neighbors g minimum_reliability id =
    retain (usable g minimum_reliability id) (adjacent id g.adjacency)

-- The variables of the search.
pub record Search : Type 0 where
  pub pending : List DeviceId
  pub previous : List (DeviceId × DeviceId)
  pub visited : List DeviceId

-- How the loop over the neighbors of a node ends.
pub data Scan : Type 0 where
  found : List (DeviceId × DeviceId) → Scan
  scanned : Search → Scan

-- A neighbor that is seen for the first time.
unfoldable pub visit : (current neighbor : DeviceId) → Search → Search
visit current neighbor s = record s {
  previous = put neighbor current s.previous;
  visited = set_insert neighbor s.visited;
}

unfoldable pub scan : (destination current : DeviceId) → List DeviceId → Search → Scan
unfolding visit
scan destination current [] s = scanned s
scan destination current (neighbor ∷ rest) s = elim (contains neighbor s.visited) [
  | true ↦ scan destination current rest s
  | false ↦ elim (neighbor == destination) [
    | true ↦ found (visit current neighbor s).previous
    | false ↦
        scan destination current rest
          (record (visit current neighbor s) { pending = s.pending ++ neighbor ∷ [] })
  ]
]

-- The loop of `reconstruct_route`. The hops, which the code pushes and then reverses, are put in front.
unfoldable pub walk_back :
    ℕ
    → (source current : DeviceId) → (previous : List (DeviceId × DeviceId)) → List DeviceId
    → Option (List DeviceId)
walk_back zero source current previous hops = if current == source then some hops else none
walk_back (suc fuel) source current previous hops = elim (current == source) [
  | true ↦ some hops
  | false ↦ elim (lookup current previous) [
    | none ↦ none
    | some p ↦ walk_back fuel source p previous (p ∷ hops)
  ]
]

-- With a step for each entry of the map.
unfoldable pub reconstruct_route :
    (source destination : DeviceId) → List (DeviceId × DeviceId) → Option (List DeviceId)
unfolding walk_back
reconstruct_route source destination previous =
    walk_back (length previous) source destination previous (destination ∷ [])

unfoldable pub search :
    ℕ
    → MeshGraph
    → (source destination : DeviceId) → (minimum_reliability : ℕ) → Search
    → Option (List DeviceId)
unfolding neighbors scan reconstruct_route
search zero g source destination minimum_reliability s = none
search (suc fuel) g source destination minimum_reliability s = elim s.pending [
  | [] ↦ none
  | current ∷ rest ↦
      elim (scan destination current (neighbors g minimum_reliability current)
        (record s { pending = rest })) [
          | found previous ↦ reconstruct_route source destination previous
          | scanned t ↦ search fuel g source destination minimum_reliability t
        ]
]

abbrev pub start : DeviceId → Search
start source = record { pending = source ∷ []; previous = []; visited = source ∷ [] }

-- The hops of the route. The search takes a node from the queue at most once for each node of the graph.
unfoldable pub route :
    MeshGraph → (source destination : DeviceId) → (minimum_reliability : ℕ) → Option (List DeviceId)
unfolding in_unit search
route g source destination minimum_reliability =
    if not (in_unit minimum_reliability)
    then none
    else if not (is_active (lookup source g.nodes)) || not (is_active (lookup destination g.nodes))
    then none
    else if source == destination
    then some (source ∷ [])
    else search (length g.nodes) g source destination minimum_reliability (start source)
