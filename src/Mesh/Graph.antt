-- ===== src/Mesh/Graph.antt =====
-- src/mesh/topology.rs: the neighbor graph of the mesh network. A reliability is the 32 bits of its `f32`.
-- An entry's place in a map is not seen, and the maps are association lists; the neighbors of a node, which
-- the search goes through in order, are an ascending list.
mod Tests
pub mod Views
pub mod Shape
pub mod Route
use hart_link.Common.{
  ℕ, ◌%◌, ◌/◌, ◌^◌, Bool, true, false, not, ◌&&◌, ◌||◌, Option, none, some, List, [], ◌∷◌, length,
  ltb, leb, ◌==◌, if◌then◌else◌,
}
use hart_link.Common.Maps.{
  Key, nat_key, pair_key, is_some, lookup, put, erase, retain_keys, set_insert, set_remove,
}
use hart_link.Mesh.Schedule.{DeviceId}

pub record LinkHealth : Type 0 where
  pub rssi_dbm : ℕ
  pub reliability : ℕ
  pub age_seconds : ℕ

pub record NodeState : Type 0 where
  pub id : DeviceId
  pub nickname : ℕ
  pub active : Bool

pub record MeshGraph : Type 0 where
  pub nodes : List (DeviceId × NodeState)
  pub links : List ((DeviceId × DeviceId) × LinkHealth)
  pub adjacency : List (DeviceId × List DeviceId)

-- `MeshGraph::default()`
unfoldable pub new_graph : MeshGraph
new_graph = record { nodes = []; links = []; adjacency = [] }

-- The comparison `a >= b` of two `f32`: none holds for a NaN, and the two zeros are equal.
abbrev pub magnitude : ℕ → ℕ
magnitude bits = bits % 2 ^ 31

abbrev pub is_nan : ℕ → Bool
is_nan bits = ltb 0x7f800000 (magnitude bits)

abbrev pub is_negative : ℕ → Bool
is_negative bits = leb (2 ^ 31) bits

unfoldable pub f32_ge : ℕ → ℕ → Bool
f32_ge a b =
    if is_nan a || is_nan b
    then false
    else if is_negative a
    then (if is_negative b
        then leb (magnitude a) (magnitude b)
        else (magnitude a == 0) && (magnitude b == 0))
    else if is_negative b
    then true
    else leb (magnitude b) (magnitude a)

abbrev pub f32_one : ℕ
f32_one = 0x3f800000

-- `is_finite() && (0.0..=1.0).contains(..)`
unfoldable pub in_unit : ℕ → Bool
unfolding f32_ge
in_unit bits = ltb (magnitude bits) 0x7f800000 && (f32_ge bits 0 && f32_ge f32_one bits)

unfoldable pub ordered_pair : DeviceId → DeviceId → DeviceId × DeviceId
ordered_pair left right = if leb left right then (left, right) else (right, left)

-- `entry(id).or_default()` for the set of a node's neighbors.
unfoldable pub adjacent : DeviceId → List (DeviceId × List DeviceId) → List DeviceId
adjacent id m = elim (lookup id m) [ none ↦ [] | some s ↦ s ]

unfoldable pub upsert_node : MeshGraph → NodeState → Option NodeState × MeshGraph
unfolding adjacent
upsert_node g node = (
  lookup node.id g.nodes,
  record g {
    adjacency = put node.id (adjacent node.id g.adjacency) g.adjacency;
    nodes = put node.id node g.nodes;
  },
)

-- The body of the loop of `remove_node`, and the loop over the neighbors of the node.
unfoldable pub forget_neighbor :
    DeviceId → DeviceId → List (DeviceId × List DeviceId) → List (DeviceId × List DeviceId)
forget_neighbor id neighbor m = elim (lookup neighbor m) [
  | none ↦ m
  | some entries ↦ put neighbor (set_remove id entries) m
]

unfoldable pub forget_all :
    DeviceId → List DeviceId → List (DeviceId × List DeviceId) → List (DeviceId × List DeviceId)
unfolding forget_neighbor
forget_all id [] m = m
forget_all id (neighbor ∷ rest) m = forget_all id rest (forget_neighbor id neighbor m)

unfoldable pub remove_node : MeshGraph → DeviceId → Option NodeState × MeshGraph
unfolding forget_all
remove_node g id = (
  lookup id g.nodes,
  record {
    nodes = erase id g.nodes;
    links = retain_keys (λ ends. not (ends.0 == id) && not (ends.1 == id)) g.links;
    adjacency = elim (lookup id g.adjacency) [
      | none ↦ g.adjacency
      | some neighbors ↦ forget_all id neighbors (erase id g.adjacency)
    ];
  },
)

-- `self.adjacency.entry(from).or_default().insert(to)`
unfoldable pub connect :
    DeviceId → DeviceId → List (DeviceId × List DeviceId) → List (DeviceId × List DeviceId)
unfolding adjacent
connect from to m = put from (set_insert to (adjacent from m)) m

unfoldable pub update_link : MeshGraph → (left right : DeviceId) → LinkHealth → Bool × MeshGraph
unfolding ordered_pair in_unit connect
update_link g left right health =
    if (left == right)
      || (not (in_unit health.reliability)
          || (not (is_some (lookup left g.nodes)) || not (is_some (lookup right g.nodes))))
    then (false, g)
    else (
      true,
      record g {
        links = put (ordered_pair left right) health g.links;
        adjacency = connect right left (connect left right g.adjacency);
      },
    )

unfoldable pub node_count : MeshGraph → ℕ
node_count g = length g.nodes

unfoldable pub link_count : MeshGraph → ℕ
link_count g = length g.links

-- `node`
unfoldable pub get_node : MeshGraph → DeviceId → Option NodeState
get_node g id = lookup id g.nodes
