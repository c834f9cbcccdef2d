-- ===== src/Mesh/Graph/Views.antt =====
-- The graph's maps, seen through one node, one neighbor or one link.
use hart_link.Common.{
  ◌≡◌, refl, arith, ap, ◌∙◌, Bool, true, false, not, ◌&&◌, ◌||◌, none, some, List, [], ◌==◌,
  if◌then◌else◌,
}
use hart_link.Common.Maps.{
  nat_key, pair_key, is_some, lookup, put, erase, retain_keys, set_insert, contains, lookup-put,
  lookup-retain_keys, lookup-erase, contains-set_insert,
}
use hart_link.Mesh.Schedule.{DeviceId}
use hart_link.Mesh.Graph.{
  LinkHealth, NodeState, MeshGraph, new_graph, in_unit, ordered_pair, adjacent, connect,
}

-- The node is in the graph; two nodes have a link; the second is a neighbor of the first.
abbrev pub has_node : MeshGraph → DeviceId → Bool
has_node g a = is_some (lookup a g.nodes)

abbrev pub linked : MeshGraph → DeviceId → DeviceId → Bool
linked g a b = is_some (lookup (ordered_pair a b) g.links)

abbrev pub borders : MeshGraph → DeviceId → DeviceId → Bool
borders g a b = contains b (adjacent a g.adjacency)

pub record IsGraph (g : MeshGraph) : Type 0 where
  pub own_id : (a : DeviceId) (n : NodeState) → lookup a g.nodes ≡ some n → n.id ≡ a
  pub neighbors_linked : (a b : DeviceId) → borders g a b ≡ linked g a b
  pub two_ends :
      (a b : DeviceId)
      → linked g a b ≡ true
      → (has_node g a ≡ true) × (has_node g b ≡ true) × ((a == b) ≡ false)
  pub measured :
      (a b : DeviceId) (h : LinkHealth)
      → lookup (ordered_pair a b) g.links ≡ some h
      → in_unit h.reliability ≡ true

pub new_graph-IsGraph : IsGraph new_graph
unfolding new_graph lookup adjacent contains
new_graph-IsGraph = record {
  own_id = λ a n e. absurd (cc);
  neighbors_linked = λ a b. refl;
  two_ends = λ a b e. absurd (cc);
  measured = λ a b h e. absurd (cc);
}

pub ordered_pair_symm : (a b : DeviceId) → ordered_pair a b ≡ ordered_pair b a
unfolding ordered_pair
ordered_pair_symm a b = ground arith

pub contains-nil : (b : DeviceId) → contains b [] ≡ false
unfolding contains
contains-nil b = refl

-- Each operation of a map, as it is seen through one neighbor, one node, or one link.
pub adjacent-put :
    (z k : DeviceId) (s : List DeviceId) (m : List (DeviceId × List DeviceId))
    → adjacent z (put k s m) ≡ (if z == k then s else adjacent z m)
unfolding adjacent nat_key
adjacent-put z k s m = ground (arith, lookup-put z k s m)

pub adjacent-erase :
    (z k : DeviceId) (m : List (DeviceId × List DeviceId))
    → adjacent z (erase k m) ≡ (if z == k then [] else adjacent z m)
unfolding adjacent nat_key
adjacent-erase z k m = ground (arith, lookup-erase z k m)

pub borders-connect :
    (from to a b : DeviceId) (m : List (DeviceId × List DeviceId))
    → contains b (adjacent a (connect from to m))
      ≡ (((a == from) && (b == to)) || contains b (adjacent a m))
unfolding connect
borders-connect from to a b m = ground (
  arith,
  adjacent-put a from (set_insert to (adjacent from m)) m,
  contains-set_insert b to (adjacent from m),
)

pub has_node-put :
    (a k : DeviceId) (n : NodeState) (m : List (DeviceId × NodeState))
    → is_some (lookup a (put k n m)) ≡ ((a == k) || is_some (lookup a m))
unfolding nat_key
has_node-put a k n m = ground (arith, lookup-put a k n m)

pub has_node-erase :
    (a k : DeviceId) (m : List (DeviceId × NodeState))
    → is_some (lookup a (erase k m)) ≡ (not (a == k) && is_some (lookup a m))
unfolding nat_key
has_node-erase a k m = ground (arith, lookup-erase a k m)

pub same-ordered_pair :
    (a b l r : DeviceId)
    → pair_key.same (ordered_pair a b) (ordered_pair l r)
      ≡ (((a == l) && (b == r)) || ((a == r) && (b == l)))
unfolding pair_key ordered_pair
same-ordered_pair a b l r = ground arith

pub linked-put :
    (a b l r : DeviceId) (h : LinkHealth) (m : List ((DeviceId × DeviceId) × LinkHealth))
    → lookup (ordered_pair a b) (put (ordered_pair l r) h m) ≡ (
        if ((a == l) && (b == r)) || ((a == r) && (b == l))
        then some h
        else lookup (ordered_pair a b) m)
linked-put a b l r h m =
    lookup-put (ordered_pair a b) (ordered_pair l r) h m
    ∙ ap (λ t. if t then some h else lookup (ordered_pair a b) m) (same-ordered_pair a b l r)

pub spared :
    (a b id : DeviceId)
    → (not ((ordered_pair a b).0 == id) && not ((ordered_pair a b).1 == id))
      ≡ (not (a == id) && not (b == id))
unfolding ordered_pair
spared a b id = ground arith

pub linked-retain :
    (a b id : DeviceId) (m : List ((DeviceId × DeviceId) × LinkHealth))
    → lookup (ordered_pair a b) (retain_keys (λ ends. not (ends.0 == id) && not (ends.1 == id)) m)
      ≡ (if not (a == id) && not (b == id) then lookup (ordered_pair a b) m else none)
linked-retain a b id m =
    lookup-retain_keys (ordered_pair a b) (λ ends. not (ends.0 == id) && not (ends.1 == id)) m
    ∙ ap (λ t. if t then lookup (ordered_pair a b) m else none) (spared a b id)
