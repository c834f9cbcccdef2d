-- ===== src/Mesh/Graph/Shape.antt =====
-- The graph's three maps agree, whatever is added and removed.
use hart_link.Common.{
  ◌≡◌, refl, arith, ap, ◌∙◌, inl, inr, true, false, not, ◌&&◌, ◌||◌, Bool-cases, Option-cases, none,
  some, List, [], ◌∷◌, ◌==◌,
}
use hart_link.Common.Maps.{
  nat_key, pair_key, is_some, lookup, put, erase, set_remove, contains, lookup-put, lookup-erase,
  contains-set_remove,
}
use hart_link.Mesh.Schedule.{DeviceId}
use hart_link.Mesh.Graph.{
  LinkHealth, NodeState, MeshGraph, new_graph, in_unit, ordered_pair, adjacent, upsert_node,
  forget_neighbor, forget_all, remove_node, connect, update_link,
}
use hart_link.Mesh.Graph.Views.{
  has_node, linked, borders, IsGraph, new_graph-IsGraph, ordered_pair_symm, contains-nil,
  adjacent-put, adjacent-erase, borders-connect, has_node-put, has_node-erase, linked-put,
  linked-retain,
}

pub upsert_node-IsGraph :
    (g : MeshGraph) (node : NodeState) → IsGraph g → IsGraph (upsert_node g node).1
unfolding upsert_node nat_key
upsert_node-IsGraph g node v = record {
  own_id = λ a n e. ground (arith, lookup-put a node.id node g.nodes, v.own_id a n, e);
  neighbors_linked = λ a b. ground (
    arith,
    adjacent-put a node.id (adjacent node.id g.adjacency) g.adjacency,
    v.neighbors_linked a b,
  );
  two_ends = λ a b e. ground (
    arith,
    has_node-put a node.id node g.nodes,
    has_node-put b node.id node g.nodes,
    v.two_ends a b e,
  );
  measured = v.measured;
}

forget_neighbor_lem :
    (id n : DeviceId) (m : List (DeviceId × List DeviceId)) (a b : DeviceId)
    → contains b (adjacent a (forget_neighbor id n m))
      ≡ (not ((n == a) && (b == id)) && contains b (adjacent a m))
unfolding forget_neighbor adjacent nat_key
forget_neighbor_lem id n m a b = elim (Option-cases (lookup n m)) [
  | inl absent ↦ ground (arith, absent, contains-nil b)
  | inr (entries, e) ↦
      ground (arith, e, lookup-put a n (set_remove id entries) m, contains-set_remove b id entries)
]

-- The loop of `remove_node` takes the node from the neighbors it goes through, and from no other.
forget_all_lem :
    (id : DeviceId) (ns : List DeviceId) (m : List (DeviceId × List DeviceId)) (a b : DeviceId)
    → contains b (adjacent a (forget_all id ns m))
      ≡ (not (contains a ns && (b == id)) && contains b (adjacent a m))
unfolding forget_all contains
forget_all_lem id [] m a b = refl
forget_all_lem id (n ∷ ns) m a b =
    ground
      (arith, forget_all_lem id ns (forget_neighbor id n m) a b, forget_neighbor_lem id n m a b)

linked_symm : (g : MeshGraph) (a b : DeviceId) → linked g a b ≡ linked g b a
linked_symm g a b = ap (λ k. is_some (lookup k g.links)) (ordered_pair_symm a b)

adjacent-none :
    (id : DeviceId) (m : List (DeviceId × List DeviceId)) → lookup id m ≡ none → adjacent id m ≡ []
unfolding adjacent
adjacent-none id m e = ground (arith, e)

adjacent-some :
    (id : DeviceId) (m : List (DeviceId × List DeviceId)) (s : List DeviceId)
    → lookup id m ≡ some s
    → adjacent id m ≡ s
unfolding adjacent
adjacent-some id m s e = ground (arith, e)

removed_near :
    (g : MeshGraph) (id a b : DeviceId)
    → IsGraph g
    → borders (remove_node g id).1 a b ≡ linked (remove_node g id).1 a b
unfolding remove_node
removed_near g id a b v = elim (Option-cases (lookup id g.adjacency)) [
  | inl absent ↦
      let alone = adjacent-none id g.adjacency absent in
      rw (remove_node, absent)
        (ground (
          arith,
          alone,
          contains-nil a,
          contains-nil b,
          v.neighbors_linked a b,
          v.neighbors_linked id b,
          v.neighbors_linked id a,
          linked_symm g a id,
          linked-retain a b id g.links,
        ))
  | inr (ns, e) ↦
      let here = adjacent-some id g.adjacency ns e in
      rw (remove_node, e)
        (ground (
          arith,
          here,
          contains-nil b,
          forget_all_lem id ns (erase id g.adjacency) a b,
          adjacent-erase a id g.adjacency,
          v.neighbors_linked a b,
          v.neighbors_linked id a,
          linked_symm g a id,
          linked-retain a b id g.links,
        ))
]

pub remove_node-IsGraph : (g : MeshGraph) (id : DeviceId) → IsGraph g → IsGraph (remove_node g id).1
unfolding remove_node nat_key
remove_node-IsGraph g id v = record {
  own_id = λ a n e. ground (arith, lookup-erase a id g.nodes, v.own_id a n, e);
  neighbors_linked = λ a b. removed_near g id a b v;
  two_ends = λ a b e. ground (
    arith,
    e,
    linked-retain a b id g.links,
    has_node-erase a id g.nodes,
    has_node-erase b id g.nodes,
    v.two_ends a b,
  );
  measured = λ a b h e. v.measured a b h (ground (arith, e, linked-retain a b id g.links));
}

unlinked : (g : MeshGraph) (id b : DeviceId) → linked (remove_node g id).1 id b ≡ false
unfolding remove_node
unlinked g id b = ground (arith, linked-retain id b id g.links)

-- A node that is removed has no link and is no neighbor.
pub remove_node-isolated :
    (g : MeshGraph) (id b : DeviceId)
    → IsGraph g
    → (linked (remove_node g id).1 id b ≡ false) × (borders (remove_node g id).1 b id ≡ false)
remove_node-isolated g id b v =
    let alone : linked (remove_node g id).1 id b ≡ false = unlinked g id b in
    (
      alone,
      (remove_node-IsGraph g id v).neighbors_linked b id
          ∙ linked_symm (remove_node g id).1 b id
          ∙ alone,
    )

connected-IsGraph :
    (g : MeshGraph) (left right : DeviceId) (health : LinkHealth)
    → IsGraph g
    → (left == right) ≡ false
    → in_unit health.reliability ≡ true
    → has_node g left ≡ true
    → has_node g right ≡ true
    → IsGraph (record g {
      links = put (ordered_pair left right) health g.links;
      adjacency = connect right left (connect left right g.adjacency);
    })
connected-IsGraph g left right health v apart unit l r = record {
  own_id = v.own_id;
  neighbors_linked = λ a b. ground (
    arith,
    borders-connect right left a b (connect left right g.adjacency),
    borders-connect left right a b g.adjacency,
    linked-put a b left right health g.links,
    v.neighbors_linked a b,
  );
  two_ends = λ a b e.
      ground (arith, e, apart, l, r, linked-put a b left right health g.links, v.two_ends a b);
  measured = λ a b h e.
      ground (arith, e, unit, linked-put a b left right health g.links, v.measured a b h);
}

pub update_link-IsGraph :
    (g : MeshGraph) (left right : DeviceId) (health : LinkHealth)
    → IsGraph g
    → IsGraph (update_link g left right health).1
unfolding update_link
update_link-IsGraph g left right health v =
    elim (Bool-cases (
      (left == right)
      || (not (in_unit health.reliability) || (not (has_node g left) || not (has_node g right))))) [
        | inl refused ↦ rw (update_link, refused) v
        | inr linked_now ↦
            rw (update_link, linked_now)
              (connected-IsGraph g left right health v (ground arith) (ground arith) (ground arith)
                (ground arith))
      ]

-- What is done to a graph.
pub data Change : Type 0 where
  adding : NodeState → Change
  removing : DeviceId → Change
  measuring : (left right : DeviceId) → LinkHealth → Change

unfoldable pub run_changes : MeshGraph → List Change → MeshGraph
unfolding upsert_node remove_node update_link
run_changes g [] = g
run_changes g (adding n ∷ cs) = run_changes (upsert_node g n).1 cs
run_changes g (removing id ∷ cs) = run_changes (remove_node g id).1 cs
run_changes g (measuring left right h ∷ cs) = run_changes (update_link g left right h).1 cs

run_changes-IsGraph_from :
    (cs : List Change) (g : MeshGraph) → IsGraph g → IsGraph (run_changes g cs)
unfolding run_changes
run_changes-IsGraph_from [] g v = v
run_changes-IsGraph_from (adding n ∷ cs) g v =
    run_changes-IsGraph_from cs (upsert_node g n).1 (upsert_node-IsGraph g n v)
run_changes-IsGraph_from (removing id ∷ cs) g v =
    run_changes-IsGraph_from cs (remove_node g id).1 (remove_node-IsGraph g id v)
run_changes-IsGraph_from (measuring left right h ∷ cs) g v =
    run_changes-IsGraph_from cs (update_link g left right h).1
      (update_link-IsGraph g left right h v)

-- Whatever nodes and links are added to an empty graph and removed from it, in any order: a node is a neighbor
-- of another exactly if the two have a link, a link connects two different nodes of the graph and has a
-- reliability from 0.0 to 1.0, and each node is kept under its own identifier.
pub run_changes-IsGraph : (cs : List Change) → IsGraph (run_changes new_graph cs)
run_changes-IsGraph cs = run_changes-IsGraph_from cs new_graph new_graph-IsGraph
