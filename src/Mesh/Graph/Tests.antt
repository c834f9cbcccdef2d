-- ===== src/Mesh/Graph/Tests.antt =====
-- Runs of the graph's theorems at a small network.
use hart_link.Common.{ℕ, ◌≡◌, refl, true, some, List, [], ◌∷◌}
use hart_link.Common.Maps.{nat_key, pair_key, lookup, put, erase, set_insert, set_remove, contains}
use hart_link.Mesh.Graph.{LinkHealth, NodeState, in_unit, new_graph}
use hart_link.Mesh.Graph.Views.{IsGraph}
use hart_link.Mesh.Graph.Shape.{
  Change, adding, removing, measuring, run_changes, run_changes-IsGraph,
}
use hart_link.Mesh.Graph.Route.{is_active, route}
use hart_link.Mesh.Graph.Route.Walks.{IsShortest}
use hart_link.Mesh.Graph.Route.Shortest.{route-IsShortest}

abbrev node : ℕ → NodeState
node id = record { id = id; nickname = id; active = true }

-- Reliabilities 1.0 and 0.25.
abbrev good : LinkHealth
good = record { rssi_dbm = 0; reliability = 0x3f800000; age_seconds = 0 }

abbrev poor : LinkHealth
poor = record { rssi_dbm = 0; reliability = 0x3e800000; age_seconds = 0 }

-- A chain from 1 by 2 and 3 to 4, a poor link from 1 to 4, and a node that has left.
abbrev changes : List Change
changes =
    adding (node 1)
    ∷ adding (node 2)
    ∷ adding (node 3)
    ∷ adding (node 4)
    ∷ adding (node 5)
    ∷ measuring 1 2 good
    ∷ measuring 2 3 good
    ∷ measuring 4 3 good
    ∷ measuring 1 5 good
    ∷ measuring 5 4 good
    ∷ measuring 1 4 poor
    ∷ removing 5
    ∷ []

run_changes-IsGraph_example : IsGraph (run_changes new_graph changes)
run_changes-IsGraph_example = run_changes-IsGraph changes

abbrev half : ℕ
half = 0x3f000000

half-in_unit : in_unit half ≡ true
unfolding in_unit
half-in_unit = refl

ends :
    (is_active (lookup 1 (run_changes new_graph changes).nodes) ≡ true)
    × (is_active (lookup 4 (run_changes new_graph changes).nodes) ≡ true)
unfolding run_changes lookup erase put new_graph nat_key
ends = (refl, refl)

found_route : route (run_changes new_graph changes) 1 4 half ≡ some (1 ∷ 2 ∷ 3 ∷ 4 ∷ [])
unfolding run_changes route lookup erase put new_graph nat_key set_insert set_remove pair_key
    contains
found_route = refl

route-IsShortest_example :
    IsShortest
      (run_changes new_graph changes)
      half
      1
      4
      (route (run_changes new_graph changes) 1 4 half)
route-IsShortest_example =
    route-IsShortest (run_changes new_graph changes) half (run_changes-IsGraph changes) 1 4
      half-in_unit ends.0 ends.1
