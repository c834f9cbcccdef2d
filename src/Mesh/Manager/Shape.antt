-- ===== src/Mesh/Manager/Shape.antt =====
-- The short addresses, and all that holds of a manager whatever is done to it.
use hart_link.Common.{
  ℕ, ◌≤◌, ◌<◌, ◌≡◌, refl, arith, sym, subst, ◌∙◌, inl, inr, true, false, ◌||◌, Bool-cases, some,
  List, [], ltb, ◌==◌, ok, ok_inj, Result-cases,
}
use hart_link.Common.Maps.{
  nat_key, is_some, lookup, put, erase, contains, set_insert, set_remove, lookup-put, lookup-erase,
  contains-set_insert, contains-set_remove,
}
use hart_link.Mesh.Replay.{ReplayWindow}
use hart_link.Mesh.Schedule.{DeviceId, Cell, Schedule, new_schedule, insert}
use hart_link.Mesh.Schedule.Conflicts.{
  IsSchedule, new_schedule-IsSchedule, insert-IsSchedule, remove_device-IsSchedule,
}
use hart_link.Mesh.Graph.{LinkHealth, NodeState, MeshGraph, new_graph, remove_node, update_link}
use hart_link.Mesh.Graph.Views.{IsGraph, new_graph-IsGraph}
use hart_link.Mesh.Graph.Shape.{remove_node-IsGraph}
use hart_link.Mesh.Manager.{MeshManager, new_manager, forget_device, allow, revoke}
use hart_link.Mesh.Manager.Admission.{nodes-remove_node}
use hart_link.Mesh.Manager.Runs.{inserted}

-- A node of a manager: active, with a short address that has been given out.
pub record IsNode (m : MeshManager) (a : DeviceId) (n : NodeState) : Type 0 where
  pub running : n.active ≡ true
  pub positive : 0 < n.nickname
  pub small : n.nickname ≤ 65535
  pub issued : ((m.next_nickname == 0) || ltb n.nickname m.next_nickname) ≡ true
  pub admitted : contains a m.allowlist ≡ true
  pub keyed : is_some (lookup a m.join_keys) ≡ true
  pub windowed : is_some (lookup a m.replay) ≡ true

pub record IsManager (m : MeshManager) : Type 0 where
  pub graph_shape : IsGraph m.graph
  pub schedule_shape : IsSchedule m.schedule
  pub next_small : m.next_nickname ≤ 65535
  pub each : (a : DeviceId) (n : NodeState) → lookup a m.graph.nodes ≡ some n → IsNode m a n
  pub distinct :
      (a b : DeviceId) (n k : NodeState)
      → lookup a m.graph.nodes ≡ some n
      → lookup b m.graph.nodes ≡ some k
      → n.nickname ≡ k.nickname
      → a ≡ b

pub new_manager-IsManager :
    (network size : ℕ) (m : MeshManager) → new_manager network size ≡ ok m → IsManager m
unfolding new_manager new_graph lookup
new_manager-IsManager network size m e = elim (Result-cases (new_schedule size)) [
  | inr (x, q) ↦ absurd (ground (arith, e, q))
  | inl (s, q) ↦
      let made : MeshManager = record {
        network = network;
        graph = new_graph;
        schedule = s;
        allowlist = [];
        join_keys = [];
        replay = [];
        next_nickname = 1;
      } in
      let built : ok made ≡ ok m = sym (rw (new_manager, q) refl) ∙ e in
      subst IsManager (ok_inj built) (record {
        graph_shape = new_graph-IsGraph;
        schedule_shape = (new_schedule-IsSchedule size s q).0;
        next_small = omega arith;
        each = λ a n e. absurd (cc);
        distinct = λ a b n k e f h. absurd (cc);
      })
]

pub stays :
    (g : MeshGraph) (a id : DeviceId) (n : NodeState)
    → lookup a (remove_node g id).1.nodes ≡ some n
    → ((a == id) ≡ false) × (lookup a g.nodes ≡ some n)
stays g a id n e = ground (arith, e, nodes-remove_node g a id)

-- A device that is forgotten may have lost its admission and its key before.
forget_device-IsManager :
    (m : MeshManager) (device : DeviceId)
    → IsGraph m.graph
    → IsSchedule m.schedule
    → m.next_nickname ≤ 65535
    → ((a : DeviceId) (n : NodeState)
        → (a == device) ≡ false
        → lookup a m.graph.nodes ≡ some n
        → IsNode m a n)
    → ((a b : DeviceId) (n k : NodeState)
        → lookup a m.graph.nodes ≡ some n
        → lookup b m.graph.nodes ≡ some k
        → n.nickname ≡ k.nickname
        → a ≡ b)
    → IsManager (forget_device m device)
unfolding forget_device nat_key
forget_device-IsManager m device shape fits small each distinct =
    let old =
      λ (a : DeviceId) (n : NodeState) (e : lookup a (remove_node m.graph device).1.nodes ≡ some n).
        stays m.graph a device n e in
    record {
      graph_shape = remove_node-IsGraph m.graph device shape;
      schedule_shape = (remove_device-IsSchedule m.schedule device fits).0;
      next_small = small;
      each = λ a n e.
          let w = each a n (old a n e).0 (old a n e).1 in
          record {
            running = w.running;
            positive = w.positive;
            small = w.small;
            issued = w.issued;
            admitted = w.admitted;
            keyed = w.keyed;
            windowed = ground (arith, w.windowed, (old a n e).0, lookup-erase a device m.replay);
          };
      distinct = λ a b n k e f. distinct a b n k (old a n e).1 (old b k f).1;
    }

provisioned-IsManager :
    (m : MeshManager) (device : DeviceId) (join_key : List ℕ)
    → IsManager m
    → IsManager (record m {
      allowlist = set_insert device m.allowlist;
      join_keys = put device join_key m.join_keys;
    })
unfolding nat_key
provisioned-IsManager m device join_key v = record {
  graph_shape = v.graph_shape;
  schedule_shape = v.schedule_shape;
  next_small = v.next_small;
  distinct = v.distinct;
  each = λ a n e.
      let w = v.each a n e in
      record {
        running = w.running;
        positive = w.positive;
        small = w.small;
        issued = w.issued;
        windowed = w.windowed;
        admitted = ground (arith, w.admitted, contains-set_insert a device m.allowlist);
        keyed = ground (arith, w.keyed, lookup-put a device join_key m.join_keys);
      };
}

pub allow-IsManager :
    (m : MeshManager) (device : DeviceId) (join_key : List ℕ)
    → IsManager m
    → IsManager (allow m device join_key)
unfolding allow
allow-IsManager m device join_key v =
    let p = provisioned-IsManager m device join_key v in
    elim (Bool-cases (is_some (lookup device m.join_keys))) [
      | inr first ↦ rw (allow, first) p
      | inl again ↦
          rw (allow, again)
            (forget_device-IsManager
              (record m {
                allowlist = set_insert device m.allowlist;
                join_keys = put device join_key m.join_keys;
              })
              device p.graph_shape p.schedule_shape p.next_small (λ a n h. p.each a n) p.distinct)
    ]

pub revoke-IsManager :
    (m : MeshManager) (device : DeviceId) → IsManager m → IsManager (revoke m device)
unfolding revoke nat_key
revoke-IsManager m device v =
    forget_device-IsManager
      (record m { allowlist = set_remove device m.allowlist; join_keys = erase device m.join_keys })
      device v.graph_shape v.schedule_shape v.next_small
      (λ a n other e.
        let w = v.each a n e in
        record {
          running = w.running;
          positive = w.positive;
          small = w.small;
          issued = w.issued;
          windowed = w.windowed;
          admitted = ground (arith, w.admitted, other, contains-set_remove a device m.allowlist);
          keyed = ground (arith, w.keyed, other, lookup-erase a device m.join_keys);
        })
      v.distinct

-- A counter that is checked changes a window only.
pub kept-IsManager :
    (m : MeshManager) (device : DeviceId) (w : ReplayWindow)
    → IsManager m
    → IsManager (record m { replay = put device w m.replay })
unfolding nat_key
kept-IsManager m device window v = record {
  graph_shape = v.graph_shape;
  schedule_shape = v.schedule_shape;
  next_small = v.next_small;
  distinct = v.distinct;
  each = λ a n e.
      let w = v.each a n e in
      record {
        running = w.running;
        positive = w.positive;
        small = w.small;
        issued = w.issued;
        admitted = w.admitted;
        keyed = w.keyed;
        windowed = ground (arith, w.windowed, lookup-put a device window m.replay);
      };
}

-- A graph with the nodes of the old one, or fewer.
pub regraphed-IsManager :
    (m : MeshManager) (g : MeshGraph)
    → IsGraph g
    → ((a : DeviceId) (n : NodeState) → lookup a g.nodes ≡ some n → lookup a m.graph.nodes ≡ some n)
    → IsManager m
    → IsManager (record m { graph = g })
regraphed-IsManager m g shape fewer v = record {
  graph_shape = shape;
  schedule_shape = v.schedule_shape;
  next_small = v.next_small;
  each = λ a n e.
      let w = v.each a n (fewer a n e) in
      record {
        running = w.running;
        positive = w.positive;
        small = w.small;
        issued = w.issued;
        admitted = w.admitted;
        keyed = w.keyed;
        windowed = w.windowed;
      };
  distinct = λ a b n k e f. v.distinct a b n k (fewer a n e) (fewer b k f);
}

pub rescheduled-IsManager :
    (m : MeshManager) (s : Schedule)
    → IsSchedule s
    → IsManager m
    → IsManager (record m { schedule = s })
rescheduled-IsManager m s fits v = record {
  graph_shape = v.graph_shape;
  schedule_shape = fits;
  next_small = v.next_small;
  distinct = v.distinct;
  each = λ a n e.
      let w = v.each a n e in
      record {
        running = w.running;
        positive = w.positive;
        small = w.small;
        issued = w.issued;
        admitted = w.admitted;
        keyed = w.keyed;
        windowed = w.windowed;
      };
}

pub inserted-IsSchedule :
    (s : Schedule) (cell : Cell) → IsSchedule s → IsSchedule (inserted s (insert s cell))
inserted-IsSchedule s cell v = elim (Result-cases (insert s cell)) [
  | inl (t, q) ↦ rw q (insert-IsSchedule s t cell v q)
  | inr (x, q) ↦ rw q v
]

pub nodes-update_link :
    (g : MeshGraph) (left right : DeviceId) (h : LinkHealth)
    → (update_link g left right h).1.nodes ≡ g.nodes
unfolding update_link
nodes-update_link g left right h = ground arith
