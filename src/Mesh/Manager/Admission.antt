-- ===== src/Mesh/Manager/Admission.antt =====
-- Who is admitted, and what a revocation leaves.
use hart_link.Common.{
  ℕ, ◌≡◌, refl, arith, Bool, true, false, not, ◌&&◌, none, some, List, [], ◌∷◌, any, retain, ◌==◌,
  if◌then◌else◌, Result, ok, err,
}
use hart_link.Common.Maps.{nat_key, is_some, lookup, contains, lookup-erase, contains-set_remove}
use hart_link.Mesh.Schedule.{DeviceId, Cell, remove_device, involves}
use hart_link.Mesh.Graph.{NodeState, MeshGraph, remove_node}
use hart_link.Mesh.Graph.Views.{IsGraph, linked, borders}
use hart_link.Mesh.Graph.Shape.{remove_node-isolated}
use hart_link.Mesh.Manager.{
  JoinRequest, JoinDecision, accepted, not_allowed, wrong_network, authentication_failed,
  MeshManagerError, MeshManager, forget_device, revoke,
}

-- The device is an active node with the short address.
abbrev pub Serves : MeshManager → DeviceId → (nickname : ℕ) → Type 0
Serves m device nickname =
    (node : NodeState) × (lookup device m.graph.nodes ≡ some node)
    × (node.active ≡ true)
    × (node.nickname ≡ nickname)

-- What each answer to a join request says of the request, and what it leaves of the state.
abbrev pub Answered :
    (authenticate : JoinRequest → List ℕ → Bool)
    → MeshManager
    → JoinRequest
    → Result MeshManagerError JoinDecision × MeshManager
    → Type 0
Answered authenticate m request (ok wrong_network, after) =
    (after ≡ m) × ((request.network == m.network) ≡ false)
Answered authenticate m request (ok not_allowed, after) =
    (after ≡ m)
    × ((request.network == m.network) ≡ true)
    × ((contains request.device m.allowlist && is_some (lookup request.device m.join_keys)) ≡ false)
Answered authenticate m request (ok authentication_failed, after) =
    (after ≡ m)
    × (key : List ℕ) × (lookup request.device m.join_keys ≡ some key)
    × (authenticate request key ≡ false)
Answered authenticate m request (ok (accepted nickname), after) =
    ((request.network == m.network) ≡ true)
    × (contains request.device m.allowlist ≡ true)
    × ((key : List ℕ) × (lookup request.device m.join_keys ≡ some key)
        × (authenticate request key ≡ true))
    × Serves after request.device nickname
Answered authenticate m request (err e, after) =
    (after.graph ≡ m.graph)
    × (after.schedule ≡ m.schedule)
    × (after.next_nickname ≡ m.next_nickname)

-- Admitting a request that has passed, as `apply_join` does.
abbrev Applied :
    MeshManager → JoinRequest → Result MeshManagerError JoinDecision × MeshManager → Type 0
Applied m request (ok (accepted nickname), after) = Serves after request.device nickname
Applied m request (ok not_allowed, after) = ⊥
Applied m request (ok wrong_network, after) = ⊥
Applied m request (ok authentication_failed, after) = ⊥
Applied m request (err e, after) =
    (after.graph ≡ m.graph)
    × (after.schedule ≡ m.schedule)
    × (after.next_nickname ≡ m.next_nickname)

pub nodes-remove_node :
    (g : MeshGraph) (a id : DeviceId)
    → lookup a (remove_node g id).1.nodes ≡ (if a == id then none else lookup a g.nodes)
unfolding remove_node nat_key
nodes-remove_node g a id = ground (arith, lookup-erase a id g.nodes)

-- Nothing of the device is left, and the other devices keep what they have.
pub record Forgotten (m : MeshManager) (device : DeviceId) (after : MeshManager) : Type 0 where
  pub no_admission : contains device after.allowlist ≡ false
  pub no_key : lookup device after.join_keys ≡ none
  pub no_window : lookup device after.replay ≡ none
  pub no_node : lookup device after.graph.nodes ≡ none
  pub no_link : (b : DeviceId) → linked after.graph device b ≡ false
  pub no_neighbor : (b : DeviceId) → borders after.graph b device ≡ false
  pub no_cell : any (involves device) after.schedule.cells ≡ false
  pub others_admitted :
      (b : DeviceId) → (b == device) ≡ false → contains b after.allowlist ≡ contains b m.allowlist
  pub others_keyed :
      (b : DeviceId) → (b == device) ≡ false → lookup b after.join_keys ≡ lookup b m.join_keys
  pub others_windows :
      (b : DeviceId) → (b == device) ≡ false → lookup b after.replay ≡ lookup b m.replay
  pub others_nodes :
      (b : DeviceId) → (b == device) ≡ false → lookup b after.graph.nodes ≡ lookup b m.graph.nodes

any-retain : (p : Cell → Bool) (cs : List Cell) → any p (retain (λ c. not (p c)) cs) ≡ false
any-retain p [] = refl
any-retain p (c ∷ cs) = ground (arith, any-retain p cs)

-- Revoking a device, in a manager whose graph is in shape: its admission, key, replay window, node, links,
-- places among the neighbors and schedule cells are gone, and every other device keeps its admission, key,
-- window and node.
pub revoke-Forgotten :
    (m : MeshManager) (device : DeviceId) → IsGraph m.graph → Forgotten m device (revoke m device)
unfolding revoke forget_device remove_device nat_key
revoke-Forgotten m device v = record {
  no_admission = ground (arith, contains-set_remove device device m.allowlist);
  no_key = ground (arith, lookup-erase device device m.join_keys);
  no_window = ground (arith, lookup-erase device device m.replay);
  no_node = ground (arith, nodes-remove_node m.graph device device);
  no_link = λ b. (remove_node-isolated m.graph device b v).0;
  no_neighbor = λ b. (remove_node-isolated m.graph device b v).1;
  no_cell = any-retain (involves device) m.schedule.cells;
  others_admitted = λ b h. ground (arith, h, contains-set_remove b device m.allowlist);
  others_keyed = λ b h. ground (arith, h, lookup-erase b device m.join_keys);
  others_windows = λ b h. ground (arith, h, lookup-erase b device m.replay);
  others_nodes = λ b h. ground (arith, h, nodes-remove_node m.graph b device);
}
