-- ===== src/Mesh/Manager/Nicknames.antt =====
-- Short addresses are given out once.
use hart_link.Common.{
  ℕ, suc, ◌≤◌, ◌≡◌, arith, ap, sym, ◌∙◌, inl, inr, ◌⊎◌, Bool, true, false, ◌||◌, Bool-cases, Option,
  some, List, [], ◌∷◌, ◌==◌, ok, Result-cases,
}
use hart_link.Common.Maps.{nat_key, is_some, lookup, put, contains, lookup-put}
use hart_link.Mesh.Replay.{ReplayWindow, accept}
use hart_link.Mesh.Schedule.{DeviceId, insert}
use hart_link.Mesh.Graph.{NodeState, upsert_node, remove_node, update_link}
use hart_link.Mesh.Graph.Shape.{upsert_node-IsGraph, remove_node-IsGraph, update_link-IsGraph}
use hart_link.Mesh.Manager.Rules.{apply_join_rule, join_authenticated_rule}
use hart_link.Mesh.Manager.{
  JoinRequest, MeshManager, new_manager, window_of, rejoin, following_nickname, admit,
  join_authenticated,
}
use hart_link.Mesh.Manager.Runs.{
  Command, allowing, revoking, joining, measuring, losing, placing, inserted, run_command,
  run_commands,
}
use hart_link.Mesh.Manager.Shape.{
  IsManager, new_manager-IsManager, allow-IsManager, revoke-IsManager, kept-IsManager,
  regraphed-IsManager, rescheduled-IsManager, inserted-IsSchedule, nodes-update_link, stays,
}

some_inj : {a b : NodeState} → ◌≡◌ {A = Option NodeState} (some a) (some b) → a ≡ b
some_inj e = cc

-- A manager with one more node, under the next short address.
module _ (m : MeshManager) (device : DeviceId) (window : ReplayWindow) (v : IsManager m) where
  abbrev newcomer : NodeState
  newcomer = record { id = device; nickname = m.next_nickname; active = true }

  abbrev joined : ℕ → MeshManager
  joined next = record m {
    replay = put device window m.replay;
    next_nickname = next;
    graph = (upsert_node m.graph newcomer).1;
  }

  lookup_new :
      (a : DeviceId) → a ≡ device → lookup a (upsert_node m.graph newcomer).1.nodes ≡ some newcomer
  unfolding upsert_node nat_key
  lookup_new a h = ground (arith, h, lookup-put a device newcomer m.graph.nodes)

  node_of :
      (a : DeviceId) (n : NodeState)
      → lookup a (upsert_node m.graph newcomer).1.nodes ≡ some n
      → ((a ≡ device) × (n ≡ newcomer))
        ⊎ (((a == device) ≡ false) × (lookup a m.graph.nodes ≡ some n))
  unfolding upsert_node nat_key
  node_of a n e = elim (Bool-cases (a == device)) [
    | inl here ↦
        let same : a ≡ device = ground (arith, here) in
        inl (same, some_inj (sym e ∙ lookup_new a same))
    | inr other ↦ inr (other, ground (arith, e, other, lookup-put a device newcomer m.graph.nodes))
  ]

  joined-IsManager :
      (next : ℕ)
      → next ≤ 65535
      → (m.next_nickname == 0) ≡ false
      → ((next == 0) || (next == suc m.next_nickname)) ≡ true
      → contains device m.allowlist ≡ true
      → is_some (lookup device m.join_keys) ≡ true
      → IsManager (joined next)
  unfolding nat_key
  joined-IsManager next small room after listed keyed = record {
    graph_shape = upsert_node-IsGraph m.graph newcomer v.graph_shape;
    schedule_shape = v.schedule_shape;
    next_small = small;
    each = λ a n e. elim (node_of a n e) [
      | inl (same, new) ↦ record {
        running = ap (λ t. t.active) new;
        positive = ground (arith, room, ap (λ t. t.nickname) new);
        small = omega (arith, v.next_small, ap (λ t. t.nickname) new);
        issued = ground (arith, after, ap (λ t. t.nickname) new);
        admitted = rw same listed;
        keyed = rw same keyed;
        windowed = ground (arith, same, lookup-put a device window m.replay);
      }
      | inr (other, old) ↦
          let w = v.each a n old in
          record {
            running = w.running;
            positive = w.positive;
            small = w.small;
            admitted = w.admitted;
            keyed = w.keyed;
            issued = ground (arith, w.issued, room, after);
            windowed = ground (arith, w.windowed, lookup-put a device window m.replay);
          }
    ];
    distinct = λ a b n k e f h. elim (node_of a n e) [
      | inl (same, new) ↦ elim (node_of b k f) [
        | inl (same', new') ↦ same ∙ sym same'
        | inr (other, old) ↦
            absurd (ground (arith, h, room, ap (λ t. t.nickname) new, (v.each b k old).issued))
      ]
      | inr (other, old) ↦ elim (node_of b k f) [
        | inl (same', new') ↦
            absurd (ground (arith, h, room, ap (λ t. t.nickname) new', (v.each a n old).issued))
        | inr (other', old') ↦ v.distinct a b n k old old' h
      ]
    ];
  }

rejoin-IsManager :
    (m : MeshManager) (request : JoinRequest) (node : NodeState)
    → IsManager m
    → IsManager (rejoin m request node).1
unfolding rejoin
rejoin-IsManager m request node v =
    let checked = accept (window_of request.device m.replay) request.security_counter in
    let kept = kept-IsManager m request.device checked.1 v in
    elim (Result-cases checked.0) [
      | inl (u, q) ↦ rw (rejoin, q) kept
      | inr (x, q) ↦ rw (rejoin, q) kept
    ]

next_of :
    (n : ℕ)
    → (following_nickname n ≤ 65535)
      × (((following_nickname n == 0) || (following_nickname n == suc n)) ≡ true)
unfolding following_nickname
next_of n = ground arith

admit-IsManager :
    (m : MeshManager) (request : JoinRequest)
    → contains request.device m.allowlist ≡ true
    → is_some (lookup request.device m.join_keys) ≡ true
    → IsManager m
    → IsManager (admit m request).1
unfolding admit
admit-IsManager m request listed keyed v =
    let checked = accept (window_of request.device m.replay) request.security_counter in
    elim (Bool-cases (m.next_nickname == 0)) [
      | inl full ↦ rw (admit, full) v
      | inr room ↦ elim (Result-cases checked.0) [
        | inr (x, q) ↦ rw (admit, room, q) (kept-IsManager m request.device checked.1 v)
        | inl (u, q) ↦
            let (small, after) = next_of m.next_nickname in
            rw (admit, room, q)
              (joined-IsManager m request.device checked.1 v _ small room after listed keyed)
      ]
    ]

join_authenticated-IsManager :
    (authenticate : JoinRequest → List ℕ → Bool) (m : MeshManager) (request : JoinRequest)
    → IsManager m
    → IsManager (join_authenticated authenticate m request).1
join_authenticated-IsManager authenticate m request v =
    join_authenticated_rule m request (λ o. IsManager o.1) authenticate (λ away. v) (λ home h. v)
      (λ key k bad. v)
      (λ key k good home listed.
        let keyed : is_some (lookup request.device m.join_keys) ≡ true = ground (arith, k) in
        apply_join_rule m request (λ o. IsManager o.1) home listed keyed
          (λ node e running. rejoin-IsManager m request node v)
          (admit-IsManager m request listed keyed v))

run_command-IsManager :
    (authenticate : JoinRequest → List ℕ → Bool) (m : MeshManager) (c : Command)
    → IsManager m
    → IsManager (run_command authenticate m c)
unfolding run_command
run_command-IsManager authenticate m (allowing device key) v = allow-IsManager m device key v
run_command-IsManager authenticate m (revoking device) v = revoke-IsManager m device v
run_command-IsManager authenticate m (joining request) v =
    join_authenticated-IsManager authenticate m request v
run_command-IsManager authenticate m (measuring left right h) v =
    regraphed-IsManager m (update_link m.graph left right h).1
      (update_link-IsGraph m.graph left right h v.graph_shape)
      (λ a n e. sym (ap (lookup a) (nodes-update_link m.graph left right h)) ∙ e) v
run_command-IsManager authenticate m (losing device) v =
    regraphed-IsManager m (remove_node m.graph device).1
      (remove_node-IsGraph m.graph device v.graph_shape) (λ a n e. (stays m.graph a device n e).1) v
run_command-IsManager authenticate m (placing cell) v =
    rescheduled-IsManager m (inserted m.schedule (insert m.schedule cell))
      (inserted-IsSchedule m.schedule cell v.schedule_shape) v

run_commands-IsManager_from :
    (authenticate : JoinRequest → List ℕ → Bool) (cs : List Command) (m : MeshManager)
    → IsManager m
    → IsManager (run_commands authenticate m cs)
unfolding run_commands
run_commands-IsManager_from authenticate [] m v = v
run_commands-IsManager_from authenticate (c ∷ cs) m v =
    run_commands-IsManager_from authenticate cs (run_command authenticate m c)
      (run_command-IsManager authenticate m c v)

-- Whatever is done to a new manager, in any order and with any verifier, by admissions, revocations, join
-- requests, link reports, lost nodes and schedule cells: the graph's maps agree and the schedule is free of
-- conflicts; every node is active, has a short address from 1 to 65535 that no other node has, and belongs to
-- a device that has an admission, a key and a replay window.
pub run_commands-IsManager :
    (authenticate : JoinRequest → List ℕ → Bool) (cs : List Command) (network size : ℕ)
    (m : MeshManager)
    → new_manager network size ≡ ok m
    → IsManager (run_commands authenticate m cs)
run_commands-IsManager authenticate cs network size m e =
    run_commands-IsManager_from authenticate cs m (new_manager-IsManager network size m e)
