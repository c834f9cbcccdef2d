-- ===== src/Mesh/Manager.antt =====
-- src/mesh/manager.rs: the network manager, which joins the graph, the schedule and the replay windows. The
-- verifier of a join request, which the caller gives, is a parameter.
mod Tests
pub mod Admission
pub mod Rules
pub mod Runs
pub mod Shape
pub mod Nicknames
pub mod Replays
use hart_link.Common.{
  ℕ, Bool, true, false, not, ◌&&◌, ◌||◌, Option, none, some, List, [], length, ◌==◌, if◌then◌else◌,
  Result, ok, err, ◌>>=◌, map_err, checked_add, u16_max,
}
use hart_link.Common.Maps.{
  Key, nat_key, is_some, lookup, put, erase, contains, set_insert, set_remove,
}
use hart_link.Mesh.Replay.{ReplayWindow, SecurityError, new_window, accept}
use hart_link.Mesh.Schedule.{DeviceId, Schedule, ScheduleError, new_schedule, remove_device}
use hart_link.Mesh.Graph.{
  NodeState, MeshGraph, new_graph, get_node, upsert_node, remove_node, node_count, link_count,
}

pub record JoinRequest : Type 0 where
  pub device : DeviceId
  pub network : ℕ
  pub security_counter : ℕ

pub data JoinDecision : Type 0 where
  accepted : (nickname : ℕ) → JoinDecision
  not_allowed wrong_network authentication_failed : JoinDecision

pub data MeshManagerError : Type 0 where
  schedule_error : ScheduleError → MeshManagerError
  security_error : SecurityError → MeshManagerError
  address_space : MeshManagerError

pub record MeshManager : Type 0 where
  pub network : ℕ
  pub graph : MeshGraph
  pub schedule : Schedule
  pub allowlist : List DeviceId
  pub join_keys : List (DeviceId × List ℕ)
  pub replay : List (DeviceId × ReplayWindow)
  pub next_nickname : ℕ

unfoldable pub new_manager : (network superframe_size : ℕ) → Result MeshManagerError MeshManager
unfolding new_schedule new_graph
new_manager network superframe_size = do
  schedule ← map_err schedule_error (new_schedule superframe_size)
  ok (record {
    network = network;
    graph = new_graph;
    schedule = schedule;
    allowlist = [];
    join_keys = [];
    replay = [];
    next_nickname = 1;
  })

-- What `allow` and `revoke` do to the active state of a device.
unfoldable pub forget_device : MeshManager → DeviceId → MeshManager
unfolding remove_node remove_device
forget_device m device = record m {
  replay = erase device m.replay;
  graph = (remove_node m.graph device).1;
  schedule = (remove_device m.schedule device).0;
}

unfoldable pub allow : MeshManager → DeviceId → (join_key : List ℕ) → MeshManager
unfolding forget_device
allow m device join_key =
    let provisioned = record m {
      allowlist = set_insert device m.allowlist;
      join_keys = put device join_key m.join_keys;
    } in
    if is_some (lookup device m.join_keys) then forget_device provisioned device else provisioned

unfoldable pub revoke : MeshManager → DeviceId → MeshManager
unfolding forget_device
revoke m device =
    forget_device
      (record m { allowlist = set_remove device m.allowlist; join_keys = erase device m.join_keys })
      device

-- `self.replay.entry(device).or_default()`
unfoldable pub window_of : DeviceId → List (DeviceId × ReplayWindow) → ReplayWindow
window_of device windows = elim (lookup device windows) [ none ↦ new_window | some w ↦ w ]

-- A device that is active already: its counter alone is checked.
unfoldable pub rejoin :
    MeshManager → JoinRequest → NodeState → Result MeshManagerError JoinDecision × MeshManager
unfolding window_of accept
rejoin m request node =
    let checked = accept (window_of request.device m.replay) request.security_counter in
    let kept = record m { replay = put request.device checked.1 m.replay } in
    elim checked.0 [
      | err e ↦ (err (security_error e), kept)
      | ok _ ↦ (ok (accepted node.nickname), kept)
    ]

-- `checked_add(1).unwrap_or(0)`
unfoldable pub following_nickname : ℕ → ℕ
following_nickname n = elim (checked_add u16_max n 1) [ none ↦ 0 | some next ↦ next ]

-- A device that gets the next short address.
unfoldable pub admit :
    MeshManager → JoinRequest → Result MeshManagerError JoinDecision × MeshManager
unfolding window_of accept following_nickname upsert_node
admit m request =
    if m.next_nickname == 0
    then (err address_space, m)
    else (let checked = accept (window_of request.device m.replay) request.security_counter in
        let kept = record m { replay = put request.device checked.1 m.replay } in
        elim checked.0 [
          | err e ↦ (err (security_error e), kept)
          | ok _ ↦ (
            ok (accepted m.next_nickname),
            record kept {
              next_nickname = following_nickname m.next_nickname;
              graph =
                  (upsert_node m.graph
                    (record { id = request.device; nickname = m.next_nickname; active = true })).1;
            },
          )
        ])

unfoldable pub apply_join :
    MeshManager → JoinRequest → Result MeshManagerError JoinDecision × MeshManager
unfolding get_node
apply_join m request =
    if not (request.network == m.network)
    then (ok wrong_network, m)
    else if not (contains request.device m.allowlist)
        || not (is_some (lookup request.device m.join_keys))
    then (ok not_allowed, m)
    else elim (get_node m.graph request.device) [
      | none ↦ admit m request
      | some node ↦ if node.active then rejoin m request node else admit m request
    ]

unfoldable pub join_authenticated :
    (authenticate : JoinRequest → List ℕ → Bool)
    → MeshManager
    → JoinRequest
    → Result MeshManagerError JoinDecision × MeshManager
join_authenticated authenticate m request =
    if not (request.network == m.network)
    then (ok wrong_network, m)
    else elim (lookup request.device m.join_keys) [
      | none ↦ (ok not_allowed, m)
      | some join_key ↦
          if not (contains request.device m.allowlist)
          then (ok not_allowed, m)
          else if not (authenticate request join_key)
          then (ok authentication_failed, m)
          else apply_join m request
    ]

pub record MeshSnapshot : Type 0 where
  pub nodes : ℕ
  pub links : ℕ
  pub cells : ℕ

unfoldable pub snapshot : MeshManager → MeshSnapshot
unfolding node_count link_count
snapshot m = record {
  nodes = node_count m.graph;
  links = link_count m.graph;
  cells = length m.schedule.cells;
}
