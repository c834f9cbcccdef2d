-- ===== src/Mesh/Manager/Runs.antt =====
-- What is done to a manager, with its graph and schedule loaded through `graph_mut` and `schedule_mut`.
use hart_link.Common.{ℕ, Bool, List, [], ◌∷◌, Result, ok, err}
use hart_link.Mesh.Schedule.{DeviceId, Cell, Schedule, ScheduleError, insert}
use hart_link.Mesh.Graph.{LinkHealth, remove_node, update_link}
use hart_link.Mesh.Manager.{JoinRequest, MeshManager, allow, revoke, join_authenticated}

pub data Command : Type 0 where
  allowing : DeviceId → (join_key : List ℕ) → Command
  revoking : DeviceId → Command
  joining : JoinRequest → Command
  measuring : (left right : DeviceId) → LinkHealth → Command
  losing : DeviceId → Command
  placing : Cell → Command

-- A schedule after an insertion, which leaves it when it is refused.
abbrev pub inserted : Schedule → Result ScheduleError Schedule → Schedule
inserted s (ok t) = t
inserted s (err e) = s

module _ (authenticate : JoinRequest → List ℕ → Bool) where
  unfoldable pub run_command : MeshManager → Command → MeshManager
  run_command m (allowing device join_key) = allow m device join_key
  run_command m (revoking device) = revoke m device
  run_command m (joining request) = (join_authenticated authenticate m request).1
  run_command m (measuring left right health) = record m {
    graph = (update_link m.graph left right health).1;
  }
  run_command m (losing device) = record m { graph = (remove_node m.graph device).1 }
  run_command m (placing cell) = record m {
    schedule = inserted m.schedule (insert m.schedule cell);
  }

  unfoldable pub run_commands : MeshManager → List Command → MeshManager
  unfolding run_command
  run_commands m [] = m
  run_commands m (c ∷ cs) = run_commands (run_command m c) cs
