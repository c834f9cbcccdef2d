-- ===== src/Mesh/Manager/Tests.antt =====
-- Runs of the manager's theorems at two devices that join.
use hart_link.Common.{ℕ, ◌≡◌, ◌≢◌, refl, Bool, true, List, [], ◌∷◌, ok}
use hart_link.Common.Maps.{nat_key, lookup, put, set_insert, contains}
use hart_link.Mesh.Schedule.{Cell, shared}
use hart_link.Mesh.Graph.{LinkHealth}
use hart_link.Mesh.Manager.{
  JoinRequest, MeshManager, accepted, new_manager, allow, revoke, apply_join, admit,
  join_authenticated,
}
use hart_link.Mesh.Manager.Admission.{Forgotten, revoke-Forgotten}
use hart_link.Mesh.Manager.Runs.{
  Command, allowing, joining, measuring, placing, losing, run_commands,
}
use hart_link.Mesh.Manager.Shape.{IsManager}
use hart_link.Mesh.Manager.Nicknames.{run_commands-IsManager}
use hart_link.Mesh.Manager.Replays.{join_authenticated-once}

-- A verifier that any key satisfies.
abbrev verifier : JoinRequest → List ℕ → Bool
verifier request key = true

abbrev first_manager : MeshManager
first_manager = record {
  network = 7;
  graph = record { nodes = []; links = []; adjacency = [] };
  schedule = record { superframe_size = 100; cells = [] };
  allowlist = [];
  join_keys = [];
  replay = [];
  next_nickname = 1;
}

made : new_manager 7 100 ≡ ok first_manager
unfolding new_manager
made = refl

abbrev request : JoinRequest
request = record { device = 11; network = 7; security_counter = 5 }

abbrev other_request : JoinRequest
other_request = record { device = 12; network = 7; security_counter = 5 }

abbrev link : LinkHealth
link = record { rssi_dbm = 0; reliability = 0x3f800000; age_seconds = 0 }

abbrev cell : Cell
cell = record {
  timeslot = 3;
  channel_offset = 2;
  source = 11;
  destination = 12;
  direction = shared;
}

abbrev before : List Command
before = allowing 11 (1 ∷ 2 ∷ []) ∷ allowing 12 (3 ∷ []) ∷ joining other_request ∷ []

abbrev between : List Command
between =
    joining (record request { security_counter = 6 })
    ∷ measuring 11 12 link
    ∷ placing cell
    ∷ losing 12
    ∷ []

abbrev used : MeshManager
used = run_commands verifier first_manager before

run_commands-IsManager_example : IsManager (run_commands verifier first_manager before)
run_commands-IsManager_example = run_commands-IsManager verifier before 7 100 first_manager made

revoke-Forgotten_example : Forgotten used 12 (revoke used 12)
revoke-Forgotten_example = revoke-Forgotten used 12 run_commands-IsManager_example.graph_shape

admitted : (join_authenticated verifier used request).0 ≡ ok (accepted 2)
unfolding join_authenticated run_commands allow lookup put nat_key contains set_insert apply_join
    admit
admitted = refl

join_authenticated-once_example :
    (join_authenticated verifier
      (run_commands verifier (join_authenticated verifier used request).1 between)
      request).0
    ≢ ok (accepted 9)
join_authenticated-once_example =
    join_authenticated-once verifier 7 100 first_manager made before request 2 admitted between
      (tt, (tt, (tt, (tt, tt)))) request refl refl 9
