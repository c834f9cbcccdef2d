-- ===== src/Mesh.antt =====
-- src/mesh: the replay protection and the schedule of the mesh network.
mod Tests
pub mod Replay
pub mod Schedule
pub mod Graph
pub mod Manager
