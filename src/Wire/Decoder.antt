-- ===== src/Wire/Decoder.antt =====
-- src/wire/decoder.rs: the streaming decoder as explicit state passing.
pub mod State
pub mod Candidate
pub mod Analysis
pub mod Run
pub mod Search
pub mod Reading
pub mod Termination
pub mod Bounds
pub mod Stream
