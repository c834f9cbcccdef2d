-- ===== src/Service.antt =====
-- src/service: the runtime of one physical link.
mod Tests
pub mod QueueConfig
pub mod QueueSet
pub mod Scheduler
pub mod Health
pub mod Planner
