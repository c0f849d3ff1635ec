-- ===== src/RoundRobin.antt =====
-- rr_scheduler: the round robin scheduler with demand paging.
pub mod State
pub mod Track
pub mod Dispatch
pub mod Blocking
pub mod Requests
pub mod Lifecycle
pub mod Loop
