-- ===== src/Scheduler.antt =====
-- scheduler: the main scheduler of HPF and of FCFS on two CPUs.
pub mod State
pub mod Dispatch
pub mod Routing
pub mod Stealing
pub mod Loop
