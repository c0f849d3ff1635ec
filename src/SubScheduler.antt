-- ===== src/SubScheduler.antt =====
-- sub-sched/: the sub-scheduler of one of the two CPUs.
pub mod State
pub mod Receiving
pub mod Dispatch
pub mod Stall
pub mod Stealing
pub mod Loop
pub mod Invariant
pub mod Steps
pub mod Transfer
pub mod Published
pub mod StallTime
pub mod Arrivals
