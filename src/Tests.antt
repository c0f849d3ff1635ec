-- ===== src/Tests.antt =====
-- Inputs at which the properties with conditions apply.
pub mod Data
pub mod Queues
pub mod Schedules
pub mod Frames
pub mod Addresses
pub mod Ticks
pub mod Placed
pub mod Stalls
pub mod Streams
pub mod Children
pub mod Linked
pub mod Objects
pub mod Shared
pub mod Generated
pub mod Begins
