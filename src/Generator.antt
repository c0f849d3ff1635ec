-- ===== src/Generator.antt =====
-- process_generator/: the program that reads the processes and sends each one to the scheduler.
pub mod Input
pub mod Sending
pub mod Delivery
pub mod Completion
pub mod Pipeline
