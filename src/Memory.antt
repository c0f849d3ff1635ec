-- ===== src/Memory.antt =====
-- MMU/mmu_functions.c: the physical memory, the page tables in it, and the page faults.
pub mod State
pub mod Address
pub mod Pages
pub mod Victim
pub mod Faults
pub mod Release
pub mod Same
pub mod Mapping
