-- ===== src/Memory/Victim.antt =====
-- The loop of `fault_handler` in MMU/mmu_functions.c that looks for a frame, and the delay.
pub mod Nru
use cpu_scheduler.Base.{
  ℕ, zero, suc, ◌+◌, ◌*◌, Bool, true, false, Option, none, some, ltb, if◌then◌else◌, ◌||◌,
}
use cpu_scheduler.Types.{Frame}
use cpu_scheduler.Memory.State.{mem_size}

abbrev pub bit : Bool → ℕ
bit b = if b then 1 else 0

-- `2 * RAM[i].R + RAM[i].M`
abbrev pub nru_class : Frame → ℕ
nru_class f = 2 * bit f.r + bit f.m

abbrev pub has_table : Frame → Bool
has_table f = elim f.pte [ none ↦ false | some _ ↦ true ]

-- A page table or a reserved frame is passed over.
abbrev pub is_pinned : Frame → Bool
is_pinned f = has_table f || f.reserved

-- How the loop ends: at a free frame, or at its end with `victim_index` or with -1.
pub data Choice : Type 0 where
  free_frame : ℕ → Choice
  victim_frame : ℕ → Choice
  no_frame : Choice

abbrev pub at_end : Option ℕ → Choice
at_end none = no_frame
at_end (some i) = victim_frame i

-- The rounds left, the index, `cls` and `victim_index`.
unfoldable pub scan : (ℕ → Frame) → ℕ → ℕ → ℕ → Option ℕ → Choice
scan ram zero i cls victim = at_end victim
scan ram (suc left) i cls victim =
    let kept = scan ram left (suc i) cls victim in
    let taken = scan ram left (suc i) (nru_class (ram i)) (some i) in
    if (ram i).occupied
    then (if is_pinned (ram i) then kept else if ltb (nru_class (ram i)) cls then taken else kept)
    else free_frame i

unfoldable pub choose_frame : (ℕ → Frame) → Choice
unfolding scan
choose_frame ram = scan ram mem_size 0 4 none

unfoldable pub page_fault_delay : Frame → ℕ
page_fault_delay f = if f.m then 20 else 10
