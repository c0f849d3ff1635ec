-- ===== src/Memory/Release.antt =====
-- `freeReserved` and `freePageTable` of MMU/mmu_functions.c.
pub mod Frames
use cpu_scheduler.Base.{ℕ, zero, suc, false, none, ℤ, minus_one, index, eqb_ℤ, if◌then◌else◌}
use cpu_scheduler.Types.{PcbPtr, Frame}
use cpu_scheduler.Run.{◌>>=◌, ◌>>◌, need, modify}
use cpu_scheduler.Memory.State.{M, mem_size, load, set_frame, update_frame}

unfoldable pub free_reserved : ℤ → M (Unit {0})
unfolding update_frame
free_reserved f = do i ← need (index f); update_frame i (λ g. record g { reserved = false })

abbrev pub released : Frame → Frame
released f = record f {
  m = false;
  occupied = false;
  process_id = minus_one;
  pte = none;
  r = false;
  vpage = minus_one;
  reserved = false;
}

-- The loop over the frames below the bound, from frame 0 on.
unfoldable pub release_below : ℕ → ℤ → (ℕ → Frame) → ℕ → Frame
unfolding set_frame
release_below zero id ram = ram
release_below (suc i) id ram =
    let before = release_below i id ram in
    if eqb_ℤ (before i).process_id id then set_frame before i (released (before i)) else before

unfoldable pub free_page_table : PcbPtr → M (Unit {0})
unfolding load update_frame
free_page_table p = do
  c ← load p
  i ← need (index c.frame_index)
  update_frame i released
  modify (λ m. record m { ram = release_below mem_size c.id m.ram })
