-- ===== src/Memory/Faults.antt =====
-- `swap` and `fault_handler` of MMU/mmu_functions.c.
pub mod Runs
pub mod Serve
pub mod Demand
use cpu_scheduler.Base.{
  ℕ, Bool, true, false, not, ◌&&◌, Option, none, some, List, ℤ, pos, minus_one, ◌+ℤ◌, ◌-ℤ◌, ltb_ℤ,
  leb_ℤ, if◌then◌else◌,
}
use cpu_scheduler.Types.{PcbPtr, Frame, blocked}
use cpu_scheduler.Run.{◌>>=◌, ◌>>◌, gets, done, when}
use cpu_scheduler.Memory.State.{
  M, page_fault, swapped_out, loaded, put_log, load, update_pcb, update_frame, update_entry,
}
use cpu_scheduler.Memory.Pages.{
  get_process, is_write, put_page_in_frame, define_page_table, empty_entry,
}
use cpu_scheduler.Memory.Victim.{
  Choice, free_frame, victim_frame, no_frame, choose_frame, page_fault_delay,
}

-- The argument `type`: 0 for a page table, 1 for a page fault, 2 for the first page of a process.
pub data LoadKind : Type 0 where
  table demand initial : LoadKind

abbrev pub is_demand : LoadKind → Bool
is_demand demand = true
is_demand _ = false

abbrev pub is_initial : LoadKind → Bool
is_initial initial = true
is_initial _ = false

abbrev pub clock : M ℤ
clock = gets (λ m. m.clk)

abbrev pub frame_at : ℕ → M Frame
frame_at i = gets (λ m. m.ram i)

-- The page table entry of the page that leaves the frame.
unfoldable pub evict : ℕ → M (Unit {0})
unfolding get_process load update_entry
evict i = do
  f ← frame_at i
  old ← get_process f.process_id
  elim old [
    | none ↦ done
    | some p ↦ (do
      c ← load p
      when (leb_ℤ (pos 0) c.frame_index && leb_ℤ (pos 0) f.vpage)
          (update_entry c.frame_index f.vpage (λ _. empty_entry)))
  ]

-- The part of `swap` for a page, from the look-up of its owner on.
unfoldable pub swap_in :
    (id : ℤ) (i : ℕ) (page : ℤ) (kind : LoadKind) (op : ℕ) (block_end : ℤ) → M (Unit {0})
unfolding get_process load update_pcb update_entry update_frame
swap_in id i page kind op block_end = do
  owner ← get_process id
  elim owner [
    | none ↦ done
    | some p ↦ (do
      c ← load p
      now ← clock
      when (is_initial kind) (put_log (loaded now (c.base +ℤ page) c.id (pos i)))
      let small = ltb_ℤ page (pos 64)
      when (is_demand kind && small)
          (update_pcb p (λ c. record c { state = blocked; unblock_at = block_end }))
      let page' = if small then page else page -ℤ pos 64
      update_entry c.frame_index page'
          (λ e. record e { valid = true; frame_address = pos i; r = true; m = is_write op })
      update_frame i (λ f. record f {
        m = is_write op;
        process_id = id;
        r = true;
        occupied = true;
        vpage = page';
        reserved = if is_initial kind then f.reserved else true;
      })
      when (is_demand kind)
          (update_pcb p (λ c. record c { pending_page = page'; pending_frame = pos i })))
  ]

-- `block_end_time`, for the frame as it is before the swap.
unfoldable pub block_end_time : (now page : ℤ) → LoadKind → Frame → ℤ
unfolding page_fault_delay
block_end_time now page kind f =
    if ltb_ℤ page (pos 64) && not (is_initial kind) then now +ℤ pos (page_fault_delay f) else now

unfoldable pub swap : (id : ℤ) (i : ℕ) (page : ℤ) (kind : LoadKind) (op : ℕ) → M (Unit {0})
unfolding evict define_page_table swap_in block_end_time
swap id i page kind op = do
  now ← clock
  f ← frame_at i
  let block_end = block_end_time now page kind f
  evict i
  elim kind [
    | table ↦ define_page_table id i
    | page_load ↦ (do
      when (f.m && not (is_initial page_load)) (put_log (swapped_out i))
      swap_in id i page page_load op block_end)
  ]

-- The owner is blocked as soon as a fault comes in.
unfoldable pub block_owner : (owner : Option PcbPtr) (page : ℤ) (kind : LoadKind) → M (Unit {0})
unfolding update_pcb
block_owner none page kind = done
block_owner (some p) page kind = do
  now ← clock
  when (is_demand kind && ltb_ℤ page (pos 64)) (
      update_pcb p (λ c. record c {
        state = blocked;
        unblock_at = now +ℤ pos 10;
        pending_page = minus_one;
        pending_frame = minus_one;
      }))

-- The branch of the loop at a free frame, for a page.
unfoldable pub fill_free :
    (pid page : ℤ) (kind : LoadKind) (op : ℕ) (owner : Option PcbPtr) (i : ℕ) → M (Unit {0})
unfolding update_frame update_pcb put_page_in_frame page_fault_delay load
fill_free pid page kind op owner i = do
  when (not (is_initial kind)) (update_frame i (λ f. record f { reserved = true }))
  now ← clock
  f ← frame_at i
  elim owner [
    | none ↦ put_page_in_frame pid page i op
    | some p ↦ (do
      when (ltb_ℤ page (pos 64))
          (update_pcb p (λ c. record c { unblock_at = now +ℤ pos (page_fault_delay f) }))
      put_page_in_frame pid page i op
      when (is_demand kind)
          (update_pcb p (λ c. record c { pending_page = page; pending_frame = pos i }))
      c ← load p
      when (is_initial kind) (put_log (loaded now (c.base +ℤ page) c.id (pos i))))
  ]

-- What the loop of `fault_handler` and the lines behind it do, by the frame that the loop settles on.
unfoldable pub load_into :
    (pid page : ℤ) (kind : LoadKind) (op : ℕ) (owner : Option PcbPtr) → Choice → M (Unit {0})
load_into pid page kind op owner (free_frame i) = elim kind [
  | table ↦ define_page_table pid i
  | page_load ↦ fill_free pid page page_load op owner i
]
load_into pid page kind op owner (victim_frame i) = swap pid i page kind op
load_into pid page kind op owner no_frame = done

unfoldable pub fault_handler :
    (pid page : ℤ) (kind : LoadKind) (address : List ℕ) (op : ℕ) → M (Unit {0})
fault_handler pid page kind address op = do
  owner ← get_process pid
  block_owner owner page kind
  when (is_demand kind) (put_log (page_fault address pid))
  ram ← gets (λ m. m.ram)
  load_into pid page kind op owner (choose_frame ram)
