-- ===== src/Memory/Mapping.antt =====
-- The agreement between the frames and the page tables in `RAM` (MMU/mmu_functions.c): which entry
-- stands for which frame, and back.
pub mod Change
pub mod Fill
pub mod Layout
use cpu_scheduler.Base.{ℕ, ◌<◌, ◌≡◌, ◌≢◌, true, Option, none, some, ℤ, pos}
use cpu_scheduler.Types.{PageTable, Frame}
use cpu_scheduler.Memory.State.{mem_size}

-- Entry `v` of table `T` in frame `t` is valid, and names frame `i`.
pub record Maps (ram : ℕ → Frame) (t : ℕ) (T : PageTable) (v i : ℕ) : Type 0 where
  pub in_ram : t < mem_size
  pub table : (ram t).pte ≡ some T
  pub in_table : v < T.len
  pub valid : (T.entry v).valid ≡ true
  pub address : (T.entry v).frame_address ≡ pos i

-- Frame `i` holds a page of the process with this id: its page `v`.
pub record Holds (ram : ℕ → Frame) (i : ℕ) (id : ℤ) (v : ℕ) : Type 0 where
  pub in_ram : i < mem_size
  pub occupied : (ram i).occupied ≡ true
  pub no_table : (ram i).pte ≡ none
  pub page : (ram i).vpage ≡ pos v
  pub owner : (ram i).process_id ≡ id

-- The table of process `id` stands in frame `t`.
pub record HasTable (ram : ℕ → Frame) (t : ℕ) (T : PageTable) (id : ℤ) : Type 0 where
  pub in_ram : t < mem_size
  pub table : (ram t).pte ≡ some T
  pub occupied : (ram t).occupied ≡ true
  pub owner : (ram t).process_id ≡ id

-- A valid entry, with the frame that it stands for.
pub record Backed (ram : ℕ → Frame) (t : ℕ) (T : PageTable) (v gap : ℕ) : Type 0 where
  pub frame : ℕ
  pub maps : Maps ram t T v frame
  pub holds : Holds ram frame (ram t).process_id v
  pub not_gap : frame ≢ gap

-- A frame with a page, with the entry that stands for it.
pub record Resident (home : ℤ → Option ℕ) (ram : ℕ → Frame) (i : ℕ) : Type 0 where
  pub table_frame : ℕ
  pub table : PageTable
  pub slot : ℕ
  pub at_home : home (ram i).process_id ≡ some table_frame
  pub maps : Maps ram table_frame table slot i
  pub holds : Holds ram i (ram table_frame).process_id slot

-- `home id` is the frame of the page table of process `id`. Every table stands at the home of its
-- process, every valid entry names a frame that holds its page, and every frame with a page is
-- named by an entry; all this but for the frame `gap`, which no entry names.
pub record IsMapped (home : ℤ → Option ℕ) (ram : ℕ → Frame) (gap : ℕ) : Type 0 where
  pub tables :
      (t : ℕ) (T : PageTable)
      → t < mem_size
      → (ram t).pte ≡ some T
      → HasTable ram t T (ram t).process_id × (home (ram t).process_id ≡ some t)
  pub homes : (id : ℤ) (t : ℕ) → home id ≡ some t → (T : PageTable) × HasTable ram t T id
  pub backed :
      (t : ℕ) (T : PageTable) (v : ℕ)
      → t < mem_size
      → (ram t).pte ≡ some T
      → v < T.len
      → (T.entry v).valid ≡ true
      → Backed ram t T v gap
  pub resident :
      (i : ℕ)
      → i < mem_size
      → i ≢ gap
      → (ram i).occupied ≡ true
      → (ram i).pte ≡ none
      → Resident home ram i
