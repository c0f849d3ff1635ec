-- ===== src/Memory/State.antt =====
-- The globals that MMU/mmu_functions.c reads and writes, and the accesses through its pointers.
use cpu_scheduler.Base.{ℕ, Option, none, some, List, ◌∷◌, ℤ, index, ltb, ◌==◌, if◌then◌else◌}
use cpu_scheduler.Types.{Pcb, PcbPtr, PageEntry, PageTable, Frame}
use cpu_scheduler.Queue.{Queue}
use cpu_scheduler.Run.{Run, ok, fault, Cmd}

-- The lines of memory.log.
pub data MemoryEvent : Type 0 where
  allocated : (frame : ℕ) → MemoryEvent
  page_fault : (address : List ℕ) (pid : ℤ) → MemoryEvent
  swapped_out : (frame : ℕ) → MemoryEvent
  loaded : (time disk_address pid frame : ℤ) → MemoryEvent

-- `RAM`, `currentPCBs` (`all`), `currProcess` (`curr`), the clock, the PCBs that are allocated, and
-- the log, the last line first.
pub record Memory : Type 0 where
  pub clk : ℤ
  pub ram : ℕ → Frame
  pub pcbs : PcbPtr → Option Pcb
  pub all : Queue PcbPtr
  pub curr : Option PcbPtr
  pub log : List MemoryEvent

-- `MEM_SIZE`.
abbrev pub mem_size : ℕ
mem_size = 32

abbrev pub M : Type 0 → Type 0
M A = Cmd Memory A

abbrev pub put_log : MemoryEvent → M (Unit {0})
put_log e m = ok tt (record m { log = e ∷ m.log })

-- `*p`, for a pointer to a PCB.
abbrev pub load_run : Memory → Option Pcb → Run Memory Pcb
load_run m none = fault
load_run m (some c) = ok c m

unfoldable pub load : PcbPtr → M Pcb
load p m = load_run m (m.pcbs p)

unfoldable pub set_pcb : (PcbPtr → Option Pcb) → PcbPtr → Option Pcb → PcbPtr → Option Pcb
set_pcb pcbs p c q = if q == p then c else pcbs q

-- A write to fields of `*p`.
unfoldable pub update_pcb : PcbPtr → (Pcb → Pcb) → M (Unit {0})
unfolding set_pcb
update_pcb p g m = elim (m.pcbs p) [
  | none ↦ fault
  | some c ↦ ok tt (record m { pcbs = set_pcb m.pcbs p (some (g c)) })
]

unfoldable pub set_frame : (ℕ → Frame) → ℕ → Frame → ℕ → Frame
set_frame ram i f j = if j == i then f else ram j

-- `RAM[i]`, for a read.
unfoldable pub read_frame : ℤ → M Frame
read_frame i m = elim (index i) [
  | none ↦ fault
  | some k ↦ if ltb k mem_size then ok (m.ram k) m else fault
]

-- Writes to fields of `RAM[i]`.
unfoldable pub update_frame : ℕ → (Frame → Frame) → M (Unit {0})
unfolding set_frame
update_frame i g m =
    if ltb i mem_size then ok tt (record m { ram = set_frame m.ram i (g (m.ram i)) }) else fault

unfoldable pub set_entry : PageTable → ℕ → PageEntry → PageTable
set_entry t v e = record t { entry = λ w. if w == v then e else t.entry w }

-- `RAM[i].pte[page]` with an index of the table, at a frame that is there.
unfoldable pub update_entry_at : ℕ → ℕ → (PageEntry → PageEntry) → M (Unit {0})
unfolding set_frame set_entry
update_entry_at i v g m = elim (m.ram i).pte [
  | none ↦ fault
  | some t ↦
      if ltb v t.len
      then ok tt (record m {
        ram = set_frame m.ram i (record (m.ram i) { pte = some (set_entry t v (g (t.entry v))) });
      })
      else fault
]

-- Writes to fields of `RAM[i].pte[page]`.
unfoldable pub update_entry : ℤ → ℤ → (PageEntry → PageEntry) → M (Unit {0})
unfolding update_entry_at
update_entry i page g m = elim (index i) [
  | none ↦ fault
  | some k ↦ elim (index page) [
    | none ↦ fault
    | some v ↦ if ltb k mem_size then update_entry_at k v g m else fault
  ]
]
