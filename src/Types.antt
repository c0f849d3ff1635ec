-- ===== src/Types.antt =====
-- The types of data structs/structs.h. An `int` is an integer ℤ, a flag a Bool, a `char` its code,
-- a `char` array the codes before the terminating zero. A pointer to a PCB is a number (`PcbPtr`).
use cpu_scheduler.Base.{ℕ, Bool, List, Option, ℤ}

-- `struct processData`, the message between the generator and the schedulers.
pub record ProcessData : Type 0 where
  pub mtype : ℤ
  pub id : ℤ
  pub arrival : ℤ
  pub runtime : ℤ
  pub priority : ℤ
  pub base : ℤ
  pub limit : ℤ

-- `enum logState`.
pub data LogState : Type 0 where
  start resume stop finish stolen : LogState

-- The field `state` of a PCB: the characters W, R, B and F.
pub data ProcState : Type 0 where
  waiting running blocked finished : ProcState

abbrev pub PcbPtr : Type 0
PcbPtr = ℕ

-- `struct PCB` without its unused field `next`.
pub record Pcb : Type 0 where
  pub id : ℤ
  pub arrival : ℤ
  pub runtime : ℤ
  pub priority : ℤ
  pub remaining_time : ℤ
  pub waiting_time : ℤ
  pub start_time : ℤ
  pub finish_time : ℤ
  pub last_stopped : ℤ
  pub pid : ℤ
  pub state : ProcState
  pub l_state : LogState
  pub frame_index : ℤ
  pub base : ℤ
  pub limit : ℤ
  pub unblock_at : ℤ
  pub pending_page : ℤ
  pub pending_frame : ℤ

-- `struct request`.
pub record Request : Type 0 where
  pub mtype : ℤ
  pub tick : ℤ
  pub address : List ℕ
  pub operation : ℕ

-- `struct PTE`, a page table entry.
pub record PageEntry : Type 0 where
  pub r : Bool
  pub m : Bool
  pub frame_address : ℤ
  pub valid : Bool

-- What the pointer `pte` of a frame points to: an array of `len` entries.
pub record PageTable : Type 0 where
  pub len : ℕ
  pub entry : ℕ → PageEntry

-- `struct Frame` without its unused field `data`; a null `pte` is none.
pub record Frame : Type 0 where
  pub r : Bool
  pub m : Bool
  pub process_id : ℤ
  pub pte : Option PageTable
  pub occupied : Bool
  pub vpage : ℤ
  pub reserved : Bool

-- `struct VirtualAddress`.
pub record VirtualAddress : Type 0 where
  pub page : ℤ
  pub offset : ℤ
