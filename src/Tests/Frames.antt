-- ===== src/Tests/Frames.antt =====
-- Tests of the properties of the memory unit: process 7, its table in frame 0, its page 0 in frame 1.
use mathlib.Core.Path.{subst}
use cpu_scheduler.Base.{
  sym, ap, ◌∙◌, eqb_ℤ→eq, ℕ, ◌≡◌, refl, true, false, inl, inr, Option, none, some, [], ◌∷◌, arith,
  ℤ, pos, minus_one, eqb_ℤ, ◌==◌, Bool-cases, if◌then◌else◌,
}
use cpu_scheduler.Types.{Pcb, PcbPtr, PageEntry, PageTable, Frame}
use cpu_scheduler.Run.{ok, fault}
use cpu_scheduler.Memory.State.{Memory, mem_size, load}
use cpu_scheduler.Memory.Pages.{
  get_process, search_all, empty_entry, CheckResult, absent, check, clear_recent, define_page_table,
}
use cpu_scheduler.Memory.Pages.Lookup.{Owner, SameProcesses, home}
use cpu_scheduler.Memory.Pages.Access.{Answer, check-Answer}
use cpu_scheduler.Memory.Pages.Aging.{LimitsAgree, aged_below, clear_recent_lem}
use cpu_scheduler.Memory.Pages.Table.{define_page_table-check}
use cpu_scheduler.Memory.Mapping.{Maps, Holds, HasTable, Backed, Resident, IsMapped}
use cpu_scheduler.Memory.Release.{free_page_table}
use cpu_scheduler.Memory.Release.Frames.{freed, other_homes, free_page_table_lem}
use cpu_scheduler.Memory.Victim.{choose_frame}
use cpu_scheduler.Memory.Faults.{demand, fault_handler}
use cpu_scheduler.Memory.Faults.Demand.{DemandOutcome, fault_handler_demand}
use cpu_scheduler.Tests.Data.{pcb}

abbrev first_entry : PageEntry
first_entry = record { r = true; m = false; frame_address = pos 1; valid = true }

abbrev small_table : PageTable
small_table = record { len = 2; entry = λ v. if v == 0 then first_entry else empty_entry }

abbrev table_frame : Frame
table_frame = record {
  r = true;
  m = false;
  process_id = pos 7;
  pte = some small_table;
  occupied = true;
  vpage = minus_one;
  reserved = false;
}

abbrev page_frame : Frame
page_frame = record {
  r = true;
  m = false;
  process_id = pos 7;
  pte = none;
  occupied = true;
  vpage = pos 0;
  reserved = false;
}

abbrev empty_frame : Frame
empty_frame = record {
  r = false;
  m = false;
  process_id = minus_one;
  pte = none;
  occupied = false;
  vpage = minus_one;
  reserved = false;
}

abbrev pub frames : ℕ → Frame
frames i = if i == 0 then table_frame else if i == 1 then page_frame else empty_frame

abbrev pub owner : Pcb
owner = record (pcb 7 0 0) { frame_index = pos 0; pid = pos 100 }

abbrev pcbs : PcbPtr → Option Pcb
pcbs p = if p == 1 then some owner else none

abbrev pub memory : Memory
memory = record {
  clk = pos 4;
  ram = frames;
  pcbs = pcbs;
  all = record { items = 1 ∷ []; size = 1 };
  curr = some 1;
  log = [];
}

memory-Owner : Owner memory (pos 7) 1 owner
unfolding get_process load
memory-Owner = record { found = refl; holds = refl }

memory-HasTable : HasTable frames 0 small_table (pos 7)
memory-HasTable = record { in_ram = omega arith; table = refl; occupied = refl; owner = refl }

-- Only process 7 is there.
memory-home : (id : ℤ) {t : ℕ} → home memory id ≡ some t → (id ≡ pos 7) × (t ≡ 0)
unfolding get_process search_all load
memory-home id h = elim (Bool-cases (eqb_ℤ (pos 7) id)) [
  | inl x ↦ (sym (eqb_ℤ→eq (pos 7) id x), ground arith)
  | inr x ↦ absurd (ground arith)
]

first-Maps : Maps frames 0 small_table 0 1
first-Maps = record {
  in_ram = omega arith;
  table = refl;
  in_table = omega arith;
  valid = refl;
  address = refl;
}

first-Holds : Holds frames 1 (pos 7) 0
first-Holds = record {
  in_ram = omega arith;
  occupied = refl;
  no_table = refl;
  page = refl;
  owner = refl;
}

memory-home_of : home memory (pos 7) ≡ some 0
unfolding get_process load
memory-home_of = refl

-- Frame 0 has the only table.
frames-table : (t : ℕ) {T : PageTable} → (frames t).pte ≡ some T → (t ≡ 0) × (small_table ≡ T)
frames-table t e = elim (Bool-cases (t == 0)) [
  | inl x ↦ (ground arith, ground arith)
  | inr x ↦ absurd (ground arith)
]

-- Frame 1 has the only page.
frames-page : (i : ℕ) → (frames i).occupied ≡ true → (frames i).pte ≡ none → 1 ≡ i
frames-page i o e = ground arith

first_valid : (v : ℕ) → (small_table.entry v).valid ≡ true → 0 ≡ v
first_valid v e = ground arith

abbrev TableAt : ℕ → PageTable → Type 0
TableAt t T =
    HasTable frames t T (frames t).process_id × (home memory (frames t).process_id ≡ some t)

abbrev BackedAt : ℕ → PageTable → ℕ → Type 0
BackedAt t T v = Backed frames t T v mem_size

first-Backed : BackedAt 0 small_table 0
first-Backed = record {
  frame = 1;
  maps = first-Maps;
  holds = first-Holds;
  not_gap = λ z. omega arith;
}

first-Resident : Resident (home memory) frames 1
first-Resident = record {
  table_frame = 0;
  table = small_table;
  slot = 0;
  at_home = memory-home_of;
  maps = first-Maps;
  holds = first-Holds;
}

memory-IsMapped : IsMapped (home memory) frames mem_size
memory-IsMapped = record {
  tables = λ t T lt e.
      let (x, y) = frames-table t e in
      subst (λ u. TableAt u T) (sym x) (subst (TableAt 0) y (memory-HasTable, memory-home_of));
  homes = λ id t e.
      let (x, y) = memory-home id e in
      (
        small_table,
        subst (λ u. HasTable frames u small_table id) (sym y)
            (subst (HasTable frames 0 small_table) (sym x) memory-HasTable),
      );
  backed = λ t T v lt e lv x.
      let (a, b) = frames-table t e in
      let z : 0 ≡ v = first_valid v (ap (λ U. (U.entry v).valid) b ∙ x) in
      subst (λ u. BackedAt u T v) (sym a)
        (subst (λ U. BackedAt 0 U v) b (subst (BackedAt 0 small_table) z first-Backed));
  resident = λ i lt g occ no_table.
      subst (Resident (home memory) frames) (frames-page i occ no_table) first-Resident;
}

only_pcb : (p : PcbPtr) {c : Pcb} → pcbs p ≡ some c → c.limit ≡ pos 2
only_pcb p e = ground arith

memory-LimitsAgree : LimitsAgree memory
memory-LimitsAgree id p c t T o has f =
    only_pcb p o.holds ∙ ap (λ U. pos U.len) (frames-table t has.table).1

fault_handler_demand_example :
    (m' : Memory) × (fault_handler (pos 7) (pos 1) demand [] b'w' memory ≡ ok tt m')
    × SameProcesses memory m'
    × DemandOutcome memory m' (pos 7) 1 owner 0 1 (choose_frame frames)
fault_handler_demand_example =
    fault_handler_demand memory (pos 7) 1 b'w' 0 [] small_table memory-Owner refl (omega arith)
      memory-IsMapped memory-HasTable (omega arith) refl

check-Answer_example :
    (r : CheckResult) × (m' : Memory) × (check 1 (pos 0) b'w' memory ≡ ok r m')
    × Answer memory m' 0 small_table 0 b'w' r
check-Answer_example =
    check-Answer memory 1 owner 0 small_table refl refl refl memory-HasTable memory-IsMapped 0 b'w'
      (λ z. omega arith)

clear_recent_lem_example :
    (clear_recent memory ≡ ok tt (record memory { ram = aged_below mem_size frames }))
    × IsMapped (home memory) (aged_below mem_size frames) mem_size
clear_recent_lem_example = clear_recent_lem memory memory-IsMapped memory-LimitsAgree

-- Process 7 before its first page table.
abbrev fresh : Memory
fresh = record memory { ram = λ i. empty_frame; pcbs = λ p. some (pcb 7 0 0) }

fresh-Owner : Owner fresh (pos 7) 1 (pcb 7 0 0)
unfolding get_process load
fresh-Owner = record { found = refl; holds = refl }

define_page_table-check_example :
    (m' : Memory) × (define_page_table (pos 7) 3 fresh ≡ ok tt m')
    × (check 1 (pos 1) b'r' m' ≡ ok absent m')
    × (check 1 (pos 2) b'r' m' ≡ fault)
define_page_table-check_example =
    define_page_table-check fresh (pos 7) 3 2 1 b'r' fresh-Owner (omega arith) refl (omega arith)

free_page_table_lem_example :
    (free_page_table 1 memory ≡ ok tt (record memory { ram = freed (pos 7) frames }))
    × IsMapped (other_homes (home memory) (pos 7)) (freed (pos 7) frames) mem_size
free_page_table_lem_example =
    free_page_table_lem memory 1 owner 0 small_table refl refl memory-HasTable memory-IsMapped
