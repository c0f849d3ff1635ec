-- ===== src/Memory/Faults/Runs.antt =====
-- The results of the parts of `swap` and `fault_handler` of MMU/mmu_functions.c, written out.
use cpu_scheduler.Base.{
  ℕ, ◌<◌, ◌≡◌, ◌≢◌, refl, true, none, some, arith, ℤ, pos, ◌+ℤ◌, if◌then◌else◌, ◌∷◌,
}
use cpu_scheduler.Types.{Pcb, PcbPtr, PageEntry, PageTable, Frame, blocked}
use cpu_scheduler.Run.{ok}
use cpu_scheduler.Memory.State.{
  Memory, mem_size, load, update_pcb, set_pcb, set_frame, set_entry, update_frame, update_entry,
  allocated, loaded,
}
use cpu_scheduler.Memory.Pages.{empty_entry, is_write, map_page, put_page_in_frame}
use cpu_scheduler.Memory.Pages.Lookup.{Owner, get_process-same}
use cpu_scheduler.Memory.Faults.{LoadKind, demand, initial, is_initial, evict, swap_in}

-- `ram` with entry `v` of the table `T` in frame `t` replaced.
abbrev pub with_entry : (ℕ → Frame) → ℕ → PageTable → ℕ → PageEntry → ℕ → Frame
with_entry ram t T v e = set_frame ram t (record (ram t) { pte = some (set_entry T v e) })

pub update_entry-ok :
    (m : Memory) (t v : ℕ) (T : PageTable) (g : PageEntry → PageEntry)
    → t < mem_size
    → (m.ram t).pte ≡ some T
    → v < T.len
    → update_entry (pos t) (pos v) g m
      ≡ ok tt (record m { ram = with_entry m.ram t T v (g (T.entry v)) })
unfolding update_entry
update_entry-ok m t v T g lt h lv = ground arith

pub update_frame-ok :
    (m : Memory) (i : ℕ) (g : Frame → Frame)
    → i < mem_size
    → update_frame i g m ≡ ok tt (record m { ram = set_frame m.ram i (g (m.ram i)) })
unfolding update_frame
update_frame-ok m i g lt = ground arith

pub evict-ok :
    (m : Memory) (i t v : ℕ) (T : PageTable) {p : PcbPtr} {c : Pcb}
    → Owner m (m.ram i).process_id p c
    → c.frame_index ≡ pos t
    → (m.ram i).vpage ≡ pos v
    → t < mem_size
    → (m.ram t).pte ≡ some T
    → v < T.len
    → evict i m ≡ ok tt (record m { ram = with_entry m.ram t T v empty_entry })
unfolding evict load
evict-ok m i t v T o f pg lt h lv =
    ground (arith, o.found, o.holds, update_entry-ok m t v T (λ _. empty_entry) lt h lv)

-- The entry of a page that has been put in frame `i`.
abbrev pub loaded_entry : ℕ → ℕ → PageEntry
loaded_entry i op = record { r = true; m = is_write op; frame_address = pos i; valid = true }

-- Frame `i` behind `put_page_in_frame`.
abbrev pub mapped_frame : ℤ → ℕ → ℕ → Frame → Frame
mapped_frame id v op f = record f {
  occupied = true;
  process_id = id;
  pte = none;
  r = true;
  vpage = pos v;
  m = is_write op;
}

pub map_page-ok :
    (m : Memory) (id : ℤ) (v i op t : ℕ) (T : PageTable)
    → i < mem_size
    → t < mem_size
    → t ≢ i
    → (m.ram t).pte ≡ some T
    → v < T.len
    → map_page id (pos v) i op (pos t) m
      ≡ ok tt (record m {
        ram =
            with_entry
              (set_frame m.ram i (mapped_frame id v op (m.ram i)))
              t
              T
              v
              (loaded_entry i op);
      })
unfolding map_page set_frame
map_page-ok m id v i op t T li lt d h lv = ground (
  arith,
  update_frame-ok m i (mapped_frame id v op) li,
  update_entry-ok (record m { ram = set_frame m.ram i (mapped_frame id v op (m.ram i)) }) t v T
      (λ e. record e { m = is_write op; valid = true; r = true; frame_address = pos i }) lt,
)

pub put_page_in_frame-ok :
    (m : Memory) (id : ℤ) (v i op t : ℕ) (T : PageTable) {p : PcbPtr} {c : Pcb}
    → Owner m id p c
    → c.frame_index ≡ pos t
    → i < mem_size
    → t < mem_size
    → t ≢ i
    → (m.ram t).pte ≡ some T
    → v < T.len
    → put_page_in_frame id (pos v) i op m
      ≡ ok tt (record m {
        ram =
            with_entry
              (set_frame m.ram i (mapped_frame id v op (m.ram i)))
              t
              T
              v
              (loaded_entry i op);
        log = allocated i ∷ m.log;
      })
unfolding put_page_in_frame load
put_page_in_frame-ok m id v i op t T o f li lt d h lv =
    let m' : Memory = record m { log = allocated i ∷ m.log } in
    ground (
      arith,
      o.found,
      o.holds,
      get_process-same m m' (record { curr = refl; all = refl; keys = λ q. refl }) id,
      map_page-ok m' id v i op t T li lt d h lv,
    )

-- Frame `i` behind `swap`.
abbrev pub swapped_frame : LoadKind → ℤ → ℕ → ℕ → Frame → Frame
swapped_frame kind id v op f = record f {
  m = is_write op;
  process_id = id;
  r = true;
  occupied = true;
  vpage = pos v;
  reserved = if is_initial kind then f.reserved else true;
}

abbrev pub swapped_ram : (ℕ → Frame) → LoadKind → ℤ → ℕ → ℕ → ℕ → ℕ → PageTable → ℕ → Frame
swapped_ram ram kind id v i op t T =
    set_frame (with_entry ram t T v (loaded_entry i op)) i (swapped_frame kind id v op (ram i))

pub swap_in-initial-ok :
    (m : Memory) (id : ℤ) (v i op t : ℕ) (T : PageTable) (b : ℤ) {p : PcbPtr} {c : Pcb}
    → Owner m id p c
    → c.frame_index ≡ pos t
    → i < mem_size
    → t < mem_size
    → t ≢ i
    → (m.ram t).pte ≡ some T
    → v < T.len
    → v < 64
    → swap_in id i (pos v) initial op b m
      ≡ ok tt (record m {
        ram = swapped_ram m.ram initial id v i op t T;
        log = loaded m.clk (c.base +ℤ pos v) c.id (pos i) ∷ m.log;
      })
unfolding swap_in load set_frame
swap_in-initial-ok m id v i op t T b {p} {c} o f li lt d h lv small =
    let m1 : Memory = record m { log = loaded m.clk (c.base +ℤ pos v) c.id (pos i) ∷ m.log } in
    let m2 : Memory = record m1 { ram = with_entry m1.ram t T v (loaded_entry i op) } in
    ground (
      arith,
      o.found,
      o.holds,
      update_entry-ok m1 t v T
          (λ e. record e { valid = true; frame_address = pos i; r = true; m = is_write op }) lt h
          lv,
      update_frame-ok m2 i (swapped_frame initial id v op) li,
    )

-- The owner's PCB behind a page fault that found a frame.
abbrev pub blocked_pcb : Pcb → ℤ → ℕ → ℕ → Pcb
blocked_pcb c until v i = record c {
  state = blocked;
  unblock_at = until;
  pending_page = pos v;
  pending_frame = pos i;
}

pub swap_in_demand-ok :
    (m : Memory) (id : ℤ) (v i op t : ℕ) (T : PageTable) (b : ℤ) {p : PcbPtr} {c : Pcb}
    → Owner m id p c
    → c.frame_index ≡ pos t
    → i < mem_size
    → t < mem_size
    → t ≢ i
    → (m.ram t).pte ≡ some T
    → v < T.len
    → v < 64
    → swap_in id i (pos v) demand op b m
      ≡ ok tt (record m {
        ram = swapped_ram m.ram demand id v i op t T;
        pcbs =
            set_pcb
              (set_pcb m.pcbs p (some (record c { state = blocked; unblock_at = b })))
              p
              (some (blocked_pcb c b v i));
      })
unfolding swap_in load set_frame update_pcb
swap_in_demand-ok m id v i op t T b {p} {c} o f li lt d h lv small =
    let m1 : Memory = record m {
      pcbs = set_pcb m.pcbs p (some (record c { state = blocked; unblock_at = b }));
    } in
    let m2 : Memory = record m1 { ram = with_entry m1.ram t T v (loaded_entry i op) } in
    ground (
      arith,
      o.found,
      o.holds,
      update_entry-ok m1 t v T
          (λ e. record e { valid = true; frame_address = pos i; r = true; m = is_write op }) lt h
          lv,
      update_frame-ok m2 i (swapped_frame demand id v op) li,
    )
