-- ===== src/Memory/Faults/Serve.antt =====
-- A page fault in `fault_handler` of MMU/mmu_functions.c, from the look-up of the owner to the page
-- in its frame.
use cpu_scheduler.Base.{
  ℕ, ◌<◌, ◌≡◌, ◌≢◌, refl, ◌∙◌, inl, inr, true, Option, some, arith, ℤ, pos, ◌+ℤ◌, ◌∷◌, ◌==◌,
  if◌then◌else◌, Bool-cases, minus_one,
}
use cpu_scheduler.Types.{Pcb, PcbPtr, PageTable, Frame, blocked}
use cpu_scheduler.Run.{ok}
use cpu_scheduler.Memory.State.{
  Memory, mem_size, update_pcb, set_pcb, set_frame, allocated, swapped_out,
}
use cpu_scheduler.Memory.Victim.{page_fault_delay}
use cpu_scheduler.Memory.Pages.{empty_entry}
use cpu_scheduler.Memory.Pages.Lookup.{Owner, SameProcesses, Owner-same, home, home-Owner}
use cpu_scheduler.Memory.Faults.{demand, evict, block_end_time, swap_in, swap, fill_free}
use cpu_scheduler.Memory.Faults.Runs.{
  with_entry, loaded_entry, mapped_frame, blocked_pcb, swapped_ram, put_page_in_frame-ok,
  swap_in_demand-ok, evict-ok, update_frame-ok,
}
use cpu_scheduler.Memory.Mapping.{Resident}

-- A write to a PCB that keeps its id and the frame of its table.
pub set_pcb-same :
    (m m' : Memory) {id : ℤ} {p : PcbPtr} {c : Pcb} (d : Pcb)
    → Owner m id p c
    → m'.curr ≡ m.curr
    → m'.all ≡ m.all
    → m'.pcbs ≡ set_pcb m.pcbs p (some d)
    → d.id ≡ c.id
    → d.frame_index ≡ c.frame_index
    → SameProcesses m m' × Owner m' id p d
unfolding set_pcb
set_pcb-same m m' {id} {p} {c} d o hc ha hp hi hf =
    let s : SameProcesses m m' = record {
      curr = hc;
      all = ha;
      keys = λ q. elim (Bool-cases (q == p)) [
        | inl x ↦ rw hp (ground (arith, o.holds))
        | inr x ↦ rw hp (ground arith)
      ];
    } in
    (s, Owner-same d s o (rw hp (ground arith)))

pub SameProcesses-trans :
    {m m' m'' : Memory} → SameProcesses m m' → SameProcesses m' m'' → SameProcesses m m''
SameProcesses-trans a b = record {
  curr = b.curr ∙ a.curr;
  all = b.all ∙ a.all;
  keys = λ p. b.keys p ∙ a.keys p;
}

abbrev pub fresh_block : Pcb → ℤ → Pcb
fresh_block c now = record c {
  state = blocked;
  unblock_at = now +ℤ pos 10;
  pending_page = minus_one;
  pending_frame = minus_one;
}

-- `RAM` behind the branch for a free frame.
abbrev pub filled_ram : (ℕ → Frame) → ℤ → ℕ → ℕ → ℕ → ℕ → PageTable → ℕ → Frame
filled_ram ram id v i op t T =
    let before = set_frame ram i (record (ram i) { reserved = true }) in
    with_entry (set_frame before i (mapped_frame id v op (before i))) t T v (loaded_entry i op)

module _ (m : Memory) (id : ℤ) (v i op t : ℕ) (T : PageTable) {p : PcbPtr} {c : Pcb}
    (o : Owner m id p c) (f : c.frame_index ≡ pos t) (li : i < mem_size) (lt : t < mem_size)
    (d : t ≢ i) (h : (m.ram t).pte ≡ some T) (lv : v < T.len) (small : v < 64) where
  pub fill_free-ok :
      (m' : Memory) × (fill_free id (pos v) demand op (some p) i m ≡ ok tt m')
      × (m'.ram ≡ filled_ram m.ram id v i op t T)
      × (m'.pcbs p
          ≡ some (record c {
            unblock_at = m.clk +ℤ pos (page_fault_delay (m.ram i));
            pending_page = pos v;
            pending_frame = pos i;
          }))
      × SameProcesses m m'
  unfolding fill_free update_pcb set_pcb set_frame page_fault_delay
  fill_free-ok =
      let before = set_frame m.ram i (record (m.ram i) { reserved = true }) in
      let c1 : Pcb = record c { unblock_at = m.clk +ℤ pos (page_fault_delay (m.ram i)) } in
      let c2 : Pcb = record c1 { pending_page = pos v; pending_frame = pos i } in
      let m1 : Memory = record m { ram = before } in
      let m2 : Memory = record m1 { pcbs = set_pcb m.pcbs p (some c1) } in
      let m3 : Memory = record m2 {
        ram = filled_ram m.ram id v i op t T;
        log = allocated i ∷ m.log;
      } in
      let m4 : Memory = record m3 { pcbs = set_pcb m2.pcbs p (some c2) } in
      let s2 = set_pcb-same m m2 c1 o refl refl refl refl refl in
      let s4 = set_pcb-same m2 m4 c2 s2.1 refl refl refl refl refl in
      (
        m4,
        ground (
          arith,
          update_frame-ok m i (λ g. record g { reserved = true }) li,
          o.holds,
          put_page_in_frame-ok m2 id v i op t T s2.1 f li lt d (ground arith) lv,
        ),
        refl,
        ground arith,
        SameProcesses-trans s2.0 s4.0,
      )

-- `RAM` behind `evict`, for the entry that names frame `i`.
abbrev pub evicted_ram :
    {home : ℤ → Option ℕ} {ram : ℕ → Frame} {i : ℕ} → Resident home ram i → ℕ → Frame
evicted_ram {ram} r = with_entry ram r.table_frame r.table r.slot empty_entry

pub evict-Resident :
    (m : Memory) (i : ℕ) (r : Resident (home m) m.ram i)
    → evict i m ≡ ok tt (record m { ram = evicted_ram r })
evict-Resident m i r =
    let (q, b, own, at) = home-Owner m (m.ram i).process_id r.at_home in
    evict-ok m i r.table_frame r.slot r.table own at r.holds.page r.maps.in_ram r.maps.table
      r.maps.in_table

block_end_time-demand :
    (now : ℤ) (v : ℕ) (f : Frame)
    → v < 64
    → block_end_time now (pos v) demand f ≡ now +ℤ pos (page_fault_delay f)
unfolding block_end_time
block_end_time-demand now v f h = ground arith

-- What is left of `swap` behind `evict`.
swap-evict :
    (m m1 : Memory) (id page : ℤ) (i op : ℕ)
    → evict i m ≡ ok tt m1
    → swap id i page demand op m
      ≡ swap_in id i page demand op
          (block_end_time m.clk page demand (m.ram i))
          (record m1 { log = if (m.ram i).m then swapped_out i ∷ m1.log else m1.log })
unfolding swap
swap-evict m m1 id page i op e = ground (arith, e)

-- `swap` for a page fault: the old page leaves frame `i` and the new one comes in.
pub swap-ok :
    (m : Memory) (id : ℤ) (v i op t : ℕ) (T : PageTable) {p : PcbPtr} {c : Pcb}
    (r : Resident (home m) m.ram i)
    → Owner m id p c
    → c.frame_index ≡ pos t
    → t < mem_size
    → t ≢ i
    → (evicted_ram r t).pte ≡ some T
    → v < T.len
    → v < 64
    → (m' : Memory) × (swap id i (pos v) demand op m ≡ ok tt m')
      × (m'.ram ≡ swapped_ram (evicted_ram r) demand id v i op t T)
      × (m'.pcbs p ≡ some (blocked_pcb c (m.clk +ℤ pos (page_fault_delay (m.ram i))) v i))
      × SameProcesses m m'
swap-ok m id v i op t T {p} {c} r o f lt d h lv small =
    let until : ℤ = m.clk +ℤ pos (page_fault_delay (m.ram i)) in
    let m1 : Memory = record m {
      ram = evicted_ram r;
      log = if (m.ram i).m then swapped_out i ∷ m.log else m.log;
    } in
    let s1 : SameProcesses m m1 = record { curr = refl; all = refl; keys = λ q. refl } in
    let o1 : Owner m1 id p c = Owner-same c s1 o o.holds in
    let m0 : Memory = record m1 {
      pcbs = set_pcb m.pcbs p (some (record c { state = blocked; unblock_at = until }));
    } in
    let s0 =
      set_pcb-same m1 m0 (record c { state = blocked; unblock_at = until }) o1 refl refl refl refl
        refl in
    let m2 : Memory = record m1 {
      ram = swapped_ram m1.ram demand id v i op t T;
      pcbs =
          set_pcb (set_pcb m.pcbs p (some (record c { state = blocked; unblock_at = until }))) p
            (some (blocked_pcb c until v i));
    } in
    let s2 = set_pcb-same m0 m2 (blocked_pcb c until v i) s0.1 refl refl refl refl refl in
    (
      m2,
      swap-evict m (record m { ram = evicted_ram r }) id (pos v) i op (evict-Resident m i r)
          ∙ rw (block_end_time-demand m.clk v (m.ram i) small)
              (swap_in_demand-ok m1 id v i op t T until o1 f r.holds.in_ram lt d h lv small),
      refl,
      s2.1.holds,
      SameProcesses-trans s1 (SameProcesses-trans s0.0 s2.0),
    )
