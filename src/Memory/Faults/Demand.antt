-- ===== src/Memory/Faults/Demand.antt =====
-- The page fault of a running process in `fault_handler` of MMU/mmu_functions.c, as a whole.
use mathlib.Core.Path.{subst, fun_ext}
use cpu_scheduler.Base.{
  ℕ, ◌<◌, ◌≡◌, ◌≢◌, refl, sym, ap, ◌∙◌, inl, inr, false, Option, none, some, arith, ℤ, pos, index,
  ◌+ℤ◌, ◌∷◌, Option-cases, List,
}
use cpu_scheduler.Types.{Pcb, PcbPtr, PageTable, Frame}
use cpu_scheduler.Run.{ok}
use cpu_scheduler.Memory.State.{
  Memory, mem_size, set_pcb, set_frame, set_entry, update_pcb, page_fault,
}
use cpu_scheduler.Memory.Victim.{
  Choice, free_frame, victim_frame, no_frame, choose_frame, page_fault_delay,
}
use cpu_scheduler.Memory.Victim.Nru.{choose_frame-IsNruChoice, IsNruChoice}
use cpu_scheduler.Memory.Pages.{empty_entry}
use cpu_scheduler.Memory.Pages.Lookup.{Owner, SameProcesses, home, home-same, Owner-home}
use cpu_scheduler.Memory.Mapping.{Maps, Holds, HasTable, Resident, IsMapped}
use cpu_scheduler.Memory.Mapping.Change.{cleared-IsMapped, SetsEntry}
use cpu_scheduler.Memory.Mapping.Fill.{Places, places-IsMapped}
use cpu_scheduler.Memory.Faults.{demand, load_into, fault_handler, block_owner}
use cpu_scheduler.Memory.Faults.Runs.{loaded_entry, blocked_pcb, swapped_ram}
use cpu_scheduler.Memory.Faults.Serve.{
  set_pcb-same, SameProcesses-trans, fresh_block, filled_ram, fill_free-ok, evicted_ram, swap-ok,
}

-- A frame that is not occupied holds no table and is named by no entry.
free-IsMapped :
    {home : ℤ → Option ℕ} {ram : ℕ → Frame} (i : ℕ)
    → i < mem_size
    → (ram i).occupied ≡ false
    → IsMapped home ram mem_size
    → IsMapped home ram i × ((ram i).pte ≡ none)
free-IsMapped {ram} i lt vac fit = (
  record {
    tables = fit.tables;
    homes = fit.homes;
    backed = λ t T v l e lv x.
        let b = fit.backed t T v l e lv x in
        record {
          frame = b.frame;
          maps = b.maps;
          holds = b.holds;
          not_gap = λ z. ground (arith, b.holds.occupied);
        };
    resident = λ j l d. fit.resident j l (λ z. absurd (omega arith));
  },
  elim (Option-cases (ram i).pte) [
    | inl x ↦ x
    | inr (T, x) ↦ absurd (ground (arith, (fit.tables i T lt x).0.occupied))
  ],
)

module _ {ram : ℕ → Frame} (id : ℤ) (v i op t : ℕ) (T : PageTable) (has : HasTable ram t T id)
    (lv : v < T.len) (out : (T.entry v).valid ≡ false) (li : i < mem_size)
    (no_table : (ram i).pte ≡ none) where
  apart : t ≢ i
  apart x = ground (arith, has.table, no_table)

  filled-Places : Places ram (filled_ram ram id v i op t T) t v i T (loaded_entry i op)
  unfolding set_frame set_entry
  filled-Places = record {
    in_ram = li;
    table = record {
      in_ram = has.in_ram;
      table = has.table;
      occupied = has.occupied;
      owner = refl;
    };
    in_table = lv;
    not_valid = out;
    no_table = no_table;
    valid = refl;
    address = refl;
    filled = ground (arith, apart, has.owner);
    entry = ground (arith, apart);
    same = λ j a b. ground arith;
  }

  swapped-Places : Places ram (swapped_ram ram demand id v i op t T) t v i T (loaded_entry i op)
  unfolding set_frame set_entry
  swapped-Places = record {
    in_ram = li;
    table = record {
      in_ram = has.in_ram;
      table = has.table;
      occupied = has.occupied;
      owner = refl;
    };
    in_table = lv;
    not_valid = out;
    no_table = no_table;
    valid = refl;
    address = refl;
    filled = ground (arith, apart, has.owner);
    entry = ground (arith, apart);
    same = λ j a b. ground arith;
  }

-- Frame `i` holds page `v` of process `id`, an entry of the table of `id` names it, and tables and
-- frames agree.
abbrev pub Served : Memory → ℤ → (t v i : ℕ) → Type 0
Served m id t v i =
    IsMapped (home m) m.ram mem_size
    × Holds m.ram i id v
    × ((T : PageTable) × HasTable m.ram t T id × Maps m.ram t T v i)

-- The memory `m'` and the PCB of the owner behind a page fault, by the frame that was chosen.
abbrev pub DemandOutcome : (m m' : Memory) → ℤ → PcbPtr → Pcb → (t v : ℕ) → Choice → Type 0
DemandOutcome m m' id p c t v (free_frame i) =
    Served m' id t v i
    × (m'.pcbs p ≡ some (blocked_pcb c (m.clk +ℤ pos (page_fault_delay (m.ram i))) v i))
DemandOutcome m m' id p c t v (victim_frame i) =
    Served m' id t v i
    × (m'.pcbs p ≡ some (blocked_pcb c (m.clk +ℤ pos (page_fault_delay (m.ram i))) v i))
DemandOutcome m m' id p c t v no_frame = (m'.ram ≡ m.ram) × (m'.pcbs p ≡ some (fresh_block c m.clk))

-- Placed pages agree again, for a memory whose processes are those of the old one.
Served-Places :
    {m m' : Memory} {ram : ℕ → Frame} {id : ℤ} {v i t : ℕ} {T : PageTable} (op : ℕ)
    → SameProcesses m m'
    → IsMapped (home m) ram i
    → HasTable ram t T id
    → Places ram m'.ram t v i T (loaded_entry i op)
    → Served m' id t v i
unfolding set_entry
Served-Places {m} {m'} {v} {i} {t} {T} op s fit has pl = (
  subst (λ f. IsMapped f m'.ram mem_size) (sym (fun_ext (home-same m m' s)))
      (places-IsMapped fit pl),
  ground (arith, pl.filled, has.owner),
  (
    set_entry T v (loaded_entry i op),
    ground (arith, pl.entry, has),
    ground (arith, pl.entry, has, pl.in_table),
  ),
)

module _ {home : ℤ → Option ℕ} {ram : ℕ → Frame} {i : ℕ} (r : Resident home ram i) where
  evicted-SetsEntry : SetsEntry ram (evicted_ram r) r.table_frame r.slot r.table empty_entry
  unfolding set_frame
  evicted-SetsEntry = record {
    table = r.maps.table;
    entry = ground arith;
    same = λ j d. ground arith;
  }

  evicted-no_table : (ram i).pte ≡ none → (evicted_ram r i).pte ≡ none
  unfolding set_frame
  evicted-no_table e = ground (arith, r.maps.table)

module _ (m : Memory) (id : ℤ) (v op t : ℕ) (address : List ℕ) (T : PageTable) {p : PcbPtr}
    {c : Pcb} (o : Owner m id p c) (f : c.frame_index ≡ pos t) (small : v < 64) where
  -- The memory as it is when the search for a frame begins.
  abbrev searching : Memory
  searching = record m {
    pcbs = set_pcb m.pcbs p (some (fresh_block c m.clk));
    log = page_fault address id ∷ m.log;
  }

  searching-same : SameProcesses m searching × Owner searching id p (fresh_block c m.clk)
  searching-same = set_pcb-same m searching (fresh_block c m.clk) o refl refl refl refl refl

  block_owner-ok :
      block_owner (some p) (pos v) demand m
      ≡ ok tt (record m { pcbs = set_pcb m.pcbs p (some (fresh_block c m.clk)) })
  unfolding block_owner update_pcb
  block_owner-ok = ground (arith, o.holds)

  fault_handler-searching :
      fault_handler id (pos v) demand address op m
      ≡ load_into id (pos v) demand op (some p) (choose_frame m.ram) searching
  unfolding fault_handler
  fault_handler-searching = rw (o.found, block_owner-ok)

  abbrev resident_searching :
      (i : ℕ) → Resident (home m) m.ram i → Resident (home searching) searching.ram i
  resident_searching i r = record {
    table_frame = r.table_frame;
    table = r.table;
    slot = r.slot;
    at_home = home-same m searching searching-same.0 (m.ram i).process_id ∙ r.at_home;
    maps = r.maps;
    holds = r.holds;
  }

  module _ (fit : IsMapped (home m) m.ram mem_size) (has : HasTable m.ram t T id) (lv : v < T.len)
      (out : (T.entry v).valid ≡ false) where
    Outcome : Choice → Type 0
    Outcome ch =
        (m' : Memory) × (load_into id (pos v) demand op (some p) ch searching ≡ ok tt m')
        × SameProcesses m m'
        × DemandOutcome m m' id p c t v ch

    evicted-entry :
        {i : ℕ} (r : Resident (home m) m.ram i) (T1 : PageTable)
        → (evicted_ram r t).pte ≡ some T1
        → (v < T1.len) × ((T1.entry v).valid ≡ false)
    unfolding set_frame set_entry
    evicted-entry r T1 e = ground (arith, has.table, r.maps.table, e)

    free-Outcome : (i : ℕ) → IsNruChoice m.ram (free_frame i) → Outcome (free_frame i)
    unfolding load_into Outcome
    free-Outcome i (li, vac, _) =
        let (fit', no_table) = free-IsMapped i li vac fit in
        let d = apart id v i op t T has lv out li no_table in
        let (s0, o0) = searching-same in
        let (m', run, at, pcb, s) =
          fill_free-ok searching id v i op t T o0 f li has.in_ram d has.table lv small in
        (
          m',
          run,
          SameProcesses-trans s0 s,
          (
            Served-Places op (SameProcesses-trans s0 s) fit' has
                (rw at (filled-Places id v i op t T has lv out li no_table)),
            pcb,
          ),
        )

    resident-Outcome :
        (i : ℕ)
        → i < mem_size
        → (m.ram i).pte ≡ none
        → Resident (home m) m.ram i
        → Outcome (victim_frame i)
    unfolding load_into Outcome
    resident-Outcome i li no_table r =
        let r0 = resident_searching i r in
        let fit1 = cleared-IsMapped fit r.maps (omega arith) refl (evicted-SetsEntry r) in
        let (T1, has1) = fit1.homes id t (Owner-home o ∙ ap index f) in
        let (lv1, out1) = evicted-entry r T1 has1.table in
        let no_table1 = evicted-no_table r no_table in
        let d = apart id v i op t T1 has1 lv1 out1 li no_table1 in
        let (s0, o0) = searching-same in
        let (m', run, at, pcb, s) =
          swap-ok searching id v i op t T1 r0 o0 f has1.in_ram d has1.table lv1 small in
        (
          m',
          run,
          SameProcesses-trans s0 s,
          (
            Served-Places op (SameProcesses-trans s0 s) fit1 has1
                (rw at (swapped-Places id v i op t T1 has1 lv1 out1 li no_table1)),
            pcb,
          ),
        )

    victim-Outcome : (i : ℕ) → IsNruChoice m.ram (victim_frame i) → Outcome (victim_frame i)
    victim-Outcome i (li, full, unpinned, _, _) =
        let no_table : (m.ram i).pte ≡ none = ground arith in
        resident-Outcome i li no_table (fit.resident i li (λ z. ground arith) (full i li) no_table)

    none-Outcome : Outcome no_frame
    unfolding load_into Outcome
    none-Outcome = (searching, refl, searching-same.0, (refl, searching-same.1.holds))

    outcome : (ch : Choice) → IsNruChoice m.ram ch → Outcome ch
    outcome (free_frame i) n = free-Outcome i n
    outcome (victim_frame i) n = victim-Outcome i n
    outcome no_frame n = none-Outcome

    -- For a process that `get_process` finds, with a page table, and a page below 64 of that table
    -- whose entry is not valid, when tables and frames agree, a page fault ends with no undefined
    -- behaviour. If a frame was free, or could be taken from another page, the page is then in
    -- that frame, its entry is valid, tables and frames agree, and the owner is blocked until the
    -- delay of the frame has passed, with the page pending. If not, no frame changes, and the
    -- owner is blocked for 10 ticks with nothing pending. Ids and tables stay.
    pub fault_handler_demand :
        (m' : Memory) × (fault_handler id (pos v) demand address op m ≡ ok tt m')
        × SameProcesses m m'
        × DemandOutcome m m' id p c t v (choose_frame m.ram)
    unfolding Outcome
    fault_handler_demand =
        let (m', run, s, out') = outcome (choose_frame m.ram) (choose_frame-IsNruChoice m.ram) in
        (m', fault_handler-searching ∙ run, s, out')
