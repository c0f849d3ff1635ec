-- ===== src/Memory/Pages/Lookup.antt =====
-- What `get_process` of MMU/mmu_functions.c finds depends on the ids of the PCBs only.
use cpu_scheduler.Base.{
  ℕ, ◌≡◌, refl, ap, ◌∙◌, inl, inr, Option, none, some, List, [], ◌∷◌, arith, ℤ, pos, index,
  Option-cases,
}
use cpu_scheduler.Types.{Pcb, PcbPtr}
use cpu_scheduler.Run.{Run, ok, fault, exits}
use cpu_scheduler.Memory.State.{Memory, load}
use cpu_scheduler.Memory.Pages.{search_all, get_process}

-- The id and the table's frame of the process at a pointer, if it is allocated.
abbrev pub key_of : Option Pcb → Option (ℤ × ℤ)
key_of none = none
key_of (some c) = some (c.id, c.frame_index)

-- The same queue and current process, with the same ids and frames.
pub record SameProcesses (m m' : Memory) : Type 0 where
  pub curr : m'.curr ≡ m.curr
  pub all : m'.all ≡ m.all
  pub keys : (p : PcbPtr) → key_of (m'.pcbs p) ≡ key_of (m.pcbs p)

abbrev pub result_in : {A : Type 0} → Memory → Run Memory A → Run Memory A
result_in m (ok a _) = ok a m
result_in m fault = fault
result_in m exits = exits

search_all-same :
    (m m' : Memory)
    → SameProcesses m m'
    → (id : ℤ) (ps : List PcbPtr) → search_all id ps m' ≡ result_in m' (search_all id ps m)
unfolding search_all load
search_all-same m m' s id [] = refl
search_all-same m m' s id (p ∷ ps) = ground (arith, s.keys p, search_all-same m m' s id ps)

-- The case of `get_process` for a current process.
curr-same :
    (m m' : Memory) (s : SameProcesses m m') (id : ℤ) (curr : Option PcbPtr)
    → m.curr ≡ curr
    → get_process id m' ≡ result_in m' (get_process id m)
unfolding get_process load
curr-same m m' s id none e = ground (arith, s.curr, s.all, search_all-same m m' s id m.all.items)
curr-same m m' s id (some p) e =
    ground (arith, s.curr, s.all, s.keys p, search_all-same m m' s id m.all.items)

pub get_process-same :
    (m m' : Memory)
    → SameProcesses m m'
    → (id : ℤ) → get_process id m' ≡ result_in m' (get_process id m)
get_process-same m m' s id = curr-same m m' s id m.curr refl

SameProcesses-refl : (m : Memory) → SameProcesses m m
SameProcesses-refl m = record { curr = refl; all = refl; keys = λ p. refl }

-- The process `id` has its PCB `c` at `p`.
pub record Owner (m : Memory) (id : ℤ) (p : PcbPtr) (c : Pcb) : Type 0 where
  pub found : get_process id m ≡ ok (some p) m
  pub holds : m.pcbs p ≡ some c

abbrev home_at : Memory → Run Memory (Option PcbPtr) → Option ℕ
home_at m (ok none _) = none
home_at m (ok (some p) _) = elim (m.pcbs p) [ none ↦ none | some c ↦ index c.frame_index ]
home_at m fault = none
home_at m exits = none

-- The frame of the page table of process `id`, by its PCB.
abbrev pub home : Memory → ℤ → Option ℕ
home m id = home_at m (get_process id m)

get_process-state : (m : Memory) (id : ℤ) → get_process id m ≡ result_in m (get_process id m)
get_process-state m id = get_process-same m m (SameProcesses-refl m) id

home_at-Owner :
    (m : Memory) (id : ℤ) (r : Run Memory (Option PcbPtr)) {t : ℕ}
    → get_process id m ≡ result_in m r
    → home_at m r ≡ some t
    → (p : PcbPtr) × (c : Pcb) × Owner m id p c × (c.frame_index ≡ pos t)
home_at-Owner m id (ok none _) e h = cc
home_at-Owner m id (ok (some p) _) e h = elim (Option-cases (m.pcbs p)) [
  | inl x ↦ ground arith
  | inr (c, x) ↦ (p, c, record { found = e; holds = x }, ground arith)
]
home_at-Owner m id fault e h = cc
home_at-Owner m id exits e h = cc

pub home-Owner :
    (m : Memory) (id : ℤ) {t : ℕ}
    → home m id ≡ some t
    → (p : PcbPtr) × (c : Pcb) × Owner m id p c × (c.frame_index ≡ pos t)
home-Owner m id h = home_at-Owner m id (get_process id m) (get_process-state m id) h

pub Owner-home :
    {m : Memory} {id : ℤ} {p : PcbPtr} {c : Pcb} → Owner m id p c → home m id ≡ index c.frame_index
Owner-home o = ground (arith, o.found, o.holds)

home_at-same :
    (m m' : Memory)
    → SameProcesses m m'
    → (r : Run Memory (Option PcbPtr)) → home_at m' (result_in m' r) ≡ home_at m r
home_at-same m m' s (ok none _) = refl
home_at-same m m' s (ok (some p) _) = ground (arith, s.keys p)
home_at-same m m' s fault = refl
home_at-same m m' s exits = refl

pub home-same : (m m' : Memory) → SameProcesses m m' → (id : ℤ) → home m' id ≡ home m id
home-same m m' s id =
    ap (home_at m') (get_process-same m m' s id) ∙ home_at-same m m' s (get_process id m)

pub Owner-same :
    {m m' : Memory} {id : ℤ} {p : PcbPtr} {c : Pcb} (c' : Pcb)
    → SameProcesses m m'
    → Owner m id p c
    → m'.pcbs p ≡ some c'
    → Owner m' id p c'
Owner-same {m} {m'} {id} c' s o e = record {
  found = ground (arith, get_process-same m m' s id, o.found);
  holds = e;
}
