-- ===== src/RoundRobin/State.antt =====
-- The globals of rr_scheduler/rr_scheduler.c, and the access to them.
use cpu_scheduler.Base.{
  ℕ, Bool, true, false, ◌&&◌, Option, none, some, List, [], ◌∷◌, ℤ, pos, minus_one, ◌+ℤ◌, eqb_ℤ,
  if◌then◌else◌,
}
use cpu_scheduler.Types.{Pcb, PcbPtr, Request, finish, waiting, start}
use cpu_scheduler.Queue.{Queue}
use cpu_scheduler.Run.{Run, ok, fault, exits, Cmd, ◌>>=◌, gets, modify}
use cpu_scheduler.Memory.State.{Memory, M, load, update_pcb}
use cpu_scheduler.Platform.{Platform}
use cpu_scheduler.Perf.{Perf}

pub data Signal : Type 0 where
  sigstop sigcont : Signal

-- A line of scheduler.log shows the time and fields of the PCB; `kill` sends a signal.
pub data Event : Type 0 where
  logged : (time : ℤ) → Pcb → Event
  sent : (pid : ℤ) → Signal → Event

-- `mem` holds the clock, `currProcess` and `currentPCBs`; `rt` is what `shmRT_addr` points to,
-- `sem` the value of the tick semaphore, `next_ptr` the next address from `malloc`, and `events`
-- has the last one first.
pub record Rr (P : Platform) : Type 0 where
  pub mem : Memory
  pub ready : Queue PcbPtr
  pub block : Queue PcbPtr
  pub requests : Queue Request
  pub rt : ℤ
  pub sem : ℕ
  pub next_preemption_time : ℤ
  pub context_switch_until : ℤ
  pub quantums_passed : ℤ
  pub last_print : ℤ
  pub last_received_sync : ℤ
  pub finished_signal : Bool
  pub receiving : Bool
  pub checked : Bool
  pub perf : Perf P
  pub next_ptr : PcbPtr
  pub events : List Event

-- The time that `log_data` prints.
unfoldable pub log_time : ℤ → Pcb → ℤ
log_time now c = elim c.l_state [
  | finish ↦ if eqb_ℤ c.finish_time minus_one then now else c.finish_time
  | _ ↦ now
]

-- Every pointer of the list is allocated.
abbrev pub all_live : Memory → List PcbPtr → Bool
all_live m [] = true
all_live m (p ∷ ps) = (elim (m.pcbs p) [ none ↦ false | some _ ↦ true ]) && all_live m ps

module _ {P : Platform} where
  abbrev pub run_in : {A : Type 0} → Rr P → Run Memory A → Run (Rr P) A
  run_in s (ok a m) = ok a (record s { mem = m })
  run_in s fault = fault
  run_in s exits = exits

  -- A call of the memory unit.
  abbrev pub in_memory : {A : Type 0} → M A → Cmd (Rr P) A
  in_memory f s = run_in s (f s.mem)

  abbrev pub load_pcb : PcbPtr → Cmd (Rr P) Pcb
  load_pcb p = in_memory (load p)

  abbrev pub change_pcb : PcbPtr → (Pcb → Pcb) → Cmd (Rr P) (Unit {0})
  change_pcb p g = in_memory (update_pcb p g)

  -- `getClk()`
  abbrev pub get_clk : Cmd (Rr P) ℤ
  get_clk = gets (λ s. s.mem.clk)

  abbrev pub set_curr : Option PcbPtr → Cmd (Rr P) (Unit {0})
  set_curr c = modify (λ s. record s { mem = record (s.mem) { curr = c } })

  abbrev pub emit : Event → Cmd (Rr P) (Unit {0})
  emit e = modify (λ s. record s { events = e ∷ s.events })

  -- `quantums_passed++`
  abbrev pub count_quantum : Cmd (Rr P) (Unit {0})
  count_quantum = modify (λ s. record s { quantums_passed = s.quantums_passed +ℤ pos 1 })

  unfoldable pub log_data : PcbPtr → Cmd (Rr P) (Unit {0})
  unfolding load log_time
  log_data p = do c ← load_pcb p; now ← get_clk; emit (logged (log_time now c) c)

  -- The spin of `wait_N_secs` ends `pen` ticks later; its other argument changes nothing here.
  unfoldable pub wait_n_secs : ℤ → Cmd (Rr P) (Unit {0})
  wait_n_secs pen = modify (λ s. record s { mem = record (s.mem) { clk = s.mem.clk +ℤ pen } })

-- Read in place of a PCB that is not allocated; the calls below fault before they reach it.
abbrev pub blank_pcb : Pcb
blank_pcb = record {
  id = pos 0;
  arrival = pos 0;
  runtime = pos 0;
  priority = pos 0;
  remaining_time = pos 0;
  waiting_time = pos 0;
  start_time = pos 0;
  finish_time = pos 0;
  last_stopped = pos 0;
  pid = pos 0;
  state = waiting;
  l_state = start;
  frame_index = pos 0;
  base = pos 0;
  limit = pos 0;
  unblock_at = pos 0;
  pending_page = pos 0;
  pending_frame = pos 0;
}

-- The PCBs that the queue operations read.
abbrev pub pcb_at : Memory → PcbPtr → Pcb
pcb_at m p = elim (m.pcbs p) [ none ↦ blank_pcb | some c ↦ c ]
