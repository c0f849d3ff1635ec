-- ===== src/Scheduler/State.antt =====
-- The globals of scheduler/scheduler.c. A PCB is held by one queue node or by `currProcess` alone,
-- so it is modelled by its value.
use cpu_scheduler.Base.{
  ℕ, Bool, Option, List, ◌∷◌, ℤ, pos, minus_one, ◌+ℤ◌, ◌-ℤ◌, ltb_ℤ, eqb_ℤ, rem, if◌then◌else◌,
}
use cpu_scheduler.Types.{Pcb, ProcessData, start, finish, waiting}
use cpu_scheduler.Queue.{Queue}
use cpu_scheduler.Platform.{Platform}
use cpu_scheduler.Perf.{Perf}

pub data Signal : Type 0 where
  sigstop sigcont sigurg sigusr2 : Signal

-- A line of scheduler.log, a signal to a child, or one to the sub-scheduler of CPU 1 or 2.
pub data Event : Type 0 where
  logged : (time : ℤ) → Pcb → Event
  sent : (pid : ℤ) → Signal → Event
  sent_cpu : (first : Bool) → Signal → Event

-- The four slots of the load segment: ready processes and remaining time of each CPU.
pub record Load : Type 0 where
  pub count1 : ℤ
  pub total1 : ℤ
  pub count2 : ℤ
  pub total2 : ℤ

-- `sub1` and `sub2` are the messages sent to the two sub-schedulers, in order, and `permits` is the
-- value of the threshold semaphore; `events` has the last one first.
pub record Sched (P : Platform) : Type 0 where
  pub clk : ℤ
  pub ready : Queue Pcb
  pub curr : Option Pcb
  pub rt : ℤ
  pub sem : ℕ
  pub next_preemption_time : ℤ
  pub context_switch_until : ℤ
  pub process_stopped : Bool
  pub stalled : Bool
  pub finished_signal : Bool
  pub receiving : Bool
  pub sub_cpu_created : Bool
  pub n_time : ℤ
  pub load : Load
  pub sub1 : List ProcessData
  pub sub2 : List ProcessData
  pub permits : ℕ
  pub subs_terminated : ℤ
  pub wait_sub : ℤ
  pub term_sent : Bool
  pub perf : Perf P
  pub events : List Event

-- `createPCB` of scheduler/scheduler_functions.c and of sub-sched/sub_scheduler_functions.c. It
-- leaves the fields for memory and `lState` unset; nothing in these programs reads them unset.
unfoldable pub create_pcb : ProcessData → Pcb
create_pcb d = record {
  id = d.id;
  arrival = d.arrival;
  runtime = d.runtime;
  priority = d.priority;
  start_time = minus_one;
  finish_time = minus_one;
  last_stopped = minus_one;
  remaining_time = d.runtime;
  waiting_time = pos 0;
  state = waiting;
  l_state = start;
  pid = minus_one;
  limit = pos 0;
  base = pos 0;
  frame_index = minus_one;
  unblock_at = minus_one;
  pending_page = minus_one;
  pending_frame = minus_one;
}

-- The time that `log_data` prints.
unfoldable pub log_time : ℤ → Pcb → ℤ
log_time now c = elim c.l_state [
  | finish ↦ if eqb_ℤ c.finish_time minus_one then now else c.finish_time
  | _ ↦ now
]

-- `N_time` behind `wait_N_secs`, for N > 0 as the remainder of C.
unfoldable pub skip_ticks : (n_time pen n : ℤ) → ℤ
skip_ticks n_time pen n =
    let skipped = if ltb_ℤ (pos 0) pen then pen -ℤ pos 1 else pos 0 in rem (n_time +ℤ skipped) n

module _ {P : Platform} where
  abbrev pub emit : Event → Sched P → Sched P
  emit e s = record s { events = e ∷ s.events }

  unfoldable pub log_data : Pcb → Sched P → Sched P
  unfolding log_time
  log_data c s = emit (logged (log_time s.clk c) c) s

  -- `wait_N_secs(pen, N)`: the clock is `pen` ticks later.
  unfoldable pub wait_n_secs : (pen n : ℤ) → Sched P → Sched P
  unfolding skip_ticks
  wait_n_secs pen n s = record s {
    clk = s.clk +ℤ pen;
    n_time = if ltb_ℤ (pos 0) n then skip_ticks s.n_time pen n else s.n_time;
  }
