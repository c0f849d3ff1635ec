-- ===== src/SubScheduler/State.antt =====
-- The globals of sub-sched/sub_scheduler.c and the helpers of sub-sched/sub_scheduler_functions.c.
-- A PCB is held by one queue node or by `currProcess` alone, so it is modelled by its value.
use cpu_scheduler.Base.{
  ℕ, Bool, true, false, ◌||◌, Option, none, some, List, [], ◌∷◌, ℤ, pos, minus_one, ◌+ℤ◌, ◌-ℤ◌,
  leb_ℤ, ltb_ℤ, eqb_ℤ, if◌then◌else◌,
}
use cpu_scheduler.Types.{Pcb, ProcessData, stolen}
use cpu_scheduler.Queue.{Queue, create_queue, total_remaining_time}
use cpu_scheduler.Platform.{Platform}
use cpu_scheduler.Perf.{Perf, Report, initialize_perf}
use cpu_scheduler.Scheduler.State.{Load, Signal, log_time}
use cpu_scheduler.Scheduler.Dispatch.{self}
use cpu_scheduler.Scheduler.Stealing.{at_least_zero}

-- A line of the log of this CPU, or a signal to a child.
pub data Action : Type 0 where
  logged : (time : ℤ) → Pcb → Action
  was_stolen : (time id : ℤ) → Action
  sent : (pid : ℤ) → Signal → Action

-- `first` is `cpu_id == 1`. `clk` is what `getClk` reads and `tick_time` the variable
-- `current_tick_time`; `rt` is the shared remaining time and `sem` the tick gate of the child.
-- `inbox` holds the messages that wait for this CPU, `responses` those sent back to the scheduler,
-- `permits` the value of the threshold semaphore, and `actions` has the last one first.
pub record Sub (P : Platform) : Type 0 where
  pub first : Bool
  pub clk : ℤ
  pub tick_time : ℤ
  pub last_tick : ℤ
  pub ready : Queue Pcb
  pub curr : Option Pcb
  pub rt : ℤ
  pub sem : ℕ
  pub load : Load
  pub remaining_processes : ℤ
  pub stalled : Bool
  pub stall_end_time : ℤ
  pub receiving : Bool
  pub context_switch_until : ℤ
  pub process_finished : Bool
  pub perf : Perf P
  pub inbox : List ProcessData
  pub responses : List ProcessData
  pub permits : ℕ
  pub actions : List Action

-- What waits for the other CPU in its slot of the load: `load_shm[base2nd + 1]`.
unfoldable pub other_total : Bool → Load → ℤ
other_total first l = if first then l.total2 else l.total1

-- `write_load_shm`, also as `update_load_shm` writes out.
unfoldable pub write_load : Bool → (count total : ℤ) → Load → Load
write_load first count total l =
    if first
    then record l { count1 = count; total1 = total }
    else record l { count2 = count; total2 = total }

module _ {P : Platform} where
  abbrev pub emit : Action → Sub P → Sub P
  emit a s = record s { actions = a ∷ s.actions }

  -- The line of a stolen process is of its own form.
  unfoldable pub log_data : Pcb → Sub P → Sub P
  unfolding log_time
  log_data c s = elim c.l_state [
    | stolen ↦ emit (was_stolen s.clk c.id) s
    | _ ↦ emit (logged (log_time s.clk c) c) s
  ]

  -- `shmRT_addr` is attached, so the shared value counts and not the field of the PCB.
  unfoldable pub running_remaining_time : Sub P → ℤ
  running_remaining_time s = elim s.curr [ none ↦ pos 0 | some _ ↦ s.rt ]

  -- `running_rt` of `update_load_shm`.
  unfoldable pub running_rt : Sub P → ℤ
  unfolding running_remaining_time
  running_rt s = elim s.curr [ none ↦ pos 0 | some _ ↦ at_least_zero (running_remaining_time s) ]

  unfoldable pub update_load_shm : Sub P → Sub P
  unfolding running_rt write_load total_remaining_time
  update_load_shm s =
      let running = running_rt s in
      let total = total_remaining_time self s.ready +ℤ running in
      record s { load = write_load s.first (pos s.ready.size) total s.load }

module _ (P : Platform) where
  -- What the code before the loop leaves, for the load segment and the messages found.
  unfoldable pub initial : Bool → Load → List ProcessData → Sub P
  unfolding create_queue initialize_perf other_total
  initial first load inbox = record {
    first = first;
    clk = pos 0;
    tick_time = pos 0;
    last_tick = minus_one;
    ready = create_queue;
    curr = none;
    rt = pos 0;
    sem = 0;
    load = load;
    remaining_processes = other_total first load;
    stalled = false;
    stall_end_time = minus_one;
    receiving = true;
    context_switch_until = minus_one;
    process_finished = false;
    perf = initialize_perf P;
    inbox = inbox;
    responses = [];
    permits = 0;
    actions = [];
  }

  -- `write_perf` of this program: one process alone has no deviation. None stands for the four
  -- lines with 0.00.
  unfoldable pub write_perf : Perf P → Option (Report P)
  write_perf s =
      if eqb_ℤ s.num_procs (pos 0) || leb_ℤ s.finish_time s.first_arrival
      then none
      else some (record {
        cpu_utilization =
            P.div (P.mul (P.of_int s.total_runtime) (P.of_int (pos 100)))
              (P.of_int (s.finish_time -ℤ s.first_arrival));
        avg_wta = P.div s.avg_wta (P.of_int s.num_procs);
        avg_waiting = P.div s.avg_waiting (P.of_int s.num_procs);
        std_wta =
            if ltb_ℤ (pos 1) s.num_procs
            then P.sqrt (P.div s.m2_wta (P.of_int s.num_procs))
            else P.of_int (pos 0);
      })
