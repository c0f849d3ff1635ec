-- ===== src/Perf.antt =====
-- `struct PerfVars` of data structs/structs.h and its use in scheduler/scheduler_functions.c,
-- rr_scheduler/rr_scheduler_functions.c and sub-sched/sub_scheduler_functions.c.
use cpu_scheduler.Base.{
  ◌||◌, ℤ, pos, minus_one, ◌+ℤ◌, ◌-ℤ◌, leb_ℤ, eqb_ℤ, if◌then◌else◌, Option, none, some,
}
use cpu_scheduler.Types.{Pcb}
use cpu_scheduler.Platform.{Platform}

-- `struct PerfVars` without its unused field `std_WTA`.
pub record Perf (P : Platform) : Type 0 where
  pub avg_wta : P.Float
  pub avg_waiting : P.Float
  pub m2_wta : P.Float
  pub welford_mean_wta : P.Float
  pub total_runtime : ℤ
  pub first_arrival : ℤ
  pub finish_time : ℤ
  pub num_procs : ℤ

-- What `write_perf` prints.
pub record Report (P : Platform) : Type 0 where
  pub cpu_utilization : P.Float
  pub avg_wta : P.Float
  pub avg_waiting : P.Float
  pub std_wta : P.Float

module _ (P : Platform) where
  unfoldable pub initialize_perf : Perf P
  initialize_perf = record {
    avg_wta = P.of_int (pos 0);
    avg_waiting = P.of_int (pos 0);
    m2_wta = P.of_int (pos 0);
    welford_mean_wta = P.of_int (pos 0);
    total_runtime = pos 0;
    first_arrival = minus_one;
    finish_time = minus_one;
    num_procs = pos 0;
  }

  unfoldable pub weighted_turnaround : Pcb → P.Float
  weighted_turnaround c = P.div (P.of_int (c.finish_time -ℤ c.arrival)) (P.of_int c.runtime)

  -- The lines of the finish handler that account for a process, with its finish time set.
  unfoldable pub account : Perf P → Pcb → Perf P
  unfolding weighted_turnaround
  account s c =
      let wta = weighted_turnaround c in
      let n : ℤ = s.num_procs +ℤ pos 1 in
      let delta = P.sub wta s.welford_mean_wta in
      let mean = P.add s.welford_mean_wta (P.div delta (P.of_int n)) in
      let delta2 = P.sub wta mean in
      record s {
        avg_wta = P.add s.avg_wta wta;
        num_procs = n;
        welford_mean_wta = mean;
        m2_wta = P.add s.m2_wta (P.mul delta delta2);
        avg_waiting = P.add s.avg_waiting (P.of_int c.waiting_time);
        total_runtime = s.total_runtime +ℤ c.runtime;
        finish_time = c.finish_time;
      }

  -- `if (perf.first_arrival == -1) perf.first_arrival = pcb->arrival`
  unfoldable pub note_arrival : Perf P → ℤ → Perf P
  note_arrival s arrival =
      if eqb_ℤ s.first_arrival minus_one then record s { first_arrival = arrival } else s

  -- `write_perf`: none stands for the four lines with 0.00.
  unfoldable pub write_perf : Perf P → Option (Report P)
  write_perf s =
      if eqb_ℤ s.num_procs (pos 0) || leb_ℤ s.finish_time s.first_arrival
      then none
      else some (record {
        cpu_utilization =
            P.div (P.mul (P.of_int s.total_runtime) (P.of_int (pos 100)))
              (P.of_int (s.finish_time -ℤ s.first_arrival));
        avg_wta = P.div s.avg_wta (P.of_int s.num_procs);
        avg_waiting = P.div s.avg_waiting (P.of_int s.num_procs);
        std_wta = P.sqrt (P.div s.m2_wta (P.of_int s.num_procs));
      })
