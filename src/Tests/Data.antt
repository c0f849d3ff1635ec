-- ===== src/Tests/Data.antt =====
-- Processes, queues and a platform of the tests.
use cpu_scheduler.Base.{ℕ, true, false, some, [], ◌∷◌, ℤ, pos, minus_one, ◌+ℤ◌, ◌-ℤ◌}
use cpu_scheduler.Types.{Pcb, ProcessData, start, waiting}
use cpu_scheduler.Platform.{Platform}
use cpu_scheduler.Queue.{Queue}
use cpu_scheduler.Scheduler.State.{Sched, Load}

-- Whole numbers in place of floats; `fork` gives every process the id 100.
abbrev pub platform : Platform
platform = record {
  Float = ℤ;
  of_int = λ n. n;
  add = λ a b. a +ℤ b;
  sub = λ a b. a -ℤ b;
  mul = λ a b. a;
  div = λ a b. a;
  sqrt = λ a. a;
  strtoul = λ text base. base;
  fork = λ id. pos 100;
}

abbrev pub pcb : (id arrival priority : ℕ) → Pcb
pcb id arrival priority = record {
  id = pos id;
  arrival = pos arrival;
  runtime = pos 4;
  priority = pos priority;
  remaining_time = pos 3;
  waiting_time = pos 0;
  start_time = minus_one;
  finish_time = minus_one;
  last_stopped = minus_one;
  pid = minus_one;
  state = waiting;
  l_state = start;
  frame_index = minus_one;
  base = pos 0;
  limit = pos 2;
  unblock_at = minus_one;
  pending_page = minus_one;
  pending_frame = minus_one;
}

abbrev pub two_pcbs : Queue Pcb
two_pcbs = record { items = pcb 1 0 2 ∷ pcb 2 1 5 ∷ []; size = 2 }

abbrev pub load : Load
load = record { count1 = pos 2; total1 = pos 10; count2 = pos 1; total2 = pos 2 }

-- Process 3 of priority 4 runs, with two processes in the queue.
abbrev pub sched : Sched platform
sched = record {
  clk = pos 6;
  ready = two_pcbs;
  curr = some (pcb 3 1 4);
  rt = pos 3;
  sem = 0;
  next_preemption_time = minus_one;
  context_switch_until = minus_one;
  process_stopped = false;
  stalled = false;
  finished_signal = false;
  receiving = true;
  sub_cpu_created = true;
  n_time = pos 0;
  load = load;
  sub1 = [];
  sub2 = [];
  permits = 0;
  subs_terminated = pos 0;
  wait_sub = pos 0;
  term_sent = false;
  perf = record {
    avg_wta = pos 0;
    avg_waiting = pos 0;
    m2_wta = pos 0;
    welford_mean_wta = pos 0;
    total_runtime = pos 0;
    first_arrival = pos 0;
    finish_time = minus_one;
    num_procs = pos 0;
  };
  events = [];
}

-- A process that CPU 1 gives up.
abbrev pub stolen : ProcessData
stolen = record {
  mtype = pos 11;
  id = pos 2;
  arrival = pos 1;
  runtime = pos 3;
  priority = pos 5;
  base = pos 0;
  limit = pos 0;
}
