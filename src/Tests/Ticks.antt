-- ===== src/Tests/Ticks.antt =====
-- Tests of the properties of the round-robin scheduler.
use cpu_scheduler.Base.{
  ◌≡◌, refl, true, false, inr, Option, none, some, List, [], ◌∷◌, arith, pos, minus_one,
  if◌then◌else◌, ◌==◌,
}
use cpu_scheduler.Types.{Pcb, PcbPtr, ProcessData}
use cpu_scheduler.Run.{ok}
use cpu_scheduler.RoundRobin.State.{Rr}
use cpu_scheduler.RoundRobin.Lifecycle.{receive_loop}
use cpu_scheduler.RoundRobin.Lifecycle.Receive.{Created, receive_loop-new_processes}
use cpu_scheduler.RoundRobin.Blocking.{check_block_end}
use cpu_scheduler.RoundRobin.Blocking.Wake.{KeepsWaits}
use cpu_scheduler.RoundRobin.Blocking.BlockEnd.{check_block_end-Wakes}
use cpu_scheduler.Tests.Data.{platform, pcb, stolen}
use cpu_scheduler.Tests.Frames.{memory}

-- Process 8 waits for frame 1 until tick 9, and process 9 until tick 3.
abbrev blocked_pcbs : PcbPtr → Option Pcb
blocked_pcbs p =
    if p == 1
    then some
        (record (pcb 8 0 0) { unblock_at = pos 9; pending_page = pos 0; pending_frame = pos 1 })
    else some
        (record (pcb 9 0 0) { unblock_at = pos 3; pending_page = pos 0; pending_frame = pos 2 })

abbrev pub state : Rr platform
state = record {
  mem = record memory { pcbs = blocked_pcbs; curr = none };
  ready = record { items = []; size = 0 };
  block = record { items = 1 ∷ 2 ∷ []; size = 2 };
  requests = record { items = []; size = 0 };
  rt = pos 0;
  sem = 0;
  next_preemption_time = minus_one;
  context_switch_until = minus_one;
  quantums_passed = pos 0;
  last_print = minus_one;
  last_received_sync = minus_one;
  finished_signal = false;
  receiving = true;
  checked = false;
  perf = record {
    avg_wta = pos 0;
    avg_waiting = pos 0;
    m2_wta = pos 0;
    welford_mean_wta = pos 0;
    total_runtime = pos 0;
    first_arrival = minus_one;
    finish_time = minus_one;
    num_procs = pos 0;
  };
  next_ptr = 3;
  events = [];
}

-- A new process, the sync of tick 4, and a process for later.
abbrev inbox : List ProcessData
inbox =
    record stolen { mtype = pos 1 }
    ∷ record stolen { mtype = pos 2; arrival = pos 4 }
    ∷ record stolen { mtype = pos 1; id = pos 5 }
    ∷ []

receive_loop-new_processes_example :
    let s' = (receive_loop (pos 4) inbox state).1 in
    (s'.ready.items ≡ 3 ∷ [])
    × (s'.mem.all.items ≡ 1 ∷ 3 ∷ [])
    × Created s'.mem.pcbs 3 (record stolen { mtype = pos 1 } ∷ [])
    × (s'.mem.pcbs 1 ≡ blocked_pcbs 1)
receive_loop-new_processes_example = receive_loop-new_processes (pos 4) inbox state 1 (omega arith)

check_block_end-Wakes_example :
    (s' : Rr platform) × (check_block_end state ≡ ok tt s')
    × KeepsWaits state s'
    × (s'.block.items ≡ 1 ∷ [])
    × (s'.ready.items ≡ 2 ∷ [])
check_block_end-Wakes_example =
    check_block_end-Wakes state (inr (1, omega arith, refl), (inr (2, omega arith, refl), tt))
      (tt, ((refl, tt), tt))
