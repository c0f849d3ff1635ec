-- ===== src/Tests/Stalls.antt =====
-- Tests of the properties of the sub-schedulers.
use cpu_scheduler.Base.{
  ◌≡◌, refl, true, false, some, [], ◌∷◌, ◌++◌, arith, pos, minus_one, ◌+ℤ◌, ◌-ℤ◌, abs, ◌<ℤ◌,
}
use cpu_scheduler.Types.{Pcb, ProcessData}
use cpu_scheduler.Queue.{create_queue}
use cpu_scheduler.Perf.{initialize_perf}
use cpu_scheduler.Scheduler.State.{create_pcb}
use cpu_scheduler.Scheduler.Routing.{as_message}
use cpu_scheduler.Scheduler.Stealing.{imbalance, check_threshold}
use cpu_scheduler.SubScheduler.State.{Sub, initial}
use cpu_scheduler.SubScheduler.Receiving.{take_in, drain, admit, receive}
use cpu_scheduler.SubScheduler.Stall.{stall_sig, end_stall}
use cpu_scheduler.SubScheduler.Stealing.{pcb_to_process_data, nothing_to_steal, steal_handler}
use cpu_scheduler.SubScheduler.Loop.{crashed, round}
use cpu_scheduler.SubScheduler.Invariant.{Good}
use cpu_scheduler.SubScheduler.Steps.{Reached, started, next, stalls, Reached-Good}
use cpu_scheduler.SubScheduler.Transfer.{
  sent_to_other, steal_handler-transfers, steal_handler_refuses,
}
use cpu_scheduler.SubScheduler.Published.{RoundPublishes, round-Published}
use cpu_scheduler.SubScheduler.StallTime.{
  Frozen, stalled_for, stop_actions, resume_actions, stall_sig-end_stall, round-Frozen,
}
use cpu_scheduler.SubScheduler.Arrivals.{steal_handler_loses_arrival}
use cpu_scheduler.Tests.Data.{platform, load, sched}

-- A process that arrives at 2, as the scheduler sends it on.
abbrev arriving : ProcessData
arriving = record {
  mtype = pos 1;
  id = pos 4;
  arrival = pos 2;
  runtime = pos 6;
  priority = pos 1;
  base = pos 0;
  limit = pos 0;
}

-- CPU 1 at its start, with that message to come.
abbrev cpu : Sub platform
cpu = initial platform true load (arriving ∷ [])

-- A forked process on a CPU at tick 4.
abbrev child : Pcb
child = record (create_pcb arriving) { pid = pos 100 }

abbrev busy : Sub platform
busy = record cpu { clk = pos 4; tick_time = pos 4; curr = some child; rt = pos 5; permits = 1 }

abbrev busy_stalled : Sub platform
busy_stalled = record busy { stalled = true; stall_end_time = pos 6 }

cpu_stalled-Reached : Reached (stall_sig cpu)
cpu_stalled-Reached = next cpu (stall_sig cpu) (started true load (arriving ∷ [])) (stalls cpu)

Reached-Good_example : Good (stall_sig cpu) × (¬ (round [] (stall_sig cpu) ≡ crashed))
Reached-Good_example = Reached-Good [] (stall_sig cpu) cpu_stalled-Reached

round-Published_example : RoundPublishes busy (round (arriving ∷ []) busy)
round-Published_example = round-Published (arriving ∷ []) busy

stall_sig-end_stall_example :
    let s' = end_stall (record (stall_sig busy) { clk = pos 7; tick_time = pos 7 }) in
    (s'.stalled ≡ false)
    × (s'.curr ≡ some (stalled_for (pos 4) (pos 7) (pos 5) child))
    × (s'.actions
        ≡ resume_actions (pos 4) (pos 7) (pos 5) child
          ++ (stop_actions (pos 4) (pos 5) child ++ busy.actions))
unfolding initial ◌+ℤ◌
stall_sig-end_stall_example = stall_sig-end_stall busy child (pos 7) refl refl refl (omega arith)

round-Frozen_example : Frozen busy_stalled (round [] busy_stalled)
unfolding initial
round-Frozen_example = round-Frozen [] busy_stalled refl refl (omega arith)

cpu-Good : Good cpu
cpu-Good = (Reached-Good [] cpu (started true load (arriving ∷ []))).0

sched_over : pos 5 <ℤ imbalance load
unfolding imbalance abs ◌-ℤ◌
sched_over = omega arith

steal_handler-transfers_example :
    let d = pcb_to_process_data (create_pcb arriving) (pos 11) in
    let k' = check_threshold (pos 5) (pos 2) (some d) sched in
    ((steal_handler cpu).ready.items ≡ [])
    × ((steal_handler cpu).responses ≡ [] ++ d ∷ [])
    × (sent_to_other true k' ≡ sent_to_other true sched ++ as_message d (pos 1) ∷ [])
    × ((drain admit (as_message d (pos 1) ∷ []) busy).ready.items
        ≡ busy.ready.items ++ create_pcb arriving ∷ [])
unfolding initial create_queue drain take_in
steal_handler-transfers_example =
    steal_handler-transfers (pos 5) (pos 2) sched cpu busy [] (create_pcb arriving) cpu-Good refl
      sched_over

steal_handler_refuses_example :
    let s = initial platform false load [] in
    let k' = check_threshold (pos 5) (pos 2) (some nothing_to_steal) sched in
    ((steal_handler s).ready.items ≡ [])
    × ((steal_handler s).responses ≡ [] ++ nothing_to_steal ∷ [])
    × (k'.load ≡ load)
    × (k'.sub1 ≡ [])
    × (k'.sub2 ≡ [])
unfolding initial create_queue drain
steal_handler_refuses_example =
    steal_handler_refuses (pos 5) (pos 2) sched (initial platform false load []) refl

steal_handler_loses_arrival_example :
    ((receive cpu).perf.first_arrival ≡ pos 2)
    × ((steal_handler cpu).perf.first_arrival ≡ minus_one)
unfolding initial initialize_perf
steal_handler_loses_arrival_example =
    steal_handler_loses_arrival cpu arriving [] refl refl (omega arith) refl
