-- ===== src/SubScheduler/Dispatch.antt =====
-- `FCFS_algo` and `runProcess` of sub-sched/sub_scheduler_functions.c. None stands for the end of
-- the program by `exit`.
use cpu_scheduler.Base.{Option, none, some, pos, minus_one, eqb_ℤ, ◌+ℤ◌, if◌then◌else◌}
use cpu_scheduler.Types.{Pcb, start, resume, running}
use cpu_scheduler.Queue.{Queue, dequeue, total_remaining_time}
use cpu_scheduler.Platform.{Platform}
use cpu_scheduler.Scheduler.State.{sigcont}
use cpu_scheduler.Scheduler.Dispatch.{self, note_start}
use cpu_scheduler.SubScheduler.State.{Sub, emit, log_data, sent, write_load}

module _ {P : Platform} where
  unfoldable pub run_process : Pcb → Sub P → Option (Sub P)
  unfolding note_start log_data
  run_process c s =
      let noted = note_start s.tick_time c in
      let s1 = record s { rt = c.remaining_time } in
      if eqb_ℤ noted.pid minus_one
      then (let started = record noted { l_state = start } in
          if eqb_ℤ (P.fork c.id) minus_one
          then none
          else some (record (log_data started s1) {
            curr = some (record started { pid = P.fork c.id; state = running });
          }))
      else (let resumed = record noted { l_state = resume } in
          some (record (emit (sent resumed.pid sigcont) (log_data resumed s1)) {
            curr = some (record resumed { state = running });
          }))

  -- The front of the queue leaves it, its time still counts in the load, and it runs.
  unfoldable pub run_front : Pcb → Queue Pcb → Sub P → Option (Sub P)
  unfolding total_remaining_time write_load run_process
  run_front c rest s =
      let total = total_remaining_time self rest +ℤ c.remaining_time in
      run_process c (record s {
        ready = rest;
        curr = some c;
        load = write_load s.first (pos rest.size) total s.load;
      })

  unfoldable pub fcfs_algo : Sub P → Option (Sub P)
  unfolding dequeue run_front
  fcfs_algo s = elim s.curr [
    | some _ ↦ some s
    | none ↦ elim (dequeue s.ready) [ none ↦ some s | some (c, rest) ↦ run_front c rest s ]
  ]
