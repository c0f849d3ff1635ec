-- ===== src/Scheduler/Dispatch.antt =====
-- `runProcess`, `RR_algo` and `HPF_algo` of scheduler/scheduler_functions.c. None stands for the
-- end of the program by `exit`.
pub mod Priority
pub mod Rotation
use cpu_scheduler.Base.{
  Bool, true, false, ◌||◌, ◌&&◌, not, Option, none, some, List, [], ◌∷◌, ℤ, pos, minus_one, leb_ℤ,
  ltb_ℤ, eqb_ℤ, ◌+ℤ◌, ◌-ℤ◌, if◌then◌else◌,
}
use cpu_scheduler.Types.{Pcb, start, stop, resume, waiting, running}
use cpu_scheduler.Queue.{is_empty, enqueue, enqueue_priority, dequeue, peek}
use cpu_scheduler.Platform.{Platform}
use cpu_scheduler.Scheduler.State.{Sched, emit, log_data, wait_n_secs, sent, sigstop, sigcont}

-- The start of a process is noted at its first dispatch.
unfoldable pub note_start : ℤ → Pcb → Pcb
note_start now c =
    if eqb_ℤ c.start_time minus_one
    then record c { start_time = now; waiting_time = now -ℤ c.arrival }
    else c

-- The time since the process was stopped counts as waiting.
unfoldable pub note_resume : ℤ → Pcb → Pcb
note_resume now c = record c {
  waiting_time =
      if leb_ℤ (pos 0) c.last_stopped
      then c.waiting_time +ℤ (now -ℤ c.last_stopped)
      else c.waiting_time;
  l_state = resume;
}

abbrev pub self : Pcb → Pcb
self c = c

module _ {P : Platform} where
  unfoldable pub run_process : Pcb → Sched P → Option (Sched P)
  unfolding note_start note_resume log_data
  run_process c s =
      let noted = note_start s.clk c in
      let s1 = record s { rt = c.remaining_time } in
      if eqb_ℤ noted.pid minus_one
      then (let started = record noted { l_state = start } in
          if eqb_ℤ (P.fork c.id) minus_one
          then none
          else some (record (log_data started s1) {
            curr = some (record started { pid = P.fork c.id; state = running });
          }))
      else (let resumed = note_resume s.clk noted in
          some (record (emit (sent resumed.pid sigcont) (log_data resumed s1)) {
            curr = some (record resumed { state = running });
          }))

  -- `*currProcess = dequeue(readyQueue); runProcess(*currProcess)`
  unfoldable pub dispatch_next : Sched P → Option (Sched P)
  unfolding dequeue run_process
  dispatch_next s = elim (dequeue s.ready) [
    | none ↦ none
    | some (c, rest) ↦ run_process c (record s { ready = rest; curr = some c })
  ]

  -- The deadline of the next preemption, from the clock as it then is.
  abbrev pub set_deadline : ℤ → Sched P → Sched P
  set_deadline q s = record s { next_preemption_time = s.clk +ℤ q }

  unfoldable pub set_deadline_after : ℤ → Option (Sched P) → Option (Sched P)
  set_deadline_after q none = none
  set_deadline_after q (some s) = some (set_deadline q s)

  -- `isEmpty(readyQueue) || readyQueue->front->pcb->arrival == getClk()`
  unfoldable pub none_waits : Sched P → Bool
  unfolding peek
  none_waits s = elim (peek s.ready) [ none ↦ true | some c ↦ eqb_ℤ c.arrival s.clk ]

  unfoldable pub stop_process : Pcb → Sched P → Pcb
  stop_process c s = record c { l_state = stop; remaining_time = s.rt }

  unfoldable pub preempt_rr : ℤ → Pcb → Sched P → Option (Sched P)
  unfolding stop_process log_data enqueue wait_n_secs dispatch_next
  preempt_rr q c s =
      let stopped = stop_process c s in
      let s1 = log_data stopped (emit (sent c.pid sigstop) s) in
      let back = record stopped { last_stopped = s.clk; state = waiting } in
      let s2 = record s1 { ready = enqueue s1.ready back; process_stopped = true } in
      dispatch_next (set_deadline q (wait_n_secs (pos 1) (pos 1) s2))

  unfoldable pub rr_algo : ℤ → Sched P → Option (Sched P)
  unfolding none_waits preempt_rr dispatch_next is_empty set_deadline_after
  rr_algo q s = elim s.curr [
    | some c ↦
        if eqb_ℤ s.next_preemption_time minus_one
        then some (set_deadline q s)
        else (let expired = leb_ℤ s.next_preemption_time s.clk in
            if none_waits s && expired
            then some (set_deadline q s)
            else if expired
            then preempt_rr q c s
            else some s)
    | none ↦ if is_empty s.ready then some s else set_deadline_after q (dispatch_next s)
  ]

  -- The running process gives way to the front of the queue.
  unfoldable pub preempt_hpf : Pcb → Sched P → Sched P
  unfolding log_data enqueue_priority wait_n_secs
  preempt_hpf c s =
      let stopped = record c {
        last_stopped = s.clk;
        remaining_time = s.rt;
        state = waiting;
        l_state = stop;
      } in
      let s1 = log_data stopped (emit (sent c.pid sigstop) s) in
      wait_n_secs (pos 1) (pos 1)
        (record s1 { ready = enqueue_priority self s1.ready stopped; curr = none })

  unfoldable pub hpf_algo : Sched P → Option (Sched P)
  unfolding peek preempt_hpf dispatch_next is_empty
  hpf_algo s = elim s.curr [
    | some c ↦ elim (peek s.ready) [
      | none ↦ some s
      | some top ↦ some (if ltb_ℤ top.priority c.priority then preempt_hpf c s else s)
    ]
    | none ↦ if is_empty s.ready then some s else dispatch_next s
  ]
