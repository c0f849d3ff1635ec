-- ===== src/RoundRobin/Dispatch.antt =====
-- `initialize_PCB`, `runProcess` and `RR_algo` of rr_scheduler/rr_scheduler_functions.c.
use cpu_scheduler.Base.{
  Bool, true, ◌&&◌, not, none, some, [], ℤ, pos, minus_one, leb_ℤ, eqb_ℤ, ◌+ℤ◌, ◌-ℤ◌, if◌then◌else◌,
}
use cpu_scheduler.Types.{PcbPtr, start, stop, resume, waiting, running}
use cpu_scheduler.Queue.{is_empty, enqueue, dequeue, peek}
use cpu_scheduler.Run.{ok, exits, Cmd, ◌>>=◌, ◌>>◌, gets, modify, when}
use cpu_scheduler.Memory.State.{load, update_pcb}
use cpu_scheduler.Memory.Faults.{table, initial, fault_handler}
use cpu_scheduler.Platform.{Platform}
use cpu_scheduler.RoundRobin.State.{
  Rr, in_memory, load_pcb, change_pcb, get_clk, set_curr, emit, count_quantum, log_data,
  wait_n_secs, sent, sigstop, sigcont,
}
use cpu_scheduler.RoundRobin.Blocking.{check_block_end}

module _ {P : Platform} where
  -- The page table and page 0 of a process that has none.
  unfoldable pub initialize_pcb : PcbPtr → Cmd (Rr P) (Unit {0})
  unfolding load
  initialize_pcb p = do
    c ← load_pcb p
    when (eqb_ℤ c.frame_index minus_one) (do
      in_memory (fault_handler c.id (pos 0) table [] b'r')
      in_memory (fault_handler c.id (pos 0) initial [] b'r'))

  -- The first dispatch of a process: the child is created.
  unfoldable pub start_child : PcbPtr → Cmd (Rr P) (Unit {0})
  unfolding initialize_pcb log_data load update_pcb
  start_child p = do
    initialize_pcb p
    change_pcb p (λ c. record c { l_state = start })
    log_data p
    c ← load_pcb p
    if eqb_ℤ (P.fork c.id) minus_one
        then (λ _. exits)
        else change_pcb p (λ c. record c { pid = P.fork c.id })

  -- A later dispatch: the child goes on.
  unfoldable pub resume_child : PcbPtr → Cmd (Rr P) (Unit {0})
  unfolding log_data load update_pcb
  resume_child p = do
    now ← get_clk
    change_pcb p (λ c. record c {
      waiting_time =
          if leb_ℤ (pos 0) c.last_stopped
          then c.waiting_time +ℤ (now -ℤ c.last_stopped)
          else c.waiting_time;
      l_state = resume;
    })
    log_data p
    c ← load_pcb p
    emit (sent c.pid sigcont)

  unfoldable pub run_process : PcbPtr → Cmd (Rr P) (Unit {0})
  unfolding start_child resume_child load update_pcb
  run_process p = do
    c ← load_pcb p
    now ← get_clk
    modify (λ s. record s { rt = c.remaining_time })
    when (eqb_ℤ c.start_time minus_one)
        (change_pcb p (λ c. record c { start_time = now; waiting_time = now -ℤ c.arrival }))
    if eqb_ℤ c.pid minus_one then start_child p else resume_child p
    change_pcb p (λ c. record c { state = running })

  -- `*currProcess = dequeue(readyQueue); runProcess(*currProcess)`
  unfoldable pub dispatch_next : Cmd (Rr P) (Unit {0})
  unfolding dequeue run_process
  dispatch_next s = elim (dequeue s.ready) [
    | none ↦ exits
    | some (p, rest) ↦
        (do modify (λ s. record s { ready = rest }); set_curr (some p); run_process p) s
  ]

  -- `isEmpty(readyQueue) || readyQueue->front->pcb->arrival == getClk()`
  unfoldable pub none_waits : Cmd (Rr P) Bool
  unfolding peek load
  none_waits s = elim (peek s.ready) [
    | none ↦ ok true s
    | some p ↦ (do c ← load_pcb p; now ← get_clk; gets (λ _. eqb_ℤ c.arrival now)) s
  ]

  -- The current process is stopped and put at the rear.
  unfoldable pub requeue_current : PcbPtr → Cmd (Rr P) (Unit {0})
  unfolding load update_pcb log_data enqueue
  requeue_current p = do
    rt ← gets (λ s. s.rt)
    change_pcb p (λ c. record c { l_state = stop; remaining_time = rt })
    c ← load_pcb p
    emit (sent c.pid sigstop)
    log_data p
    now ← get_clk
    change_pcb p (λ c. record c { last_stopped = now; remaining_time = rt; state = waiting })
    count_quantum
    modify (λ s. record s { ready = enqueue s.ready p; context_switch_until = now +ℤ pos 1 })

  -- The current process makes room, and the next one is dispatched.
  unfoldable pub preempt : ℤ → PcbPtr → Cmd (Rr P) (Unit {0})
  unfolding requeue_current check_block_end wait_n_secs dispatch_next
  preempt q p = do
    requeue_current p
    checked ← gets (λ s. s.checked)
    when (not checked) (check_block_end >> modify (λ s. record s { checked = true }))
    wait_n_secs (pos 1)
    modify (λ s. record s { next_preemption_time = s.mem.clk +ℤ q })
    dispatch_next

  unfoldable pub rr_algo : ℤ → Cmd (Rr P) (Unit {0})
  unfolding none_waits preempt dispatch_next is_empty
  rr_algo q s = elim s.mem.curr [
    | some p ↦
        (do
          alone ← none_waits
          let expired = leb_ℤ s.next_preemption_time s.mem.clk
          if alone && expired
              then (do
                modify (λ s. record s { next_preemption_time = s.mem.clk +ℤ q })
                count_quantum)
              else when expired (preempt q p))
          s
    | none ↦
        when (not (is_empty s.ready))
          (do dispatch_next; modify (λ s. record s { next_preemption_time = s.mem.clk +ℤ q })) s
  ]
