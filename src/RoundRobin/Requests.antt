-- ===== src/RoundRobin/Requests.antt =====
-- `handleRequests` and `checkReqs` of rr_scheduler/rr_scheduler_functions.c.
use cpu_scheduler.Base.{
  Bool, false, Option, none, some, ℤ, pos, minus_one, leb_ℤ, ltb_ℤ, ◌+ℤ◌, ◌==◌, if◌then◌else◌,
}
use cpu_scheduler.Types.{PcbPtr, Request, stop, blocked}
use cpu_scheduler.Queue.{enqueue, dequeue, peek, dequeue_by_id}
use cpu_scheduler.Run.{ok, fault, exits, Cmd, ◌>>=◌, ◌>>◌, done, gets, modify, when}
use cpu_scheduler.Memory.State.{load, update_pcb}
use cpu_scheduler.Memory.Address.{parse_hexa_address}
use cpu_scheduler.Memory.Pages.{get_process, check, invalid, absent, present}
use cpu_scheduler.Memory.Faults.{demand, fault_handler}
use cpu_scheduler.Platform.{Platform}
use cpu_scheduler.RoundRobin.State.{
  Rr, in_memory, load_pcb, change_pcb, get_clk, set_curr, emit, count_quantum, log_data, all_live,
  pcb_at, sent, sigstop,
}

abbrev pub is_same : Option PcbPtr → PcbPtr → Bool
is_same none p = false
is_same (some q) p = q == p

module _ {P : Platform} where
  -- The current process stops at its request and goes to the block queue.
  unfoldable pub block_current : PcbPtr → Cmd (Rr P) (Unit {0})
  unfolding load update_pcb log_data enqueue
  block_current p = do
    rt ← gets (λ s. s.rt)
    count_quantum
    change_pcb p (λ c. record c { l_state = stop; remaining_time = rt })
    log_data p
    now ← get_clk
    change_pcb p (λ c. record c { last_stopped = now; state = blocked })
    modify (λ s. record s { block = enqueue s.block p })

  -- The lines behind the page fault of the current process.
  unfoldable pub leave_current : PcbPtr → Cmd (Rr P) (Unit {0})
  unfolding load
  leave_current p = do
    c ← load_pcb p
    when (ltb_ℤ (pos 0) c.pid) (emit (sent c.pid sigstop))
    modify (λ s. record s {
      context_switch_until = s.mem.clk +ℤ pos 1;
      next_preemption_time = minus_one;
    })
    set_curr none

  -- `dequeue_by_id` on the ready queue; no pointer that it may follow dangles.
  unfoldable pub take_ready : ℤ → Cmd (Rr P) (Option PcbPtr)
  unfolding dequeue_by_id
  take_ready id s =
      if all_live s.mem s.ready.items
      then (elim (dequeue_by_id (pcb_at s.mem) s.ready id) [
        | none ↦ ok none s
        | some (p, rest) ↦ ok (some p) (record s { ready = rest })
      ])
      else fault

  -- A process that was ready goes to the block queue with its page fault.
  unfoldable pub move_blocked : PcbPtr → (page : ℤ) → Request → Cmd (Rr P) (Unit {0})
  unfolding load update_pcb enqueue
  move_blocked p page r = do
    change_pcb p (λ c. record c { state = blocked })
    modify (λ s. record s { block = enqueue s.block p })
    d ← load_pcb p
    in_memory (fault_handler d.id page demand r.address r.operation)

  -- The branch of a page that is not in memory; `is_curr` says whether the owner is running.
  unfoldable pub serve_fault :
      (owner : PcbPtr) (page : ℤ) → Request → (is_curr : Bool) → Cmd (Rr P) (Unit {0})
  unfolding load block_current leave_current take_ready move_blocked
  serve_fault owner page r is_curr = do
    c ← load_pcb owner
    if is_curr
        then (do
          block_current owner
          in_memory (fault_handler c.id page demand r.address r.operation)
          leave_current owner)
        else (do
          taken ← take_ready c.id
          elim taken [ none ↦ done | some p ↦ move_blocked p page r ])

  -- `dequeueReq(requests)`
  unfoldable pub dequeue_req : Cmd (Rr P) Request
  unfolding dequeue
  dequeue_req s = elim (dequeue s.requests) [
    | none ↦ exits
    | some (r, rest) ↦ ok r (record s { requests = rest })
  ]

  -- The request at the front, for an owner that is known.
  unfoldable pub check_owned : PcbPtr → Request → Cmd (Rr P) (Unit {0})
  unfolding check dequeue_req serve_fault parse_hexa_address
  check_owned p r = do
    let page = (parse_hexa_address P.strtoul r.address).page
    result ← in_memory (check p page r.operation)
    now ← get_clk
    curr ← gets (λ s. s.mem.curr)
    when (leb_ℤ r.tick now) (do
      taken ← dequeue_req
      elim result [
        | present ↦ done
        | absent ↦ serve_fault p page taken (is_same curr p)
        | invalid ↦ done
      ])

  unfoldable pub check_reqs : Cmd (Rr P) (Unit {0})
  unfolding peek get_process check_owned
  check_reqs s = elim (peek s.requests) [
    | none ↦ ok tt s
    | some r ↦
        (do
          owner ← in_memory (get_process r.mtype)
          elim owner [ none ↦ done | some p ↦ check_owned p r ])
          s
  ]

  -- The argument is what `msgrcv` delivers for the current process, if anything.
  unfoldable pub handle_requests : Option Request → Cmd (Rr P) (Unit {0})
  unfolding enqueue check_reqs
  handle_requests received s = elim s.mem.curr [
    | none ↦ ok tt s
    | some _ ↦ elim received [
      | none ↦ check_reqs s
      | some r ↦
          check_reqs (record s { requests = enqueue s.requests (record r { tick = s.mem.clk }) })
    ]
  ]
