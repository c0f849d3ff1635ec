-- ===== src/Scheduler/Dispatch/Rotation.antt =====
-- The turn of `RR_algo` in scheduler/scheduler_functions.c at the end of a quantum.
use cpu_scheduler.Base.{
  ◌≡◌, refl, ap, ◌∙◌, inl, inr, true, false, Option, none, some, List, [], ◌∷◌, ◌++◌, arith, ℤ, pos,
  minus_one, eqb_ℤ, leb_ℤ, ◌+ℤ◌, ◌-◌, Option-cases,
}
use cpu_scheduler.Types.{Pcb, ProcState, running, waiting, stop}
use cpu_scheduler.Queue.{enqueue, dequeue, peek}
use cpu_scheduler.Platform.{Platform}
use cpu_scheduler.Scheduler.State.{Sched, emit, sent, sigstop, log_data, wait_n_secs}
use cpu_scheduler.Scheduler.Dispatch.{
  run_process, dispatch_next, note_start, note_resume, none_waits, set_deadline, stop_process,
  preempt_rr, rr_algo,
}

-- The id and state of the process on the CPU.
abbrev pub on_cpu : Option Pcb → Option (ℤ × ProcState)
on_cpu none = none
on_cpu (some c) = some (c.id, c.state)

module _ {P : Platform} where
  -- The PCB of the running process as it goes to the rear.
  abbrev pub rotated : Pcb → Sched P → Pcb
  rotated c s = record c {
    l_state = stop;
    remaining_time = s.rt;
    last_stopped = s.clk;
    state = waiting;
  }

  -- The state at the end of the switch, before the next process is dispatched.
  abbrev switched : Pcb → Sched P → Sched P
  switched c s =
      let s1 = log_data (stop_process c s) (emit (sent c.pid sigstop) s) in
      wait_n_secs (pos 1) (pos 1)
        (record s1 { ready = enqueue s1.ready (rotated c s); process_stopped = true })

  preempt_rr-switched :
      (q : ℤ) (c : Pcb) (s : Sched P)
      → preempt_rr q c s ≡ dispatch_next (set_deadline q (switched c s))
  unfolding preempt_rr stop_process
  preempt_rr-switched q c s = refl

  switched-clk : (c : Pcb) (s : Sched P) → (switched c s).clk ≡ s.clk +ℤ pos 1
  unfolding log_data wait_n_secs
  switched-clk c s = refl

  switched-items :
      (c : Pcb) (s : Sched P) (top : Pcb) (rest : List Pcb)
      → s.ready.items ≡ top ∷ rest
      → (switched c s).ready.items ≡ top ∷ (rest ++ rotated c s ∷ [])
  unfolding log_data wait_n_secs enqueue
  switched-items c s top rest e = rw e refl

module _ {P : Platform} (forks : (id : ℤ) → eqb_ℤ (P.fork id) minus_one ≡ false) where
  run_process-on_cpu :
      (c : Pcb) (s : Sched P)
      → (s' : Sched P) × (run_process c s ≡ some s')
        × (s'.ready ≡ s.ready)
        × (s'.clk ≡ s.clk)
        × (s'.next_preemption_time ≡ s.next_preemption_time)
        × (on_cpu s'.curr ≡ some (c.id, running))
  unfolding run_process note_start note_resume log_data
  run_process-on_cpu c s = elim (Option-cases (run_process c s)) [
    | inl e ↦ absurd (ground (arith, forks c.id))
    | inr (s', e) ↦ (s', e, ground arith, ground arith, ground arith, ground arith)
  ]

  dispatch_next-front :
      (s : Sched P) (top : Pcb) (rest : List Pcb)
      → s.ready.items ≡ top ∷ rest
      → (s' : Sched P) × (dispatch_next s ≡ some s')
        × (s'.ready.items ≡ rest)
        × (s'.clk ≡ s.clk)
        × (s'.next_preemption_time ≡ s.next_preemption_time)
        × (on_cpu s'.curr ≡ some (top.id, running))
  unfolding dispatch_next dequeue
  dispatch_next-front s top rest e =
      let (s', run, r, k, t, o) =
        run_process-on_cpu top (record s {
          ready = record { items = rest; size = s.ready.size - 1 };
          curr = some top;
        }) in
      (s', rw e run, ap (λ q. q.items) r, k, t, o)

  rr_algo-expired :
      (q : ℤ) (s : Sched P) (c top : Pcb) (rest : List Pcb)
      → s.curr ≡ some c
      → s.ready.items ≡ top ∷ rest
      → eqb_ℤ s.next_preemption_time minus_one ≡ false
      → leb_ℤ s.next_preemption_time s.clk ≡ true
      → eqb_ℤ top.arrival s.clk ≡ false
      → rr_algo q s ≡ preempt_rr q c s
  unfolding rr_algo none_waits peek
  rr_algo-expired q s c top rest k e d x a = rw (k, d, e, a, x) refl

  -- When the quantum of the running process is over and the front of the queue did not arrive in
  -- this very tick, and `fork` does not fail, `RR_algo` puts the running process at the rear, with
  -- its remaining time as the child left it, and gives the CPU to the front; the others keep their
  -- order. The switch takes one tick, and the next deadline is one quantum behind it.
  pub rr_algo-rotates :
      (q : ℤ) (s : Sched P) (c top : Pcb) (rest : List Pcb)
      → s.curr ≡ some c
      → s.ready.items ≡ top ∷ rest
      → eqb_ℤ s.next_preemption_time minus_one ≡ false
      → leb_ℤ s.next_preemption_time s.clk ≡ true
      → eqb_ℤ top.arrival s.clk ≡ false
      → (s' : Sched P) × (rr_algo q s ≡ some s')
        × (s'.ready.items ≡ rest ++ rotated c s ∷ [])
        × (s'.clk ≡ s.clk +ℤ pos 1)
        × (s'.next_preemption_time ≡ s.clk +ℤ pos 1 +ℤ q)
        × (on_cpu s'.curr ≡ some (top.id, running))
  rr_algo-rotates q s c top rest k e d x a =
      let (s', run, r, t, n, o) =
        dispatch_next-front (set_deadline q (switched c s)) top (rest ++ rotated c s ∷ [])
          (switched-items c s top rest e) in
      (
        s',
        rr_algo-expired q s c top rest k e d x a ∙ preempt_rr-switched q c s ∙ run,
        r,
        t ∙ switched-clk c s,
        n ∙ ap (λ t. t +ℤ q) (switched-clk c s),
        o,
      )
