-- ===== src/Scheduler/Dispatch/Priority.antt =====
-- What `HPF_algo` of scheduler/scheduler_functions.c does for the priorities.
use mathlib.Core.Path.{subst}
use mathlib.Core.List.{Perm}
use cpu_scheduler.Base.{
  ◌≡◌, refl, ◌-◌, inl, inr, false, Option, none, some, List, [], ◌∷◌, arith, ℤ, minus_one, ltb_ℤ,
  eqb_ℤ, ◌<ℤ◌, ◌≤ℤ◌, All, Bool-cases, Option-cases,
}
use cpu_scheduler.Types.{Pcb, waiting, stop}
use cpu_scheduler.Queue.{Queue, is_empty, peek, dequeue}
use cpu_scheduler.Queue.Order.{IsOrdered, enqueue_priority-IsOrdered}
use cpu_scheduler.Platform.{Platform}
use cpu_scheduler.Scheduler.State.{Sched, log_data, wait_n_secs}
use cpu_scheduler.Scheduler.Dispatch.{
  self, note_start, note_resume, run_process, dispatch_next, preempt_hpf, hpf_algo,
}

-- No entry of the queue has a lower priority number than the running process.
abbrev pub NoneAbove : Option Pcb → Queue Pcb → Type 0
NoneAbove none q = Unit
NoneAbove (some c) q = All (λ z. c.priority ≤ℤ z.priority) q.items

abbrev pub curr_priority : Option Pcb → Option ℤ
curr_priority none = none
curr_priority (some c) = some c.priority

NoneAbove-of :
    (curr : Option Pcb) (c : Pcb) (q : Queue Pcb)
    → curr_priority curr ≡ some c.priority
    → All (λ z. c.priority ≤ℤ z.priority) q.items
    → NoneAbove curr q
NoneAbove-of none c q e h = tt
NoneAbove-of (some d) c q e h =
    let at : c.priority ≡ d.priority = cc in subst (λ k. All (λ z. k ≤ℤ z.priority) q.items) at h

front_least :
    (c top : Pcb) (rest : List Pcb)
    → c.priority ≤ℤ top.priority
    → All (λ z. top.priority ≤ℤ z.priority) rest
    → All (λ z. c.priority ≤ℤ z.priority) rest
front_least c top [] h hs = tt
front_least c top (z ∷ zs) h hs = (omega arith, front_least c top zs h hs.1)

-- What the algorithm leaves: the queue in order, with nothing above the running process.
abbrev pub Settled : {P : Platform} → Sched P → Type 0
Settled s = IsOrdered self s.ready.items × NoneAbove s.curr s.ready

module _ {P : Platform} where
  -- The PCB of the running process as it goes back to the queue.
  abbrev pub preempted : Pcb → Sched P → Pcb
  preempted c s = record c {
    last_stopped = s.clk;
    remaining_time = s.rt;
    state = waiting;
    l_state = stop;
  }

  preempt-Settled :
      (c : Pcb) (s : Sched P)
      → IsOrdered self s.ready.items
      → Settled (preempt_hpf c s)
        × ((preempt_hpf c s).curr ≡ none)
        × Perm (preempt_hpf c s).ready.items (preempted c s ∷ s.ready.items)
  unfolding preempt_hpf log_data wait_n_secs
  preempt-Settled c s h =
      let (ordered, same) = enqueue_priority-IsOrdered self s.ready (preempted c s) h in
      ((ordered, tt), refl, same)

  -- When the front of the ready queue has a lower priority number than the running process, and
  -- the queue is in order of priority, `HPF_algo` stops the running process: no process runs
  -- behind it, and the queue holds what it held and the stopped process with the time that it has
  -- left.
  pub hpf_algo_preempts :
      (s : Sched P) (c top : Pcb) (rest : List Pcb)
      → s.curr ≡ some c
      → s.ready.items ≡ top ∷ rest
      → top.priority <ℤ c.priority
      → IsOrdered self s.ready.items
      → (hpf_algo s ≡ some (preempt_hpf c s))
        × ((preempt_hpf c s).curr ≡ none)
        × Perm (preempt_hpf c s).ready.items (preempted c s ∷ top ∷ rest)
  unfolding hpf_algo peek
  hpf_algo_preempts s c top rest k e l h =
      let (_, gone, same) = preempt-Settled c s h in
      (
        ground (arith, k, e),
        gone,
        subst (λ q. Perm (preempt_hpf c s).ready.items (preempted c s ∷ q)) e same,
      )

module _ {P : Platform} (forks : (id : ℤ) → eqb_ℤ (P.fork id) minus_one ≡ false) where
  run_process-runs :
      (c : Pcb) (s : Sched P)
      → (s' : Sched P) × (run_process c s ≡ some s')
        × (s'.ready ≡ s.ready)
        × (curr_priority s'.curr ≡ some c.priority)
  unfolding run_process note_start note_resume log_data
  run_process-runs c s = elim (Option-cases (run_process c s)) [
    | inl e ↦ absurd (ground (arith, forks c.id))
    | inr (s', e) ↦ (s', e, ground arith, ground arith)
  ]

  dispatch-Settled :
      (s : Sched P) (c : Pcb) (rest : List Pcb)
      → s.ready.items ≡ c ∷ rest
      → IsOrdered self s.ready.items
      → (s' : Sched P) × (dispatch_next s ≡ some s') × Settled s'
  unfolding dispatch_next dequeue
  dispatch-Settled s c rest e h =
      let left : Queue Pcb = record { items = rest; size = s.ready.size - 1 } in
      let (s', run, ready, curr) = run_process-runs c (record s { ready = left; curr = some c }) in
      let (front, ordered) = (subst (IsOrdered self) e h) in
      (
        s',
        ground (arith, e, run),
        (rw ready ordered, rw ready (NoneAbove-of s'.curr c left curr front)),
      )

  keep-Settled :
      (c top : Pcb) (s : Sched P) (rest : List Pcb)
      → s.ready.items ≡ top ∷ rest
      → s.curr ≡ some c
      → ltb_ℤ top.priority c.priority ≡ false
      → IsOrdered self s.ready.items
      → Settled s
  keep-Settled c top s rest e k l h =
      let (front, _) = subst (IsOrdered self) e h in
      let above : c.priority ≤ℤ top.priority = ground arith in
      (h, rw k (rw e (above, front_least c top rest above front)))

  settle :
      (s : Sched P) (curr : Option Pcb) (items : List Pcb)
      → s.curr ≡ curr
      → s.ready.items ≡ items
      → IsOrdered self s.ready.items
      → (s' : Sched P) × (hpf_algo s ≡ some s') × Settled s'
  unfolding hpf_algo peek is_empty
  settle s none [] k e h = (s, ground (arith, k, e), (h, rw k tt))
  settle s none (c ∷ rest) k e h =
      let (s', run, settled) = dispatch-Settled s c rest e h in
      (s', ground (arith, k, e, run), settled)
  settle s (some c) [] k e h = (s, ground (arith, k, e), (h, rw k (rw e tt)))
  settle s (some c) (top ∷ rest) k e h = elim (Bool-cases (ltb_ℤ top.priority c.priority)) [
    | inl l ↦ (preempt_hpf c s, ground (arith, k, e, l), (preempt-Settled c s h).0)
    | inr l ↦ (s, ground (arith, k, e, l), keep-Settled c top s rest e k l h)
  ]

  -- `HPF_algo` on a queue in order of priority always comes back, given that `fork` succeeds. It
  -- leaves the queue in order, and either no process runs or none that waits has a lower priority
  -- number than the one that runs.
  pub hpf_algo-Settled :
      (s : Sched P)
      → IsOrdered self s.ready.items
      → (s' : Sched P) × (hpf_algo s ≡ some s') × Settled s'
  hpf_algo-Settled s h = settle s s.curr s.ready.items refl refl h
