-- ===== src/SubScheduler/Transfer.antt =====
-- The way of a stolen process from the rear of one CPU's queue in sub-sched/, through the message to
-- the scheduler in scheduler/, to the queue of the other CPU.
use mathlib.Core.Path.{subst}
use cpu_scheduler.Base.{
  ◌≡◌, refl, ap, ◌∙◌, inr, ◌+◌, Bool, true, false, some, List, [], ◌∷◌, ◌++◌, arith, length,
  length-append, All, ℤ, pos, ◌<ℤ◌, lt→ltb_ℤ, if◌then◌else◌,
}
use cpu_scheduler.Types.{Pcb, ProcessData}
use cpu_scheduler.Queue.{Queue, IsCounted, enqueue, dequeue_rear}
use cpu_scheduler.Queue.Contents.{dequeue_rear-append}
use cpu_scheduler.Platform.{Platform}
use cpu_scheduler.Scheduler.State.{Sched, create_pcb, wait_n_secs}
use cpu_scheduler.Scheduler.Routing.{as_message}
use cpu_scheduler.Scheduler.Stealing.{imbalance, move_process, check_threshold}
use cpu_scheduler.Scheduler.Stealing.Conservation.{busier_first, check_threshold-idle}
use cpu_scheduler.SubScheduler.State.{Sub, log_data}
use cpu_scheduler.SubScheduler.Receiving.{take_in, admit, drain, drain-keeps}
use cpu_scheduler.SubScheduler.Stealing.{
  pcb_to_process_data, nothing_to_steal, give_up, steal_handler,
}
use cpu_scheduler.SubScheduler.Invariant.{IsFresh, Good, drain-Good, take_in-Good}

rear_at :
    (q : Queue Pcb) (front : List Pcb) (c : Pcb)
    → IsCounted q
    → q.items ≡ front ++ c ∷ []
    → dequeue_rear q ≡ some (c, record { items = front; size = length front })
rear_at q front c h e =
    let n : q.size ≡ length front + 1 = h ∙ ap length e ∙ length-append front (c ∷ []) in
    rw (e, n) (dequeue_rear-append front (length front) c).0

last-IsFresh : (front : List Pcb) (c : Pcb) → All IsFresh (front ++ c ∷ []) → IsFresh c
last-IsFresh [] c h = h.0
last-IsFresh (x ∷ xs) c h = last-IsFresh xs c h.1

module _ {P : Platform} where
  -- The messages that the scheduler has sent to the CPU other than the busier one.
  abbrev pub sent_to_other : (first : Bool) → Sched P → List ProcessData
  sent_to_other first s = if first then s.sub2 else s.sub1

  -- What the steal handler has taken in when it looks at its queue.
  abbrev pub taken_in : Sub P → Sub P
  taken_in s = drain take_in s.inbox s

  give_up-some :
      (s : Sub P) (front : List Pcb) (c : Pcb)
      → IsCounted s.ready
      → s.ready.items ≡ front ++ c ∷ []
      → ((give_up s).ready.items ≡ front)
        × ((give_up s).responses ≡ s.responses ++ pcb_to_process_data c (pos 11) ∷ [])
  unfolding give_up log_data
  give_up-some s front c h e = ground (arith, rear_at s.ready front c h e)

  give_up-none :
      (s : Sub P)
      → s.ready.items ≡ []
      → ((give_up s).ready.items ≡ [])
        × ((give_up s).responses ≡ s.responses ++ nothing_to_steal ∷ [])
  unfolding give_up dequeue_rear
  give_up-none s e = ground arith

  take_in-responses : (d : ProcessData) (s : Sub P) → (take_in d s).responses ≡ s.responses
  unfolding take_in
  take_in-responses d s = refl

  check_threshold-sends :
      (m n : ℤ) (c : Pcb) (k : Sched P) (first : Bool)
      → m <ℤ imbalance k.load
      → busier_first k.load ≡ first
      → sent_to_other first (check_threshold m n (some (pcb_to_process_data c (pos 11))) k)
        ≡ sent_to_other first k ++ as_message (pcb_to_process_data c (pos 11)) (pos 1) ∷ []
  unfolding check_threshold pcb_to_process_data move_process wait_n_secs
  check_threshold-sends m n c k true l e = rw (lt→ltb_ℤ m (imbalance k.load) l, e) refl
  check_threshold-sends m n c k false l e = rw (lt→ltb_ℤ m (imbalance k.load) l, e) refl

  arrives :
      (c : Pcb) (t : Sub P)
      → IsFresh c
      → (drain admit (as_message (pcb_to_process_data c (pos 11)) (pos 1) ∷ []) t).ready.items
        ≡ t.ready.items ++ c ∷ []
  unfolding drain admit take_in enqueue as_message create_pcb pcb_to_process_data
  arrives c t f = ap (λ x. t.ready.items ++ x ∷ []) f

  taken_in-responses : (s : Sub P) → (taken_in s).responses ≡ s.responses
  taken_in-responses s =
      drain-keeps (λ t. t.responses ≡ s.responses) take_in (λ d t h. take_in-responses d t ∙ h)
        (λ left b t h. h) s.inbox s refl

  -- When the imbalance is over the threshold and the busier CPU, with the messages that wait for it,
  -- has a process c at the rear of its queue, the steal handler takes c alone off the queue and
  -- answers with its message; the scheduler sends that message on to the other CPU, and there it
  -- adds exactly c to the rear of the queue.
  pub steal_handler-transfers :
      (m n : ℤ) (k : Sched P) (s t : Sub P) (front : List Pcb) (c : Pcb)
      → Good s
      → (taken_in s).ready.items ≡ front ++ c ∷ []
      → m <ℤ imbalance k.load
      → let first = busier_first k.load in
        let d = pcb_to_process_data c (pos 11) in
        let k' = check_threshold m n (some d) k in
        ((steal_handler s).ready.items ≡ front)
        × ((steal_handler s).responses ≡ s.responses ++ d ∷ [])
        × (sent_to_other first k' ≡ sent_to_other first k ++ as_message d (pos 1) ∷ [])
        × ((drain admit (as_message d (pos 1) ∷ []) t).ready.items ≡ t.ready.items ++ c ∷ [])
  unfolding steal_handler
  steal_handler-transfers m n k s t front c g e l =
      let h = drain-Good take_in s take_in-Good g in
      let u = give_up-some (taken_in s) front c h.0.0 e in
      (
        u.0,
        u.1 ∙ ap (λ r. r ++ pcb_to_process_data c (pos 11) ∷ []) (taken_in-responses s),
        check_threshold-sends m n c k (busier_first k.load) l refl,
        arrives c t (last-IsFresh front c (subst (All IsFresh) e h.0.1)),
      )

  -- With no process in its queue and none waiting for it, a CPU answers that nothing can be stolen,
  -- and on that answer the scheduler leaves the load as it is and sends no message to either CPU.
  pub steal_handler_refuses :
      (m n : ℤ) (k : Sched P) (s : Sub P)
      → (taken_in s).ready.items ≡ []
      → let k' = check_threshold m n (some nothing_to_steal) k in
        ((steal_handler s).ready.items ≡ [])
        × ((steal_handler s).responses ≡ s.responses ++ nothing_to_steal ∷ [])
        × (k'.load ≡ k.load)
        × (k'.sub1 ≡ k.sub1)
        × (k'.sub2 ≡ k.sub2)
  unfolding steal_handler
  steal_handler_refuses m n k s e =
      let i = check_threshold-idle m n (some nothing_to_steal) k (inr refl) in
      let u = give_up-none (taken_in s) e in
      (u.0, u.1 ∙ ap (λ r. r ++ nothing_to_steal ∷ []) (taken_in-responses s), i.0, i.1, i.2)
