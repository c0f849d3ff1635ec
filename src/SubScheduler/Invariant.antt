-- ===== src/SubScheduler/Invariant.antt =====
-- What every operation of sub-sched/ keeps of its queue and of the process on the CPU.
use cpu_scheduler.Base.{
  ℕ, ◌≡◌, refl, sym, ap, inl, inr, Bool, true, false, ◌+ℤ◌, Option, none, some, List, [], ◌∷◌, ◌++◌,
  arith, pos, minus_one, eqb_ℤ, Bool-cases, Option-cases, All, All-append, if◌then◌else◌, ◌-◌,
}
use cpu_scheduler.Types.{Pcb, ProcessData, waiting, running}
use cpu_scheduler.Queue.{
  Queue, IsCounted, enqueue, dequeue, split_rear, dequeue_rear, total_remaining_time,
}
use cpu_scheduler.Queue.Contents.{queue_ops-IsCounted, length-split_rear}
use cpu_scheduler.Platform.{Platform}
use cpu_scheduler.Scheduler.State.{create_pcb}
use cpu_scheduler.Scheduler.Dispatch.{self, note_start}
use cpu_scheduler.SubScheduler.State.{Sub, log_data, write_load, update_load_shm}
use cpu_scheduler.SubScheduler.Receiving.{take_in, admit, drain, drain-keeps, receive}
use cpu_scheduler.SubScheduler.Dispatch.{run_process, run_front, fcfs_algo}
use cpu_scheduler.SubScheduler.Stall.{
  stop_current, hold_current, stall_sig, resume_current, end_stall,
}
use cpu_scheduler.SubScheduler.Stealing.{pcb_to_process_data, give_up, steal_handler}
use cpu_scheduler.SubScheduler.Loop.{
  Round, exited, crashed, held, went, finish_logic, may_dispatch, dispatch, grant, publish,
  finish_round, after_gate, gate, new_tick, at_tick, round,
}

-- The PCB is as `createPCB` made it: the message made from it makes it again.
abbrev pub IsFresh : Pcb → Type 0
IsFresh c = create_pcb (pcb_to_process_data c (pos 1)) ≡ c

-- The process on the CPU has been forked, and is stopped exactly while the CPU is stalled; a
-- process has finished only if there is one.
abbrev pub CurrFits : Option Pcb → (stalled finished : Bool) → Type 0
CurrFits none b f = f ≡ false
CurrFits (some c) b f =
    (eqb_ℤ c.pid minus_one ≡ false) × (c.state ≡ (if b then waiting else running))

abbrev pub QueueFits : Queue Pcb → Type 0
QueueFits q = IsCounted q × All IsFresh q.items

module _ {P : Platform} where
  abbrev pub Good : Sub P → Type 0
  Good s = QueueFits s.ready × CurrFits s.curr s.stalled s.process_finished

  -- What the result of a round has of its state.
  abbrev pub RoundGood : Round P → Type 0
  RoundGood exited = Unit
  RoundGood crashed = ⊥
  RoundGood (held s) = Good s
  RoundGood (went s) = Good s

  abbrev pub OptionGood : Option (Sub P) → Type 0
  OptionGood none = Unit
  OptionGood (some s) = Good s

create_pcb-IsFresh : (d : ProcessData) → IsFresh (create_pcb d)
unfolding create_pcb pcb_to_process_data
create_pcb-IsFresh d = refl

pub fresh_pid : (c : Pcb) → IsFresh c → c.pid ≡ minus_one
unfolding create_pcb
fresh_pid c h = sym (ap (λ x. x.pid) h)

enqueue-QueueFits : (q : Queue Pcb) (c : Pcb) → QueueFits q → IsFresh c → QueueFits (enqueue q c)
unfolding enqueue
enqueue-QueueFits q c h f =
    ((queue_ops-IsCounted self q c (pos 0) h.0).0, All-append IsFresh q.items (c ∷ []) h.1 (f, tt))

dequeue-QueueFits :
    (q : Queue Pcb) (c : Pcb) (r : Queue Pcb)
    → QueueFits q
    → dequeue q ≡ some (c, r)
    → IsFresh c × QueueFits r
unfolding dequeue
dequeue-QueueFits q c r h e = ground arith

split_rear-All :
    (a : Pcb) (xs : List Pcb)
    → All IsFresh (a ∷ xs)
    → All IsFresh (split_rear a xs).0 × IsFresh (split_rear a xs).1
unfolding split_rear
split_rear-All a [] h = (tt, h.0)
split_rear-All a (b ∷ rest) h = let e = split_rear-All b rest h.1 in ((h.0, e.0), e.1)

rear-QueueFits :
    (xs : List Pcb) (n : ℕ) (c : Pcb) (r : Queue Pcb)
    → QueueFits (record { items = xs; size = n })
    → dequeue_rear (record { items = xs; size = n }) ≡ some (c, r)
    → IsFresh c × QueueFits r
unfolding dequeue_rear
rear-QueueFits [] n c r h e = cc
rear-QueueFits (x ∷ xs) n c r h e = ground (arith, split_rear-All x xs h.1, length-split_rear x xs)

module _ {P : Platform} where
  pub take_in-Good : (d : ProcessData) (s : Sub P) → Good s → Good (take_in d s)
  unfolding take_in
  take_in-Good d s h = (enqueue-QueueFits s.ready (create_pcb d) h.0 (create_pcb-IsFresh d), h.1)

  admit-Good : (d : ProcessData) (s : Sub P) → Good s → Good (admit d s)
  unfolding admit
  admit-Good d s h = take_in-Good d s h

  pub drain-Good :
      (accept : ProcessData → Sub P → Sub P) (s : Sub P)
      → ((d : ProcessData) (t : Sub P) → Good t → Good (accept d t))
      → Good s
      → Good (drain accept s.inbox s)
  drain-Good accept s k h = drain-keeps Good accept k (λ left b t g. g) s.inbox s h

  pub receive-Good : (s : Sub P) → Good s → Good (receive s)
  unfolding receive
  receive-Good s h = drain-Good admit s admit-Good h

  give_up-Good : (s : Sub P) → Good s → Good (give_up s)
  unfolding give_up log_data
  give_up-Good s h = elim (Option-cases (dequeue_rear s.ready)) [
    | inl e ↦ ground arith
    | inr ((c, rest), e) ↦
        let k = rear-QueueFits s.ready.items s.ready.size c rest h.0 e in ground (arith, k)
  ]

  pub steal_handler-Good : (s : Sub P) → Good s → Good (steal_handler s)
  unfolding steal_handler
  steal_handler-Good s h =
      give_up-Good (drain take_in s.inbox s) (drain-Good take_in s take_in-Good h)

  hold_current-Good : (s : Sub P) → Good s → Good (record (hold_current s) { stalled = true })
  unfolding hold_current stop_current log_data
  hold_current-Good s h = ground arith

  pub stall_sig-Good : (s : Sub P) → Good s → Good (stall_sig s)
  unfolding stall_sig
  stall_sig-Good s h =
      receive-Good (record (hold_current s) { stalled = true }) (hold_current-Good s h)

  end_stall-Good : (s : Sub P) → Good s → Good (end_stall s)
  unfolding end_stall resume_current log_data
  end_stall-Good s h = ground arith

  run_process-Good :
      (c : Pcb) (s : Sub P)
      → IsFresh c
      → QueueFits s.ready
      → s.stalled ≡ false
      → OptionGood (run_process c s)
  unfolding run_process note_start log_data
  run_process-Good c s f h n = ground (arith, fresh_pid c f)

  run_front-Good :
      (c : Pcb) (rest : Queue Pcb) (s : Sub P)
      → IsFresh c
      → QueueFits rest
      → s.stalled ≡ false
      → OptionGood (run_front c rest s)
  unfolding run_front
  run_front-Good c rest s f h n =
      run_process-Good c
        (record s {
          ready = rest;
          curr = some c;
          load =
              write_load s.first (pos rest.size)
                (total_remaining_time self rest +ℤ c.remaining_time) s.load;
        })
        f h n

  fcfs_algo-Good : (s : Sub P) → Good s → s.stalled ≡ false → OptionGood (fcfs_algo s)
  unfolding fcfs_algo
  fcfs_algo-Good s h n = elim (Option-cases s.curr) [
    | inr (c, e) ↦ ground arith
    | inl e ↦ elim (Option-cases (dequeue s.ready)) [
      | inl f ↦ ground arith
      | inr ((c, rest), f) ↦
          let k = dequeue-QueueFits s.ready c rest h.0 f in
          ground (arith, run_front-Good c rest s k.0 k.1 n)
    ]
  ]

  finish_logic-Good : (c : Pcb) (s : Sub P) → Good s → Good (finish_logic c s)
  unfolding finish_logic log_data
  finish_logic-Good c s h = (h.0, refl)

  grant-Good : (s : Sub P) → Good s → Good (grant s)
  unfolding grant
  grant-Good s h = ground arith

  update-Good : (s : Sub P) → Good s → Good (update_load_shm s)
  unfolding update_load_shm
  update-Good s h = h

  publish-Good : (s : Sub P) → Good s → Good (publish s)
  unfolding publish
  publish-Good s h = update-Good s h

  dispatch-Good : (s : Sub P) → Good s → OptionGood (dispatch s)
  unfolding dispatch may_dispatch
  dispatch-Good s h = elim (Bool-cases s.stalled) [
    | inl e ↦ ground arith
    | inr e ↦ ground (arith, fcfs_algo-Good s h e)
  ]

  finish_round-Good : (o : Option (Sub P)) → OptionGood o → RoundGood (finish_round o)
  unfolding finish_round
  finish_round-Good none h = tt
  finish_round-Good (some s) h = publish-Good (grant s) (grant-Good s h)

  after_gate-Good : (late : List ProcessData) (s : Sub P) → Good s → RoundGood (after_gate late s)
  unfolding after_gate
  after_gate-Good late s h =
      let s1 = receive (record s { last_tick = s.tick_time; inbox = s.inbox ++ late }) in
      let k = receive-Good (record s { last_tick = s.tick_time; inbox = s.inbox ++ late }) h in
      finish_round-Good (dispatch (end_stall s1))
        (dispatch-Good (end_stall s1) (end_stall-Good s1 k))

  pub gate-Good : (late : List ProcessData) (s : Sub P) → Good s → RoundGood (gate late s)
  unfolding gate
  gate-Good late s h = ground (
    arith,
    after_gate-Good late s h,
    after_gate-Good late (record s { permits = s.permits - 1 }) h,
  )

  new_tick-Good : (late : List ProcessData) (s : Sub P) → Good s → RoundGood (new_tick late s)
  unfolding new_tick
  new_tick-Good late s h = elim (Option-cases s.curr) [
    | inl e ↦ ground (arith, gate-Good late s h)
    | inr (c, e) ↦
        ground
          (arith, gate-Good late s h, gate-Good late (finish_logic c s) (finish_logic-Good c s h))
  ]

  at_tick-Good : (late : List ProcessData) (s : Sub P) → Good s → RoundGood (at_tick late s)
  unfolding at_tick
  at_tick-Good late s h = ground (arith, update-Good s h, new_tick-Good late s h)

  pub round-Good : (late : List ProcessData) (s : Sub P) → Good s → RoundGood (round late s)
  unfolding round
  round-Good late s h =
      let s1 = receive s in at_tick-Good late (record s1 { tick_time = s1.clk }) (receive-Good s h)
