-- ===== src/Scheduler/Loop.antt =====
-- The main loop of scheduler/scheduler.c.
use cpu_scheduler.Base.{
  Bool, true, false, ◌&&◌, ◌||◌, not, Option, none, some, List, [], ◌∷◌, ◌++◌, ℤ, pos, minus_one,
  leb_ℤ, ltb_ℤ, eqb_ℤ, ◌+ℤ◌, if◌then◌else◌,
}
use cpu_scheduler.Types.{Pcb, ProcessData, finish, finished}
use cpu_scheduler.Queue.{is_empty, enqueue, enqueue_priority}
use cpu_scheduler.Platform.{Platform}
use cpu_scheduler.Perf.{account, note_arrival}
use cpu_scheduler.Scheduler.State.{Sched, create_pcb, log_data}
use cpu_scheduler.Scheduler.Dispatch.{self, rr_algo, hpf_algo}
use cpu_scheduler.Scheduler.Stealing.{fcfs_algo}

-- The argument `type` of the program: 1, 2, 3, or another number.
pub data Algorithm : Type 0 where
  round_robin highest_priority first_come unknown : Algorithm

abbrev is_first_come : Algorithm → Bool
is_first_come first_come = true
is_first_come _ = false

abbrev is_priority : Algorithm → Bool
is_priority highest_priority = true
is_priority _ = false

-- What a tick ends in: `exit`, a call that still blocks, or the state and the messages left.
pub data TickResult (P : Platform) : Type 0 where
  exited : TickResult P
  blocks : Sched P → TickResult P
  ticked : Sched P → List ProcessData → TickResult P

-- `term_msg`, as it arrives: all fields zero but the type.
abbrev pub term_msg : ProcessData
term_msg = record {
  mtype = pos 5;
  id = pos 0;
  arrival = pos 0;
  runtime = pos 0;
  priority = pos 0;
  base = pos 0;
  limit = pos 0;
}

module _ {P : Platform} where
  -- The finish handler at the head of the loop.
  unfoldable pub finish_current : Pcb → Sched P → Sched P
  unfolding log_data account
  finish_current c s =
      let ended = record c {
        finish_time = s.clk;
        remaining_time = s.rt;
        state = finished;
        l_state = finish;
      } in
      let s1 =
        log_data ended
          (record s { finished_signal = false; context_switch_until = s.clk +ℤ pos 1 }) in
      record s1 { perf = account P s1.perf ended; curr = none; next_preemption_time = minus_one }

  unfoldable pub handle_finished : Sched P → Sched P
  unfolding finish_current
  handle_finished s = elim s.curr [
    | none ↦ s
    | some c ↦ if s.finished_signal then finish_current c s else s
  ]

  -- A message of type 1.
  unfoldable pub admit : Algorithm → ProcessData → Sched P → Sched P
  unfolding create_pcb note_arrival enqueue enqueue_priority
  admit type d s =
      let c = create_pcb d in
      record s {
        perf = note_arrival P s.perf c.arrival;
        ready = if is_priority type then enqueue_priority self s.ready c else enqueue s.ready c;
      }

  -- The messages of type at most 5, in the order in which `msgrcv` delivers them, up to the one
  -- that ends the loop: what is left of them, or none if the call still blocks.
  unfoldable pub receive_loop :
      Algorithm → ℤ → List ProcessData → Sched P → Option (List ProcessData) × Sched P
  unfolding admit
  receive_loop type now [] s = (none, s)
  receive_loop type now (d ∷ rest) s =
      let on = receive_loop type now rest s in
      let admitted = receive_loop type now rest (admit type d s) in
      if eqb_ℤ d.mtype (pos 1)
      then admitted
      else if eqb_ℤ d.mtype (pos 2)
      then (if leb_ℤ now d.arrival then (some rest, s) else on)
      else if eqb_ℤ d.mtype (pos 5)
      then (some rest, record s { receiving = false })
      else on

  -- The algorithm of this tick, with its parameters and the reply to a theft.
  unfoldable pub run_algorithm :
      Algorithm → (quantum n m : ℤ) → Option ProcessData → Sched P → Option (Sched P)
  unfolding rr_algo hpf_algo fcfs_algo
  run_algorithm round_robin q n m reply s = rr_algo q s
  run_algorithm highest_priority q n m reply s = hpf_algo s
  run_algorithm first_come q n m reply s = fcfs_algo n m reply s
  run_algorithm unknown q n m reply s = some s

  -- One tick of execution for the running process.
  unfoldable pub grant_tick : Sched P → Sched P
  grant_tick s =
      if s.process_stopped
      then record s { process_stopped = false }
      else (elim s.curr [ none ↦ s | some _ ↦ record s { sem = 1 } ])

  -- The messages of type 6 from the sub-schedulers, and the gate shut for the tick.
  unfoldable pub begin_tick : Algorithm → (acks : ℤ) → Sched P → Sched P
  begin_tick type acks s =
      if is_first_come type
      then record s {
        subs_terminated = s.subs_terminated +ℤ acks;
        permits = if s.sub_cpu_created then 0 else s.permits;
      }
      else s

  -- The end of the body: the load is read, and the sub-schedulers hear once of the end.
  unfoldable pub end_tick : Sched P → Sched P
  end_tick s =
      if s.sub_cpu_created
      then (let s1 = record s { wait_sub = s.load.total1 +ℤ s.load.total2 } in
          if not s1.receiving && not s1.term_sent
          then record s1 {
            sub1 = s1.sub1 ++ term_msg ∷ [];
            sub2 = s1.sub2 ++ term_msg ∷ [];
            term_sent = true;
          }
          else s1)
      else s

  -- The test of the loop.
  unfoldable pub goes_on : Algorithm → Sched P → Bool
  unfolding is_empty
  goes_on type s =
      not (is_empty s.ready)
      || s.receiving
      || (elim s.curr [ none ↦ false | some _ ↦ true ])
      || not (eqb_ℤ s.wait_sub (pos 0))
      || (is_first_come type && ltb_ℤ s.subs_terminated (pos 2))

  -- The algorithm and the grant, for the messages that are left.
  unfoldable pub after_receive :
      Algorithm
      → (quantum n m now : ℤ) → Option ProcessData
      → List ProcessData
      → Sched P
      → TickResult P
  unfolding run_algorithm grant_tick end_tick
  after_receive type q n m now reply left s =
      elim (if ltb_ℤ (pos 0) now then run_algorithm type q n m reply s else some s) [
        | none ↦ exited
        | some s' ↦ ticked (end_tick (grant_tick s')) left
      ]

  unfoldable pub schedule :
      Algorithm
      → (quantum n m now : ℤ) → Option ProcessData
      → List ProcessData
      → Sched P
      → TickResult P
  unfolding receive_loop after_receive
  schedule type q n m now reply inbox s =
      let s1 = record s { context_switch_until = minus_one } in
      if s1.receiving
      then (let (rest, s2) = receive_loop type now inbox s1 in
          elim rest [ none ↦ blocks s2 | some left ↦ after_receive type q n m now reply left s2 ])
      else after_receive type q n m now reply inbox s1

  -- The body of the loop at a new tick, for the number of acknowledgements, the reply to a theft
  -- and the messages that arrive in it.
  unfoldable pub tick :
      Algorithm
      → (quantum n m acks : ℤ) → Option ProcessData
      → List ProcessData
      → Sched P
      → TickResult P
  unfolding begin_tick handle_finished schedule end_tick
  tick type q n m acks reply inbox s =
      let s1 = handle_finished (begin_tick type acks s) in
      if eqb_ℤ s1.context_switch_until minus_one || leb_ℤ s1.context_switch_until s1.clk
      then schedule type q n m s1.clk reply inbox s1
      else ticked (end_tick s1) inbox
