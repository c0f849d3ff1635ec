-- ===== src/SubScheduler/Published.antt =====
-- What a sub-scheduler of sub-sched/ publishes in the load segment.
use cpu_scheduler.Base.{
  ◌≡◌, refl, sym, ap, ◌∙◌, inl, inr, ◌-◌, Bool, true, false, not, Option, none, some, List, ◌++◌,
  arith, ℤ, pos, ◌+ℤ◌, ltb_ℤ, Option-cases, if◌then◌else◌,
}
use cpu_scheduler.Types.{Pcb, ProcessData}
use cpu_scheduler.Queue.{Queue, total_remaining_time, dequeue}
use cpu_scheduler.Queue.Contents.{sum_remaining, total_remaining_time-sum}
use cpu_scheduler.Platform.{Platform}
use cpu_scheduler.Scheduler.State.{Load}
use cpu_scheduler.Scheduler.Dispatch.{self, note_start}
use cpu_scheduler.SubScheduler.State.{
  Sub, log_data, running_rt, running_remaining_time, write_load, update_load_shm,
}
use cpu_scheduler.SubScheduler.Receiving.{take_in, admit, drain-keeps, receive}
use cpu_scheduler.SubScheduler.Dispatch.{run_process, run_front, fcfs_algo}
use cpu_scheduler.SubScheduler.Stall.{resume_current, end_stall}
use cpu_scheduler.SubScheduler.Loop.{
  Round, exited, crashed, held, went, finish_logic, dispatch, grant, publish, finish_round,
  after_gate, gate, new_tick, at_tick, round,
}

-- The two slots of a CPU, of CPU 1 if true.
abbrev pub slots : Bool → Load → ℤ × ℤ
slots first l = if first then (l.count1, l.total1) else (l.count2, l.total2)

write_load-other :
    (first : Bool) (count total : ℤ) (l : Load)
    → slots (not first) (write_load first count total l) ≡ slots (not first) l
unfolding write_load
write_load-other true count total l = refl
write_load-other false count total l = refl

-- The ticks that the process on the CPU still has to run: what the shared memory says, or 0 where
-- it is negative, and 0 without a process.
abbrev pub left_to_run : Option Pcb → (rt : ℤ) → ℤ
left_to_run none rt = pos 0
left_to_run (some c) rt = if ltb_ℤ rt (pos 0) then pos 0 else rt

slots_written :
    (first : Bool) (count total : ℤ) (l : Load)
    → slots first (write_load first count total l) ≡ (count, total)
unfolding write_load
slots_written true count total l = refl
slots_written false count total l = refl

module _ {P : Platform} where
  -- The slots of this CPU hold the number of its ready processes, and the sum of their remaining
  -- times with what the process on the CPU has left to run.
  abbrev pub Published : Sub P → Type 0
  Published s =
      slots s.first s.load
      ≡ (pos s.ready.size, sum_remaining self s.ready.items +ℤ left_to_run s.curr s.rt)

  -- The same CPU, and the slots of the other one as they were.
  abbrev pub SameOther : Sub P → Sub P → Type 0
  SameOther s s' = (s'.first ≡ s.first) × (slots (not s.first) s'.load ≡ slots (not s.first) s.load)

  abbrev pub RoundPublishes : Sub P → Round P → Type 0
  RoundPublishes s exited = Unit
  RoundPublishes s crashed = Unit
  RoundPublishes s (held s') = SameOther s s'
  RoundPublishes s (went s') = Published s' × SameOther s s'

  abbrev OptionSame : Sub P → Option (Sub P) → Type 0
  OptionSame s none = Unit
  OptionSame s (some s') = SameOther s s'

  running_rt-left_to_run : (s : Sub P) → running_rt s ≡ left_to_run s.curr s.rt
  unfolding running_rt running_remaining_time
  running_rt-left_to_run s = elim (Option-cases s.curr) [
    | inl e ↦ rw e refl
    | inr (c, e) ↦ rw e (ground arith)
  ]

  update-Published : (s : Sub P) → Published (update_load_shm s) × SameOther s (update_load_shm s)
  unfolding update_load_shm
  update-Published s =
      let total = total_remaining_time self s.ready +ℤ running_rt s in
      (
        slots_written s.first (pos s.ready.size) total s.load
            ∙ ap (λ n. (pos s.ready.size, n +ℤ running_rt s))
                (total_remaining_time-sum self s.ready)
            ∙ ap (λ n. (pos s.ready.size, sum_remaining self s.ready.items +ℤ n))
                (running_rt-left_to_run s),
        (refl, write_load-other s.first (pos s.ready.size) total s.load),
      )

  publish-Published : (s : Sub P) → Published (publish s) × SameOther s (publish s)
  unfolding publish
  publish-Published s = update-Published s

  admit-SameOther :
      (s : Sub P) (d : ProcessData) (t : Sub P) → SameOther s t → SameOther s (admit d t)
  unfolding admit take_in
  admit-SameOther s d t h = h

  receive-SameOther : (s : Sub P) → SameOther s (receive s)
  unfolding receive
  receive-SameOther s =
      drain-keeps (SameOther s) admit (admit-SameOther s) (λ left b t h. h) s.inbox s (refl, refl)

  end_stall-SameOther : (s : Sub P) → SameOther s (end_stall s)
  unfolding end_stall resume_current log_data
  end_stall-SameOther s = ground arith

  run_process-SameOther : (c : Pcb) (s : Sub P) → OptionSame s (run_process c s)
  unfolding run_process note_start log_data
  run_process-SameOther c s = ground arith

  SameOther-trans : (r s t : Sub P) → SameOther r s → SameOther s t → SameOther r t
  SameOther-trans r s t h k = (
    k.0 ∙ h.0,
    ap (λ b. slots (not b) t.load) (sym h.0) ∙ k.1 ∙ ap (λ b. slots (not b) s.load) h.0 ∙ h.1,
  )

  Option-trans :
      (s t : Sub P) (o : Option (Sub P)) → SameOther s t → OptionSame t o → OptionSame s o
  Option-trans s t none u h = tt
  Option-trans s t (some r) u h = SameOther-trans s t r u h

  run_front-SameOther : (c : Pcb) (rest : Queue Pcb) (s : Sub P) → OptionSame s (run_front c rest s)
  unfolding run_front
  run_front-SameOther c rest s =
      let total = total_remaining_time self rest +ℤ c.remaining_time in
      let t : Sub P = record s {
        ready = rest;
        curr = some c;
        load = write_load s.first (pos rest.size) total s.load;
      } in
      Option-trans s t (run_process c t)
        (refl, write_load-other s.first (pos rest.size) total s.load) (run_process-SameOther c t)

  fcfs_algo-SameOther : (s : Sub P) → OptionSame s (fcfs_algo s)
  unfolding fcfs_algo
  fcfs_algo-SameOther s = elim (Option-cases (dequeue s.ready)) [
    | inl e ↦ ground arith
    | inr ((c, rest), e) ↦ ground (arith, run_front-SameOther c rest s)
  ]

  dispatch-SameOther : (s : Sub P) → OptionSame s (dispatch s)
  unfolding dispatch
  dispatch-SameOther s = ground (arith, fcfs_algo-SameOther s)

  grant-SameOther : (s : Sub P) → SameOther s (grant s)
  unfolding grant
  grant-SameOther s = ground arith

  Round-trans :
      (s s' : Sub P) (r : Round P) → SameOther s s' → RoundPublishes s' r → RoundPublishes s r
  Round-trans s s' exited u h = tt
  Round-trans s s' crashed u h = tt
  Round-trans s s' (held t) u h = SameOther-trans s s' t u h
  Round-trans s s' (went t) u h = (h.0, SameOther-trans s s' t u h.1)

  finish_round-Published :
      (s : Sub P) (o : Option (Sub P)) → OptionSame s o → RoundPublishes s (finish_round o)
  unfolding finish_round
  finish_round-Published s none h = tt
  finish_round-Published s (some s') h =
      let k = publish-Published (grant s') in
      let g = SameOther-trans s s' (grant s') h (grant-SameOther s') in
      (k.0, SameOther-trans s (grant s') (publish (grant s')) g k.1)

  after_gate-Published :
      (late : List ProcessData) (s : Sub P) → RoundPublishes s (after_gate late s)
  unfolding after_gate
  after_gate-Published late s =
      let s0 : Sub P = record s { last_tick = s.tick_time; inbox = s.inbox ++ late } in
      let s1 = receive s0 in
      let s2 = end_stall s1 in
      let u = SameOther-trans s s1 s2 (receive-SameOther s0) (end_stall-SameOther s1) in
      Round-trans s s2 (finish_round (dispatch s2)) u
        (finish_round-Published s2 (dispatch s2) (dispatch-SameOther s2))

  gate-Published : (late : List ProcessData) (s : Sub P) → RoundPublishes s (gate late s)
  unfolding gate
  gate-Published late s = ground (
    arith,
    after_gate-Published late s,
    after_gate-Published late (record s { permits = s.permits - 1 }),
  )

  finish_logic-SameOther : (c : Pcb) (s : Sub P) → SameOther s (finish_logic c s)
  unfolding finish_logic log_data
  finish_logic-SameOther c s = (refl, refl)

  new_tick-Published : (late : List ProcessData) (s : Sub P) → RoundPublishes s (new_tick late s)
  unfolding new_tick
  new_tick-Published late s = elim (Option-cases s.curr) [
    | inl e ↦ ground (arith, gate-Published late s)
    | inr (c, e) ↦
        let t = finish_logic c s in
        ground (
          arith,
          gate-Published late s,
          Round-trans s t (gate late t) (finish_logic-SameOther c s) (gate-Published late t),
        )
  ]

  at_tick-Published : (late : List ProcessData) (s : Sub P) → RoundPublishes s (at_tick late s)
  unfolding at_tick
  at_tick-Published late s = ground (arith, update-Published s, new_tick-Published late s)

  -- A round that gets to its end, at a new tick or not, has published in the slots of its CPU how
  -- many processes are ready by the counter of the queue, and the sum of their remaining times with
  -- what the shared memory says that the process on the CPU has left, counted as 0 where that is
  -- negative; whatever the round does, and while it waits at the gate, the slots of the other CPU stay.
  pub round-Published : (late : List ProcessData) (s : Sub P) → RoundPublishes s (round late s)
  unfolding round
  round-Published late s =
      let s1 = receive s in
      let s2 : Sub P = record s1 { tick_time = s1.clk } in
      Round-trans s s2 (at_tick late s2) (receive-SameOther s) (at_tick-Published late s2)
