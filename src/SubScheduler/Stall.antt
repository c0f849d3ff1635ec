-- ===== src/SubScheduler/Stall.antt =====
-- `stall_sig` of sub-sched/sub_scheduler.c, and the end of a stall in its loop.
use cpu_scheduler.Base.{
  true, false, ◌&&◌, not, none, some, pos, minus_one, leb_ℤ, eqb_ℤ, ◌+ℤ◌, ◌-ℤ◌, if◌then◌else◌,
}
use cpu_scheduler.Types.{Pcb, stop, resume, waiting, running}
use cpu_scheduler.Platform.{Platform}
use cpu_scheduler.Scheduler.State.{sigstop, sigcont}
use cpu_scheduler.SubScheduler.State.{Sub, emit, log_data, sent}
use cpu_scheduler.SubScheduler.Receiving.{receive}

module _ {P : Platform} where
  unfoldable pub stop_current : Pcb → Sub P → Sub P
  unfolding log_data
  stop_current c s =
      let stopped = record c {
        last_stopped = s.clk;
        state = waiting;
        remaining_time = s.rt;
        l_state = stop;
      } in
      log_data stopped (emit (sent c.pid sigstop) (record s { curr = some stopped }))

  -- The first test of the handler and its body.
  unfoldable pub hold_current : Sub P → Sub P
  unfolding stop_current
  hold_current s = elim s.curr [
    | none ↦ s
    | some c ↦ if not s.stalled && not (eqb_ℤ c.pid minus_one) then stop_current c s else s
  ]

  -- The handler; the clock is read at its start.
  unfoldable pub stall_sig : Sub P → Sub P
  unfolding hold_current receive
  stall_sig s = record (receive (record (hold_current s) { stalled = true })) {
    stall_end_time = s.clk +ℤ pos 3;
  }

  unfoldable pub resume_current : Pcb → Sub P → Sub P
  unfolding log_data
  resume_current c s =
      let resumed = record c {
        waiting_time =
            if leb_ℤ (pos 0) c.last_stopped
            then c.waiting_time +ℤ (s.tick_time -ℤ c.last_stopped)
            else c.waiting_time;
        l_state = resume;
      } in
      record (emit (sent c.pid sigcont) (log_data resumed s)) {
        curr = some (record resumed { state = running });
      }

  unfoldable pub end_stall : Sub P → Sub P
  unfolding resume_current
  end_stall s =
      if s.stalled && leb_ℤ s.stall_end_time s.tick_time
      then (let s1 = record s { stalled = false } in
          elim s.curr [
            | none ↦ s1
            | some c ↦ if not (eqb_ℤ c.pid minus_one) then resume_current c s1 else s1
          ])
      else s
