-- ===== src/SubScheduler/Loop.antt =====
-- The main loop of sub-sched/sub_scheduler.c with `finishLogic`.
use cpu_scheduler.Base.{
  ◌-◌, ◌==◌, Bool, true, false, ◌&&◌, ◌||◌, not, Option, none, some, List, ◌++◌, pos, minus_one,
  leb_ℤ, ltb_ℤ, eqb_ℤ, ◌+ℤ◌, [], ◌∷◌, if◌then◌else◌,
}
use cpu_scheduler.Types.{Pcb, ProcessData, finish, finished}
use cpu_scheduler.Queue.{is_empty}
use cpu_scheduler.Platform.{Platform}
use cpu_scheduler.Perf.{account}
use cpu_scheduler.SubScheduler.State.{Sub, log_data, update_load_shm, other_total}
use cpu_scheduler.SubScheduler.Receiving.{receive}
use cpu_scheduler.SubScheduler.Dispatch.{fcfs_algo}
use cpu_scheduler.SubScheduler.Stall.{end_stall}

-- What a round of the loop ends in: `exit`, the null pointer that `finishLogic` reads when no
-- process is there, the wait at the threshold gate, or the next test of the loop.
pub data Round (P : Platform) : Type 0 where
  exited : Round P
  crashed : Round P
  held : Sub P → Round P
  went : Sub P → Round P

-- `ack`, all fields zero but the type.
abbrev pub ack : ProcessData
ack = record {
  mtype = pos 6;
  id = pos 0;
  arrival = pos 0;
  runtime = pos 0;
  priority = pos 0;
  base = pos 0;
  limit = pos 0;
}

module _ {P : Platform} where
  abbrev pub is_idle : Sub P → Bool
  is_idle s = elim s.curr [ none ↦ true | some _ ↦ false ]

  -- `finishLogic`, for the process that finished.
  unfoldable pub finish_logic : Pcb → Sub P → Sub P
  unfolding log_data account
  finish_logic c s =
      let ended = record c {
        finish_time = s.tick_time;
        remaining_time = pos 0;
        state = finished;
        l_state = finish;
      } in
      let s1 = log_data ended (record s { context_switch_until = s.tick_time +ℤ pos 1 }) in
      record s1 { perf = account P s1.perf ended; curr = none; process_finished = false }

  -- `onProcessFinished`, the handler of the signal with which a child ends.
  unfoldable pub on_process_finished : Sub P → Sub P
  on_process_finished s = record s { process_finished = true }

  -- The test before a dispatch.
  unfoldable pub may_dispatch : Sub P → Bool
  unfolding is_empty
  may_dispatch s =
      is_idle s
      && not (is_empty s.ready)
      && not s.stalled
      && (eqb_ℤ s.context_switch_until minus_one || leb_ℤ s.context_switch_until s.tick_time)
      && ltb_ℤ (pos 0) s.tick_time

  unfoldable pub dispatch : Sub P → Option (Sub P)
  unfolding may_dispatch fcfs_algo
  dispatch s =
      if may_dispatch s
      then (elim (fcfs_algo s) [
        | none ↦ none
        | some s1 ↦ some (record s1 { context_switch_until = minus_one })
      ])
      else some s

  unfoldable pub grant : Sub P → Sub P
  grant s = if not (is_idle s) && not s.stalled then record s { sem = 1 } else s

  -- The end of a round: the load is published, and that of the other CPU read.
  unfoldable pub publish : Sub P → Sub P
  unfolding update_load_shm other_total
  publish s =
      let s1 = update_load_shm s in record s1 { remaining_processes = other_total s1.first s1.load }

  -- The lines behind the dispatch.
  unfoldable pub finish_round : Option (Sub P) → Round P
  unfolding grant publish
  finish_round none = exited
  finish_round (some s) = went (publish (grant s))

  -- The rest of the round behind the gate; `late` are the messages that came in the meantime.
  unfoldable pub after_gate : List ProcessData → Sub P → Round P
  unfolding receive end_stall dispatch finish_round
  after_gate late s =
      let s1 = receive (record s { last_tick = s.tick_time; inbox = s.inbox ++ late }) in
      finish_round (dispatch (end_stall s1))

  -- The threshold gate, where one permit is taken.
  unfoldable pub gate : List ProcessData → Sub P → Round P
  unfolding after_gate
  gate late s =
      if ltb_ℤ (pos 0) s.tick_time
      then (if s.permits == 0
          then held s
          else after_gate late (record s { permits = s.permits - 1 }))
      else after_gate late s

  unfoldable pub new_tick : List ProcessData → Sub P → Round P
  unfolding finish_logic gate
  new_tick late s =
      if s.process_finished
      then (elim s.curr [ none ↦ crashed | some c ↦ gate late (finish_logic c s) ])
      else gate late s

  -- The rest of the round behind the reading of the clock.
  unfoldable pub at_tick : List ProcessData → Sub P → Round P
  unfolding update_load_shm new_tick
  at_tick late s =
      if eqb_ℤ s.tick_time s.last_tick then went (update_load_shm s) else new_tick late s

  -- The body of the loop.
  unfoldable pub round : List ProcessData → Sub P → Round P
  unfolding receive at_tick
  round late s = let s1 = receive s in at_tick late (record s1 { tick_time = s1.clk })

  -- The test of the loop.
  unfoldable pub goes_on : Sub P → Bool
  unfolding is_empty
  goes_on s =
      not (is_empty s.ready)
      || s.receiving
      || not (is_idle s)
      || not (eqb_ℤ s.remaining_processes (pos 0))

  -- What follows the loop, up to the message to the scheduler.
  unfoldable pub finish_up : Sub P → Sub P
  unfolding update_load_shm
  finish_up s = let s1 = update_load_shm s in record s1 { responses = s1.responses ++ ack ∷ [] }
