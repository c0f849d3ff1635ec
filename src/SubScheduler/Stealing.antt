-- ===== src/SubScheduler/Stealing.antt =====
-- `steal_handler` of sub-sched/sub_scheduler.c. `msgsnd` succeeds.
use cpu_scheduler.Base.{none, some, [], ◌∷◌, ◌++◌, ℤ, pos}
use cpu_scheduler.Types.{Pcb, ProcessData, stolen}
use cpu_scheduler.Queue.{dequeue_rear}
use cpu_scheduler.Platform.{Platform}
use cpu_scheduler.SubScheduler.State.{Sub, log_data}
use cpu_scheduler.SubScheduler.Receiving.{drain, take_in}

-- The source leaves `base` and `limit` unset; no program on this path reads them.
unfoldable pub pcb_to_process_data : Pcb → ℤ → ProcessData
pcb_to_process_data c mtype = record {
  mtype = mtype;
  id = c.id;
  arrival = c.arrival;
  runtime = c.runtime;
  priority = c.priority;
  base = pos 0;
  limit = pos 0;
}

-- The answer when nothing can be stolen: all fields zero but the type.
abbrev pub nothing_to_steal : ProcessData
nothing_to_steal = record {
  mtype = pos 12;
  id = pos 0;
  arrival = pos 0;
  runtime = pos 0;
  priority = pos 0;
  base = pos 0;
  limit = pos 0;
}

module _ {P : Platform} where
  abbrev respond : ProcessData → Sub P → Sub P
  respond d s = record s { responses = s.responses ++ d ∷ [] }

  -- The rear of the ready queue goes back to the scheduler.
  unfoldable pub give_up : Sub P → Sub P
  unfolding dequeue_rear log_data pcb_to_process_data
  give_up s = elim (dequeue_rear s.ready) [
    | none ↦ respond nothing_to_steal s
    | some (c, rest) ↦
        let s1 = log_data (record c { l_state = stolen }) (record s { ready = rest }) in
        respond (pcb_to_process_data c (pos 11)) s1
  ]

  unfoldable pub steal_handler : Sub P → Sub P
  unfolding drain take_in give_up
  steal_handler s = give_up (drain take_in s.inbox s)
