-- ===== src/Scheduler/Routing.antt =====
-- `pcb_to_processData`, `send_process_msg`, `select_cpu` and the distribution of `FCFS_algo` in
-- scheduler/scheduler_functions.c. `msgsnd` succeeds.
pub mod Balance
use cpu_scheduler.Base.{Bool, true, false, List, [], ◌∷◌, ◌++◌, ℤ, pos, leb_ℤ, ◌+ℤ◌, if◌then◌else◌}
use cpu_scheduler.Types.{Pcb, ProcessData}
use cpu_scheduler.Queue.{create_queue, is_empty}
use cpu_scheduler.Platform.{Platform}
use cpu_scheduler.Scheduler.State.{Sched, Load}

-- The source leaves `base` and `limit` unset; no program on this path reads them.
unfoldable pub pcb_to_process_data : Pcb → ProcessData
pcb_to_process_data c = record {
  mtype = pos 11;
  id = c.id;
  arrival = c.arrival;
  runtime = c.runtime;
  priority = c.priority;
  base = pos 0;
  limit = pos 0;
}

-- The message that `send_process_msg` sends: the type is set anew.
unfoldable pub as_message : ProcessData → ℤ → ProcessData
as_message d mtype = record d { mtype = mtype }

-- `select_cpu`, for the load as it is read: true for CPU 1.
unfoldable pub selects_first : Load → Bool
selects_first l = leb_ℤ l.count1 l.count2

-- What the loop of `FCFS_algo` carries: the projected load and the messages sent so far.
pub record Routes : Type 0 where
  pub load : Load
  pub sub1 : List ProcessData
  pub sub2 : List ProcessData

-- The body of the loop for one process.
unfoldable pub route : Pcb → Routes → Routes
route c w =
    let d = as_message (pcb_to_process_data c) (pos 1) in
    if selects_first w.load
    then record {
      load = record (w.load) {
        count1 = w.load.count1 +ℤ pos 1;
        total1 = w.load.total1 +ℤ d.runtime;
      };
      sub1 = w.sub1 ++ d ∷ [];
      sub2 = w.sub2;
    }
    else record {
      load = record (w.load) {
        count2 = w.load.count2 +ℤ pos 1;
        total2 = w.load.total2 +ℤ d.runtime;
      };
      sub1 = w.sub1;
      sub2 = w.sub2 ++ d ∷ [];
    }

-- The loop over the ready queue, from its front.
unfoldable pub route_all : List Pcb → Routes → Routes
unfolding route
route_all [] w = w
route_all (c ∷ rest) w = route_all rest (route c w)

module _ {P : Platform} where
  unfoldable pub route_ready : Sched P → Sched P
  unfolding route_all create_queue is_empty
  route_ready s =
      let w = route_all s.ready.items (record { load = s.load; sub1 = s.sub1; sub2 = s.sub2 }) in
      if is_empty s.ready
      then s
      else record s { ready = create_queue; load = w.load; sub1 = w.sub1; sub2 = w.sub2 }
