-- ===== src/RoundRobin/Lifecycle.antt =====
-- `createPCB`, `receiveProcesses` and `handleFinishedProcesses` of
-- rr_scheduler/rr_scheduler_functions.c.
pub mod Receive
use cpu_scheduler.Base.{
  false, Option, none, some, List, [], ◌∷◌, ℤ, pos, minus_one, leb_ℤ, eqb_ℤ, suc, ◌+ℤ◌,
  if◌then◌else◌,
}
use cpu_scheduler.Types.{Pcb, PcbPtr, ProcessData, start, finish, waiting, finished}
use cpu_scheduler.Queue.{enqueue, dequeue_by_id}
use cpu_scheduler.Run.{ok, fault, Cmd, ◌>>=◌, ◌>>◌, gets, modify, when}
use cpu_scheduler.Memory.State.{load, update_pcb, set_pcb}
use cpu_scheduler.Memory.Release.{free_page_table}
use cpu_scheduler.Platform.{Platform}
use cpu_scheduler.Perf.{account, note_arrival}
use cpu_scheduler.RoundRobin.State.{
  Rr, in_memory, load_pcb, change_pcb, get_clk, set_curr, count_quantum, log_data, all_live, pcb_at,
}

-- The source leaves `lState` unset here, and writes it before it reads it.
unfoldable pub create_pcb : ProcessData → Pcb
create_pcb d = record {
  id = d.id;
  arrival = d.arrival;
  runtime = d.runtime;
  priority = d.priority;
  start_time = minus_one;
  finish_time = minus_one;
  last_stopped = minus_one;
  remaining_time = d.runtime;
  waiting_time = pos 0;
  state = waiting;
  l_state = start;
  pid = minus_one;
  limit = d.limit;
  base = d.base;
  frame_index = minus_one;
  unblock_at = minus_one;
  pending_page = minus_one;
  pending_frame = minus_one;
}

module _ {P : Platform} where
  -- A message of type 1: the new PCB joins the ready queue and the list of all PCBs.
  unfoldable pub admit : ProcessData → Rr P → Rr P
  unfolding create_pcb note_arrival enqueue set_pcb
  admit d s =
      let p = s.next_ptr in
      record s {
        next_ptr = suc p;
        perf = note_arrival P s.perf d.arrival;
        ready = enqueue s.ready p;
        mem = record (s.mem) {
          pcbs = set_pcb s.mem.pcbs p (some (create_pcb d));
          all = enqueue s.mem.all p;
        };
      }

  -- The messages of type at most 5, in the order in which `msgrcv` delivers them, up to the one
  -- that ends the loop: what is left of them, or none if the call still blocks.
  unfoldable pub receive_loop : ℤ → List ProcessData → Rr P → Option (List ProcessData) × Rr P
  unfolding admit
  receive_loop now [] s = (none, s)
  receive_loop now (d ∷ rest) s =
      let on = receive_loop now rest s in
      let admitted = receive_loop now rest (admit d s) in
      if eqb_ℤ d.mtype (pos 1)
      then admitted
      else if eqb_ℤ d.mtype (pos 2)
      then (if leb_ℤ now d.arrival
          then (some rest, record s { last_received_sync = d.arrival })
          else on)
      else if eqb_ℤ d.mtype (pos 5)
      then (some rest, record s { receiving = false })
      else on

  unfoldable pub receive_processes : List ProcessData → Cmd (Rr P) (Option (List ProcessData))
  unfolding receive_loop
  receive_processes inbox s = let (left, s') = receive_loop s.mem.clk inbox s in ok left s'

  -- `dequeue_by_id(currentPCBs, id)`, whose result is not used.
  unfoldable pub forget : ℤ → Cmd (Rr P) (Unit {0})
  unfolding dequeue_by_id
  forget id s =
      if all_live s.mem s.mem.all.items
      then (elim (dequeue_by_id (pcb_at s.mem) s.mem.all id) [
        | none ↦ ok tt s
        | some (_, rest) ↦ ok tt (record s { mem = record (s.mem) { all = rest } })
      ])
      else fault

  -- `free(currProcess)`
  unfoldable pub free_pcb : PcbPtr → Cmd (Rr P) (Unit {0})
  unfolding set_pcb
  free_pcb p = modify (λ s. record s { mem = record (s.mem) { pcbs = set_pcb s.mem.pcbs p none } })

  -- The current process has ended: what is written to its PCB and to the log.
  unfoldable pub mark_finished : PcbPtr → Cmd (Rr P) (Unit {0})
  unfolding load update_pcb log_data
  mark_finished p = do
    now ← get_clk
    rt ← gets (λ s. s.rt)
    modify (λ s. record s { finished_signal = false; context_switch_until = now +ℤ pos 1 })
    count_quantum
    change_pcb p (λ c. record c {
      finish_time = now;
      remaining_time = rt;
      state = finished;
      l_state = finish;
    })
    log_data p

  unfoldable pub finish_current : PcbPtr → Cmd (Rr P) (Unit {0})
  unfolding mark_finished load account forget free_page_table free_pcb
  finish_current p = do
    mark_finished p
    c ← load_pcb p
    modify (λ s. record s { perf = account P s.perf c })
    forget c.id
    in_memory (free_page_table p)
    free_pcb p
    set_curr none
    modify (λ s. record s { next_preemption_time = minus_one })

  unfoldable pub handle_finished_processes : Cmd (Rr P) (Unit {0})
  unfolding finish_current
  handle_finished_processes s = elim s.mem.curr [
    | none ↦ ok tt s
    | some p ↦ when s.finished_signal (finish_current p) s
  ]
