-- ===== src/RoundRobin/Blocking.antt =====
-- `checkBlockEnd` of rr_scheduler/rr_scheduler_functions.c.
pub mod Wake
pub mod BlockEnd
use cpu_scheduler.Base.{
  ◌&&◌, not, Option, none, some, List, [], ◌∷◌, ℤ, minus_one, leb_ℤ, eqb_ℤ, ◌+ℤ◌, if◌then◌else◌,
}
use cpu_scheduler.Types.{PcbPtr, waiting}
use cpu_scheduler.Queue.{enqueue, dequeue_by_id}
use cpu_scheduler.Run.{Cmd, ◌>>=◌, ◌>>◌, done, gets, modify, when, ok, fault}
use cpu_scheduler.Memory.State.{load, update_pcb, put_log, loaded}
use cpu_scheduler.Memory.Release.{free_reserved}
use cpu_scheduler.Platform.{Platform}
use cpu_scheduler.RoundRobin.State.{Rr, in_memory, load_pcb, change_pcb, get_clk, all_live, pcb_at}

module _ {P : Platform} where
  -- A PCB that comes off the block queue: its pending page is logged and its frame unreserved.
  unfoldable pub unblock : PcbPtr → Cmd (Rr P) (Unit {0})
  unfolding load update_pcb free_reserved enqueue
  unblock p = do
    c ← load_pcb p
    now ← get_clk
    when (not (eqb_ℤ c.pending_page minus_one) && not (eqb_ℤ c.pending_frame minus_one)) (do
      in_memory (put_log (loaded now (c.base +ℤ c.pending_page) c.id c.pending_frame))
      in_memory (free_reserved c.pending_frame)
      change_pcb p (λ c. record c { pending_page = minus_one; pending_frame = minus_one }))
    change_pcb p (λ c. record c { state = waiting })
    modify (λ s. record s { ready = enqueue s.ready p })

  -- `dequeue_by_id` on the block queue; no pointer that it may follow dangles.
  unfoldable pub take_blocked : ℤ → Cmd (Rr P) (Option PcbPtr)
  unfolding dequeue_by_id
  take_blocked id s =
      if all_live s.mem s.block.items
      then (elim (dequeue_by_id (pcb_at s.mem) s.block id) [
        | none ↦ ok none s
        | some (p, rest) ↦ ok (some p) (record s { block = rest })
      ])
      else fault

  -- The body of the loop at one node.
  unfoldable pub check_node : PcbPtr → Cmd (Rr P) (Unit {0})
  unfolding load take_blocked unblock
  check_node p = do
    c ← load_pcb p
    now ← get_clk
    when (leb_ℤ c.unblock_at now)
        (do taken ← take_blocked c.id; elim taken [ none ↦ done | some q ↦ unblock q ])

  -- The nodes that the queue has when the loop begins: each is visited once, since a node that
  -- leaves the queue does so after its successor has been read.
  unfoldable pub check_nodes : List PcbPtr → Cmd (Rr P) (Unit {0})
  unfolding check_node
  check_nodes [] = done
  check_nodes (p ∷ ps) = check_node p >> check_nodes ps

  unfoldable pub check_block_end : Cmd (Rr P) (Unit {0})
  unfolding check_nodes
  check_block_end = do nodes ← gets (λ s. s.block.items); check_nodes nodes
