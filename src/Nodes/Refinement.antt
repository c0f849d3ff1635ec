-- ===== src/Nodes/Refinement.antt =====
-- That the linked queues of data_structures/PCB/Sch_PCB.c implement the queues of lists.
use cpu_scheduler.Base.{ℤ, ℕ, ◌≡◌, none, List}
use cpu_scheduler.Types.{Pcb}
use cpu_scheduler.Run.{ok}
use cpu_scheduler.Queue.{
  Queue, enqueue, dequeue, dequeue_rear, peek, enqueue_priority, dequeue_by_id,
}
use cpu_scheduler.Nodes.{
  Linked, enqueue_node, dequeue_node, dequeue_rear_node, peek_node, free_nodes,
}
use cpu_scheduler.Nodes.ById.{dequeue_by_id_node}
use cpu_scheduler.Nodes.ById.Taking.{TakesId, dequeue_by_id_node-TakesId}
use cpu_scheduler.Nodes.Sorted.{enqueue_priority_node}
use cpu_scheduler.Nodes.Sorted.Placing.{enqueue_priority_node-StandsFor}
use cpu_scheduler.Nodes.Chain.{Laid, StandsFor}
use cpu_scheduler.Nodes.Adding.{enqueue_node-StandsFor}
use cpu_scheduler.Nodes.Front.{
  Dequeues, Peeks, AllGone, dequeue_node-Dequeues, peek_node-Peeks, free_nodes_all,
}
use cpu_scheduler.Nodes.Rear.{TakesRear, dequeue_rear_node-TakesRear}

module _ {A : Type 0} where
  -- On nodes on the heap that are linked from the front to the rear and stand for a list: `enqueue`
  -- meets no fault and leaves nodes that stand for the list with the new value at its rear;
  -- `dequeue` ends the program on the empty list, and otherwise returns the front and leaves nodes
  -- that stand for the rest; `peek` ends the program or returns the front and changes nothing;
  -- `dequeue_rear` returns null on the empty list, and otherwise the last value, and leaves nodes
  -- that stand for the others; `freeQueue` comes to its end in as many rounds as the counter says,
  -- meets no fault, and leaves the queue empty and none of the nodes on the heap.
  pub nodes_refine :
      (s : Linked A) (q : Queue A) (a : A) (cs : List (ℕ × A))
      → Laid s q cs
      → ((s' : Linked A) × (enqueue_node a s ≡ ok tt s') × StandsFor s' (enqueue q a))
        × Dequeues (dequeue q) (dequeue_node s)
        × Peeks s (peek q) (peek_node s)
        × TakesRear s (dequeue_rear q) (dequeue_rear_node s)
        × ((s' : Linked A) × (free_nodes s.size s ≡ ok tt s')
            × (s'.front ≡ none)
            × AllGone s'.heap cs)
  nodes_refine s q a cs l = (
    enqueue_node-StandsFor s q a (cs, l),
    dequeue_node-Dequeues s q (cs, l),
    peek_node-Peeks s q cs l,
    dequeue_rear_node-TakesRear s q cs l,
    free_nodes_all s q cs l,
  )

module _ {A : Type 0} (deref : A → Pcb) where
  -- On such nodes `enqueue_priority` meets no fault and leaves nodes that stand for the list with the
  -- new value where its priority and arrival put it; `dequeue_by_id` returns null and changes nothing
  -- if no value has the id, and otherwise the first one that has it, and leaves nodes that stand for
  -- the others. Both walks end after as many nodes as the counter says.
  pub pcb_nodes_refine :
      (s : Linked A) (q : Queue A) (a : A) (id : ℤ) (cs : List (ℕ × A))
      → Laid s q cs
      → ((s' : Linked A) × (enqueue_priority_node deref a s ≡ ok tt s')
          × StandsFor s' (enqueue_priority deref q a))
        × TakesId s (dequeue_by_id deref q id) (dequeue_by_id_node deref id s)
  pcb_nodes_refine s q a id cs l = (
    enqueue_priority_node-StandsFor deref s q a cs l,
    dequeue_by_id_node-TakesId deref id s q cs l,
  )
