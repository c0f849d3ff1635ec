-- ===== src/Tests/Linked.antt =====
-- Tests of the properties of the linked queues.
use cpu_scheduler.Base.{pos, ℕ, ◌≡◌, refl, none, some, [], ◌∷◌, Option, ◌==◌, arith, if◌then◌else◌}
use cpu_scheduler.Types.{Pcb}
use cpu_scheduler.Run.{ok}
use cpu_scheduler.Queue.{
  Queue, enqueue, dequeue, dequeue_rear, peek, enqueue_priority, dequeue_by_id,
}
use cpu_scheduler.Nodes.{
  Node, Linked, enqueue_node, dequeue_node, dequeue_rear_node, peek_node, free_nodes,
}
use cpu_scheduler.Nodes.ById.{dequeue_by_id_node}
use cpu_scheduler.Nodes.ById.Taking.{TakesId}
use cpu_scheduler.Nodes.Sorted.{enqueue_priority_node}
use cpu_scheduler.Nodes.Chain.{Laid, StandsFor}
use cpu_scheduler.Nodes.Front.{Dequeues, Peeks, AllGone}
use cpu_scheduler.Nodes.Rear.{TakesRear}
use cpu_scheduler.Nodes.Refinement.{nodes_refine, pcb_nodes_refine}
use cpu_scheduler.Tests.Data.{pcb}

-- Two nodes, of the values 7 and 9, at the addresses 0 and 1.
abbrev heap : ℕ → Option (Node ℕ)
heap p =
    if p == 0
    then some (record { value = 7; next = some 1 })
    else if p == 1
    then some (record { value = 9; next = none })
    else none

abbrev linked : Linked ℕ
linked = record { heap = heap; fresh = 2; front = some 0; rear = some 1; size = 2 }

abbrev list : Queue ℕ
list = record { items = 7 ∷ 9 ∷ []; size = 2 }

linked-Laid : Laid linked list ((0, 7) ∷ (1, 9) ∷ [])
linked-Laid = record {
  items = refl;
  front = refl;
  rear = refl;
  chain = (refl, (refl, tt));
  distinct = ((refl, tt), (tt, tt));
  old = (omega arith, (omega arith, tt));
  size = refl;
  counted = refl;
}

nodes_refine_example :
    ((s' : Linked ℕ) × (enqueue_node 5 linked ≡ ok tt s') × StandsFor s' (enqueue list 5))
    × Dequeues (dequeue list) (dequeue_node linked)
    × Peeks linked (peek list) (peek_node linked)
    × TakesRear linked (dequeue_rear list) (dequeue_rear_node linked)
    × ((s' : Linked ℕ) × (free_nodes 2 linked ≡ ok tt s')
        × (s'.front ≡ none)
        × AllGone s'.heap ((0, 7) ∷ (1, 9) ∷ []))
nodes_refine_example = nodes_refine linked list 5 ((0, 7) ∷ (1, 9) ∷ []) linked-Laid

-- The PCB of the process with an id, with the id as its priority too.
abbrev owner : ℕ → Pcb
owner id = pcb id 0 id

pcb_nodes_refine_example :
    ((s' : Linked ℕ) × (enqueue_priority_node owner 8 linked ≡ ok tt s')
      × StandsFor s' (enqueue_priority owner list 8))
    × TakesId linked (dequeue_by_id owner list (pos 9)) (dequeue_by_id_node owner (pos 9) linked)
pcb_nodes_refine_example =
    pcb_nodes_refine owner linked list 8 (pos 9) ((0, 7) ∷ (1, 9) ∷ []) linked-Laid
