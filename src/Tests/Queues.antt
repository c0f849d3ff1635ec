-- ===== src/Tests/Queues.antt =====
-- Tests of the queue properties.
use mathlib.Core.List.{Perm}
use cpu_scheduler.Base.{◌≡◌, refl, some, [], ◌∷◌, arith, pos, ◌≤ℤ◌}
use cpu_scheduler.Types.{Pcb}
use cpu_scheduler.Queue.{Queue, dequeue, peek, enqueue_priority}
use cpu_scheduler.Queue.Order.{
  IsOrdered, IsRanked, enqueue_priority-IsOrdered, enqueue_priority_overtaken,
}
use cpu_scheduler.Queue.Contents.{Lacks}
use cpu_scheduler.Tests.Data.{pcb, two_pcbs}

abbrev self : Pcb → Pcb
self c = c

two_pcbs-IsOrdered : IsOrdered self two_pcbs.items
two_pcbs-IsOrdered = ((omega arith, tt), (tt, tt))

enqueue_priority-IsOrdered_example :
    IsOrdered self (enqueue_priority self two_pcbs (pcb 3 1 4)).items
    × Perm (enqueue_priority self two_pcbs (pcb 3 1 4)).items (pcb 3 1 4 ∷ two_pcbs.items)
enqueue_priority-IsOrdered_example =
    enqueue_priority-IsOrdered self two_pcbs (pcb 3 1 4) two_pcbs-IsOrdered

abbrev rest_of_two : Queue Pcb
rest_of_two = record { items = pcb 2 1 5 ∷ []; size = 1 }

dequeue-two_pcbs : dequeue two_pcbs ≡ some (pcb 1 0 2, rest_of_two)
unfolding dequeue
dequeue-two_pcbs = refl

two_pcbs-IsRanked : IsRanked self two_pcbs.items
two_pcbs-IsRanked = (((omega arith, λ e. omega arith), tt), (tt, tt))

later_than_front :
    (front : Pcb)
    → peek two_pcbs ≡ some front
    → (pcb 4 7 2).priority ≡ front.priority
    → front.arrival ≤ℤ (pcb 4 7 2).arrival
unfolding peek
later_than_front front e p = ground arith

enqueue_priority_overtaken_example :
    ((enqueue_priority self (record { items = pcb 1 5 2 ∷ []; size = 1 }) (pcb 2 3 2)).items
      ≡ pcb 1 5 2 ∷ pcb 2 3 2 ∷ [])
    × ¬ IsRanked self (pcb 1 5 2 ∷ pcb 2 3 2 ∷ [])
enqueue_priority_overtaken_example =
    enqueue_priority_overtaken self (pcb 1 5 2) (pcb 2 3 2) refl (omega arith)

Lacks-two : Lacks self (pos 2) (pcb 1 0 2 ∷ [])
Lacks-two = (refl, tt)
