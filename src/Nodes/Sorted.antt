-- ===== src/Nodes/Sorted.antt =====
-- `enqueue_priority` of data_structures/PCB/Sch_PCB.c on the nodes.
pub mod Insertion
pub mod Placing
use cpu_scheduler.Base.{ℕ, zero, suc, ◌+◌, Option, none, some, ltb_ℤ, if◌then◌else◌}
use cpu_scheduler.Types.{Pcb}
use cpu_scheduler.Run.{ok, fault, Cmd}
use cpu_scheduler.Queue.{stays_before}
use cpu_scheduler.Nodes.{Node, Linked, store, new_node, is_null}

module _ {A : Type 0} where
  -- The lines behind the walk, for the node `curr` where it ended; the new node is at `new`.
  unfoldable pub link_behind : (curr new : ℕ) → A → Cmd (Linked A) (Unit {0})
  unfolding store
  link_behind curr new a s = elim (s.heap curr) [
    | none ↦ fault
    | some n ↦
        let h = store s.heap new (some (record { value = a; next = n.next })) in
        ok tt (record s {
          heap = store h curr (some (record n { next = some new }));
          rear = if is_null n.next then some new else s.rear;
          size = s.size + 1;
        })
  ]

  -- The lines for a new node in front.
  unfoldable pub put_front : A → Option ℕ → (new : ℕ) → Cmd (Linked A) (Unit {0})
  unfolding store
  put_front a front new s = ok tt (record s {
    heap = store s.heap new (some (record { value = a; next = front }));
    front = some new;
    rear = if is_null s.rear then some new else s.rear;
    size = s.size + 1;
  })

  -- The state that `malloc` and the writes to the new node leave.
  unfoldable pub allocate : A → Linked A → Linked A
  unfolding store
  allocate a s = record s { heap = store s.heap s.fresh (new_node a); fresh = suc s.fresh }

module _ {A : Type 0} (deref : A → Pcb) where
  -- The walk from `curr`, for at most so many nodes; a further one counts as a fault.
  unfoldable pub walk_sorted : ℕ → A → (curr new : ℕ) → Cmd (Linked A) (Unit {0})
  unfolding stays_before link_behind
  walk_sorted zero a curr new s = fault
  walk_sorted (suc nodes) a curr new s = elim (s.heap curr) [
    | none ↦ fault
    | some n ↦ elim n.next [
      | none ↦ link_behind curr new a s
      | some q ↦ elim (s.heap q) [
        | none ↦ fault
        | some m ↦
            if stays_before deref m.value a
            then walk_sorted nodes a q new s
            else link_behind curr new a s
      ]
    ]
  ]

  unfoldable pub enqueue_priority_node : A → Cmd (Linked A) (Unit {0})
  unfolding allocate put_front walk_sorted
  enqueue_priority_node a s =
      let new = s.fresh in
      let s1 = allocate a s in
      elim s1.front [
        | none ↦ put_front a none new s1
        | some f ↦ elim (s1.heap f) [
          | none ↦ fault
          | some n ↦
              if ltb_ℤ (deref a).priority (deref n.value).priority
              then put_front a (some f) new s1
              else walk_sorted s1.size a f new s1
        ]
      ]
