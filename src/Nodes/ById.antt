-- ===== src/Nodes/ById.antt =====
-- `dequeue_by_id` of data_structures/PCB/Sch_PCB.c on the nodes.
pub mod Search
pub mod Taking
use cpu_scheduler.Base.{ℕ, zero, suc, ◌-◌, Option, none, some, ℤ, eqb_ℤ, if◌then◌else◌}
use cpu_scheduler.Types.{Pcb}
use cpu_scheduler.Run.{ok, fault, exits, Cmd}
use cpu_scheduler.Nodes.{Node, Linked, store, is_null, points_to, dequeue_node}

module _ {A : Type 0} where
  -- The lines for the node found at `curr`, whose content is given.
  unfoldable pub unlink_node : (prev curr : ℕ) → Node A → Cmd (Linked A) (Option A)
  unfolding store
  unlink_node prev curr n s = elim (s.heap prev) [
    | none ↦ fault
    | some t ↦
        let h = store s.heap prev (some (record t { next = n.next })) in
        ok (some n.value) (record s {
          heap = store h curr none;
          rear = if points_to s.rear curr then some prev else s.rear;
          size = s.size - 1;
        })
  ]

module _ {A : Type 0} (deref : A → Pcb) where
  -- The loop, for at most so many nodes; a further one counts as a fault.
  unfoldable pub search_id : ℕ → ℤ → (prev : ℕ) → (curr : Option ℕ) → Cmd (Linked A) (Option A)
  unfolding unlink_node
  search_id zero id prev curr s = if is_null curr then ok none s else fault
  search_id (suc nodes) id prev curr s = elim curr [
    | none ↦ ok none s
    | some c ↦ elim (s.heap c) [
      | none ↦ fault
      | some n ↦
          if eqb_ℤ (deref n.value).id id
          then unlink_node prev c n s
          else search_id nodes id c n.next s
    ]
  ]

  unfoldable pub dequeue_by_id_node : ℤ → Cmd (Linked A) (Option A)
  unfolding dequeue_node search_id
  dequeue_by_id_node id s = elim s.front [
    | none ↦ ok none s
    | some f ↦ elim (s.heap f) [
      | none ↦ fault
      | some n ↦
          if eqb_ℤ (deref n.value).id id
          then (elim (dequeue_node s) [ ok a s' ↦ ok (some a) s' | fault ↦ fault | exits ↦ exits ])
          else search_id s.size id f n.next s
    ]
  ]
