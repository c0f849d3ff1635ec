-- ===== src/Nodes.antt =====
-- The queues of data_structures/PCB/Sch_PCB.c, data_structures/REQ/requests.c and
-- process_generator/process_generator_functions.c down to their nodes, which are linked on the heap.
-- The three files have the same code for nodes of three types. `malloc` succeeds.
pub mod Chain
pub mod Adding
pub mod Front
pub mod Walk
pub mod Rear
pub mod ById
pub mod Sorted
pub mod Refinement
pub mod Instances
use cpu_scheduler.Base.{
  ℕ, zero, suc, ◌+◌, ◌-◌, ◌==◌, Bool, true, false, Option, none, some, if◌then◌else◌,
}
use cpu_scheduler.Run.{ok, fault, exits, Cmd}

-- A node; a null `next` is none.
pub record Node (A : Type 0) : Type 0 where
  pub value : A
  pub next : Option ℕ

-- A queue and the heap of its nodes. `fresh` is the address that `malloc` gives next.
pub record Linked (A : Type 0) : Type 0 where
  pub heap : ℕ → Option (Node A)
  pub fresh : ℕ
  pub front : Option ℕ
  pub rear : Option ℕ
  pub size : ℕ

-- The heap behind a write to, or a `free` of, an address.
unfoldable pub store : {B : Type 0} → (ℕ → Option B) → ℕ → Option B → ℕ → Option B
store h p o q = if q == p then o else h q

abbrev pub is_null : Option ℕ → Bool
is_null none = true
is_null (some p) = false

abbrev pub points_to : Option ℕ → ℕ → Bool
points_to none p = false
points_to (some q) p = q == p

module _ {A : Type 0} where
  abbrev pub new_node : A → Option (Node A)
  new_node a = some (record { value = a; next = none })

  -- The queue that the first function makes, on a heap.
  unfoldable pub create_nodes : (ℕ → Option (Node A)) → ℕ → Linked A
  create_nodes heap fresh = record {
    heap = heap;
    fresh = fresh;
    front = none;
    rear = none;
    size = 0;
  }

  unfoldable pub enqueue_node : A → Cmd (Linked A) (Unit {0})
  unfolding store
  enqueue_node a s =
      let h = store s.heap s.fresh (new_node a) in
      elim s.rear [
        | none ↦ ok tt (record {
          heap = h;
          fresh = suc s.fresh;
          front = some s.fresh;
          rear = some s.fresh;
          size = s.size + 1;
        })
        | some r ↦ elim (h r) [
          | none ↦ fault
          | some n ↦ ok tt (record {
            heap = store h r (some (record n { next = some s.fresh }));
            fresh = suc s.fresh;
            front = s.front;
            rear = some s.fresh;
            size = s.size + 1;
          })
        ]
      ]

  unfoldable pub dequeue_node : Cmd (Linked A) A
  unfolding store
  dequeue_node s = elim s.front [
    | none ↦ exits
    | some p ↦ elim (s.heap p) [
      | none ↦ fault
      | some n ↦ ok n.value (record s {
        heap = store s.heap p none;
        front = n.next;
        rear = if is_null n.next then none else s.rear;
        size = s.size - 1;
      })
    ]
  ]

  unfoldable pub peek_node : Cmd (Linked A) A
  peek_node s = elim s.front [
    | none ↦ exits
    | some p ↦ elim (s.heap p) [ none ↦ fault | some n ↦ ok n.value s ]
  ]

  -- The loop of `freeQueue`, for at most so many rounds; a further one counts as a fault.
  unfoldable pub free_nodes : ℕ → Cmd (Linked A) (Unit {0})
  unfolding dequeue_node
  free_nodes zero s = if is_null s.front then ok tt s else fault
  free_nodes (suc rounds) s = if is_null s.front then ok tt s else (elim (dequeue_node s) [
    | ok a s' ↦ free_nodes rounds s'
    | fault ↦ fault
    | exits ↦ exits
  ])

  -- The walk of `dequeue_rear` to the node before the rear, for at most so many nodes.
  unfoldable pub find_before : ℕ → (ℕ → Option (Node A)) → (trav rear : ℕ) → Option ℕ
  find_before zero h trav rear = none
  find_before (suc nodes) h trav rear = elim (h trav) [
    | none ↦ none
    | some n ↦
        if points_to n.next rear
        then some trav
        else (elim n.next [ none ↦ none | some q ↦ find_before nodes h q rear ])
  ]

  -- The lines behind that walk, for the node before the rear.
  unfoldable pub cut_rear : (trav rear : ℕ) → Cmd (Linked A) (Option A)
  unfolding store
  cut_rear trav r s = elim (s.heap r) [
    | none ↦ fault
    | some n ↦
        let h = store s.heap r none in
        elim (h trav) [
          | none ↦ fault
          | some t ↦ ok (some n.value) (record s {
            heap = store h trav (some (record t { next = none }));
            rear = some trav;
            size = s.size - 1;
          })
        ]
  ]

  unfoldable pub dequeue_rear_node : Cmd (Linked A) (Option A)
  unfolding store find_before cut_rear
  dequeue_rear_node s = elim s.front [
    | none ↦ ok none s
    | some f ↦ elim s.rear [
      | none ↦ fault
      | some r ↦
          if f == r
          then (elim (s.heap f) [
            | none ↦ fault
            | some n ↦ ok (some n.value) (record s {
              heap = store s.heap f none;
              front = none;
              rear = none;
              size = s.size - 1;
            })
          ])
          else (elim (find_before s.size s.heap f r) [ none ↦ fault | some t ↦ cut_rear t r s ])
    ]
  ]
