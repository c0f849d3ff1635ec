-- ===== src/Queue.antt =====
-- data_structures/PCB/Sch_PCB.c. A queue is the list of what its nodes hold, from front to rear,
-- beside the counter `size`; a call that reads a field of the queued PCB takes it through `deref`.
-- `malloc` succeeds, and the calls that the source ends by `exit` on an empty queue return none.
pub mod Order
pub mod Contents
use cpu_scheduler.Base.{
  ℕ, ◌+◌, ◌-◌, ◌≡◌, Bool, true, false, ◌&&◌, ◌||◌, Option, none, some, List, [], ◌∷◌, ◌++◌, ℤ, pos,
  ◌+ℤ◌, ltb_ℤ, leb_ℤ, eqb_ℤ, if◌then◌else◌, length, map,
}
use cpu_scheduler.Types.{Pcb}

-- `struct PCBQueue`, and the like structs of the other two queues.
pub record Queue {ℓ} (A : Type ℓ) : Type ℓ where
  pub items : List A
  pub size : ℕ

-- The counter agrees with the nodes.
abbrev pub IsCounted {ℓ} : {A : Type ℓ} → Queue A → Type 0
IsCounted q = q.size ≡ length q.items

module _ {ℓ} {A : Type ℓ} where
  unfoldable pub create_queue : Queue A
  create_queue = record { items = []; size = 0 }

  unfoldable pub is_empty : Queue A → Bool
  is_empty q = elim q.items [ [] ↦ true | _ ∷ _ ↦ false ]

  unfoldable pub enqueue : Queue A → A → Queue A
  enqueue q a = record { items = q.items ++ a ∷ []; size = q.size + 1 }

  unfoldable pub dequeue : Queue A → Option (A × Queue A)
  dequeue q = elim q.items [
    | [] ↦ none
    | a ∷ rest ↦ some (a, record { items = rest; size = q.size - 1 })
  ]

  unfoldable pub peek : Queue A → Option A
  peek q = elim q.items [ [] ↦ none | a ∷ _ ↦ some a ]

  -- The walk of `dequeue_rear` to the node before the last: what it passes, and the last.
  unfoldable pub split_rear : A → List A → List A × A
  split_rear a [] = ([], a)
  split_rear a (b ∷ rest) = let (front, last) = split_rear b rest in (a ∷ front, last)

  unfoldable pub dequeue_rear : Queue A → Option (A × Queue A)
  unfolding split_rear
  dequeue_rear q = elim q.items [
    | [] ↦ none
    | a ∷ rest ↦
        let (front, last) = split_rear a rest in
        some (last, record { items = front; size = q.size - 1 })
  ]

  unfoldable pub peek_rear : Queue A → Option A
  unfolding split_rear
  peek_rear q = elim q.items [ [] ↦ none | a ∷ rest ↦ some (split_rear a rest).1 ]

  -- `while (!isEmpty(q)) dequeue(q)`: one round for each node.
  drain : List A → ℕ → Queue A
  drain [] n = record { items = []; size = n }
  drain (a ∷ rest) n = drain rest (n - 1)

  -- The queue as `freeQueue` hands it to `free`.
  unfoldable pub free_queue : Queue A → Queue A
  unfolding drain
  free_queue q = drain q.items q.size

module _ {ℓ} {A : Type ℓ} (deref : A → Pcb) where
  -- The loop test of `enqueue_priority`: the next node stays in front of the new one.
  unfoldable pub stays_before : A → A → Bool
  stays_before next new =
      ltb_ℤ (deref next).priority (deref new).priority
      || (eqb_ℤ (deref next).priority (deref new).priority
          && leb_ℤ (deref next).arrival (deref new).arrival)

  -- The loop of `enqueue_priority` from the successor of `curr` on.
  unfoldable pub insert_after : A → List A → List A
  unfolding stays_before
  insert_after new [] = new ∷ []
  insert_after new (x ∷ rest) =
      if stays_before x new then x ∷ insert_after new rest else new ∷ x ∷ rest

  unfoldable pub insert_priority : A → List A → List A
  unfolding insert_after
  insert_priority new [] = new ∷ []
  insert_priority new (x ∷ rest) =
      if ltb_ℤ (deref new).priority (deref x).priority
      then new ∷ x ∷ rest
      else x ∷ insert_after new rest

  unfoldable pub enqueue_priority : Queue A → A → Queue A
  unfolding insert_priority
  enqueue_priority q a = record { items = insert_priority a q.items; size = q.size + 1 }

  -- The sum that the loop of `total_remaining_time` collects in `total`.
  unfoldable pub remaining_from : ℤ → List A → ℤ
  remaining_from total [] = total
  remaining_from total (x ∷ rest) = remaining_from (total +ℤ (deref x).remaining_time) rest

  unfoldable pub total_remaining_time : Queue A → ℤ
  unfolding remaining_from
  total_remaining_time q = remaining_from (pos 0) q.items

  -- The search of `dequeue_by_id` and the unlinking of the node that it finds.
  unfoldable pub unlink_id : ℤ → List A → Option (A × List A)
  unlink_id id [] = none
  unlink_id id (x ∷ rest) =
      if eqb_ℤ (deref x).id id
      then some (x, rest)
      else (elim (unlink_id id rest) [ none ↦ none | some (a, xs) ↦ some (a, x ∷ xs) ])

  unfoldable pub dequeue_by_id : Queue A → ℤ → Option (A × Queue A)
  unfolding unlink_id
  dequeue_by_id q id = elim (unlink_id id q.items) [
    | none ↦ none
    | some (a, xs) ↦ some (a, record { items = xs; size = q.size - 1 })
  ]

-- `update_waiting_times`, on the values of the PCBs.
unfoldable pub update_waiting_times : Queue Pcb → Queue Pcb
update_waiting_times q = record q {
  items = map {A = Pcb} (λ c. record c { waiting_time = c.waiting_time +ℤ pos 1 }) q.items;
}
