-- ===== src/Queue/Contents.antt =====
-- What the operations of data_structures/PCB/Sch_PCB.c do to the contents and to the counter.
use cpu_scheduler.Base.{
  Option, ℕ, suc, ◌+◌, ◌-◌, ◌≡◌, refl, sym, ap, ◌∙◌, inl, inr, false, none, some, List, [], ◌∷◌,
  ◌++◌, arith, ℤ, pos, ◌+ℤ◌, int_laws, eqb_ℤ, ltb_ℤ, Bool-cases, Option-cases, length,
  length-append,
}
use cpu_scheduler.Types.{Pcb}
use cpu_scheduler.Queue.{
  create_queue, Queue, IsCounted, enqueue, dequeue, split_rear, dequeue_rear, peek_rear, drain,
  free_queue, stays_before, insert_after, insert_priority, enqueue_priority, remaining_from,
  total_remaining_time, unlink_id, dequeue_by_id,
}

module _ {ℓ} {A : Type ℓ} where
  -- Entries leave in the order in which they came: an entry that is enqueued on a nonempty queue,
  -- whose counter is right, leaves the front alone, and taking the front and adding the entry can
  -- change places.
  dequeue-enqueue :
      (q : Queue A) {a : A} {rest : Queue A} (new : A)
      → IsCounted q
      → dequeue q ≡ some (a, rest)
      → dequeue (enqueue q new) ≡ some (a, enqueue rest new)
  unfolding dequeue enqueue
  dequeue-enqueue q new h e = ground arith

  split_rear-append : (a b : A) (xs : List A) → split_rear a (xs ++ b ∷ []) ≡ (a ∷ xs, b)
  unfolding split_rear
  split_rear-append a b [] = refl
  split_rear-append a b (x ∷ xs) = rw (split_rear-append x b xs)

  rear_of_nil : dequeue_rear (create_queue {A = A}) ≡ none
  unfolding dequeue_rear create_queue
  rear_of_nil = refl

  pub dequeue_rear-append :
      (xs : List A) (n : ℕ) (a : A)
      → (dequeue_rear (record { items = xs ++ a ∷ []; size = n + 1 })
          ≡ some (a, record { items = xs; size = n }))
        × (peek_rear (record { items = xs ++ a ∷ []; size = n + 1 }) ≡ some a)
  unfolding dequeue_rear peek_rear
  dequeue_rear-append [] n a = ground arith
  dequeue_rear-append (x ∷ xs) n a = ground (arith, split_rear-append x a xs)

  -- The entry that came last is the one that `peek_rear` shows and `dequeue_rear` takes, and
  -- taking it brings back the queue as it was before; an empty queue has none to take.
  pub dequeue_rear-enqueue :
      (q : Queue A) (a : A)
      → (dequeue_rear (enqueue q a) ≡ some (a, q))
        × (peek_rear (enqueue q a) ≡ some a)
        × (dequeue_rear (create_queue {A = A}) ≡ none)
  unfolding enqueue
  dequeue_rear-enqueue q a = let e = dequeue_rear-append q.items q.size a in (e.0, e.1, rear_of_nil)

  pub length-split_rear : (a : A) (xs : List A) → length (split_rear a xs).0 ≡ length xs
  unfolding split_rear
  length-split_rear a [] = refl
  length-split_rear a (b ∷ rest) = ap suc (length-split_rear b rest)

  rear-IsCounted :
      (xs : List A) (n : ℕ) (b : A) (r : Queue A)
      → n ≡ length xs
      → dequeue_rear (record { items = xs; size = n }) ≡ some (b, r)
      → IsCounted r
  unfolding dequeue_rear
  rear-IsCounted [] n b r h e = cc
  rear-IsCounted (x ∷ xs) n b r h e = ground (arith, length-split_rear x xs)

  drain-empty : (xs : List A) (n : ℕ) → n ≡ length xs → drain xs n ≡ record { items = []; size = 0 }
  unfolding drain
  drain-empty [] n h = ground arith
  drain-empty (x ∷ xs) n h = drain-empty xs (n - 1) (omega arith)

-- A queue that an operation leaves, if it finds anything.
abbrev pub LeavesCounted {ℓ} : {A : Type ℓ} → Option (A × Queue A) → Type 0
LeavesCounted none = Unit
LeavesCounted (some (a, rest)) = IsCounted rest

leaves {ℓ} :
    {A : Type ℓ} (found : Option (A × Queue A))
    → ((b : A) (r : Queue A) → found ≡ some (b, r) → IsCounted r)
    → LeavesCounted found
leaves none h = tt
leaves (some (b, r)) h = h b r refl

module _ {ℓ} {A : Type ℓ} (deref : A → Pcb) where
  length-insert_after : (a : A) (xs : List A) → length (insert_after deref a xs) ≡ length xs + 1
  unfolding insert_after
  length-insert_after a [] = refl
  length-insert_after a (x ∷ xs) = ground (arith, length-insert_after a xs)

  length-insert_priority :
      (a : A) (xs : List A) → length (insert_priority deref a xs) ≡ length xs + 1
  unfolding insert_priority
  length-insert_priority a [] = refl
  length-insert_priority a (x ∷ xs) = ground (arith, length-insert_after a xs)

  -- Every entry of the list has another id.
  abbrev pub Lacks : ℤ → List A → Type 0
  Lacks id [] = Unit
  Lacks id (x ∷ xs) = (eqb_ℤ (deref x).id id ≡ false) × Lacks id xs

  pub unlink_id-first :
      (id : ℤ) (front back : List A) (a : A)
      → Lacks id front
      → (deref a).id ≡ id
      → unlink_id deref id (front ++ a ∷ back) ≡ some (a, front ++ back)
  unfolding unlink_id
  unlink_id-first id [] back a h e = ground arith
  unlink_id-first id (x ∷ xs) back a h e = ground (arith, unlink_id-first id xs back a h.1 e)

  unlink_id-none : (id : ℤ) (xs : List A) → Lacks id xs → unlink_id deref id xs ≡ none
  unfolding unlink_id
  unlink_id-none id [] h = refl
  unlink_id-none id (x ∷ xs) h = ground (arith, unlink_id-none id xs h.1)

  -- `dequeue_by_id` takes the first entry with the id, leaves those before and behind it in their
  -- order and counts one less; a queue with no such entry gives none.
  pub dequeue_by_id-first :
      (id : ℤ) (front back : List A) (a : A) (n : ℕ)
      → Lacks id front
      → (deref a).id ≡ id
      → (dequeue_by_id deref (record { items = front ++ a ∷ back; size = n + 1 }) id
          ≡ some (a, record { items = front ++ back; size = n }))
        × (dequeue_by_id deref (record { items = front; size = n }) id ≡ none)
  unfolding dequeue_by_id
  dequeue_by_id-first id front back a n h e =
      ground (arith, unlink_id-first id front back a h e, unlink_id-none id front h)

  length-unlink_id :
      (id : ℤ) (xs : List A) {a : A} {left : List A}
      → unlink_id deref id xs ≡ some (a, left)
      → length xs ≡ length left + 1
  unfolding unlink_id
  length-unlink_id id [] e = cc
  length-unlink_id id (x ∷ xs) e = elim (Option-cases (unlink_id deref id xs)) [
    | inl missed ↦ ground arith
    | inr ((b, ys), so) ↦ ground (arith, length-unlink_id id xs so)
  ]

  dequeue-IsCounted :
      (q : Queue A) (b : A) (r : Queue A) → IsCounted q → dequeue q ≡ some (b, r) → IsCounted r
  unfolding dequeue
  dequeue-IsCounted q b r h e = ground arith

  dequeue_rear-IsCounted :
      (q : Queue A) (b : A) (r : Queue A) → IsCounted q → dequeue_rear q ≡ some (b, r) → IsCounted r
  unfolding dequeue_rear
  dequeue_rear-IsCounted q b r h e = rear-IsCounted q.items q.size b r h e

  dequeue_by_id-IsCounted :
      (q : Queue A) (b : A) (r : Queue A) (id : ℤ)
      → IsCounted q
      → dequeue_by_id deref q id ≡ some (b, r)
      → IsCounted r
  unfolding dequeue_by_id
  dequeue_by_id-IsCounted q b r id h e = elim (Option-cases (unlink_id deref id q.items)) [
    | inl missed ↦ ground arith
    | inr ((c, ys), so) ↦ ground (arith, length-unlink_id id q.items so)
  ]

  -- On a queue whose counter is the number of its nodes, each operation that adds or takes an
  -- entry keeps that so, and `freeQueue` ends with no node and the counter at 0.
  pub queue_ops-IsCounted :
      (q : Queue A) (a : A) (id : ℤ)
      → IsCounted q
      → IsCounted (enqueue q a)
        × IsCounted (enqueue_priority deref q a)
        × LeavesCounted (dequeue q)
        × LeavesCounted (dequeue_rear q)
        × LeavesCounted (dequeue_by_id deref q id)
        × (free_queue q ≡ record { items = []; size = 0 })
  unfolding enqueue enqueue_priority free_queue
  queue_ops-IsCounted q a id h = (
    ground (arith, length-append q.items (a ∷ [])),
    ground (arith, length-insert_priority a q.items),
    leaves (dequeue q) (λ b r. dequeue-IsCounted q b r h),
    leaves (dequeue_rear q) (λ b r. dequeue_rear-IsCounted q b r h),
    leaves (dequeue_by_id deref q id) (λ b r. dequeue_by_id-IsCounted q b r id h),
    drain-empty q.items q.size h,
  )

  -- The remaining times of a list, added up.
  abbrev pub sum_remaining : List A → ℤ
  sum_remaining [] = pos 0
  sum_remaining (x ∷ xs) = (deref x).remaining_time +ℤ sum_remaining xs

  remaining_from-sum : (t : ℤ) (xs : List A) → remaining_from deref t xs ≡ t +ℤ sum_remaining xs
  unfolding remaining_from
  remaining_from-sum t [] = omega int_laws
  remaining_from-sum t (x ∷ xs) =
      remaining_from-sum (t +ℤ (deref x).remaining_time) xs ∙ omega int_laws

  sum-append :
      (xs : List A) (a : A)
      → sum_remaining (xs ++ a ∷ []) ≡ sum_remaining xs +ℤ (deref a).remaining_time
  sum-append [] a = omega int_laws
  sum-append (x ∷ xs) a = rw (sum-append xs a) (omega int_laws)

  sum-insert_after :
      (a : A) (xs : List A)
      → sum_remaining (insert_after deref a xs) ≡ sum_remaining xs +ℤ (deref a).remaining_time
  unfolding insert_after
  sum-insert_after a [] = omega int_laws
  sum-insert_after a (x ∷ xs) = elim (Bool-cases (stays_before deref x a)) [
    | inl e ↦ rw (e, sum-insert_after a xs) (omega int_laws)
    | inr e ↦ rw e (omega int_laws)
  ]

  sum-insert_priority :
      (a : A) (xs : List A)
      → sum_remaining (insert_priority deref a xs) ≡ sum_remaining xs +ℤ (deref a).remaining_time
  unfolding insert_priority
  sum-insert_priority a [] = omega int_laws
  sum-insert_priority a (x ∷ xs) = elim (Bool-cases (ltb_ℤ (deref a).priority (deref x).priority)) [
    | inl e ↦ rw e (omega int_laws)
    | inr e ↦ rw (e, sum-insert_after a xs) (omega int_laws)
  ]

  total : (xs : List A) → remaining_from deref (pos 0) xs ≡ sum_remaining xs
  total xs = remaining_from-sum (pos 0) xs ∙ omega int_laws

  pub total_remaining_time-sum :
      (q : Queue A) → total_remaining_time deref q ≡ sum_remaining q.items
  unfolding total_remaining_time
  total_remaining_time-sum q = total q.items

  -- `total_remaining_time` is the sum over the queue, and both ways to enqueue add the remaining
  -- time of the new entry to it, wherever the entry goes.
  pub total_remaining_time-enqueue :
      (q : Queue A) (a : A)
      → (total_remaining_time deref q ≡ sum_remaining q.items)
        × (total_remaining_time deref (enqueue q a)
            ≡ total_remaining_time deref q +ℤ (deref a).remaining_time)
        × (total_remaining_time deref (enqueue_priority deref q a)
            ≡ total_remaining_time deref q +ℤ (deref a).remaining_time)
  unfolding total_remaining_time enqueue enqueue_priority
  total_remaining_time-enqueue q a = (
    total q.items,
    total (q.items ++ a ∷ [])
        ∙ sum-append q.items a
        ∙ ap (λ t. t +ℤ (deref a).remaining_time) (sym (total q.items)),
    total (insert_priority deref a q.items)
        ∙ sum-insert_priority a q.items
        ∙ ap (λ t. t +ℤ (deref a).remaining_time) (sym (total q.items)),
  )
