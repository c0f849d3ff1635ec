-- ===== src/Queue/Order.antt =====
-- The order that `enqueue_priority` of data_structures/PCB/Sch_PCB.c keeps.
use mathlib.Core.List.{Perm}
use mathlib.Core.List.Perm
use cpu_scheduler.Base.{
  ◌≡◌, refl, sym, inl, inr, Bool-cases, true, false, some, List, [], ◌∷◌, arith, ◌≤ℤ◌, ◌<ℤ◌, ltb_ℤ,
  All,
}
use cpu_scheduler.Types.{Pcb}
use cpu_scheduler.Queue.{
  Queue, dequeue, peek, stays_before, insert_after, insert_priority, enqueue_priority,
}

module _ {ℓ} {A : Type ℓ} (deref : A → Pcb) where
  abbrev pub PriorityLe : A → A → Type 0
  PriorityLe x y = (deref x).priority ≤ℤ (deref y).priority

  -- Priorities do not fall from front to rear.
  abbrev pub IsOrdered : List A → Type 0
  IsOrdered [] = Unit
  IsOrdered (x ∷ rest) = All (λ y. PriorityLe x y) rest × IsOrdered rest

  -- Not later by priority, and at one priority not later by arrival.
  abbrev pub QueueLe : A → A → Type 0
  QueueLe x y =
      PriorityLe x y
      × ((deref x).priority ≡ (deref y).priority → (deref x).arrival ≤ℤ (deref y).arrival)

  abbrev pub IsRanked : List A → Type 0
  IsRanked [] = Unit
  IsRanked (x ∷ rest) = All (λ y. QueueLe x y) rest × IsRanked rest

module _ {ℓ} {A : Type ℓ} (deref : A → Pcb) where
  PriorityLe-trans-All :
      (x y : A) (xs : List A)
      → PriorityLe deref x y
      → All (λ z. PriorityLe deref y z) xs
      → All (λ z. PriorityLe deref x z) xs
  PriorityLe-trans-All x y [] h hs = tt
  PriorityLe-trans-All x y (z ∷ zs) h hs = (omega arith, PriorityLe-trans-All x y zs h hs.1)

  insert_after-All :
      (x new : A) (xs : List A)
      → PriorityLe deref x new
      → All (λ z. PriorityLe deref x z) xs
      → All (λ z. PriorityLe deref x z) (insert_after deref new xs)
  unfolding insert_after
  insert_after-All x new [] h hs = (h, tt)
  insert_after-All x new (y ∷ ys) h hs = ground (arith, insert_after-All x new ys h hs.1)

  insert_after-IsOrdered :
      (new : A) (xs : List A) → IsOrdered deref xs → IsOrdered deref (insert_after deref new xs)
  unfolding insert_after
  insert_after-IsOrdered new [] h = (tt, tt)
  insert_after-IsOrdered new (x ∷ xs) h = ground (
    arith,
    insert_after-IsOrdered new xs h.1,
    insert_after-All x new xs,
    PriorityLe-trans-All new x xs,
  )

  insert_priority-IsOrdered :
      (new : A) (xs : List A) → IsOrdered deref xs → IsOrdered deref (insert_priority deref new xs)
  unfolding insert_priority
  insert_priority-IsOrdered new [] h = (tt, tt)
  insert_priority-IsOrdered new (x ∷ xs) h = ground (
    arith,
    insert_after-IsOrdered new xs h.1,
    insert_after-All x new xs,
    PriorityLe-trans-All new x xs,
  )

  insert_after-perm : (new : A) (xs : List A) → Perm (insert_after deref new xs) (new ∷ xs)
  unfolding insert_after
  insert_after-perm new [] = Perm.refl (new ∷ [])
  insert_after-perm new (x ∷ xs) = elim (Bool-cases (stays_before deref x new)) [
    | inl e ↦ rw e (Perm.trans (Perm.cons x (insert_after-perm new xs)) (Perm.swap new x xs))
    | inr e ↦ rw e (Perm.refl (new ∷ x ∷ xs))
  ]

  insert_priority-perm : (new : A) (xs : List A) → Perm (insert_priority deref new xs) (new ∷ xs)
  unfolding insert_priority
  insert_priority-perm new [] = Perm.refl (new ∷ [])
  insert_priority-perm new (x ∷ xs) =
      elim (Bool-cases (ltb_ℤ (deref new).priority (deref x).priority)) [
        | inl e ↦ rw e (Perm.refl (new ∷ x ∷ xs))
        | inr e ↦ rw e (Perm.trans (Perm.cons x (insert_after-perm new xs)) (Perm.swap new x xs))
      ]

  -- `enqueue_priority` puts the new entry somewhere among the old ones, each kept once, and a queue
  -- whose priorities do not fall from front to rear stays one.
  pub enqueue_priority-IsOrdered :
      (q : Queue A) (new : A)
      → IsOrdered deref q.items
      → IsOrdered deref (enqueue_priority deref q new).items
        × Perm (enqueue_priority deref q new).items (new ∷ q.items)
  unfolding enqueue_priority
  enqueue_priority-IsOrdered q new h =
      (insert_priority-IsOrdered new q.items h, insert_priority-perm new q.items)

  -- What `dequeue` takes from a queue in order has a priority number not above that of any entry
  -- left behind, and the rest is in order.
  dequeue_least :
      (q : Queue A) {a : A} {rest : Queue A}
      → IsOrdered deref q.items
      → dequeue q ≡ some (a, rest)
      → All (λ z. PriorityLe deref a z) rest.items × IsOrdered deref rest.items
  unfolding dequeue
  dequeue_least q h e = ground arith

  -- Two equal ends of a chain of priorities make the middle equal.
  priority_between :
      (x y z : A)
      → PriorityLe deref x y
      → PriorityLe deref y z
      → (deref x).priority ≡ (deref z).priority
      → ((deref x).priority ≡ (deref y).priority) × ((deref y).priority ≡ (deref z).priority)
  priority_between x y z h k e = ground arith

  QueueLe-trans : (x y z : A) → QueueLe deref x y → QueueLe deref y z → QueueLe deref x z
  QueueLe-trans x y z h k = ground (arith, priority_between x y z h.0 k.0)

  QueueLe-trans-All :
      (x y : A) (xs : List A)
      → QueueLe deref x y
      → All (λ z. QueueLe deref y z) xs
      → All (λ z. QueueLe deref x z) xs
  QueueLe-trans-All x y [] h hs = tt
  QueueLe-trans-All x y (z ∷ zs) h hs =
      (QueueLe-trans x y z h hs.0, QueueLe-trans-All x y zs h hs.1)

  insert_after-All_rank :
      (x new : A) (xs : List A)
      → QueueLe deref x new
      → All (λ z. QueueLe deref x z) xs
      → All (λ z. QueueLe deref x z) (insert_after deref new xs)
  unfolding insert_after
  insert_after-All_rank x new [] h hs = (h, tt)
  insert_after-All_rank x new (y ∷ ys) h hs = ground (arith, insert_after-All_rank x new ys h hs.1)

  stays_before-QueueLe :
      (x new : A)
      → (stays_before deref x new ≡ true → QueueLe deref x new)
        × (stays_before deref x new ≡ false → QueueLe deref new x)
  unfolding stays_before
  stays_before-QueueLe x new = (λ h. ground arith, λ h. ground arith)

  insert_after-IsRanked :
      (new : A) (xs : List A) → IsRanked deref xs → IsRanked deref (insert_after deref new xs)
  unfolding insert_after
  insert_after-IsRanked new [] h = (tt, tt)
  insert_after-IsRanked new (x ∷ xs) h = elim (Bool-cases (stays_before deref x new)) [
    | inl e ↦ rw e (
      insert_after-All_rank x new xs ((stays_before-QueueLe x new).0 e) h.0,
      insert_after-IsRanked new xs h.1,
    )
    | inr e ↦
        let le = (stays_before-QueueLe x new).1 e in
        rw e ((le, QueueLe-trans-All new x xs le h.0), h)
  ]

  insert_priority-IsRanked :
      (new : A) (xs : List A)
      → IsRanked deref xs
      → ((front : A)
          → peek (record { items = xs; size = 0 }) ≡ some front
          → (deref new).priority ≡ (deref front).priority
          → (deref front).arrival ≤ℤ (deref new).arrival)
      → IsRanked deref (insert_priority deref new xs)
  unfolding insert_priority peek
  insert_priority-IsRanked new [] h late = (tt, tt)
  insert_priority-IsRanked new (x ∷ xs) h late =
      elim (Bool-cases (ltb_ℤ (deref new).priority (deref x).priority)) [
        | inl e ↦
            let le : QueueLe deref new x = ground arith in
            rw e ((le, QueueLe-trans-All new x xs le h.0), h)
        | inr e ↦
            let le : QueueLe deref x new = ground (arith, late x refl) in
            rw e (insert_after-All_rank x new xs le h.0, insert_after-IsRanked new xs h.1)
      ]

  -- A queue in order of priority, and of arrival within a priority, stays so when the new entry is
  -- not an earlier arrival than the front at the front's priority.
  pub enqueue_priority-IsRanked :
      (q : Queue A) (new : A)
      → IsRanked deref q.items
      → ((front : A)
          → peek q ≡ some front
          → (deref new).priority ≡ (deref front).priority
          → (deref front).arrival ≤ℤ (deref new).arrival)
      → IsRanked deref (enqueue_priority deref q new).items
  unfolding enqueue_priority peek
  enqueue_priority-IsRanked q new h late = insert_priority-IsRanked new q.items h late

  -- At the priority of the front the arrivals are not compared: an entry that arrived before the
  -- only entry of a queue and has its priority is put behind it, so the queue is not in order of
  -- arrival.
  pub enqueue_priority_overtaken :
      (front new : A)
      → (deref new).priority ≡ (deref front).priority
      → (deref new).arrival <ℤ (deref front).arrival
      → ((enqueue_priority deref (record { items = front ∷ []; size = 1 }) new).items
          ≡ front ∷ new ∷ [])
        × ¬ IsRanked deref (front ∷ new ∷ [])
  unfolding enqueue_priority insert_priority
  enqueue_priority_overtaken front new p a = (ground arith, λ r. ground (arith, r.0.0.1 (sym p)))
