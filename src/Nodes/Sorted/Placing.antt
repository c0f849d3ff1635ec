-- ===== src/Nodes/Sorted/Placing.antt =====
-- That `enqueue_priority` of data_structures/PCB/Sch_PCB.c on the nodes does what it does to a list.
use mathlib.Core.Path.{subst}
use cpu_scheduler.Base.{
  ℕ, suc, ◌+◌, ◌≡◌, refl, sym, ap, ◌∙◌, inl, inr, true, false, Option, none, some, List, [], ◌∷◌,
  arith, ltb_ℤ, Bool-cases, if◌then◌else◌,
}
use cpu_scheduler.Types.{Pcb}
use cpu_scheduler.Run.{Run, ok}
use cpu_scheduler.Queue.{Queue, insert_after, insert_priority, enqueue_priority}
use cpu_scheduler.Nodes.{Node, Linked, store, new_node, is_null}
use cpu_scheduler.Nodes.Chain.{
  apart, values, head, last, IsBelow, IsBelow-Misses, store-at, Chain-store, Laid, StandsFor,
}
use cpu_scheduler.Nodes.Walk.{final, last-final}
use cpu_scheduler.Nodes.Sorted.{put_front, walk_sorted, allocate, enqueue_priority_node}
use cpu_scheduler.Nodes.Sorted.Insertion.{Placed, Walkable, walk_sorted-Placed}

rear_kept :
    (new r : ℕ) (rear end : Option ℕ)
    → rear ≡ end
    → end ≡ some r
    → (if is_null rear then some new else rear) ≡ end
rear_kept new r rear end e f = ground arith

module _ {A : Type 0} where
  older : (n : ℕ) (cs : List (ℕ × A)) → IsBelow n cs → IsBelow (suc n) cs
  older n [] h = tt
  older n ((p, x) ∷ cs) h = (omega (arith, h.0), older n cs h.1)

  put_front-linked :
      (a : A) (front : Option ℕ) (new : ℕ) (s : Linked A) (rear : Option ℕ)
      → (if is_null s.rear then some new else s.rear) ≡ rear
      → put_front a front new s
        ≡ ok tt (record s {
          heap = store s.heap new (some (record { value = a; next = front }));
          front = some new;
          rear = rear;
          size = s.size + 1;
        })
  unfolding put_front
  put_front-linked a front new s rear e =
      ap
        (λ r. ok tt (record s {
          heap = store s.heap new (some (record { value = a; next = front }));
          front = some new;
          rear = r;
          size = s.size + 1;
        }))
        e

  -- The queue with a new list of its values.
  grown : Queue A → List A → Queue A
  grown q xs = record { items = xs; size = q.size + 1 }

  -- A run that leaves nodes that stand for such a queue.
  abbrev Grows : Queue A → List A → Run (Linked A) (Unit {0}) → Type 0
  Grows q xs r = (s' : Linked A) × (r ≡ ok tt s') × StandsFor s' (grown q xs)

  rear_of :
      (new : ℕ) (a : A) (cs : List (ℕ × A)) (rear : Option ℕ)
      → rear ≡ last cs
      → (if is_null rear then some new else rear) ≡ last ((new, a) ∷ cs)
  rear_of new a [] rear e = ground arith
  rear_of new a ((p, x) ∷ cs) rear e =
      rear_kept new (final (p, x) cs).0 rear (last ((p, x) ∷ cs)) e (last-final (p, x) cs)

  front-Grows :
      (s : Linked A) (q : Queue A) (a : A) (cs : List (ℕ × A))
      → Laid s q cs
      → Grows q (a ∷ values cs) (put_front a (head cs) s.fresh (allocate a s))
  unfolding allocate grown
  front-Grows s q a cs l =
      let new = s.fresh in
      let h = store s.heap new (new_node a) in
      let o : Option (Node A) = some (record { value = a; next = head cs }) in
      let m = IsBelow-Misses new cs l.old in
      (
        _,
        put_front-linked a (head cs) new (allocate a s) (last ((new, a) ∷ cs))
            (rear_of new a cs s.rear l.rear),
        (
          (new, a) ∷ cs,
          record {
            items = refl;
            front = refl;
            rear = refl;
            chain = (
              store-at h new o,
              Chain-store h new o cs m (Chain-store s.heap new (new_node a) cs m l.chain),
            );
            distinct = (m, l.distinct);
            old = (omega arith, older new cs l.old);
            size = ap (λ n. n + 1) l.size;
            counted = ap (λ n. n + 1) l.counted ∙ omega arith;
          },
        ),
      )

  Walkable-allocate :
      (s : Linked A) (q : Queue A) (a : A) (p : ℕ) (x : A) (cs : List (ℕ × A))
      → Laid s q ((p, x) ∷ cs)
      → Walkable (allocate a s) (p, x) cs s.fresh
  unfolding allocate
  Walkable-allocate s q a p x cs l =
      let m = IsBelow-Misses s.fresh ((p, x) ∷ cs) l.old in
      record {
        chain = Chain-store s.heap s.fresh (new_node a) ((p, x) ∷ cs) m l.chain;
        distinct = l.distinct;
        apart = m;
        rear = l.rear;
      }

  Placed-Grows :
      (s : Linked A) (q : Queue A) (a : A) (p : ℕ) (x : A) (cs : List (ℕ × A)) (xs : List A)
      (r : Run (Linked A) (Unit {0}))
      → Laid s q ((p, x) ∷ cs)
      → Placed (allocate a s) (p, x) cs s.fresh xs r
      → Grows q (x ∷ xs) r
  unfolding allocate grown
  Placed-Grows s q a p x cs xs r l u =
      let m = IsBelow-Misses s.fresh ((p, x) ∷ cs) l.old in
      (
        _,
        u.run,
        (
          (p, x) ∷ u.left,
          record {
            items = ap (λ ys. x ∷ ys) (sym u.kept);
            front = l.front;
            rear = refl;
            chain = u.chain;
            distinct = (u.misses p l.distinct.0 (apart p s.fresh m.0), u.distinct);
            old = (
              omega (arith, l.old.0),
              u.below (suc s.fresh) (older s.fresh cs l.old.1) (omega arith),
            );
            size = ap (λ n. n + 1) l.size;
            counted = ap (λ n. n + 1) l.counted ∙ omega (arith, u.count);
          },
        ),
      )

module _ {A : Type 0} (deref : A → Pcb) where
  node-empty :
      (a : A) (s : Linked A)
      → s.front ≡ none
      → enqueue_priority_node deref a s ≡ put_front a none s.fresh (allocate a s)
  unfolding enqueue_priority_node allocate
  node-empty a s e = rw e refl

  node-front :
      (a : A) (s : Linked A) (p : ℕ) (n : Node A)
      → s.front ≡ some p
      → (allocate a s).heap p ≡ some n
      → ltb_ℤ (deref a).priority (deref n.value).priority ≡ true
      → enqueue_priority_node deref a s ≡ put_front a (some p) s.fresh (allocate a s)
  unfolding enqueue_priority_node allocate
  node-front a s p n e f g = ground arith

  node-walk :
      (a : A) (s : Linked A) (p : ℕ) (n : Node A)
      → s.front ≡ some p
      → (allocate a s).heap p ≡ some n
      → ltb_ℤ (deref a).priority (deref n.value).priority ≡ false
      → enqueue_priority_node deref a s ≡ walk_sorted deref s.size a p s.fresh (allocate a s)
  unfolding enqueue_priority_node allocate
  node-walk a s p n e f g = ground arith

  list-front :
      (a x : A) (xs : List A)
      → ltb_ℤ (deref a).priority (deref x).priority ≡ true
      → insert_priority deref a (x ∷ xs) ≡ a ∷ x ∷ xs
  unfolding insert_priority
  list-front a x xs e = rw e refl

  list-behind :
      (a x : A) (xs : List A)
      → ltb_ℤ (deref a).priority (deref x).priority ≡ false
      → insert_priority deref a (x ∷ xs) ≡ x ∷ insert_after deref a xs
  unfolding insert_priority
  list-behind a x xs e = rw e refl

  list-empty : (a : A) → insert_priority deref a [] ≡ a ∷ []
  unfolding insert_priority
  list-empty a = refl

  -- What `enqueue_priority` on nodes has to do for what it does on a list.
  sorted-Grows :
      (s : Linked A) (q : Queue A) (a : A) (cs : List (ℕ × A))
      → Laid s q cs
      → Grows q (insert_priority deref a (values cs)) (enqueue_priority_node deref a s)
  sorted-Grows s q a [] l =
      subst (λ xs. Grows q xs (enqueue_priority_node deref a s)) (sym (list-empty a))
        (subst (Grows q (a ∷ [])) (sym (node-empty a s l.front)) (front-Grows s q a [] l))
  sorted-Grows s q a ((p, x) ∷ cs) l =
      let n : Node A = record { value = x; next = head cs } in
      let w = Walkable-allocate s q a p x cs l in
      elim (Bool-cases (ltb_ℤ (deref a).priority (deref x).priority)) [
        | inl f ↦
            subst (λ xs. Grows q xs (enqueue_priority_node deref a s))
              (sym (list-front a x (values cs) f))
              (subst (Grows q (a ∷ x ∷ values cs)) (sym (node-front a s p n l.front w.chain.0 f))
                (front-Grows s q a ((p, x) ∷ cs) l))
        | inr f ↦
            subst (λ xs. Grows q xs (enqueue_priority_node deref a s))
              (sym (list-behind a x (values cs) f))
              (subst (Grows q (x ∷ insert_after deref a (values cs)))
                (sym (node-walk a s p n l.front w.chain.0 f))
                (Placed-Grows s q a p x cs (insert_after deref a (values cs))
                  (walk_sorted deref s.size a p s.fresh (allocate a s)) l
                  (walk_sorted-Placed deref s.size a p x cs s.fresh (allocate a s) w
                    (omega (arith, l.size, l.counted)))))
      ]

  pub enqueue_priority_node-StandsFor :
      (s : Linked A) (q : Queue A) (a : A) (cs : List (ℕ × A))
      → Laid s q cs
      → (s' : Linked A) × (enqueue_priority_node deref a s ≡ ok tt s')
        × StandsFor s' (enqueue_priority deref q a)
  unfolding enqueue_priority grown
  enqueue_priority_node-StandsFor s q a cs l =
      let (s', e, (ds, k)) = sorted-Grows s q a cs l in
      (
        s',
        e,
        (
          ds,
          record {
            items = ap (insert_priority deref a) l.items ∙ k.items;
            front = k.front;
            rear = k.rear;
            chain = k.chain;
            distinct = k.distinct;
            old = k.old;
            size = k.size;
            counted = k.counted;
          },
        ),
      )
