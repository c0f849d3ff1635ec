-- ===== src/Nodes/Sorted/Insertion.antt =====
-- Where the walk of `enqueue_priority` of data_structures/PCB/Sch_PCB.c puts the new node.
use mathlib.Core.Path.{subst}
use cpu_scheduler.Base.{
  ℕ, zero, suc, ◌+◌, ◌==◌, ◌<◌, ◌≡◌, refl, sym, ap, ◌∙◌, inl, inr, true, false, Option, none, some,
  List, [], ◌∷◌, arith, length, Bool-cases, if◌then◌else◌,
}
use cpu_scheduler.Types.{Pcb}
use cpu_scheduler.Run.{Run, ok}
use cpu_scheduler.Queue.{stays_before, insert_after}
use cpu_scheduler.Nodes.{Node, Linked, store, is_null}
use cpu_scheduler.Nodes.Chain.{
  apart, values, head, last, Misses, IsDistinct, IsBelow, Chain, store-at, store-other, Chain-store,
}
use cpu_scheduler.Nodes.Sorted.{link_behind, walk_sorted}

module _ {A : Type 0} where
  -- A run that puts a new node among those behind a first one, and what it leaves.
  pub record Placed (s : Linked A) (c : ℕ × A) (cs : List (ℕ × A)) (new : ℕ) (xs : List A)
      (r : Run (Linked A) (Unit {0})) : Type 0 where
    pub left : List (ℕ × A)
    pub heap : ℕ → Option (Node A)
    pub run : r ≡ ok tt (record s { heap = heap; rear = last (c ∷ left); size = s.size + 1 })
    pub kept : values left ≡ xs
    pub chain : Chain heap (c ∷ left)
    pub frame : (p : ℕ) → Misses p (c ∷ cs) → (p == new) ≡ false → heap p ≡ s.heap p
    pub misses : (p : ℕ) → Misses p cs → (new == p) ≡ false → Misses p left
    pub distinct : IsDistinct left
    pub below : (n : ℕ) → IsBelow n cs → new < n → IsBelow n left
    pub count : length left ≡ suc (length cs)

  -- The nodes to walk on, and a new node apart from them.
  pub record Walkable (s : Linked A) (c : ℕ × A) (cs : List (ℕ × A)) (new : ℕ) : Type 0 where
    pub chain : Chain s.heap (c ∷ cs)
    pub distinct : IsDistinct (c ∷ cs)
    pub apart : Misses new (c ∷ cs)
    pub rear : s.rear ≡ last (c ∷ cs)

  link-linked :
      (s : Linked A) (p new : ℕ) (a : A) (n : Node A)
      → s.heap p ≡ some n
      → link_behind p new a s
        ≡ ok tt (record s {
          heap =
              store
                (store s.heap new (some (record { value = a; next = n.next })))
                p
                (some (record n { next = some new }));
          rear = if is_null n.next then some new else s.rear;
          size = s.size + 1;
        })
  unfolding link_behind
  link-linked s p new a n e = ground arith

  rear_with :
      (p new : ℕ) (x a : A) (cs : List (ℕ × A)) (rear : Option ℕ)
      → rear ≡ last ((p, x) ∷ cs)
      → (if is_null (head cs) then some new else rear) ≡ last ((p, x) ∷ (new, a) ∷ cs)
  rear_with p new x a [] rear e = refl
  rear_with p new x a ((q, y) ∷ cs) rear e = e

  link-Placed :
      (s : Linked A) (p new : ℕ) (x a : A) (cs : List (ℕ × A))
      → Walkable s (p, x) cs new
      → Placed s (p, x) cs new (a ∷ values cs) (link_behind p new a s)
  link-Placed s p new x a cs w =
      let o : Option (Node A) = some (record { value = a; next = head cs }) in
      let h1 = store s.heap new o in
      let u : Option (Node A) = some (record { value = x; next = some new }) in
      record {
        left = (new, a) ∷ cs;
        heap = store h1 p u;
        run =
            link-linked s p new a (record { value = x; next = head cs }) w.chain.0
            ∙ ap (λ r. ok tt (record s { heap = store h1 p u; rear = r; size = s.size + 1 }))
                (rear_with p new x a cs s.rear w.rear);
        kept = refl;
        chain = (
          store-at h1 p u,
          (
            store-other h1 p new u (apart p new w.apart.0) ∙ store-at s.heap new o,
            Chain-store h1 p u cs w.distinct.0 (Chain-store s.heap new o cs w.apart.1 w.chain.1),
          ),
        );
        frame = λ q m e. store-other h1 p q u (apart p q m.0) ∙ store-other s.heap new q o e;
        misses = λ q m e. (e, m);
        distinct = (w.apart.1, w.distinct.1);
        below = λ n b e. (e, b);
        count = refl;
      }

  -- What comes from behind the second node, seen from the first.
  Placed-cons :
      (s : Linked A) (p c new : ℕ) (x y : A) (cs : List (ℕ × A)) (xs : List A)
      (r : Run (Linked A) (Unit {0}))
      → Walkable s (p, x) ((c, y) ∷ cs) new
      → Placed s (c, y) cs new xs r
      → Placed s (p, x) ((c, y) ∷ cs) new (y ∷ xs) r
  Placed-cons s p c new x y cs xs r w u = record {
    left = (c, y) ∷ u.left;
    heap = u.heap;
    run = u.run;
    kept = ap (λ ys. y ∷ ys) u.kept;
    chain = (u.frame p w.distinct.0 w.apart.0 ∙ w.chain.0, u.chain);
    frame = λ q m e. u.frame q m.1 e;
    misses = λ q m e. (m.0, u.misses q m.1 e);
    distinct = (u.misses c w.distinct.1.0 (apart c new w.apart.1.0), u.distinct);
    below = λ n b e. (b.0, u.below n b.1 e);
    count = ap suc u.count;
  }

module _ {A : Type 0} (deref : A → Pcb) where
  walk-end :
      (nodes : ℕ) (a : A) (p new : ℕ) (x : A) (s : Linked A)
      → s.heap p ≡ some (record { value = x; next = none })
      → walk_sorted deref (suc nodes) a p new s ≡ link_behind p new a s
  unfolding walk_sorted
  walk-end nodes a p new x s e = ground arith

  walk-stops :
      (nodes : ℕ) (a : A) (p q new : ℕ) (n m : Node A) (s : Linked A)
      → s.heap p ≡ some n
      → n.next ≡ some q
      → s.heap q ≡ some m
      → stays_before deref m.value a ≡ false
      → walk_sorted deref (suc nodes) a p new s ≡ link_behind p new a s
  unfolding walk_sorted
  walk-stops nodes a p q new n m s e f g h = ground arith

  walk-on :
      (nodes : ℕ) (a : A) (p q new : ℕ) (n m : Node A) (s : Linked A)
      → s.heap p ≡ some n
      → n.next ≡ some q
      → s.heap q ≡ some m
      → stays_before deref m.value a ≡ true
      → walk_sorted deref (suc nodes) a p new s ≡ walk_sorted deref nodes a q new s
  unfolding walk_sorted
  walk-on nodes a p q new n m s e f g h = ground arith

  list-stops :
      (a y : A) (xs : List A)
      → stays_before deref y a ≡ false
      → insert_after deref a (y ∷ xs) ≡ a ∷ y ∷ xs
  unfolding insert_after
  list-stops a y xs e = rw e refl

  list-goes :
      (a y : A) (xs : List A)
      → stays_before deref y a ≡ true
      → insert_after deref a (y ∷ xs) ≡ y ∷ insert_after deref a xs
  unfolding insert_after
  list-goes a y xs e = rw e refl

  list-end : (a : A) → insert_after deref a [] ≡ a ∷ []
  unfolding insert_after
  list-end a = refl

  -- The walk from a first node on puts the new one where the list has it.
  pub walk_sorted-Placed :
      (nodes : ℕ) (a : A) (p : ℕ) (x : A) (cs : List (ℕ × A)) (new : ℕ) (s : Linked A)
      → Walkable s (p, x) cs new
      → length cs < nodes
      → Placed s
          (p, x)
          cs
          new
          (insert_after deref a (values cs))
          (walk_sorted deref nodes a p new s)
  walk_sorted-Placed zero a p x cs new s w n = let no : ⊥ = omega (arith, n) in elim no [ ]
  walk_sorted-Placed (suc nodes) a p x [] new s w n =
      subst (λ xs. Placed s (p, x) [] new xs (walk_sorted deref (suc nodes) a p new s))
        (sym (list-end a))
        (subst (λ r. Placed s (p, x) [] new (a ∷ []) r) (sym (walk-end nodes a p new x s w.chain.0))
          (link-Placed s p new x a [] w))
  walk_sorted-Placed (suc nodes) a p x ((c, y) ∷ cs) new s w n =
      let first : Node A = record { value = x; next = some c } in
      let second : Node A = record { value = y; next = head cs } in
      elim (Bool-cases (stays_before deref y a)) [
        | inr f ↦
            subst
              (λ xs. Placed s (p, x) ((c, y) ∷ cs) new xs (walk_sorted deref (suc nodes) a p new s))
              (sym (list-stops a y (values cs) f))
              (subst (λ r. Placed s (p, x) ((c, y) ∷ cs) new (a ∷ y ∷ values cs) r)
                (sym (walk-stops nodes a p c new first second s w.chain.0 refl w.chain.1.0 f))
                (link-Placed s p new x a ((c, y) ∷ cs) w))
        | inl f ↦
            let behind : Walkable s (c, y) cs new = record {
              chain = w.chain.1;
              distinct = w.distinct.1;
              apart = w.apart.1;
              rear = w.rear;
            } in
            subst
              (λ xs. Placed s (p, x) ((c, y) ∷ cs) new xs (walk_sorted deref (suc nodes) a p new s))
              (sym (list-goes a y (values cs) f))
              (subst
                (λ r. Placed s (p, x) ((c, y) ∷ cs) new (y ∷ insert_after deref a (values cs)) r)
                (sym (walk-on nodes a p c new first second s w.chain.0 refl w.chain.1.0 f))
                (Placed-cons s p c new x y cs (insert_after deref a (values cs))
                  (walk_sorted deref nodes a c new s) w
                  (walk_sorted-Placed nodes a c y cs new s behind (omega (arith, n)))))
      ]
