-- ===== src/Nodes/Rear.antt =====
-- That `dequeue_rear` of data_structures/PCB/Sch_PCB.c takes the last value of the list its nodes
-- stand for.
use mathlib.Core.Path.{subst}
use cpu_scheduler.Base.{
  ℕ, ◌-◌, ◌==◌, ◌<◌, ◌≡◌, refl, sym, ap, ◌∙◌, false, Option, none, some, List, [], ◌∷◌, arith,
  length,
}
use cpu_scheduler.Run.{Run, ok}
use cpu_scheduler.Queue.{Queue, dequeue_rear}
use cpu_scheduler.Nodes.{Node, Linked, store, find_before, cut_rear, dequeue_rear_node}
use cpu_scheduler.Nodes.Adding.{last-Misses}
use cpu_scheduler.Nodes.Chain.{values, last, Laid, StandsFor}
use cpu_scheduler.Nodes.Walk.{
  init, final, split_rear-values, last-final, find_before-init, IsDistinct-init, IsBelow-init,
  length-init, Chain-cut, cut-linked, node_of_last, before_node,
}

module _ {A : Type 0} where
  rear-null : (s : Linked A) → s.front ≡ none → dequeue_rear_node s ≡ ok none s
  unfolding dequeue_rear_node
  rear-null s e = rw e refl

  rear-single :
      (s : Linked A) (p : ℕ) (n : Node A)
      → s.front ≡ some p
      → s.rear ≡ some p
      → s.heap p ≡ some n
      → dequeue_rear_node s
        ≡ ok
            (some n.value)
            (record s { heap = store s.heap p none; front = none; rear = none; size = s.size - 1 })
  unfolding dequeue_rear_node
  rear-single s p n e f g = ground arith

  rear-walk :
      (s : Linked A) (p r t : ℕ)
      → s.front ≡ some p
      → s.rear ≡ some r
      → (p == r) ≡ false
      → find_before s.size s.heap p r ≡ some t
      → dequeue_rear_node s ≡ cut_rear t r s
  unfolding dequeue_rear_node
  rear-walk s p r t e f g h = ground arith

  list-nil : (q : Queue A) → q.items ≡ [] → dequeue_rear q ≡ none
  unfolding dequeue_rear
  list-nil q e = rw e refl

  front_of : Queue A → ℕ × A → List (ℕ × A) → Queue A
  front_of q c cs = record { items = values (init c cs); size = q.size - 1 }

  list-rear :
      (q : Queue A) (p : ℕ) (x : A) (cs : List (ℕ × A))
      → q.items ≡ values ((p, x) ∷ cs)
      → dequeue_rear q ≡ some ((final (p, x) cs).1, front_of q (p, x) cs)
  unfolding dequeue_rear front_of
  list-rear q p x cs e = rw (e, split_rear-values p x cs) refl

  -- What `dequeue_rear` on nodes has to do for what it does on a list: give null and change nothing
  -- on an empty list, and otherwise give the last value and leave nodes that stand for the others.
  abbrev pub TakesRear : Linked A → Option (A × Queue A) → Run (Linked A) (Option A) → Type 0
  TakesRear s none r = r ≡ ok none s
  TakesRear s (some (a, rest)) r = (s' : Linked A) × (r ≡ ok (some a) s') × StandsFor s' rest

  single-TakesRear :
      (s : Linked A) (q : Queue A) (p : ℕ) (x : A)
      → Laid s q ((p, x) ∷ [])
      → TakesRear s (some (x, front_of q (p, x) [])) (dequeue_rear_node s)
  unfolding front_of
  single-TakesRear s q p x l = (
    _,
    rear-single s p (record { value = x; next = none }) l.front l.rear l.chain.0,
    (
      [],
      record {
        items = refl;
        front = refl;
        rear = refl;
        chain = tt;
        distinct = tt;
        old = tt;
        size = ap (λ n. n - 1) l.size;
        counted = ap (λ n. n - 1) l.counted ∙ refl;
      },
    ),
  )

  cut-Laid :
      (s : Linked A) (q : Queue A) (c d : ℕ × A) (cs : List (ℕ × A)) (r t : ℕ) (u : Node A)
      → Laid s q (c ∷ d ∷ cs)
      → last (d ∷ cs) ≡ some r
      → last (init c (d ∷ cs)) ≡ some t
      → store s.heap r none t ≡ some u
      → Laid
          (record s {
            heap = store (store s.heap r none) t (some (record u { next = none }));
            rear = some t;
            size = s.size - 1;
          })
          (front_of q c (d ∷ cs))
          (init c (d ∷ cs))
  unfolding front_of
  cut-Laid s q c d cs r t u l e f g = record {
    items = refl;
    front = l.front;
    rear = sym f;
    chain = Chain-cut s.heap c d cs r t u l.chain l.distinct e f g;
    distinct = IsDistinct-init c (d ∷ cs) l.distinct;
    old = IsBelow-init s.fresh c (d ∷ cs) l.old;
    size = ap (λ n. n - 1) l.size;
    counted = ap (λ n. n - 1) l.counted ∙ omega (arith, length-init d cs);
  }

  walk-TakesRear :
      (s : Linked A) (q : Queue A) (p : ℕ) (x : A) (d : ℕ × A) (cs : List (ℕ × A))
      → Laid s q ((p, x) ∷ d ∷ cs)
      → TakesRear s (some ((final d cs).1, front_of q (p, x) (d ∷ cs))) (dequeue_rear_node s)
  walk-TakesRear s q p x d cs l =
      let r = (final d cs).0 in
      let e : last (d ∷ cs) ≡ some r = last-final d cs in
      let enough : length cs < s.size = omega (arith, l.size, l.counted) in
      let (t, f, g) = find_before-init s.heap (p, x) d cs s.size r l.chain l.distinct.1 e enough in
      let (u, k) = before_node s.heap (p, x) d cs r t l.chain l.distinct e g in
      (
        _,
        rear-walk s p r t l.front (l.rear ∙ e) (last-Misses p r (d ∷ cs) l.distinct.0 e) f
            ∙ cut-linked s t r (record { value = (final d cs).1; next = none }) u
                (node_of_last s.heap d.0 d.1 cs r l.chain.1 e) k,
        (init (p, x) (d ∷ cs), cut-Laid s q (p, x) d cs r t u l e g k),
      )

  pub dequeue_rear_node-TakesRear :
      (s : Linked A) (q : Queue A) (cs : List (ℕ × A))
      → Laid s q cs
      → TakesRear s (dequeue_rear q) (dequeue_rear_node s)
  dequeue_rear_node-TakesRear s q [] l =
      subst (λ o. TakesRear s o (dequeue_rear_node s)) (sym (list-nil q l.items))
        (rear-null s l.front)
  dequeue_rear_node-TakesRear s q ((p, x) ∷ []) l =
      subst (λ o. TakesRear s o (dequeue_rear_node s)) (sym (list-rear q p x [] l.items))
        (single-TakesRear s q p x l)
  dequeue_rear_node-TakesRear s q ((p, x) ∷ d ∷ cs) l =
      subst (λ o. TakesRear s o (dequeue_rear_node s)) (sym (list-rear q p x (d ∷ cs) l.items))
        (walk-TakesRear s q p x d cs l)
