-- ===== src/Nodes/Walk.antt =====
-- The walk of `dequeue_rear` of data_structures/PCB/Sch_PCB.c to the node before the rear, and the
-- chain that is left when the rear is cut off.
use cpu_scheduler.Base.{
  ℕ, zero, suc, ◌-◌, ◌==◌, ◌<◌, ◌≡◌, refl, ap, ◌∙◌, false, Option, none, some, List, [], ◌∷◌, arith,
  length,
}
use cpu_scheduler.Run.{ok}
use cpu_scheduler.Queue.{split_rear}
use cpu_scheduler.Nodes.{Node, Linked, store, find_before, cut_rear}
use cpu_scheduler.Nodes.Adding.{last-Misses}
use cpu_scheduler.Nodes.Chain.{
  values, head, last, Misses, IsDistinct, IsBelow, Chain, store-at, store-other,
}

module _ {A : Type 0} where
  -- All but the last node, for a first one and the others.
  abbrev pub init : ℕ × A → List (ℕ × A) → List (ℕ × A)
  init c [] = []
  init c (d ∷ cs) = c ∷ init d cs

  abbrev pub final : ℕ × A → List (ℕ × A) → ℕ × A
  final c [] = c
  final c (d ∷ cs) = final d cs

  pub split_rear-values :
      (p : ℕ) (x : A) (cs : List (ℕ × A))
      → split_rear x (values cs) ≡ (values (init (p, x) cs), (final (p, x) cs).1)
  unfolding split_rear
  split_rear-values p x [] = refl
  split_rear-values p x ((q, y) ∷ cs) = rw (split_rear-values q y cs) refl

  pub last-final : (c : ℕ × A) (cs : List (ℕ × A)) → last (c ∷ cs) ≡ some (final c cs).0
  last-final (p, x) [] = refl
  last-final (p, x) (d ∷ cs) = last-final d cs

  find-hit :
      (h : ℕ → Option (Node A)) (fuel p r : ℕ) (n : Node A)
      → h p ≡ some n
      → n.next ≡ some r
      → find_before (suc fuel) h p r ≡ some p
  unfolding find_before
  find-hit h fuel p r n e f = ground arith

  find-on :
      (h : ℕ → Option (Node A)) (fuel p q r : ℕ) (n : Node A)
      → h p ≡ some n
      → n.next ≡ some q
      → (q == r) ≡ false
      → find_before (suc fuel) h p r ≡ find_before fuel h q r
  unfolding find_before
  find-on h fuel p q r n e f g = ground arith

  -- The walk finds the node before the last in no more steps than there are nodes between.
  pub find_before-init :
      (h : ℕ → Option (Node A)) (c d : ℕ × A) (cs : List (ℕ × A)) (fuel r : ℕ)
      → Chain h (c ∷ d ∷ cs)
      → IsDistinct (d ∷ cs)
      → last (d ∷ cs) ≡ some r
      → length cs < fuel
      → (t : ℕ) × (find_before fuel h c.0 r ≡ some t) × (last (init c (d ∷ cs)) ≡ some t)
  find_before-init h (p, x) (q, y) [] (suc fuel) r k dist l n =
      (p, find-hit h fuel p r (record { value = x; next = some q }) k.0 l, refl)
  find_before-init h (p, x) (q, y) (e ∷ cs) (suc fuel) r k dist l n =
      let (t, f, g) = find_before-init h (q, y) e cs fuel r k.1 dist.1 l (omega (arith, n)) in
      (
        t,
        find-on h fuel p q r (record { value = x; next = some q }) k.0 refl
              (last-Misses q r (e ∷ cs) dist.0 l)
            ∙ f,
        g,
      )
  find_before-init h c d cs zero r k dist l n = let no : ⊥ = omega (arith, n) in elim no [ ]

  Misses-init : (p : ℕ) (d : ℕ × A) (cs : List (ℕ × A)) → Misses p (d ∷ cs) → Misses p (init d cs)
  Misses-init p d [] m = tt
  Misses-init p d (e ∷ cs) m = (m.0, Misses-init p e cs m.1)

  pub IsDistinct-init :
      (d : ℕ × A) (cs : List (ℕ × A)) → IsDistinct (d ∷ cs) → IsDistinct (init d cs)
  IsDistinct-init d [] h = tt
  IsDistinct-init (p, x) (e ∷ cs) h = (Misses-init p e cs h.0, IsDistinct-init e cs h.1)

  pub IsBelow-init :
      (n : ℕ) (d : ℕ × A) (cs : List (ℕ × A)) → IsBelow n (d ∷ cs) → IsBelow n (init d cs)
  IsBelow-init n d [] h = tt
  IsBelow-init n d (e ∷ cs) h = (h.0, IsBelow-init n e cs h.1)

  pub length-init : (d : ℕ × A) (cs : List (ℕ × A)) → length (init d cs) ≡ length cs
  length-init d [] = refl
  length-init d (e ∷ cs) = ap suc (length-init e cs)

  held_value :
      (h : ℕ → Option (Node A)) (p : ℕ) (x : A) (next : Option ℕ) (r t : ℕ) (n : Node A)
      → h p ≡ some (record { value = x; next = next })
      → store h r none p ≡ h p
      → some p ≡ some t
      → store h r none t ≡ some n
      → n.value ≡ x
  held_value h p x next r t n k e m f = ground (arith, m)

  -- Freeing the last node and cutting the link to it leaves the chain of the others.
  pub Chain-cut :
      (h : ℕ → Option (Node A)) (c d : ℕ × A) (cs : List (ℕ × A)) (r t : ℕ) (n : Node A)
      → Chain h (c ∷ d ∷ cs)
      → IsDistinct (c ∷ d ∷ cs)
      → last (d ∷ cs) ≡ some r
      → last (init c (d ∷ cs)) ≡ some t
      → store h r none t ≡ some n
      → Chain (store (store h r none) t (some (record n { next = none }))) (init c (d ∷ cs))
  Chain-cut h (p, x) d [] r t n k dist l m f =
      let other : (p == r) ≡ false = last-Misses p r (d ∷ []) dist.0 l in
      let held : n.value ≡ x =
        held_value h p x (head (d ∷ [])) r t n k.0 (store-other h r p none other) m f in
      let o : Option (Node A) = some (record n { next = none }) in
      let same : p ≡ t = ground (arith, m) in
      (
        ap (λ q. store (store h r none) t o q) same
            ∙ store-at (store h r none) t o
            ∙ ap (λ v. some (record { value = v; next = none })) held,
        tt,
      )
  Chain-cut h (p, x) d (e ∷ cs) r t n k dist l m f =
      let other : (p == r) ≡ false = last-Misses p r (d ∷ e ∷ cs) dist.0 l in
      let before : (p == t) ≡ false =
        last-Misses p t (init d (e ∷ cs)) (Misses-init p d (e ∷ cs) dist.0) m in
      (
        store-other (store h r none) t p (some (record n { next = none })) before
            ∙ store-other h r p none other
            ∙ k.0,
        Chain-cut h d e cs r t n k.1 dist.1 l m f,
      )

  pub cut-linked :
      (s : Linked A) (t r : ℕ) (n u : Node A)
      → s.heap r ≡ some n
      → store s.heap r none t ≡ some u
      → cut_rear t r s
        ≡ ok (some n.value) (record s {
          heap = store (store s.heap r none) t (some (record u { next = none }));
          rear = some t;
          size = s.size - 1;
        })
  unfolding cut_rear
  cut-linked s t r n u e f = ground arith

  -- The node of the last cell, and that of the one before it when the last is freed.
  pub node_of_last :
      (h : ℕ → Option (Node A)) (p : ℕ) (x : A) (cs : List (ℕ × A)) (r : ℕ)
      → Chain h ((p, x) ∷ cs)
      → last ((p, x) ∷ cs) ≡ some r
      → h r ≡ some (record { value = (final (p, x) cs).1; next = none })
  node_of_last h p x [] r k l = ground (arith, k.0, l)
  node_of_last h p x ((q, y) ∷ cs) r k l = node_of_last h q y cs r k.1 l

  pub before_node :
      (h : ℕ → Option (Node A)) (c d : ℕ × A) (cs : List (ℕ × A)) (r t : ℕ)
      → Chain h (c ∷ d ∷ cs)
      → IsDistinct (c ∷ d ∷ cs)
      → last (d ∷ cs) ≡ some r
      → last (init c (d ∷ cs)) ≡ some t
      → (u : Node A) × (store h r none t ≡ some u)
  before_node h (p, x) d [] r t k dist l m =
      let same : t ≡ p = ground (arith, m) in
      (
        record { value = x; next = head (d ∷ []) },
        ap (λ q. store h r none q) same
            ∙ store-other h r p none (last-Misses p r (d ∷ []) dist.0 l)
            ∙ k.0,
      )
  before_node h (p, x) d (e ∷ cs) r t k dist l m = before_node h d e cs r t k.1 dist.1 l m
