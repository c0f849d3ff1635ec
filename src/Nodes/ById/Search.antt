-- ===== src/Nodes/ById/Search.antt =====
-- That the search of `dequeue_by_id` of data_structures/PCB/Sch_PCB.c takes from the nodes what it
-- takes from the list they stand for.
use mathlib.Core.Path.{subst}
use cpu_scheduler.Base.{
  ℕ, zero, suc, ◌-◌, ◌==◌, ◌≤◌, ◌≡◌, refl, sym, ap, ◌∙◌, inl, inr, true, false, Option, none, some,
  List, [], ◌∷◌, arith, ℤ, eqb_ℤ, length, Bool-cases, if◌then◌else◌,
}
use cpu_scheduler.Types.{Pcb}
use cpu_scheduler.Run.{Run, ok}
use cpu_scheduler.Queue.{unlink_id}
use cpu_scheduler.Nodes.{Node, Linked, store, points_to}
use cpu_scheduler.Nodes.Adding.{last-Misses}
use cpu_scheduler.Nodes.Chain.{
  apart, values, head, last, Misses, IsDistinct, IsBelow, Chain, store-at, store-other, Chain-store,
}
use cpu_scheduler.Nodes.Walk.{final, last-final}
use cpu_scheduler.Nodes.ById.{unlink_node, search_id}

points_elsewhere :
    (c r p : ℕ) (rear end : Option ℕ)
    → rear ≡ end
    → end ≡ some r
    → (r == c) ≡ false
    → (if points_to rear c then some p else rear) ≡ end
points_elsewhere c r p rear end e l f = ground arith

module _ {A : Type 0} where
  -- A run that takes one node out of those behind a first one, and what it leaves.
  pub record Cut (s : Linked A) (c : ℕ × A) (cs : List (ℕ × A)) (a : A) (xs : List A)
      (r : Run (Linked A) (Option A)) : Type 0 where
    pub left : List (ℕ × A)
    pub heap : ℕ → Option (Node A)
    pub run : r ≡ ok (some a) (record s { heap = heap; rear = last (c ∷ left); size = s.size - 1 })
    pub kept : values left ≡ xs
    pub chain : Chain heap (c ∷ left)
    pub frame : (p : ℕ) → Misses p (c ∷ cs) → heap p ≡ s.heap p
    pub misses : (p : ℕ) → Misses p cs → Misses p left
    pub distinct : IsDistinct left
    pub below : (n : ℕ) → IsBelow n cs → IsBelow n left
    pub count : suc (length left) ≡ length cs

  abbrev pub Found :
      Linked A → ℕ × A → List (ℕ × A) → Option (A × List A) → Run (Linked A) (Option A) → Type 0
  Found s c cs none r = r ≡ ok none s
  Found s c cs (some (a, xs)) r = Cut s c cs a xs r

  unlink-linked :
      (s : Linked A) (p c : ℕ) (n t : Node A)
      → s.heap p ≡ some t
      → unlink_node p c n s
        ≡ ok (some n.value) (record s {
          heap = store (store s.heap p (some (record t { next = n.next }))) c none;
          rear = if points_to s.rear c then some p else s.rear;
          size = s.size - 1;
        })
  unfolding unlink_node
  unlink-linked s p c n t e = ground arith

  -- The rear behind the removal of the second node.
  rear_without :
      (p c : ℕ) (x y : A) (cs : List (ℕ × A)) (rear : Option ℕ)
      → Misses c cs
      → rear ≡ last ((p, x) ∷ (c, y) ∷ cs)
      → (if points_to rear c then some p else rear) ≡ last ((p, x) ∷ cs)
  rear_without p c x y [] rear m e = ground arith
  rear_without p c x y (d ∷ cs) rear m e =
      let l : last (d ∷ cs) ≡ some (final d cs).0 = last-final d cs in
      let f = apart c (final d cs).0 (last-Misses c (final d cs).0 (d ∷ cs) m l) in
      points_elsewhere c (final d cs).0 p rear (last (d ∷ cs)) e l f

  unlink-Cut :
      (s : Linked A) (p c : ℕ) (x y : A) (cs : List (ℕ × A))
      → Chain s.heap ((p, x) ∷ (c, y) ∷ cs)
      → IsDistinct ((p, x) ∷ (c, y) ∷ cs)
      → s.rear ≡ last ((p, x) ∷ (c, y) ∷ cs)
      → Cut s
          (p, x)
          ((c, y) ∷ cs)
          y
          (values cs)
          (unlink_node p c (record { value = y; next = head cs }) s)
  unlink-Cut s p c x y cs k d e =
      let o : Option (Node A) = some (record { value = x; next = head cs }) in
      let h1 = store s.heap p o in
      record {
        left = cs;
        heap = store h1 c none;
        run =
            unlink-linked s p c (record { value = y; next = head cs })
              (record { value = x; next = some c }) k.0
            ∙ ap
                (λ r.
                  ok (some y) (record s { heap = store h1 c none; rear = r; size = s.size - 1 }))
                (rear_without p c x y cs s.rear d.1.0 e);
        kept = refl;
        chain = (
          store-other h1 c p none (apart c p d.0.0) ∙ store-at s.heap p o,
          Chain-store h1 c none cs d.1.0 (Chain-store s.heap p o cs d.0.1 k.1.1),
        );
        frame = λ q m.
            store-other h1 c q none (apart c q m.1.0) ∙ store-other s.heap p q o (apart p q m.0);
        misses = λ q m. m.1;
        distinct = d.1.1;
        below = λ n b. b.1;
        count = refl;
      }

  -- What comes from behind the second node, seen from the first.
  Cut-cons :
      (s : Linked A) (p c : ℕ) (x y : A) (cs : List (ℕ × A)) (a : A) (xs : List A)
      (r : Run (Linked A) (Option A))
      → Chain s.heap ((p, x) ∷ (c, y) ∷ cs)
      → IsDistinct ((p, x) ∷ (c, y) ∷ cs)
      → Cut s (c, y) cs a xs r
      → Cut s (p, x) ((c, y) ∷ cs) a (y ∷ xs) r
  Cut-cons s p c x y cs a xs r k d u = record {
    left = (c, y) ∷ u.left;
    heap = u.heap;
    run = u.run;
    kept = ap (λ ys. y ∷ ys) u.kept;
    chain = (u.frame p d.0 ∙ k.0, u.chain);
    frame = λ q m. u.frame q m.1;
    misses = λ q m. (m.0, u.misses q m.1);
    distinct = (u.misses c d.1.0, u.distinct);
    below = λ n b. (b.0, u.below n b.1);
    count = ap suc u.count;
  }

module _ {A : Type 0} (deref : A → Pcb) where
  search-end :
      (nodes : ℕ) (id : ℤ) (p : ℕ) (s : Linked A) → search_id deref nodes id p none s ≡ ok none s
  unfolding search_id
  search-end zero id p s = refl
  search-end (suc nodes) id p s = refl

  search-hit :
      (nodes : ℕ) (id : ℤ) (p c : ℕ) (n : Node A) (s : Linked A)
      → s.heap c ≡ some n
      → eqb_ℤ (deref n.value).id id ≡ true
      → search_id deref (suc nodes) id p (some c) s ≡ unlink_node p c n s
  unfolding search_id
  search-hit nodes id p c n s e f = ground arith

  search-on :
      (nodes : ℕ) (id : ℤ) (p c : ℕ) (n : Node A) (s : Linked A)
      → s.heap c ≡ some n
      → eqb_ℤ (deref n.value).id id ≡ false
      → search_id deref (suc nodes) id p (some c) s ≡ search_id deref nodes id c n.next s
  unfolding search_id
  search-on nodes id p c n s e f = ground arith

  pub list-none : (id : ℤ) → unlink_id deref id [] ≡ none
  unfolding unlink_id
  list-none id = refl

  pub list-hit :
      (id : ℤ) (y : A) (xs : List A)
      → eqb_ℤ (deref y).id id ≡ true
      → unlink_id deref id (y ∷ xs) ≡ some (y, xs)
  unfolding unlink_id
  list-hit id y xs e = rw e refl

  unfoldable pub behind : A → Option (A × List A) → Option (A × List A)
  behind y none = none
  behind y (some (a, xs)) = some (a, y ∷ xs)

  pub list-on :
      (id : ℤ) (y : A) (xs : List A)
      → eqb_ℤ (deref y).id id ≡ false
      → unlink_id deref id (y ∷ xs) ≡ behind y (unlink_id deref id xs)
  unfolding unlink_id behind
  list-on id y xs e = ground arith

  Found-cons :
      (s : Linked A) (p c : ℕ) (x y : A) (cs : List (ℕ × A)) (o : Option (A × List A))
      (r : Run (Linked A) (Option A))
      → Chain s.heap ((p, x) ∷ (c, y) ∷ cs)
      → IsDistinct ((p, x) ∷ (c, y) ∷ cs)
      → Found s (c, y) cs o r
      → Found s (p, x) ((c, y) ∷ cs) (behind y o) r
  unfolding behind
  Found-cons s p c x y cs none r k d f = f
  Found-cons s p c x y cs (some (a, xs)) r k d f = Cut-cons s p c x y cs a xs r k d f

  -- The search from a first node on, among those behind it.
  pub search_id-Found :
      (nodes : ℕ) (id : ℤ) (p : ℕ) (x : A) (cs : List (ℕ × A)) (s : Linked A)
      → Chain s.heap ((p, x) ∷ cs)
      → IsDistinct ((p, x) ∷ cs)
      → s.rear ≡ last ((p, x) ∷ cs)
      → length cs ≤ nodes
      → Found s (p, x) cs (unlink_id deref id (values cs)) (search_id deref nodes id p (head cs) s)
  search_id-Found nodes id p x [] s k d e n =
      subst (λ o. Found s (p, x) [] o (search_id deref nodes id p none s)) (sym (list-none id))
        (search-end nodes id p s)
  search_id-Found (suc nodes) id p x ((c, y) ∷ cs) s k d e n =
      let node : Node A = record { value = y; next = head cs } in
      elim (Bool-cases (eqb_ℤ (deref y).id id)) [
        | inl f ↦
            subst
              (λ o. Found s (p, x) ((c, y) ∷ cs) o (search_id deref (suc nodes) id p (some c) s))
              (sym (list-hit id y (values cs) f))
              (subst (λ r. Cut s (p, x) ((c, y) ∷ cs) y (values cs) r)
                (sym (search-hit nodes id p c node s k.1.0 f)) (unlink-Cut s p c x y cs k d e))
        | inr f ↦
            let o = unlink_id deref id (values cs) in
            subst
              (λ o. Found s (p, x) ((c, y) ∷ cs) o (search_id deref (suc nodes) id p (some c) s))
              (sym (list-on id y (values cs) f))
              (subst (λ r. Found s (p, x) ((c, y) ∷ cs) (behind y o) r)
                (sym (search-on nodes id p c node s k.1.0 f))
                (Found-cons s p c x y cs o (search_id deref nodes id c (head cs) s) k d
                  (search_id-Found nodes id c y cs s k.1 d.1 e (omega (arith, n)))))
      ]
  search_id-Found zero id p x (c ∷ cs) s k d e n = let no : ⊥ = omega (arith, n) in elim no [ ]
