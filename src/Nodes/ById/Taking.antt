-- ===== src/Nodes/ById/Taking.antt =====
-- That `dequeue_by_id` of data_structures/PCB/Sch_PCB.c on the nodes does what it promises of a list.
use mathlib.Core.Path.{subst}
use cpu_scheduler.Base.{
  ℕ, ◌-◌, ◌≡◌, refl, sym, ap, ◌∙◌, inl, inr, true, false, Option, none, some, List, [], ◌∷◌, arith,
  ℤ, eqb_ℤ, Bool-cases,
}
use cpu_scheduler.Types.{Pcb}
use cpu_scheduler.Run.{Run, ok}
use cpu_scheduler.Queue.{Queue, unlink_id, dequeue_by_id}
use cpu_scheduler.Nodes.{Node, Linked, dequeue_node}
use cpu_scheduler.Nodes.Chain.{values, head, Laid, StandsFor}
use cpu_scheduler.Nodes.ById.{search_id, dequeue_by_id_node}
use cpu_scheduler.Nodes.Front.{dequeue-front}
use cpu_scheduler.Nodes.ById.Search.{
  Cut, Found, behind, list-none, list-hit, list-on, search_id-Found,
}

module _ {A : Type 0} where
  -- What `dequeue_by_id` on nodes has to do for what it does on a list: give null and change nothing
  -- if the list has no such value, and otherwise give the value and leave nodes that stand for the
  -- others.
  abbrev pub TakesId : Linked A → Option (A × Queue A) → Run (Linked A) (Option A) → Type 0
  TakesId s none r = r ≡ ok none s
  TakesId s (some (a, rest)) r = (s' : Linked A) × (r ≡ ok (some a) s') × StandsFor s' rest

module _ {A : Type 0} (deref : A → Pcb) where
  by_id-null : (id : ℤ) (s : Linked A) → s.front ≡ none → dequeue_by_id_node deref id s ≡ ok none s
  unfolding dequeue_by_id_node
  by_id-null id s e = rw e refl

  by_id-front :
      (id : ℤ) (s s' : Linked A) (p : ℕ) (n : Node A) (a : A)
      → s.front ≡ some p
      → s.heap p ≡ some n
      → eqb_ℤ (deref n.value).id id ≡ true
      → dequeue_node s ≡ ok a s'
      → dequeue_by_id_node deref id s ≡ ok (some a) s'
  unfolding dequeue_by_id_node
  by_id-front id s s' p n a e f g h = ground arith

  by_id-behind :
      (id : ℤ) (s : Linked A) (p : ℕ) (n : Node A)
      → s.front ≡ some p
      → s.heap p ≡ some n
      → eqb_ℤ (deref n.value).id id ≡ false
      → dequeue_by_id_node deref id s ≡ search_id deref s.size id p n.next s
  unfolding dequeue_by_id_node
  by_id-behind id s p n e f g = ground arith

  -- The queue with the rest, for what the search in its list gives.
  counted_down : ℕ → Option (A × List A) → Option (A × Queue A)
  counted_down n none = none
  counted_down n (some (a, xs)) = some (a, record { items = xs; size = n - 1 })

  list-by_id :
      (id : ℤ) (q : Queue A) (xs : List A)
      → q.items ≡ xs
      → dequeue_by_id deref q id ≡ counted_down q.size (unlink_id deref id xs)
  unfolding dequeue_by_id counted_down
  list-by_id id q xs e = ground arith

  Cut-Laid :
      (s : Linked A) (q : Queue A) (p : ℕ) (x : A) (cs : List (ℕ × A)) (a : A) (xs : List A)
      (r : Run (Linked A) (Option A))
      → Laid s q ((p, x) ∷ cs)
      → Cut s (p, x) cs a xs r
      → TakesId s (some (a, record { items = x ∷ xs; size = q.size - 1 })) r
  Cut-Laid s q p x cs a xs r l u = (
    _,
    u.run,
    (
      (p, x) ∷ u.left,
      record {
        items = ap (λ ys. x ∷ ys) (sym u.kept);
        front = l.front;
        rear = refl;
        chain = u.chain;
        distinct = (u.misses p l.distinct.0, u.distinct);
        old = (l.old.0, u.below s.fresh l.old.1);
        size = ap (λ n. n - 1) l.size;
        counted = ap (λ n. n - 1) l.counted ∙ omega (arith, u.count);
      },
    ),
  )

  Found-TakesId :
      (s : Linked A) (q : Queue A) (p : ℕ) (x : A) (cs : List (ℕ × A)) (o : Option (A × List A))
      (r : Run (Linked A) (Option A))
      → Laid s q ((p, x) ∷ cs)
      → Found s (p, x) cs o r
      → TakesId s (counted_down q.size (behind deref x o)) r
  unfolding counted_down behind
  Found-TakesId s q p x cs none r l f = f
  Found-TakesId s q p x cs (some (a, xs)) r l f = Cut-Laid s q p x cs a xs r l f

  hit-TakesId :
      (id : ℤ) (s : Linked A) (q : Queue A) (p : ℕ) (x : A) (cs : List (ℕ × A))
      → Laid s q ((p, x) ∷ cs)
      → eqb_ℤ (deref x).id id ≡ true
      → TakesId s
          (some (x, record { items = values cs; size = q.size - 1 }))
          (dequeue_by_id_node deref id s)
  hit-TakesId id s q p x cs l f =
      let (s', e, g) = dequeue-front s q p x cs l in
      (s', by_id-front id s s' p (record { value = x; next = head cs }) x l.front l.chain.0 f e, g)

  counted_down-some :
      (n : ℕ) (a : A) (xs : List A)
      → counted_down n (some (a, xs)) ≡ some (a, record { items = xs; size = n - 1 })
  unfolding counted_down
  counted_down-some n a xs = refl

  counted_down-none : (n : ℕ) → counted_down n none ≡ none
  unfolding counted_down
  counted_down-none n = refl

  pub dequeue_by_id_node-TakesId :
      (id : ℤ) (s : Linked A) (q : Queue A) (cs : List (ℕ × A))
      → Laid s q cs
      → TakesId s (dequeue_by_id deref q id) (dequeue_by_id_node deref id s)
  dequeue_by_id_node-TakesId id s q [] l =
      subst (λ o. TakesId s o (dequeue_by_id_node deref id s))
        (sym (
          list-by_id id q [] l.items
          ∙ ap (counted_down q.size) (list-none deref id)
          ∙ counted_down-none q.size))
        (by_id-null id s l.front)
  dequeue_by_id_node-TakesId id s q ((p, x) ∷ cs) l =
      let run = dequeue_by_id_node deref id s in
      let listed = list-by_id id q (x ∷ values cs) l.items in
      elim (Bool-cases (eqb_ℤ (deref x).id id)) [
        | inl f ↦
            subst (λ o. TakesId s o run)
              (sym (
                listed
                ∙ ap (counted_down q.size) (list-hit deref id x (values cs) f)
                ∙ counted_down-some q.size x (values cs)))
              (hit-TakesId id s q p x cs l f)
        | inr f ↦
            let o = unlink_id deref id (values cs) in
            let found =
              search_id-Found deref s.size id p x cs s l.chain l.distinct l.rear
                (omega (arith, l.size, l.counted)) in
            subst (λ o. TakesId s o run)
              (sym (listed ∙ ap (counted_down q.size) (list-on deref id x (values cs) f)))
              (subst (λ r. TakesId s (counted_down q.size (behind deref x o)) r)
                (sym
                  (by_id-behind id s p (record { value = x; next = head cs }) l.front l.chain.0 f))
                (Found-TakesId s q p x cs o (search_id deref s.size id p (head cs) s) l found))
      ]
