-- ===== src/Nodes/Front.antt =====
-- That `dequeue`, `peek` and `freeQueue` of data_structures/PCB/Sch_PCB.c work at the front of the
-- list their nodes stand for, and that the last frees every node.
use mathlib.Core.Path.{subst}
use cpu_scheduler.Base.{
  ℕ, zero, suc, ◌-◌, ◌≤◌, ◌≡◌, refl, sym, ap, ◌∙◌, Option, none, some, List, [], ◌∷◌, arith, length,
  if◌then◌else◌,
}
use cpu_scheduler.Run.{Run, ok, exits}
use cpu_scheduler.Queue.{Queue, dequeue, peek}
use cpu_scheduler.Nodes.{Node, Linked, store, is_null, dequeue_node, peek_node, free_nodes}
use cpu_scheduler.Nodes.Chain.{values, head, last, store-at, Chain-store, Laid, StandsFor}

module _ {A : Type 0} where
  dequeue-linked :
      (s : Linked A) (p : ℕ) (n : Node A)
      → s.front ≡ some p
      → s.heap p ≡ some n
      → dequeue_node s
        ≡ ok n.value (record s {
          heap = store s.heap p none;
          front = n.next;
          rear = if is_null n.next then none else s.rear;
          size = s.size - 1;
        })
  unfolding dequeue_node
  dequeue-linked s p n e f = ground arith

  -- What `dequeue` on nodes has to do for what it does on a list: end the program on an empty list,
  -- and otherwise give the front and leave nodes that stand for the rest.
  abbrev pub Dequeues : Option (A × Queue A) → Run (Linked A) A → Type 0
  Dequeues none r = r ≡ exits
  Dequeues (some (a, rest)) r = (s' : Linked A) × (r ≡ ok a s') × StandsFor s' rest

  abbrev first : List A → Option A
  first [] = none
  first (x ∷ xs) = some x

  rest_of : Queue A → List (ℕ × A) → Queue A
  rest_of q cs = record { items = values cs; size = q.size - 1 }

  last-cons :
      (p : ℕ) (x : A) (cs : List (ℕ × A))
      → (if is_null (head cs) then none else last ((p, x) ∷ cs)) ≡ last cs
  last-cons p x [] = refl
  last-cons p x ((q, y) ∷ cs) = refl

  -- The state that `dequeue` leaves of these nodes.
  taken : Linked A → ℕ → Node A → Linked A
  taken s p n = record s {
    heap = store s.heap p none;
    front = n.next;
    rear = if is_null n.next then none else s.rear;
    size = s.size - 1;
  }

  taken-Laid :
      (s : Linked A) (q : Queue A) (p : ℕ) (x : A) (cs : List (ℕ × A))
      → Laid s q ((p, x) ∷ cs)
      → Laid (taken s p (record { value = x; next = head cs })) (rest_of q cs) cs
  unfolding taken rest_of
  taken-Laid s q p x cs l = record {
    items = refl;
    front = refl;
    rear = ap (λ r. if is_null (head cs) then none else r) l.rear ∙ last-cons p x cs;
    chain = Chain-store s.heap p none cs l.distinct.0 l.chain.1;
    distinct = l.distinct.1;
    old = l.old.1;
    size = ap (λ n. n - 1) l.size;
    counted = ap (λ n. n - 1) l.counted ∙ omega arith;
  }

  dequeue-rest :
      (q : Queue A) (p : ℕ) (x : A) (cs : List (ℕ × A))
      → q.items ≡ values ((p, x) ∷ cs)
      → dequeue q ≡ some (x, rest_of q cs)
  unfolding dequeue rest_of
  dequeue-rest q p x cs e = rw e refl

  dequeue-taken :
      (s : Linked A) (q : Queue A) (p : ℕ) (x : A) (cs : List (ℕ × A))
      → Laid s q ((p, x) ∷ cs)
      → dequeue_node s ≡ ok x (taken s p (record { value = x; next = head cs }))
  unfolding taken
  dequeue-taken s q p x cs l =
      dequeue-linked s p (record { value = x; next = head cs }) l.front l.chain.0

  pub dequeue-front :
      (s : Linked A) (q : Queue A) (p : ℕ) (x : A) (cs : List (ℕ × A))
      → Laid s q ((p, x) ∷ cs)
      → (s' : Linked A) × (dequeue_node s ≡ ok x s')
        × StandsFor s' (record { items = values cs; size = q.size - 1 })
  unfolding rest_of
  dequeue-front s q p x cs l = (
    taken s p (record { value = x; next = head cs }),
    dequeue-taken s q p x cs l,
    (cs, taken-Laid s q p x cs l),
  )

  dequeue-null : (s : Linked A) → s.front ≡ none → dequeue_node s ≡ exits
  unfolding dequeue_node
  dequeue-null s e = rw e refl

  dequeue-nil : (q : Queue A) → q.items ≡ [] → dequeue q ≡ none
  unfolding dequeue
  dequeue-nil q e = rw e refl

  -- On nodes that stand for a list, `dequeue` ends the program if the list is empty; otherwise it
  -- returns the value at the front of the list and leaves nodes that stand for the rest.
  pub dequeue_node-Dequeues :
      (s : Linked A) (q : Queue A) → StandsFor s q → Dequeues (dequeue q) (dequeue_node s)
  dequeue_node-Dequeues s q ([], l) =
      subst (λ o. Dequeues o (dequeue_node s)) (sym (dequeue-nil q l.items))
        (dequeue-null s l.front)
  dequeue_node-Dequeues s q ((p, x) ∷ cs, l) =
      subst (λ o. Dequeues o (dequeue_node s)) (sym (dequeue-rest q p x cs l.items))
        (
          taken s p (record { value = x; next = head cs }),
          dequeue-taken s q p x cs l,
          (cs, taken-Laid s q p x cs l),
        )

  store-gone : (h : ℕ → Option (Node A)) (p r : ℕ) → h r ≡ none → store h p none r ≡ none
  unfolding store
  store-gone h p r e = ground arith

  free-null : (rounds : ℕ) (s : Linked A) → s.front ≡ none → free_nodes rounds s ≡ ok tt s
  unfolding free_nodes
  free-null zero s e = rw e refl
  free-null (suc rounds) s e = rw e refl

  free-on :
      (rounds : ℕ) (s : Linked A) (p : ℕ) (a : A) (s' : Linked A)
      → s.front ≡ some p
      → dequeue_node s ≡ ok a s'
      → free_nodes (suc rounds) s ≡ free_nodes rounds s'
  unfolding free_nodes
  free-on rounds s p a s' e f = rw (ap is_null e, f) refl

  -- What `peek` on nodes has to do for what it does on a list.
  abbrev pub Peeks : Linked A → Option A → Run (Linked A) A → Type 0
  Peeks s none r = r ≡ exits
  Peeks s (some a) r = r ≡ ok a s

  peek-null : (s : Linked A) → s.front ≡ none → peek_node s ≡ exits
  unfolding peek_node
  peek-null s e = rw e refl

  peek-linked :
      (s : Linked A) (p : ℕ) (n : Node A)
      → s.front ≡ some p
      → s.heap p ≡ some n
      → peek_node s ≡ ok n.value s
  unfolding peek_node
  peek-linked s p n e f = ground arith

  peek-items : (q : Queue A) (xs : List A) → q.items ≡ xs → peek q ≡ first xs
  unfolding peek
  peek-items q [] e = rw e refl
  peek-items q (x ∷ xs) e = rw e refl

  pub peek_node-Peeks :
      (s : Linked A) (q : Queue A) (cs : List (ℕ × A))
      → Laid s q cs
      → Peeks s (peek q) (peek_node s)
  peek_node-Peeks s q [] l =
      subst (λ o. Peeks s o (peek_node s)) (sym (peek-items q [] l.items)) (peek-null s l.front)
  peek_node-Peeks s q ((p, x) ∷ cs) l =
      subst (λ o. Peeks s o (peek_node s)) (sym (peek-items q (x ∷ values cs) l.items))
        (peek-linked s p (record { value = x; next = head cs }) l.front l.chain.0)

  -- The nodes are gone from the heap.
  abbrev pub AllGone : (ℕ → Option (Node A)) → List (ℕ × A) → Type 0
  AllGone h [] = Unit
  AllGone h ((p, x) ∷ cs) = (h p ≡ none) × AllGone h cs

  taken-gone :
      (s : Linked A) (p : ℕ) (cs : List (ℕ × A)) (x : A)
      → (taken s p (record { value = x; next = head cs })).heap p ≡ none
  unfolding taken
  taken-gone s p cs x = store-at s.heap p none

  free_nodes-Laid :
      (cs : List (ℕ × A)) (s : Linked A) (q : Queue A) (rounds : ℕ)
      → Laid s q cs
      → length cs ≤ rounds
      → (s' : Linked A) × (free_nodes rounds s ≡ ok tt s')
        × (s'.front ≡ none)
        × AllGone s'.heap cs
        × ((p : ℕ) → s.heap p ≡ none → s'.heap p ≡ none)
  unfolding taken
  free_nodes-Laid [] s q rounds l h = (s, free-null rounds s l.front, l.front, tt, λ p e. e)
  free_nodes-Laid ((p, x) ∷ cs) s q (suc rounds) l h =
      let t = taken s p (record { value = x; next = head cs }) in
      let (s', e, f, g, k) =
        free_nodes-Laid cs t (rest_of q cs) rounds (taken-Laid s q p x cs l) (omega arith) in
      (
        s',
        free-on rounds s p x t l.front (dequeue-taken s q p x cs l) ∙ e,
        f,
        (k p (taken-gone s p cs x), g),
        λ r d. k r (store-gone s.heap p r d),
      )
  free_nodes-Laid ((p, x) ∷ cs) s q zero l h = let no : ⊥ = omega (arith, h) in elim no [ ]

  -- On nodes that stand for a list, `freeQueue` needs as many rounds as the counter says and meets no
  -- fault on the way; it leaves the queue empty and none of its nodes on the heap.
  pub free_nodes_all :
      (s : Linked A) (q : Queue A) (cs : List (ℕ × A))
      → Laid s q cs
      → (s' : Linked A) × (free_nodes s.size s ≡ ok tt s') × (s'.front ≡ none) × AllGone s'.heap cs
  free_nodes_all s q cs l =
      let (s', e, f, g, k) = free_nodes-Laid cs s q s.size l (omega (arith, l.size, l.counted)) in
      (s', e, f, g)
