-- ===== src/Nodes/Adding.antt =====
-- That `enqueue` of data_structures/PCB/Sch_PCB.c adds at the rear of the list its nodes stand for.
use cpu_scheduler.Base.{
  ℕ, suc, ◌+◌, ◌==◌, ◌≡◌, refl, sym, ap, ◌∙◌, false, Option, none, some, List, [], ◌∷◌, ◌++◌, arith,
  length-append,
}
use cpu_scheduler.Run.{ok}
use cpu_scheduler.Queue.{Queue, enqueue}
use cpu_scheduler.Nodes.{Node, Linked, store, new_node, enqueue_node}
use cpu_scheduler.Nodes.Chain.{
  values, head, last, Misses, IsDistinct, IsBelow, IsBelow-Misses, Chain, store-at, store-other,
  Chain-store, StandsFor,
}

module _ {A : Type 0} where
  pub last-Misses :
      (p r : ℕ) (cs : List (ℕ × A)) → Misses p cs → last cs ≡ some r → (p == r) ≡ false
  last-Misses p r [] m e = cc
  last-Misses p r ((q, x) ∷ []) m e = ground arith
  last-Misses p r (c ∷ d ∷ cs) m e = last-Misses p r (d ∷ cs) m.1 e

  pub Misses-last :
      (q : ℕ) (cs : List (ℕ × A)) (p : ℕ) (a : A)
      → Misses q cs
      → (p == q) ≡ false
      → Misses q (cs ++ (p, a) ∷ [])
  Misses-last q [] p a m e = (e, tt)
  Misses-last q (c ∷ cs) p a m e = (m.0, Misses-last q cs p a m.1 e)

  IsDistinct-last :
      (cs : List (ℕ × A)) (p : ℕ) (a : A)
      → IsDistinct cs
      → Misses p cs
      → IsDistinct (cs ++ (p, a) ∷ [])
  IsDistinct-last [] p a d m = (tt, tt)
  IsDistinct-last ((q, x) ∷ cs) p a d m =
      (Misses-last q cs p a d.0 (ground (arith, m.0)), IsDistinct-last cs p a d.1 m.1)

  pub last-append : (cs : List (ℕ × A)) (p : ℕ) (a : A) → last (cs ++ (p, a) ∷ []) ≡ some p
  last-append [] p a = refl
  last-append (c ∷ []) p a = refl
  last-append (c ∷ d ∷ cs) p a = last-append (d ∷ cs) p a

  values-append :
      (cs : List (ℕ × A)) (p : ℕ) (a : A) → values (cs ++ (p, a) ∷ []) ≡ values cs ++ a ∷ []
  values-append [] p a = refl
  values-append ((q, x) ∷ cs) p a = ap (λ xs. x ∷ xs) (values-append cs p a)

  IsBelow-last :
      (n : ℕ) (cs : List (ℕ × A)) (a : A) → IsBelow n cs → IsBelow (suc n) (cs ++ (n, a) ∷ [])
  IsBelow-last n [] a h = (omega arith, tt)
  IsBelow-last n ((p, x) ∷ cs) a h = (omega (arith, h.0), IsBelow-last n cs a h.1)

  -- The last node is there.
  pub last_node :
      (h : ℕ → Option (Node A)) (c : ℕ × A) (cs : List (ℕ × A))
      → Chain h (c ∷ cs)
      → (r : ℕ) × (n : Node A) × (last (c ∷ cs) ≡ some r) × (h r ≡ some n)
  last_node h (p, x) [] k = (p, record { value = x; next = none }, refl, k.0)
  last_node h (p, x) (d ∷ cs) k = last_node h d cs k.1

  head-append : (c : ℕ × A) (cs ds : List (ℕ × A)) → head (c ∷ cs ++ ds) ≡ head (c ∷ cs)
  head-append (p, x) cs ds = refl

  -- Linking a new node behind the last one.
  Chain-link :
      (h : ℕ → Option (Node A)) (c : ℕ × A) (cs : List (ℕ × A)) (r new : ℕ) (n : Node A) (a : A)
      → last (c ∷ cs) ≡ some r
      → h r ≡ some n
      → Chain h (c ∷ cs)
      → IsDistinct (c ∷ cs)
      → Misses new (c ∷ cs)
      → h new ≡ new_node a
      → Chain (store h r (some (record n { next = some new }))) (c ∷ cs ++ (new, a) ∷ [])
  Chain-link h (p, x) [] r new n a l e k d m f =
      let same : p ≡ r = ground arith in
      let held : n.value ≡ x = ground arith in
      let o : Option (Node A) = some (record n { next = some new }) in
      (
        ap (λ q. store h r o q) same
            ∙ store-at h r o
            ∙ ap (λ v. some (record { value = v; next = some new })) held,
        (store-other h r new o (ground arith) ∙ f, tt),
      )
  Chain-link h (p, x) (d ∷ cs) r new n a l e k dist m f = (
    store-other h r p _ (last-Misses p r (d ∷ cs) dist.0 l) ∙ k.0,
    Chain-link h d cs r new n a l e k.1 dist.1 m.1 f,
  )

  enqueue-empty :
      (s : Linked A) (a : A)
      → s.rear ≡ none
      → enqueue_node a s
        ≡ ok tt (record {
          heap = store s.heap s.fresh (new_node a);
          fresh = suc s.fresh;
          front = some s.fresh;
          rear = some s.fresh;
          size = s.size + 1;
        })
  unfolding enqueue_node
  enqueue-empty s a e = rw e refl

  enqueue-linked :
      (s : Linked A) (a : A) (r : ℕ) (n : Node A)
      → s.rear ≡ some r
      → store s.heap s.fresh (new_node a) r ≡ some n
      → enqueue_node a s
        ≡ ok tt (record {
          heap =
              store (store s.heap s.fresh (new_node a)) r (some (record n { next = some s.fresh }));
          fresh = suc s.fresh;
          front = s.front;
          rear = some s.fresh;
          size = s.size + 1;
        })
  unfolding enqueue_node
  enqueue-linked s a r n e f = ground arith

  -- Adding a value to a linked queue that stands for a list succeeds, and then the linked queue
  -- stands for that list with the value at its rear.
  pub enqueue_node-StandsFor :
      (s : Linked A) (q : Queue A) (a : A)
      → StandsFor s q
      → (s' : Linked A) × (enqueue_node a s ≡ ok tt s') × StandsFor s' (enqueue q a)
  unfolding enqueue
  enqueue_node-StandsFor s q a ([], l) = (
    _,
    enqueue-empty s a l.rear,
    (
      (s.fresh, a) ∷ [],
      record {
        items = ap (λ xs. xs ++ a ∷ []) l.items;
        front = refl;
        rear = refl;
        chain = (store-at s.heap s.fresh (new_node a), tt);
        distinct = (tt, tt);
        old = (omega arith, tt);
        size = ap (λ n. n + 1) l.size;
        counted = ap (λ n. n + 1) l.counted;
      },
    ),
  )
  enqueue_node-StandsFor s q a (c ∷ cs, l) =
      let fresh = s.fresh in
      let h = store s.heap fresh (new_node a) in
      let m = IsBelow-Misses fresh (c ∷ cs) l.old in
      let k = Chain-store s.heap fresh (new_node a) (c ∷ cs) m l.chain in
      let (r, n, e, f) = last_node h c cs k in
      (
        _,
        enqueue-linked s a r n (l.rear ∙ e) f,
        (
          c ∷ cs ++ (fresh, a) ∷ [],
          record {
            items = ap (λ xs. xs ++ a ∷ []) l.items ∙ sym (values-append (c ∷ cs) fresh a);
            front = l.front;
            rear = sym (last-append (c ∷ cs) fresh a);
            chain =
                Chain-link h c cs r fresh n a e f k l.distinct m
                  (store-at s.heap fresh (new_node a));
            distinct = IsDistinct-last (c ∷ cs) fresh a l.distinct m;
            old = IsBelow-last fresh (c ∷ cs) a l.old;
            size = ap (λ n. n + 1) l.size;
            counted = ap (λ n. n + 1) l.counted ∙ sym (length-append (c ∷ cs) ((fresh, a) ∷ []));
          },
        ),
      )
