-- ===== src/RoundRobin/Track/Blocked.antt =====
-- `checkBlockEnd` moves processes between the queues and loses none.
use cpu_scheduler.Base.{
  ℕ, ◌+◌, ◌≡◌, refl, ◌∙◌, inl, inr, Option, none, some, List, [], ◌∷◌, ℤ, eqb_ℤ, arith, Bool-cases,
  Option-cases,
}
use cpu_scheduler.Types.{Pcb, PcbPtr}
use cpu_scheduler.Queue.{enqueue, unlink_id}
use cpu_scheduler.Run.{Run, ok, fault, exits, Cmd, done, and_then}
use cpu_scheduler.Run.Ends.{Ends, Ends-and_then}
use cpu_scheduler.Platform.{Platform}
use cpu_scheduler.RoundRobin.State.{Rr, all_live, pcb_at}
use cpu_scheduler.RoundRobin.Blocking.{
  unblock, take_blocked, check_node, check_nodes, check_block_end,
}
use cpu_scheduler.RoundRobin.Track.{
  At, Stays, waits, one, count, count-append, stay_rules, stay_and,
}

-- What `dequeue_by_id` takes out, and what it leaves.
pub unlink_id-count :
    (deref : PcbPtr → Pcb) (id : ℤ) (xs : List PcbPtr) (p : PcbPtr) (ys : List PcbPtr)
    → unlink_id deref id xs ≡ some (p, ys)
    → (q : PcbPtr) → count q xs ≡ one p q + count q ys
unfolding unlink_id
unlink_id-count deref id [] p ys h q = cc
unlink_id-count deref id (x ∷ rest) p ys h q = elim (Bool-cases (eqb_ℤ (deref x).id id)) [
  | inl e ↦ ground arith
  | inr e ↦ elim (Option-cases (unlink_id deref id rest)) [
    | inl f ↦ ground arith
    | inr ((r, zs), f) ↦ ground (arith, unlink_id-count deref id rest r zs f q)
  ]
]

module _ {P : Platform} (s : Rr P) (c : Option PcbPtr) where
  -- A command that leaves things so, with others behind it.
  pub stay_then :
      {A B : Type 0} (w : PcbPtr → ℕ) (Q : B → Rr P → Type 0) (r : Run (Rr P) A)
      (k : A → Rr P → Run (Rr P) B)
      → Stays s c w r
      → ((a : A) (n : Rr P) → At s c w n → Ends (k a n) Q)
      → Ends (and_then r k) Q
  stay_then w Q r k h next = Ends-and_then (λ _ u. At s c w u) Q r k h next

  pub enqueue_ready :
      (w : PcbPtr → ℕ) (p : PcbPtr) (n : Rr P)
      → At s c w n
      → At s c (λ q. one p q + w q) (record n { ready = enqueue n.ready p })
  unfolding enqueue
  enqueue_ready w p n h = record {
    all_same = h.all_same;
    next_same = h.next_same;
    curr_is = h.curr_is;
    ids_same = h.ids_same;
    waits_are = λ q. omega (arith, h.waits_are q, count-append q n.ready.items (p ∷ []));
  }

  pub enqueue_block :
      (w : PcbPtr → ℕ) (p : PcbPtr) (n : Rr P)
      → At s c w n
      → At s c (λ q. one p q + w q) (record n { block = enqueue n.block p })
  unfolding enqueue
  enqueue_block w p n h = record {
    all_same = h.all_same;
    next_same = h.next_same;
    curr_is = h.curr_is;
    ids_same = h.ids_same;
    waits_are = λ q. omega (arith, h.waits_are q, count-append q n.block.items (p ∷ []));
  }

  -- The same counts, written otherwise.
  pub At-counts :
      (w v : PcbPtr → ℕ) (n : Rr P) → ((q : PcbPtr) → w q ≡ v q) → At s c w n → At s c v n
  At-counts w v n same h = record {
    all_same = h.all_same;
    next_same = h.next_same;
    curr_is = h.curr_is;
    ids_same = h.ids_same;
    waits_are = λ q. h.waits_are q ∙ same q;
  }

  unblock_on :
      (w : PcbPtr → ℕ) (p : PcbPtr) (n : Rr P)
      → At s c w n
      → Stays s c (λ q. one p q + w q) (unblock p n)
  unfolding unblock
  unblock_on w p n h = search (stay_then w, enqueue_ready, stay_rules) depth 12

  -- A queue has given up what was taken, and nothing else has changed.
  abbrev pub Taken : (PcbPtr → ℕ) → Option PcbPtr → Rr P → Type 0
  Taken w none t = At s c w t
  Taken w (some p) t = At s c (waits t) t × ((q : PcbPtr) → one p q + waits t q ≡ w q)

  take_blocked_on :
      (w : PcbPtr → ℕ) (id : ℤ) (n : Rr P) → At s c w n → Ends (take_blocked id n) (Taken w)
  unfolding take_blocked
  take_blocked_on w id n h = elim (Bool-cases (all_live n.mem n.block.items)) [
    | inr e ↦ rw (e, Ends) tt
    | inl e ↦ elim (Option-cases (unlink_id (pcb_at n.mem) id n.block.items)) [
      | inl f ↦ rw (e, f, Ends) h
      | inr ((p, ys), f) ↦
          rw (e, f, Ends)
            (
              record {
                all_same = h.all_same;
                next_same = h.next_same;
                curr_is = h.curr_is;
                ids_same = h.ids_same;
                waits_are = λ q. refl;
              },
              λ q.
                  omega (
                    arith,
                    h.waits_are q,
                    unlink_id-count (pcb_at n.mem) id n.block.items p ys f q,
                  ),
            )
    ]
  ]

  pub stay_counts :
      {A : Type 0} (w v : PcbPtr → ℕ) (r : Run (Rr P) A)
      → ((q : PcbPtr) → w q ≡ v q)
      → Stays s c w r
      → Stays s c v r
  stay_counts w v (ok a n) same h = At-counts w v n same h
  stay_counts w v fault same h = tt
  stay_counts w v exits same h = tt

  wake-Taken :
      (w : PcbPtr → ℕ) (r : Option PcbPtr) (n : Rr P)
      → Taken w r n
      → Stays s c w
          ((elim r as (λ _. Cmd (Rr P) (Unit {0})) [ none ↦ done | some q ↦ unblock q ]) n)
  wake-Taken w none n h = h
  wake-Taken w (some p) n (h, e) =
      stay_counts (λ q. one p q + waits n q) w (unblock p n) e (unblock_on (waits n) p n h)

  take_then :
      (w : PcbPtr → ℕ) (id : ℤ) (n : Rr P)
      → At s c w n
      → Stays s c w (
          and_then
            (take_blocked id n)
            (λ r. elim r as (λ _. Cmd (Rr P) (Unit {0})) [ none ↦ done | some q ↦ unblock q ]))
  take_then w id n h =
      Ends-and_then (Taken w) (λ _ t. At s c w t) (take_blocked id n) _ (take_blocked_on w id n h)
        (wake-Taken w)

  check_node_on :
      (w : PcbPtr → ℕ) (p : PcbPtr) (n : Rr P) → At s c w n → Stays s c w (check_node p n)
  unfolding check_node
  check_node_on w p n h = search (take_then, stay_rules) depth 8

  check_nodes_on :
      (w : PcbPtr → ℕ) (ps : List PcbPtr) (n : Rr P) → At s c w n → Stays s c w (check_nodes ps n)
  unfolding check_nodes
  check_nodes_on w [] n h = h
  check_nodes_on w (p ∷ ps) n h =
      stay_and s c w (check_node p n) _ (check_node_on w p n h) (λ _ u k. check_nodes_on w ps u k)

  pub check_block_end_on :
      (w : PcbPtr → ℕ) (n : Rr P) → At s c w n → Stays s c w (check_block_end n)
  unfolding check_block_end
  check_block_end_on w n h = check_nodes_on w n.block.items n h
