-- ===== src/RoundRobin/Blocking/BlockEnd.antt =====
-- `checkBlockEnd` of rr_scheduler/rr_scheduler_functions.c as a whole: which processes wake up.
use mathlib.Core.Path.{subst}
use mathlib.Core.List.{append_assoc, append-nil}
use cpu_scheduler.Base.{
  ◌≡◌, refl, sym, ap, ◌∙◌, inl, inr, List, [], ◌∷◌, ◌++◌, Bool-cases, All, All-append, ℤ,
}
use cpu_scheduler.Types.{PcbPtr}
use cpu_scheduler.Queue.Contents.{Lacks}
use cpu_scheduler.Run.{ok, and_then}
use cpu_scheduler.Platform.{Platform}
use cpu_scheduler.RoundRobin.State.{Rr, pcb_at}
use cpu_scheduler.RoundRobin.Blocking.{check_nodes, check_block_end}
use cpu_scheduler.RoundRobin.Blocking.Wake.{
  CanWake, KeepsWaits, is_due, due, not_due, ApartFrom, read-same, check_node-due, check_node-waits,
}

module _ {P : Platform} where
  abbrev pub AllCanWake : Rr P → List PcbPtr → Type 0
  AllCanWake s ps = All (λ q. CanWake (s.mem.pcbs q)) ps

  AllCanWake-append :
      (s : Rr P) (xs ys : List PcbPtr) → AllCanWake s (xs ++ ys) → AllCanWake s xs × AllCanWake s ys
  AllCanWake-append s [] ys h = (tt, h)
  AllCanWake-append s (x ∷ xs) ys h = let (a, b) = AllCanWake-append s xs ys h.1 in ((h.0, a), b)

  AllCanWake-without :
      (s : Rr P) (xs : List PcbPtr) (p : PcbPtr) (ys : List PcbPtr)
      → AllCanWake s (xs ++ p ∷ ys)
      → AllCanWake s (xs ++ ys)
  AllCanWake-without s [] p ys h = h.1
  AllCanWake-without s (x ∷ xs) p ys h = (h.0, AllCanWake-without s xs p ys h.1)

  AllCanWake-same :
      {s s' : Rr P} → KeepsWaits s s' → (ps : List PcbPtr) → AllCanWake s ps → AllCanWake s' ps
  AllCanWake-same k [] h = tt
  AllCanWake-same k (p ∷ ps) h = (k.can_wake p h.0, AllCanWake-same k ps h.1)

  due-same :
      {s s' : Rr P}
      → KeepsWaits s s'
      → (ps : List PcbPtr) → AllCanWake s ps
      → (due s' ps ≡ due s ps) × (not_due s' ps ≡ not_due s ps)
  due-same k [] h = (refl, refl)
  due-same k (p ∷ ps) h =
      let (a, b) = due-same k ps h.1 in
      let e = (read-same k p h.0).1 in (rw (e, a) refl, rw (e, b) refl)

  Lacks-same :
      {s s' : Rr P}
      → KeepsWaits s s'
      → (id : ℤ) (ps : List PcbPtr) → AllCanWake s ps
      → Lacks (pcb_at s.mem) id ps
      → Lacks (pcb_at s'.mem) id ps
  Lacks-same k id [] h a = tt
  Lacks-same k id (p ∷ ps) h a = (rw ((read-same k p h.0).0) a.0, Lacks-same k id ps h.1 a.1)

  ApartFrom-same :
      {s s' : Rr P}
      → KeepsWaits s s'
      → (before ps : List PcbPtr) → AllCanWake s before
      → AllCanWake s ps
      → ApartFrom s before ps
      → ApartFrom s' before ps
  ApartFrom-same k before [] h g a = tt
  ApartFrom-same {s} {s'} k before (p ∷ ps) h g a = (
    rw ((read-same k p g.0).0) (Lacks-same k (pcb_at s.mem p).id before h a.0),
    ApartFrom-same k (before ++ p ∷ []) ps
        (All-append (λ q. CanWake (s.mem.pcbs q)) before (p ∷ []) h (g.0, tt)) g.1 a.1,
  )

  Lacks-without :
      (s : Rr P) (id : ℤ) (xs : List PcbPtr) (p : PcbPtr) (ys : List PcbPtr)
      → Lacks (pcb_at s.mem) id (xs ++ p ∷ ys)
      → Lacks (pcb_at s.mem) id (xs ++ ys)
  Lacks-without s id [] p ys h = h.1
  Lacks-without s id (x ∷ xs) p ys h = (h.0, Lacks-without s id xs p ys h.1)

  ApartFrom-without :
      (s : Rr P) (xs : List PcbPtr) (p : PcbPtr) (ys ps : List PcbPtr)
      → ApartFrom s (xs ++ p ∷ ys) ps
      → ApartFrom s (xs ++ ys) ps
  ApartFrom-without s xs p ys [] h = tt
  ApartFrom-without s xs p ys (q ∷ ps) h = (
    Lacks-without s (pcb_at s.mem q).id xs p ys h.0,
    subst (λ zs. ApartFrom s zs ps) (sym (append_assoc xs ys (q ∷ [])))
        (ApartFrom-without s xs p (ys ++ q ∷ []) ps
          (subst (λ zs. ApartFrom s zs ps) (append_assoc xs (p ∷ ys) (q ∷ [])) h.1)),
  )

  KeepsWaits-trans : {a b c : Rr P} → KeepsWaits a b → KeepsWaits b c → KeepsWaits a c
  KeepsWaits-trans k l = record {
    clk = l.clk ∙ k.clk;
    keys = λ q. l.keys q ∙ k.keys q;
    can_wake = λ q w. l.can_wake q (k.can_wake q w);
  }

  -- What the loop over `ps` does, for the nodes `before` that stay in front of them.
  abbrev Wakes : Rr P → Rr P → (before ps : List PcbPtr) → Type 0
  Wakes s s' before ps =
      KeepsWaits s s'
      × (s'.block.items ≡ before ++ not_due s ps)
      × (s'.ready.items ≡ s.ready.items ++ due s ps)

  check_nodes-Wakes :
      (ps : List PcbPtr) (s : Rr P) (before : List PcbPtr)
      → s.block.items ≡ before ++ ps
      → AllCanWake s (before ++ ps)
      → ApartFrom s before ps
      → (s' : Rr P) × (check_nodes ps s ≡ ok tt s') × Wakes s s' before ps
  unfolding check_nodes
  check_nodes-Wakes [] s before e h a = (
    s,
    refl,
    (
      record { clk = refl; keys = λ q. refl; can_wake = λ q w. w },
      e,
      sym (append-nil s.ready.items),
    ),
  )
  check_nodes-Wakes (p ∷ ps) s before e h a =
      let (hb, hp) = AllCanWake-append s before (p ∷ ps) h in
      elim (Bool-cases (is_due s p)) [
        | inl d ↦
            let (s1, run1, k1, b1, r1) = check_node-due s p before ps e h hp.0 a.0 d in
            let h1 = AllCanWake-same k1 (before ++ ps) (AllCanWake-without s before p ps h) in
            let a0 =
              subst (λ zs. ApartFrom s zs ps) (append-nil before)
                (ApartFrom-without s before p [] ps a.1) in
            let a1 = ApartFrom-same k1 before ps hb hp.1 a0 in
            let (s2, run2, (k2, b2, r2)) = check_nodes-Wakes ps s1 before b1 h1 a1 in
            let (due_same, rest_same) = due-same k1 ps hp.1 in
            (
              s2,
              ap (λ r. and_then r (λ _. check_nodes ps)) run1 ∙ run2,
              (
                KeepsWaits-trans k1 k2,
                rw d (b2 ∙ ap (λ zs. before ++ zs) rest_same),
                rw d (r2 ∙ rw (r1, due_same) (append_assoc s.ready.items (p ∷ []) (due s ps))),
              ),
            )
        | inr d ↦
            let run1 = check_node-waits s p hp.0 d in
            let split = append_assoc before (p ∷ []) ps in
            let (s2, run2, (k2, b2, r2)) =
              check_nodes-Wakes ps s (before ++ p ∷ []) (e ∙ sym split)
                (subst (AllCanWake s) (sym split) h) a.1 in
            (
              s2,
              ap (λ r. and_then r (λ _. check_nodes ps)) run1 ∙ run2,
              (k2, rw d (b2 ∙ append_assoc before (p ∷ []) (not_due s ps)), rw d r2),
            )
      ]

  -- If every PCB of the block queue is allocated, with any pending page on its way to a frame of
  -- RAM, and no id stands twice in the queue, then `checkBlockEnd` returns with no undefined
  -- behaviour. The processes whose time to unblock has come have moved to the rear of the ready
  -- queue, in the order in which they were blocked, and exactly the others stay blocked, in their
  -- order; the clock, the ids and the times to unblock stay.
  pub check_block_end-Wakes :
      (s : Rr P)
      → All (λ q. CanWake (s.mem.pcbs q)) s.block.items
      → ApartFrom s [] s.block.items
      → (s' : Rr P) × (check_block_end s ≡ ok tt s')
        × KeepsWaits s s'
        × (s'.block.items ≡ not_due s s.block.items)
        × (s'.ready.items ≡ s.ready.items ++ due s s.block.items)
  unfolding check_block_end
  check_block_end-Wakes s h a =
      let (s', run, (k, b, r)) = check_nodes-Wakes s.block.items s [] refl h a in (s', run, k, b, r)
