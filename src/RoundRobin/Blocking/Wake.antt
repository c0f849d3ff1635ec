-- ===== src/RoundRobin/Blocking/Wake.antt =====
-- Which processes `checkBlockEnd` of rr_scheduler/rr_scheduler_functions.c moves to the ready queue.
use mathlib.Core.Path.{fun_ext, subst}
use cpu_scheduler.Base.{
  ℕ, ◌<◌, ◌≡◌, ◌⊎◌, refl, ap, ◌∙◌, inl, inr, Bool, true, false, not, ◌&&◌, Option, none, some, List,
  [], ◌∷◌, ◌++◌, arith, ℤ, pos, minus_one, eqb_ℤ, leb_ℤ, Bool-cases, Option-cases, All,
  if◌then◌else◌, ◌+ℤ◌, ◌==◌, ◌-◌,
}
use cpu_scheduler.Types.{Pcb, PcbPtr, waiting}
use cpu_scheduler.Queue.{enqueue, dequeue_by_id}
use cpu_scheduler.Queue.Contents.{Lacks, unlink_id-first}
use cpu_scheduler.Run.{ok}
use cpu_scheduler.Memory.State.{
  mem_size, load, update_pcb, set_pcb, set_frame, update_frame, loaded,
}
use cpu_scheduler.Memory.Release.{free_reserved}
use cpu_scheduler.Platform.{Platform}
use cpu_scheduler.RoundRobin.State.{Rr, all_live, pcb_at}
use cpu_scheduler.RoundRobin.Blocking.{unblock, take_blocked, check_node}

-- `pending_page` and `pending_frame` are both set, so a page is on its way.
abbrev pub awaits_page : Pcb → Bool
awaits_page c = not (eqb_ℤ c.pending_page minus_one) && not (eqb_ℤ c.pending_frame minus_one)

-- A pending page goes to a frame of RAM.
abbrev pub PendsInRam : Pcb → Type 0
PendsInRam c = (awaits_page c ≡ false) ⊎ ((i : ℕ) × (i < mem_size) × (c.pending_frame ≡ pos i))

-- An allocated PCB whose pending page goes to a frame of RAM.
abbrev pub CanWake : Option Pcb → Type 0
CanWake none = ⊥
CanWake (some c) = PendsInRam c

-- What the loop reads of a PCB.
abbrev pub wake_key : Option Pcb → Option (ℤ × ℤ)
wake_key none = none
wake_key (some c) = some (c.id, c.unblock_at)

set_pcb-twice :
    (pcbs : PcbPtr → Option Pcb) (p : PcbPtr) (c d : Option Pcb)
    → set_pcb (set_pcb pcbs p c) p d ≡ set_pcb pcbs p d
unfolding set_pcb
set_pcb-twice pcbs p c d = fun_ext (λ q. ground arith)

module _ {P : Platform} where
  -- The clock and what the loop reads of the PCBs stay.
  pub record KeepsWaits (s s' : Rr P) : Type 0 where
    pub clk : s'.mem.clk ≡ s.mem.clk
    pub keys : (q : PcbPtr) → wake_key (s'.mem.pcbs q) ≡ wake_key (s.mem.pcbs q)
    pub can_wake : (q : PcbPtr) → CanWake (s.mem.pcbs q) → CanWake (s'.mem.pcbs q)

  set_pcb-KeepsWaits :
      (s s' : Rr P) (p : PcbPtr) (c c' : Pcb)
      → s.mem.pcbs p ≡ some c
      → s'.mem.pcbs ≡ set_pcb s.mem.pcbs p (some c')
      → s'.mem.clk ≡ s.mem.clk
      → wake_key (some c') ≡ wake_key (some c)
      → PendsInRam c'
      → KeepsWaits s s'
  unfolding set_pcb
  set_pcb-KeepsWaits s s' p c c' h e k w r = record {
    clk = k;
    keys = λ q. elim (Bool-cases (q == p)) [ inl x ↦ ground arith | inr x ↦ ground arith ];
    can_wake = λ q x. rw e (elim (Bool-cases (q == p)) [ inl y ↦ rw y r | inr y ↦ rw y x ]);
  }

  unblock-idle :
      (s : Rr P) (p : PcbPtr) (c : Pcb)
      → s.mem.pcbs p ≡ some c
      → awaits_page c ≡ false
      → unblock p s
        ≡ ok tt (record s {
          mem = record (s.mem) {
            pcbs = set_pcb s.mem.pcbs p (some (record c { state = waiting }));
          };
          ready = enqueue s.ready p;
        })
  unfolding unblock load update_pcb
  unblock-idle s p c h e = ground arith

  unblock-page :
      (s : Rr P) (p : PcbPtr) (c : Pcb) (i : ℕ)
      → s.mem.pcbs p ≡ some c
      → awaits_page c ≡ true
      → c.pending_frame ≡ pos i
      → i < mem_size
      → (s' : Rr P) × (unblock p s ≡ ok tt s')
        × (s'.ready ≡ enqueue s.ready p)
        × (s'.block ≡ s.block)
        × (s'.mem.clk ≡ s.mem.clk)
        × (s'.mem.pcbs
            ≡ set_pcb s.mem.pcbs p (
                some (record c {
                  pending_page = minus_one;
                  pending_frame = minus_one;
                  state = waiting;
                })))
  unfolding unblock load update_pcb free_reserved update_frame
  unblock-page s p c i h e f l = (
    record s {
      mem = record (s.mem) {
        pcbs =
            set_pcb
              (set_pcb s.mem.pcbs p
                (some (record c { pending_page = minus_one; pending_frame = minus_one })))
              p
              (some (record c {
                pending_page = minus_one;
                pending_frame = minus_one;
                state = waiting;
              }));
        ram = set_frame s.mem.ram i (record (s.mem.ram i) { reserved = false });
        log = loaded s.mem.clk (c.base +ℤ c.pending_page) c.id c.pending_frame ∷ s.mem.log;
      };
      ready = enqueue s.ready p;
    },
    ground (arith, h, e, f),
    refl,
    refl,
    refl,
    set_pcb-twice s.mem.pcbs p _ _,
  )

  -- A PCB that can wake up goes to the rear of the ready queue.
  unblock-wakes :
      (s : Rr P) (p : PcbPtr)
      → CanWake (s.mem.pcbs p)
      → (s' : Rr P) × (unblock p s ≡ ok tt s')
        × (s'.ready ≡ enqueue s.ready p)
        × (s'.block ≡ s.block)
        × KeepsWaits s s'
  unblock-wakes s p w = elim (Option-cases (s.mem.pcbs p)) [
    | inl x ↦ absurd (subst CanWake x w)
    | inr (c, h) ↦
        let k : PendsInRam c = subst CanWake h w in
        elim (Bool-cases (awaits_page c)) [
          | inl e ↦ elim k [
            | inl x ↦ absurd (ground arith)
            | inr (i, l, f) ↦
                let c' = record c {
                  pending_page = minus_one;
                  pending_frame = minus_one;
                  state = waiting;
                } in
                let (s', run, r, b, t, pc) = unblock-page s p c i h e f l in
                (s', run, r, b, set_pcb-KeepsWaits s s' p c c' h pc t refl (inl refl))
          ]
          | inr e ↦
              let c' = record c { state = waiting } in
              let s' : Rr P = record s {
                mem = record (s.mem) { pcbs = set_pcb s.mem.pcbs p (some c') };
                ready = enqueue s.ready p;
              } in
              (
                s',
                unblock-idle s p c h e,
                refl,
                refl,
                set_pcb-KeepsWaits s s' p c c' h refl refl refl (inl e),
              )
        ]
  ]

  -- The test of the loop at one node.
  abbrev pub is_due : Rr P → PcbPtr → Bool
  is_due s p = leb_ℤ (pcb_at s.mem p).unblock_at s.mem.clk

  -- The nodes whose time has come, and the others, in their order.
  abbrev pub due : Rr P → List PcbPtr → List PcbPtr
  due s [] = []
  due s (p ∷ ps) = if is_due s p then p ∷ due s ps else due s ps

  abbrev pub not_due : Rr P → List PcbPtr → List PcbPtr
  not_due s [] = []
  not_due s (p ∷ ps) = if is_due s p then not_due s ps else p ∷ not_due s ps

  -- No id stands twice, in `before` and the list behind it.
  abbrev pub ApartFrom : Rr P → (before : List PcbPtr) → List PcbPtr → Type 0
  ApartFrom s before [] = Unit
  ApartFrom s before (p ∷ ps) =
      Lacks (pcb_at s.mem) (pcb_at s.mem p).id before × ApartFrom s (before ++ p ∷ []) ps

  pub read-same :
      {s s' : Rr P}
      → KeepsWaits s s'
      → (q : PcbPtr) → CanWake (s.mem.pcbs q)
      → ((pcb_at s'.mem q).id ≡ (pcb_at s.mem q).id) × (is_due s' q ≡ is_due s q)
  read-same {s} {s'} k q w = elim (Option-cases (s.mem.pcbs q)) [
    | inl x ↦ absurd (subst CanWake x w)
    | inr (c, x) ↦ (ground (arith, k.keys q), ground (arith, k.keys q, k.clk))
  ]

  all_live-CanWake :
      (s : Rr P) (ps : List PcbPtr)
      → All (λ q. CanWake (s.mem.pcbs q)) ps
      → all_live s.mem ps ≡ true
  all_live-CanWake s [] h = refl
  all_live-CanWake s (p ∷ ps) h = elim (Option-cases (s.mem.pcbs p)) [
    | inl x ↦ absurd (subst CanWake x h.0)
    | inr (c, x) ↦ rw (x, all_live-CanWake s ps h.1) refl
  ]

  -- The block queue without the node of `p`.
  abbrev taken : Rr P → List PcbPtr → Rr P
  taken s items = record s { block = record { items = items; size = s.block.size - 1 } }

  take_blocked-first :
      (s : Rr P) (p : PcbPtr) (before rest : List PcbPtr)
      → s.block.items ≡ before ++ p ∷ rest
      → All (λ q. CanWake (s.mem.pcbs q)) (before ++ p ∷ rest)
      → Lacks (pcb_at s.mem) (pcb_at s.mem p).id before
      → take_blocked (pcb_at s.mem p).id s ≡ ok (some p) (taken s (before ++ rest))
  unfolding take_blocked dequeue_by_id
  take_blocked-first s p before rest e h a =
      rw
        (
          e,
          all_live-CanWake s (before ++ p ∷ rest) h,
          unlink_id-first (pcb_at s.mem) (pcb_at s.mem p).id before rest p a refl,
        )
        refl

  check_node-takes :
      (s s1 : Rr P) (p : PcbPtr)
      → CanWake (s.mem.pcbs p)
      → is_due s p ≡ true
      → take_blocked (pcb_at s.mem p).id s ≡ ok (some p) s1
      → check_node p s ≡ unblock p s1
  unfolding check_node load
  check_node-takes s s1 p w d t = elim (Option-cases (s.mem.pcbs p)) [
    | inl x ↦ absurd (subst CanWake x w)
    | inr (c, x) ↦ ground (arith, x, d, t)
  ]

  -- The branch of a node whose time has come.
  pub check_node-due :
      (s : Rr P) (p : PcbPtr) (before rest : List PcbPtr)
      → s.block.items ≡ before ++ p ∷ rest
      → All (λ q. CanWake (s.mem.pcbs q)) (before ++ p ∷ rest)
      → CanWake (s.mem.pcbs p)
      → Lacks (pcb_at s.mem) (pcb_at s.mem p).id before
      → is_due s p ≡ true
      → (s' : Rr P) × (check_node p s ≡ ok tt s')
        × KeepsWaits s s'
        × (s'.block.items ≡ before ++ rest)
        × (s'.ready.items ≡ s.ready.items ++ p ∷ [])
  unfolding enqueue
  check_node-due s p before rest e h w a d =
      let (s', run, r, b, k) = unblock-wakes (taken s (before ++ rest)) p w in
      (
        s',
        check_node-takes s (taken s (before ++ rest)) p w d
              (take_blocked-first s p before rest e h a)
            ∙ run,
        record { clk = k.clk; keys = k.keys; can_wake = k.can_wake },
        ap (λ q. q.items) b,
        ap (λ q. q.items) r,
      )

  pub check_node-waits :
      (s : Rr P) (p : PcbPtr)
      → CanWake (s.mem.pcbs p)
      → is_due s p ≡ false
      → check_node p s ≡ ok tt s
  unfolding check_node load
  check_node-waits s p w d = elim (Option-cases (s.mem.pcbs p)) [
    | inl x ↦ absurd (subst CanWake x w)
    | inr (c, x) ↦ ground (arith, x, d)
  ]
