-- ===== src/RoundRobin/Track/Finished.antt =====
-- `handleFinishedProcesses` takes the finished process out of its place, and no other.
use cpu_scheduler.Base.{
  ℕ, ◌+◌, ◌≡◌, ◌<◌, refl, ap, sym, ◌∙◌, inl, inr, true, false, ◌==◌, Option, none, some, List, [],
  ◌∷◌, ℤ, arith, Bool-cases, Option-cases, eqb_ℤ, eqb_ℤ→eq, eqb_ℤ-refl,
}
use mathlib.Core.Path.{subst}
use cpu_scheduler.Types.{Pcb, PcbPtr, ProcessData}
use cpu_scheduler.Queue.{unlink_id}
use cpu_scheduler.Run.{Run, ok, when}
use cpu_scheduler.Run.Ends.{Ends, Ends-and_then, Ends-either}
use cpu_scheduler.Memory.State.{Memory, load}
use cpu_scheduler.Memory.Same.{Same-refl, id_at, id_of}
use cpu_scheduler.Memory.Same.Calls.{free_page_table_on}
use cpu_scheduler.Memory.Release.{free_page_table}
use cpu_scheduler.Perf.{account}
use cpu_scheduler.Platform.{Platform}
use cpu_scheduler.RoundRobin.State.{Rr, load_pcb, all_live, pcb_at, in_memory}
use cpu_scheduler.RoundRobin.Lifecycle.{
  mark_finished, forget, free_pcb, finish_current, handle_finished_processes,
}
use cpu_scheduler.RoundRobin.Track.{
  At, Stays, waits, one, count, count_curr, stay_rules, log_data_on,
}
use cpu_scheduler.RoundRobin.Track.Blocked.{unlink_id-count}
use cpu_scheduler.RoundRobin.Track.Placed.{IsPlaced, IsPlaced-Has, listed}
use cpu_scheduler.RoundRobin.Track.Admitted.{NewIds, IsOpen}
use cpu_scheduler.RoundRobin.Track.Departed.{HasLeft, HasLeft-IsOpen, left_on, freed}

module _ {P : Platform} (s : Rr P) (p : PcbPtr) where
  mark_on : (w : PcbPtr → ℕ) (n : Rr P) → At s (some p) w n → Stays s (some p) w (mark_finished p n)
  unfolding mark_finished
  mark_on w n h = search (stay_rules, log_data_on) depth 9

  -- The PCB that is read has the id.
  read_id :
      (w : PcbPtr → ℕ) (n : Rr P)
      → At s (some p) w n
      → Ends (load_pcb p n) (λ c t. At s (some p) w t × (id_at s.mem p ≡ some c.id))
  unfolding load
  read_id w n h = elim (Option-cases (n.mem.pcbs p)) [
    | inl e ↦ rw (e, Ends) tt
    | inr (c, e) ↦ rw (e, Ends) (h, sym (h.ids_same p) ∙ ap id_of e)
  ]

-- An entry that is taken out has the id, and if none is, no entry has it.
unlink_id-id :
    (deref : PcbPtr → Pcb) (i : ℤ) (xs : List PcbPtr) (p : PcbPtr) (ys : List PcbPtr)
    → unlink_id deref i xs ≡ some (p, ys)
    → (deref p).id ≡ i
unfolding unlink_id
unlink_id-id deref i [] p ys h = cc
unlink_id-id deref i (x ∷ rest) p ys h = elim (Bool-cases (eqb_ℤ (deref x).id i)) [
  | inl e ↦ let same : x ≡ p = ground arith in rw (← same) (eqb_ℤ→eq (deref x).id i e)
  | inr e ↦ elim (Option-cases (unlink_id deref i rest)) [
    | inl f ↦ absurd (ground arith)
    | inr ((r, zs), f) ↦
        let same : r ≡ p = ground arith in rw (← same) (unlink_id-id deref i rest r zs f)
  ]
]

unlink_id-missing :
    (deref : PcbPtr → Pcb) (i : ℤ) (xs : List PcbPtr) (q : PcbPtr)
    → unlink_id deref i xs ≡ none
    → 0 < count q xs
    → eqb_ℤ (deref q).id i ≡ false
unfolding unlink_id
unlink_id-missing deref i [] q h m = absurd (omega arith)
unlink_id-missing deref i (x ∷ rest) q h m = elim (Bool-cases (eqb_ℤ (deref x).id i)) [
  | inl e ↦ absurd (ground arith)
  | inr e ↦ elim (Option-cases (unlink_id deref i rest)) [
    | inr (r, f) ↦ absurd (ground arith)
    | inl f ↦ elim (Bool-cases (x == q)) [
      | inl g ↦ let same : x ≡ q = ground arith in rw (← same) e
      | inr g ↦ unlink_id-missing deref i rest q f (ground arith)
    ]
  ]
]

-- Where the pointers of a list are allocated, the ids are those of the PCBs.
all_live-id :
    (m : Memory) (xs : List PcbPtr) (q : PcbPtr)
    → all_live m xs ≡ true
    → 0 < count q xs
    → id_at m q ≡ some (pcb_at m q).id
all_live-id m [] q h k = absurd (omega arith)
all_live-id m (x ∷ rest) q h k = elim (Bool-cases (x == q)) [
  | inl e ↦
      let same : x ≡ q = ground arith in
      rw (← same)
        (elim (Option-cases (m.pcbs x)) [ inl f ↦ ground arith | inr (c, f) ↦ ground arith ])
  | inr e ↦ all_live-id m rest q (ground arith) (ground arith)
]

module _ {P : Platform} (s : Rr P) (p : PcbPtr) (h : IsPlaced s) (at_s : s.mem.curr ≡ some p) where
  curr_listed : 0 < listed s p
  curr_listed =
      let held : listed s p ≡ one p p + waits s p =
        h.placed p ∙ ap (λ o. count_curr p o + waits s p) at_s in
      ground arith

  -- The entry that `dequeue_by_id` takes out is the current process.
  taken_is_current :
      (i : ℤ) (n : Rr P) (q : PcbPtr) (ys : List PcbPtr)
      → id_at s.mem p ≡ some i
      → At s (some p) (waits s) n
      → all_live n.mem n.mem.all.items ≡ true
      → unlink_id (pcb_at n.mem) i n.mem.all.items ≡ some (q, ys)
      → q ≡ p
  taken_is_current i n q ys id_is k live taken =
      let there : 0 < count q n.mem.all.items =
        ground (arith, unlink_id-count (pcb_at n.mem) i n.mem.all.items q ys taken q) in
      let listed_q : 0 < listed s q = omega (arith, ap (count q) k.all_same) in
      let id_q : id_at s.mem q ≡ some i =
        sym (k.ids_same q)
        ∙ all_live-id n.mem n.mem.all.items q live there
        ∙ ap some (unlink_id-id (pcb_at n.mem) i n.mem.all.items q ys taken) in
      h.ids_apart q p listed_q curr_listed (id_q ∙ sym id_is)

  forget_on :
      (i : ℤ) (n : Rr P)
      → id_at s.mem p ≡ some i
      → At s (some p) (waits s) n
      → Ends (forget i n) (λ _ t. HasLeft s p t)
  unfolding forget
  forget_on i n id_is k = elim (Bool-cases (all_live n.mem n.mem.all.items)) [
    | inr e ↦ rw (e, Ends) tt
    | inl e ↦ elim (Option-cases (unlink_id (pcb_at n.mem) i n.mem.all.items)) [
      | inl f ↦
          let there : 0 < count p n.mem.all.items =
            omega (arith, ap (count p) k.all_same, curr_listed) in
          let id_p : some i ≡ some (pcb_at n.mem p).id =
            sym id_is ∙ sym (k.ids_same p) ∙ all_live-id n.mem n.mem.all.items p e there in
          absurd (
            ground
              (arith, unlink_id-missing (pcb_at n.mem) i n.mem.all.items p f there, eqb_ℤ-refl i))
      | inr ((q, ys), f) ↦
          let same : q ≡ p = taken_is_current i n q ys id_is k e f in
          rw (e, f, Ends)
            (record {
              less = λ x.
                  sym (ap (count x) k.all_same)
                  ∙ unlink_id-count (pcb_at n.mem) i n.mem.all.items q ys f x
                  ∙ ap (λ r. one r x + count x ys) same;
              next_same = k.next_same;
              ids_same = λ x _. k.ids_same x;
              waits_are = k.waits_are;
            })
    ]
  ]

  finish_on :
      (inbox : List ProcessData)
      → NewIds inbox s
      → Ends (finish_current p s) (λ _ t. IsOpen inbox t)
  unfolding finish_current free_pcb
  finish_on inbox new =
      let begin : At s (some p) (waits s) s =
        subst (λ o. At s o (waits s) s) at_s (IsPlaced-Has s h).0 in
      Ends-and_then (λ _ t. At s (some p) (waits s) t) (λ _ t. IsOpen inbox t) (mark_finished p s) _
        (mark_on s p (waits s) s begin)
        (λ _ t k.
          Ends-and_then (λ c u. At s (some p) (waits s) u × (id_at s.mem p ≡ some c.id))
            (λ _ u. IsOpen inbox u) (load_pcb p t) _ (read_id s p (waits s) t k)
            (λ c u l.
              Ends-and_then (λ _ v. HasLeft s p v) (λ _ v. IsOpen inbox v)
                (forget c.id (record u { perf = account P u.perf c })) _
                (forget_on c.id (record u { perf = account P u.perf c }) l.1 l.0)
                (λ _ v m.
                  Ends-and_then (λ _ x. HasLeft s p x) (λ _ x. IsOpen inbox x)
                    (in_memory (free_page_table p) v) _
                    (left_on s p v (free_page_table p v.mem)
                      (free_page_table_on v.mem p v.mem (Same-refl v.mem)) m)
                    (λ _ x o. HasLeft-IsOpen s p inbox _ (h, new) at_s refl (freed s p x o)))))

module _ {P : Platform} (s : Rr P) (inbox : List ProcessData) (h : IsOpen inbox s) where
  finished_case :
      (o : Option PcbPtr)
      → s.mem.curr ≡ o
      → Ends
          (elim o as (λ _. Run (Rr P) (Unit {0})) [
            | none ↦ ok tt s
            | some p ↦ when s.finished_signal (finish_current p) s
          ])
          (λ _ t. IsOpen inbox t)
  finished_case none e = h
  finished_case (some p) e =
      Ends-either (λ _ t. IsOpen inbox t) s.finished_signal _ _ (finish_on s p h.0 e inbox h.1) h

  pub handle_finished-IsOpen : Ends (handle_finished_processes s) (λ _ t. IsOpen inbox t)
  unfolding handle_finished_processes
  handle_finished-IsOpen = finished_case s.mem.curr refl
