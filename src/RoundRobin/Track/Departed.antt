-- ===== src/RoundRobin/Track/Departed.antt =====
-- The states that a process has left.
use cpu_scheduler.Base.{
  ◌+◌, ◌≡◌, ◌≢◌, ◌<◌, ap, sym, ◌∙◌, inl, inr, ◌==◌, Option, none, some, List, arith, Bool-cases,
}
use cpu_scheduler.Types.{Pcb, PcbPtr, ProcessData}
use cpu_scheduler.Run.{Run, ok, fault, exits}
use cpu_scheduler.Run.Ends.{Ends}
use cpu_scheduler.Memory.State.{Memory, set_pcb}
use cpu_scheduler.Memory.Same.{Same, id_at, id_of}
use cpu_scheduler.Platform.{Platform}
use cpu_scheduler.RoundRobin.State.{Rr, run_in}
use cpu_scheduler.RoundRobin.Track.{waits, one, count, count_curr}
use cpu_scheduler.RoundRobin.Track.Placed.{IsPlaced, listed}
use cpu_scheduler.RoundRobin.Track.Admitted.{NewIds-IsWithin, IsWithin, IsOpen}

-- `s` without the process at `p`, which has left the list of all processes.
pub record Left {P : Platform} (s : Rr P) (p : PcbPtr) (all : List PcbPtr)
    (pcbs : PcbPtr → Option Pcb) (ready block : List PcbPtr) (next : PcbPtr) : Type 0 where
  pub less : (q : PcbPtr) → listed s q ≡ one p q + count q all
  pub next_same : next ≡ s.next_ptr
  pub ids_same : (q : PcbPtr) → q ≢ p → id_of (pcbs q) ≡ id_at s.mem q
  pub waits_are : (q : PcbPtr) → count q ready + count q block ≡ waits s q

module _ {P : Platform} (s : Rr P) (p : PcbPtr) where
  abbrev pub HasLeft : Rr P → Type 0
  HasLeft t = Left s p t.mem.all.items t.mem.pcbs t.ready.items t.block.items t.next_ptr

  -- The state that is left has every other process in its place.
  HasLeft-IsPlaced :
      (t : Rr P) → IsPlaced s → s.mem.curr ≡ some p → t.mem.curr ≡ none → HasLeft t → IsPlaced t
  HasLeft-IsPlaced t h at_s at_t k =
      let held : (q : PcbPtr) → listed s q ≡ one p q + waits s q =
        λ q. h.placed q ∙ ap (λ o. count_curr q o + waits s q) at_s in
      let none_of_p : count p t.mem.all.items ≡ 0 = ground (arith, k.less p, h.once p) in
      let other : (q : PcbPtr) → 0 < listed t q → q ≢ p =
        λ q m e. absurd (ground (arith, ap (listed t) e)) in
      let old : (q : PcbPtr) → 0 < listed t q → 0 < listed s q = λ q m. omega (arith, k.less q) in
      record {
        placed = λ q. rw at_t (omega (arith, k.less q, held q, k.waits_are q));
        once = λ q. omega (arith, k.less q, h.once q);
        below = λ q m. rw k.next_same (h.below q (old q m));
        live = λ q m e. h.live q (old q m) (sym (k.ids_same q (other q m)) ∙ e);
        ids_apart = λ q r m n e.
            h.ids_apart q r (old q m) (old r n)
              (sym (k.ids_same q (other q m)) ∙ e ∙ k.ids_same r (other r n));
      }

module _ {P : Platform} (s : Rr P) (p : PcbPtr) (inbox : List ProcessData) where
  pub HasLeft-IsOpen :
      (t : Rr P)
      → IsOpen inbox s
      → s.mem.curr ≡ some p
      → t.mem.curr ≡ none
      → HasLeft s p t
      → IsOpen inbox t
  HasLeft-IsOpen t (h, new) at_s at_t k =
      let none_of_p : listed t p ≡ 0 = ground (arith, k.less p, h.once p) in
      let within : IsWithin s t = λ q m.
        (omega (arith, k.less q), k.ids_same q (λ e. absurd (ground (arith, ap (listed t) e)))) in
      (HasLeft-IsPlaced s p t h at_s at_t k, NewIds-IsWithin s t inbox within new)

module _ {P : Platform} (s : Rr P) (p : PcbPtr) where
  pub left_on :
      {A : Type 0} (n : Rr P) (r : Run Memory A)
      → Ends r (λ _ m. Same n.mem m)
      → HasLeft s p n
      → Ends (run_in n r) (λ _ t. HasLeft s p t)
  left_on n (ok a m) e k = record {
    less = λ q. k.less q ∙ sym (ap (λ l. one p q + count q l.items) e.same_all);
    next_same = k.next_same;
    ids_same = λ q apart. e.same_ids q ∙ k.ids_same q apart;
    waits_are = k.waits_are;
  }
  left_on n fault e k = tt
  left_on n exits e k = tt

  -- The PCB is freed, and nothing runs.
  pub freed :
      (n : Rr P)
      → HasLeft s p n
      → HasLeft s p
          (record n { mem = record (n.mem) { pcbs = set_pcb n.mem.pcbs p none; curr = none } })
  unfolding set_pcb
  freed n k = record {
    less = k.less;
    next_same = k.next_same;
    ids_same = λ q apart. elim (Bool-cases (q == p)) [
      | inl e ↦ absurd (apart (ground arith))
      | inr e ↦ rw e (k.ids_same q apart)
    ];
    waits_are = k.waits_are;
  }
