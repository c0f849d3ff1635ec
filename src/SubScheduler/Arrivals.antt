-- ===== src/SubScheduler/Arrivals.antt =====
-- The first arrival that a sub-scheduler of sub-sched/ notes for its statistics.
use cpu_scheduler.Base.{
  ◌≡◌, refl, inl, inr, ◌∙◌, ap, List, ◌∷◌, arith, ℤ, pos, minus_one, ◌≤ℤ◌, Option-cases,
}
use cpu_scheduler.Types.{ProcessData}
use cpu_scheduler.Queue.{dequeue_rear}
use cpu_scheduler.Platform.{Platform}
use cpu_scheduler.Perf.{note_arrival}
use cpu_scheduler.Scheduler.State.{create_pcb}
use cpu_scheduler.SubScheduler.State.{Sub, log_data}
use cpu_scheduler.SubScheduler.Receiving.{take_in, admit, drain, drain-keeps, receive}
use cpu_scheduler.SubScheduler.Stealing.{give_up, steal_handler}

module _ {P : Platform} where
  Notes : ℤ → Sub P → Type 0
  Notes a s = s.perf.first_arrival ≡ a

  take_in-perf : (a : ℤ) (d : ProcessData) (t : Sub P) → Notes a t → Notes a (take_in d t)
  unfolding take_in Notes
  take_in-perf a d t h = h

  admit-perf :
      (a : ℤ) → pos 0 ≤ℤ a → (d : ProcessData) (t : Sub P) → Notes a t → Notes a (admit d t)
  unfolding admit take_in note_arrival Notes
  admit-perf a l d t h = ground arith

  give_up-perf : (a : ℤ) (s : Sub P) → Notes a s → Notes a (give_up s)
  unfolding give_up log_data Notes
  give_up-perf a s h = elim (Option-cases (dequeue_rear s.ready)) [
    | inl e ↦ ground arith
    | inr ((c, rest), e) ↦ ground arith
  ]

  admits_first :
      (d : ProcessData) (rest : List ProcessData) (s : Sub P)
      → d.mtype ≡ pos 1
      → drain admit (d ∷ rest) s ≡ drain admit rest (admit d s)
  unfolding drain
  admits_first d rest s e = rw e refl

  admit-Notes : (d : ProcessData) (s : Sub P) → Notes minus_one s → Notes d.arrival (admit d s)
  unfolding admit take_in note_arrival create_pcb Notes
  admit-Notes d s h = ground arith

  -- The first process that the loop takes in, of an arrival not before 0, sets the first arrival of
  -- the statistics for good; the same messages taken in by the steal handler leave it unset.
  pub steal_handler_loses_arrival :
      (s : Sub P) (d : ProcessData) (rest : List ProcessData)
      → s.inbox ≡ d ∷ rest
      → d.mtype ≡ pos 1
      → pos 0 ≤ℤ d.arrival
      → s.perf.first_arrival ≡ minus_one
      → ((receive s).perf.first_arrival ≡ d.arrival)
        × ((steal_handler s).perf.first_arrival ≡ minus_one)
  unfolding receive steal_handler Notes
  steal_handler_loses_arrival s d rest e m l h =
      let k =
        drain-keeps (Notes d.arrival) admit (admit-perf d.arrival l) (λ left b t h. h) rest
          (admit d s) (admit-Notes d s h) in
      (
        ap (λ q. (drain admit q s).perf.first_arrival) e
            ∙ ap (λ t. t.perf.first_arrival) (admits_first d rest s m)
            ∙ k,
        give_up-perf minus_one (drain take_in s.inbox s) (
            drain-keeps (Notes minus_one) take_in (take_in-perf minus_one) (λ left b t h. h) s.inbox
              s h),
      )
