-- ===== src/SubScheduler/Receiving.antt =====
-- The loops of sub-sched/sub_scheduler.c that empty the message queue of this CPU.
use cpu_scheduler.Base.{Bool, false, inl, inr, List, [], ◌∷◌, pos, eqb_ℤ, if◌then◌else◌, Bool-cases}
use cpu_scheduler.Types.{ProcessData}
use cpu_scheduler.Queue.{enqueue}
use cpu_scheduler.Platform.{Platform}
use cpu_scheduler.Perf.{note_arrival}
use cpu_scheduler.Scheduler.State.{create_pcb}
use cpu_scheduler.SubScheduler.State.{Sub}

module _ {P : Platform} where
  -- A message of type 1 while a theft is answered.
  unfoldable pub take_in : ProcessData → Sub P → Sub P
  unfolding create_pcb enqueue
  take_in d s = record s { ready = enqueue s.ready (create_pcb d) }

  -- A message of type 1 elsewhere.
  unfoldable pub admit : ProcessData → Sub P → Sub P
  unfolding create_pcb note_arrival take_in
  admit d s = take_in d (record s { perf = note_arrival P s.perf (create_pcb d).arrival })

  -- The loop over the waiting messages, for what it does with one of type 1; one of type 5 ends it.
  unfoldable pub drain : (ProcessData → Sub P → Sub P) → List ProcessData → Sub P → Sub P
  drain accept [] s = record s { inbox = [] }
  drain accept (d ∷ rest) s =
      let on = drain accept rest s in
      let accepted = drain accept rest (accept d s) in
      if eqb_ℤ d.mtype (pos 5)
      then record s { inbox = rest; receiving = false }
      else if eqb_ℤ d.mtype (pos 1)
      then accepted
      else on

  unfoldable pub receive : Sub P → Sub P
  unfolding drain admit
  receive s = drain admit s.inbox s

  -- Emptying the message queue keeps what the acceptance of a message and the end of the loop keep.
  pub drain-keeps :
      (K : Sub P → Type 0) (accept : ProcessData → Sub P → Sub P)
      → ((d : ProcessData) (t : Sub P) → K t → K (accept d t))
      → ((left : List ProcessData) (b : Bool) (t : Sub P)
          → K t
          → K (record t { inbox = left; receiving = b }))
      → (inbox : List ProcessData) (s : Sub P) → K s
      → K (drain accept inbox s)
  unfolding drain
  drain-keeps K accept step end [] s h = end [] s.receiving s h
  drain-keeps K accept step end (d ∷ rest) s h = elim (Bool-cases (eqb_ℤ d.mtype (pos 5))) [
    | inl e ↦ rw e (end rest false s h)
    | inr e ↦ elim (Bool-cases (eqb_ℤ d.mtype (pos 1))) [
      | inl f ↦ rw (e, f) (drain-keeps K accept step end rest (accept d s) (step d s h))
      | inr f ↦ rw (e, f) (drain-keeps K accept step end rest s h)
    ]
  ]
