-- ===== src/SubScheduler/Steps.antt =====
-- The steps of a sub-scheduler of sub-sched/ among those of its surroundings.
use mathlib.Core.Path.{subst}
use cpu_scheduler.Base.{ℕ, ◌≡◌, refl, arith, Bool, some, List, [], ◌∷◌, ◌++◌, ℤ, pos, ◌+ℤ◌}
use cpu_scheduler.Types.{Pcb, ProcessData, running}
use cpu_scheduler.Queue.{create_queue}
use cpu_scheduler.Platform.{Platform}
use cpu_scheduler.Scheduler.State.{Load}
use cpu_scheduler.SubScheduler.State.{Sub, initial}
use cpu_scheduler.SubScheduler.Stall.{stall_sig}
use cpu_scheduler.SubScheduler.Stealing.{steal_handler}
use cpu_scheduler.SubScheduler.Loop.{crashed, held, went, on_process_finished, gate, round}
use cpu_scheduler.SubScheduler.Invariant.{
  Good, RoundGood, round-Good, gate-Good, stall_sig-Good, steal_handler-Good,
}

module _ {P : Platform} where
  -- What may happen next: a message comes, the clock moves on, the child writes its remaining time
  -- or takes its tick, the running child ends, the scheduler writes the load and the permits, one of
  -- the two handlers runs, or the loop goes through a round, or into the wait at the gate, or out
  -- of it. Where the loop stands is left open, so more sequences are allowed than the program has.
  -- A handler runs between these steps and not within one.
  pub data Step : Sub P → Sub P → Type 0 where
    comes : (d : ProcessData) (s : Sub P) → Step s (record s { inbox = s.inbox ++ d ∷ [] })
    clock : (s : Sub P) → Step s (record s { clk = s.clk +ℤ pos 1 })
    child_runs : (r : ℤ) (k : ℕ) (s : Sub P) → Step s (record s { rt = r; sem = k })
    child_ends :
        (c : Pcb) (s : Sub P) → s.curr ≡ some c → c.state ≡ running → Step s (on_process_finished s)
    scheduler_writes : (l : Load) (k : ℕ) (s : Sub P) → Step s (record s { load = l; permits = k })
    stalls : (s : Sub P) → Step s (stall_sig s)
    steals : (s : Sub P) → Step s (steal_handler s)
    rounds : (late : List ProcessData) (s s' : Sub P) → round late s ≡ went s' → Step s s'
    waits : (late : List ProcessData) (s s' : Sub P) → round late s ≡ held s' → Step s s'
    passes : (late : List ProcessData) (s s' : Sub P) → gate late s ≡ went s' → Step s s'

  pub data Reached : Sub P → Type 0 where
    started :
        (first : Bool) (l : Load) (inbox : List ProcessData) → Reached (initial P first l inbox)
    next : (s s' : Sub P) → Reached s → Step s s' → Reached s'

  child_ends-Good : (c : Pcb) (s : Sub P) → s.curr ≡ some c → Good s → Good (on_process_finished s)
  unfolding on_process_finished
  child_ends-Good c s e h = ground arith

  Step-Good : (s s' : Sub P) → Step s s' → Good s → Good s'
  Step-Good s s' (comes d t) h = h
  Step-Good s s' (clock t) h = h
  Step-Good s s' (child_runs r k t) h = h
  Step-Good s s' (child_ends c t e f) h = child_ends-Good c t e h
  Step-Good s s' (scheduler_writes l k t) h = h
  Step-Good s s' (stalls t) h = stall_sig-Good t h
  Step-Good s s' (steals t) h = steal_handler-Good t h
  Step-Good s s' (rounds late t t' e) h = subst RoundGood e (round-Good late t h)
  Step-Good s s' (waits late t t' e) h = subst RoundGood e (round-Good late t h)
  Step-Good s s' (passes late t t' e) h = subst RoundGood e (gate-Good late t h)

  keeps_Good : (s : Sub P) → Reached s → Good s
  unfolding initial create_queue
  keeps_Good s (started first l inbox) = ((refl, tt), refl)
  keeps_Good s (next t t' r e) = Step-Good t t' e (keeps_Good t r)

  -- However messages, ticks of the clock, the child, the scheduler's writes, the stall and the steal
  -- handler and the rounds of the loop follow each other from the start, the ready queue counts its
  -- nodes right and holds only processes that never ran; the process on the CPU has been forked, and
  -- is in state W while the CPU is stalled and in state R otherwise. In every state so reached a
  -- round of the loop does not read the null pointer in `finishLogic`, whatever messages come.
  pub Reached-Good :
      (late : List ProcessData) (s : Sub P) → Reached s → Good s × (¬ (round late s ≡ crashed))
  Reached-Good late s r =
      let g = keeps_Good s r in (g, λ e. subst RoundGood e (round-Good late s g))
