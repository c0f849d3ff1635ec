-- ===== src/Generator/Completion.antt =====
-- That the sender of process_generator/process_generator.c comes to its end.
use mathlib.Core.Path.{subst}
use mathlib.Core.List.{append_assoc, append-nil}
use cpu_scheduler.Base.{
  ◌≡◌, refl, sym, ap, ◌∙◌, inl, inr, true, false, some, List, [], ◌∷◌, ◌++◌, arith, ℤ, pos, ◌≤ℤ◌,
  eqb_ℤ, Bool-cases, All,
}
use cpu_scheduler.Types.{ProcessData}
use cpu_scheduler.Queue.{Queue, is_empty}
use cpu_scheduler.Generator.Sending.{
  Gen, sync, termination, send_due, poll, send_loop, start, generate,
}
use cpu_scheduler.Generator.Delivery.{
  processes, IsProcess, HasArrived, FrontLater, send_due-split, send_due-FrontLater, send_due-all,
  send_due-All, processes-append, processes-all,
}

processes-batch :
    (sent due : List ProcessData) (now : ℤ)
    → All IsProcess due
    → processes (sent ++ due ++ sync now ∷ []) ≡ processes sent ++ due
unfolding sync
processes-batch sent due now h =
    processes-append (sent ++ due) (sync now ∷ [])
    ∙ append-nil (processes (sent ++ due))
    ∙ processes-append sent due
    ∙ ap (λ r. processes sent ++ r) (processes-all due h)

pub poll-new :
    (now : ℤ) (s : Gen)
    → eqb_ℤ now s.last_time ≡ false
    → let due = send_due now s.queue.items s.queue.size in
      poll now s
      ≡ record { queue = due.1; last_time = now; sent = s.sent ++ due.0 ++ sync now ∷ [] }
unfolding poll
poll-new now s e = rw e refl

poll-same : (now : ℤ) (s : Gen) → eqb_ℤ now s.last_time ≡ true → poll now s ≡ s
unfolding poll
poll-same now s e = rw e refl

-- What holds of the sender between two rounds, for the processes that it began with.
pub record Ledger (all : List ProcessData) (s : Gen) : Type 0 where
  pub kept : processes s.sent ++ s.queue.items ≡ all
  pub left : All IsProcess s.queue.items
  pub polled : FrontLater s.last_time s.queue.items

poll-Ledger : (all : List ProcessData) (now : ℤ) (s : Gen) → Ledger all s → Ledger all (poll now s)
poll-Ledger all now s h = elim (Bool-cases (eqb_ℤ now s.last_time)) [
  | inl e ↦ subst (Ledger all) (sym (poll-same now s e)) h
  | inr e ↦ subst (Ledger all) (sym (poll-new now s e)) (
      let due = send_due now s.queue.items s.queue.size in
      let k = send_due-All IsProcess now s.queue.items s.queue.size h.left in
      record {
        kept =
            ap (λ r. r ++ due.1.items) (processes-batch s.sent due.0 now k.0)
            ∙ append_assoc (processes s.sent) due.0 due.1.items
            ∙ ap (λ r. processes s.sent ++ r) (send_due-split now s.queue.items s.queue.size)
            ∙ h.kept;
        left = k.1;
        polled = send_due-FrontLater now s.queue.items s.queue.size;
      })
]

-- Once the queue is empty the loop stays as it is.
send_loop_done : (readings : List ℤ) (s : Gen) → s.queue.items ≡ [] → send_loop readings s ≡ s
unfolding send_loop is_empty
send_loop_done [] s e = refl
send_loop_done (now ∷ more) s e = rw e refl

arrived_front :
    (now last : ℤ) (ps : List ProcessData)
    → eqb_ℤ now last ≡ true
    → FrontLater last ps
    → All (HasArrived now) ps
    → ps ≡ []
arrived_front now last [] e f h = refl
arrived_front now last (p ∷ ps) e f h = ground arith

-- A reading at which all of the queue has arrived empties it.
poll-empties :
    (all : List ProcessData) (now : ℤ) (s : Gen)
    → Ledger all s
    → All (HasArrived now) s.queue.items
    → (poll now s).queue.items ≡ []
poll-empties all now s k h = elim (Bool-cases (eqb_ℤ now s.last_time)) [
  | inl e ↦
      ap (λ t. t.queue.items) (poll-same now s e)
      ∙ arrived_front now s.last_time s.queue.items e k.polled h
  | inr e ↦
      ap (λ t. t.queue.items) (poll-new now s e) ∙ send_due-all now s.queue.items s.queue.size h
]

poll-All {κ} :
    (Q : ProcessData → Type κ) (now : ℤ) (s : Gen)
    → All Q s.queue.items
    → All Q (poll now s).queue.items
poll-All Q now s h = elim (Bool-cases (eqb_ℤ now s.last_time)) [
  | inl e ↦ subst (λ t. All Q t.queue.items) (sym (poll-same now s e)) h
  | inr e ↦
      subst (λ t. All Q t.queue.items) (sym (poll-new now s e))
        (send_due-All Q now s.queue.items s.queue.size h).1
]

-- One round of the loop.
send_loop_on :
    (now : ℤ) (more : List ℤ) (s : Gen)
    → is_empty s.queue ≡ false
    → send_loop (now ∷ more) s ≡ send_loop more (poll now s)
unfolding send_loop
send_loop_on now more s e = rw e refl

is_empty→nil : (q : Queue ProcessData) → is_empty q ≡ true → q.items ≡ []
unfolding is_empty
is_empty→nil q e = ground arith

send_loop-Ledger :
    (all : List ProcessData) (readings : List ℤ) (s : Gen)
    → Ledger all s
    → Ledger all (send_loop readings s)
unfolding send_loop
send_loop-Ledger all [] s h = h
send_loop-Ledger all (now ∷ more) s h = elim (Bool-cases (is_empty s.queue)) [
  | inl e ↦ rw e h
  | inr e ↦ rw e (send_loop-Ledger all more (poll now s) (poll-Ledger all now s h))
]

send_loop_empties :
    (all : List ProcessData) (before : List ℤ) (now : ℤ) (after : List ℤ) (s : Gen)
    → Ledger all s
    → All (HasArrived now) s.queue.items
    → (send_loop (before ++ now ∷ after) s).queue.items ≡ []
send_loop_empties all [] now after s k h = elim (Bool-cases (is_empty s.queue)) [
  | inl e ↦
      let n = is_empty→nil s.queue e in
      ap (λ t. t.queue.items) (send_loop_done (now ∷ after) s n) ∙ n
  | inr e ↦
      let n = poll-empties all now s k h in
      ap (λ t. t.queue.items) (send_loop_on now after s e ∙ send_loop_done after (poll now s) n) ∙ n
]
send_loop_empties all (r ∷ before) now after s k h = elim (Bool-cases (is_empty s.queue)) [
  | inl e ↦
      let n = is_empty→nil s.queue e in
      ap (λ t. t.queue.items) (send_loop_done (r ∷ before ++ now ∷ after) s n) ∙ n
  | inr e ↦
      ap (λ t. t.queue.items) (send_loop_on r (before ++ now ∷ after) s e)
      ∙ send_loop_empties all before now after (poll r s) (poll-Ledger all r s k)
          (poll-All (HasArrived now) r s h)
]

nil→is_empty : (q : Queue ProcessData) → q.items ≡ [] → is_empty q ≡ true
unfolding is_empty
nil→is_empty q e = rw e refl

start-Ledger :
    (q : Queue ProcessData)
    → All IsProcess q.items
    → All (λ p. pos 0 ≤ℤ p.arrival) q.items
    → Ledger q.items (start q)
unfolding start
start-Ledger q h a = record { kept = refl; left = h; polled = ground arith }

-- When the clock is read at a time by which every process has arrived (none of them before time 0),
-- whatever it reads before and after, the sender ends: the messages that it has sent by then hold
-- every process of the queue once, in the order of the queue, and end with the termination.
pub generate_completes :
    (before : List ℤ) (now : ℤ) (after : List ℤ) (q : Queue ProcessData)
    → All IsProcess q.items
    → All (λ p. pos 0 ≤ℤ p.arrival) q.items
    → All (HasArrived now) q.items
    → (msgs : List ProcessData) × (generate (before ++ now ∷ after) q
        ≡ some (msgs ++ termination ∷ []))
      × (processes msgs ≡ q.items)
unfolding generate start
generate_completes before now after q h a b =
    let s = send_loop (before ++ now ∷ after) (start q) in
    let k = start-Ledger q h a in
    let n = send_loop_empties q.items before now after (start q) k b in
    let led = send_loop-Ledger q.items (before ++ now ∷ after) (start q) k in
    (
      s.sent,
      rw (nil→is_empty s.queue n) refl,
      sym (append-nil (processes s.sent)) ∙ ap (λ r. processes s.sent ++ r) (sym n) ∙ led.kept,
    )
