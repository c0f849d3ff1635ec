-- ===== src/Generator/Pipeline.antt =====
-- The sender of process_generator/process_generator.c with the receiver of
-- rr_scheduler/rr_scheduler_functions.c, at one tick of the clock.
use mathlib.Core.Path.{subst}
use cpu_scheduler.Base.{
  ◌≡◌, refl, ap, ◌∙◌, true, false, some, List, [], ◌∷◌, ◌++◌, arith, ℤ, pos, leb_ℤ, eqb_ℤ, eqb_ℤ→eq,
  ◌≤ℤ◌, ◌<ℤ◌, inl, inr, false, Bool-cases, if◌then◌else◌, All,
}
use cpu_scheduler.Types.{ProcessData}
use cpu_scheduler.Platform.{Platform}
use cpu_scheduler.RoundRobin.State.{Rr}
use cpu_scheduler.RoundRobin.Lifecycle.{admit, receive_loop}
use cpu_scheduler.RoundRobin.Lifecycle.Receive.{addresses, new_processes, receive_loop-Received}
use cpu_scheduler.Generator.Sending.{Gen, sync, send_due, poll}
use cpu_scheduler.Generator.Delivery.{
  IsProcess, HasArrived, IsLater, IsSorted, send_due-split, send_due-HasArrived, send_due-IsLater,
  send_due-All,
}
use cpu_scheduler.Generator.Completion.{poll-new}

leb_ℤ-refl : (a : ℤ) → leb_ℤ a a ≡ true
leb_ℤ-refl a = ground arith

batch-new_processes :
    (now : ℤ) (due later : List ProcessData)
    → All IsProcess due
    → new_processes now (due ++ sync now ∷ later) ≡ due
unfolding sync
batch-new_processes now [] later h = rw (leb_ℤ-refl now) refl
batch-new_processes now (d ∷ due) later h =
    rw (ap (λ m. eqb_ℤ m (pos 1)) h.0) (ap (λ r. d ∷ r) (batch-new_processes now due later h.1))

-- The messages of one type.
abbrev pub of_type : ℤ → List ProcessData → List ProcessData
of_type t [] = []
of_type t (d ∷ rest) = if eqb_ℤ d.mtype t then d ∷ of_type t rest else of_type t rest

-- No message comes before one of a lower type.
abbrev pub IsByType : List ProcessData → Type 0
IsByType [] = Unit
IsByType (d ∷ rest) = All (λ e. d.mtype ≤ℤ e.mtype) rest × IsByType rest

-- What `msgrcv` with the type -5 is documented to do with a message queue of which it takes all: it
-- delivers messages of a type from 1 to 5, those of the lowest type first, and messages of one type
-- in the order in which they were sent.
pub record Delivers (queue order : List ProcessData) : Type 0 where
  pub taken : All (λ d. (pos 1 ≤ℤ d.mtype) × (d.mtype ≤ℤ pos 5)) order
  pub in_order : IsByType order
  pub as_sent : (t : ℤ) → of_type t order ≡ of_type t queue

of_type-above :
    (t low : ℤ) (xs : List ProcessData)
    → t <ℤ low
    → All (λ e. low ≤ℤ e.mtype) xs
    → of_type t xs ≡ []
of_type-above t low [] l h = refl
of_type-above t low (x ∷ xs) l h =
    let other : eqb_ℤ x.mtype t ≡ false = ground (arith, h.0) in
    rw other (of_type-above t low xs l h.1)

-- Behind the processes the first message is the first sync, if there is one.
sync_behind :
    (order : List ProcessData) (m : ProcessData) (more : List ProcessData)
    → IsByType order
    → All (λ d. (pos 1 ≤ℤ d.mtype) × (d.mtype ≤ℤ pos 5)) order
    → of_type (pos 2) order ≡ m ∷ more
    → (left : List ProcessData) × (order ≡ of_type (pos 1) order ++ m ∷ left)
sync_behind [] m more b h e = cc
sync_behind (x ∷ rest) m more b h e = elim (Bool-cases (eqb_ℤ x.mtype (pos 1))) [
  | inl f ↦
      let x_is : x.mtype ≡ pos 1 = eqb_ℤ→eq x.mtype (pos 1) f in
      let twos : of_type (pos 2) rest ≡ m ∷ more = ground arith in
      let (left, k) = sync_behind rest m more b.1 h.1 twos in (left, rw f (ap (λ xs. x ∷ xs) k))
  | inr f ↦
      let none_left : of_type (pos 1) rest ≡ [] =
        of_type-above (pos 1) x.mtype rest (ground (arith, h.0)) b.0 in
      elim (Bool-cases (eqb_ℤ x.mtype (pos 2))) [
        | inl g ↦ let same : x ≡ m = ground arith in (rest, rw (f, none_left, same) refl)
        | inr g ↦
            let no_sync : of_type (pos 2) rest ≡ [] =
              of_type-above (pos 2) x.mtype rest (ground (arith, h.0)) b.0 in
            absurd (ground arith)
      ]
]

of_type-IsProcess : (xs : List ProcessData) → All IsProcess (of_type (pos 1) xs)
of_type-IsProcess [] = tt
of_type-IsProcess (x ∷ xs) = elim (Bool-cases (eqb_ℤ x.mtype (pos 1))) [
  | inl e ↦ rw e (eqb_ℤ→eq x.mtype (pos 1) e, of_type-IsProcess xs)
  | inr e ↦ rw e (of_type-IsProcess xs)
]

of_type-processes :
    (now : ℤ) (due later : List ProcessData)
    → All IsProcess due
    → of_type (pos 1) (due ++ sync now ∷ later) ≡ due ++ of_type (pos 1) later
unfolding sync
of_type-processes now [] later h = refl
of_type-processes now (d ∷ due) later h =
    rw (ap (λ m. eqb_ℤ m (pos 1)) h.0) (ap (λ xs. d ∷ xs) (of_type-processes now due later h.1))

of_type-syncs :
    (now : ℤ) (due later : List ProcessData)
    → All IsProcess due
    → of_type (pos 2) (due ++ sync now ∷ later) ≡ sync now ∷ of_type (pos 2) later
unfolding sync
of_type-syncs now [] later h = refl
of_type-syncs now (d ∷ due) later h =
    rw (ap (λ m. eqb_ℤ m (pos 2)) h.0) (of_type-syncs now due later h.1)

-- The processes that the sender takes off its queue when it reads the clock at `now`.
abbrev pub batch : ℤ → Gen → List ProcessData
batch now g = (send_due now g.queue.items g.queue.size).0

module _ {P : Platform} where
  receive_loop-left :
      (now : ℤ) (due later : List ProcessData) (s : Rr P)
      → All IsProcess due
      → (receive_loop now (due ++ sync now ∷ later) s).0 ≡ some later
  unfolding receive_loop sync
  receive_loop-left now [] later s h = rw (leb_ℤ-refl now) refl
  receive_loop-left now (d ∷ due) later s h =
      rw (ap (λ m. eqb_ℤ m (pos 1)) h.0) (receive_loop-left now due later (admit d s) h.1)

  -- At a new reading of the clock, with the queue of the sender in order of arrival, the sender takes
  -- off exactly the processes that have arrived and sends them with a sync behind them. When a
  -- scheduler receives at the same reading, with these messages and any that were sent later in the
  -- message queue, and `msgrcv` delivers them by type, it does not block: it adds a PCB to its ready
  -- queue for each of the processes that have arrived, in order, and then for each process of the
  -- later messages, which overtakes the sync; it leaves what comes behind the sync.
  pub poll-receive_loop :
      (now : ℤ) (g : Gen) (later order : List ProcessData) (s : Rr P)
      → eqb_ℤ now g.last_time ≡ false
      → IsSorted g.queue.items
      → All IsProcess g.queue.items
      → Delivers (batch now g ++ sync now ∷ later) order
      → let due = batch now g in
        let g' = poll now g in
        let admitted = due ++ of_type (pos 1) later in
        let received = receive_loop now order s in
        (g'.sent ≡ g.sent ++ due ++ sync now ∷ [])
        × (due ++ g'.queue.items ≡ g.queue.items)
        × All (HasArrived now) due
        × All (IsLater now) g'.queue.items
        × ((left : List ProcessData) × (order ≡ admitted ++ sync now ∷ left)
            × (received.0 ≡ some left))
        × (received.1.ready.items ≡ s.ready.items ++ addresses s.next_ptr admitted)
  poll-receive_loop now g later order s e o h d =
      let items = g.queue.items in
      let n = g.queue.size in
      let due = batch now g in
      let admitted = due ++ of_type (pos 1) later in
      let k = (send_due-All IsProcess now items n h).0 in
      let ones : of_type (pos 1) order ≡ admitted =
        d.as_sent (pos 1) ∙ of_type-processes now due later k in
      let twos : of_type (pos 2) order ≡ sync now ∷ of_type (pos 2) later =
        d.as_sent (pos 2) ∙ of_type-syncs now due later k in
      let (left, at) =
        sync_behind order (sync now) (of_type (pos 2) later) d.in_order d.taken twos in
      let split : order ≡ admitted ++ sync now ∷ left =
        at ∙ ap (λ xs. xs ++ sync now ∷ left) ones in
      let all_new : All IsProcess admitted =
        subst (λ xs. All IsProcess xs) ones (of_type-IsProcess order) in
      rw (poll-new now g e) (
        refl,
        send_due-split now items n,
        send_due-HasArrived now items n,
        send_due-IsLater now items n o,
        (
          left,
          split,
          ap (λ xs. (receive_loop now xs s).0) split
              ∙ receive_loop-left now admitted left s all_new,
        ),
        (receive_loop-Received now order s).ready
            ∙ ap (λ ds. s.ready.items ++ addresses s.next_ptr ds)
                (ap (new_processes now) split ∙ batch-new_processes now admitted left all_new),
      )
