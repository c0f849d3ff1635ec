-- ===== src/RoundRobin/Track/Ticked.antt =====
-- A tick of the round-robin scheduler leaves each process in one place.
use cpu_scheduler.Base.{
  ℕ, sym, ap, false, ◌&&◌, ◌||◌, not, Option, none, some, List, ℤ, pos, minus_one, eqb_ℤ, leb_ℤ,
  ltb_ℤ, arith, Bool-cases, inl, inr,
}
use cpu_scheduler.Types.{PcbPtr, ProcessData, Request}
use cpu_scheduler.Run.{Run, Cmd, pure, and_then, when, ◌>>=◌, ◌>>◌, gets}
use cpu_scheduler.Run.Ends.{Ends, Ends-and_then, Ends-weaken, Ends-either, Ends-choice}
use cpu_scheduler.Platform.{Platform}
use cpu_scheduler.RoundRobin.State.{Rr}
use cpu_scheduler.RoundRobin.Blocking.{check_block_end}
use cpu_scheduler.RoundRobin.Dispatch.{rr_algo}
use cpu_scheduler.RoundRobin.Requests.{handle_requests}
use cpu_scheduler.RoundRobin.Lifecycle.{receive_processes, handle_finished_processes}
use cpu_scheduler.RoundRobin.Loop.{is_busy, age_pages, grant_tick, schedule, tick}
use cpu_scheduler.RoundRobin.Track.{At, Stays, waits, count, stay_rules}
use cpu_scheduler.RoundRobin.Track.Blocked.{check_block_end_on}
use cpu_scheduler.RoundRobin.Track.Dispatched.{Has, Stays-Has, rr_algo_on}
use cpu_scheduler.RoundRobin.Track.Requested.{handle_requests_on}
use cpu_scheduler.RoundRobin.Track.Placed.{IsPlaced, IsPlaced-Has, Has-IsPlaced, listed}
use cpu_scheduler.RoundRobin.Track.Admitted.{
  NewIds-IsWithin, IsWithin, IsOpen, IsOpenLeft, receive_loop-IsOpen,
}
use cpu_scheduler.RoundRobin.Track.Finished.{handle_finished-IsOpen}

module _ {P : Platform} where
  pub Has-IsOpen :
      (inbox : List ProcessData) (s t : Rr P) → IsOpen inbox s → Has s (listed s) t → IsOpen inbox t
  Has-IsOpen inbox s t (h, new) (k, e) =
      let within : IsWithin s t = λ p m. (omega (arith, ap (count p) k.all_same), k.ids_same p) in
      (Has-IsPlaced s t h (k, e), NewIds-IsWithin s t inbox within new)

  Ends-IsOpen :
      {A : Type 0} (inbox : List ProcessData) (s : Rr P) (r : Run (Rr P) A)
      → IsOpen inbox s
      → Ends r (λ _ t. Has s (listed s) t)
      → Ends r (λ _ t. IsOpen inbox t)
  Ends-IsOpen inbox s r h e =
      Ends-weaken (λ _ t. Has s (listed s) t) (λ _ t. IsOpen inbox t) r e
        (λ _ t k. Has-IsOpen inbox s t h k)

  -- A command that leaves the current process and the queues alone, on counts.
  Stays-placed :
      {A : Type 0} (s : Rr P) (r : Run (Rr P) A)
      → IsPlaced s
      → Stays s s.mem.curr (waits s) r
      → Ends r (λ _ t. Has s (listed s) t)
  Stays-placed s r h k = Stays-Has s s.mem.curr (waits s) (listed s) r (λ q. sym (h.placed q)) k

  check_block_end-Has :
      (s : Rr P) → IsPlaced s → Ends (check_block_end s) (λ _ t. Has s (listed s) t)
  check_block_end-Has s h =
      Stays-placed s (check_block_end s) h
        (check_block_end_on s s.mem.curr (waits s) s (IsPlaced-Has s h).0)

  age-Stays :
      (s : Rr P) (c : Option PcbPtr) (w : PcbPtr → ℕ) (k : ℤ) (n : Rr P)
      → At s c w n
      → Stays s c w (age_pages k n)
  unfolding age_pages
  age-Stays s c w k n h = search stay_rules depth 9

  grant-Stays :
      (s : Rr P) (c : Option PcbPtr) (w : PcbPtr → ℕ) (now : ℤ) (n : Rr P)
      → At s c w n
      → Stays s c w (grant_tick now n)
  unfolding grant_tick
  grant-Stays s c w now n h =
      elim (Bool-cases (is_busy n.mem.curr && leb_ℤ n.context_switch_until now)) [
        | inl e ↦ rw e h
        | inr e ↦ rw e h
      ]

  -- A command of the tick, with others behind it.
  step_then :
      {A B : Type 0} (inbox : List ProcessData) (Q : B → Rr P → Type 0) (s : Rr P)
      (r : Run (Rr P) A) (f : A → Rr P → Run (Rr P) B)
      → IsOpen inbox s
      → Ends r (λ _ t. Has s (listed s) t)
      → ((a : A) (t : Rr P) → IsOpen inbox t → Ends (f a t) Q)
      → Ends (and_then r f) Q
  step_then inbox Q s r f h e next =
      Ends-and_then (λ _ t. IsOpen inbox t) Q r f (Ends-IsOpen inbox s r h e) next

  begun : (s : Rr P) → IsPlaced s → At s s.mem.curr (waits s) s
  begun s h = (IsPlaced-Has s h).0

  received_then :
      (q k now : ℤ) (left : Option (List ProcessData)) (s : Rr P)
      → IsOpenLeft left s
      → Ends
          ((elim left as (λ _. Cmd (Rr P) (Option (List ProcessData))) [
            | none ↦ pure none
            | some rest ↦ (do
              when (ltb_ℤ (pos 0) now) (rr_algo q)
              age_pages k
              grant_tick now
              pure (some rest))
          ])
            s)
          IsOpenLeft
  received_then q k now none s h = h
  received_then q k now (some rest) s h =
      step_then rest IsOpenLeft s (when (ltb_ℤ (pos 0) now) (rr_algo q) s) _ h
        (Ends-either (λ _ t. Has s (listed s) t) (ltb_ℤ (pos 0) now) _ _
          (rr_algo_on s (listed s) q s (IsPlaced-Has s h.0)) (IsPlaced-Has s h.0))
        (λ _ t i.
          step_then rest IsOpenLeft t (age_pages k t) _ i
            (Stays-placed t (age_pages k t) i.0
              (age-Stays t t.mem.curr (waits t) k t (begun t i.0)))
            (λ _ u j.
              step_then rest IsOpenLeft u (grant_tick now u) _ j
                (Stays-placed u (grant_tick now u) j.0
                  (grant-Stays u u.mem.curr (waits u) now u (begun u j.0)))
                (λ _ v l. l)))

  receive_processes-IsOpen :
      (inbox : List ProcessData) (s : Rr P)
      → IsOpen inbox s
      → Ends (receive_processes inbox s) IsOpenLeft
  unfolding receive_processes
  receive_processes-IsOpen inbox s h = receive_loop-IsOpen s.mem.clk inbox s h

  schedule-IsOpen :
      (q k now : ℤ) (inbox : List ProcessData) (s : Rr P)
      → IsOpen inbox s
      → Ends (schedule q k now inbox s) IsOpenLeft
  unfolding schedule
  schedule-IsOpen q k now inbox s h =
      let t = record s { context_switch_until = minus_one } in
      let i : IsOpen inbox t = Has-IsOpen inbox s t h (IsPlaced-Has s h.0) in
      Ends-and_then IsOpenLeft IsOpenLeft _ _
        (Ends-choice IsOpenLeft (t.receiving && ltb_ℤ t.last_received_sync now) _ _ t
          (receive_processes-IsOpen inbox t i) i)
        (λ left u j. received_then q k now left u j)

  -- What follows the scheduling of a tick.
  scheduled_then :
      (now : ℤ) (left : Option (List ProcessData)) (s : Rr P)
      → IsOpenLeft left s
      → Ends
          ((elim left as (λ _. Cmd (Rr P) (Option (List ProcessData))) [
            | none ↦ pure none
            | some rest ↦ (do
              s ← gets (λ s. s)
              when (not s.checked && eqb_ℤ s.mem.clk now) check_block_end
              pure (some rest))
          ])
            s)
          IsOpenLeft
  scheduled_then now none s h = h
  scheduled_then now (some rest) s h =
      step_then rest IsOpenLeft s (when (not s.checked && eqb_ℤ s.mem.clk now) check_block_end s) _
        h
        (Ends-either (λ _ t. Has s (listed s) t) (not s.checked && eqb_ℤ s.mem.clk now) _ _
          (check_block_end-Has s h.0) (IsPlaced-Has s h.0))
        (λ _ t i. i)

  -- A tick of the scheduler, for any request and any messages of new processes with ids of their own,
  -- that neither faults nor exits leaves each process once where it was once: on the CPU, in the
  -- ready queue or in the block queue.
  pub tick-IsOpen :
      (q k : ℤ) (received : Option Request) (inbox : List ProcessData) (s : Rr P)
      → IsOpen inbox s
      → Ends (tick q k received inbox s) IsOpenLeft
  unfolding tick
  tick-IsOpen q k received inbox s h =
      step_then inbox IsOpenLeft s (handle_requests received s) _ h
        (handle_requests_on s (listed s) received s (IsPlaced-Has s h.0))
        (λ _ t i.
          let u = record t { checked = false } in
          let j : IsOpen inbox u = Has-IsOpen inbox t u i (IsPlaced-Has t i.0) in
          Ends-and_then (λ _ v. IsOpen inbox v) IsOpenLeft _ _
            (Ends-either (λ _ v. IsOpen inbox v)
              (not (eqb_ℤ u.next_preemption_time s.mem.clk) || not (is_busy u.mem.curr)) _ _
              (Ends-IsOpen inbox u _ j (
                Ends-and_then (λ _ v. Has u (listed u) v) (λ _ v. Has u (listed u) v)
                  (check_block_end u) _ (check_block_end-Has u j.0) (λ _ v l. l)))
              j)
            (λ _ v l.
              Ends-and_then (λ _ x. IsOpen inbox x) IsOpenLeft (handle_finished_processes v) _
                (handle_finished-IsOpen v inbox l)
                (λ _ x m.
                  Ends-and_then IsOpenLeft IsOpenLeft _ _
                    (Ends-choice IsOpenLeft
                      (eqb_ℤ x.context_switch_until minus_one
                        || leb_ℤ x.context_switch_until s.mem.clk)
                      _ _ x (schedule-IsOpen q k s.mem.clk inbox x m) m)
                    (λ left y o. scheduled_then s.mem.clk left y o))))
