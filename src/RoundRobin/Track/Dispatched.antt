-- ===== src/RoundRobin/Track/Dispatched.antt =====
-- `RR_algo` moves processes between the CPU and the ready queue and loses none.
use cpu_scheduler.Base.{
  ℕ, ◌+◌, ◌-◌, ◌≡◌, refl, ap, ◌∙◌, Bool, true, ◌&&◌, not, Option, none, some, List, [], ◌∷◌, ℤ,
  eqb_ℤ, leb_ℤ, ◌+ℤ◌, arith, if◌then◌else◌,
}
use cpu_scheduler.Types.{PcbPtr}
use cpu_scheduler.Queue.{dequeue, peek, is_empty}
use cpu_scheduler.Run.{Run, ok, fault, exits, ◌>>=◌, ◌>>◌, gets, modify, when}
use cpu_scheduler.Run.Ends.{Ends, Ends-and_then, Ends-weaken, Ends-choice, Ends-either}
use cpu_scheduler.Platform.{Platform}
use cpu_scheduler.RoundRobin.State.{Rr, load_pcb, get_clk, set_curr, count_quantum}
use cpu_scheduler.RoundRobin.Dispatch.{
  initialize_pcb, start_child, resume_child, run_process, dispatch_next, none_waits,
  requeue_current, preempt, rr_algo,
}
use cpu_scheduler.RoundRobin.Track.{At, Stays, waits, one, count_curr, stay_rules, log_data_on}
use cpu_scheduler.RoundRobin.Track.Blocked.{stay_then, enqueue_ready, check_block_end_on}

module _ {P : Platform} (s : Rr P) where
  -- Nothing is lost: each pointer is held, by the CPU or in a queue, as often as `v` says.
  abbrev pub Has : (PcbPtr → ℕ) → Rr P → Type 0
  Has v t = At s t.mem.curr (waits t) t × ((q : PcbPtr) → count_curr q t.mem.curr + waits t q ≡ v q)

  pub At-Has :
      (c : Option PcbPtr) (w v : PcbPtr → ℕ) (n : Rr P)
      → ((q : PcbPtr) → count_curr q c + w q ≡ v q)
      → At s c w n
      → Has v n
  At-Has c w v n same h = (
    record {
      all_same = h.all_same;
      next_same = h.next_same;
      curr_is = refl;
      ids_same = h.ids_same;
      waits_are = λ q. refl;
    },
    λ q.
        ap (λ k. k + waits n q) (ap (count_curr q) h.curr_is)
        ∙ ap (λ k. count_curr q c + k) (h.waits_are q)
        ∙ same q,
  )

  pub Stays-Has :
      {A : Type 0} (c : Option PcbPtr) (w v : PcbPtr → ℕ) (r : Run (Rr P) A)
      → ((q : PcbPtr) → count_curr q c + w q ≡ v q)
      → Stays s c w r
      → Ends r (λ _ t. Has v t)
  Stays-Has c w v (ok a n) same h = At-Has c w v n same h
  Stays-Has c w v fault same h = tt
  Stays-Has c w v exits same h = tt

  module _ (c : Option PcbPtr) (w : PcbPtr → ℕ) where
    initialize_on : (p : PcbPtr) (n : Rr P) → At s c w n → Stays s c w (initialize_pcb p n)
    unfolding initialize_pcb
    initialize_on p n h = search stay_rules depth 8

    start_on : (p : PcbPtr) (n : Rr P) → At s c w n → Stays s c w (start_child p n)
    unfolding start_child
    start_on p n h = search (stay_rules, log_data_on, initialize_on) depth 10

    resume_on : (p : PcbPtr) (n : Rr P) → At s c w n → Stays s c w (resume_child p n)
    unfolding resume_child
    resume_on p n h = search (stay_rules, log_data_on) depth 10

    run_process_on : (p : PcbPtr) (n : Rr P) → At s c w n → Stays s c w (run_process p n)
    unfolding run_process
    run_process_on p n h = search (stay_rules, start_on, resume_on) depth 12

    front_on :
        (o : Option PcbPtr) (n : Rr P)
        → At s c w n
        → Stays s c w (elim o as (λ _. Run (Rr P) Bool) [
          | none ↦ ok true n
          | some p ↦ (do d ← load_pcb p; now ← get_clk; gets (λ _. eqb_ℤ d.arrival now)) n
        ])
    front_on none n h = h
    front_on (some p) n h = search stay_rules

    none_waits_on : (n : Rr P) → At s c w n → Stays s c w (none_waits n)
    unfolding none_waits
    none_waits_on n h = front_on (peek n.ready) n h

  dispatch_on :
      (c : Option PcbPtr) (w : PcbPtr → ℕ) (items : List PcbPtr) (n : Rr P)
      → At s c w (record n { ready = record { items = items; size = n.ready.size } })
      → Ends
          (elim (dequeue (record { items = items; size = n.ready.size }))
            as (λ _. Run (Rr P) (Unit {0})) [
              | none ↦ exits
              | some (p, rest) ↦
                  (do modify (λ t. record t { ready = rest }); set_curr (some p); run_process p) n
            ])
          (λ _ t. Has w t)
  unfolding dequeue
  dispatch_on c w [] n h = tt
  dispatch_on c w (p ∷ rest) n h =
      let k = record n {
        ready = record { items = rest; size = n.ready.size - 1 };
        mem = record (n.mem) { curr = some p };
      } in
      Stays-Has (some p) (waits k) w (run_process p k) (λ q. omega (arith, h.waits_are q))
        (run_process_on (some p) (waits k) p k (record {
          all_same = h.all_same;
          next_same = h.next_same;
          curr_is = refl;
          ids_same = h.ids_same;
          waits_are = λ q. refl;
        }))

  pub dispatch_next_on :
      (c : Option PcbPtr) (w : PcbPtr → ℕ) (n : Rr P)
      → At s c w n
      → Ends (dispatch_next n) (λ _ t. Has w t)
  unfolding dispatch_next dequeue
  dispatch_next_on c w n h = dispatch_on c w n.ready.items n h

  requeue_on :
      (w : PcbPtr → ℕ) (p : PcbPtr) (n : Rr P)
      → At s (some p) w n
      → Stays s (some p) (λ x. one p x + w x) (requeue_current p n)
  unfolding requeue_current
  requeue_on w p n h =
      search (stay_then s (some p) w, stay_rules, log_data_on, enqueue_ready) depth 16

  preempt_on :
      (w : PcbPtr → ℕ) (q : ℤ) (p : PcbPtr) (n : Rr P)
      → At s (some p) w n
      → Ends (preempt q p n) (λ _ t. Has (λ x. one p x + w x) t)
  unfolding preempt
  preempt_on w q p n h =
      stay_then s (some p) (λ x. one p x + w x) _ (requeue_current p n) _ (requeue_on w p n h)
        (λ _ a k.
          search
            (
              stay_then s (some p) (λ x. one p x + w x),
              stay_rules,
              check_block_end_on,
              dispatch_next_on,
            )
            depth 12)

  -- What `RR_algo` does with a current process, and without one.
  rr_case :
      (v : PcbPtr → ℕ) (q : ℤ) (o : Option PcbPtr) (n : Rr P)
      → At s o (waits n) n
      → ((x : PcbPtr) → count_curr x o + waits n x ≡ v x)
      → Ends
          (elim o as (λ _. Run (Rr P) (Unit {0})) [
            | some p ↦
                (do
                  alone ← none_waits
                  let expired = leb_ℤ n.next_preemption_time n.mem.clk
                  if alone && expired
                      then (do
                        modify (λ s. record s { next_preemption_time = s.mem.clk +ℤ q })
                        count_quantum)
                      else when expired (preempt q p))
                  n
            | none ↦
                when
                  (not (is_empty n.ready))
                  (do
                    dispatch_next
                    modify (λ s. record s { next_preemption_time = s.mem.clk +ℤ q }))
                  n
          ])
          (λ _ t. Has v t)
  rr_case v q (some p) n h e =
      Ends-and_then (λ _ t. At s (some p) (waits n) t) (λ _ t. Has v t) (none_waits n) _
        (none_waits_on (some p) (waits n) n h)
        (λ alone t k.
          Ends-choice (λ _ u. Has v u) (alone && leb_ℤ n.next_preemption_time n.mem.clk) _ _ t
            (At-Has (some p) (waits n) v t e k)
            (Ends-either (λ _ u. Has v u) (leb_ℤ n.next_preemption_time n.mem.clk) _ _
              (Ends-weaken (λ _ u. Has (λ x. one p x + waits n x) u) (λ _ u. Has v u)
                (preempt q p t) (preempt_on (waits n) q p t k) (λ _ u m. (m.0, λ x. m.1 x ∙ e x)))
              (At-Has (some p) (waits n) v t e k)))
  rr_case v q none n h e =
      Ends-either (λ _ u. Has v u) (not (is_empty n.ready)) _ _
        (Ends-and_then (λ _ u. Has (waits n) u) (λ _ u. Has v u) (dispatch_next n) _
          (dispatch_next_on none (waits n) n h) (λ _ u m. (m.0, λ x. omega (arith, m.1 x, e x))))
        (At-Has none (waits n) v n e h)

  -- `RR_algo` leaves each process once where it was once.
  pub rr_algo_on :
      (v : PcbPtr → ℕ) (q : ℤ) (n : Rr P) → Has v n → Ends (rr_algo q n) (λ _ t. Has v t)
  unfolding rr_algo
  rr_algo_on v q n h = rr_case v q n.mem.curr n h.0 h.1
