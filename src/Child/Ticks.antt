-- ===== src/Child/Ticks.antt =====
-- How many ticks a process of process/ takes.
use cpu_scheduler.Base.{
  ℕ, zero, suc, ◌-◌, ◌≡◌, refl, ◌∙◌, inl, inr, ap, Bool, true, false, some, arith, ℤ, pos, ltb_ℤ,
  ◌+ℤ◌, ◌-ℤ◌, ◌<ℤ◌, Option-cases, Bool-cases,
}
use cpu_scheduler.Types.{Request}
use cpu_scheduler.Child.{work, work_loop, Child, request_at, send_request, child_tick, child_loop}

-- A process that has work left goes on at a further tick.
abbrev pub goes_on : ℤ → Bool
goes_on remaining = ltb_ℤ (pos 0) remaining

work_lem :
    (n : ℕ) (shm : ℤ)
    → work (record { remaining = pos (suc n); shm = shm })
      ≡ record { remaining = pos n; shm = pos n }
unfolding work ◌-ℤ◌
work_lem n shm = ground arith

work_loop-on :
    (k n : ℕ) (shm : ℤ)
    → work_loop (suc k) (record { remaining = pos (suc n); shm = shm })
      ≡ work_loop k (record { remaining = pos n; shm = pos n })
unfolding work_loop
work_loop-on k n shm =
    let h : goes_on (pos (suc n)) ≡ true = ground arith in
    rw h (ap (λ w. work_loop k w) (work_lem n shm))

-- The process of process/process.c that begins with n ticks of work has n - k left after k grants,
-- which is none from the n-th grant on, when its loop has ended; the shared remaining time agrees.
pub work_loop_lem :
    (n k : ℕ)
    → let w = work_loop k (record { remaining = pos n; shm = pos n }) in
      (w.remaining ≡ pos (n - k)) × (w.shm ≡ pos (n - k))
unfolding work_loop work
work_loop_lem n zero = (ground arith, ground arith)
work_loop_lem zero (suc k) = (ground arith, ground arith)
work_loop_lem (suc n) (suc k) =
    let on = work_loop-on k n (pos (suc n)) in
    let e = work_loop_lem n k in
    let m : n - k ≡ suc n - suc k = omega arith in
    (
      ap (λ w. w.remaining) on ∙ e.0 ∙ ap (λ i. pos i) m,
      ap (λ w. w.shm) on ∙ e.1 ∙ ap (λ i. pos i) m,
    )

pub child_loop-on :
    (k : ℕ) (c : Child)
    → goes_on c.remaining ≡ true
    → child_loop (suc k) c ≡ child_loop k (child_tick c)
unfolding child_loop
child_loop-on k c e = rw e refl

pub child_loop-zero : (c : Child) → child_loop 0 c ≡ c
unfolding child_loop
child_loop-zero c = refl

child_loop-off : (k : ℕ) (c : Child) → goes_on c.remaining ≡ false → child_loop k c ≡ c
unfolding child_loop
child_loop-off zero c e = refl
child_loop-off (suc k) c e = rw e refl

child_tick-same : (c : Child) → ((child_tick c).reqs ≡ c.reqs) × ((child_tick c).id ≡ c.id)
unfolding child_tick send_request
child_tick-same c = elim (Option-cases (request_at c.reqs c.req_index)) [
  | inl e ↦ ground arith
  | inr (r, e) ↦ ground arith
]

pub child_loop-same :
    (k : ℕ) (c : Child) → ((child_loop k c).reqs ≡ c.reqs) × ((child_loop k c).id ≡ c.id)
child_loop-same zero c = let e = child_loop-zero c in (ap (λ x. x.reqs) e, ap (λ x. x.id) e)
child_loop-same (suc k) c = elim (Bool-cases (goes_on c.remaining)) [
  | inr e ↦ let off = child_loop-off (suc k) c e in (ap (λ x. x.reqs) off, ap (λ x. x.id) off)
  | inl e ↦
      let on = child_loop-on k c e in
      let h = child_loop-same k (child_tick c) in
      let t = child_tick-same c in (ap (λ x. x.reqs) on ∙ h.0 ∙ t.0, ap (λ x. x.id) on ∙ h.1 ∙ t.1)
]

-- The next request is of a tick that is over.
abbrev pub IsMissed : Child → Request → Type 0
IsMissed c r = (request_at c.reqs c.req_index ≡ some r) × (r.tick <ℤ c.running_time)

child_tick-IsMissed :
    (c : Child) (r : Request)
    → IsMissed c r
    → IsMissed (child_tick c) r × ((child_tick c).sent ≡ c.sent)
unfolding child_tick send_request ◌+ℤ◌
child_tick-IsMissed c r h = ground arith

-- When the tick of the next request is over, as for the second of two requests of one tick, nothing
-- is sent any more, however many ticks are granted: that request keeps back all behind it.
pub child_loop_stuck :
    (k : ℕ) (c : Child) (r : Request) → IsMissed c r → (child_loop k c).sent ≡ c.sent
child_loop_stuck zero c r h = ap (λ x. x.sent) (child_loop-zero c)
child_loop_stuck (suc k) c r h = elim (Bool-cases (goes_on c.remaining)) [
  | inr e ↦ ap (λ x. x.sent) (child_loop-off (suc k) c e)
  | inl e ↦
      let m = child_tick-IsMissed c r h in
      ap (λ x. x.sent) (child_loop-on k c e) ∙ child_loop_stuck k (child_tick c) r m.0 ∙ m.1
]
