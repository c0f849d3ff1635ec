-- ===== src/Scheduler/Stealing/Conservation.antt =====
-- The work stealing of `check_threshold` in scheduler/scheduler_functions.c, seen from the load
-- segment.
use cpu_scheduler.Base.{
  ◌≡◌, refl, ap, ◌∙◌, inl, inr, ◌⊎◌, Bool, true, false, Option, none, some, arith, ℤ, pos, int_laws,
  pos_part, neg_part, ◌+ℤ◌, +ℤ_parts, ◌-ℤ◌, ◌≤ℤ◌, ◌<ℤ◌, ltb_ℤ, eqb_ℤ, ltb_ℤ→lt, ltb_ℤ→ge, lt→ltb_ℤ,
  ge→ltb_ℤ, abs, Bool-cases, if◌then◌else◌,
}
use cpu_scheduler.Types.{ProcessData}
use cpu_scheduler.Platform.{Platform}
use cpu_scheduler.Scheduler.State.{Sched, Load, wait_n_secs}
use cpu_scheduler.Scheduler.Stealing.{
  imbalance, move_load, move_process, check_threshold, at_least_zero, less_one,
}

-- The CPU with the longer total, as `check_threshold` picks it: CPU 1 if true.
abbrev pub busier_first : Load → Bool
busier_first l = ltb_ℤ l.total2 l.total1

abbrev pub busier_total : Load → ℤ
busier_total l = if busier_first l then l.total1 else l.total2

abbrev pub busier_count : Load → ℤ
busier_count l = if busier_first l then l.count1 else l.count2

abs-nonneg : (a : ℤ) → pos 0 ≤ℤ a → abs a ≡ a
unfolding abs
abs-nonneg a h = ground arith

abs-neg : (a : ℤ) → a ≤ℤ pos 0 → abs a ≡ pos 0 -ℤ a
unfolding abs ◌-ℤ◌
abs-neg a h = ground arith

at_least_zero_lem : (a : ℤ) → pos 0 ≤ℤ a → at_least_zero a ≡ a
at_least_zero_lem a h = ground arith

less_one_lem : (a : ℤ) → pos 1 ≤ℤ a → less_one a ≡ a -ℤ pos 1
less_one_lem a h = ground arith

-- What a move of `r` ticks between the CPUs does to the load segment.
abbrev pub Moves : ℤ → Load → Load → Type 0
Moves r l l' =
    (l'.total1 +ℤ l'.total2 ≡ l.total1 +ℤ l.total2)
    × (l'.count1 +ℤ l'.count2 ≡ l.count1 +ℤ l.count2)
    × (imbalance l' ≡ abs (imbalance l -ℤ (r +ℤ r)))

imbalance-first : (l : Load) → busier_first l ≡ true → imbalance l ≡ l.total1 -ℤ l.total2
unfolding imbalance
imbalance-first l e =
    abs-nonneg (l.total1 -ℤ l.total2) (omega (int_laws, ltb_ℤ→lt l.total2 l.total1 e))

imbalance-second : (l : Load) → busier_first l ≡ false → imbalance l ≡ l.total2 -ℤ l.total1
unfolding imbalance
imbalance-second l e =
    abs-neg (l.total1 -ℤ l.total2) (omega (int_laws, ltb_ℤ→ge l.total2 l.total1 e)) ∙ omega int_laws

abs-flip : (a b : ℤ) → a +ℤ b ≡ pos 0 → abs a ≡ abs b
unfolding abs ◌+ℤ◌
abs-flip a b h = ground (arith, +ℤ_parts a b, ap pos_part h, ap neg_part h)

move_first :
    (l : Load) (r : ℤ)
    → busier_first l ≡ true
    → r ≤ℤ l.total1
    → pos 1 ≤ℤ l.count1
    → Moves r l (move_load true r l)
unfolding move_load imbalance
move_first l r e k c =
    rw (at_least_zero_lem (l.total1 -ℤ r) (omega int_laws), less_one_lem l.count1 c)
      (omega int_laws, omega int_laws, rw (imbalance-first l e) (ap abs (omega int_laws)))

move_second :
    (l : Load) (r : ℤ)
    → busier_first l ≡ false
    → r ≤ℤ l.total2
    → pos 1 ≤ℤ l.count2
    → Moves r l (move_load false r l)
unfolding move_load imbalance
move_second l r e k c =
    rw (at_least_zero_lem (l.total2 -ℤ r) (omega int_laws), less_one_lem l.count2 c)
      (omega int_laws, omega int_laws, rw (imbalance-second l e) (abs-flip _ _ (omega int_laws)))

chosen : (a b c : ℤ) {t : Bool} → t ≡ true → a ≤ℤ (if t then b else c) → a ≤ℤ b
chosen a b c e h = ground arith

left : (a b c : ℤ) {t : Bool} → t ≡ false → a ≤ℤ (if t then b else c) → a ≤ℤ c
left a b c e h = ground arith

-- What a steal needs: the imbalance is over the threshold, the busier CPU has a process, and the one
-- it gives up has no more time left than the total of that CPU.
abbrev pub CanSteal : ℤ → ProcessData → Load → Type 0
CanSteal m d l =
    (m <ℤ imbalance l)
    × (eqb_ℤ d.mtype (pos 12) ≡ false)
    × (pos 1 ≤ℤ busier_count l)
    × (d.runtime ≤ℤ busier_total l)

abbrev pub Refused : ℤ → Option ProcessData → Load → Type 0
Refused m none l = Unit
Refused m (some d) l = (imbalance l ≤ℤ m) ⊎ (eqb_ℤ d.mtype (pos 12) ≡ true)

module _ {P : Platform} where
  move_process-load :
      (first : Bool) (d : ProcessData) (n : ℤ) (s : Sched P)
      → (move_process first d n s).load ≡ move_load first d.runtime s.load
  unfolding move_process wait_n_secs
  move_process-load first d n s = refl

  check_threshold-some :
      (m n : ℤ) (d : ProcessData) (s : Sched P) (first : Bool)
      → CanSteal m d s.load
      → busier_first s.load ≡ first
      → (check_threshold m n (some d) s).load ≡ move_load first d.runtime s.load
  unfolding check_threshold
  check_threshold-some m n d s first (o, t, c, r) e =
      rw (lt→ltb_ℤ m (imbalance s.load) o, t, e) refl

  -- When the imbalance is over the threshold, the busier CPU gives up a process (the reply is not
  -- of type 12), has at least one process counted, and its total is no less than the r ticks of
  -- that process, the steal loses no process and no time: the sums of the two totals and of the
  -- two counts stay, and an imbalance of i becomes |i - 2r|.
  pub check_threshold-Moves :
      (m n : ℤ) (d : ProcessData) (s : Sched P)
      → CanSteal m d s.load
      → Moves d.runtime s.load (check_threshold m n (some d) s).load
  check_threshold-Moves m n d s (o, t, c, r) = elim (Bool-cases (busier_first s.load)) [
    | inl e ↦ rw (check_threshold-some m n d s true (o, t, c, r) e) (
        move_first s.load d.runtime e (chosen d.runtime s.load.total1 s.load.total2 e r)
          (chosen (pos 1) s.load.count1 s.load.count2 e c))
    | inr e ↦ rw (check_threshold-some m n d s false (o, t, c, r) e) (
        move_second s.load d.runtime e (left d.runtime s.load.total1 s.load.total2 e r)
          (left (pos 1) s.load.count1 s.load.count2 e c))
  ]

  -- Without a steal (the imbalance is within the threshold, no message comes back, or the other CPU
  -- refuses) the load segment, the messages sent and the clock stay as they are, and the scheduler
  -- counts as stalled exactly if the imbalance is over the threshold.
  pub check_threshold-idle :
      (m n : ℤ) (reply : Option ProcessData) (s : Sched P)
      → Refused m reply s.load
      → let s' = check_threshold m n reply s in
        (s'.load ≡ s.load)
        × (s'.sub1 ≡ s.sub1)
        × (s'.sub2 ≡ s.sub2)
        × (s'.clk ≡ s.clk)
        × (s'.stalled ≡ ltb_ℤ m (imbalance s.load))
  unfolding check_threshold
  check_threshold-idle m n none s k = elim (Bool-cases (ltb_ℤ m (imbalance s.load))) [
    | inl e ↦ rw e (refl, refl, refl, refl, refl)
    | inr e ↦ rw e (refl, refl, refl, refl, refl)
  ]
  check_threshold-idle m n (some d) s (inl k) =
      rw (ge→ltb_ℤ m (imbalance s.load) k) (refl, refl, refl, refl, refl)
  check_threshold-idle m n (some d) s (inr k) = elim (Bool-cases (ltb_ℤ m (imbalance s.load))) [
    | inl e ↦ rw (e, k) (refl, refl, refl, refl, refl)
    | inr e ↦ rw e (refl, refl, refl, refl, refl)
  ]
