-- ===== src/Scheduler/Stealing.antt =====
-- `check_threshold` and the rest of `FCFS_algo` in scheduler/scheduler_functions.c.
pub mod Conservation
use cpu_scheduler.Base.{
  Bool, true, false, ◌||◌, Option, none, some, List, [], ◌∷◌, ◌++◌, ℤ, pos, leb_ℤ, ltb_ℤ, eqb_ℤ,
  ◌+ℤ◌, ◌-ℤ◌, abs, rem, if◌then◌else◌,
}
use cpu_scheduler.Types.{ProcessData}
use cpu_scheduler.Platform.{Platform}
use cpu_scheduler.Scheduler.State.{Sched, Load, emit, wait_n_secs, sent_cpu, sigurg, sigusr2}
use cpu_scheduler.Scheduler.Routing.{as_message, route_ready}

-- `abs(rt1 - rt2)`
unfoldable pub imbalance : Load → ℤ
unfolding abs
imbalance l = abs (l.total1 -ℤ l.total2)

abbrev pub at_least_zero : ℤ → ℤ
at_least_zero a = if ltb_ℤ a (pos 0) then pos 0 else a

abbrev pub less_one : ℤ → ℤ
less_one n = if ltb_ℤ (pos 0) n then n -ℤ pos 1 else n

-- The load behind the move of a process with this run time, from CPU 1 if `first`.
unfoldable pub move_load : (first : Bool) → ℤ → Load → Load
move_load true moved l = record {
  count1 = less_one l.count1;
  total1 = at_least_zero (l.total1 -ℤ moved);
  count2 = l.count2 +ℤ pos 1;
  total2 = l.total2 +ℤ moved;
}
move_load false moved l = record {
  count1 = l.count1 +ℤ pos 1;
  total1 = l.total1 +ℤ moved;
  count2 = less_one l.count2;
  total2 = at_least_zero (l.total2 -ℤ moved);
}

module _ {P : Platform} where
  -- The stolen process goes to the other CPU, and both CPUs stall for three ticks.
  unfoldable pub move_process : (first : Bool) → ProcessData → ℤ → Sched P → Sched P
  unfolding as_message move_load wait_n_secs
  move_process first d n s =
      let stolen = as_message d (pos 1) in
      let s1 = record s {
        sub1 = if first then s.sub1 else s.sub1 ++ stolen ∷ [];
        sub2 = if first then s.sub2 ++ stolen ∷ [] else s.sub2;
        load = move_load first d.runtime s.load;
      } in
      wait_n_secs (pos 3) n (emit (sent_cpu false sigusr2) (emit (sent_cpu true sigusr2) s1))

  -- `reply` is what `msgrcv` delivers from the response queue, none if it fails.
  unfoldable pub check_threshold : (m n : ℤ) → Option ProcessData → Sched P → Sched P
  unfolding imbalance move_process
  check_threshold m n reply s =
      if ltb_ℤ m (imbalance s.load)
      then (let first = ltb_ℤ s.load.total2 s.load.total1 in
          let s1 = emit (sent_cpu first sigurg) (record s { stalled = true }) in
          elim reply [
            | none ↦ s1
            | some d ↦ if eqb_ℤ d.mtype (pos 12) then s1 else move_process first d n s1
          ])
      else record s { stalled = false }

  -- `getClk() % N` divides by zero for N = 0, which ends the program.
  unfoldable pub fcfs_algo : (n m : ℤ) → Option ProcessData → Sched P → Option (Sched P)
  unfolding route_ready check_threshold
  fcfs_algo n m reply s =
      let s1 = route_ready s in
      if s1.sub_cpu_created
      then (if eqb_ℤ n (pos 0)
          then none
          else (let due = eqb_ℤ (rem s1.clk n) (pos 0) || s1.stalled in
              let s2 = record s1 { n_time = if due then pos 0 else s1.n_time +ℤ pos 1 } in
              let s3 = if due then check_threshold m n reply s2 else s2 in
              some (record s3 { permits = 2 })))
      else some s1
