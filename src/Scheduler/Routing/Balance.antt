-- ===== src/Scheduler/Routing/Balance.antt =====
-- The distribution of `FCFS_algo` in scheduler/scheduler_functions.c over the two CPUs.
use mathlib.Core.List.{Perm, perm_middle, perm_append_singleton, append_assoc}
use mathlib.Core.List.Perm
use cpu_scheduler.Base.{
  ℕ, ◌≤◌, ◌≡◌, ap, ◌∙◌, inl, inr, true, false, List, [], ◌∷◌, ◌++◌, map, ℤ, pos, int_laws, pos_part,
  neg_part, ◌+ℤ◌, ◌≤ℤ◌, ◌<ℤ◌, leb_ℤ→le, leb_ℤ→gt, length, Bool-cases,
}
use cpu_scheduler.Types.{Pcb, ProcessData}
use cpu_scheduler.Scheduler.State.{Load}
use cpu_scheduler.Scheduler.Routing.{
  pcb_to_process_data, as_message, selects_first, Routes, route, route_all,
}

-- The ready counts of the two CPUs differ by `b` at most.
abbrev pub Within : ℕ → Load → Type 0
Within b l = (l.count1 ≤ℤ l.count2 +ℤ pos b) × (l.count2 ≤ℤ l.count1 +ℤ pos b)

abbrev pub ready_total : Load → ℤ
ready_total l = l.count1 +ℤ l.count2

abbrev pub time_total : Load → ℤ
time_total l = l.total1 +ℤ l.total2

abbrev pub sum_runtime : List Pcb → ℤ
sum_runtime [] = pos 0
sum_runtime (c ∷ rest) = c.runtime +ℤ sum_runtime rest

selects-le : (l : Load) → selects_first l ≡ true → l.count1 ≤ℤ l.count2
unfolding selects_first
selects-le l e = leb_ℤ→le l.count1 l.count2 e

selects-gt : (l : Load) → selects_first l ≡ false → l.count2 <ℤ l.count1
unfolding selects_first
selects-gt l e = leb_ℤ→gt l.count1 l.count2 e

-- What a process is sent as.
abbrev pub message : Pcb → ProcessData
message c = as_message (pcb_to_process_data c) (pos 1)

-- The two outcomes of the body of the loop.
route-first :
    (c : Pcb) (w : Routes)
    → selects_first w.load ≡ true
    → route c w ≡ record {
      load = record (w.load) {
        count1 = w.load.count1 +ℤ pos 1;
        total1 = w.load.total1 +ℤ c.runtime;
      };
      sub1 = w.sub1 ++ message c ∷ [];
      sub2 = w.sub2;
    }
unfolding route as_message pcb_to_process_data
route-first c w e = rw e

route-second :
    (c : Pcb) (w : Routes)
    → selects_first w.load ≡ false
    → route c w ≡ record {
      load = record (w.load) {
        count2 = w.load.count2 +ℤ pos 1;
        total2 = w.load.total2 +ℤ c.runtime;
      };
      sub1 = w.sub1;
      sub2 = w.sub2 ++ message c ∷ [];
    }
unfolding route as_message pcb_to_process_data
route-second c w e = rw e

route-Within : (b : ℕ) (c : Pcb) (w : Routes) → 1 ≤ b → Within b w.load → Within b (route c w).load
route-Within b c w h k = elim (Bool-cases (selects_first w.load)) [
  | inl e ↦ rw (route-first c w e) (omega (int_laws, selects-le w.load e))
  | inr e ↦ rw (route-second c w e) (omega (int_laws, selects-gt w.load e))
]

route-totals :
    (c : Pcb) (w : Routes)
    → (ready_total (route c w).load ≡ ready_total w.load +ℤ pos 1)
      × (time_total (route c w).load ≡ time_total w.load +ℤ c.runtime)
route-totals c w = elim (Bool-cases (selects_first w.load)) [
  | inl e ↦ rw (route-first c w e) (omega int_laws)
  | inr e ↦ rw (route-second c w e) (omega int_laws)
]

route_perm :
    {all now was : List ProcessData} (rest : List ProcessData) (m : ProcessData)
    → Perm all (rest ++ now)
    → Perm now (m ∷ was)
    → Perm all (m ∷ (rest ++ was))
route_perm rest m p q = Perm.trans p (Perm.trans (Perm.append_left rest q) (perm_middle rest _))

route-messages :
    (c : Pcb) (w : Routes)
    → Perm ((route c w).sub1 ++ (route c w).sub2) (message c ∷ (w.sub1 ++ w.sub2))
route-messages c w = elim (Bool-cases (selects_first w.load)) [
  | inl e ↦
      rw (route-first c w e)
        (rw (append_assoc w.sub1 (message c ∷ []) w.sub2) (perm_middle w.sub1 w.sub2))
  | inr e ↦ rw (route-second c w e) (
      rw (← append_assoc w.sub1 w.sub2 (message c ∷ []))
        (perm_append_singleton (message c) (w.sub1 ++ w.sub2)))
]

-- Distributing the ready queue sends every process to exactly one CPU and adds its run time and
-- itself to the totals; ready counts of the two CPUs that differ by at most b, for b from 1 on,
-- differ by at most b afterwards.
pub route_all-Within :
    (b : ℕ) (cs : List Pcb) (w : Routes)
    → 1 ≤ b
    → Within b w.load
    → Within b (route_all cs w).load
      × (ready_total (route_all cs w).load ≡ ready_total w.load +ℤ pos (length cs))
      × (time_total (route_all cs w).load ≡ time_total w.load +ℤ sum_runtime cs)
      × Perm ((route_all cs w).sub1 ++ (route_all cs w).sub2) (map message cs ++ (w.sub1 ++ w.sub2))
unfolding route_all
route_all-Within b [] w h k = (k, omega int_laws, omega int_laws, Perm.refl _)
route_all-Within b (c ∷ cs) w h k =
    let (i, n, t, p) = route_all-Within b cs (route c w) h (route-Within b c w h k) in
    let (n', t') = route-totals c w in
    (
      i,
      n ∙ omega (int_laws, ap pos_part n', ap neg_part n'),
      t ∙ omega (int_laws, ap pos_part t', ap neg_part t'),
      route_perm (map message cs) (message c) p (route-messages c w),
    )
