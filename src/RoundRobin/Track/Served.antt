-- ===== src/RoundRobin/Track/Served.antt =====
-- A page fault takes a process to the block queue and loses none.
use mathlib.Core.Path.{subst}
use cpu_scheduler.Base.{
  ℕ, ◌+◌, ◌≡◌, refl, ap, sym, ◌∙◌, inl, inr, Bool, true, false, Option, none, some, ℤ, arith,
  Bool-cases, Option-cases,
}
use cpu_scheduler.Types.{PcbPtr, Request}
use cpu_scheduler.Queue.{unlink_id}
use cpu_scheduler.Run.{Cmd, done}
use cpu_scheduler.Run.Ends.{Ends, Ends-and_then}
use cpu_scheduler.Platform.{Platform}
use cpu_scheduler.RoundRobin.State.{Rr, all_live, pcb_at, load_pcb}
use cpu_scheduler.RoundRobin.Requests.{
  is_same, block_current, leave_current, take_ready, move_blocked, serve_fault,
}
use cpu_scheduler.RoundRobin.Track.{
  At, Stays, waits, one, count_curr, stay_rules, load_on, fault_on, log_data_on,
}
use cpu_scheduler.RoundRobin.Track.Blocked.{
  stay_then, enqueue_block, stay_counts, Taken, unlink_id-count,
}
use cpu_scheduler.RoundRobin.Track.Dispatched.{Has, Stays-Has}

module _ {P : Platform} (s : Rr P) where
  module _ (c : Option PcbPtr) (w : PcbPtr → ℕ) where
    block_current_on :
        (p : PcbPtr) (n : Rr P) → At s c w n → Stays s c (λ q. one p q + w q) (block_current p n)
    unfolding block_current
    block_current_on p n h =
        search (stay_then s c w, stay_rules, log_data_on, enqueue_block) depth 14

    no_curr :
        (n : Rr P) (f : Rr P → Rr P)
        → At s c w n
        → At s none w (record n { mem = record (n.mem) { curr = none } })
    no_curr n f h = record {
      all_same = h.all_same;
      next_same = h.next_same;
      curr_is = refl;
      ids_same = h.ids_same;
      waits_are = h.waits_are;
    }

    take_ready_on : (id : ℤ) (n : Rr P) → At s c w n → Ends (take_ready id n) (Taken s c w)
    unfolding take_ready
    take_ready_on id n h = elim (Bool-cases (all_live n.mem n.ready.items)) [
      | inr e ↦ rw (e, Ends) tt
      | inl e ↦ elim (Option-cases (unlink_id (pcb_at n.mem) id n.ready.items)) [
        | inl f ↦ rw (e, f, Ends) h
        | inr ((p, ys), f) ↦
            rw (e, f, Ends)
              (
                record {
                  all_same = h.all_same;
                  next_same = h.next_same;
                  curr_is = h.curr_is;
                  ids_same = h.ids_same;
                  waits_are = λ q. refl;
                },
                λ q. omega (
                  arith,
                  h.waits_are q,
                  unlink_id-count (pcb_at n.mem) id n.ready.items p ys f q,
                ),
              )
      ]
    ]

    leave_current_on : (p : PcbPtr) (n : Rr P) → At s c w n → Stays s none w (leave_current p n)
    unfolding leave_current
    leave_current_on p n h = search (stay_then s c w, stay_rules, no_curr) depth 10

  serve_current :
      (w : PcbPtr → ℕ) (p : PcbPtr) (page : ℤ) (r : Request) (n : Rr P)
      → At s (some p) w n
      → Stays s none (λ q. one p q + w q) (serve_fault p page r true n)
  unfolding serve_fault
  serve_current w p page r n h =
      search
        (
          stay_then s (some p) w,
          stay_then s (some p) (λ q. one p q + w q),
          load_on,
          fault_on,
          block_current_on,
          leave_current_on,
        )
        depth 9

  module _ (c : Option PcbPtr) (w : PcbPtr → ℕ) where
    move_on :
        (p : PcbPtr) (page : ℤ) (r : Request) (n : Rr P)
        → At s c w n
        → Stays s c (λ q. one p q + w q) (move_blocked p page r n)
    unfolding move_blocked
    move_on p page r n h =
        search (stay_then s c w, stay_then s c (λ q. one p q + w q), stay_rules, enqueue_block)
          depth 9

  moved_on :
      (c : Option PcbPtr) (w : PcbPtr → ℕ) (o : Option PcbPtr) (page : ℤ) (r : Request) (n : Rr P)
      → Taken s c w o n
      → Stays s c w (
          (elim o as (λ _. Cmd (Rr P) (Unit {0})) [ none ↦ done | some p ↦ move_blocked p page r ])
            n)
  moved_on c w none page r n h = h
  moved_on c w (some p) page r n (h, e) =
      stay_counts s c (λ q. one p q + waits n q) w (move_blocked p page r n) e
        (move_on c (waits n) p page r n h)

  serve_other :
      (c : Option PcbPtr) (w : PcbPtr → ℕ) (p : PcbPtr) (page : ℤ) (r : Request) (n : Rr P)
      → At s c w n
      → Stays s c w (serve_fault p page r false n)
  unfolding serve_fault
  serve_other c w p page r n h = stay_then s c w _ (load_pcb p n) _ (load_on s c w p n h) (λ d m k.
      Ends-and_then (Taken s c w) (λ _ t. At s c w t) (take_ready d.id m) _
        (take_ready_on c w d.id m k) (λ o t a. moved_on c w o page r t a))

  pub is_same→some : (c : Option PcbPtr) (p : PcbPtr) → is_same c p ≡ true → c ≡ some p
  is_same→some none p h = cc
  is_same→some (some q) p h = ground arith

  pub serve_on :
      (c : Option PcbPtr) (w v : PcbPtr → ℕ) (b : Bool) (p : PcbPtr) (page : ℤ) (r : Request)
      (n : Rr P)
      → (b ≡ true → c ≡ some p)
      → ((q : PcbPtr) → count_curr q c + w q ≡ v q)
      → At s c w n
      → Ends (serve_fault p page r b n) (λ _ t. Has s v t)
  serve_on c w v false p page r n owned same h =
      Stays-Has s c w v (serve_fault p page r false n) same (serve_other c w p page r n h)
  serve_on c w v true p page r n owned same h =
      Stays-Has s none (λ q. one p q + w q) v (serve_fault p page r true n)
        (λ q.
          let e : one p q + w q ≡ v q =
            ap (λ o. count_curr q o + w q) (sym (owned refl)) ∙ same q in
          omega (arith, e))
        (serve_current w p page r n (subst (λ o. At s o w n) (owned refl) h))
