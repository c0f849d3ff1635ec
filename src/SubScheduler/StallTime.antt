-- ===== src/SubScheduler/StallTime.antt =====
-- How long a stall of sub-sched/sub_scheduler.c lasts, and what the loop does in the meantime.
use mathlib.Core.Path.{subst}
use cpu_scheduler.Base.{
  ◌≡◌, refl, sym, ap, inl, inr, true, false, not, some, List, [], ◌∷◌, ◌++◌, arith, ℤ, pos,
  minus_one, ◌∙◌, ◌-◌, leb_ℤ, eqb_ℤ, ◌+ℤ◌, ◌-ℤ◌, ◌≤ℤ◌, ◌<ℤ◌, Bool-cases, if◌then◌else◌,
}
use cpu_scheduler.Types.{Pcb, ProcessData, stop, resume, waiting, running}
use cpu_scheduler.Platform.{Platform}
use cpu_scheduler.Scheduler.State.{log_time, sigstop, sigcont}
use cpu_scheduler.SubScheduler.State.{Sub, Action, logged, sent, log_data, update_load_shm}
use cpu_scheduler.SubScheduler.Receiving.{take_in, admit, drain-keeps, receive}
use cpu_scheduler.SubScheduler.Stall.{
  stop_current, hold_current, stall_sig, resume_current, end_stall,
}
use cpu_scheduler.SubScheduler.Loop.{
  Round, exited, crashed, held, went, may_dispatch, dispatch, grant, publish, finish_round,
  after_gate, gate, new_tick, at_tick, round,
}

-- The process that a stall from one time to another gives back.
abbrev pub stalled_for : (from to rt : ℤ) → Pcb → Pcb
stalled_for from to rt c = record c {
  last_stopped = from;
  remaining_time = rt;
  waiting_time = c.waiting_time +ℤ (to -ℤ from);
  state = running;
  l_state = resume;
}

-- The same process while the stall lasts.
abbrev pub stopped_at : (from rt : ℤ) → Pcb → Pcb
stopped_at from rt c = record c {
  last_stopped = from;
  remaining_time = rt;
  state = waiting;
  l_state = stop;
}

-- What the stop adds to the log and sends to the child, the last action first.
abbrev pub stop_actions : (from rt : ℤ) → Pcb → List Action
stop_actions from rt c = logged from (stopped_at from rt c) ∷ sent c.pid sigstop ∷ []

-- What the end of the stall adds: the line of the log still has the state of the stop.
abbrev pub resume_actions : (from to rt : ℤ) → Pcb → List Action
resume_actions from to rt c =
    sent c.pid sigcont ∷ logged to (record (stalled_for from to rt c) { state = waiting }) ∷ []

stalled_for_sum :
    (c : Pcb) (from to rt : ℤ)
    → pos 0 ≤ℤ from
    → (if leb_ℤ (pos 0) from then c.waiting_time +ℤ (to -ℤ from) else c.waiting_time)
      ≡ c.waiting_time +ℤ (to -ℤ from)
stalled_for_sum c from to rt z = ground arith

module _ {P : Platform} where
  -- What receiving leaves alone.
  abbrev Untouched : Sub P → Sub P → Type 0
  Untouched s s' =
      (s'.curr ≡ s.curr)
      × (s'.stalled ≡ s.stalled)
      × (s'.stall_end_time ≡ s.stall_end_time)
      × (s'.tick_time ≡ s.tick_time)
      × (s'.clk ≡ s.clk)
      × (s'.sem ≡ s.sem)
      × (s'.process_finished ≡ s.process_finished)
      × (s'.actions ≡ s.actions)

  admit-Untouched :
      (s : Sub P) (d : ProcessData) (t : Sub P) → Untouched s t → Untouched s (admit d t)
  unfolding admit take_in
  admit-Untouched s d t h = h

  receive-Untouched : (s : Sub P) → Untouched s (receive s)
  unfolding receive
  receive-Untouched s =
      drain-keeps (Untouched s) admit (admit-Untouched s) (λ left b t h. h) s.inbox s
        (refl, refl, refl, refl, refl, refl, refl, refl)

  hold_current-stops :
      (s : Sub P) (c : Pcb)
      → s.curr ≡ some c
      → s.stalled ≡ false
      → eqb_ℤ c.pid minus_one ≡ false
      → hold_current s ≡ stop_current c s
  unfolding hold_current
  hold_current-stops s c e n p = rw (e, n, p) refl

  stall_sig-stops :
      (s : Sub P) (c : Pcb)
      → s.curr ≡ some c
      → s.stalled ≡ false
      → eqb_ℤ c.pid minus_one ≡ false
      → ((stall_sig s).curr ≡ some (stopped_at s.clk s.rt c))
        × ((stall_sig s).stalled ≡ true)
        × ((stall_sig s).stall_end_time ≡ s.clk +ℤ pos 3)
        × ((stall_sig s).actions ≡ stop_actions s.clk s.rt c ++ s.actions)
  unfolding stall_sig stop_current log_data log_time
  stall_sig-stops s c e n p =
      let k = receive-Untouched (record (stop_current c s) { stalled = true }) in
      rw (hold_current-stops s c e n p) (k.0, k.1, refl, k.7)

  end_stall_of :
      (s : Sub P) (c : Pcb) (from rt : ℤ)
      → s.curr ≡ some (stopped_at from rt c)
      → s.stalled ≡ true
      → eqb_ℤ c.pid minus_one ≡ false
      → pos 0 ≤ℤ from
      → s.clk ≡ s.tick_time
      → let over = leb_ℤ s.stall_end_time s.tick_time in
        ((end_stall s).stalled ≡ not over)
        × ((end_stall s).curr
            ≡ some (if over then stalled_for from s.tick_time rt c else stopped_at from rt c))
        × ((end_stall s).actions
            ≡ (if over then resume_actions from s.tick_time rt c else []) ++ s.actions)
  unfolding end_stall resume_current log_data log_time
  end_stall_of s c from rt e n p z t = elim (Bool-cases (leb_ℤ s.stall_end_time s.tick_time)) [
    | inl o ↦ ground (arith, stalled_for_sum c from s.tick_time rt z)
    | inr o ↦ ground arith
  ]

  -- When a CPU that is not stalled gets the stall signal at time t (not before 0) with a forked
  -- process on it, the process gets SIGSTOP, and a line of the log at t. The end of the stall leaves
  -- it stopped at every tick before t + 3, with no other line or signal; from then on it logs the
  -- process, sends it SIGCONT, and marks it as running, with the shared remaining time and with a
  -- waiting time longer by exactly the ticks since t.
  pub stall_sig-end_stall :
      (s : Sub P) (c : Pcb) (now : ℤ)
      → s.curr ≡ some c
      → s.stalled ≡ false
      → eqb_ℤ c.pid minus_one ≡ false
      → pos 0 ≤ℤ s.clk
      → let s' = end_stall (record (stall_sig s) { clk = now; tick_time = now }) in
        let over = leb_ℤ (s.clk +ℤ pos 3) now in
        (s'.stalled ≡ not over)
        × (s'.curr ≡ some (if over then stalled_for s.clk now s.rt c else stopped_at s.clk s.rt c))
        × (s'.actions
            ≡ (if over then resume_actions s.clk now s.rt c else [])
              ++ (stop_actions s.clk s.rt c ++ s.actions))
  stall_sig-end_stall s c now e n p z =
      let k = stall_sig-stops s c e n p in
      let t = record (stall_sig s) { clk = now; tick_time = now } in
      let r = end_stall_of t c s.clk s.rt k.0 k.1 p z refl in
      let same : leb_ℤ (stall_sig s).stall_end_time now ≡ leb_ℤ (s.clk +ℤ pos 3) now =
        ap (λ n. leb_ℤ n now) k.2 in
      (
        r.0 ∙ ap not same,
        r.1
            ∙ ap (λ b. some (if b then stalled_for s.clk now s.rt c else stopped_at s.clk s.rt c))
                same,
        r.2
            ∙ ap (λ b. (if b then resume_actions s.clk now s.rt c else []) ++ (stall_sig s).actions)
                same
            ∙ ap
                (λ xs.
                  (if leb_ℤ (s.clk +ℤ pos 3) now then resume_actions s.clk now s.rt c else [])
                  ++ xs)
                k.3,
      )

  -- A stalled CPU before the end of the stall.
  abbrev pub Frozen : Sub P → Round P → Type 0
  Frozen s exited = ⊥
  Frozen s crashed = ⊥
  Frozen s (held s') =
      (s'.curr ≡ s.curr) × (s'.stalled ≡ true) × (s'.sem ≡ s.sem) × (s'.actions ≡ s.actions)
  Frozen s (went s') =
      (s'.curr ≡ s.curr) × (s'.stalled ≡ true) × (s'.sem ≡ s.sem) × (s'.actions ≡ s.actions)

  end_stall_early :
      (s : Sub P) → s.stalled ≡ true → s.tick_time <ℤ s.stall_end_time → end_stall s ≡ s
  unfolding end_stall
  end_stall_early s e l = ground arith

  dispatch_stalled : (s : Sub P) → s.stalled ≡ true → dispatch s ≡ some s
  unfolding dispatch may_dispatch
  dispatch_stalled s e = ground arith

  grant_stalled : (s : Sub P) → s.stalled ≡ true → grant s ≡ s
  unfolding grant
  grant_stalled s e = ground arith

  publish-Untouched : (s : Sub P) → Untouched s (publish s)
  unfolding publish update_load_shm
  publish-Untouched s = (refl, refl, refl, refl, refl, refl, refl, refl)

  -- Where the tick of a stalled CPU leads.
  abbrev Ahead : Sub P → Type 0
  Ahead s = (s.stalled ≡ true) × (s.tick_time <ℤ s.stall_end_time)

  finish_round-Frozen :
      (s s' : Sub P) → Untouched s s' → s'.stalled ≡ true → Frozen s (finish_round (some s'))
  unfolding finish_round
  finish_round-Frozen s s' u b =
      let p = publish-Untouched s' in
      rw (grant_stalled s' b) (p.0 ∙ u.0, p.1 ∙ b, p.5 ∙ u.5, p.7 ∙ u.7)

  after_gate-Frozen : (late : List ProcessData) (s : Sub P) → Ahead s → Frozen s (after_gate late s)
  unfolding after_gate
  after_gate-Frozen late s h =
      let s0 : Sub P = record s { last_tick = s.tick_time; inbox = s.inbox ++ late } in
      let k = receive-Untouched s0 in
      let s1 = receive s0 in
      let l : s1.tick_time <ℤ s1.stall_end_time = ground (arith, k) in
      let b : s1.stalled ≡ true = k.1 ∙ h.0 in
      let e : dispatch (end_stall s1) ≡ some s1 =
        ap dispatch (end_stall_early s1 b l) ∙ dispatch_stalled s1 b in
      subst (λ o. Frozen s (finish_round o)) (sym e) (finish_round-Frozen s s1 k b)

  gate-Frozen : (late : List ProcessData) (s : Sub P) → Ahead s → Frozen s (gate late s)
  unfolding gate
  gate-Frozen late s h = ground (
    arith,
    after_gate-Frozen late s h,
    after_gate-Frozen late (record s { permits = s.permits - 1 }) h,
  )

  new_tick-gate :
      (late : List ProcessData) (s : Sub P)
      → s.process_finished ≡ false
      → new_tick late s ≡ gate late s
  unfolding new_tick
  new_tick-gate late s f = rw f refl

  Frozen-trans :
      (s s' : Sub P) (r : Round P)
      → s'.curr ≡ s.curr
      → s'.sem ≡ s.sem
      → s'.actions ≡ s.actions
      → Frozen s' r
      → Frozen s r
  Frozen-trans s s' exited c k a h = h
  Frozen-trans s s' crashed c k a h = h
  Frozen-trans s s' (held t) c k a h = (h.0 ∙ c, h.1, h.2 ∙ k, h.3 ∙ a)
  Frozen-trans s s' (went t) c k a h = (h.0 ∙ c, h.1, h.2 ∙ k, h.3 ∙ a)

  update-Untouched : (s : Sub P) → Untouched s (update_load_shm s)
  unfolding update_load_shm
  update-Untouched s = (refl, refl, refl, refl, refl, refl, refl, refl)

  went-Frozen : (s s' : Sub P) → Untouched s s' → s.stalled ≡ true → Frozen s (went s')
  went-Frozen s s' u b = (u.0, u.1 ∙ b, u.5, u.7)

  at_tick-Frozen :
      (late : List ProcessData) (s : Sub P)
      → s.process_finished ≡ false
      → Ahead s
      → Frozen s (at_tick late s)
  unfolding at_tick
  at_tick-Frozen late s f h = elim (Bool-cases (eqb_ℤ s.tick_time s.last_tick)) [
    | inl e ↦ ground (arith, went-Frozen s (update_load_shm s) (update-Untouched s) h.0)
    | inr e ↦ ground (arith, gate-Frozen late s h, new_tick-gate late s f)
  ]

  -- On a stalled CPU whose process has not finished, a round of the loop before the end of the stall
  -- neither exits nor crashes; it leaves the process on the CPU as it is, gives no tick to it, and
  -- neither logs a line nor sends a signal.
  pub round-Frozen :
      (late : List ProcessData) (s : Sub P)
      → s.stalled ≡ true
      → s.process_finished ≡ false
      → s.clk <ℤ s.stall_end_time
      → Frozen s (round late s)
  unfolding round
  round-Frozen late s b f l =
      let k = receive-Untouched s in
      let s1 = receive s in
      let s2 : Sub P = record s1 { tick_time = s1.clk } in
      Frozen-trans s s2 (at_tick late s2) k.0 k.5 k.7
        (at_tick-Frozen late s2 (k.6 ∙ f) (k.1 ∙ b, ground (arith, k)))
