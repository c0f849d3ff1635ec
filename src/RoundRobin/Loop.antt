-- ===== src/RoundRobin/Loop.antt =====
-- The main loop of rr_scheduler/rr_scheduler.c.
use cpu_scheduler.Base.{
  Bool, true, false, ◌&&◌, ◌||◌, not, Option, none, some, List, ℤ, pos, minus_one, leb_ℤ, ltb_ℤ,
  eqb_ℤ, rem, if◌then◌else◌,
}
use cpu_scheduler.Types.{ProcessData, Request}
use cpu_scheduler.Queue.{is_empty}
use cpu_scheduler.Run.{ok, Cmd, pure, ◌>>=◌, ◌>>◌, gets, modify, when}
use cpu_scheduler.Memory.Pages.{clear_recent}
use cpu_scheduler.Platform.{Platform}
use cpu_scheduler.RoundRobin.State.{Rr, in_memory, get_clk}
use cpu_scheduler.RoundRobin.Blocking.{check_block_end}
use cpu_scheduler.RoundRobin.Dispatch.{rr_algo}
use cpu_scheduler.RoundRobin.Requests.{handle_requests}
use cpu_scheduler.RoundRobin.Lifecycle.{receive_processes, handle_finished_processes}

abbrev pub is_busy : {A : Type 0} → Option A → Bool
is_busy none = false
is_busy (some _) = true

module _ {P : Platform} where
  -- The test of the loop.
  unfoldable pub goes_on : Rr P → Bool
  unfolding is_empty
  goes_on s = not (is_empty s.ready) || not (is_empty s.block) || s.receiving || is_busy s.mem.curr

  -- Every k quantums the R bits are cleared.
  unfoldable pub age_pages : ℤ → Cmd (Rr P) (Unit {0})
  unfolding clear_recent
  age_pages k = do
    n ← gets (λ s. s.quantums_passed)
    last ← gets (λ s. s.last_print)
    when (ltb_ℤ (pos 0) k && ltb_ℤ (pos 0) n && eqb_ℤ (rem n k) (pos 0) && ltb_ℤ last n)
        (do in_memory clear_recent; modify (λ s. record s { last_print = n }))

  -- `semctl(sem_id, 0, SETVAL, 0); up(sem_id)` for a current process.
  unfoldable pub grant_tick : ℤ → Cmd (Rr P) (Unit {0})
  grant_tick now s =
      ok tt
        (if is_busy s.mem.curr && leb_ℤ s.context_switch_until now then record s { sem = 1 } else s)

  -- The part of the body that a context switch holds up; the value is what stays in the queue.
  unfoldable pub schedule :
      (q k now : ℤ) → List ProcessData → Cmd (Rr P) (Option (List ProcessData))
  unfolding receive_processes rr_algo age_pages grant_tick
  schedule q k now inbox = do
    modify (λ s. record s { context_switch_until = minus_one })
    s ← gets (λ s. s)
    left ←
        (if s.receiving && ltb_ℤ s.last_received_sync now
          then receive_processes inbox
          else pure (some inbox))
    elim left [
      | none ↦ pure none
      | some rest ↦ (do
        when (ltb_ℤ (pos 0) now) (rr_algo q)
        age_pages k
        grant_tick now
        pure (some rest))
    ]

  -- The body of the loop at a new tick, for the request and the messages that arrive in it.
  unfoldable pub tick :
      (q k : ℤ) → Option Request → List ProcessData → Cmd (Rr P) (Option (List ProcessData))
  unfolding handle_requests check_block_end handle_finished_processes schedule
  tick q k received inbox = do
    now ← get_clk
    handle_requests received
    modify (λ s. record s { checked = false })
    s ← gets (λ s. s)
    when (not (eqb_ℤ s.next_preemption_time now) || not (is_busy s.mem.curr))
        (do check_block_end; modify (λ s. record s { checked = true }))
    handle_finished_processes
    until ← gets (λ s. s.context_switch_until)
    left ←
        (if eqb_ℤ until minus_one || leb_ℤ until now
          then schedule q k now inbox
          else pure (some inbox))
    elim left [
      | none ↦ pure none
      | some rest ↦ (do
        s ← gets (λ s. s)
        when (not s.checked && eqb_ℤ s.mem.clk now) check_block_end
        pure (some rest))
    ]
