-- ===== src/Tests/Children.antt =====
-- Tests of the properties of the simulated processes.
use cpu_scheduler.Base.{ℕ, ◌≡◌, ◌-◌, refl, none, some, List, [], ◌∷◌, arith, pos}
use cpu_scheduler.Types.{Request}
use cpu_scheduler.Generator.Input.{is_skipped}
use cpu_scheduler.Child.{
  Scanned, complete, fewer, to_request, work_loop, read_requests, request_at, Child, child_loop,
  start,
}
use cpu_scheduler.Child.Input.{Filled, read_requests_bound}
use cpu_scheduler.Child.Ticks.{work_loop_lem, child_loop_stuck}
use cpu_scheduler.Child.Requests.{SentBefore, child_loop-SentBefore}

abbrev request : ℕ → Request
request t = record { mtype = pos 1; tick = pos t; address = 48 ∷ []; operation = 114 }

work_loop_lem_example :
    ((work_loop 2 (record { remaining = pos 5; shm = pos 5 })).remaining ≡ pos (5 - 2))
    × ((work_loop 2 (record { remaining = pos 5; shm = pos 5 })).shm ≡ pos (5 - 2))
work_loop_lem_example = work_loop_lem 5 2

child_loop-SentBefore_example :
    let reqs = request 1 ∷ request 3 ∷ [] in
    let c = child_loop 2 (start (pos 7) (pos 5) reqs) in
    SentBefore (pos 7) 2 reqs c × (c.remaining ≡ pos (5 - 2)) × (c.shm ≡ pos (5 - 2))
child_loop-SentBefore_example =
    child_loop-SentBefore (pos 7) 5 2 (request 1 ∷ request 3 ∷ [])
      (1, refl, omega arith, (3, refl, omega arith, tt)) (omega arith)

-- The second request of tick 1 is next, in tick 2.
abbrev late : Child
late = record {
  id = pos 7;
  remaining = pos 3;
  shm = pos 3;
  running_time = pos 2;
  req_index = 1;
  reqs = request 1 ∷ request 1 ∷ request 4 ∷ [];
  sent = request 1 ∷ [];
}

late_next : request_at late.reqs late.req_index ≡ some (request 1)
unfolding request_at
late_next = refl

child_loop_stuck_example : (child_loop 3 late).sent ≡ request 1 ∷ []
child_loop_stuck_example = child_loop_stuck 3 late (request 1) (late_next, omega arith)

-- A line is a tick of one code and an address.
abbrev scan : List ℕ → Scanned
scan [] = fewer []
scan (c ∷ rest) = complete (record { tick = pos c; address = rest; operation = 119 })

read_requests_bound_example :
    Filled scan [] (record (request 4) { address = 49 ∷ []; operation = 119 } ∷ [])
unfolding read_requests is_skipped to_request
read_requests_bound_example = read_requests_bound scan ((4 ∷ 49 ∷ []) ∷ []) [] (omega arith)

-- An address of ten characters.
too_long : read_requests scan ((4 ∷ 1 ∷ 2 ∷ 3 ∷ 4 ∷ 5 ∷ 6 ∷ 7 ∷ 8 ∷ 9 ∷ 10 ∷ []) ∷ []) [] ≡ none
unfolding read_requests is_skipped
too_long = refl
