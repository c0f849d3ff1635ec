-- ===== src/Child.antt =====
-- process/: the programs that stand for a running process, process/process.c for schedulers without
-- paging and process/RR_process.c for the round-robin scheduler. `msgsnd` succeeds.
pub mod Requests
pub mod Ticks
pub mod Args
pub mod Input
pub mod Start
pub mod Exec
use cpu_scheduler.Base.{
  ℕ, zero, suc, ◌+◌, ◌==◌, Bool, true, false, ◌&&◌, ◌||◌, not, Option, none, some, List, [], ◌∷◌,
  ◌++◌, leb, ℤ, pos, ltb_ℤ, eqb_ℤ, ◌+ℤ◌, ◌-ℤ◌, length, if◌then◌else◌,
}
use cpu_scheduler.Types.{Request}
use cpu_scheduler.Generator.Input.{is_skipped}

-- What the loop of process/process.c works on: `remainingtime` and the shared remaining time.
pub record Worker : Type 0 where
  pub remaining : ℤ
  pub shm : ℤ

-- The body of the loop, behind `down`.
unfoldable pub work : Worker → Worker
work w = let left : ℤ = w.remaining -ℤ pos 1 in record { remaining = left; shm = left }

-- The loop for the ticks that the semaphore grants.
unfoldable pub work_loop : ℕ → Worker → Worker
unfolding work
work_loop zero w = w
work_loop (suc grants) w =
    let on = work_loop grants (work w) in if ltb_ℤ (pos 0) w.remaining then on else w

-- What `sscanf` stores for a line of a request file.
pub record RequestFields : Type 0 where
  pub tick : ℤ
  pub address : List ℕ
  pub operation : ℕ

-- `sscanf` stores all three fields of a line, or fewer, and then with what it has written to the
-- address, if anything.
pub data Scanned : Type 0 where
  complete : RequestFields → Scanned
  fewer : (address : List ℕ) → Scanned

abbrev pub written : Scanned → List ℕ
written (complete f) = f.address
written (fewer address) = address

unfoldable pub to_request : RequestFields → Request
to_request f = record { mtype = pos 1; tick = f.tick; address = f.address; operation = f.operation }

-- The address has ten characters, the last one of which ends it.
abbrev pub fits : List ℕ → Bool
fits address = leb (length address) 9

-- The reading loop, for the requests in the array so far; the array has 100 places. None stands for
-- a write behind the end of an address.
unfoldable pub read_requests :
    (List ℕ → Scanned) → List (List ℕ) → List Request → Option (List Request)
unfolding is_skipped to_request
read_requests sscanf [] got = some got
read_requests sscanf (line ∷ rest) got =
    let on = read_requests sscanf rest got in
    if is_skipped line
    then on
    else if leb 100 (length got)
    then some got
    else if not (fits (written (sscanf line)))
    then none
    else (elim (sscanf line) [
      | fewer _ ↦ on
      | complete f ↦ read_requests sscanf rest (got ++ to_request f ∷ [])
    ])

-- `reqs_arr[i]`, none from `num_requests` on.
unfoldable pub request_at : List Request → ℕ → Option Request
request_at [] i = none
request_at (r ∷ rest) zero = some r
request_at (r ∷ rest) (suc i) = request_at rest i

-- What the loop of process/RR_process.c works on; `sent` has the requests in the order of sending.
pub record Child : Type 0 where
  pub id : ℤ
  pub remaining : ℤ
  pub shm : ℤ
  pub running_time : ℤ
  pub req_index : ℕ
  pub reqs : List Request
  pub sent : List Request

abbrev pub stamp : ℤ → Request → Request
stamp id r = record r { mtype = id }

-- The request of this tick, if the next one is for it.
unfoldable pub send_request : Child → Child
unfolding request_at
send_request c = elim (request_at c.reqs c.req_index) [
  | none ↦ c
  | some r ↦
      if eqb_ℤ c.running_time r.tick
      then record c { sent = c.sent ++ stamp c.id r ∷ []; req_index = c.req_index + 1 }
      else c
]

-- The body of the loop, behind `down`; the loop test has made sure of a remaining time.
unfoldable pub child_tick : Child → Child
unfolding send_request
child_tick c =
    let c1 = send_request c in
    let left : ℤ = c1.remaining -ℤ pos 1 in
    record c1 { remaining = left; shm = left; running_time = c1.running_time +ℤ pos 1 }

unfoldable pub child_loop : ℕ → Child → Child
unfolding child_tick
child_loop zero c = c
child_loop (suc grants) c =
    let on = child_loop grants (child_tick c) in if ltb_ℤ (pos 0) c.remaining then on else c

-- The child as its loop begins.
unfoldable pub start : (id remaining : ℤ) → List Request → Child
start id remaining reqs = record {
  id = id;
  remaining = remaining;
  shm = remaining;
  running_time = pos 0;
  req_index = 0;
  reqs = reqs;
  sent = [];
}
