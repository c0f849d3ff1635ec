-- ===== src/Child/Start.antt =====
-- How the programs of process/ begin: their arguments, the shared memory and the file of requests.
use cpu_scheduler.Base.{ℕ, Bool, true, false, Option, none, some, List, [], ◌∷◌, ℤ, if◌then◌else◌}
use cpu_scheduler.Child.{Worker, Child, Scanned, read_requests, start}
use cpu_scheduler.Child.Args.{Strtol, to_int}

-- A program gets to its loop, or exits, with SIGUSR1 to its parent before it or without, or writes
-- behind the end of an array.
pub data Begin (A : Type 0) : Type 0 where
  begun : A → Begin A
  exited : (signalled : Bool) → Begin A
  overrun : Begin A

-- What the programs ask of the system: `strtol`, whether `shmat` succeeds for an id, the lines of
-- input/requests_<id>.txt and of input/requests/requests_<id>.txt if they can be opened, what
-- `sscanf` makes of a line, and whether the queue of the requests is to be had.
pub record System : Type 0 where
  pub strtol : List ℕ → Strtol
  pub attaches : ℤ → Bool
  pub input_file : ℤ → Option (List (List ℕ))
  pub requests_file : ℤ → Option (List (List ℕ))
  pub sscanf : List ℕ → Scanned
  pub has_queue : Bool

-- The first arguments behind the name: the remaining time, the memory and the semaphore.
pub record Numbers : Type 0 where
  pub remaining : ℤ
  pub shm_id : ℤ
  pub sem_id : ℤ

-- The calls of `to_int` in their order; none exits with the signal.
unfoldable pub read_numbers : (List ℕ → Strtol) → (a b c : List ℕ) → Option Numbers
read_numbers strtol a b c = elim (to_int (strtol a)) [
  | none ↦ none
  | some n ↦ elim (to_int (strtol b)) [
    | none ↦ none
    | some shm ↦ elim (to_int (strtol c)) [
      | none ↦ none
      | some sem ↦ some (record { remaining = n; shm_id = shm; sem_id = sem })
    ]
  ]
]

-- `main` of process/process.c, up to the loop. The parent has written the shared remaining time.
unfoldable pub begin_process : System → List (List ℕ) → Begin Worker
begin_process sys (name ∷ a ∷ b ∷ c ∷ rest) = elim (read_numbers sys.strtol a b c) [
  | none ↦ exited true
  | some n ↦
      if sys.attaches n.shm_id
      then begun (record { remaining = n.remaining; shm = n.remaining })
      else exited false
]
begin_process sys _ = exited true

-- The file of the requests: the first path that can be opened.
unfoldable pub open_requests : System → ℤ → Option (List (List ℕ))
open_requests sys id = elim (sys.input_file id) [
  | none ↦ sys.requests_file id
  | some lines ↦ some lines
]

-- `main` of process/RR_process.c, from the memory on.
unfoldable pub begin_child : System → Numbers → (id : ℤ) → Begin Child
begin_child sys n id =
    if sys.attaches n.shm_id
    then (elim (open_requests sys id) [
      | none ↦ exited false
      | some lines ↦ elim (read_requests sys.sscanf lines []) [
        | none ↦ overrun
        | some reqs ↦ if sys.has_queue then begun (start id n.remaining reqs) else exited false
      ]
    ])
    else exited false

-- `main` of process/RR_process.c, up to the loop.
unfoldable pub begin_rr_process : System → List (List ℕ) → Begin Child
begin_rr_process sys (name ∷ a ∷ b ∷ c ∷ d ∷ rest) = elim (read_numbers sys.strtol a b c) [
  | none ↦ exited true
  | some n ↦ elim (to_int (sys.strtol d)) [ none ↦ exited true | some id ↦ begin_child sys n id ]
]
begin_rr_process sys _ = exited true
