-- ===== src/Tests/Begins.antt =====
-- The programs of process/ on the arguments of the schedulers.
use cpu_scheduler.Base.{ℕ, ◌≡◌, refl, ◌⊎◌, true, false, none, List, [], ◌∷◌, ℤ, pos, negsuc, arith}
use cpu_scheduler.Types.{Request}
use cpu_scheduler.Child.{fewer, start}
use cpu_scheduler.Child.Args.{Strtol}
use cpu_scheduler.Child.Start.{
  begun, exited, overrun, System, Numbers, begin_process, begin_rr_process,
}
use cpu_scheduler.Child.Exec.{
  ReadsBack, HasRequests, HasOverrun, scheduler_args, rr_scheduler_args,
  begin_process-scheduler_args, begin_rr_process-rr_scheduler_args,
}

-- A number is one character, the one behind a sign two.
abbrev print : ℤ → List ℕ
print (pos n) = n ∷ []
print (negsuc n) = 45 ∷ n ∷ []

abbrev read : List ℕ → Strtol
read [] = record { value = pos 0; taken = 0; rest = []; out_of_range = false }
read (n ∷ []) = record { value = pos n; taken = 1; rest = []; out_of_range = false }
read (c ∷ n ∷ rest) = record { value = negsuc n; taken = 2; rest = rest; out_of_range = false }

-- There is no file of requests.
abbrev sys : System
sys = record {
  strtol = read;
  attaches = λ id. true;
  input_file = λ id. none;
  requests_file = λ id. none;
  sscanf = λ line. fewer [];
  has_queue = true;
}

read_print : ReadsBack read print
read_print (pos n) h = (omega arith, refl, refl)
read_print (negsuc n) h = (omega arith, refl, refl)

abbrev numbers : Numbers
numbers = record { remaining = pos 5; shm_id = pos 2; sem_id = pos 3 }

begin_process-scheduler_args_example :
    (begin_process sys (scheduler_args print [] numbers)
      ≡ begun (record { remaining = pos 5; shm = pos 5 }))
    × (begin_rr_process sys (scheduler_args print [] numbers) ≡ exited true)
begin_process-scheduler_args_example =
    begin_process-scheduler_args sys print read_print [] numbers (omega arith) (omega arith)
      (omega arith)

begin_rr_process-rr_scheduler_args_example :
    let begins = begin_rr_process sys (rr_scheduler_args print [] numbers (pos 7)) in
    ((lines : List (List ℕ)) × (reqs : List Request) × HasRequests sys print read_print numbers
        (pos 7)
        lines
        reqs
      × (begins ≡ begun (start (pos 7) (pos 5) reqs)))
    ⊎ ((lines : List (List ℕ)) × HasOverrun sys print read_print numbers (pos 7) lines
        × (begins ≡ overrun))
    ⊎ (((lines : List (List ℕ)) (reqs : List Request)
          → ¬ HasRequests sys print read_print numbers (pos 7) lines reqs)
        × ((lines : List (List ℕ)) → ¬ HasOverrun sys print read_print numbers (pos 7) lines)
        × (begins ≡ exited false))
begin_rr_process-rr_scheduler_args_example =
    begin_rr_process-rr_scheduler_args sys print read_print [] numbers (pos 7) (omega arith)
      (omega arith) (omega arith) (omega arith)
