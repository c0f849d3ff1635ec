-- ===== src/Child/Exec.antt =====
-- What becomes of the arguments that the schedulers give to `execl`.
use cpu_scheduler.Base.{
  ℕ, ◌<◌, ◌≡◌, refl, ap, ◌∙◌, inl, inr, ◌⊎◌, true, false, Bool-cases, Option-cases, none, some,
  List, [], ◌∷◌, ℤ, ◌≤ℤ◌, arith, if◌then◌else◌,
}
use cpu_scheduler.Types.{Request}
use cpu_scheduler.Child.{read_requests, start}
use cpu_scheduler.Child.Args.{Strtol, to_int, to_int_lem, int_min, int_max}
use cpu_scheduler.Child.Start.{
  begun, exited, overrun, System, Numbers, read_numbers, begin_process, begin_child, open_requests,
  begin_rr_process,
}

-- A value of an `int`.
abbrev pub InRange : ℤ → Type 0
InRange n = (int_min ≤ℤ n) × (n ≤ℤ int_max)

-- The arguments of scheduler/ and sub-sched/, and those of rr_scheduler/, which adds the id.
module _ (print : ℤ → List ℕ) where
  abbrev pub scheduler_args : List ℕ → Numbers → List (List ℕ)
  scheduler_args name n = name ∷ print n.remaining ∷ print n.shm_id ∷ print n.sem_id ∷ []

  abbrev pub rr_scheduler_args : List ℕ → Numbers → (id : ℤ) → List (List ℕ)
  rr_scheduler_args name n id =
      name ∷ print n.remaining ∷ print n.shm_id ∷ print n.sem_id ∷ print id ∷ []

-- `strtol` reads what `snprintf` wrote for an `int`, whole.
abbrev pub ReadsBack : (List ℕ → Strtol) → (ℤ → List ℕ) → Type 0
ReadsBack strtol print =
    (n : ℤ)
    → InRange n
    → (0 < (strtol (print n)).taken)
      × ((strtol (print n)).rest ≡ [])
      × ((strtol (print n)).value ≡ n)

module _ (sys : System) (print : ℤ → List ℕ) (reads_back : ReadsBack sys.strtol print) where
  to_int-print : (n : ℤ) → InRange n → to_int (sys.strtol (print n)) ≡ some n
  to_int-print n h =
      let (t, r, v) = reads_back n h in
      elim (to_int_lem (sys.strtol (print n))) [
        | inl (_, e) ↦ e ∙ ap some v
        | inr (not_int, _) ↦ absurd (not_int (t, r, rw v h.0, rw v h.1))
      ]

  read_numbers-print :
      (n : Numbers)
      → InRange n.remaining
      → InRange n.shm_id
      → InRange n.sem_id
      → read_numbers sys.strtol (print n.remaining) (print n.shm_id) (print n.sem_id) ≡ some n
  unfolding read_numbers
  read_numbers-print n a b c =
      rw
        (to_int-print n.remaining a, to_int-print n.shm_id b, to_int-print n.sem_id c, read_numbers)
        refl

  -- On the three numbers that scheduler/ and sub-sched/ give, process/process.c begins its work
  -- with the remaining time if the memory can be attached. process/RR_process.c wants a fourth
  -- number: on the same arguments it exits before its loop and sends the signal of a process that
  -- has finished.
  pub begin_process-scheduler_args :
      (name : List ℕ) (n : Numbers)
      → InRange n.remaining
      → InRange n.shm_id
      → InRange n.sem_id
      → (begin_process sys (scheduler_args print name n) ≡ (
          if sys.attaches n.shm_id
          then begun (record { remaining = n.remaining; shm = n.remaining })
          else exited false))
        × (begin_rr_process sys (scheduler_args print name n) ≡ exited true)
  unfolding begin_process begin_rr_process
  begin_process-scheduler_args name n a b c =
      (rw (read_numbers-print n a b c, begin_process) refl, refl)

  -- Everything that process/RR_process.c needs is there, with the requests that it reads.
  abbrev pub HasRequests : Numbers → ℤ → List (List ℕ) → List Request → Type 0
  HasRequests n id lines reqs =
      (sys.attaches n.shm_id ≡ true)
      × (open_requests sys id ≡ some lines)
      × (read_requests sys.sscanf lines [] ≡ some reqs)
      × (sys.has_queue ≡ true)

  -- A line of its file has an address that is too long.
  abbrev pub HasOverrun : Numbers → ℤ → List (List ℕ) → Type 0
  HasOverrun n id lines =
      (sys.attaches n.shm_id ≡ true)
      × (open_requests sys id ≡ some lines)
      × (read_requests sys.sscanf lines [] ≡ none)

  -- On the four numbers that rr_scheduler/ gives, process/RR_process.c begins with the remaining
  -- time, the id and the requests of its file, if the memory, the file and the queue are to be had
  -- and every address that it reads has room; it writes behind the end of an array if an address
  -- has none; and if the memory, the file or the queue is missing otherwise it exits, and the
  -- scheduler gets no signal that it has ended.
  pub begin_rr_process-rr_scheduler_args :
      (name : List ℕ) (n : Numbers) (id : ℤ)
      → InRange n.remaining
      → InRange n.shm_id
      → InRange n.sem_id
      → InRange id
      → let begins = begin_rr_process sys (rr_scheduler_args print name n id) in
        ((lines : List (List ℕ)) × (reqs : List Request) × HasRequests n id lines reqs
          × (begins ≡ begun (start id n.remaining reqs)))
        ⊎ ((lines : List (List ℕ)) × HasOverrun n id lines × (begins ≡ overrun))
        ⊎ (((lines : List (List ℕ)) (reqs : List Request) → ¬ HasRequests n id lines reqs)
            × ((lines : List (List ℕ)) → ¬ HasOverrun n id lines)
            × (begins ≡ exited false))
  unfolding begin_rr_process begin_child
  begin_rr_process-rr_scheduler_args name n id a b c d =
      let numbers = read_numbers-print n a b c in
      let fourth = to_int-print id d in
      elim (Bool-cases (sys.attaches n.shm_id)) [
        | inr e ↦ inr (
            inr (
              λ lines reqs h. ground arith,
              λ lines h. ground arith,
              rw (numbers, fourth, e, begin_rr_process, begin_child) refl,
            ))
        | inl e ↦ elim (Option-cases (open_requests sys id)) [
          | inl f ↦ inr (
              inr (
                λ lines reqs h. ground arith,
                λ lines h. ground arith,
                rw (numbers, fourth, e, f, begin_rr_process, begin_child) refl,
              ))
          | inr (lines, f) ↦ elim (Option-cases (read_requests sys.sscanf lines [])) [
            | inl r ↦ inr (
                inl (
                  lines,
                  (e, f, r),
                  rw (numbers, fourth, e, f, r, begin_rr_process, begin_child) refl,
                ))
            | inr (reqs, r) ↦ elim (Bool-cases sys.has_queue) [
              | inr g ↦ inr (
                  inr (
                    λ ls rs h. ground arith,
                    λ ls h. ground arith,
                    rw (numbers, fourth, e, f, r, g, begin_rr_process, begin_child) refl,
                  ))
              | inl g ↦ inl (
                lines,
                reqs,
                (e, f, r, g),
                rw (numbers, fourth, e, f, r, g, begin_rr_process, begin_child) refl,
              )
            ]
          ]
        ]
      ]
