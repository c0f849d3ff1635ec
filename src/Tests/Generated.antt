-- ===== src/Tests/Generated.antt =====
-- A file of two random processes.
use cpu_scheduler.Base.{ℕ, ◌≡◌, refl, List, [], ◌∷◌, length}
use cpu_scheduler.Queue.{create_queue}
use cpu_scheduler.Generator.Input.{read_input}
use cpu_scheduler.TestGenerator.{Draw, generate_rows, generate_file}
use cpu_scheduler.TestGenerator.Reading.{IsPlan, take, scan_line, read_input-generate_file}

abbrev two_draws : List Draw
two_draws =
    record { arrival = 14; runtime = 31; priority = 5 }
    ∷ record { arrival = 2; runtime = 60; priority = 12 }
    ∷ []

generates :
    generate_rows 1 1 two_draws
    ≡ record { id = 1; arrival = 4; runtime = 1; priority = 5 }
      ∷ record { id = 2; arrival = 6; runtime = 0; priority = 1 }
      ∷ []
unfolding generate_rows
generates = refl

-- A line is the list of its numbers.
abbrev written : List ℕ → List ℕ
written numbers = numbers

take_reads : (n : ℕ) (numbers : List ℕ) → take n (written numbers) ≡ take n numbers
take_reads n numbers = refl

read_input-generate_file_example :
    IsPlan 1 1 (generate_rows 1 1 two_draws)
    × (length (generate_rows 1 1 two_draws) ≡ 2)
    × (read_input (scan_line written take take_reads) (generate_file written two_draws)
        ≡ create_queue)
read_input-generate_file_example = read_input-generate_file written take take_reads two_draws
