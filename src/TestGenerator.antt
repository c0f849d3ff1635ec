-- ===== src/TestGenerator.antt =====
-- test_generator/test_generator.c: a file of random processes. What `rand` gives is an input.
pub mod Reading
use cpu_scheduler.Base.{ℕ, suc, ◌+◌, ◌%◌, List, [], ◌∷◌, map}

-- What `rand` gives for one process: for its arrival, its run time and its priority.
pub record Draw : Type 0 where
  pub arrival : ℕ
  pub runtime : ℕ
  pub priority : ℕ

-- `struct processData` of that file.
pub record Row : Type 0 where
  pub id : ℕ
  pub arrival : ℕ
  pub runtime : ℕ
  pub priority : ℕ

-- The loop from the i-th process on, behind an arrival.
unfoldable pub generate_rows : (i arrival : ℕ) → List Draw → List Row
generate_rows i arrival [] = []
generate_rows i arrival (d ∷ ds) =
    record {
      id = i;
      arrival = arrival + d.arrival % 11;
      runtime = d.runtime % 30;
      priority = d.priority % 11;
    }
    ∷ generate_rows (suc i) (arrival + d.arrival % 11) ds

-- The numbers of a line.
abbrev pub columns : Row → List ℕ
columns r = r.id ∷ r.arrival ∷ r.runtime ∷ r.priority ∷ []

-- "#id arrival runtime priority\n"
abbrev pub header_line : List ℕ
header_line =
    b'#' ∷ b'i' ∷ b'd' ∷ b' ' ∷ b'a' ∷ b'r' ∷ b'r' ∷ b'i' ∷ b'v' ∷ b'a' ∷ b'l' ∷ b' ' ∷ b'r' ∷ b'u'
    ∷ b'n' ∷ b't' ∷ b'i' ∷ b'm' ∷ b'e' ∷ b' ' ∷ b'p' ∷ b'r' ∷ b'i' ∷ b'o' ∷ b'r' ∷ b'i' ∷ b't'
    ∷ b'y' ∷ 10 ∷ []

-- The lines of the file, for a `fprintf` that writes numbers with tabs between them and a newline.
unfoldable pub generate_file : (List ℕ → List ℕ) → List Draw → List (List ℕ)
unfolding generate_rows
generate_file fprintf draws = header_line ∷ map (λ r. fprintf (columns r)) (generate_rows 1 1 draws)
