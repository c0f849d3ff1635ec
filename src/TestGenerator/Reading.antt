-- ===== src/TestGenerator/Reading.antt =====
-- What process_generator/process_generator.c reads in a file of test_generator/test_generator.c.
use cpu_scheduler.Base.{
  ℕ, zero, suc, ◌+◌, ◌%◌, ◌≤◌, ◌<◌, ◌≡◌, refl, ap, ◌∙◌, inl, inr, Option, none, some, List, [], ◌∷◌,
  map, pos, arith, length, Bool-cases,
}
use cpu_scheduler.Types.{ProcessData}
use cpu_scheduler.Queue.{Queue, create_queue}
use cpu_scheduler.Generator.Input.{Fields, is_skipped, read_line, read_lines, read_input}
use cpu_scheduler.TestGenerator.{Draw, Row, generate_rows, generate_file, columns}

-- Arrivals that do not fall, the first one not before a time, with ids from i on, and with the run
-- times and priorities that the generator means to give.
abbrev pub IsPlan : (i from : ℕ) → List Row → Type 0
IsPlan i from [] = Unit
IsPlan i from (r ∷ rest) =
    (r.id ≡ i)
    × (from ≤ r.arrival)
    × (r.runtime < 30)
    × (r.priority ≤ 10)
    × IsPlan (suc i) r.arrival rest

generate_rows-IsPlan : (i from : ℕ) (draws : List Draw) → IsPlan i from (generate_rows i from draws)
unfolding generate_rows
generate_rows-IsPlan i from [] = tt
generate_rows-IsPlan i from (d ∷ ds) = (
  refl,
  omega arith,
  omega arith,
  omega arith,
  generate_rows-IsPlan (suc i) (from + d.arrival % 11) ds,
)

length-generate_rows :
    (i from : ℕ) (draws : List Draw) → length (generate_rows i from draws) ≡ length draws
unfolding generate_rows
length-generate_rows i from [] = refl
length-generate_rows i from (d ∷ ds) =
    ap suc (length-generate_rows (suc i) (from + d.arrival % 11) ds)

abbrev pub take : ℕ → List ℕ → List ℕ
take n [] = []
take zero (x ∷ xs) = []
take (suc n) (x ∷ xs) = x ∷ take n xs

-- The test `sscanf(…) != 6`, for the numbers that the call stores.
abbrev pub six_fields : List ℕ → Option Fields
six_fields (a ∷ b ∷ c ∷ d ∷ e ∷ f ∷ []) = some (record {
  id = pos a;
  arrival = pos b;
  runtime = pos c;
  priority = pos d;
  base = pos e;
  limit = pos f;
})
six_fields _ = none

-- `sscanf` stores the numbers of a text that `fprintf` wrote, as many as there are conversions.
module _ (fprintf : List ℕ → List ℕ) (sscanf : ℕ → List ℕ → List ℕ)
    (reads_back : (n : ℕ) (numbers : List ℕ) → sscanf n (fprintf numbers) ≡ take n numbers) where
  abbrev pub scan_line : List ℕ → Option Fields
  scan_line line = six_fields (sscanf 6 line)

  row_unread : (r : Row) (q : Queue ProcessData) → read_line scan_line (fprintf (columns r)) q ≡ q
  unfolding read_line
  row_unread r q =
      let e : scan_line (fprintf (columns r)) ≡ none = ap six_fields (reads_back 6 (columns r)) in
      elim (Bool-cases (is_skipped (fprintf (columns r)))) [
        | inl s ↦ rw s refl
        | inr s ↦ rw (s, e) refl
      ]

  rows_unread :
      (rows : List Row) (q : Queue ProcessData)
      → read_lines scan_line (map (λ r. fprintf (columns r)) rows) q ≡ q
  unfolding read_lines
  rows_unread [] q = refl
  rows_unread (r ∷ rest) q =
      ap (read_lines scan_line (map (λ r. fprintf (columns r)) rest)) (row_unread r q)
      ∙ rows_unread rest q

  -- Whatever `rand` gives, the rows are one for each process asked for, with ids from 1 on, with
  -- arrivals that do not fall, run times below 30 and priorities up to 10. The process generator,
  -- which wants six numbers in a line, takes none of them from the file: its queue stays empty.
  pub read_input-generate_file :
      (draws : List Draw)
      → IsPlan 1 1 (generate_rows 1 1 draws)
        × (length (generate_rows 1 1 draws) ≡ length draws)
        × (read_input scan_line (generate_file fprintf draws) ≡ create_queue)
  unfolding read_input read_lines read_line is_skipped generate_file
  read_input-generate_file draws = (
    generate_rows-IsPlan 1 1 draws,
    length-generate_rows 1 1 draws,
    rows_unread (generate_rows 1 1 draws) create_queue,
  )
