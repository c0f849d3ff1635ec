-- ===== src/Generator/Input.antt =====
-- The part of process_generator/process_generator.c that reads the input file.
pub mod Messages
use cpu_scheduler.Base.{
  ℕ, ◌≡◌, refl, inl, inr, Bool, false, ◌||◌, ◌==◌, Option, none, some, List, [], ◌∷◌, ◌++◌, ℤ, pos,
  ltb_ℤ, leb_ℤ, ◌<ℤ◌, ltb_ℤ→lt, Bool-cases, Option-cases, All, All-append, if◌then◌else◌,
}
use cpu_scheduler.Types.{ProcessData}
use cpu_scheduler.Queue.{Queue, create_queue, enqueue, IsCounted}

-- The six numbers that `sscanf` stores.
pub record Fields : Type 0 where
  pub id : ℤ
  pub arrival : ℤ
  pub runtime : ℤ
  pub priority : ℤ
  pub base : ℤ
  pub limit : ℤ

-- A comment or an empty line: `line[0] == '#' || line[0] == '\n'`.
unfoldable pub is_skipped : List ℕ → Bool
is_skipped [] = false
is_skipped (c ∷ rest) = c == 35 || c == 10

unfoldable pub to_message : Fields → ProcessData
to_message f = record {
  mtype = pos 1;
  id = f.id;
  arrival = f.arrival;
  runtime = f.runtime;
  priority = f.priority;
  base = f.base;
  limit = f.limit;
}

-- `sscanf` gives the six numbers of a line, or none if it finds fewer.
module _ (sscanf : List ℕ → Option Fields) where
  -- The body of the loop for one line of `fgets`.
  unfoldable pub read_line : List ℕ → Queue ProcessData → Queue ProcessData
  unfolding is_skipped to_message enqueue
  read_line line q = if is_skipped line then q else (elim (sscanf line) [
    | none ↦ q
    | some f ↦ if ltb_ℤ (pos 0) f.runtime then enqueue q (to_message f) else q
  ])

  unfoldable pub read_lines : List (List ℕ) → Queue ProcessData → Queue ProcessData
  unfolding read_line
  read_lines [] q = q
  read_lines (line ∷ rest) q = read_lines rest (read_line line q)

  unfoldable pub read_input : List (List ℕ) → Queue ProcessData
  unfolding read_lines create_queue
  read_input lines = read_lines lines create_queue
