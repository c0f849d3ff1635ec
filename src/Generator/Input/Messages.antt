-- ===== src/Generator/Input/Messages.antt =====
-- What the input file gives to the queue of process_generator/process_generator.c.
use mathlib.Core.List.{append_assoc, append-nil}
use cpu_scheduler.Base.{
  ℕ, ◌≡◌, refl, sym, ap, ◌∙◌, inl, inr, ◌||◌, Option, none, some, List, [], ◌∷◌, ◌++◌, pos, leb_ℤ,
  ◌<ℤ◌, arith, Option-cases, All, All-append, length-append, if◌then◌else◌,
}
use cpu_scheduler.Types.{ProcessData}
use cpu_scheduler.Queue.{Queue, create_queue, enqueue, IsCounted}
use cpu_scheduler.Generator.Input.{
  Fields, is_skipped, to_message, read_line, read_lines, read_input,
}

module _ (sscanf : List ℕ → Option Fields) where
  -- What a line has for the queue.
  abbrev pub accepted : List ℕ → List ProcessData
  accepted line = elim (sscanf line) [
    | none ↦ []
    | some f ↦ if is_skipped line || leb_ℤ f.runtime (pos 0) then [] else to_message f ∷ []
  ]

  abbrev pub messages : List (List ℕ) → List ProcessData
  messages [] = []
  messages (line ∷ rest) = accepted line ++ messages rest

  -- A message of a process, with a positive run time.
  abbrev pub IsRunnable : ProcessData → Type 0
  IsRunnable d = (d.mtype ≡ pos 1) × (pos 0 <ℤ d.runtime)

  accepted-IsRunnable : (line : List ℕ) → All IsRunnable (accepted line)
  unfolding to_message
  accepted-IsRunnable line = elim (Option-cases (sscanf line)) [
    | inl e ↦ ground arith
    | inr (f, e) ↦ ground arith
  ]

  messages-IsRunnable : (lines : List (List ℕ)) → All IsRunnable (messages lines)
  messages-IsRunnable [] = tt
  messages-IsRunnable (line ∷ rest) =
      All-append IsRunnable (accepted line) (messages rest) (accepted-IsRunnable line)
        (messages-IsRunnable rest)

  read_line-items :
      (line : List ℕ) (q : Queue ProcessData)
      → (read_line sscanf line q).items ≡ q.items ++ accepted line
  unfolding read_line enqueue
  read_line-items line q = elim (Option-cases (sscanf line)) [
    | inl e ↦ ground (arith, append-nil q.items)
    | inr (f, e) ↦ ground (arith, append-nil q.items)
  ]

  read_line-IsCounted :
      (line : List ℕ) (q : Queue ProcessData) → IsCounted q → IsCounted (read_line sscanf line q)
  unfolding read_line enqueue
  read_line-IsCounted line q h = elim (Option-cases (sscanf line)) [
    | inl e ↦ ground arith
    | inr (f, e) ↦ ground (arith, length-append q.items (to_message f ∷ []))
  ]

  read_lines-items :
      (lines : List (List ℕ)) (q : Queue ProcessData)
      → IsCounted q
      → ((read_lines sscanf lines q).items ≡ q.items ++ messages lines)
        × IsCounted (read_lines sscanf lines q)
  unfolding read_lines
  read_lines-items [] q h = (sym (append-nil q.items), h)
  read_lines-items (line ∷ rest) q h =
      let k = read_lines-items rest (read_line sscanf line q) (read_line-IsCounted line q h) in
      (
        k.0
            ∙ ap (λ xs. xs ++ messages rest) (read_line-items line q)
            ∙ append_assoc q.items (accepted line) (messages rest),
        k.1,
      )

  -- Whatever `sscanf` makes of the lines, the queue read from a file counts its nodes right and holds
  -- in the order of the lines one message for each line that is no comment, is not empty, has six
  -- numbers and a positive run time; each is a message of a process with a positive run time.
  pub read_input-messages :
      (lines : List (List ℕ))
      → ((read_input sscanf lines).items ≡ messages lines)
        × IsCounted (read_input sscanf lines)
        × All IsRunnable (messages lines)
  unfolding read_input create_queue
  read_input-messages lines =
      let k = read_lines-items lines create_queue refl in (k.0, k.1, messages-IsRunnable lines)
