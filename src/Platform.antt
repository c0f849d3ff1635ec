-- ===== src/Platform.antt =====
-- What the program takes from the C library and the kernel: floating-point arithmetic, `strtoul`,
-- and the process id that `fork` returns. The models are parametric in it.
use cpu_scheduler.Base.{ℕ, List, ℤ}

pub record Platform : Type 1 where
  -- `float`
  pub Float : Type 0
  pub of_int : ℤ → Float
  pub add : Float → Float → Float
  pub sub : Float → Float → Float
  pub mul : Float → Float → Float
  pub div : Float → Float → Float
  pub sqrt : Float → Float
  -- The text and the base give the number.
  pub strtoul : List ℕ → ℕ → ℕ
  -- The result in the parent, for the process with this id in the input; -1 if it fails.
  pub fork : ℤ → ℤ
