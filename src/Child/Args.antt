-- ===== src/Child/Args.antt =====
-- `to_int` of headers.h, and the arguments that process/RR_process.c reads with it.
use cpu_scheduler.Base.{
  ℕ, ◌≡◌, inl, inr, ◌⊎◌, Bool, true, false, ◌&&◌, ◌||◌, not, ◌==◌, ◌<◌, Option, none, some, List,
  [], ◌∷◌, arith, ℤ, pos, negsuc, ltb_ℤ, eqb_ℤ, ◌≤ℤ◌, Option-cases, if◌then◌else◌,
}

-- What `strtol` gives for a text: the number, how many characters it took, the text behind them, and
-- whether it set `errno` to `ERANGE`.
pub record Strtol : Type 0 where
  pub value : ℤ
  pub taken : ℕ
  pub rest : List ℕ
  pub out_of_range : Bool

abbrev pub int_max : ℤ
int_max = pos 2147483647

abbrev pub int_min : ℤ
int_min = negsuc 2147483647

abbrev pub long_max : ℤ
long_max = pos 9223372036854775807

abbrev pub long_min : ℤ
long_min = negsuc 9223372036854775807

abbrev is_end : List ℕ → Bool
is_end [] = true
is_end (c ∷ rest) = false

-- The number, or none where the source stores 0 and returns false.
unfoldable pub to_int : Strtol → Option ℤ
to_int l =
    if l.taken == 0
    then none
    else if not (is_end l.rest)
    then none
    else if (eqb_ℤ long_min l.value || eqb_ℤ long_max l.value) && l.out_of_range
    then none
    else if ltb_ℤ int_max l.value
    then none
    else if ltb_ℤ l.value int_min
    then none
    else some l.value

-- The whole text is a number that an `int` holds.
abbrev pub IsInt : Strtol → Type 0
IsInt l = (0 < l.taken) × (l.rest ≡ []) × (int_min ≤ℤ l.value) × (l.value ≤ℤ int_max)

-- `to_int` gives the value of `strtol` exactly if `strtol` took something, took all of the text, and
-- found a value that an `int` holds; in all other cases it gives none.
pub to_int_lem :
    (l : Strtol) → (IsInt l × (to_int l ≡ some l.value)) ⊎ ((¬ IsInt l) × (to_int l ≡ none))
unfolding to_int
to_int_lem l = elim (Option-cases (to_int l)) [
  | inl e ↦ inr (λ h. ground arith, e)
  | inr (v, e) ↦ inl (ground arith, ground arith)
]
