-- ===== src/Run.antt =====
-- Calls that read and write a state of type S. A call ends with a value, or meets undefined
-- behaviour (a null or dangling pointer, an index outside an array), or ends the program by `exit`.
pub mod Ends
pub mod Leads
use cpu_scheduler.Base.{Bool, Option, none, some, if◌then◌else◌}

pub data Run (S A : Type 0) : Type 0 where
  ok : A → S → Run S A
  fault : Run S A
  exits : Run S A

abbrev pub Cmd : Type 0 → Type 0 → Type 0
Cmd S A = S → Run S A

module _ {S A : Type 0} where
  abbrev pub pure : A → Cmd S A
  pure a s = ok a s

  abbrev pub and_then : {B : Type 0} → Run S A → (A → Cmd S B) → Run S B
  and_then (ok a s) k = k a s
  and_then fault k = fault
  and_then exits k = exits

  infixl 5 ◌>>=◌ ◌>>◌
  abbrev pub ◌>>=◌ : {B : Type 0} → Cmd S A → (A → Cmd S B) → Cmd S B
  m >>= k = λ s. and_then (m s) k

  abbrev pub ◌>>◌ : {B : Type 0} → Cmd S A → Cmd S B → Cmd S B
  m >> k = m >>= λ _. k

  -- A pointer that must not be null.
  abbrev pub need : Option A → Cmd S A
  need none s = fault
  need (some a) s = ok a s

  abbrev pub gets : (S → A) → Cmd S A
  gets f s = ok (f s) s

module _ {S : Type 0} where
  abbrev pub done : Cmd S (Unit {0})
  done s = ok tt s

  abbrev pub modify : (S → S) → Cmd S (Unit {0})
  modify f s = ok tt (f s)

  -- `if (test) body`
  abbrev pub when : Bool → Cmd S (Unit {0}) → Cmd S (Unit {0})
  when b body s = if b then body s else ok tt s
