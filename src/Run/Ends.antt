-- ===== src/Run/Ends.antt =====
-- What holds when a call comes to its end: a call that faults or exits meets every statement.
use mathlib.Core.Path.{subst}
use cpu_scheduler.Base.{◌≡◌, refl, Bool, true, false, if◌then◌else◌}
use cpu_scheduler.Run.{Run, Cmd, ok, fault, exits, and_then}

abbrev pub Ends : {S A : Type 0} → Run S A → (A → S → Type 0) → Type 0
Ends (ok a s) P = P a s
Ends fault P = Unit
Ends exits P = Unit

module _ {S A : Type 0} where
  pub Ends-ok : (P : A → S → Type 0) (r : Run S A) (a : A) (s : S) → Ends r P → r ≡ ok a s → P a s
  Ends-ok P r a s h e = subst (λ t. Ends t P) e h

  pub Ends-and_then :
      {B : Type 0} (P : A → S → Type 0) (Q : B → S → Type 0) (r : Run S A) (k : A → S → Run S B)
      → Ends r P
      → ((a : A) (s : S) → P a s → Ends (k a s) Q)
      → Ends (and_then r k) Q
  Ends-and_then P Q (ok a s) k h next = next a s h
  Ends-and_then P Q fault k h next = tt
  Ends-and_then P Q exits k h next = tt

  pub Ends-if :
      (Q : A → S → Type 0) (b : Bool) (r t : Run S A)
      → (b ≡ true → Ends r Q)
      → (b ≡ false → Ends t Q)
      → Ends (if b then r else t) Q
  Ends-if Q true r t on off = on refl
  Ends-if Q false r t on off = off refl

  pub Ends-weaken :
      (P Q : A → S → Type 0) (r : Run S A) → Ends r P → ((a : A) (s : S) → P a s → Q a s) → Ends r Q
  Ends-weaken P Q (ok a s) h w = w a s h
  Ends-weaken P Q fault h w = tt
  Ends-weaken P Q exits h w = tt

  pub Ends-either :
      (Q : A → S → Type 0) (b : Bool) (r t : Run S A)
      → Ends r Q
      → Ends t Q
      → Ends (if b then r else t) Q
  Ends-either Q true r t h k = h
  Ends-either Q false r t h k = k

  pub Ends-choice :
      (Q : A → S → Type 0) (b : Bool) (f g : Cmd S A) (s : S)
      → Ends (f s) Q
      → Ends (g s) Q
      → Ends ((if b then f else g) s) Q
  Ends-choice Q true f g s h k = h
  Ends-choice Q false f g s h k = k
