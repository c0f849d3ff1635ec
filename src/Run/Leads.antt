-- ===== src/Run/Leads.antt =====
-- Commands whose ends are related to their starts, one rule for each way to build a command.
use cpu_scheduler.Base.{Bool, true, false, Option, none, some, if◌then◌else◌}
use cpu_scheduler.Run.{Run, ok, fault, exits, Cmd, and_then, pure, ◌>>=◌, need, gets, when, done}
use cpu_scheduler.Run.Ends.{Ends, Ends-and_then}

-- Every end of `m` is related to where it began.
pub record Leads {S A : Type 0} (R : S → S → Type 0) (m : Cmd S A) : Type 0 where
  pub at : (s : S) → Ends (m s) (λ _ t. R s t)

-- A relation that holds over any number of commands.
pub record IsRoute {S : Type 0} (R : S → S → Type 0) : Type 0 where
  pub here : (s : S) → R s s
  pub on : (s t u : S) → R s t → R t u → R s u

module _ {S A : Type 0} {R : S → S → Type 0} (route : IsRoute R) where
  pub Leads-pure : (a : A) → Leads R (pure {S = S} a)
  Leads-pure a = record { at = λ s. route.here s }

  pub Leads-gets : (f : S → A) → Leads R (gets f)
  Leads-gets f = record { at = λ s. route.here s }

  pub Leads-need : (o : Option A) → Leads R (need {S = S} o)
  Leads-need none = record { at = λ s. tt }
  Leads-need (some a) = record { at = λ s. route.here s }

  pub Leads-bind :
      {B : Type 0} (m : Cmd S A) (f : A → Cmd S B)
      → Leads R m
      → ((a : A) → Leads R (f a))
      → Leads R (m >>= f)
  Leads-bind m f km kf = record {
    at = λ s.
        Ends-and_then (λ _ t. R s t) (λ _ u. R s u) (m s) f (km.at s)
          (λ a t h. onward s t (f a t) h ((kf a).at t));
  }
    where
      onward :
          {B : Type 0} (s t : S) (r : Run S B)
          → R s t
          → Ends r (λ _ u. R t u)
          → Ends r (λ _ u. R s u)
      onward s t (ok b u) h k = route.on s t u h k
      onward s t fault h k = tt
      onward s t exits h k = tt

module _ {S A : Type 0} {R : S → S → Type 0} (route : IsRoute R) where
  -- The last command, from `t` on.
  pub last_on : (s t : S) (r : Run S A) → R s t → Ends r (λ _ u. R t u) → Ends r (λ _ u. R s u)
  last_on s t (ok a u) h k = route.on s t u h k
  last_on s t fault h k = tt
  last_on s t exits h k = tt

  -- A command from `t` on, with others behind it.
  pub then_on :
      {B : Type 0} (s t : S) (r : Run S A) (k : A → S → Run S B)
      → R s t
      → Ends r (λ _ u. R t u)
      → ((a : A) (u : S) → R s u → Ends (k a u) (λ _ v. R s v))
      → Ends (and_then r k) (λ _ v. R s v)
  then_on s t r k h e next =
      Ends-and_then (λ _ u. R s u) (λ _ v. R s v) r k (last_on s t r h e) next

module _ {S A : Type 0} {R : S → S → Type 0} where
  pub Leads-if : (b : Bool) (m n : Cmd S A) → Leads R m → Leads R n → Leads R (if b then m else n)
  Leads-if true m n km kn = km
  Leads-if false m n km kn = kn

  pub Leads-option :
      {B : Type 0} (o : Option B) (m : Cmd S A) (f : B → Cmd S A)
      → Leads R m
      → ((b : B) → Leads R (f b))
      → Leads R (elim o [ none ↦ m | some b ↦ f b ])
  Leads-option none m f km kf = km
  Leads-option (some b) m f km kf = kf b

module _ {S : Type 0} {R : S → S → Type 0} (route : IsRoute R) where
  pub Leads-done : Leads R (done {S = S})
  Leads-done = record { at = λ s. route.here s }

  pub Leads-when : (b : Bool) (m : Cmd S (Unit {0})) → Leads R m → Leads R (when b m)
  Leads-when true m k = record { at = λ s. k.at s }
  Leads-when false m k = record { at = λ s. route.here s }

pub ruleset leads_rules =
    (Leads-pure, Leads-gets, Leads-need, Leads-bind, Leads-if, Leads-option, Leads-done, Leads-when)
