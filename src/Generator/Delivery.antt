-- ===== src/Generator/Delivery.antt =====
-- What process_generator/process_generator.c sends, and when.
use mathlib.Core.Path.{subst}
use cpu_scheduler.Base.{
  ℕ, ◌≡◌, refl, sym, ap, inl, inr, ◌-◌, List, [], ◌∷◌, ◌++◌, arith, ℤ, pos, ◌≤ℤ◌, ◌<ℤ◌, leb_ℤ,
  leb_ℤ→le, leb_ℤ→gt, eqb_ℤ, Bool-cases, All, if◌then◌else◌,
}
use cpu_scheduler.Types.{ProcessData}
use cpu_scheduler.Generator.Sending.{send_due}

-- The processes of a stream of messages, in order.
abbrev pub processes : List ProcessData → List ProcessData
processes [] = []
processes (d ∷ rest) = if eqb_ℤ d.mtype (pos 1) then d ∷ processes rest else processes rest

abbrev pub IsProcess : ProcessData → Type 0
IsProcess d = d.mtype ≡ pos 1

abbrev pub HasArrived : ℤ → ProcessData → Type 0
HasArrived now d = d.arrival ≤ℤ now

abbrev pub IsLater : ℤ → ProcessData → Type 0
IsLater now d = now <ℤ d.arrival

-- Arrivals do not fall.
abbrev pub IsSorted : List ProcessData → Type 0
IsSorted [] = Unit
IsSorted (p ∷ rest) = All (λ q. p.arrival ≤ℤ q.arrival) rest × IsSorted rest

IsLater-All :
    (now a : ℤ) (ps : List ProcessData)
    → now <ℤ a
    → All (λ q. a ≤ℤ q.arrival) ps
    → All (IsLater now) ps
IsLater-All now a [] l h = tt
IsLater-All now a (p ∷ ps) l h = (omega arith, IsLater-All now a ps l h.1)

-- The inner loop splits the queue in two parts that make it up.
pub send_due-split :
    (now : ℤ) (ps : List ProcessData) (n : ℕ)
    → (send_due now ps n).0 ++ (send_due now ps n).1.items ≡ ps
unfolding send_due
send_due-split now [] n = refl
send_due-split now (p ∷ ps) n = elim (Bool-cases (leb_ℤ p.arrival now)) [
  | inl e ↦ rw e (ap (λ r. p ∷ r) (send_due-split now ps (n - 1)))
  | inr e ↦ rw e refl
]

pub send_due-HasArrived :
    (now : ℤ) (ps : List ProcessData) (n : ℕ) → All (HasArrived now) (send_due now ps n).0
unfolding send_due
send_due-HasArrived now [] n = tt
send_due-HasArrived now (p ∷ ps) n = elim (Bool-cases (leb_ℤ p.arrival now)) [
  | inl e ↦ rw e (leb_ℤ→le p.arrival now e, send_due-HasArrived now ps (n - 1))
  | inr e ↦ rw e tt
]

pub send_due-IsLater :
    (now : ℤ) (ps : List ProcessData) (n : ℕ)
    → IsSorted ps
    → All (IsLater now) (send_due now ps n).1.items
unfolding send_due
send_due-IsLater now [] n h = tt
send_due-IsLater now (p ∷ ps) n h = elim (Bool-cases (leb_ℤ p.arrival now)) [
  | inl e ↦ rw e (send_due-IsLater now ps (n - 1) h.1)
  | inr e ↦ let l = leb_ℤ→gt p.arrival now e in rw e (l, IsLater-All now p.arrival ps l h.0)
]

-- The front of the queue is later than this time.
abbrev pub FrontLater : ℤ → List ProcessData → Type 0
FrontLater now [] = Unit
FrontLater now (p ∷ rest) = now <ℤ p.arrival

pub send_due-FrontLater :
    (now : ℤ) (ps : List ProcessData) (n : ℕ) → FrontLater now (send_due now ps n).1.items
unfolding send_due
send_due-FrontLater now [] n = tt
send_due-FrontLater now (p ∷ ps) n = elim (Bool-cases (leb_ℤ p.arrival now)) [
  | inl e ↦ rw e (send_due-FrontLater now ps (n - 1))
  | inr e ↦ rw e (leb_ℤ→gt p.arrival now e)
]

pub send_due-all :
    (now : ℤ) (ps : List ProcessData) (n : ℕ)
    → All (HasArrived now) ps
    → (send_due now ps n).1.items ≡ []
unfolding send_due
send_due-all now [] n h = refl
send_due-all now (p ∷ ps) n h = ground (arith, send_due-all now ps (n - 1) h.1)

All-prefix {κ} :
    (Q : ProcessData → Type κ) (xs ys : List ProcessData) → All Q (xs ++ ys) → All Q xs × All Q ys
All-prefix Q [] ys h = (tt, h)
All-prefix Q (x ∷ xs) ys h = let k = All-prefix Q xs ys h.1 in ((h.0, k.0), k.1)

-- The two parts keep what all of the queue have.
pub send_due-All {κ} :
    (Q : ProcessData → Type κ) (now : ℤ) (ps : List ProcessData) (n : ℕ)
    → All Q ps
    → All Q (send_due now ps n).0 × All Q (send_due now ps n).1.items
send_due-All Q now ps n h =
    All-prefix Q (send_due now ps n).0 (send_due now ps n).1.items
      (subst (All Q) (sym (send_due-split now ps n)) h)

pub processes-append :
    (xs ys : List ProcessData) → processes (xs ++ ys) ≡ processes xs ++ processes ys
processes-append [] ys = refl
processes-append (x ∷ xs) ys = elim (Bool-cases (eqb_ℤ x.mtype (pos 1))) [
  | inl e ↦ rw e (ap (λ r. x ∷ r) (processes-append xs ys))
  | inr e ↦ rw e (processes-append xs ys)
]

pub processes-all : (xs : List ProcessData) → All IsProcess xs → processes xs ≡ xs
processes-all [] h = refl
processes-all (x ∷ xs) h =
    rw (ap (λ m. eqb_ℤ m (pos 1)) h.0) (ap (λ r. x ∷ r) (processes-all xs h.1))
