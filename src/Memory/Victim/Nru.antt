-- ===== src/Memory/Victim/Nru.antt =====
-- The frame that `fault_handler` of MMU/mmu_functions.c settles on, against the rule of not recently
-- used: the lowest class 2R + M first.
use mathlib.Core.Path.{subst}
use cpu_scheduler.Base.{
  ℕ, zero, suc, ◌+◌, ◌≤◌, ◌<◌, ◌≡◌, refl, sym, ◌⊎◌, inl, inr, true, false, Option, none, some,
  arith, ltb, Bool-cases,
}
use cpu_scheduler.Types.{Frame}
use cpu_scheduler.Memory.State.{mem_size}
use cpu_scheduler.Memory.Victim.{
  nru_class, is_pinned, Choice, free_frame, victim_frame, no_frame, scan, choose_frame,
}

module _ (ram : ℕ → Frame) where
  abbrev pub OccupiedBelow : ℕ → Type 0
  OccupiedBelow n = (j : ℕ) → j < n → (ram j).occupied ≡ true

  -- What each outcome of the loop means for the frames.
  abbrev pub IsNruChoice : Choice → Type 0
  IsNruChoice (free_frame i) = (i < mem_size) × ((ram i).occupied ≡ false) × OccupiedBelow i
  IsNruChoice (victim_frame i) =
      (i < mem_size)
      × OccupiedBelow mem_size
      × (is_pinned (ram i) ≡ false)
      × ((j : ℕ) → j < mem_size → is_pinned (ram j) ≡ false → nru_class (ram i) ≤ nru_class (ram j))
      × ((j : ℕ) → j < i → is_pinned (ram j) ≡ false → nru_class (ram i) < nru_class (ram j))
  IsNruChoice no_frame =
      OccupiedBelow mem_size × ((j : ℕ) → j < mem_size → is_pinned (ram j) ≡ true)

  -- The loop's invariant before round `i`, for `cls` and `victim_index`.
  abbrev Best : ℕ → ℕ → Option ℕ → Type 0
  Best i cls none = (cls ≡ 4) × ((j : ℕ) → j < i → is_pinned (ram j) ≡ true)
  Best i cls (some v) =
      (v < i)
      × (is_pinned (ram v) ≡ false)
      × (cls ≡ nru_class (ram v))
      × ((j : ℕ) → j < i → is_pinned (ram j) ≡ false → nru_class (ram v) ≤ nru_class (ram j))
      × ((j : ℕ) → j < v → is_pinned (ram j) ≡ false → nru_class (ram v) < nru_class (ram j))

below_suc : (P : ℕ → Type 0) {i : ℕ} → ((j : ℕ) → j < i → P j) → P i → (j : ℕ) → j < suc i → P j
below_suc P {i} h p j lt = elim (split j lt) [ inl l ↦ h j l | inr e ↦ subst P (sym e) p ]
  where
    split : (j : ℕ) → j < suc i → (j < i) ⊎ (j ≡ i)
    split j lt = omega arith

nru_class-lt : (f : Frame) → nru_class f < 4
nru_class-lt f = ground arith

module _ (ram : ℕ → Frame) where
  keep_pinned :
      (i cls : ℕ) (victim : Option ℕ)
      → is_pinned (ram i) ≡ true
      → Best ram i cls victim
      → Best ram (suc i) cls victim
  keep_pinned i cls none p b = (b.0, below_suc _ b.1 p)
  keep_pinned i cls (some v) p b = (omega arith, b.1, b.2, below_suc _ b.3 (λ e. cc), b.4)

  keep_better :
      (i cls : ℕ) (victim : Option ℕ)
      → is_pinned (ram i) ≡ false
      → ltb (nru_class (ram i)) cls ≡ false
      → Best ram i cls victim
      → Best ram (suc i) cls victim
  keep_better i cls none p l b = absurd (ground (arith, nru_class-lt (ram i)))
  keep_better i cls (some v) p l b =
      (omega arith, b.1, b.2, below_suc _ b.3 (λ _. ground arith), b.4)

  take_lower :
      (i cls : ℕ) (victim : Option ℕ)
      → is_pinned (ram i) ≡ false
      → ltb (nru_class (ram i)) cls ≡ true
      → Best ram i cls victim
      → Best ram (suc i) (nru_class (ram i)) (some i)
  take_lower i cls none p l b = (
    omega arith,
    p,
    refl,
    below_suc _ (λ j lt e. absurd (ground (arith, b.1 j lt))) (λ _. omega arith),
    λ j lt e. absurd (ground (arith, b.1 j lt)),
  )
  take_lower i cls (some v) p l b = (
    omega arith,
    p,
    refl,
    below_suc _ (λ j lt e. ground (arith, b.3 j lt e)) (λ _. omega arith),
    λ j lt e. ground (arith, b.3 j lt e),
  )

  at_end-IsNruChoice :
      (cls : ℕ) (victim : Option ℕ)
      → OccupiedBelow ram mem_size
      → Best ram mem_size cls victim
      → IsNruChoice ram (scan ram zero mem_size cls victim)
  unfolding scan
  at_end-IsNruChoice cls none o b = (o, b.1)
  at_end-IsNruChoice cls (some v) o b = (b.0, o, b.1, b.3, b.4)

  scan-IsNruChoice :
      (left i cls : ℕ) (victim : Option ℕ)
      → left + i ≡ mem_size
      → OccupiedBelow ram i
      → Best ram i cls victim
      → IsNruChoice ram (scan ram left i cls victim)
  unfolding scan
  scan-IsNruChoice zero i cls victim e o b =
      let full : i ≡ mem_size = omega arith in
      subst (λ k. IsNruChoice ram (scan ram zero k cls victim)) (sym full)
        (at_end-IsNruChoice cls victim (subst (OccupiedBelow ram) full o)
          (subst (λ k. Best ram k cls victim) full b))
  scan-IsNruChoice (suc left) i cls victim e o b = elim (Bool-cases (ram i).occupied) [
    | inl occ ↦
        let o' : OccupiedBelow ram (suc i) = below_suc _ o occ in
        rw occ (elim (Bool-cases (is_pinned (ram i))) [
          | inl p ↦ rw p (
              scan-IsNruChoice left (suc i) cls victim (omega arith) o'
                (keep_pinned i cls victim p b))
          | inr p ↦ rw p (elim (Bool-cases (ltb (nru_class (ram i)) cls)) [
            | inl l ↦ rw l (
                scan-IsNruChoice left (suc i) (nru_class (ram i)) (some i) (omega arith) o'
                  (take_lower i cls victim p l b))
            | inr l ↦ rw l (
                scan-IsNruChoice left (suc i) cls victim (omega arith) o'
                  (keep_better i cls victim p l b))
          ])
        ])
    | inr vac ↦ rw vac (omega arith, vac, o)
  ]

  -- The loop stops at the first frame that is not occupied, if there is one. Otherwise it names the
  -- first frame of the lowest class among those that hold no page table and are not reserved, and
  -- it names none exactly when all frames hold a table or are reserved.
  pub choose_frame-IsNruChoice : IsNruChoice ram (choose_frame ram)
  unfolding choose_frame
  choose_frame-IsNruChoice =
      scan-IsNruChoice mem_size 0 4 none refl (λ j l. elim l [ ]) (refl, λ j l. elim l [ ])
