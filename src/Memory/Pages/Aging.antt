-- ===== src/Memory/Pages/Aging.antt =====
-- What `clear_recent` of MMU/mmu_functions.c does, as a map over the frames.
use mathlib.Core.Path.{fun_ext, subst}
use cpu_scheduler.Base.{
  ℕ, zero, suc, ◌<◌, ◌≤◌, ◌≡◌, refl, ap, ◌∙◌, inl, inr, true, false, Option, none, some, arith, ℤ,
  pos, ltb, Bool-cases, Option-cases, if◌then◌else◌,
}
use cpu_scheduler.Types.{Pcb, PcbPtr, PageTable, Frame}
use cpu_scheduler.Run.{ok, done, and_then}
use cpu_scheduler.Memory.State.{Memory, mem_size, set_frame, load, update_frame}
use cpu_scheduler.Memory.Pages.{clear_entries, clear_frame, clear_below, clear_recent}
use cpu_scheduler.Memory.Pages.Lookup.{Owner, Owner-same, SameProcesses, home, home-Owner}
use cpu_scheduler.Memory.Mapping.{IsMapped, HasTable}
use cpu_scheduler.Memory.Mapping.Layout.{
  SameLayout, SameEntries, SameFrame, SameFrame-refl, SameLayout-IsMapped,
}

-- A table with no reference bit set.
abbrev pub aged_table : PageTable → PageTable
aged_table T = record T {
  entry = λ v. if ltb v T.len then record (T.entry v) { r = false } else T.entry v;
}

abbrev pub aged_pte : Option PageTable → Option PageTable
aged_pte none = none
aged_pte (some T) = some (aged_table T)

-- An occupied frame loses its reference bit, and a table in it the ones of its entries.
abbrev pub aged : Frame → Frame
aged f = if f.occupied then record f { r = false; pte = aged_pte f.pte } else f

abbrev pub aged_below : ℕ → (ℕ → Frame) → ℕ → Frame
aged_below n ram j = if ltb j n then aged (ram j) else ram j

-- `limit` of every process is the length of its page table.
abbrev pub LimitsAgree : Memory → Type 0
LimitsAgree m =
    (id : ℤ) (p : PcbPtr) (c : Pcb) (t : ℕ) (T : PageTable)
    → Owner m id p c
    → HasTable m.ram t T id
    → c.frame_index ≡ pos t
    → c.limit ≡ pos T.len

clear_frame-free : (i : ℕ) (m : Memory) → (m.ram i).occupied ≡ false → clear_frame i m ≡ ok tt m
unfolding clear_frame
clear_frame-free i m e = ground arith

clear_frame-page :
    (i : ℕ) (m : Memory)
    → i < mem_size
    → (m.ram i).occupied ≡ true
    → (m.ram i).pte ≡ none
    → clear_frame i m ≡ ok tt (record m { ram = set_frame m.ram i (aged (m.ram i)) })
unfolding clear_frame update_frame
clear_frame-page i m h e x = ground arith

set_frame-at : (ram : ℕ → Frame) (i : ℕ) (f : Frame) → set_frame ram i f i ≡ f
unfolding set_frame
set_frame-at ram i f = ground arith

set_frame-twice :
    (ram : ℕ → Frame) (i : ℕ) (f g : Frame) → set_frame (set_frame ram i f) i g ≡ set_frame ram i g
unfolding set_frame
set_frame-twice ram i f g = fun_ext (λ j. ground arith)

-- `m` with the reference bit of frame `i` cleared.
abbrev pub cleared_at : ℕ → Memory → Memory
cleared_at i m = record m { ram = set_frame m.ram i (record (m.ram i) { r = false }) }

cleared_at-Owner :
    (i : ℕ) {m : Memory} {id : ℤ} {p : PcbPtr} {c : Pcb}
    → Owner m id p c
    → Owner (cleared_at i m) id p c
cleared_at-Owner i {c = c} o =
    Owner-same c (record { curr = refl; all = refl; keys = λ p. refl }) o o.holds

clear_frame-table :
    (i : ℕ) (m : Memory) (T : PageTable) {p : PcbPtr} {c : Pcb}
    → i < mem_size
    → (m.ram i).occupied ≡ true
    → (m.ram i).pte ≡ some T
    → Owner m (m.ram i).process_id p c
    → c.limit ≡ pos T.len
    → clear_frame i m ≡ ok tt (record m { ram = set_frame m.ram i (aged (m.ram i)) })
unfolding clear_frame update_frame load clear_entries
clear_frame-table i m T h e x o l =
    let o' = cleared_at-Owner i o in
    let at : set_frame m.ram i (record (m.ram i) { r = false }) i ≡ record (m.ram i) { r = false } =
      set_frame-at m.ram i _ in
    let twice = set_frame-twice m.ram i (record (m.ram i) { r = false }) (aged (m.ram i)) in
    ground (arith, o'.found, o'.holds, at, twice)

aged_below-at : (n : ℕ) (ram : ℕ → Frame) → aged_below n ram n ≡ ram n
aged_below-at n ram = ground arith

-- One more frame is aged.
aged_below-step :
    (n : ℕ) (ram : ℕ → Frame)
    → set_frame (aged_below n ram) n (aged (aged_below n ram n)) ≡ aged_below (suc n) ram
unfolding set_frame
aged_below-step n ram = fun_ext (λ j. ground (arith, aged_below-at n ram))

aged_below-free :
    (n : ℕ) (ram : ℕ → Frame) → (ram n).occupied ≡ false → aged_below n ram ≡ aged_below (suc n) ram
aged_below-free n ram e = fun_ext (λ j. ground arith)

aged_below-none : (ram : ℕ → Frame) → ram ≡ aged_below 0 ram
aged_below-none ram = fun_ext (λ j. ground arith)

module _ (m : Memory) (fit : IsMapped (home m) m.ram mem_size) (limits : LimitsAgree m) where
  -- The memory with the frames below the bound aged.
  abbrev aged_memory : ℕ → Memory
  aged_memory n = record m { ram = aged_below n m.ram }

  aged_same : (n : ℕ) → SameProcesses m (aged_memory n)
  aged_same n = record { curr = refl; all = refl; keys = λ p. refl }

  -- Frame `n` itself is still as it was.
  aged_at : (n : ℕ) → (aged_memory n).ram n ≡ m.ram n
  aged_at n = aged_below-at n m.ram

  aged_next :
      (n : ℕ)
      → done (record m { ram = set_frame (aged_below n m.ram) n (aged (aged_below n m.ram n)) })
        ≡ done (aged_memory (suc n))
  aged_next n = ap (λ ram. ok tt (record m { ram = ram })) (aged_below-step n m.ram)

  aged_page :
      (n : ℕ)
      → n < mem_size
      → (m.ram n).occupied ≡ true
      → (m.ram n).pte ≡ none
      → clear_frame n (aged_memory n) ≡ ok tt (aged_memory (suc n))
  aged_page n h e x =
      clear_frame-page n (aged_memory n) h (ap (λ f. f.occupied) (aged_at n) ∙ e)
        (ap (λ f. f.pte) (aged_at n) ∙ x)
      ∙ aged_next n

  aged_table_at :
      (n : ℕ) {T : PageTable}
      → n < mem_size
      → (m.ram n).occupied ≡ true
      → (m.ram n).pte ≡ some T
      → clear_frame n (aged_memory n) ≡ ok tt (aged_memory (suc n))
  aged_table_at n {T} h e x =
      let (has, at) = fit.tables n T h x in
      let (p, c, o, f) = home-Owner m (m.ram n).process_id at in
      let o' : Owner (aged_memory n) (aged_below n m.ram n).process_id p c =
        rw (aged_at n) (Owner-same c (aged_same n) o o.holds) in
      clear_frame-table n (aged_memory n) T h (ap (λ f. f.occupied) (aged_at n) ∙ e)
        (ap (λ f. f.pte) (aged_at n) ∙ x) o' (limits (m.ram n).process_id p c n T o has f)
      ∙ aged_next n

  aged_free :
      (n : ℕ)
      → (m.ram n).occupied ≡ false
      → clear_frame n (aged_memory n) ≡ ok tt (aged_memory (suc n))
  aged_free n e =
      clear_frame-free n (aged_memory n) (ap (λ f. f.occupied) (aged_at n) ∙ e)
      ∙ ap (λ ram. ok tt (record m { ram = ram })) (aged_below-free n m.ram e)

  clear_frame-aged :
      (n : ℕ) → n < mem_size → clear_frame n (aged_memory n) ≡ ok tt (aged_memory (suc n))
  clear_frame-aged n h = elim (Bool-cases (m.ram n).occupied) [
    | inl e ↦ elim (Option-cases (m.ram n).pte) [
      | inl x ↦ aged_page n h e x
      | inr (T, x) ↦ aged_table_at n h e x
    ]
    | inr e ↦ aged_free n e
  ]

  clear_below-aged : (n : ℕ) → n ≤ mem_size → clear_below n m ≡ ok tt (aged_memory n)
  unfolding clear_below
  clear_below-aged zero h = ap (λ ram. ok tt (record m { ram = ram })) (aged_below-none m.ram)
  clear_below-aged (suc n) h =
      ap (λ r. and_then r (λ _. clear_frame n)) (clear_below-aged n (omega arith))
      ∙ clear_frame-aged n (omega arith)

aged_if_occupied :
    (f : Frame) → f.occupied ≡ true → record f { r = false; pte = aged_pte f.pte } ≡ aged f
aged_if_occupied f e = ground arith

aged_if_free : (f : Frame) → f.occupied ≡ false → f ≡ aged f
aged_if_free f e = ground arith

aged_pte-SameEntries : (t : Option PageTable) → SameEntries t (aged_pte t)
aged_pte-SameEntries none = tt
aged_pte-SameEntries (some T) = (refl, λ v. (ground arith, ground arith))

aged-SameFrame : (f : Frame) → SameFrame f (aged f)
aged-SameFrame f = elim (Bool-cases f.occupied) [
  | inl e ↦
      subst (SameFrame f) (aged_if_occupied f e) (record {
        occupied = refl;
        owner = refl;
        page = refl;
        entries = aged_pte-SameEntries f.pte;
      })
  | inr e ↦ subst (SameFrame f) (aged_if_free f e) (SameFrame-refl f)
]

aged_below-SameLayout : (n : ℕ) (ram : ℕ → Frame) → SameLayout ram (aged_below n ram)
aged_below-SameLayout n ram j = elim (Bool-cases (ltb j n)) [
  | inl e ↦ rw e (aged-SameFrame (ram j))
  | inr e ↦ rw e (SameFrame-refl (ram j))
]

-- When tables and frames agree and every limit is the length of its table, aging ends with no
-- undefined behaviour and does this and no more: every occupied frame loses its reference bit, and
-- a table in it the reference bits of all its entries; tables and frames then agree.
pub clear_recent_lem :
    (m : Memory)
    → IsMapped (home m) m.ram mem_size
    → LimitsAgree m
    → (clear_recent m ≡ ok tt (record m { ram = aged_below mem_size m.ram }))
      × IsMapped (home m) (aged_below mem_size m.ram) mem_size
unfolding clear_recent
clear_recent_lem m fit limits = (
  clear_below-aged m fit limits mem_size (omega arith),
  SameLayout-IsMapped (aged_below-SameLayout mem_size m.ram) fit,
)
