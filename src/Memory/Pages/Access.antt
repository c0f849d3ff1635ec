-- ===== src/Memory/Pages/Access.antt =====
-- What `check` of MMU/mmu_functions.c answers, and what it changes.
use mathlib.Core.Path.{subst, fun_ext}
use cpu_scheduler.Base.{
  sym, ℕ, ◌<◌, ◌≡◌, ◌≢◌, refl, ◌∙◌, inl, inr, true, false, none, some, arith, ℤ, pos, ltb,
  Bool-cases, if◌then◌else◌,
}
use cpu_scheduler.Types.{Pcb, PcbPtr, PageTable, Frame}
use cpu_scheduler.Run.{ok, fault}
use cpu_scheduler.Memory.State.{
  Memory, mem_size, set_frame, set_entry, load, read_frame, update_entry, update_entry_at,
  update_frame,
}
use cpu_scheduler.Memory.Pages.{CheckResult, invalid, absent, present, is_write, touch, check}
use cpu_scheduler.Memory.Pages.Lookup.{SameProcesses, home, home-same}
use cpu_scheduler.Memory.Mapping.{Maps, IsMapped, HasTable}
use cpu_scheduler.Memory.Mapping.Layout.{
  SameEntries, SameEntries-refl, SameFrame-trans, set_frame-SameLayout, SameLayout, SameFrame,
  SameLayout-IsMapped,
}

-- `check` up to the test of the limit.
pub check-touch :
    (m : Memory) (p : PcbPtr) (c : Pcb) (t : ℕ) (T : PageTable) (v op : ℕ)
    → m.pcbs p ≡ some c
    → c.frame_index ≡ pos t
    → t < mem_size
    → (m.ram t).pte ≡ some T
    → c.limit ≡ pos T.len
    → check p (pos v) op m ≡ (if ltb T.len v then ok invalid m else touch (pos t) T (pos v) op m)
unfolding check load read_frame
check-touch m p c t T v op h f lt e l = ground arith

pub touch-past : (m : Memory) (f : ℤ) (T : PageTable) (op : ℕ) → touch f T (pos T.len) op m ≡ fault
unfolding touch
touch-past m f T op = ground arith

pub touch-absent :
    (m : Memory) (f : ℤ) (T : PageTable) (v op : ℕ)
    → v < T.len
    → (T.entry v).valid ≡ false
    → touch f T (pos v) op m ≡ ok absent m
unfolding touch
touch-absent m f T v op h e = ground arith

abbrev pub touched_table : PageTable → (v op : ℕ) → PageTable
touched_table T v op =
    let e = T.entry v in
    set_entry T v (record e { r = true; m = if is_write op then true else e.m })

abbrev pub touched_frame : (op : ℕ) → Frame → Frame
touched_frame op f = record f { r = true; m = if is_write op then true else f.m }

abbrev pub touched_tables : (ℕ → Frame) → (t : ℕ) → PageTable → (v op : ℕ) → ℕ → Frame
touched_tables ram t T v op = set_frame ram t (record (ram t) { pte = some (touched_table T v op) })

-- The frames behind an access to page `v` of table `T` in frame `t`, which stands in frame `i`.
abbrev pub touched_ram : (ℕ → Frame) → (t : ℕ) → PageTable → (v i op : ℕ) → ℕ → Frame
touched_ram ram t T v i op =
    set_frame (touched_tables ram t T v op) i (touched_frame op (touched_tables ram t T v op i))

touch-present :
    (m : Memory) (t : ℕ) (T : PageTable) (v op i : ℕ)
    → Maps m.ram t T v i
    → i < mem_size
    → touch (pos t) T (pos v) op m ≡ ok present (record m { ram = touched_ram m.ram t T v i op })
unfolding touch update_entry update_entry_at update_frame
touch-present m t T v op i a li = ground (arith, a.table, a.valid, a.address, a.in_table, a.in_ram)

-- Frame `i`, which holds page `v` of the table in frame `t`, shows the access, and so does the entry;
-- a write marks both as modified.
abbrev pub Shows : (ram ram' : ℕ → Frame) → (t v i op : ℕ) → PageTable → Type 0
Shows ram ram' t v i op T =
    ((ram' i).r ≡ true)
    × ((ram' i).m ≡ (if is_write op then true else (ram i).m))
    × ((U : PageTable) × Maps ram' t U v i
        × ((U.entry v).r ≡ true)
        × ((U.entry v).m ≡ (if is_write op then true else (T.entry v).m)))

-- What each answer of `check` says of page `v`, for the memory before and behind it.
abbrev pub Answer : (m m' : Memory) → (t : ℕ) → PageTable → (v op : ℕ) → CheckResult → Type 0
Answer m m' t T v op invalid = (T.len < v) × (m' ≡ m)
Answer m m' t T v op absent = (v < T.len) × ((T.entry v).valid ≡ false) × (m' ≡ m)
Answer m m' t T v op present =
    (v < T.len)
    × SameProcesses m m'
    × IsMapped (home m') m'.ram mem_size
    × ((i : ℕ) × Maps m.ram t T v i × Shows m.ram m'.ram t v i op T)

touched-SameEntries :
    (T : PageTable) (v op : ℕ) → SameEntries (some T) (some (touched_table T v op))
unfolding set_entry
touched-SameEntries T v op = (refl, λ w. (ground arith, ground arith))

touched_frame-SameFrame : (op : ℕ) (f : Frame) → SameFrame f (touched_frame op f)
touched_frame-SameFrame op f = record {
  occupied = refl;
  owner = refl;
  page = refl;
  entries = SameEntries-refl f.pte;
}

touched-SameLayout :
    (ram : ℕ → Frame) (t : ℕ) (T : PageTable) (v i op : ℕ)
    → (ram t).pte ≡ some T
    → SameLayout ram (touched_ram ram t T v i op)
touched-SameLayout ram t T v i op e j =
    SameFrame-trans
      (set_frame-SameLayout ram t (record (ram t) { pte = some (touched_table T v op) })
        (record {
          occupied = refl;
          owner = refl;
          page = refl;
          entries = rw e (touched-SameEntries T v op);
        })
        j)
      (set_frame-SameLayout (touched_tables ram t T v op) i
        (touched_frame op (touched_tables ram t T v op i))
        (touched_frame-SameFrame op (touched_tables ram t T v op i)) j)

apart_frames :
    {ram : ℕ → Frame} {t v i : ℕ} {T : PageTable} → Maps ram t T v i → (ram i).pte ≡ none → t ≢ i
apart_frames a e x = ground (arith, a.table)

touched-Shows :
    (ram : ℕ → Frame) (t : ℕ) (T : PageTable) (v i op : ℕ)
    → Maps ram t T v i
    → (ram i).pte ≡ none
    → Shows ram (touched_ram ram t T v i op) t v i op T
unfolding set_frame set_entry
touched-Shows ram t T v i op a e = (
  ground arith,
  ground (arith, a.table),
  (
    touched_table T v op,
    record {
      in_ram = a.in_ram;
      table = ground (arith, a.table, apart_frames a e);
      in_table = a.in_table;
      valid = ground (arith, a.valid);
      address = ground (arith, a.address);
    },
    ground arith,
    ground arith,
  ),
)

module _ (m : Memory) (p : PcbPtr) (c : Pcb) (t : ℕ) (T : PageTable) {id : ℤ}
    (f : c.frame_index ≡ pos t) (l : c.limit ≡ pos T.len) (h : m.pcbs p ≡ some c)
    (has : HasTable m.ram t T id) (fit : IsMapped (home m) m.ram mem_size) (v op : ℕ) where
  check-at :
      check p (pos v) op m ≡ (if ltb T.len v then ok invalid m else touch (pos t) T (pos v) op m)
  check-at = check-touch m p c t T v op h f has.in_ram has.table l

  Answered : Type 0
  Answered =
      (r : CheckResult) × (m' : Memory) × (check p (pos v) op m ≡ ok r m') × Answer m m' t T v op r

  check-present : v < T.len → (T.entry v).valid ≡ true → Answered
  unfolding Answered
  check-present lv e =
      let b = fit.backed t T v has.in_ram has.table lv e in
      let ram' = touched_ram m.ram t T v b.frame op in
      let m' : Memory = record m { ram = ram' } in
      let fit' = SameLayout-IsMapped (touched-SameLayout m.ram t T v b.frame op has.table) fit in
      let s : SameProcesses m m' = record { curr = refl; all = refl; keys = λ q. refl } in
      (
        present,
        m',
        check-at ∙ ground (arith, touch-present m t T v op b.frame b.maps b.holds.in_ram),
        (
          lv,
          s,
          subst (λ g. IsMapped g ram' mem_size) (sym (fun_ext (home-same m m' s))) fit',
          (b.frame, b.maps, touched-Shows m.ram t T v b.frame op b.maps b.holds.no_table),
        ),
      )

  check-absent : v < T.len → (T.entry v).valid ≡ false → Answered
  unfolding Answered
  check-absent lv e =
      (absent, m, check-at ∙ ground (arith, touch-absent m (pos t) T v op lv e), (lv, e, refl))

  check-invalid : T.len < v → Answered
  unfolding Answered
  check-invalid gt' = (invalid, m, check-at ∙ ground arith, (gt', refl))

  -- `check` on any page number but the limit itself has no undefined behaviour, when tables and
  -- frames agree and the limit is the length of the table: it answers -1 for a page over the limit
  -- and 0 for an entry that is not valid, and changes nothing then; for a valid entry it answers 1,
  -- sets the reference bit, and on a write the modified bit, of the entry and of the frame that
  -- holds the page, and tables and frames agree again.
  pub check-Answer :
      v ≢ T.len
      → (r : CheckResult) × (m' : Memory) × (check p (pos v) op m ≡ ok r m')
        × Answer m m' t T v op r
  unfolding Answered
  check-Answer d = elim (Bool-cases (ltb T.len v)) [
    | inl x ↦ check-invalid (ground arith)
    | inr x ↦
        let lv : v < T.len = ground arith in
        elim (Bool-cases (T.entry v).valid) [
          | inl e ↦ check-present lv e
          | inr e ↦ check-absent lv e
        ]
  ]
