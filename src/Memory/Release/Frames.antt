-- ===== src/Memory/Release/Frames.antt =====
-- Which frames `freePageTable` of MMU/mmu_functions.c releases.
use mathlib.Core.Path.{fun_ext}
use cpu_scheduler.Base.{
  ℕ, zero, suc, ◌<◌, ◌≡◌, ◌≢◌, sym, ap, ◌∙◌, inl, inr, true, false, ◌&&◌, Option, none, some, arith,
  ℤ, pos, eqb_ℤ, ltb, Bool-cases, if◌then◌else◌,
}
use cpu_scheduler.Types.{Pcb, PcbPtr, PageTable, Frame}
use cpu_scheduler.Run.{ok, done}
use cpu_scheduler.Memory.State.{Memory, mem_size, load, set_frame, update_frame}
use cpu_scheduler.Memory.Release.{released, release_below, free_page_table}
use cpu_scheduler.Memory.Pages.Lookup.{home}
use cpu_scheduler.Memory.Mapping.{Maps, Holds, HasTable, Backed, Resident, IsMapped}

-- The frames below the bound that belong to process `id` are released.
abbrev pub released_below : ℕ → ℤ → (ℕ → Frame) → ℕ → Frame
released_below n id ram j =
    if ltb j n && eqb_ℤ (ram j).process_id id then released (ram j) else ram j

-- The frames behind the end of process `id`.
abbrev pub freed : ℤ → (ℕ → Frame) → ℕ → Frame
freed id ram = released_below mem_size id ram

released_below-at : (n : ℕ) (id : ℤ) (ram : ℕ → Frame) → released_below n id ram n ≡ ram n
released_below-at n id ram = ground arith

release_step :
    (n : ℕ) (id : ℤ) (ram : ℕ → Frame)
    → (if eqb_ℤ (released_below n id ram n).process_id id
        then set_frame (released_below n id ram) n (released (released_below n id ram n))
        else released_below n id ram)
      ≡ released_below (suc n) id ram
unfolding set_frame
release_step n id ram = elim (Bool-cases (eqb_ℤ (ram n).process_id id)) [
  | inl e ↦ rw (released_below-at n id ram, e) (fun_ext (λ j. ground arith))
  | inr e ↦ rw (released_below-at n id ram, e) (fun_ext (λ j. ground arith))
]

release_below-released :
    (n : ℕ) (id : ℤ) (ram : ℕ → Frame) → release_below n id ram ≡ released_below n id ram
unfolding release_below
release_below-released zero id ram = fun_ext (λ j. ground arith)
release_below-released (suc n) id ram = rw (release_below-released n id ram) (release_step n id ram)

free_page_table-run :
    (m : Memory) (p : PcbPtr) (c : Pcb) (i : ℕ)
    → m.pcbs p ≡ some c
    → c.frame_index ≡ pos i
    → i < mem_size
    → free_page_table p m
      ≡ ok tt
          (record m { ram = release_below mem_size c.id (set_frame m.ram i (released (m.ram i))) })
unfolding free_page_table load update_frame
free_page_table-run m p c i h f l = ground (arith, h, f)

freed-table :
    (ram : ℕ → Frame) (i : ℕ) (id : ℤ)
    → (ram i).process_id ≡ id
    → i < mem_size
    → freed id (set_frame ram i (released (ram i))) ≡ freed id ram
unfolding set_frame
freed-table ram i id e l = fun_ext (λ j. ground (arith, e))

-- The homes of the other processes.
abbrev pub other_homes : (ℤ → Option ℕ) → ℤ → ℤ → Option ℕ
other_homes home id a = if eqb_ℤ a id then none else home a

other_homes-some :
    (home : ℤ → Option ℕ) (id a : ℤ) {t : ℕ}
    → other_homes home id a ≡ some t
    → (home a ≡ some t) × (eqb_ℤ a id ≡ false)
other_homes-some home id a e = elim (Bool-cases (eqb_ℤ a id)) [
  | inl x ↦ absurd (ground arith)
  | inr x ↦ (ground arith, x)
]

module _ {home : ℤ → Option ℕ} {ram : ℕ → Frame} (id : ℤ) (fit : IsMapped home ram mem_size) where
  -- A frame that still holds something belongs to another process and is as it was.
  freed_kept :
      (j : ℕ)
      → j < mem_size
      → (freed id ram j).occupied ≡ true
      → (freed id ram j ≡ ram j) × (eqb_ℤ (ram j).process_id id ≡ false)
  freed_kept j l o = elim (Bool-cases (eqb_ℤ (ram j).process_id id)) [
    | inl e ↦ absurd (ground arith)
    | inr e ↦ (ground arith, e)
  ]

  freed_other : (j : ℕ) → eqb_ℤ (ram j).process_id id ≡ false → freed id ram j ≡ ram j
  freed_other j e = ground arith

  freed_with_table :
      (j : ℕ) {T : PageTable}
      → j < mem_size
      → (freed id ram j).pte ≡ some T
      → (freed id ram j ≡ ram j) × (eqb_ℤ (ram j).process_id id ≡ false)
  freed_with_table j l o = elim (Bool-cases (eqb_ℤ (ram j).process_id id)) [
    | inl e ↦ absurd (ground arith)
    | inr e ↦ (ground arith, e)
  ]

  freed-HasTable :
      {t : ℕ} {T : PageTable} {a : ℤ}
      → HasTable ram t T a
      → eqb_ℤ a id ≡ false
      → HasTable (freed id ram) t T a
  freed-HasTable {t} h e =
      let k = freed_other t (ap (λ a. eqb_ℤ a id) h.owner ∙ e) in
      record {
        in_ram = h.in_ram;
        table = ap (λ f. f.pte) k ∙ h.table;
        occupied = ap (λ f. f.occupied) k ∙ h.occupied;
        owner = ap (λ f. f.process_id) k ∙ h.owner;
      }

  freed-Holds :
      {i v : ℕ} {a : ℤ} → Holds ram i a v → eqb_ℤ a id ≡ false → Holds (freed id ram) i a v
  freed-Holds {i} h e =
      let k = freed_other i (ap (λ a. eqb_ℤ a id) h.owner ∙ e) in
      record {
        in_ram = h.in_ram;
        occupied = ap (λ f. f.occupied) k ∙ h.occupied;
        no_table = ap (λ f. f.pte) k ∙ h.no_table;
        page = ap (λ f. f.vpage) k ∙ h.page;
        owner = ap (λ f. f.process_id) k ∙ h.owner;
      }

  freed-Maps :
      {t v i : ℕ} {T : PageTable}
      → Maps ram t T v i
      → freed id ram t ≡ ram t
      → Maps (freed id ram) t T v i
  freed-Maps m k = record {
    in_ram = m.in_ram;
    table = ap (λ f. f.pte) k ∙ m.table;
    in_table = m.in_table;
    valid = m.valid;
    address = m.address;
  }

  freed-Backed :
      (t : ℕ) (T : PageTable) (v : ℕ)
      → t < mem_size
      → (freed id ram t).pte ≡ some T
      → v < T.len
      → (T.entry v).valid ≡ true
      → Backed (freed id ram) t T v mem_size
  freed-Backed t T v lt e lv x =
      let (k, n) = freed_with_table t lt e in
      let b = fit.backed t T v lt (sym (ap (λ f. f.pte) k) ∙ e) lv x in
      record {
        frame = b.frame;
        maps = freed-Maps b.maps k;
        holds = rw k (freed-Holds b.holds n);
        not_gap = b.not_gap;
      }

  freed-Resident :
      (i : ℕ)
      → i < mem_size
      → i ≢ mem_size
      → (freed id ram i).occupied ≡ true
      → (freed id ram i).pte ≡ none
      → Resident (other_homes home id) (freed id ram) i
  freed-Resident i lt g o e =
      let (k, n) = freed_kept i lt o in
      let r =
        fit.resident i lt g (sym (ap (λ f. f.occupied) k) ∙ o) (sym (ap (λ f. f.pte) k) ∙ e) in
      let m = freed_other r.table_frame (ap (λ a. eqb_ℤ a id) (sym r.holds.owner) ∙ n) in
      record {
        table_frame = r.table_frame;
        table = r.table;
        slot = r.slot;
        at_home = rw (k, n) r.at_home;
        maps = freed-Maps r.maps m;
        holds = rw m (freed-Holds r.holds (ap (λ a. eqb_ℤ a id) (sym r.holds.owner) ∙ n));
      }

  freed-IsMapped : IsMapped (other_homes home id) (freed id ram) mem_size
  freed-IsMapped = record {
    tables = λ t T lt e.
        let (k, n) = freed_with_table t lt e in
        let (h, at) = fit.tables t T lt (sym (ap (λ f. f.pte) k) ∙ e) in
        (rw k (freed-HasTable h n), rw (k, n) at);
    homes = λ a t e.
        let (at, n) = other_homes-some home id a e in
        let (T, h) = fit.homes a t at in (T, freed-HasTable h n);
    backed = freed-Backed;
    resident = freed-Resident;
  }

-- When tables and frames agree, the end of a process with a page table ends with no undefined
-- behaviour, releases exactly the frames that belong to its id (its table and its pages), leaves
-- every other frame as it was, and tables and frames of the other processes agree behind it.
pub free_page_table_lem :
    (m : Memory) (p : PcbPtr) (c : Pcb) (i : ℕ) (T : PageTable)
    → m.pcbs p ≡ some c
    → c.frame_index ≡ pos i
    → HasTable m.ram i T c.id
    → IsMapped (home m) m.ram mem_size
    → (free_page_table p m ≡ ok tt (record m { ram = freed c.id m.ram }))
      × IsMapped (other_homes (home m) c.id) (freed c.id m.ram) mem_size
free_page_table_lem m p c i T h f has fit = (
  free_page_table-run m p c i h f has.in_ram
      ∙ ap (λ ram. done (record m { ram = ram }))
          (release_below-released mem_size c.id (set_frame m.ram i (released (m.ram i)))
            ∙ freed-table m.ram i c.id has.owner has.in_ram),
  freed-IsMapped c.id fit,
)
