-- ===== src/Memory/Mapping/Layout.antt =====
-- The agreement of tables and frames does not read the reference and modified bits that `check` and
-- `clear_recent` of MMU/mmu_functions.c write.
use mathlib.Core.Path.{subst}
use cpu_scheduler.Base.{
  ◌∙◌, sym, ap, ℕ, ◌<◌, ◌≡◌, refl, true, Option, none, some, arith, ℤ, inl, inr, ◌==◌, Bool-cases,
}
use cpu_scheduler.Types.{PageTable, Frame}
use cpu_scheduler.Memory.State.{mem_size, set_frame}
use cpu_scheduler.Memory.Mapping.{Maps, Holds, HasTable, Backed, Resident, IsMapped}

-- Tables of one length with the same valid entries, at the same frames.
abbrev pub SameEntries : Option PageTable → Option PageTable → Type 0
SameEntries none none = Unit
SameEntries none (some U) = ⊥
SameEntries (some T) none = ⊥
SameEntries (some T) (some U) =
    (U.len ≡ T.len)
    × ((v : ℕ)
        → ((U.entry v).valid ≡ (T.entry v).valid)
          × ((U.entry v).frame_address ≡ (T.entry v).frame_address))

-- Frames that differ in the bits R and M and in `reserved` at most.
pub record SameFrame (f g : Frame) : Type 0 where
  pub occupied : g.occupied ≡ f.occupied
  pub owner : g.process_id ≡ f.process_id
  pub page : g.vpage ≡ f.vpage
  pub entries : SameEntries f.pte g.pte

abbrev pub SameLayout : (ram ram' : ℕ → Frame) → Type 0
SameLayout ram ram' = (j : ℕ) → SameFrame (ram j) (ram' j)

pub SameEntries-refl : (t : Option PageTable) → SameEntries t t
SameEntries-refl none = tt
SameEntries-refl (some T) = (refl, λ v. (refl, refl))

pub SameFrame-refl : (f : Frame) → SameFrame f f
SameFrame-refl f = record {
  occupied = refl;
  owner = refl;
  page = refl;
  entries = SameEntries-refl f.pte;
}

SameEntries-trans : (a b c : Option PageTable) → SameEntries a b → SameEntries b c → SameEntries a c
SameEntries-trans none none none h k = tt
SameEntries-trans (some a) (some b) (some c) (n, h) (m, k) =
    (cc, λ v. (ground (arith, h v, k v), ground (arith, h v, k v)))
SameEntries-trans none (some b) c h k = absurd h
SameEntries-trans (some a) none c h k = absurd h
SameEntries-trans none none (some c) h k = absurd k
SameEntries-trans (some a) (some b) none h k = absurd k

pub SameFrame-trans : {f g h : Frame} → SameFrame f g → SameFrame g h → SameFrame f h
SameFrame-trans {f} {g} {h} a b = record {
  occupied = cc;
  owner = cc;
  page = cc;
  entries = SameEntries-trans f.pte g.pte h.pte a.entries b.entries;
}

-- One frame changes, in its bits only.
pub set_frame-SameLayout :
    (ram : ℕ → Frame) (i : ℕ) (f : Frame) → SameFrame (ram i) f → SameLayout ram (set_frame ram i f)
unfolding set_frame
set_frame-SameLayout ram i f s j = elim (Bool-cases (j == i)) [
  | inl x ↦ let q : j ≡ i = ground arith in rw x (subst (λ k. SameFrame (ram k) f) (sym q) s)
  | inr x ↦ rw x (SameFrame-refl (ram j))
]

entries-forth :
    (T : PageTable) (x y : Option PageTable)
    → SameEntries x y
    → x ≡ some T
    → (U : PageTable) × (y ≡ some U) × SameEntries (some T) (some U)
entries-forth T none y h e = cc
entries-forth T (some W) none h e = absurd h
entries-forth T (some W) (some U) h e = (U, refl, ground arith)

entries-back :
    (U : PageTable) (x y : Option PageTable)
    → SameEntries x y
    → y ≡ some U
    → (T : PageTable) × (x ≡ some T) × SameEntries (some T) (some U)
entries-back U x none h e = cc
entries-back U none (some W) h e = absurd h
entries-back U (some T) (some W) h e = (T, refl, ground arith)

entries-none :
    (x y : Option PageTable) → SameEntries x y → (x ≡ none → y ≡ none) × (y ≡ none → x ≡ none)
entries-none none none h = (λ _. refl, λ _. refl)
entries-none none (some U) h = absurd h
entries-none (some T) none h = absurd h
entries-none (some T) (some U) h = (λ e. cc, λ e. cc)

module _ {ram ram' : ℕ → Frame} (s : SameLayout ram ram') where
  layout-forth :
      (t : ℕ) {T : PageTable}
      → (ram t).pte ≡ some T
      → (U : PageTable) × ((ram' t).pte ≡ some U) × SameEntries (some T) (some U)
  layout-forth t {T} e = entries-forth T (ram t).pte (ram' t).pte (s t).entries e

  layout-back :
      (t : ℕ) {U : PageTable}
      → (ram' t).pte ≡ some U
      → (T : PageTable) × ((ram t).pte ≡ some T) × SameEntries (some T) (some U)
  layout-back t {U} e = entries-back U (ram t).pte (ram' t).pte (s t).entries e

  layout-Holds : {i v : ℕ} {id : ℤ} → Holds ram i id v → Holds ram' i id v
  layout-Holds {i} h = record {
    in_ram = h.in_ram;
    occupied = (s i).occupied ∙ h.occupied;
    no_table = (entries-none (ram i).pte (ram' i).pte (s i).entries).0 h.no_table;
    page = (s i).page ∙ h.page;
    owner = (s i).owner ∙ h.owner;
  }

  layout-HasTable :
      {t : ℕ} {T U : PageTable} {id : ℤ}
      → HasTable ram t T id
      → (ram' t).pte ≡ some U
      → HasTable ram' t U id
  layout-HasTable {t} h e = record {
    in_ram = h.in_ram;
    table = e;
    occupied = (s t).occupied ∙ h.occupied;
    owner = (s t).owner ∙ h.owner;
  }

  layout-Maps :
      {t v i : ℕ} {T U : PageTable}
      → Maps ram t T v i
      → (ram' t).pte ≡ some U
      → SameEntries (some T) (some U)
      → Maps ram' t U v i
  layout-Maps {t} {v} m e (n, h) = record {
    in_ram = m.in_ram;
    table = e;
    in_table = subst (λ k. v < k) (sym n) m.in_table;
    valid = (h v).0 ∙ m.valid;
    address = (h v).1 ∙ m.address;
  }

  layout-Backed :
      {home : ℤ → Option ℕ} {gap : ℕ}
      → IsMapped home ram gap
      → (t : ℕ) (U : PageTable) (v : ℕ) → t < mem_size
      → (ram' t).pte ≡ some U
      → v < U.len
      → (U.entry v).valid ≡ true
      → Backed ram' t U v gap
  layout-Backed fit t U v lt e lv x =
      let (T, e0, same) = layout-back t e in
      let b = fit.backed t T v lt e0 (subst (λ k. v < k) same.0 lv) (sym (same.1 v).0 ∙ x) in
      record {
        frame = b.frame;
        maps = layout-Maps b.maps e same;
        holds = rw (s t).owner (layout-Holds b.holds);
        not_gap = b.not_gap;
      }

  layout-resident : {home : ℤ → Option ℕ} {i : ℕ} → Resident home ram i → Resident home ram' i
  layout-resident {home} {i} r =
      let (U, e, same) = layout-forth r.table_frame r.maps.table in
      record {
        table_frame = r.table_frame;
        table = U;
        slot = r.slot;
        at_home = ap home (s i).owner ∙ r.at_home;
        maps = layout-Maps r.maps e same;
        holds = rw (s r.table_frame).owner (layout-Holds r.holds);
      }

  -- Tables and frames that agree still do when only reference and modified bits change.
  pub SameLayout-IsMapped :
      {home : ℤ → Option ℕ} {gap : ℕ} → IsMapped home ram gap → IsMapped home ram' gap
  SameLayout-IsMapped {home} fit = record {
    tables = λ t U lt e.
        let (T, e0, same) = layout-back t e in
        let (h, at) = fit.tables t T lt e0 in
        (rw (s t).owner (layout-HasTable h e), ap home (s t).owner ∙ at);
    homes = λ id t e.
        let (T, h) = fit.homes id t e in
        let (U, e', same) = layout-forth t h.table in (U, layout-HasTable h e');
    backed = layout-Backed fit;
    resident = λ i lt g occ no_table. layout-resident (
        fit.resident i lt g (sym (s i).occupied ∙ occ)
          ((entries-none (ram i).pte (ram' i).pte (s i).entries).1 no_table));
  }
