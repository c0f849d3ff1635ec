-- ===== src/Memory/Mapping/Change.antt =====
-- The agreement of tables and frames when an entry is cleared.
use cpu_scheduler.Base.{
  ℕ, ◌<◌, ◌≤◌, ◌≡◌, ◌≢◌, inl, inr, true, false, Option, none, some, arith, ℤ, ◌==◌, Bool-cases,
}
use cpu_scheduler.Types.{PageTable, PageEntry, Frame}
use cpu_scheduler.Memory.State.{mem_size, set_entry}
use cpu_scheduler.Memory.Mapping.{Maps, Holds, HasTable, Backed, Resident, IsMapped}

-- When tables and frames agree, no two valid entries name one frame: they are the same entry of
-- the same table.
pub Maps-unique :
    {home : ℤ → Option ℕ} {ram : ℕ → Frame} {gap t u i v w : ℕ} {T U : PageTable}
    → IsMapped home ram gap
    → Maps ram t T v i
    → Maps ram u U w i
    → (t ≡ u) × (v ≡ w)
Maps-unique {ram} {gap} {t} {u} {i} {v} {w} {T} {U} ok a b = ground (
  arith,
  ba.maps.address,
  ba.holds.page,
  ba.holds.owner,
  bb.maps.address,
  bb.holds.page,
  bb.holds.owner,
  (ok.tables t T a.in_ram a.table).1,
  (ok.tables u U b.in_ram b.table).1,
)
  where
    ba : Backed ram t T v gap
    ba = ok.backed t T v a.in_ram a.table a.in_table a.valid

    bb : Backed ram u U w gap
    bb = ok.backed u U w b.in_ram b.table b.in_table b.valid

-- The other entries of a table stay.
pub set_entry_other :
    (T U : PageTable) (e : PageEntry) (v w : ℕ)
    → U ≡ set_entry T v e
    → w ≢ v
    → (U.entry w ≡ T.entry w) × (U.len ≡ T.len)
unfolding set_entry
set_entry_other T U e v w h d = ground arith

-- Only entry `v` of the table in frame `t` differs.
pub record SetsEntry (ram ram' : ℕ → Frame) (t v : ℕ) (T : PageTable) (e : PageEntry) : Type 0 where
  pub table : (ram t).pte ≡ some T
  pub entry : ram' t ≡ record (ram t) { pte = some (set_entry T v e) }
  pub same : (j : ℕ) → j ≢ t → ram' j ≡ ram j

module _ {home : ℤ → Option ℕ} {ram ram' : ℕ → Frame} {gap t v i : ℕ} {T : PageTable}
    {e : PageEntry} (ok : IsMapped home ram gap) (m : Maps ram t T v i) (no_gap : mem_size ≤ gap)
    (out : e.valid ≡ false) (c : SetsEntry ram ram' t v T e) where
  cleared-tables :
      (u : ℕ) (U : PageTable)
      → u < mem_size
      → (ram' u).pte ≡ some U
      → HasTable ram' u U (ram' u).process_id × (home (ram' u).process_id ≡ some u)
  cleared-tables u U lt e' = elim (Bool-cases (u == t)) [
    | inl x ↦ ground (arith, c.entry, c.table, ok.tables t T m.in_ram m.table)
    | inr x ↦ ground (arith, c.same u, ok.tables u U lt)
  ]

  cleared-homes : (id : ℤ) (u : ℕ) → home id ≡ some u → (U : PageTable) × HasTable ram' u U id
  cleared-homes id u h = elim (Bool-cases (u == t)) [
    | inl x ↦ (set_entry T v e, ground (arith, c.entry, c.table, ok.homes id u h))
    | inr x ↦ ((ok.homes id u h).0, ground (arith, c.same u, (ok.homes id u h).1))
  ]

  other_than_table : {j w : ℕ} {id : ℤ} → Holds ram j id w → j ≢ t
  other_than_table h x = ground (arith, c.table, h.no_table)

  cleared-Holds : {j w : ℕ} {id : ℤ} → Holds ram j id w → Holds ram' j id w
  cleared-Holds {j} h = ground (arith, c.same j (other_than_table h), h)

  cleared-owner : (u : ℕ) → (ram' u).process_id ≡ (ram u).process_id
  cleared-owner u = elim (Bool-cases (u == t)) [
    | inl x ↦ ground (arith, c.entry)
    | inr x ↦ ground (arith, c.same u)
  ]

  -- An entry that stays, in the table as it was.
  cleared_stays : (u w : ℕ) (U U' : PageTable) → Maps ram u U w i → (u ≡ t → w ≢ v) → ⊥
  cleared_stays u w U U' a other = let (x, y) = Maps-unique ok a m in other x y

  cleared-Backed :
      (u : ℕ) (U : PageTable) (w : ℕ)
      → u < mem_size
      → (ram' u).pte ≡ some U
      → w < U.len
      → (U.entry w).valid ≡ true
      → Backed ram' u U w i
  unfolding set_entry
  cleared-Backed u U w lt e' lw val = elim (Bool-cases (u == t)) [
    | inl x ↦
        let f = set_entry_other T U e v w (ground (arith, c.entry)) (λ y. ground (arith, out)) in
        let b = ok.backed t T w m.in_ram m.table (ground arith) (ground arith) in
        record {
          frame = b.frame;
          maps = record {
            in_ram = lt;
            table = e';
            in_table = lw;
            valid = val;
            address = ground (arith, b.maps.address);
          };
          holds = ground (arith, cleared-owner u, cleared-Holds b.holds);
          not_gap =
              λ g. cleared_stays t w T U (ground (arith, b.maps)) (λ _ y. ground (arith, out));
        }
    | inr x ↦
        let e0 : (ram u).pte ≡ some U = ground (arith, c.same u) in
        let b = ok.backed u U w lt e0 lw val in
        record {
          frame = b.frame;
          maps = record {
            in_ram = lt;
            table = e';
            in_table = lw;
            valid = val;
            address = b.maps.address;
          };
          holds = rw (cleared-owner u) (cleared-Holds b.holds);
          not_gap =
              λ g. cleared_stays u w U U (ground (arith, b.maps)) (λ y. absurd (ground arith));
        }
  ]

  cleared-resident :
      (j : ℕ)
      → j < mem_size
      → j ≢ i
      → (ram' j).occupied ≡ true
      → (ram' j).pte ≡ none
      → Resident home ram' j
  unfolding set_entry
  cleared-resident j lt other occ no_table =
      let far : j ≢ t = λ x. ground (arith, c.entry) in
      let at : ram' j ≡ ram j = c.same j far in
      let r = ok.resident j lt (λ g. absurd (omega arith)) (ground arith) (ground arith) in
      elim (Bool-cases (r.table_frame == t)) [
        | inl x ↦ record {
          table_frame = t;
          table = set_entry T v e;
          slot = r.slot;
          at_home = ground (arith, r.at_home);
          maps = record {
            in_ram = m.in_ram;
            table = ground (arith, c.entry);
            in_table = ground (arith, r.maps);
            valid = ground (arith, r.maps, m);
            address = ground (arith, r.maps, m);
          };
          holds = ground (arith, cleared-Holds r.holds, cleared-owner t);
        }
        | inr x ↦ record {
          table_frame = r.table_frame;
          table = r.table;
          slot = r.slot;
          at_home = ground (arith, r.at_home);
          maps = ground (arith, c.same r.table_frame, r.maps);
          holds = ground (arith, cleared-Holds r.holds, cleared-owner r.table_frame);
        }
      ]

  -- Clearing the entry that names frame `i` leaves everything in agreement but for that frame.
  pub cleared-IsMapped : IsMapped home ram' i
  cleared-IsMapped = record {
    tables = cleared-tables;
    homes = cleared-homes;
    backed = cleared-Backed;
    resident = cleared-resident;
  }
