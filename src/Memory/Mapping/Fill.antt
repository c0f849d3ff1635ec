-- ===== src/Memory/Mapping/Fill.antt =====
-- The agreement of tables and frames when a page is put in a frame.
use cpu_scheduler.Base.{
  ℕ, ◌<◌, ◌≡◌, ◌≢◌, sym, inl, inr, true, false, Option, none, some, arith, ℤ, pos, ◌==◌, Bool-cases,
}
use cpu_scheduler.Types.{PageTable, PageEntry, Frame}
use cpu_scheduler.Memory.State.{mem_size, set_entry}
use cpu_scheduler.Memory.Mapping.Change.{set_entry_other}
use cpu_scheduler.Memory.Mapping.{Holds, HasTable, Backed, Resident, IsMapped}

-- A page is put in frame `i`, and entry `v` of the table in frame `t` now names it.
pub record Places (ram ram' : ℕ → Frame) (t v i : ℕ) (T : PageTable) (e : PageEntry) : Type 0 where
  pub in_ram : i < mem_size
  pub table : HasTable ram t T (ram t).process_id
  pub in_table : v < T.len
  pub not_valid : (T.entry v).valid ≡ false
  pub no_table : (ram i).pte ≡ none
  pub valid : e.valid ≡ true
  pub address : e.frame_address ≡ pos i
  pub filled : Holds ram' i (ram t).process_id v
  pub entry : ram' t ≡ record (ram t) { pte = some (set_entry T v e) }
  pub same : (j : ℕ) → j ≢ t → j ≢ i → ram' j ≡ ram j

module _ {home : ℤ → Option ℕ} {ram ram' : ℕ → Frame} {t v i : ℕ} {T : PageTable} {e : PageEntry}
    (ok : IsMapped home ram i) (p : Places ram ram' t v i T e) where
  places-apart : i ≢ t
  places-apart x = ground (arith, p.table.table, p.no_table)

  places-tables :
      (u : ℕ) (U : PageTable)
      → u < mem_size
      → (ram' u).pte ≡ some U
      → HasTable ram' u U (ram' u).process_id × (home (ram' u).process_id ≡ some u)
  places-tables u U lt e' = elim (Bool-cases (u == t)) [
    | inl x ↦ ground (arith, p.entry, p.table, ok.tables t T p.table.in_ram p.table.table)
    | inr x ↦ elim (Bool-cases (u == i)) [
      | inl y ↦ ground (arith, p.filled)
      | inr y ↦ ground (arith, p.same u, ok.tables u U lt)
    ]
  ]

  places-homes : (id : ℤ) (u : ℕ) → home id ≡ some u → (U : PageTable) × HasTable ram' u U id
  places-homes id u h =
      let (U, has) = ok.homes id u h in
      elim (Bool-cases (u == t)) [
        | inl x ↦ (set_entry T v e, ground (arith, p.entry, p.table, has))
        | inr x ↦ (U, ground (arith, p.same u, has, p.no_table))
      ]

  places-Holds : {j w : ℕ} {id : ℤ} → j ≢ i → Holds ram j id w → Holds ram' j id w
  places-Holds {j} d h = ground (arith, p.same j, h, p.table.table)

  places-owner : (u : ℕ) → u ≢ i → (ram' u).process_id ≡ (ram u).process_id
  places-owner u d = elim (Bool-cases (u == t)) [
    | inl x ↦ ground (arith, p.entry)
    | inr x ↦ ground (arith, p.same u)
  ]

  places-Backed :
      (u : ℕ) (U : PageTable) (w : ℕ)
      → u < mem_size
      → (ram' u).pte ≡ some U
      → w < U.len
      → (U.entry w).valid ≡ true
      → Backed ram' u U w mem_size
  unfolding set_entry
  places-Backed u U w lt e' lw val = elim (Bool-cases (u == t)) [
    | inl x ↦
        let same_table : U ≡ set_entry T v e = ground (arith, p.entry) in
        elim (Bool-cases (w == v)) [
          | inl y ↦ record {
            frame = i;
            maps = record {
              in_ram = lt;
              table = e';
              in_table = lw;
              valid = val;
              address = ground (arith, p.address);
            };
            holds = ground (arith, p.filled, places-owner t (λ z. places-apart (sym z)));
            not_gap = λ g. ground (arith, p.in_ram);
          }
          | inr y ↦
              let f = set_entry_other T U e v w same_table (λ z. ground arith) in
              let b = ok.backed t T w p.table.in_ram p.table.table (ground arith) (ground arith) in
              record {
                frame = b.frame;
                maps = record {
                  in_ram = lt;
                  table = e';
                  in_table = lw;
                  valid = val;
                  address = ground (arith, b.maps.address);
                };
                holds = ground (
                  arith,
                  places-owner t (λ z. places-apart (sym z)),
                  places-Holds b.not_gap b.holds,
                );
                not_gap = λ g. ground (arith, b.holds.in_ram);
              }
        ]
    | inr x ↦
        let far : u ≢ i = λ z. ground (arith, p.filled.no_table) in
        let e0 : (ram u).pte ≡ some U = ground (arith, p.same u) in
        let b = ok.backed u U w lt e0 lw val in
        record {
          frame = b.frame;
          maps = record {
            in_ram = lt;
            table = e';
            in_table = lw;
            valid = val;
            address = b.maps.address;
          };
          holds = rw (places-owner u far) (places-Holds b.not_gap b.holds);
          not_gap = λ g. ground (arith, b.holds.in_ram);
        }
  ]

  kept-Resident : (j : ℕ) → j ≢ i → Resident home ram j → ram' j ≡ ram j → Resident home ram' j
  unfolding set_entry
  kept-Resident j near r at = elim (Bool-cases (r.table_frame == t)) [
    | inl y ↦ record {
      table_frame = t;
      table = set_entry T v e;
      slot = r.slot;
      at_home = ground (arith, r.at_home);
      maps = record {
        in_ram = p.table.in_ram;
        table = ground (arith, p.entry);
        in_table = ground (arith, r.maps, p.table);
        valid = ground (arith, r.maps, p.table, p.not_valid);
        address = ground (arith, r.maps, p.table, p.not_valid);
      };
      holds = ground (arith, places-Holds near r.holds, places-owner t (λ z. places-apart (sym z)));
    }
    | inr y ↦
        let away : r.table_frame ≢ i = λ z. ground (arith, r.maps.table, p.no_table) in
        record {
          table_frame = r.table_frame;
          table = r.table;
          slot = r.slot;
          at_home = ground (arith, r.at_home);
          maps = ground (arith, p.same r.table_frame, r.maps);
          holds = ground (arith, places-Holds near r.holds, places-owner r.table_frame away);
        }
  ]

  places-resident :
      (j : ℕ)
      → j < mem_size
      → j ≢ mem_size
      → (ram' j).occupied ≡ true
      → (ram' j).pte ≡ none
      → Resident home ram' j
  unfolding set_entry
  places-resident j lt _ occ no_table = elim (Bool-cases (j == i)) [
    | inl x ↦ record {
      table_frame = t;
      table = set_entry T v e;
      slot = v;
      at_home = ground (arith, p.filled.owner, (ok.tables t T p.table.in_ram p.table.table).1);
      maps = record {
        in_ram = p.table.in_ram;
        table = ground (arith, p.entry);
        in_table = p.in_table;
        valid = ground (arith, p.valid);
        address = ground (arith, p.address);
      };
      holds = ground (arith, p.filled, places-owner t (λ z. places-apart (sym z)));
    }
    | inr x ↦
        let far : j ≢ t = λ z. ground (arith, p.entry) in
        let near : j ≢ i = λ z. ground arith in
        let at : ram' j ≡ ram j = p.same j far near in
        let r = ok.resident j lt near (ground arith) (ground arith) in
        kept-Resident j near r (ground arith)
  ]

  -- Filling frame `i` closes the gap.
  pub places-IsMapped : IsMapped home ram' mem_size
  places-IsMapped = record {
    tables = places-tables;
    homes = places-homes;
    backed = places-Backed;
    resident = places-resident;
  }
