-- ===== src/Memory/Pages.antt =====
-- `get_process`, `check`, `put_page_in_frame`, `define_page_table` and `clear_recent` of
-- MMU/mmu_functions.c.
pub mod Access
pub mod Table
pub mod Aging
pub mod Lookup
use cpu_scheduler.Base.{
  ℕ, zero, suc, Bool, true, false, Option, none, some, List, [], ◌∷◌, ℤ, pos, minus_one, pos_part,
  index, ltb, leb, ltb_ℤ, eqb_ℤ, ◌==◌, if◌then◌else◌,
}
use cpu_scheduler.Types.{PcbPtr, PageEntry, PageTable}
use cpu_scheduler.Run.{ok, fault, exits, pure, ◌>>=◌, ◌>>◌, need, done}
use cpu_scheduler.Memory.State.{
  M, allocated, mem_size, put_log, load, update_pcb, read_frame, update_frame, update_entry,
}

-- The walk over `currentPCBs`.
unfoldable pub search_all : ℤ → List PcbPtr → M (Option PcbPtr)
unfolding load
search_all id [] = pure none
search_all id (p ∷ rest) = do
  c ← load p
  if eqb_ℤ c.id id then pure (some p) else search_all id rest

unfoldable pub get_process : ℤ → M (Option PcbPtr)
unfolding search_all load
get_process id m = elim m.curr [
  | none ↦ search_all id m.all.items m
  | some p ↦ (do c ← load p; if eqb_ℤ c.id id then pure (some p) else search_all id m.all.items) m
]

-- `req_type == 'w'`
abbrev pub is_write : ℕ → Bool
is_write op = op == b'w'

-- The result of `check`: -1, 0 or 1.
pub data CheckResult : Type 0 where
  invalid absent present : CheckResult

-- What `check` does for a page within the limit.
unfoldable pub touch : ℤ → PageTable → ℤ → ℕ → M CheckResult
unfolding update_entry update_frame
touch f t page op m = elim (index page) [
  | none ↦ fault
  | some v ↦
      if ltb v t.len
      then (if (t.entry v).valid
          then (do
            update_entry f page (λ e. record e { r = true; m = if is_write op then true else e.m })
            i ← need (index (t.entry v).frame_address)
            update_frame i (λ g. record g { r = true; m = if is_write op then true else g.m })
            pure present)
              m
          else ok absent m)
      else fault
]

unfoldable pub check : PcbPtr → ℤ → ℕ → M CheckResult
unfolding load read_frame touch
check p page op = do
  c ← load p
  f ← read_frame c.frame_index
  if ltb_ℤ c.limit page then pure invalid else (do t ← need f.pte; touch c.frame_index t page op)

-- The writes of `put_page_in_frame`, for an owner with a page table.
unfoldable pub map_page : (pid page : ℤ) (i : ℕ) (op : ℕ) (table : ℤ) → M (Unit {0})
unfolding update_entry update_frame
map_page pid page i op table = do
  update_frame i (λ f. record f {
    occupied = true;
    process_id = pid;
    pte = none;
    r = true;
    vpage = page;
    m = is_write op;
  })
  update_entry table page
      (λ e. record e { m = is_write op; valid = true; r = true; frame_address = pos i })

unfoldable pub put_page_in_frame : (pid page : ℤ) (i : ℕ) (op : ℕ) → M (Unit {0})
unfolding get_process load map_page
put_page_in_frame pid page i op = do
  put_log (allocated i)
  owner ← get_process pid
  elim owner [
    | none ↦ done
    | some p ↦ (do
      c ← load p
      if ltb_ℤ c.frame_index (pos 0) then done else map_page pid page i op c.frame_index)
  ]

abbrev pub empty_entry : PageEntry
empty_entry = record { r = false; m = false; frame_address = minus_one; valid = false }

-- `malloc` of `limit` entries, all set as the loop behind it sets them; with a negative limit it
-- fails.
unfoldable pub new_table : ℤ → M PageTable
new_table limit m = elim (index limit) [
  | none ↦ exits
  | some n ↦ ok (record { len = n; entry = λ _. empty_entry }) m
]

unfoldable pub define_page_table : (pid : ℤ) (i : ℕ) → M (Unit {0})
unfolding get_process load update_frame new_table update_pcb
define_page_table pid i = do
  put_log (allocated i)
  owner ← get_process pid
  p ← need owner
  c ← load p
  t ← new_table c.limit
  update_frame i (λ f. record f {
    occupied = true;
    process_id = pid;
    r = true;
    m = false;
    vpage = minus_one;
    pte = some t;
  })
  update_pcb p (λ c. record c { frame_index = pos i })

-- The inner loop of `clear_recent`: the first `limit` entries of a table.
unfoldable pub clear_entries : ℕ → PageTable → PageTable
clear_entries limit t = record t {
  entry = λ v. if ltb v limit then record (t.entry v) { r = false } else t.entry v;
}

-- The body of the loop of `clear_recent` at frame `i`.
unfoldable pub clear_frame : ℕ → M (Unit {0})
unfolding get_process load update_frame clear_entries
clear_frame i m =
    if (m.ram i).occupied
    then (do
      update_frame i (λ f. record f { r = false })
      elim (m.ram i).pte [
        | none ↦ done
        | some t ↦ (do
          owner ← get_process (m.ram i).process_id
          p ← need owner
          c ← load p
          let n = pos_part c.limit
          if leb n t.len
              then update_frame i (λ f. record f { pte = some (clear_entries n t) })
              else (λ _. fault))
      ])
        m
    else ok tt m

-- The frames below the bound, from frame 0 on.
unfoldable pub clear_below : ℕ → M (Unit {0})
unfolding clear_frame
clear_below zero = done
clear_below (suc i) = clear_below i >> clear_frame i

unfoldable pub clear_recent : M (Unit {0})
unfolding clear_below
clear_recent = clear_below mem_size
