-- ===== src/Memory/Pages/Table.antt =====
-- The page table that `define_page_table` of MMU/mmu_functions.c makes, as `check` reads it.
use cpu_scheduler.Base.{ℕ, ◌<◌, ◌≡◌, refl, ap, ◌∙◌, true, false, ◌∷◌, negsuc, some, arith, ℤ, pos}
use cpu_scheduler.Types.{Pcb, PcbPtr, PageTable}
use cpu_scheduler.Run.{ok, fault}
use cpu_scheduler.Memory.State.{
  Memory, mem_size, set_frame, set_pcb, update_frame, update_pcb, load, allocated,
}
use cpu_scheduler.Memory.Pages.{absent, empty_entry, new_table, define_page_table, check}
use cpu_scheduler.Memory.Pages.Lookup.{Owner, Owner-same}
use cpu_scheduler.Memory.Pages.Access.{check-touch, touch-absent, touch-past}

abbrev pub empty_table : ℕ → PageTable
empty_table n = record { len = n; entry = λ _. empty_entry }

-- The memory behind `define_page_table`.
abbrev pub with_table : Memory → (pid : ℤ) (i n : ℕ) → PcbPtr → Pcb → Memory
with_table m pid i n p c = record m {
  ram = set_frame m.ram i (record (m.ram i) {
    occupied = true;
    process_id = pid;
    r = true;
    m = false;
    vpage = negsuc 0;
    pte = some (empty_table n);
  });
  pcbs = set_pcb m.pcbs p (some (record c { frame_index = pos i }));
  log = allocated i ∷ m.log;
}

define_page_table-run :
    (m : Memory) (pid : ℤ) (i n : ℕ) {p : PcbPtr} {c : Pcb}
    → Owner m pid p c
    → Owner (record m { log = allocated i ∷ m.log }) pid p c
    → i < mem_size
    → c.limit ≡ pos n
    → define_page_table pid i m ≡ ok tt (with_table m pid i n p c)
unfolding define_page_table load new_table update_frame update_pcb
define_page_table-run m pid i n o o' h l = ground (arith, o'.found, o'.holds)

-- A table of `limit` entries is made in a frame of RAM for a process that `get_process` finds. Then
-- `check` answers 0 for a page below the limit and changes nothing; for the page that is the limit
-- it reads an entry that the table does not have.
pub define_page_table-check :
    (m : Memory) (pid : ℤ) (i n v op : ℕ) {p : PcbPtr} {c : Pcb}
    → Owner m pid p c
    → i < mem_size
    → c.limit ≡ pos n
    → v < n
    → (m' : Memory) × (define_page_table pid i m ≡ ok tt m')
      × (check p (pos v) op m' ≡ ok absent m')
      × (check p c.limit op m' ≡ fault)
unfolding set_frame set_pcb
define_page_table-check m pid i n v op {p} {c} o h l lv =
    let m' = with_table m pid i n p c in
    let c' : Pcb = record c { frame_index = pos i } in
    let holds : m'.pcbs p ≡ some c' = ground arith in
    let table : (m'.ram i).pte ≡ some (empty_table n) = ground arith in
    (
      m',
      define_page_table-run m pid i n o
          (Owner-same c (record { curr = refl; all = refl; keys = λ q. refl }) o o.holds) h l,
      check-touch m' p c' i (empty_table n) v op holds refl h table l
          ∙ ground (arith, touch-absent m' (pos i) (empty_table n) v op lv refl),
      ap (λ a. check p a op m') l
          ∙ check-touch m' p c' i (empty_table n) n op holds refl h table l
          ∙ ground (arith, touch-past m' (pos i) (empty_table n) op),
    )
