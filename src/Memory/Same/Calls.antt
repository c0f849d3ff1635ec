-- ===== src/Memory/Same/Calls.antt =====
-- The calls of the memory unit leave the processes alone, from any state and on every branch.
use cpu_scheduler.Base.{
  ℕ, zero, suc, ◌≡◌, inl, inr, Bool, true, false, Option, none, some, List, ℤ, index, Option-cases,
  if◌then◌else◌,
}
use cpu_scheduler.Types.{Pcb, PcbPtr, Frame, PageEntry, PageTable}
use cpu_scheduler.Run.{Run, need, and_then}
use cpu_scheduler.Run.Ends.{Ends, Ends-and_then}
use cpu_scheduler.Run.Leads.{Leads, last_on}
use cpu_scheduler.Memory.State.{
  Memory, MemoryEvent, M, load, update_pcb, update_frame, update_entry, read_frame, mem_size,
}
use cpu_scheduler.Memory.Pages.{
  get_process, map_page, put_page_in_frame, new_table, define_page_table, touch, check, clear_frame,
  clear_below, clear_recent,
}
use cpu_scheduler.Memory.Victim.{Choice, free_frame, victim_frame, no_frame}
use cpu_scheduler.Memory.Faults.{
  LoadKind, table, demand, initial, evict, swap_in, swap, block_owner, fill_free, load_into,
  fault_handler,
}
use cpu_scheduler.Memory.Release.{free_reserved, free_page_table}
use cpu_scheduler.Memory.Same.{
  Same, Same-IsRoute, load-Same, update_pcb-Same, update_frame-Same, update_entry-Same,
  read_frame-Same, get_process-Same,
}

module _ (m : Memory) where
  -- A call that ends has left alone what was in `m`.
  abbrev pub Goes : {A : Type 0} → Run Memory A → Type 0
  Goes r = Ends r (λ _ n. Same m n)

  on : {A : Type 0} (f : M A) (n : Memory) → Leads Same f → Same m n → Goes (f n)
  on f n l h = last_on Same-IsRoute m n (f n) h (l.at n)

  load_on : (p : PcbPtr) (n : Memory) → Same m n → Goes (load p n)
  load_on p n h = on (load p) n (load-Same p) h

  get_process_on : (id : ℤ) (n : Memory) → Same m n → Goes (get_process id n)
  get_process_on id n h = on (get_process id) n (get_process-Same id) h

  update_entry_on :
      (i page : ℤ) (g : PageEntry → PageEntry) (n : Memory)
      → Same m n
      → Goes (update_entry i page g n)
  update_entry_on i page g n h = on (update_entry i page g) n (update_entry-Same i page g) h

  update_frame_on : (i : ℕ) (g : Frame → Frame) (n : Memory) → Same m n → Goes (update_frame i g n)
  update_frame_on i g n h = on (update_frame i g) n (update_frame-Same i g) h

  update_pcb_on :
      (p : PcbPtr) (g : Pcb → Pcb) (n : Memory)
      → ((c : Pcb) → (g c).id ≡ c.id)
      → Same m n
      → Goes (update_pcb p g n)
  update_pcb_on p g n keeps h = on (update_pcb p g) n (update_pcb-Same p g keeps) h

  log_on : (n : Memory) (l : List MemoryEvent) → Same m n → Same m (record n { log = l })
  log_on n l h = record { same_all = h.same_all; same_curr = h.same_curr; same_ids = h.same_ids }

  go_and :
      {A B : Type 0} (r : Run Memory A) (k : A → Memory → Run Memory B)
      → Goes r
      → ((a : A) (n : Memory) → Same m n → Goes (k a n))
      → Goes (and_then r k)
  go_and r k h next = Ends-and_then (λ _ u. Same m u) (λ _ v. Same m v) r k h next

  go_if : {A : Type 0} (b : Bool) (r t : Run Memory A) → Goes r → Goes t → Goes (if b then r else t)
  go_if true r t h k = h
  go_if false r t h k = k

  go_choice :
      {A : Type 0} (b : Bool) (c d : M A) (n : Memory)
      → Goes (c n)
      → Goes (d n)
      → Goes ((if b then c else d) n)
  go_choice true c d n h k = h
  go_choice false c d n h k = k

  go_option :
      {A B : Type 0} (o : Option B) (n : Memory) (c : M A) (f : B → M A)
      → Goes (c n)
      → ((b : B) → Goes (f b n))
      → Goes ((elim o as (λ _. M A) [ none ↦ c | some b ↦ f b ]) n)
  go_option none n c f h k = h
  go_option (some b) n c f h k = k b

  ruleset go_rules =
      (go_and, go_if, go_choice, load_on, get_process_on, update_entry_on, update_frame_on)

  evict_on : (i : ℕ) (n : Memory) → Same m n → Goes (evict i n)
  unfolding evict
  evict_on i n h =
      go_and _ _ (get_process_on _ n h) (λ o u k. go_option o u _ _ k (λ p. search go_rules))

  map_page_on :
      (pid page : ℤ) (i op : ℕ) (to : ℤ) (n : Memory)
      → Same m n
      → Goes (map_page pid page i op to n)
  unfolding map_page
  map_page_on pid page i op to n h = search go_rules

  put_page_on :
      (pid page : ℤ) (i op : ℕ) (n : Memory) → Same m n → Goes (put_page_in_frame pid page i op n)
  unfolding put_page_in_frame
  put_page_on pid page i op n h =
      go_and _ _ (get_process_on _ _ (log_on n _ h))
        (λ o u k. go_option o u _ _ k (λ p. search (go_rules, map_page_on)))

  need_on : {A : Type 0} (o : Option A) (n : Memory) → Same m n → Goes (need o n)
  need_on none n h = tt
  need_on (some a) n h = h

  new_table_on : (limit : ℤ) (n : Memory) → Same m n → Goes (new_table limit n)
  unfolding new_table
  new_table_on limit n h = elim (Option-cases (index limit)) [
    | inl e ↦ rw (e, Ends) tt
    | inr (k, e) ↦ rw (e, Ends) h
  ]

  ruleset pcb_rules = (go_rules, need_on, new_table_on, update_pcb_on, log_on, put_page_on)

  define_page_table_on :
      (pid : ℤ) (i : ℕ) (n : Memory) → Same m n → Goes (define_page_table pid i n)
  unfolding define_page_table
  define_page_table_on pid i n h =
      go_and _ _ (get_process_on _ _ (log_on n _ h)) (λ o u k. search pcb_rules)

  swap_in_on :
      (id : ℤ) (i : ℕ) (page : ℤ) (kind : LoadKind) (op : ℕ) (till : ℤ) (n : Memory)
      → Same m n
      → Goes (swap_in id i page kind op till n)
  unfolding swap_in
  swap_in_on id i page kind op till n h =
      go_and _ _ (get_process_on _ n h)
        (λ o u k. go_option o u _ _ k (λ p. search pcb_rules depth 16))

  block_owner_on :
      (o : Option PcbPtr) (page : ℤ) (kind : LoadKind) (n : Memory)
      → Same m n
      → Goes (block_owner o page kind n)
  unfolding block_owner
  block_owner_on none page kind n h = h
  block_owner_on (some p) page kind n h = search pcb_rules

  fill_free_on :
      (pid page : ℤ) (kind : LoadKind) (op : ℕ) (o : Option PcbPtr) (i : ℕ) (n : Memory)
      → Same m n
      → Goes (fill_free pid page kind op o i n)
  unfolding fill_free
  fill_free_on pid page kind op none i n h = search pcb_rules
  fill_free_on pid page kind op (some p) i n h = search pcb_rules depth 16

  ruleset load_rules =
      (pcb_rules, evict_on, swap_in_on, define_page_table_on, block_owner_on, fill_free_on)

  swap_on :
      (id : ℤ) (i : ℕ) (page : ℤ) (kind : LoadKind) (op : ℕ) (n : Memory)
      → Same m n
      → Goes (swap id i page kind op n)
  unfolding swap
  swap_on id i page table op n h = search load_rules depth 10
  swap_on id i page demand op n h = search load_rules depth 10
  swap_on id i page initial op n h = search load_rules depth 10

  load_into_on :
      (pid page : ℤ) (kind : LoadKind) (op : ℕ) (o : Option PcbPtr) (c : Choice) (n : Memory)
      → Same m n
      → Goes (load_into pid page kind op o c n)
  unfolding load_into
  load_into_on pid page table op o (free_frame i) n h = define_page_table_on pid i n h
  load_into_on pid page demand op o (free_frame i) n h = fill_free_on pid page demand op o i n h
  load_into_on pid page initial op o (free_frame i) n h = fill_free_on pid page initial op o i n h
  load_into_on pid page kind op o (victim_frame i) n h = swap_on pid i page kind op n h
  load_into_on pid page kind op o no_frame n h = h

  pub fault_handler_on :
      (pid page : ℤ) (kind : LoadKind) (address : List ℕ) (op : ℕ) (n : Memory)
      → Same m n
      → Goes (fault_handler pid page kind address op n)
  unfolding fault_handler
  fault_handler_on pid page kind address op n h = search (load_rules, load_into_on) depth 9

  read_frame_on : (i : ℤ) (n : Memory) → Same m n → Goes (read_frame i n)
  read_frame_on i n h = on (read_frame i) n (read_frame-Same i) h

  touch_on :
      (f : ℤ) (t : PageTable) (page : ℤ) (op : ℕ) (n : Memory)
      → Same m n
      → Goes (touch f t page op n)
  unfolding touch
  touch_on f t page op n h = elim (Option-cases (index page)) [
    | inl e ↦ rw (e, Ends) tt
    | inr (v, e) ↦ rw (e, Ends) (search pcb_rules depth 12)
  ]

  pub check_on : (p : PcbPtr) (page : ℤ) (op : ℕ) (n : Memory) → Same m n → Goes (check p page op n)
  unfolding check
  check_on p page op n h = search (pcb_rules, read_frame_on, touch_on) depth 10

  clear_frame_on : (i : ℕ) (n : Memory) → Same m n → Goes (clear_frame i n)
  unfolding clear_frame
  clear_frame_on i n h =
      go_if (n.ram i).occupied _ _
        (go_and (update_frame i (λ f. record f { r = false }) n) _ (search pcb_rules)
          (λ _ u k. go_option (n.ram i).pte u _ _ k (λ t. search pcb_rules depth 12)))
        h

  clear_below_on : (i : ℕ) (n : Memory) → Same m n → Goes (clear_below i n)
  unfolding clear_below
  clear_below_on zero n h = h
  clear_below_on (suc i) n h = go_and _ _ (clear_below_on i n h) (λ _ u k. clear_frame_on i u k)

  pub clear_recent_on : (n : Memory) → Same m n → Goes (clear_recent n)
  unfolding clear_recent
  clear_recent_on n h = clear_below_on mem_size n h

  pub free_reserved_on : (f : ℤ) (n : Memory) → Same m n → Goes (free_reserved f n)
  unfolding free_reserved
  free_reserved_on f n h = search pcb_rules

  ram_on : (n : Memory) (ram : ℕ → Frame) → Same m n → Same m (record n { ram = ram })
  ram_on n ram h = record { same_all = h.same_all; same_curr = h.same_curr; same_ids = h.same_ids }

  pub free_page_table_on : (p : PcbPtr) (n : Memory) → Same m n → Goes (free_page_table p n)
  unfolding free_page_table
  free_page_table_on p n h = search (pcb_rules, ram_on) depth 9
