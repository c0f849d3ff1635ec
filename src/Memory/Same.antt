-- ===== src/Memory/Same.antt =====
-- What the memory unit leaves alone: the list of the processes, which one runs, and the ids.
pub mod Calls
use cpu_scheduler.Base.{
  ap, inl, inr, ◌==◌, ltb, index, eqb_ℤ, Bool-cases, Option-cases, arith, [], ◌∷◌, ℕ, ◌≡◌, refl,
  sym, ◌∙◌, Bool, true, false, Option, none, some, List, ℤ, if◌then◌else◌,
}
use cpu_scheduler.Types.{Pcb, PcbPtr, Frame, PageEntry}
use cpu_scheduler.Run.{Run, and_then, ok, fault, exits, Cmd, ◌>>=◌, pure}
use cpu_scheduler.Run.Ends.{Ends, Ends-and_then}
use cpu_scheduler.Run.Leads.{
  Leads, IsRoute, Leads-pure, Leads-gets, Leads-need, Leads-bind, Leads-if, Leads-done, Leads-when,
  Leads-option, leads_rules, then_on, last_on,
}
use cpu_scheduler.Memory.State.{
  Memory, MemoryEvent, mem_size, read_frame, M, load, update_pcb, set_pcb, update_frame,
  update_entry, update_entry_at, put_log,
}
use cpu_scheduler.Memory.Pages.{search_all, get_process}
use cpu_scheduler.Memory.Faults.{evict, frame_at}

-- The id at a pointer.
abbrev pub id_of : Option Pcb → Option ℤ
id_of none = none
id_of (some c) = some c.id

abbrev pub id_at : Memory → PcbPtr → Option ℤ
id_at m p = id_of (m.pcbs p)

-- The list of the processes, the current one and all ids are as before.
pub record Same (m n : Memory) : Type 0 where
  pub same_all : n.all ≡ m.all
  pub same_curr : n.curr ≡ m.curr
  pub same_ids : (p : PcbPtr) → id_at n p ≡ id_at m p

pub Same-IsRoute : IsRoute Same
Same-IsRoute = record {
  here = λ m. record { same_all = refl; same_curr = refl; same_ids = λ p. refl };
  on = λ m n o h k. record {
    same_all = k.same_all ∙ h.same_all;
    same_curr = k.same_curr ∙ h.same_curr;
    same_ids = λ p. k.same_ids p ∙ h.same_ids p;
  };
}

pub Same-refl : (m : Memory) → Same m m
Same-refl m = Same-IsRoute.here m

-- A change of the RAM or of the log alone.
ram_Same : (m : Memory) (ram : ℕ → Frame) → Same m (record m { ram = ram })
ram_Same m ram = record { same_all = refl; same_curr = refl; same_ids = λ p. refl }

pub load-Same : (p : PcbPtr) → Leads Same (load p)
unfolding load
load-Same p = record {
  at = λ m. elim (Option-cases (m.pcbs p)) [ inl e ↦ rw e tt | inr (c, e) ↦ rw e (Same-refl m) ];
}

pub put_log-Same : (e : MemoryEvent) → Leads Same (put_log e)
put_log-Same e = record {
  at = λ m. record { same_all = refl; same_curr = refl; same_ids = λ p. refl };
}

set_pcb_self :
    (pcbs : PcbPtr → Option Pcb) (p q : PcbPtr) (o : Option Pcb)
    → q == p ≡ true
    → set_pcb pcbs p o q ≡ o
unfolding set_pcb
set_pcb_self pcbs p q o e = rw e refl

set_pcb-other :
    (pcbs : PcbPtr → Option Pcb) (p q : PcbPtr) (o : Option Pcb)
    → q == p ≡ false
    → set_pcb pcbs p o q ≡ pcbs q
unfolding set_pcb
set_pcb-other pcbs p q o e = rw e refl

set_pcb_ids :
    (m : Memory) (p : PcbPtr) (c d : Pcb)
    → m.pcbs p ≡ some c
    → d.id ≡ c.id
    → (q : PcbPtr) → id_at (record m { pcbs = set_pcb m.pcbs p (some d) }) q ≡ id_at m q
set_pcb_ids m p c d e i q = elim (Bool-cases (q == p)) [
  | inl s ↦
      let at_p : q ≡ p = ground arith in
      ap id_of (set_pcb_self m.pcbs p q (some d) s)
      ∙ ap some i
      ∙ sym (ap id_of (ap m.pcbs at_p ∙ e))
  | inr s ↦ ap id_of (set_pcb-other m.pcbs p q (some d) s)
]

pub update_pcb-Same :
    (p : PcbPtr) (g : Pcb → Pcb) → ((c : Pcb) → (g c).id ≡ c.id) → Leads Same (update_pcb p g)
unfolding update_pcb
update_pcb-Same p g keeps = record {
  at = λ m. elim (Option-cases (m.pcbs p)) [
    | inl e ↦ rw (e, Ends) tt
    | inr (c, e) ↦
        rw (e, Ends)
          (record {
            same_all = refl;
            same_curr = refl;
            same_ids = set_pcb_ids m p c (g c) e (keeps c);
          })
  ];
}

pub update_frame-Same : (i : ℕ) (g : Frame → Frame) → Leads Same (update_frame i g)
unfolding update_frame
update_frame-Same i g = record {
  at = λ m. elim (Bool-cases (ltb i mem_size)) [ inl e ↦ rw e (ram_Same m _) | inr e ↦ rw e tt ];
}

update_entry_at-Same : (i v : ℕ) (g : PageEntry → PageEntry) → Leads Same (update_entry_at i v g)
unfolding update_entry_at
update_entry_at-Same i v g = record {
  at = λ m. elim (Option-cases (m.ram i).pte) [
    | inl e ↦ rw (e, Ends) tt
    | inr (t, e) ↦ elim (Bool-cases (ltb v t.len)) [
      | inl f ↦ rw (e, f, Ends) (ram_Same m _)
      | inr f ↦ rw (e, f, Ends) tt
    ]
  ];
}

pub update_entry-Same :
    (i page : ℤ) (g : PageEntry → PageEntry) → Leads Same (update_entry i page g)
unfolding update_entry
update_entry-Same i page g = record {
  at = λ m. elim (Option-cases (index i)) [
    | inl e ↦ rw (e, Ends) tt
    | inr (k, e) ↦ elim (Option-cases (index page)) [
      | inl f ↦ rw (e, f, Ends) tt
      | inr (v, f) ↦ elim (Bool-cases (ltb k mem_size)) [
        | inl h ↦ rw (e, f, h, Ends) ((update_entry_at-Same k v g).at m)
        | inr h ↦ rw (e, f, h, Ends) tt
      ]
    ]
  ];
}

pub read_frame-Same : (i : ℤ) → Leads Same (read_frame i)
unfolding read_frame
read_frame-Same i = record {
  at = λ m. elim (Option-cases (index i)) [
    | inl e ↦ rw (e, Ends) tt
    | inr (k, e) ↦ elim (Bool-cases (ltb k mem_size)) [
      | inl h ↦ rw (e, h, Ends) (Same-refl m)
      | inr h ↦ rw (e, h, Ends) tt
    ]
  ];
}

pub search_all-Same : (id : ℤ) (ps : List PcbPtr) → Leads Same (search_all id ps)
unfolding search_all
search_all-Same id [] = Leads-pure Same-IsRoute none
search_all-Same id (p ∷ rest) =
    Leads-bind Same-IsRoute (load p) _ (load-Same p) (λ c.
      Leads-if (eqb_ℤ c.id id) _ _ (Leads-pure Same-IsRoute (some p)) (search_all-Same id rest))

current_case-Same :
    (id : ℤ) (m : Memory) (o : Option PcbPtr)
    → Ends
        (elim o [
          | none ↦ search_all id m.all.items m
          | some p ↦
              (do c ← load p; if eqb_ℤ c.id id then pure (some p) else search_all id m.all.items) m
        ])
        (λ _ n. Same m n)
current_case-Same id m none = (search_all-Same id m.all.items).at m
current_case-Same id m (some p) =
    (Leads-bind Same-IsRoute (load p) _ (load-Same p) (λ c.
        Leads-if (eqb_ℤ c.id id) _ _ (Leads-pure Same-IsRoute (some p))
          (search_all-Same id m.all.items))).at
      m

pub get_process-Same : (id : ℤ) → Leads Same (get_process id)
unfolding get_process
get_process-Same id = record { at = λ m. current_case-Same id m m.curr }
