-- ===== src/RoundRobin/Track.antt =====
-- Where the processes of the round-robin scheduler are, and the calls that leave all in place.
pub mod Blocked
pub mod Dispatched
pub mod Served
pub mod Requested
pub mod Placed
pub mod Admitted
pub mod Departed
pub mod Finished
pub mod Ticked
pub mod Reached
use cpu_scheduler.Base.{
  ℕ, suc, ◌+◌, ◌≡◌, refl, ap, sym, ◌∙◌, inl, inr, Bool, true, false, ◌==◌, ◌&&◌, Option, none, some,
  List, [], ◌∷◌, ◌++◌, ℤ, arith, Bool-cases, Option-cases, if◌then◌else◌,
}
use cpu_scheduler.Types.{Pcb, PcbPtr, Request}
use cpu_scheduler.Queue.{Queue}
use cpu_scheduler.Run.{Run, ok, fault, exits, Cmd, and_then, when}
use cpu_scheduler.Run.Ends.{Ends, Ends-and_then, Ends-weaken}
use cpu_scheduler.Run.Leads.{Leads}
use cpu_scheduler.Memory.State.{Memory, M, load, update_pcb}
use cpu_scheduler.Memory.Same.{
  Same, Same-refl, id_of, id_at, load-Same, update_pcb-Same, get_process-Same,
}
use cpu_scheduler.Memory.Same.Calls.{fault_handler_on, check_on, clear_recent_on, free_reserved_on}
use cpu_scheduler.Memory.Faults.{LoadKind, fault_handler}
use cpu_scheduler.Memory.Pages.{check, get_process, clear_recent}
use cpu_scheduler.Memory.Release.{free_reserved}
use cpu_scheduler.Platform.{Platform}
use cpu_scheduler.RoundRobin.State.{Rr, run_in, log_data}

-- 1 at the pointer, 0 at others.
abbrev pub one : PcbPtr → PcbPtr → ℕ
one q p = if q == p then 1 else 0

-- How often a pointer stands in a list.
abbrev pub count : PcbPtr → List PcbPtr → ℕ
count p [] = 0
count p (x ∷ xs) = one x p + count p xs

abbrev pub count_curr : PcbPtr → Option PcbPtr → ℕ
count_curr p none = 0
count_curr p (some q) = one q p

pub count-append : (p : PcbPtr) (xs ys : List PcbPtr) → count p (xs ++ ys) ≡ count p xs + count p ys
count-append p [] ys = omega arith
count-append p (x ∷ xs) ys = omega (arith, count-append p xs ys)

module _ {P : Platform} where
  -- How often a pointer waits, in the ready queue or in the block queue.
  abbrev pub waits : Rr P → PcbPtr → ℕ
  waits s p = count p s.ready.items + count p s.block.items

-- From `s` on, the list of all processes, their ids and the next address have stayed; `c` is the
-- current process, and each pointer waits as often as `w` says.
pub record Track {P : Platform} (s : Rr P) (c : Option PcbPtr) (w : PcbPtr → ℕ) (all : List PcbPtr)
    (curr : Option PcbPtr) (pcbs : PcbPtr → Option Pcb) (ready block : List PcbPtr) (next : PcbPtr)
    : Type 0 where
  pub all_same : all ≡ s.mem.all.items
  pub next_same : next ≡ s.next_ptr
  pub curr_is : curr ≡ c
  pub ids_same : (p : PcbPtr) → id_of (pcbs p) ≡ id_at s.mem p
  pub waits_are : (p : PcbPtr) → count p ready + count p block ≡ w p

module _ {P : Platform} (s : Rr P) where
  abbrev pub At : Option PcbPtr → (PcbPtr → ℕ) → Rr P → Type 0
  At c w t =
      Track s c w t.mem.all.items t.mem.curr t.mem.pcbs t.ready.items t.block.items t.next_ptr

  -- A call that comes to its end leaves things so.
  abbrev pub Stays : {A : Type 0} → Option PcbPtr → (PcbPtr → ℕ) → Run (Rr P) A → Type 0
  Stays c w r = Ends r (λ _ t. At c w t)

  pub At-begin : At s.mem.curr (waits s) s
  At-begin = record {
    all_same = refl;
    next_same = refl;
    curr_is = refl;
    ids_same = λ p. refl;
    waits_are = λ p. refl;
  }

  module _ (c : Option PcbPtr) (w : PcbPtr → ℕ) where
    At-Same : (n : Rr P) (m : Memory) → At c w n → Same n.mem m → At c w (record n { mem = m })
    At-Same n m h k = record {
      all_same = ap (λ q. q.items) k.same_all ∙ h.all_same;
      next_same = h.next_same;
      curr_is = k.same_curr ∙ h.curr_is;
      ids_same = λ p. k.same_ids p ∙ h.ids_same p;
      waits_are = h.waits_are;
    }

    memory_on :
        {A : Type 0} (n : Rr P) (r : Run Memory A)
        → Ends r (λ _ m. Same n.mem m)
        → At c w n
        → Stays c w (run_in n r)
    memory_on n (ok a m) e h = At-Same n m h e
    memory_on n fault e h = tt
    memory_on n exits e h = tt

    pub load_on : (p : PcbPtr) (n : Rr P) → At c w n → Stays c w (run_in n (load p n.mem))
    load_on p n h = memory_on n (load p n.mem) ((load-Same p).at n.mem) h

    pub update_pcb_on :
        (p : PcbPtr) (g : Pcb → Pcb) (n : Rr P)
        → ((d : Pcb) → (g d).id ≡ d.id)
        → At c w n
        → Stays c w (run_in n (update_pcb p g n.mem))
    update_pcb_on p g n keeps h =
        memory_on n (update_pcb p g n.mem) ((update_pcb-Same p g keeps).at n.mem) h

    pub fault_on :
        (pid page : ℤ) (kind : LoadKind) (address : List ℕ) (op : ℕ) (n : Rr P)
        → At c w n
        → Stays c w (run_in n (fault_handler pid page kind address op n.mem))
    fault_on pid page kind address op n h =
        memory_on n _ (fault_handler_on n.mem pid page kind address op n.mem (Same-refl n.mem)) h

    pub check-Stays :
        (p : PcbPtr) (page : ℤ) (op : ℕ) (n : Rr P)
        → At c w n
        → Stays c w (run_in n (check p page op n.mem))
    check-Stays p page op n h = memory_on n _ (check_on n.mem p page op n.mem (Same-refl n.mem)) h

    pub get_process-Stays :
        (id : ℤ) (n : Rr P) → At c w n → Stays c w (run_in n (get_process id n.mem))
    get_process-Stays id n h = memory_on n _ ((get_process-Same id).at n.mem) h

    pub clear-Stays : (n : Rr P) → At c w n → Stays c w (run_in n (clear_recent n.mem))
    clear-Stays n h = memory_on n _ (clear_recent_on n.mem n.mem (Same-refl n.mem)) h

    pub free_reserved-Stays :
        (f : ℤ) (n : Rr P) → At c w n → Stays c w (run_in n (free_reserved f n.mem))
    free_reserved-Stays f n h = memory_on n _ (free_reserved_on n.mem f n.mem (Same-refl n.mem)) h

    pub stay_and :
        {A B : Type 0} (r : Run (Rr P) A) (k : A → Rr P → Run (Rr P) B)
        → Stays c w r
        → ((a : A) (n : Rr P) → At c w n → Stays c w (k a n))
        → Stays c w (and_then r k)
    stay_and r k h next = Ends-and_then (λ _ u. At c w u) (λ _ v. At c w v) r k h next

    pub stay_if :
        {A : Type 0} (b : Bool) (r t : Run (Rr P) A)
        → Stays c w r
        → Stays c w t
        → Stays c w (if b then r else t)
    stay_if true r t h k = h
    stay_if false r t h k = k

    pub stay_choice :
        {A : Type 0} (b : Bool) (f g : Cmd (Rr P) A) (n : Rr P)
        → Stays c w (f n)
        → Stays c w (g n)
        → Stays c w ((if b then f else g) n)
    stay_choice true f g n h k = h
    stay_choice false f g n h k = k

pub ruleset stay_rules = (
  stay_and, stay_if, stay_choice, load_on, update_pcb_on, fault_on, check-Stays, clear-Stays,
  free_reserved-Stays,
)

module _ {P : Platform} (s : Rr P) (c : Option PcbPtr) (w : PcbPtr → ℕ) where
  pub log_data_on : (p : PcbPtr) (n : Rr P) → At s c w n → Stays s c w (log_data p n)
  unfolding log_data
  log_data_on p n h = search stay_rules
