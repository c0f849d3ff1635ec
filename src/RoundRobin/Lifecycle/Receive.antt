-- ===== src/RoundRobin/Lifecycle/Receive.antt =====
-- What a pass of `receiveProcesses` in rr_scheduler/rr_scheduler_functions.c takes in.
use mathlib.Core.List.{append_assoc, append-nil}
use cpu_scheduler.Base.{
  suc, ◌<◌, ◌≡◌, refl, sym, ap, ◌∙◌, inl, inr, Bool, true, false, ◌||◌, ◌&&◌, Option, some, List,
  [], ◌∷◌, ◌++◌, arith, ℤ, pos, eqb_ℤ, leb_ℤ, Bool-cases, if◌then◌else◌,
}
use cpu_scheduler.Types.{Pcb, PcbPtr, ProcessData}
use cpu_scheduler.Queue.{enqueue}
use cpu_scheduler.Memory.State.{set_pcb}
use cpu_scheduler.Platform.{Platform}
use cpu_scheduler.RoundRobin.State.{Rr}
use cpu_scheduler.RoundRobin.Lifecycle.{create_pcb, admit, receive_loop}

-- The message that ends a pass: the end of all processes, or a sync of a tick not before now.
abbrev pub ends_pass : ℤ → ProcessData → Bool
ends_pass now d = (eqb_ℤ d.mtype (pos 2) && leb_ℤ now d.arrival) || eqb_ℤ d.mtype (pos 5)

-- The new processes among the messages before the one that ends the pass.
abbrev pub new_processes : ℤ → List ProcessData → List ProcessData
new_processes now [] = []
new_processes now (d ∷ rest) =
    if eqb_ℤ d.mtype (pos 1)
    then d ∷ new_processes now rest
    else if ends_pass now d
    then []
    else new_processes now rest

-- Consecutive addresses, one for each message.
abbrev pub addresses : PcbPtr → List ProcessData → List PcbPtr
addresses p [] = []
addresses p (d ∷ rest) = p ∷ addresses (suc p) rest

-- A fresh PCB for each message, at consecutive addresses.
abbrev pub Created : (PcbPtr → Option Pcb) → PcbPtr → List ProcessData → Type 0
Created pcbs p [] = Unit
Created pcbs p (d ∷ rest) = (pcbs p ≡ some (create_pcb d)) × Created pcbs (suc p) rest

not_five : (a : ℤ) → eqb_ℤ a (pos 2) ≡ true → eqb_ℤ a (pos 5) ≡ false
not_five a h = ground arith

set_pcb-at : (pcbs : PcbPtr → Option Pcb) (p : PcbPtr) (c : Option Pcb) → set_pcb pcbs p c p ≡ c
unfolding set_pcb
set_pcb-at pcbs p c = ground arith

set_pcb-below :
    (pcbs : PcbPtr → Option Pcb) {p q : PcbPtr} (c : Option Pcb)
    → q < p
    → set_pcb pcbs p c q ≡ pcbs q
unfolding set_pcb
set_pcb-below pcbs c l = ground arith

module _ {P : Platform} where
  -- The processes `ds` have come in between two states.
  pub record Received (s s' : Rr P) (ds : List ProcessData) : Type 0 where
    pub ready : s'.ready.items ≡ s.ready.items ++ addresses s.next_ptr ds
    pub all : s'.mem.all.items ≡ s.mem.all.items ++ addresses s.next_ptr ds
    pub created : Created s'.mem.pcbs s.next_ptr ds
    pub same : (q : PcbPtr) → q < s.next_ptr → s'.mem.pcbs q ≡ s.mem.pcbs q

  Received-none : (s s' : Rr P) → s'.ready ≡ s.ready → s'.mem ≡ s.mem → Received s s' []
  Received-none s s' r m = record {
    ready = ap (λ q. q.items) r ∙ sym (append-nil s.ready.items);
    all = ap (λ m. m.all.items) m ∙ sym (append-nil s.mem.all.items);
    created = tt;
    same = λ q l. ap (λ m. m.pcbs q) m;
  }

  Received-admit :
      (d : ProcessData) (s s' : Rr P) (ds : List ProcessData)
      → Received (admit d s) s' ds
      → Received s s' (d ∷ ds)
  unfolding admit enqueue set_pcb
  Received-admit d s s' ds r = record {
    ready = r.ready ∙ append_assoc s.ready.items (s.next_ptr ∷ []) (addresses (suc s.next_ptr) ds);
    all = r.all ∙ append_assoc s.mem.all.items (s.next_ptr ∷ []) (addresses (suc s.next_ptr) ds);
    created = (
      r.same s.next_ptr (omega arith) ∙ set_pcb-at s.mem.pcbs s.next_ptr (some (create_pcb d)),
      r.created,
    );
    same = λ q l. r.same q (omega arith) ∙ set_pcb-below s.mem.pcbs (some (create_pcb d)) l;
  }

  pub receive_loop-Received :
      (now : ℤ) (inbox : List ProcessData) (s : Rr P)
      → Received s (receive_loop now inbox s).1 (new_processes now inbox)
  unfolding receive_loop
  receive_loop-Received now [] s = Received-none s s refl refl
  receive_loop-Received now (d ∷ rest) s = elim (Bool-cases (eqb_ℤ d.mtype (pos 1))) [
    | inl e ↦
        rw e (
          Received-admit d s _ (new_processes now rest)
            (receive_loop-Received now rest (admit d s)))
    | inr e ↦ elim (Bool-cases (eqb_ℤ d.mtype (pos 2))) [
      | inl f ↦ elim (Bool-cases (leb_ℤ now d.arrival)) [
        | inl g ↦ rw (e, f, g) (Received-none s _ refl refl)
        | inr g ↦
            let other : eqb_ℤ d.mtype (pos 5) ≡ false = not_five d.mtype f in
            rw (e, f, g, other) (receive_loop-Received now rest s)
      ]
      | inr f ↦ elim (Bool-cases (eqb_ℤ d.mtype (pos 5))) [
        | inl g ↦ rw (e, f, g) (Received-none s _ refl refl)
        | inr g ↦ rw (e, f, g) (receive_loop-Received now rest s)
      ]
    ]
  ]

  -- A pass admits exactly the new processes before the message that ends it (the end of all
  -- processes, or a sync of a tick not before now; the whole input if there is none), each with a
  -- fresh PCB made from its message, at the rear of the ready queue and of the list of all PCBs, in
  -- the order of the messages; a PCB at an address below the fresh ones stays.
  pub receive_loop-new_processes :
      (now : ℤ) (inbox : List ProcessData) (s : Rr P) (q : PcbPtr)
      → q < s.next_ptr
      → let s' = (receive_loop now inbox s).1 in
        let ds = new_processes now inbox in
        (s'.ready.items ≡ s.ready.items ++ addresses s.next_ptr ds)
        × (s'.mem.all.items ≡ s.mem.all.items ++ addresses s.next_ptr ds)
        × Created s'.mem.pcbs s.next_ptr ds
        × (s'.mem.pcbs q ≡ s.mem.pcbs q)
  receive_loop-new_processes now inbox s q l =
      let r = receive_loop-Received now inbox s in (r.ready, r.all, r.created, r.same q l)
