-- ===== src/RoundRobin/Track/Reached.antt =====
-- The states that the main loop of rr_scheduler/rr_scheduler.c reaches from its start.
use cpu_scheduler.Base.{
  ℕ, ◌≡◌, ◌≢◌, refl, arith, Bool, true, false, Option, none, some, List, [], ◌∷◌, ℤ, pos, minus_one,
  All,
}
use cpu_scheduler.Types.{PcbPtr, ProcessData, Request, Frame}
use cpu_scheduler.Queue.{create_queue}
use cpu_scheduler.Run.{ok}
use cpu_scheduler.Run.Ends.{Ends-ok}
use cpu_scheduler.Perf.{initialize_perf}
use cpu_scheduler.Platform.{Platform}
use cpu_scheduler.RoundRobin.State.{Rr}
use cpu_scheduler.RoundRobin.Loop.{goes_on, tick}
use cpu_scheduler.RoundRobin.Track.Placed.{IsPlaced, IsPlaced-Has, listed}
use cpu_scheduler.RoundRobin.Track.Admitted.{NewIds, IsOpen, IsOpenLeft}
use cpu_scheduler.RoundRobin.Track.Ticked.{Has-IsOpen, tick-IsOpen}

-- A frame of `RAM` before anything is written to it.
abbrev pub zero_frame : Frame
zero_frame = record {
  r = false;
  m = false;
  process_id = pos 0;
  pte = none;
  occupied = false;
  vpage = pos 0;
  reserved = false;
}

-- The messages of new processes have ids of their own.
abbrev pub AreApart : List ProcessData → Type 0
AreApart [] = Unit
AreApart (d ∷ rest) =
    (d.mtype ≡ pos 1 → All (λ e. e.mtype ≡ pos 1 → e.id ≢ d.id) rest) × AreApart rest

module _ {P : Platform} where
  -- The globals when the loop begins, at a time of the clock, with what the shared memory holds and
  -- the first address that `malloc` gives.
  unfoldable pub startup : (now rt : ℤ) (first : PcbPtr) → Rr P
  unfolding create_queue initialize_perf
  startup now rt first = record {
    mem = record {
      clk = now;
      ram = λ _. zero_frame;
      pcbs = λ _. none;
      all = create_queue;
      curr = none;
      log = [];
    };
    ready = create_queue;
    block = create_queue;
    requests = create_queue;
    rt = rt;
    sem = 0;
    next_preemption_time = minus_one;
    context_switch_until = minus_one;
    quantums_passed = pos 0;
    last_print = minus_one;
    last_received_sync = minus_one;
    finished_signal = false;
    receiving = true;
    checked = false;
    perf = initialize_perf P;
    next_ptr = first;
    events = [];
  }

  -- What happens between two ticks: the clock moves on, the child writes its remaining time, takes
  -- its tick, or ends, which `onProcessFinished` notes.
  unfoldable pub outside : (now rt : ℤ) (sem : ℕ) (ended : Bool) → Rr P → Rr P
  outside now rt sem ended s = record s {
    mem = record (s.mem) { clk = now };
    rt = rt;
    sem = sem;
    finished_signal = ended;
  }

  -- The states behind any number of ticks, with the messages that have not been read yet. The
  -- clock and the child may do anything between two ticks, so more is allowed than happens.
  pub data Reached (q k : ℤ) (sent : List ProcessData) : List ProcessData → Rr P → Type 0 where
    started : (now rt : ℤ) (first : PcbPtr) → Reached q k sent sent (startup now rt first)
    meanwhile :
        (now rt : ℤ) (sem : ℕ) (ended : Bool) (left : List ProcessData) (s : Rr P)
        → Reached q k sent left s
        → Reached q k sent left (outside now rt sem ended s)
    ticked :
        (received : Option Request) (left rest : List ProcessData) (s t : Rr P)
        → Reached q k sent left s
        → goes_on s ≡ true
        → tick q k received left s ≡ ok (some rest) t
        → Reached q k sent rest t

  AreApart-NewIds :
      (s : Rr P) (inbox : List ProcessData)
      → ((p : PcbPtr) → listed s p ≡ 0)
      → AreApart inbox
      → NewIds inbox s
  AreApart-NewIds s [] empty h = tt
  AreApart-NewIds s (d ∷ rest) empty h =
      (λ e. (λ p m. absurd (omega (arith, empty p)), h.0 e), AreApart-NewIds s rest empty h.1)

  startup-IsPlaced : (now rt : ℤ) (first : PcbPtr) → IsPlaced (startup now rt first)
  unfolding startup create_queue
  startup-IsPlaced now rt first = record {
    placed = λ p. refl;
    once = λ p. omega arith;
    below = λ p m. absurd (omega arith);
    live = λ p m. absurd (omega arith);
    ids_apart = λ p q m. absurd (omega arith);
  }

  startup-IsOpen :
      (now rt : ℤ) (first : PcbPtr) (inbox : List ProcessData)
      → AreApart inbox
      → IsOpen inbox (startup now rt first)
  unfolding startup create_queue
  startup-IsOpen now rt first inbox h =
      (startup-IsPlaced now rt first, AreApart-NewIds (startup now rt first) inbox (λ p. refl) h)

  outside-IsOpen :
      (now rt : ℤ) (sem : ℕ) (ended : Bool) (left : List ProcessData) (s : Rr P)
      → IsOpen left s
      → IsOpen left (outside now rt sem ended s)
  unfolding outside
  outside-IsOpen now rt sem ended left s h = Has-IsOpen left s _ h (IsPlaced-Has s h.0)

  Reached-IsOpen :
      (q k : ℤ) (sent left : List ProcessData) (s : Rr P)
      → AreApart sent
      → Reached q k sent left s
      → IsOpen left s
  Reached-IsOpen q k sent left s h (started now rt first) = startup-IsOpen now rt first sent h
  Reached-IsOpen q k sent left s h (meanwhile now rt sem ended left' u r) =
      outside-IsOpen now rt sem ended left' u (Reached-IsOpen q k sent left' u h r)
  Reached-IsOpen q k sent left s h (ticked received left' rest u t r on e) =
      Ends-ok IsOpenLeft (tick q k received left' u) (some rest) t
        (tick-IsOpen q k received left' u (Reached-IsOpen q k sent left' u h r)) e

  -- No process is lost or held twice: if the messages of new processes have ids of their own, then
  -- in every state that the loop reaches, whatever requests come and whatever the clock and the
  -- child do between the ticks, the list of all processes holds each process once, and each of
  -- them is in one place: it is the current process, or once in the ready or the block queue. No
  -- other process is there, all are allocated, and no two have the same id.
  pub Reached-IsPlaced :
      (q k : ℤ) (sent left : List ProcessData) (s : Rr P)
      → AreApart sent
      → Reached q k sent left s
      → IsPlaced s
  Reached-IsPlaced q k sent left s h r = (Reached-IsOpen q k sent left s h r).0
