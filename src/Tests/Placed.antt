-- ===== src/Tests/Placed.antt =====
-- Tests of the places of the processes of the round-robin scheduler.
use cpu_scheduler.Base.{◌≡◌, refl, false, Option, none, some, List, [], ◌∷◌, arith, ℤ, pos}
use cpu_scheduler.Types.{PcbPtr, ProcessData}
use cpu_scheduler.Run.{Run, ok, fault, exits}
use cpu_scheduler.Memory.Pages.{define_page_table}
use cpu_scheduler.Memory.Victim.{choose_frame}
use cpu_scheduler.Memory.Faults.{fault_handler, block_owner, load_into, fill_free}
use cpu_scheduler.RoundRobin.State.{Rr}
use cpu_scheduler.RoundRobin.Loop.{goes_on, tick}
use cpu_scheduler.RoundRobin.Track.Placed.{IsPlaced}
use cpu_scheduler.RoundRobin.Track.Reached.{
  AreApart, startup, outside, Reached, started, meanwhile, ticked, Reached-IsPlaced,
}
use cpu_scheduler.Tests.Data.{platform, stolen}

abbrev sync : (time : ℤ) → ProcessData
sync time = record stolen { mtype = pos 2; arrival = time }

-- Process 5 comes at time 1.
abbrev later : List ProcessData
later = record stolen { mtype = pos 1; id = pos 5; limit = pos 2 } ∷ sync (pos 1) ∷ []

-- Process 2 comes at time 0.
abbrev messages : List ProcessData
messages = record stolen { mtype = pos 1; limit = pos 2 } ∷ sync (pos 0) ∷ later

abbrev behind : {A : Type 0} → Rr platform → Run (Rr platform) A → Rr platform
behind s (ok _ t) = t
behind s fault = s
behind s exits = s

abbrev at_0 : Rr platform
at_0 = startup (pos 0) (pos 0) 1

abbrev at_1 : Rr platform
at_1 = outside (pos 1) (pos 0) 0 false (behind at_0 (tick (pos 2) (pos 1) none messages at_0))

-- The state in which process 2 runs and process 5 is ready.
abbrev at_2 : Rr platform
at_2 = behind at_1 (tick (pos 2) (pos 1) none later at_1)

abbrev places : Rr platform → Option PcbPtr × List PcbPtr × List PcbPtr
places s = (s.mem.curr, s.ready.items, s.mem.all.items)

at_2-places : places at_2 ≡ (some 1, 2 ∷ [], 1 ∷ 2 ∷ [])
unfolding tick startup outside fault_handler block_owner load_into choose_frame define_page_table
    fill_free
at_2-places = refl

messages-AreApart : AreApart messages
messages-AreApart = (
  λ _. (λ e i. ground arith, (λ e i. ground arith, (λ e i. ground arith, tt))),
  (λ e. absurd (ground arith), (λ _. (λ e i. ground arith, tt), (λ e. absurd (ground arith), tt))),
)

Reached-1 : Reached (pos 2) (pos 1) messages later at_1
unfolding tick startup goes_on
Reached-1 =
    meanwhile (pos 1) (pos 0) 0 false later _
      (ticked none messages later at_0 _ (started (pos 0) (pos 0) 1) refl refl)

Reached-2 : Reached (pos 2) (pos 1) messages [] at_2
unfolding tick startup outside goes_on fault_handler block_owner load_into choose_frame
    define_page_table fill_free
Reached-2 = ticked none later [] at_1 _ Reached-1 refl refl

Reached-IsPlaced_example : IsPlaced at_2
Reached-IsPlaced_example =
    Reached-IsPlaced (pos 2) (pos 1) messages [] at_2 messages-AreApart Reached-2
