-- ===== src/Tests/Streams.antt =====
-- Tests of the properties of the process generator.
use cpu_scheduler.Base.{ℕ, ◌≡◌, refl, Option, none, some, List, [], ◌∷◌, ◌++◌, arith, pos, All}
use cpu_scheduler.Types.{ProcessData}
use cpu_scheduler.Queue.{Queue, IsCounted}
use cpu_scheduler.RoundRobin.Lifecycle.{receive_loop}
use cpu_scheduler.RoundRobin.Lifecycle.Receive.{addresses}
use cpu_scheduler.Generator.Input.{Fields, read_input}
use cpu_scheduler.Generator.Input.Messages.{messages, IsRunnable, read_input-messages}
use cpu_scheduler.Generator.Sending.{Gen, sync, send_due, poll, termination, generate}
use cpu_scheduler.Generator.Delivery.{processes, HasArrived, IsLater}
use cpu_scheduler.Generator.Completion.{generate_completes}
use cpu_scheduler.Generator.Pipeline.{batch, Delivers, poll-receive_loop}
use cpu_scheduler.Tests.Data.{stolen}
use cpu_scheduler.Tests.Ticks.{state}

abbrev arrives_at : ℕ → ProcessData
arrives_at t = record stolen { mtype = pos 1; arrival = pos t }

abbrev queue : Queue ProcessData
queue = record { items = arrives_at 1 ∷ arrives_at 4 ∷ []; size = 2 }

abbrev gen : Gen
gen = record { queue = queue; last_time = pos 1; sent = [] }

-- A line holds a run time as one code, if it holds anything.
abbrev scan : List ℕ → Option Fields
scan [] = none
scan (c ∷ rest) = some (record {
  id = pos 1;
  arrival = pos 0;
  runtime = pos c;
  priority = pos 0;
  base = pos 0;
  limit = pos 0;
})

-- A comment, a process of 7 ticks, one without ticks, and a line without numbers.
abbrev lines : List (List ℕ)
lines = (35 ∷ []) ∷ (7 ∷ []) ∷ (0 ∷ []) ∷ [] ∷ []

read_input-messages_example :
    ((read_input scan lines).items ≡ messages scan lines)
    × IsCounted (read_input scan lines)
    × All (IsRunnable scan) (messages scan lines)
read_input-messages_example = read_input-messages scan lines

-- The clock is read at 0, twice at 2, at 5 and once more.
generate_completes_example :
    (msgs : List ProcessData) × (generate (pos 0 ∷ pos 2 ∷ pos 2 ∷ pos 5 ∷ pos 6 ∷ []) queue
      ≡ some (msgs ++ termination ∷ []))
    × (processes msgs ≡ queue.items)
generate_completes_example =
    generate_completes (pos 0 ∷ pos 2 ∷ pos 2 ∷ []) (pos 5) (pos 6 ∷ []) queue (refl, (refl, tt))
      (omega arith, (omega arith, tt)) (omega arith, (omega arith, tt))

-- A process that was sent at 4, with its sync, when the messages of 2 had not been received.
abbrev sent_later : List ProcessData
sent_later = arrives_at 4 ∷ sync (pos 4) ∷ []

abbrev delivered : List ProcessData
delivered = arrives_at 1 ∷ arrives_at 4 ∷ sync (pos 2) ∷ sync (pos 4) ∷ []

delivered-by_type : Delivers (batch (pos 2) gen ++ sync (pos 2) ∷ sent_later) delivered
unfolding sync send_due
delivered-by_type = record {
  taken = ground arith;
  in_order = ground arith;
  as_sent = λ t. ground arith;
}

poll-receive_loop_example :
    let received = receive_loop (pos 2) delivered state in
    ((poll (pos 2) gen).sent ≡ [] ++ batch (pos 2) gen ++ sync (pos 2) ∷ [])
    × (batch (pos 2) gen ++ (poll (pos 2) gen).queue.items ≡ queue.items)
    × All (HasArrived (pos 2)) (batch (pos 2) gen)
    × All (IsLater (pos 2)) (poll (pos 2) gen).queue.items
    × ((left : List ProcessData) × (delivered
          ≡ (batch (pos 2) gen ++ arrives_at 4 ∷ []) ++ sync (pos 2) ∷ left)
        × (received.0 ≡ some left))
    × (received.1.ready.items
        ≡ state.ready.items ++ addresses state.next_ptr (batch (pos 2) gen ++ arrives_at 4 ∷ []))
unfolding sync
poll-receive_loop_example =
    poll-receive_loop (pos 2) gen sent_later delivered state refl ((omega arith, tt), (tt, tt))
      (refl, (refl, tt)) delivered-by_type
