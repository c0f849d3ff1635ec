-- ===== src/Generator/Sending.antt =====
-- The loop of process_generator/process_generator.c that sends the processes, on the queue of
-- process_generator/process_generator_functions.c. `msgsnd` succeeds.
use cpu_scheduler.Base.{
  ℕ, ◌-◌, Option, none, some, List, [], ◌∷◌, ◌++◌, ℤ, pos, minus_one, leb_ℤ, eqb_ℤ, if◌then◌else◌,
}
use cpu_scheduler.Types.{ProcessData}
use cpu_scheduler.Queue.{Queue, is_empty}

-- `sent` holds the messages in the order of their sending.
pub record Gen : Type 0 where
  pub queue : Queue ProcessData
  pub last_time : ℤ
  pub sent : List ProcessData

-- `tick_msg`; the fields that the source leaves unset are zero here, and nothing reads them.
unfoldable pub sync : ℤ → ProcessData
sync now = record {
  mtype = pos 2;
  id = pos 0;
  arrival = now;
  runtime = pos 0;
  priority = pos 0;
  base = pos 0;
  limit = pos 0;
}

-- The message that ends the stream, of which nothing but the type is read.
unfoldable pub termination : ProcessData
termination = record {
  mtype = pos 5;
  id = pos 0;
  arrival = pos 0;
  runtime = pos 0;
  priority = pos 0;
  base = pos 0;
  limit = pos 0;
}

-- The inner loop: what it takes off the queue with these nodes and this counter, and what is left.
unfoldable pub send_due : ℤ → List ProcessData → ℕ → List ProcessData × Queue ProcessData
send_due now [] n = ([], record { items = []; size = n })
send_due now (p ∷ rest) n =
    let (due, left) = send_due now rest (n - 1) in
    if leb_ℤ p.arrival now then (p ∷ due, left) else ([], record { items = p ∷ rest; size = n })

-- The body of the outer loop, for what the clock reads.
unfoldable pub poll : ℤ → Gen → Gen
unfolding send_due sync
poll now s =
    if eqb_ℤ now s.last_time
    then s
    else (let (due, left) = send_due now s.queue.items s.queue.size in
        record { queue = left; last_time = now; sent = s.sent ++ due ++ sync now ∷ [] })

-- The outer loop for the readings of the clock, one for each round.
unfoldable pub send_loop : List ℤ → Gen → Gen
unfolding is_empty poll
send_loop [] s = s
send_loop (now ∷ more) s =
    let on = send_loop more (poll now s) in if is_empty s.queue then s else on

unfoldable pub start : Queue ProcessData → Gen
start q = record { queue = q; last_time = minus_one; sent = [] }

-- The whole of the messages, or none while the loop still runs after these readings.
unfoldable pub generate : List ℤ → Queue ProcessData → Option (List ProcessData)
unfolding send_loop start is_empty termination
generate readings q =
    let s = send_loop readings (start q) in
    if is_empty s.queue then some (s.sent ++ termination ∷ []) else none
