-- ===== src/RoundRobin/Track/Requested.antt =====
-- `handleRequests` moves processes to the block queue and loses none.
use cpu_scheduler.Memory.Address.{parse_hexa_address}
use cpu_scheduler.Base.{ℕ, ◌+◌, ◌≡◌, sym, ◌∙◌, Option, none, some, ℤ, leb_ℤ}
use cpu_scheduler.Types.{PcbPtr, Request}
use cpu_scheduler.Queue.{Queue, enqueue, dequeue, peek}
use cpu_scheduler.Run.{Run, ok, exits, Cmd, done, ◌>>=◌}
use cpu_scheduler.Run.Ends.{Ends, Ends-either}
use cpu_scheduler.Memory.Pages.{check, get_process, CheckResult, invalid, absent, present}
use cpu_scheduler.Platform.{Platform}
use cpu_scheduler.RoundRobin.State.{Rr, in_memory}
use cpu_scheduler.RoundRobin.Requests.{
  is_same, serve_fault, dequeue_req, check_owned, check_reqs, handle_requests,
}
use cpu_scheduler.RoundRobin.Track.{At, Stays, waits, count_curr, check-Stays, get_process-Stays}
use cpu_scheduler.RoundRobin.Track.Blocked.{stay_then}
use cpu_scheduler.RoundRobin.Track.Dispatched.{Has, At-Has}
use cpu_scheduler.RoundRobin.Track.Served.{is_same→some, serve_on}

module _ {P : Platform} (s : Rr P) where
  answered_on :
      (c : Option PcbPtr) (w v : PcbPtr → ℕ) (res : CheckResult) (o : Option PcbPtr) (p : PcbPtr)
      (page : ℤ) (r : Request) (n : Rr P)
      → o ≡ c
      → ((q : PcbPtr) → count_curr q c + w q ≡ v q)
      → At s c w n
      → Ends
          ((elim res as (λ _. Cmd (Rr P) (Unit {0})) [
            | present ↦ done
            | absent ↦ serve_fault p page r (is_same o p)
            | invalid ↦ done
          ])
            n)
          (λ _ t. Has s v t)
  answered_on c w v present o p page r n e same h = At-Has s c w v n same h
  answered_on c w v absent o p page r n e same h =
      serve_on s c w v (is_same o p) p page r n (λ b. sym e ∙ is_same→some s o p b) same h
  answered_on c w v invalid o p page r n e same h = At-Has s c w v n same h

  dequeued_on :
      (c : Option PcbPtr) (w : PcbPtr → ℕ) (o : Option (Request × Queue Request)) (n : Rr P)
      → At s c w n
      → Stays s c w (elim o as (λ _. Run (Rr P) Request) [
        | none ↦ exits
        | some (r, rest) ↦ ok r (record n { requests = rest })
      ])
  dequeued_on c w none n h = tt
  dequeued_on c w (some (r, rest)) n h = h

  dequeue_req_on :
      (c : Option PcbPtr) (w : PcbPtr → ℕ) (n : Rr P) → At s c w n → Stays s c w (dequeue_req n)
  unfolding dequeue_req
  dequeue_req_on c w n h = dequeued_on c w (dequeue n.requests) n h

  check_owned_on :
      (v : PcbPtr → ℕ) (p : PcbPtr) (r : Request) (n : Rr P)
      → Has s v n
      → Ends (check_owned p r n) (λ _ t. Has s v t)
  unfolding check_owned
  check_owned_on v p r n (h, e) =
      stay_then s n.mem.curr (waits n) (λ _ t. Has s v t)
        (in_memory (check p (parse_hexa_address P.strtoul r.address).page r.operation) n) _
        (check-Stays s n.mem.curr (waits n) p (parse_hexa_address P.strtoul r.address).page
          r.operation n h)
        (λ res t k.
          Ends-either (λ _ u. Has s v u) (leb_ℤ r.tick t.mem.clk) _ _
            (stay_then s n.mem.curr (waits n) (λ _ u. Has s v u) (dequeue_req t) _
              (dequeue_req_on n.mem.curr (waits n) t k)
              (λ taken u l.
                answered_on n.mem.curr (waits n) v res t.mem.curr p
                  (parse_hexa_address P.strtoul r.address).page taken u k.curr_is e l))
            (At-Has s n.mem.curr (waits n) v t e k))

  owner_on :
      (v : PcbPtr → ℕ) (o : Option PcbPtr) (r : Request) (n : Rr P)
      → Has s v n
      → Ends
          ((elim o as (λ _. Cmd (Rr P) (Unit {0})) [ none ↦ done | some p ↦ check_owned p r ]) n)
          (λ _ t. Has s v t)
  owner_on v none r n h = h
  owner_on v (some p) r n h = check_owned_on v p r n h

  front_on :
      (v : PcbPtr → ℕ) (o : Option Request) (n : Rr P)
      → Has s v n
      → Ends
          (elim o as (λ _. Run (Rr P) (Unit {0})) [
            | none ↦ ok tt n
            | some r ↦
                (do
                  owner ← in_memory (get_process r.mtype)
                  elim owner [ none ↦ done | some p ↦ check_owned p r ])
                  n
          ])
          (λ _ t. Has s v t)
  front_on v none n h = h
  front_on v (some r) n (h, e) =
      stay_then s n.mem.curr (waits n) (λ _ t. Has s v t) (in_memory (get_process r.mtype) n) _
        (get_process-Stays s n.mem.curr (waits n) r.mtype n h)
        (λ o t k. owner_on v o r t (At-Has s n.mem.curr (waits n) v t e k))

  check_reqs_on : (v : PcbPtr → ℕ) (n : Rr P) → Has s v n → Ends (check_reqs n) (λ _ t. Has s v t)
  unfolding check_reqs
  check_reqs_on v n h = front_on v (peek n.requests) n h

  received_on :
      (v : PcbPtr → ℕ) (c : Option PcbPtr) (received : Option Request) (n : Rr P)
      → Has s v n
      → Ends
          (elim c as (λ _. Run (Rr P) (Unit {0})) [
            | none ↦ ok tt n
            | some _ ↦ elim received [
              | none ↦ check_reqs n
              | some r ↦
                  check_reqs
                    (record n { requests = enqueue n.requests (record r { tick = n.mem.clk }) })
            ]
          ])
          (λ _ t. Has s v t)
  received_on v none received n h = h
  received_on v (some p) none n h = check_reqs_on v n h
  received_on v (some p) (some r) n h =
      check_reqs_on v (record n { requests = enqueue n.requests (record r { tick = n.mem.clk }) }) h

  -- `handleRequests` leaves each process once where it was once.
  pub handle_requests_on :
      (v : PcbPtr → ℕ) (received : Option Request) (n : Rr P)
      → Has s v n
      → Ends (handle_requests received n) (λ _ t. Has s v t)
  unfolding handle_requests
  handle_requests_on v received n h = received_on v n.mem.curr received n h
