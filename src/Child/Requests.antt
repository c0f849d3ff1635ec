-- ===== src/Child/Requests.antt =====
-- That process/RR_process.c sends every request in its tick.
use mathlib.Core.Path.{subst}
use mathlib.Core.List.{append_assoc, append-nil}
use cpu_scheduler.Base.{
  ℕ, zero, suc, ◌+◌, ◌-◌, ◌≤◌, ◌<◌, ◌≡◌, refl, sym, ap, ◌∙◌, inl, inr, true, false, none, some,
  List, [], ◌∷◌, ◌++◌, map, arith, ℤ, pos, ltb_ℤ, eqb_ℤ, ◌+ℤ◌, ◌-ℤ◌, ◌≤ℤ◌, ◌<ℤ◌, Bool-cases, All,
  All-append, length, length-append,
}
use cpu_scheduler.Types.{Request}
use cpu_scheduler.Child.Ticks.{child_loop-on, child_loop-zero, child_loop-same}
use cpu_scheduler.Child.{Child, stamp, request_at, send_request, child_tick, child_loop, start}

-- Ticks strictly rise, the first not before `now`.
abbrev pub IsTimed : ℕ → List Request → Type 0
IsTimed now [] = Unit
IsTimed now (r ∷ rest) = (t : ℕ) × (r.tick ≡ pos t) × (now ≤ t) × IsTimed (suc t) rest

abbrev pub IsBefore : ℕ → Request → Type 0
IsBefore now r = r.tick <ℤ pos now

abbrev pub IsFrom : ℕ → Request → Type 0
IsFrom now r = pos now ≤ℤ r.tick

request_at-middle :
    (done rest : List Request) (r : Request) → request_at (done ++ r ∷ rest) (length done) ≡ some r
unfolding request_at
request_at-middle [] rest r = refl
request_at-middle (d ∷ done) rest r = request_at-middle done rest r

request_at-end : (done : List Request) → request_at done (length done) ≡ none
unfolding request_at
request_at-end [] = refl
request_at-end (d ∷ done) = request_at-end done

IsTimed-weaken : (a b : ℕ) (rs : List Request) → a ≤ b → IsTimed b rs → IsTimed a rs
IsTimed-weaken a b [] h t = tt
IsTimed-weaken a b (r ∷ rs) h (t, e, l, k) = (t, e, omega arith, k)

IsTimed-IsFrom : (now : ℕ) (rs : List Request) → IsTimed now rs → All (IsFrom now) rs
IsTimed-IsFrom now [] h = tt
IsTimed-IsFrom now (r ∷ rs) (t, e, l, k) =
    (rw e (omega arith), IsTimed-IsFrom now rs (IsTimed-weaken now (suc t) rs (omega arith) k))

IsBefore-suc : (now : ℕ) (rs : List Request) → All (IsBefore now) rs → All (IsBefore (suc now)) rs
IsBefore-suc now [] h = tt
IsBefore-suc now (r ∷ rs) h = (omega arith, IsBefore-suc now rs h.1)

map-last :
    (id : ℤ) (xs : List Request) (r : Request)
    → map (stamp id) (xs ++ r ∷ []) ≡ map (stamp id) xs ++ stamp id r ∷ []
map-last id [] r = refl
map-last id (x ∷ xs) r = ap (λ ys. stamp id x ∷ ys) (map-last id xs r)

length-last : (xs : List Request) (r : Request) → length (xs ++ r ∷ []) ≡ length xs + 1
length-last xs r = length-append xs (r ∷ [])

-- A child that has `n` ticks of work, after `k` of them: the requests are those sent, all of earlier
-- ticks, and those to come.
pub record Progress (n k : ℕ) (c : Child) (done todo : List Request) : Type 0 where
  pub remaining : c.remaining ≡ pos (n - k)
  pub shm : c.shm ≡ pos (n - k)
  pub running_time : c.running_time ≡ pos k
  pub split : c.reqs ≡ done ++ todo
  pub index : c.req_index ≡ length done
  pub past : All (IsBefore k) done
  pub timed : IsTimed k todo
  pub sent : c.sent ≡ map (stamp c.id) done

abbrev pub Progresses : ℕ → ℕ → Child → Type 0
Progresses n k c = (done : List Request) × (todo : List Request) × Progress n k c done todo

-- The tick behind the sending.
pass : Child → Child
pass c =
    let left : ℤ = c.remaining -ℤ pos 1 in
    record c { remaining = left; shm = left; running_time = c.running_time +ℤ pos 1 }

child_tick-pass : (c : Child) → child_tick c ≡ pass (send_request c)
unfolding child_tick pass
child_tick-pass c = refl

send_idle : (c : Child) → request_at c.reqs c.req_index ≡ none → send_request c ≡ c
unfolding send_request
send_idle c e = ground arith

send_waits :
    (c : Child) (r : Request)
    → request_at c.reqs c.req_index ≡ some r
    → eqb_ℤ c.running_time r.tick ≡ false
    → send_request c ≡ c
unfolding send_request
send_waits c r e f = ground arith

send_now :
    (c : Child) (r : Request)
    → request_at c.reqs c.req_index ≡ some r
    → eqb_ℤ c.running_time r.tick ≡ true
    → send_request c ≡ record c { sent = c.sent ++ stamp c.id r ∷ []; req_index = c.req_index + 1 }
unfolding send_request
send_now c r e f = ground arith

less_tick : (n k : ℕ) (a : ℤ) → suc k ≤ n → a ≡ pos (n - k) → a -ℤ pos 1 ≡ pos (n - suc k)
unfolding ◌-ℤ◌
less_tick n k a h e = rw e (ground arith)

more_tick : (k : ℕ) (a : ℤ) → a ≡ pos k → a +ℤ pos 1 ≡ pos (suc k)
unfolding ◌+ℤ◌
more_tick k a e = rw e (ground arith)

pass-Progress :
    (n k : ℕ) (c : Child) (done todo : List Request)
    → suc k ≤ n
    → c.remaining ≡ pos (n - k)
    → c.running_time ≡ pos k
    → c.reqs ≡ done ++ todo
    → c.req_index ≡ length done
    → All (IsBefore (suc k)) done
    → IsTimed (suc k) todo
    → c.sent ≡ map (stamp c.id) done
    → Progress n (suc k) (pass c) done todo
unfolding pass
pass-Progress n k c done todo h r t s i p f e = record {
  remaining = less_tick n k c.remaining h r;
  shm = less_tick n k c.remaining h r;
  running_time = more_tick k c.running_time t;
  split = s;
  index = i;
  past = p;
  timed = f;
  sent = e;
}

work_left : (n j : ℕ) (a : ℤ) → j < n → a ≡ pos (n - j) → ltb_ℤ (pos 0) a ≡ true
work_left n j a l e = ground arith

same_tick : (k t : ℕ) {a b : ℤ} → a ≡ pos k → b ≡ pos t → eqb_ℤ a b ≡ true → k ≡ t
same_tick k t e f h = ground arith

later_tick : (k t : ℕ) {a b : ℤ} → k ≤ t → a ≡ pos k → b ≡ pos t → eqb_ℤ a b ≡ false → suc k ≤ t
later_tick k t l e f h = ground arith

before_next : (k t : ℕ) {b : ℤ} → b ≡ pos t → k ≡ t → b <ℤ pos (suc k)
before_next k t e f = ground arith

child_tick-Progress :
    (n k : ℕ) (c : Child) → suc k ≤ n → Progresses n k c → Progresses n (suc k) (child_tick c)
child_tick-Progress n k c h (done, [], g) =
    let e : request_at c.reqs c.req_index ≡ none =
      rw (g.split, g.index, append-nil done) (request_at-end done) in
    (
      done,
      [],
      subst (λ x. Progress n (suc k) x done []) (sym (child_tick-pass c ∙ ap pass (send_idle c e)))
          (pass-Progress n k c done [] h g.remaining g.running_time g.split g.index
            (IsBefore-suc k done g.past) tt g.sent),
    )
child_tick-Progress n k c h (done, r ∷ rest, g) =
    let e : request_at c.reqs c.req_index ≡ some r =
      rw (g.split, g.index) (request_at-middle done rest r) in
    let (t, m, l, later) = g.timed in
    elim (Bool-cases (eqb_ℤ c.running_time r.tick)) [
      | inl f ↦
          let same : k ≡ t = same_tick k t (g.running_time) m f in
          (
            done ++ r ∷ [],
            rest,
            subst (λ x. Progress n (suc k) x (done ++ r ∷ []) rest)
                (sym (child_tick-pass c ∙ ap pass (send_now c r e f)))
                (pass-Progress n k
                  (record c { sent = c.sent ++ stamp c.id r ∷ []; req_index = c.req_index + 1 })
                  (done ++ r ∷ []) rest h g.remaining g.running_time
                  (g.split ∙ sym (append_assoc done (r ∷ []) rest))
                  (ap (λ i. i + 1) g.index ∙ sym (length-last done r))
                  (All-append (IsBefore (suc k)) done (r ∷ []) (IsBefore-suc k done g.past)
                    (before_next k t m same, tt))
                  (IsTimed-weaken (suc k) (suc t) rest (omega arith) later)
                  (ap (λ xs. xs ++ stamp c.id r ∷ []) g.sent ∙ sym (map-last c.id done r))),
          )
      | inr f ↦ (
        done,
        r ∷ rest,
        subst (λ x. Progress n (suc k) x done (r ∷ rest))
            (sym (child_tick-pass c ∙ ap pass (send_waits c r e f)))
            (pass-Progress n k c done (r ∷ rest) h g.remaining g.running_time g.split g.index
              (IsBefore-suc k done g.past) (t, m, later_tick k t l g.running_time m f, later)
              g.sent),
      )
    ]

child_loop-Progress :
    (n j k : ℕ) (c : Child) → j + k ≤ n → Progresses n j c → Progresses n (j + k) (child_loop k c)
child_loop-Progress n j zero c h g =
    let e : j + zero ≡ j = omega arith in
    subst (λ i. Progresses n i (child_loop zero c)) (sym e)
      (subst (Progresses n j) (sym (child_loop-zero c)) g)
child_loop-Progress n j (suc k) c h g =
    let (done, todo, p) = g in
    let e : suc j + k ≡ j + suc k = omega arith in
    let on : child_loop (suc k) c ≡ child_loop k (child_tick c) =
      child_loop-on k c (work_left n j c.remaining (omega arith) p.remaining) in
    let next =
      child_loop-Progress n (suc j) k (child_tick c) (omega arith)
        (child_tick-Progress n j c (omega arith) g) in
    subst (λ i. Progresses n i (child_loop (suc k) c)) e
      (subst (Progresses n (suc j + k)) (sym on) next)

start-Progress :
    (id : ℤ) (n : ℕ) (reqs : List Request)
    → IsTimed 0 reqs
    → Progress n 0 (start id (pos n) reqs) [] reqs
unfolding start
start-Progress id n reqs h = record {
  remaining = ground arith;
  shm = ground arith;
  running_time = refl;
  split = refl;
  index = refl;
  past = tt;
  timed = h;
  sent = refl;
}

-- What has been sent after `k` ticks: the requests of the ticks before, and no other, in their order
-- and under the id of the process.
abbrev pub SentBefore : ℤ → ℕ → List Request → Child → Type 0
SentBefore id k reqs c =
    (done : List Request) × (todo : List Request) × (reqs ≡ done ++ todo)
    × All (IsBefore k) done
    × All (IsFrom k) todo
    × (c.sent ≡ map (stamp id) done)

-- A process of n ticks whose requests have strictly rising ticks from 0 on has sent, after any k of
-- its ticks, exactly the requests of the ticks before k, so each request goes out in its own tick;
-- n - k ticks are left, and the shared remaining time says so.
pub child_loop-SentBefore :
    (id : ℤ) (n k : ℕ) (reqs : List Request)
    → IsTimed 0 reqs
    → k ≤ n
    → let c = child_loop k (start id (pos n) reqs) in
      SentBefore id k reqs c × (c.remaining ≡ pos (n - k)) × (c.shm ≡ pos (n - k))
unfolding start
child_loop-SentBefore id n k reqs h l =
    let c0 = start id (pos n) reqs in
    let g : Progresses n k (child_loop k c0) =
      subst (λ i. Progresses n i (child_loop k c0)) (omega arith)
        (child_loop-Progress n 0 k c0 (omega arith) ([], reqs, start-Progress id n reqs h)) in
    let (done, todo, p) = g in
    let same = child_loop-same k c0 in
    (
      (
        done,
        todo,
        sym same.0 ∙ p.split,
        p.past,
        IsTimed-IsFrom k todo p.timed,
        p.sent ∙ ap (λ i. map (stamp i) done) same.1,
      ),
      p.remaining,
      p.shm,
    )
