-- ===== src/RoundRobin/Track/Placed.antt =====
-- Every process of the round-robin scheduler is in one place.
use cpu_scheduler.Base.{ℕ, ◌+◌, ◌≡◌, ◌≢◌, ◌≤◌, ◌<◌, ap, sym, ◌∙◌, none, arith}
use cpu_scheduler.Types.{PcbPtr}
use cpu_scheduler.Run.{Run}
use cpu_scheduler.Run.Ends.{Ends, Ends-weaken}
use cpu_scheduler.Memory.Same.{id_at}
use cpu_scheduler.Platform.{Platform}
use cpu_scheduler.RoundRobin.State.{Rr}
use cpu_scheduler.RoundRobin.Track.{At-begin, waits, count, count_curr}
use cpu_scheduler.RoundRobin.Track.Dispatched.{Has}

module _ {P : Platform} where
  abbrev pub listed : Rr P → PcbPtr → ℕ
  listed s p = count p s.mem.all.items

  -- The list of all processes holds every process that runs, is ready or is blocked, and no other,
  -- each in one place; they are allocated, with ids of their own, at addresses that `malloc` has
  -- given out.
  pub record IsPlaced (s : Rr P) : Type 0 where
    pub placed : (p : PcbPtr) → listed s p ≡ count_curr p s.mem.curr + waits s p
    pub once : (p : PcbPtr) → listed s p ≤ 1
    pub below : (p : PcbPtr) → 0 < listed s p → p < s.next_ptr
    pub live : (p : PcbPtr) → 0 < listed s p → id_at s.mem p ≢ none
    pub ids_apart :
        (p q : PcbPtr) → 0 < listed s p → 0 < listed s q → id_at s.mem p ≡ id_at s.mem q → p ≡ q

  pub IsPlaced-Has : (s : Rr P) → IsPlaced s → Has s (listed s) s
  IsPlaced-Has s h = (At-begin s, λ q. sym (h.placed q))

  pub Has-IsPlaced : (s t : Rr P) → IsPlaced s → Has s (listed s) t → IsPlaced t
  Has-IsPlaced s t h (k, e) =
      let same : (p : PcbPtr) → listed t p ≡ listed s p = λ p. ap (count p) k.all_same in
      record {
        placed = λ p. same p ∙ sym (e p);
        once = λ p. omega (arith, same p, h.once p);
        below = λ p m. rw k.next_same (h.below p (omega (arith, same p)));
        live = λ p m n. h.live p (omega (arith, same p)) (sym (k.ids_same p) ∙ n);
        ids_apart = λ p q m n i.
            h.ids_apart p q (omega (arith, same p)) (omega (arith, same q))
              (sym (k.ids_same p) ∙ i ∙ k.ids_same q);
      }

  -- An operation that leaves each process once where it was once.
  pub Ends-IsPlaced :
      {A : Type 0} (s : Rr P) (r : Run (Rr P) A)
      → IsPlaced s
      → Ends r (λ _ t. Has s (listed s) t)
      → Ends r (λ _ t. IsPlaced t)
  Ends-IsPlaced s r h e =
      Ends-weaken (λ _ t. Has s (listed s) t) (λ _ t. IsPlaced t) r e
        (λ _ t k. Has-IsPlaced s t h k)
