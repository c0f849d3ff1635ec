-- ===== src/RoundRobin/Track/Admitted.antt =====
-- `receiveProcesses` puts each new process in one place.
use cpu_scheduler.Base.{
  suc, ◌+◌, ◌≡◌, ◌≢◌, ◌<◌, refl, sym, ◌∙◌, ◌⊎◌, inl, inr, Bool, false, ◌==◌, Option, none, some,
  List, [], ◌∷◌, ℤ, pos, arith, Bool-cases, eqb_ℤ, eqb_ℤ→eq, leb_ℤ, All, if◌then◌else◌,
}
use cpu_scheduler.Types.{PcbPtr, ProcessData}
use cpu_scheduler.Queue.{enqueue}
use cpu_scheduler.Memory.State.{set_pcb}
use cpu_scheduler.Memory.Same.{id_at, id_of}
use cpu_scheduler.Platform.{Platform}
use cpu_scheduler.RoundRobin.State.{Rr}
use cpu_scheduler.RoundRobin.Lifecycle.{create_pcb, admit, receive_loop}
use cpu_scheduler.RoundRobin.Track.{waits, one, count-append}
use cpu_scheduler.RoundRobin.Track.Placed.{IsPlaced, listed}

module _ {P : Platform} where
  -- No process of the list has the id.
  abbrev pub IsNew : ℤ → Rr P → Type 0
  IsNew id s = (p : PcbPtr) → 0 < listed s p → id_at s.mem p ≢ some id

  -- What the messages of new processes bring: ids that no process and no other of them has.
  abbrev pub NewIds : List ProcessData → Rr P → Type 0
  NewIds [] s = Unit
  NewIds (d ∷ rest) s =
      (d.mtype ≡ pos 1 → IsNew d.id s × All (λ e. e.mtype ≡ pos 1 → e.id ≢ d.id) rest)
      × NewIds rest s

  -- A state whose processes are among those of another, with their ids.
  abbrev pub IsWithin : Rr P → Rr P → Type 0
  IsWithin s t = (p : PcbPtr) → 0 < listed t p → (0 < listed s p) × (id_at t.mem p ≡ id_at s.mem p)

  pub NewIds-IsWithin :
      (s t : Rr P) (inbox : List ProcessData) → IsWithin s t → NewIds inbox s → NewIds inbox t
  NewIds-IsWithin s t [] k n = tt
  NewIds-IsWithin s t (d ∷ rest) k n = (
    λ one_more. (λ p m e. (n.0 one_more).0 p (k p m).0 (sym (k p m).1 ∙ e), (n.0 one_more).1),
    NewIds-IsWithin s t rest k n.1,
  )

  -- Every process is in one place, and what the messages bring is new.
  abbrev pub IsOpen : List ProcessData → Rr P → Type 0
  IsOpen inbox s = IsPlaced s × NewIds inbox s

  listed-admit :
      (d : ProcessData) (s : Rr P) (p : PcbPtr)
      → listed (admit d s) p ≡ listed s p + one s.next_ptr p
  unfolding admit enqueue
  listed-admit d s p = omega (arith, count-append p s.mem.all.items (s.next_ptr ∷ []))

  id_at-admit :
      (d : ProcessData) (s : Rr P) (p : PcbPtr)
      → id_at (admit d s).mem p ≡ (if p == s.next_ptr then some d.id else id_at s.mem p)
  unfolding admit create_pcb set_pcb
  id_at-admit d s p = elim (Bool-cases (p == s.next_ptr)) [
    | inl e ↦ rw (e, id_of) refl
    | inr e ↦ rw (e, id_of) refl
  ]

  waits-admit :
      (d : ProcessData) (s : Rr P) (p : PcbPtr) → waits (admit d s) p ≡ waits s p + one s.next_ptr p
  unfolding admit enqueue
  waits-admit d s p = omega (arith, count-append p s.ready.items (s.next_ptr ∷ []))

  -- A process behind the admission is the new one, or one from before at another address.
  new_or_old :
      (d : ProcessData) (s : Rr P) (p : PcbPtr)
      → IsPlaced s
      → 0 < listed (admit d s) p
      → ((p ≡ s.next_ptr) × (id_at (admit d s).mem p ≡ some d.id))
        ⊎ ((0 < listed s p) × (p ≢ s.next_ptr) × (id_at (admit d s).mem p ≡ id_at s.mem p))
  new_or_old d s p h m = elim (Bool-cases (p == s.next_ptr)) [
    | inl e ↦ inl (ground arith, id_at-admit d s p ∙ rw e refl)
    | inr e ↦
        let apart : p ≢ s.next_ptr = λ i. ground arith in
        let same : one s.next_ptr p ≡ 0 = ground arith in
        inr (omega (arith, listed-admit d s p), apart, id_at-admit d s p ∙ rw e refl)
  ]

  -- The next address is that of no process.
  fresh_unlisted : (s : Rr P) → IsPlaced s → listed s s.next_ptr ≡ 0
  fresh_unlisted s h = ground (arith, h.below s.next_ptr)

  admit-IsPlaced : (d : ProcessData) (s : Rr P) → IsPlaced s → IsNew d.id s → IsPlaced (admit d s)
  admit-IsPlaced d s h new =
      let curr_same : (admit d s).mem.curr ≡ s.mem.curr = unfold admit in refl in
      let next_is : (admit d s).next_ptr ≡ suc s.next_ptr = unfold admit in refl in
      record {
        placed =
            λ p. rw curr_same (omega (arith, listed-admit d s p, waits-admit d s p, h.placed p));
        once = λ p. elim (Bool-cases (s.next_ptr == p)) [
          | inl e ↦
              let at_new : p ≡ s.next_ptr = ground arith in
              let none_yet : listed s p ≡ 0 = rw at_new (fresh_unlisted s h) in
              ground (arith, listed-admit d s p)
          | inr e ↦ ground (arith, listed-admit d s p, h.once p)
        ];
        below = λ p m. elim (new_or_old d s p h m) [
          | inl (e, _) ↦ rw next_is (omega arith)
          | inr (old, _, _) ↦ rw next_is (omega (arith, h.below p old))
        ];
        live = λ p m n. elim (new_or_old d s p h m) [
          | inl (_, i) ↦ ground arith
          | inr (old, _, i) ↦ h.live p old (sym i ∙ n)
        ];
        ids_apart = λ p q m n i. elim (new_or_old d s p h m) [
          | inl (e, j) ↦ elim (new_or_old d s q h n) [
            | inl (f, _) ↦ e ∙ sym f
            | inr (old, _, k) ↦ absurd (new q old (sym k ∙ sym i ∙ j))
          ]
          | inr (old, _, j) ↦ elim (new_or_old d s q h n) [
            | inl (_, k) ↦ absurd (new p old (sym j ∙ i ∙ k))
            | inr (old', _, k) ↦ h.ids_apart p q old old' (sym j ∙ i ∙ k)
          ]
        ];
      }

  IsNew-admit :
      (d : ProcessData) (s : Rr P) (i : ℤ) → IsPlaced s → i ≢ d.id → IsNew i s → IsNew i (admit d s)
  IsNew-admit d s i h apart new p m e = elim (new_or_old d s p h m) [
    | inl (_, j) ↦ apart (ground arith)
    | inr (old, _, j) ↦ new p old (sym j ∙ e)
  ]

  NewIds-admit :
      (d : ProcessData) (s : Rr P) (rest : List ProcessData)
      → IsPlaced s
      → All (λ e. e.mtype ≡ pos 1 → e.id ≢ d.id) rest
      → NewIds rest s
      → NewIds rest (admit d s)
  NewIds-admit d s [] h a n = tt
  NewIds-admit d s (e ∷ rest) h a n = (
    λ one_more. (IsNew-admit d s e.id h (a.0 one_more) (n.0 one_more).0, (n.0 one_more).1),
    NewIds-admit d s rest h a.1 n.1,
  )

  -- Every process is in one place, and what the messages that are left bring is new.
  abbrev pub IsOpenLeft : Option (List ProcessData) → Rr P → Type 0
  IsOpenLeft none s = IsPlaced s
  IsOpenLeft (some rest) s = IsOpen rest s

  -- A sync of a passed tick or the end of all processes moves no process.
  flags-IsOpen :
      (rest : List ProcessData) (s : Rr P) (sync : ℤ) (on : Bool)
      → IsOpen rest s
      → IsOpen rest (record s { last_received_sync = sync; receiving = on })
  flags-IsOpen rest s sync on (h, n) = (
    record {
      placed = h.placed;
      once = h.once;
      below = h.below;
      live = h.live;
      ids_apart = h.ids_apart;
    },
    NewIds-IsWithin s (record s { last_received_sync = sync; receiving = on }) rest
        (λ p m. (m, refl)) n,
  )

  pub receive_loop-IsOpen :
      (now : ℤ) (inbox : List ProcessData) (s : Rr P)
      → IsOpen inbox s
      → IsOpenLeft (receive_loop now inbox s).0 (receive_loop now inbox s).1
  unfolding receive_loop
  receive_loop-IsOpen now [] s (h, n) = h
  receive_loop-IsOpen now (d ∷ rest) s (h, n) = elim (Bool-cases (eqb_ℤ d.mtype (pos 1))) [
    | inl e ↦
        let k = n.0 (eqb_ℤ→eq d.mtype (pos 1) e) in
        rw e (
          receive_loop-IsOpen now rest (admit d s)
            (admit-IsPlaced d s h k.0, NewIds-admit d s rest h k.1 n.1))
    | inr e ↦ elim (Bool-cases (eqb_ℤ d.mtype (pos 2))) [
      | inl f ↦ elim (Bool-cases (leb_ℤ now d.arrival)) [
        | inl g ↦ rw (e, f, g) (flags-IsOpen rest s d.arrival s.receiving (h, n.1))
        | inr g ↦ rw (e, f, g) (receive_loop-IsOpen now rest s (h, n.1))
      ]
      | inr f ↦ elim (Bool-cases (eqb_ℤ d.mtype (pos 5))) [
        | inl g ↦ rw (e, f, g) (flags-IsOpen rest s s.last_received_sync false (h, n.1))
        | inr g ↦ rw (e, f, g) (receive_loop-IsOpen now rest s (h, n.1))
      ]
    ]
  ]
