-- ===== src/Ipc/Objects.antt =====
-- The queues and the load memory that `create_2cpu_ipcs` leaves behind.
use cpu_scheduler.Base.{
  ℕ, zero, suc, ◌≤◌, ◌≡◌, refl, ap, ◌∙◌, inl, inr, Bool, true, false, ◌&&◌, some, ℤ, pos, minus_one,
  eqb_ℤ-refl, arith, Bool-cases,
}
use cpu_scheduler.Run.Ends.{Ends, Ends-and_then, Ends-weaken}
use cpu_scheduler.Ipc.{Kernel, Laws, Kind, queue, memory, Mode, attach, create, exclusive, Object}
use cpu_scheduler.Ipc.Create.{
  Ipcs, failed, may_replace, sub1_key, sub2_key, response_key, load_key, clear_pending, clear_queue,
  create_queues, replace_load, get_load, create_load,
}

module _ (K : Kernel) where
  -- The key leads to the object with this id, of at least this size.
  abbrev pub Holds : Kind → (key : ℤ) → ℕ → (id : ℤ) → K.State → Type 0
  Holds k key n id s = (o : Object) × (K.found k key s ≡ some o) × (o.id ≡ id) × (n ≤ o.size)

  -- No object of a kind has gone.
  abbrev pub Kept : Kind → K.State → K.State → Type 0
  Kept k s t = (key : ℤ) (o : Object) → K.found k key s ≡ some o → K.found k key t ≡ some o

  pub Holds-Kept :
      (k : Kind) (key : ℤ) (n : ℕ) (id : ℤ) (s t : K.State)
      → Kept k s t
      → Holds k key n id s
      → Holds k key n id t
  Holds-Kept k key n id s t kept (o, f, e, b) = (o, kept key o f, e, b)

module _ (K : Kernel) (laws : Laws K) where
  pub got :
      (k : Kind) (key : ℤ) (n : ℕ) (m : Mode) (s : K.State)
      → failed (K.get k key n m s).0 ≡ false
      → Holds K k key n (K.get k key n m s).0 (K.get k key n m s).1
  got k key n m s e = laws.get_found k key n m s (λ f. ground (arith, eqb_ℤ-refl minus_one))

  pub get-Kept :
      (j k : Kind) (key : ℤ) (n : ℕ) (m : Mode) (s : K.State) → Kept K j s (K.get k key n m s).1
  get-Kept j k key n m s at o f = laws.get_keeps k key n m s j at o f

  clear_pending-Kept :
      (k : Kind) (n : ℕ) (id : ℤ) (s : K.State) → Kept K k s (clear_pending K n id s)
  unfolding clear_pending
  clear_pending-Kept k zero id s key o f = f
  clear_pending-Kept k (suc n) id s key o f =
      let one : K.found k key (K.receive id s).1 ≡ some o = rw (laws.receive_found id s k key) f in
      elim (Bool-cases (K.receive id s).0) [
        | inl e ↦ rw e (clear_pending-Kept k n id (K.receive id s).1 key o one)
        | inr e ↦ rw e one
      ]

  clear_queue-Kept : (k : Kind) (id : ℤ) (s : K.State) → Kept K k s (clear_queue K id s)
  unfolding clear_queue
  clear_queue-Kept k id s = clear_pending-Kept k (suc (K.pending id s)) id s

  abbrev cleared_queues : (a b c : ℤ) → K.State → K.State
  cleared_queues a b c s = clear_queue K c (clear_queue K b (clear_queue K a s))

  clear_queues-Kept : (a b c : ℤ) (s : K.State) → Kept K queue s (cleared_queues a b c s)
  clear_queues-Kept a b c s at o f =
      clear_queue-Kept queue c _ at o
        (clear_queue-Kept queue b _ at o (clear_queue-Kept queue a s at o f))

  abbrev pub QueuesMade : Ipcs K → Type 0
  QueuesMade s =
      Holds K queue (sub1_key K) 0 s.msgq_sub1_id s.kernel
      × Holds K queue (sub2_key K) 0 s.msgq_sub2_id s.kernel
      × Holds K queue (response_key K) 0 s.msgq_resp_id s.kernel

  pub create_queues-made : (s : Ipcs K) → Ends (create_queues K s) (λ r t. r ≡ true → QueuesMade t)
  unfolding create_queues
  create_queues-made s =
      let a = K.get queue (sub1_key K) 0 create s.kernel in
      let b = K.get queue (sub2_key K) 0 create a.1 in
      let c = K.get queue (response_key K) 0 create b.1 in
      elim (Bool-cases (failed a.0)) [
        | inl ea ↦ rw ea (λ h. cc)
        | inr ea ↦ rw ea (elim (Bool-cases (failed b.0)) [
          | inl eb ↦ rw eb (λ h. cc)
          | inr eb ↦ rw eb (elim (Bool-cases (failed c.0)) [
            | inl ec ↦ rw ec (λ h. cc)
            | inr ec ↦ rw ec (λ h.
                let cleared : Kept K queue c.1 (cleared_queues a.0 b.0 c.0 c.1) =
                  clear_queues-Kept a.0 b.0 c.0 c.1 in
                let from_b : Kept K queue b.1 (cleared_queues a.0 b.0 c.0 c.1) = λ at o f.
                  cleared at o (get-Kept queue queue (response_key K) 0 create b.1 at o f) in
                let from_a : Kept K queue a.1 (cleared_queues a.0 b.0 c.0 c.1) =
                  λ at o f. from_b at o (get-Kept queue queue (sub2_key K) 0 create a.1 at o f) in
                (
                  Holds-Kept K queue (sub1_key K) 0 a.0 a.1 _ from_a
                      (got queue (sub1_key K) 0 create s.kernel ea),
                  Holds-Kept K queue (sub2_key K) 0 b.0 b.1 _ from_b
                      (got queue (sub2_key K) 0 create a.1 eb),
                  Holds-Kept K queue (response_key K) 0 c.0 c.1 _ cleared
                      (got queue (response_key K) 0 create b.1 ec),
                ))
          ])
        ])
      ]

  -- The kernel is all that a call changes.
  abbrev pub Only : Ipcs K → Ipcs K → Type 0
  Only s t = t ≡ record s { kernel = t.kernel }

  remove-Kept : (id : ℤ) (s : K.State) → Kept K queue s (K.remove memory id s)
  remove-Kept id s at o f = laws.remove_other memory queue id at s (λ e. cc) ∙ f

  -- Queues stay, and an id that is no failure is that of the segment.
  abbrev LoadFound : Ipcs K → ℤ → Ipcs K → Type 0
  LoadFound s id t =
      Only s t
      × Kept K queue s.kernel t.kernel
      × (failed id ≡ false → Holds K memory (load_key K) 16 id t.kernel)

  replace_load-found : (s : Ipcs K) → Ends (replace_load K s) (LoadFound s)
  unfolding replace_load
  replace_load-found s =
      let a = K.get memory (load_key K) 1 attach s.kernel in
      let b = K.remove memory a.0 a.1 in
      elim (Bool-cases (failed a.0)) [
        | inl e ↦ rw e (
          refl,
          λ at o f.
              get-Kept queue memory (load_key K) 16 exclusive a.1 at o
                (get-Kept queue memory (load_key K) 1 attach s.kernel at o f),
          got memory (load_key K) 16 exclusive a.1,
        )
        | inr e ↦ rw e (
          refl,
          λ at o f. get-Kept queue memory (load_key K) 16 exclusive b at o (
              remove-Kept a.0 a.1 at o
                (get-Kept queue memory (load_key K) 1 attach s.kernel at o f)),
          got memory (load_key K) 16 exclusive b,
        )
      ]

  get_load-found : (s : Ipcs K) → Ends (get_load K s) (LoadFound s)
  unfolding get_load
  get_load-found s =
      let a = K.get memory (load_key K) 16 exclusive s.kernel in
      let first = get-Kept queue memory (load_key K) 16 exclusive s.kernel in
      elim (Bool-cases (failed a.0 && may_replace (K.errno a.1))) [
        | inl e ↦ rw e (
            Ends-weaken (LoadFound (record s { kernel = a.1 })) (LoadFound s) _
              (replace_load-found (record s { kernel = a.1 }))
              (λ id t h. (h.0, λ at o f. h.1 at o (first at o f), h.2)))
        | inr e ↦ rw e (refl, first, got memory (load_key K) 16 exclusive s.kernel)
      ]

  -- What `create_load` leaves: the queues as they were, and the segment if it goes on.
  abbrev pub LoadMade : Ipcs K → Bool → Ipcs K → Type 0
  LoadMade s r t =
      Kept K queue s.kernel t.kernel
      × (t.msgq_sub1_id ≡ s.msgq_sub1_id)
      × (t.msgq_sub2_id ≡ s.msgq_sub2_id)
      × (t.msgq_resp_id ≡ s.msgq_resp_id)
      × (r ≡ true
          → Holds K memory (load_key K) 16 t.load_shm_id t.kernel
            × (failed t.load_shm_addr ≡ false))

  shmat-Kept : (k : Kind) (id : ℤ) (s : K.State) → Kept K k s (K.shmat id s).1
  shmat-Kept k id s at o f = laws.shmat_found id s k at ∙ f

  store-Kept : (k : Kind) (to : ℤ) (i : ℕ) (v : ℤ) (s : K.State) → Kept K k s (K.store to i v s)
  store-Kept k to i v s at o f = laws.store_found to i v s k at ∙ f

  clear_slots-Kept :
      (k : Kind) (to : ℤ) (s : K.State)
      → Kept K k s (
          K.store to 3
            (pos 0)
            (K.store to 2 (pos 0) (K.store to 1 (pos 0) (K.store to 0 (pos 0) s))))
  clear_slots-Kept k to s at o f = store-Kept k to 3 (pos 0) _ at o (
      store-Kept k to 2 (pos 0) _ at o
        (store-Kept k to 1 (pos 0) _ at o (store-Kept k to 0 (pos 0) s at o f)))

  pub create_load-made : (s : Ipcs K) → Ends (create_load K s) (LoadMade s)
  unfolding create_load
  create_load-made s =
      Ends-and_then (LoadFound s) (LoadMade s) (get_load K s) _ (get_load-found s) (λ id t h.
        let one = ap (λ x. x.msgq_sub1_id) h.0 in
        let two = ap (λ x. x.msgq_sub2_id) h.0 in
        let three = ap (λ x. x.msgq_resp_id) h.0 in
        let to = (K.shmat id t.kernel).0 in
        let attached = shmat-Kept queue id t.kernel in
        let slots = clear_slots-Kept queue to (K.shmat id t.kernel).1 in
        let mapped = shmat-Kept memory id t.kernel in
        let zeroed = clear_slots-Kept memory to (K.shmat id t.kernel).1 in
        elim (Bool-cases (failed id)) [
          | inl e ↦ rw e (h.1, one, two, three, λ g. cc)
          | inr e ↦ elim (Bool-cases (failed to)) [
            | inl f ↦ rw (e, f) (λ at o g. attached at o (h.1 at o g), one, two, three, λ g. cc)
            | inr f ↦
                rw (e, f)
                  (
                    λ at o g. slots at o (attached at o (h.1 at o g)),
                    one,
                    two,
                    three,
                    λ g. (
                      Holds-Kept K memory (load_key K) 16 id t.kernel _
                          (λ at o k. zeroed at o (mapped at o k)) (h.2 e),
                      f,
                    ),
                  )
          ]
        ])
