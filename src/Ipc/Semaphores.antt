-- ===== src/Ipc/Semaphores.antt =====
-- The semaphores that `create_2cpu_ipcs` leaves behind, and all of its objects together.
use mathlib.Core.Path.{subst}
use cpu_scheduler.Base.{
  ℕ, ◌≡◌, refl, sym, ap, ◌∙◌, inl, inr, true, false, ℤ, pos, minus_one, eqb_ℤ-refl, eqb_ℤ→eq, arith,
  Bool-cases,
}
use cpu_scheduler.Run.Ends.{Ends, Ends-and_then}
use cpu_scheduler.Ipc.{Kernel, Laws, Kind, queue, memory, semaphore, attach, exclusive}
use cpu_scheduler.Ipc.Create.{
  Ipcs, failed, load_key, load_sem_key, threshold_key, sub1_key, sub2_key, response_key,
  make_semaphore, create_queues, create_load, create_semaphores, create_2cpu_ipcs,
}
use cpu_scheduler.Ipc.Objects.{
  Holds, Kept, Holds-Kept, Only, QueuesMade, LoadMade, got, get-Kept, create_queues-made,
  create_load-made,
}

module _ (K : Kernel) (laws : Laws K) where
  -- A semaphore that has been made, with nothing else taken away.
  abbrev pub SemaphoreMade : ℤ → Ipcs K → ℤ → Ipcs K → Type 0
  SemaphoreMade key s id t =
      Only K laws s t
      × ((k : Kind) → Kept K k s.kernel t.kernel)
      × Holds K semaphore key 1 id t.kernel

  setval-Kept : (k : Kind) (id : ℤ) (v : ℕ) (s : K.State) → Kept K k s (K.setval id v s).1
  setval-Kept k id v s at o f = laws.setval_found id v s k at ∙ f

  -- `semctl` succeeds on no id but one of a semaphore.
  setval-valid :
      (id : ℤ) (v : ℕ) (s : K.State) → failed (K.setval id v s).0 ≡ false → failed id ≡ false
  setval-valid id v s e = elim (Bool-cases (failed id)) [
    | inl f ↦
        let g : id ≡ minus_one = eqb_ℤ→eq id minus_one f in
        let h : (K.setval id v s).0 ≡ minus_one =
          ap (λ i. (K.setval i v s).0) g ∙ laws.setval_bad v s in
        absurd (ground (arith, eqb_ℤ-refl minus_one))
    | inr f ↦ f
  ]

  pub make_semaphore-made :
      (key : ℤ) (v : ℕ) (s : Ipcs K) → Ends (make_semaphore K key v s) (SemaphoreMade key s)
  unfolding make_semaphore
  make_semaphore-made key v s =
      let a = K.get semaphore key 1 exclusive s.kernel in
      let b = K.get semaphore key 1 attach a.1 in
      elim (Bool-cases (failed a.0)) [
        | inl e ↦ elim (Bool-cases (failed (K.setval b.0 v b.1).0)) [
          | inl f ↦ rw (e, f) tt
          | inr f ↦
              rw (e, f)
                (
                  refl,
                  λ k at o g. setval-Kept k b.0 v b.1 at o (
                      get-Kept K laws k semaphore key 1 attach a.1 at o
                        (get-Kept K laws k semaphore key 1 exclusive s.kernel at o g)),
                  Holds-Kept K semaphore key 1 b.0 b.1 _ (setval-Kept semaphore b.0 v b.1)
                      (got K laws semaphore key 1 attach a.1 (setval-valid b.0 v b.1 f)),
                )
        ]
        | inr e ↦ elim (Bool-cases (failed (K.setval a.0 v a.1).0)) [
          | inl f ↦ rw (e, f) tt
          | inr f ↦
              rw (e, f)
                (
                  refl,
                  λ k at o g.
                      setval-Kept k a.0 v a.1 at o
                        (get-Kept K laws k semaphore key 1 exclusive s.kernel at o g),
                  Holds-Kept K semaphore key 1 a.0 a.1 _ (setval-Kept semaphore a.0 v a.1)
                      (got K laws semaphore key 1 exclusive s.kernel e),
                )
        ]
      ]

  -- What the scheduler shares with its sub-schedulers but the semaphores, by the ids in `s`.
  abbrev pub IsShared : Ipcs K → K.State → Type 0
  IsShared s k =
      Holds K queue (sub1_key K) 0 s.msgq_sub1_id k
      × Holds K queue (sub2_key K) 0 s.msgq_sub2_id k
      × Holds K queue (response_key K) 0 s.msgq_resp_id k
      × Holds K memory (load_key K) 16 s.load_shm_id k
      × (failed s.load_shm_addr ≡ false)

  -- All that they share.
  abbrev pub AllMade : Ipcs K → K.State → Type 0
  AllMade s k =
      IsShared s k
      × Holds K semaphore (load_sem_key K) 1 s.load_sem_id k
      × Holds K semaphore (threshold_key K) 1 s.threshold_sem_id k

  pub IsShared-Kept :
      (s : Ipcs K) (k k' : K.State) → ((j : Kind) → Kept K j k k') → IsShared s k → IsShared s k'
  IsShared-Kept s k k' kept h = (
    Holds-Kept K queue (sub1_key K) 0 s.msgq_sub1_id k k' (kept queue) h.0,
    Holds-Kept K queue (sub2_key K) 0 s.msgq_sub2_id k k' (kept queue) h.1,
    Holds-Kept K queue (response_key K) 0 s.msgq_resp_id k k' (kept queue) h.2,
    Holds-Kept K memory (load_key K) 16 s.load_shm_id k k' (kept memory) h.3,
    h.4,
  )

  -- A semaphore more leaves them as they were.
  IsShared-on :
      (key id : ℤ) (s t : Ipcs K)
      → IsShared s s.kernel
      → SemaphoreMade key s id t
      → IsShared t t.kernel
  IsShared-on key id s t h m =
      subst (λ x. IsShared x t.kernel) (sym m.0) (IsShared-Kept s s.kernel t.kernel m.1 h)

  create_semaphores-made :
      (s : Ipcs K) → IsShared s s.kernel → Ends (create_semaphores K s) (λ _ t. AllMade t t.kernel)
  unfolding create_semaphores
  create_semaphores-made s h =
      Ends-and_then (SemaphoreMade (load_sem_key K) s) _ (make_semaphore K (load_sem_key K) 1 s) _
        (make_semaphore-made (load_sem_key K) 1 s)
        (λ load t m.
          let u = record t { load_sem_id = load } in
          let at_t = IsShared-on (load_sem_key K) load s t h m in
          Ends-and_then (SemaphoreMade (threshold_key K) u) _
            (make_semaphore K (threshold_key K) 0 u) _ (make_semaphore-made (threshold_key K) 0 u)
            (λ gate v n. (
              IsShared-on (threshold_key K) gate u v at_t n,
              subst (λ x. Holds K semaphore (load_sem_key K) 1 x.load_sem_id v.kernel) (sym n.0)
                  (Holds-Kept K semaphore (load_sem_key K) 1 load t.kernel v.kernel (n.1 semaphore)
                    m.2),
              n.2,
            )))

  -- A call that returns 0 has made all of it.
  pub create_2cpu_ipcs-made :
      (s : Ipcs K) → Ends (create_2cpu_ipcs K s) (λ r t. r ≡ pos 0 → AllMade t t.kernel)
  unfolding create_2cpu_ipcs
  create_2cpu_ipcs-made s =
      Ends-and_then (λ r t. r ≡ true → QueuesMade K laws t) _ (create_queues K s) _
        (create_queues-made K laws s)
        (λ r t h. elim (Bool-cases r) [
          | inr e ↦ rw e (λ z. ground arith)
          | inl e ↦
              let q = h e in
              rw e (
                Ends-and_then (LoadMade K laws t) _ (create_load K t) _ (create_load-made K laws t)
                  (λ b u m. elim (Bool-cases b) [
                    | inr f ↦ rw f (λ z. ground arith)
                    | inl f ↦
                        let l = m.4 f in
                        rw f (
                          Ends-and_then (λ _ v. AllMade v v.kernel) _ (create_semaphores K u) _
                            (create_semaphores-made u (
                              rw m.1
                                  (Holds-Kept K queue (sub1_key K) 0 _ t.kernel u.kernel m.0 q.0),
                              rw m.2
                                  (Holds-Kept K queue (sub2_key K) 0 _ t.kernel u.kernel m.0 q.1),
                              rw m.3 (
                                  Holds-Kept K queue (response_key K) 0 _ t.kernel u.kernel m.0
                                    q.2),
                              l.0,
                              l.1,
                            ))
                            (λ _ v a z. a))
                  ]))
        ])
