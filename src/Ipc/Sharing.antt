-- ===== src/Ipc/Sharing.antt =====
-- The sub-schedulers find what the scheduler has made.
use cpu_scheduler.Base.{
  ℕ, ◌≡◌, ◌≢◌, refl, inl, inr, false, ℤ, pos, minus_one, eqb_ℤ, eqb_ℤ→eq, sym, ◌∙◌, Bool-cases,
  if◌then◌else◌,
}
use cpu_scheduler.Run.{ok}
use cpu_scheduler.Run.Ends.{Ends-ok}
use cpu_scheduler.Ipc.{Kernel, Laws, Kind, queue, memory, semaphore, attach}
use cpu_scheduler.Ipc.Create.{
  Ipcs, failed, load_key, load_sem_key, threshold_key, sub1_key, sub2_key, response_key,
  create_2cpu_ipcs,
}
use cpu_scheduler.Ipc.Attach.{SubIpcs, attach_2cpu_ipcs, my_key}
use cpu_scheduler.Ipc.Objects.{Holds, Kept, Holds-Kept}
use cpu_scheduler.Ipc.Semaphores.{AllMade, IsShared-Kept, create_2cpu_ipcs-made}

module _ (K : Kernel) (laws : Laws K) where
  -- A lookup by a key that holds an object.
  get-Holds :
      (k : Kind) (key : ℤ) (n : ℕ) (id : ℤ) (s : K.State)
      → Holds K k key n id s
      → (K.get k key n attach s ≡ (id, s)) × (failed id ≡ false)
  get-Holds k key n id s (o, f, e, b) = (
    rw (laws.get_attach k key n s o f b, e) refl,
    elim (Bool-cases (failed id)) [
      | inl g ↦ absurd (laws.found_valid k key s o f (e ∙ eqb_ℤ→eq id minus_one g))
      | inr g ↦ g
    ],
  )

  module _ (s t : Ipcs K) (made : create_2cpu_ipcs K s ≡ ok (pos 0) t) where
    pub made_all : AllMade K laws t t.kernel
    made_all =
        Ends-ok (λ r u. r ≡ pos 0 → AllMade K laws u u.kernel) (create_2cpu_ipcs K s) (pos 0) t
          (create_2cpu_ipcs-made K laws s) made refl

    -- All that was made is there in a later state of the kernel in which no object has gone.
    pub made_all-Kept : (k : K.State) → ((j : Kind) → Kept K j t.kernel k) → AllMade K laws t k
    made_all-Kept k kept = (
      IsShared-Kept K laws t t.kernel k kept made_all.0,
      Holds-Kept K semaphore (load_sem_key K) 1 t.load_sem_id t.kernel k (kept semaphore)
          made_all.1,
      Holds-Kept K semaphore (threshold_key K) 1 t.threshold_sem_id t.kernel k (kept semaphore)
          made_all.2,
    )

    abbrev pub queue_of : ℤ → ℤ
    queue_of cpu = if eqb_ℤ cpu (pos 1) then t.msgq_sub1_id else t.msgq_sub2_id

    my_queue :
        (cpu : ℤ) (k : K.State)
        → AllMade K laws t k
        → Holds K queue (my_key K cpu) 0 (queue_of cpu) k
    my_queue cpu k a = elim (Bool-cases (eqb_ℤ cpu (pos 1))) [
      | inl e ↦ rw e a.0.0
      | inr e ↦ rw e a.0.1
    ]

    -- When `create_2cpu_ipcs` has returned 0, no object has gone since, and the load memory can be
    -- attached, then a sub-scheduler that attaches gets 0 and exactly the objects that the scheduler
    -- made: the queue of its CPU, the queue of the answers, the load memory and both semaphores. If
    -- the keys of the two queues differ, the CPUs have queues of their own.
    pub attach_2cpu_ipcs-finds :
        (u : SubIpcs K) (cpu : ℤ)
        → ((j : Kind) → Kept K j t.kernel u.kernel)
        → failed (K.shmat t.load_shm_id u.kernel).0 ≡ false
        → sub1_key K ≢ sub2_key K
        → (attach_2cpu_ipcs K cpu u
            ≡ ok (pos 0) (record u {
              kernel = (K.shmat t.load_shm_id u.kernel).1;
              my_msgq_id = queue_of cpu;
              msgq_resp_id = t.msgq_resp_id;
              load_shm = (K.shmat t.load_shm_id u.kernel).0;
              load_sem_id = t.load_sem_id;
              threshold_sem_id = t.threshold_sem_id;
            }))
          × (queue_of (pos 1) ≢ queue_of (pos 2))
    unfolding attach_2cpu_ipcs
    attach_2cpu_ipcs-finds u cpu kept mapped keys =
        let a = made_all-Kept u.kernel kept in
        let q =
          get-Holds queue (my_key K cpu) 0 (queue_of cpu) u.kernel (my_queue cpu u.kernel a) in
        let r = get-Holds queue (response_key K) 0 t.msgq_resp_id u.kernel a.0.2 in
        let l = get-Holds memory (load_key K) 16 t.load_shm_id u.kernel a.0.3 in
        let v = (K.shmat t.load_shm_id u.kernel).1 in
        let b =
          made_all-Kept v
            (λ j at o f. laws.shmat_found t.load_shm_id u.kernel j at ∙ kept j at o f) in
        let m = get-Holds semaphore (load_sem_key K) 1 t.load_sem_id v b.1 in
        let g = get-Holds semaphore (threshold_key K) 1 t.threshold_sem_id v b.2 in
        (
          rw (q.0, q.1, r.0, r.1, l.0, l.1, mapped, m.0, m.1, g.0, g.1) refl,
          λ same.
              let (o, f, e, _) = a.0.0 in
              let (p, h, i, _) = a.0.1 in
              laws.found_apart queue (sub1_key K) (sub2_key K) u.kernel o p keys f h
                (e ∙ same ∙ sym i),
        )
