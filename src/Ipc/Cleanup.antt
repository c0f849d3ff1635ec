-- ===== src/Ipc/Cleanup.antt =====
-- What `cleanup` and the end of `main` of scheduler/ leave of what `create_2cpu_ipcs` has made.
use cpu_scheduler.Base.{◌≡◌, refl, inr, true, false, none, pos, eqb_ℤ}
use cpu_scheduler.Run.{ok}
use cpu_scheduler.Ipc.{Kernel, Laws, OneUser, Kind, queue, memory, semaphore}
use cpu_scheduler.Ipc.Create.{
  Ipcs, load_key, load_sem_key, threshold_key, sub1_key, sub2_key, response_key, create_2cpu_ipcs,
  remove_unless_failed, destroy_load, destroy_2cpu_ipcs,
}
use cpu_scheduler.Ipc.Objects.{Kept}
use cpu_scheduler.Ipc.Semaphores.{AllMade}
use cpu_scheduler.Ipc.Sharing.{made_all-Kept}
use cpu_scheduler.Ipc.Removal.{
  Fewer, Fewer-trans, remove-Fewer, unless-Fewer, destroy_load-Fewer, gone, removed_gone, load_gone,
}
use cpu_scheduler.Ipc.Teardown.{Own, remove_own, cleanup, shutdown}

module _ (K : Kernel) (laws : Laws K) where
  Fewer-refl : (s : K.State) → Fewer K s s
  Fewer-refl s k key = inr refl

  -- The objects that `destroy_2cpu_ipcs` is there for have gone.
  abbrev pub DestroyedGone : K.State → Type 0
  DestroyedGone u =
      (K.found queue (sub1_key K) u ≡ none)
      × (K.found queue (sub2_key K) u ≡ none)
      × (K.found queue (response_key K) u ≡ none)
      × (K.found memory (load_key K) u ≡ none)
      × (K.found semaphore (threshold_key K) u ≡ none)

  -- Nothing is left under the keys of the sub-schedulers.
  abbrev pub AllGone : K.State → Type 0
  AllGone u = DestroyedGone u × (K.found semaphore (load_sem_key K) u ≡ none)

  destroy_2cpu_ipcs-Fewer : (x : Ipcs K) → Fewer K x.kernel (destroy_2cpu_ipcs K x).kernel
  unfolding destroy_2cpu_ipcs
  destroy_2cpu_ipcs-Fewer x =
      let k1 = remove_unless_failed K queue x.msgq_sub1_id x.kernel in
      let k2 = remove_unless_failed K queue x.msgq_sub2_id k1 in
      let k3 = remove_unless_failed K queue x.msgq_resp_id k2 in
      let k4 = destroy_load K x.load_shm_addr k3 in
      Fewer-trans K laws x.kernel k1 _ (unless-Fewer K laws queue x.msgq_sub1_id x.kernel) (
        Fewer-trans K laws k1 k2 _ (unless-Fewer K laws queue x.msgq_sub2_id k1) (
          Fewer-trans K laws k2 k3 _ (unless-Fewer K laws queue x.msgq_resp_id k2) (
            Fewer-trans K laws k3 k4 _ (destroy_load-Fewer K laws x.load_shm_addr k3)
              (unless-Fewer K laws semaphore x.threshold_sem_id k4))))

  pub remove_own-Fewer : (own : Own) (s : K.State) → Fewer K s (remove_own K own s)
  unfolding remove_own
  remove_own-Fewer own s =
      let k1 = K.remove queue own.msgq_id s in
      let k2 = K.remove semaphore own.sem_id k1 in
      let k3 = K.shmdt own.rt_addr k2 in
      Fewer-trans K laws s k2 _
        (Fewer-trans K laws s k1 k2 (remove-Fewer K laws queue own.msgq_id s)
          (remove-Fewer K laws semaphore own.sem_id k1))
        (Fewer-trans K laws k2 k3 _ (λ j at. inr (laws.shmdt_found own.rt_addr k2 j at))
          (remove-Fewer K laws memory own.rt_id k3))

  -- `b` is a state in which all objects are there, `u` one behind the removals.
  destroy_2cpu_ipcs-gone :
      (one : OneUser K) (x : Ipcs K) (b u : K.State)
      → AllMade K laws x b
      → eqb_ℤ x.load_shm_addr (pos 0) ≡ false
      → Fewer K b x.kernel
      → Fewer K (destroy_2cpu_ipcs K x).kernel u
      → DestroyedGone u
  unfolding destroy_2cpu_ipcs
  destroy_2cpu_ipcs-gone one x b u a mapped before after =
      let k1 = remove_unless_failed K queue x.msgq_sub1_id x.kernel in
      let k2 = remove_unless_failed K queue x.msgq_sub2_id k1 in
      let k3 = remove_unless_failed K queue x.msgq_resp_id k2 in
      let k4 = destroy_load K x.load_shm_addr k3 in
      let k5 = remove_unless_failed K semaphore x.threshold_sem_id k4 in
      let f1 : Fewer K x.kernel k1 = unless-Fewer K laws queue x.msgq_sub1_id x.kernel in
      let f2 : Fewer K k1 k2 = unless-Fewer K laws queue x.msgq_sub2_id k1 in
      let f3 : Fewer K k2 k3 = unless-Fewer K laws queue x.msgq_resp_id k2 in
      let f4 : Fewer K k3 k4 = destroy_load-Fewer K laws x.load_shm_addr k3 in
      let b1 : Fewer K b k1 = Fewer-trans K laws b x.kernel k1 before f1 in
      let b2 : Fewer K b k2 = Fewer-trans K laws b k1 k2 b1 f2 in
      let b3 : Fewer K b k3 = Fewer-trans K laws b k2 k3 b2 f3 in
      let b4 : Fewer K b k4 = Fewer-trans K laws b k3 k4 b3 f4 in
      let f5 : Fewer K k4 k5 = unless-Fewer K laws semaphore x.threshold_sem_id k4 in
      let a4 : Fewer K k4 u = Fewer-trans K laws k4 k5 u f5 after in
      let a3 : Fewer K k3 u = Fewer-trans K laws k3 k4 u f4 a4 in
      let a2 : Fewer K k2 u = Fewer-trans K laws k2 k3 u f3 a3 in
      let a1 : Fewer K k1 u = Fewer-trans K laws k1 k2 u f2 a2 in
      (
        gone K laws one queue (sub1_key K) 0 x.msgq_sub1_id b x.kernel u a.0.0 before a1,
        gone K laws one queue (sub2_key K) 0 x.msgq_sub2_id b k1 u a.0.1 b1 a2,
        gone K laws one queue (response_key K) 0 x.msgq_resp_id b k2 u a.0.2 b2 a3,
        load_gone K laws one x.load_shm_addr x.load_shm_id b k3 u a.0.3 (rw (mapped, a.0.4) refl) b3
            a4,
        gone K laws one semaphore (threshold_key K) 1 x.threshold_sem_id b k4 u a.2 b4 after,
      )

  module _ (one : OneUser K) (own : Own) (x : Ipcs K) (a : AllMade K laws x x.kernel)
      (mapped : eqb_ℤ x.load_shm_addr (pos 0) ≡ false) where
    cleanup-AllGone : AllGone (cleanup K true own x)
    unfolding cleanup
    cleanup-AllGone =
        let k1 = remove_own K own x.kernel in
        let k2 = K.remove semaphore x.load_sem_id k1 in
        let y = record x { kernel = k2 } in
        let f1 = remove_own-Fewer own x.kernel in
        let f2 : Fewer K x.kernel k2 =
          Fewer-trans K laws x.kernel k1 k2 f1 (remove-Fewer K laws semaphore x.load_sem_id k1) in
        (
          destroy_2cpu_ipcs-gone one y x.kernel (destroy_2cpu_ipcs K y).kernel a mapped f2
              (Fewer-refl _),
          removed_gone K laws semaphore (load_sem_key K) 1 x.load_sem_id x.kernel k1 _ a.1 f1
              (destroy_2cpu_ipcs-Fewer y) (one x.kernel semaphore (load_sem_key K)),
        )

    shutdown-AllGone : AllGone (shutdown K true own x)
    unfolding shutdown
    shutdown-AllGone =
        let k0 = (K.setval x.threshold_sem_id 2 x.kernel).1 in
        let k1 = remove_own K own k0 in
        let y = record x { kernel = k1 } in
        let k2 = (destroy_2cpu_ipcs K y).kernel in
        let f1 : Fewer K x.kernel k1 =
          Fewer-trans K laws x.kernel k0 k1
            (λ j at. inr (laws.setval_found x.threshold_sem_id 2 x.kernel j at))
            (remove_own-Fewer own k0) in
        let f2 : Fewer K x.kernel k2 =
          Fewer-trans K laws x.kernel k1 k2 f1 (destroy_2cpu_ipcs-Fewer y) in
        (
          destroy_2cpu_ipcs-gone one y x.kernel _ a mapped f1
              (remove-Fewer K laws semaphore x.load_sem_id k2),
          removed_gone K laws semaphore (load_sem_key K) 1 x.load_sem_id x.kernel k2 _ a.1 f2
              (Fewer-refl _) (one x.kernel semaphore (load_sem_key K)),
        )

  module _ (one : OneUser K) (s t : Ipcs K) (made : create_2cpu_ipcs K s ≡ ok (pos 0) t) where
    -- In whatever later state of the kernel the scheduler ends, if its user may remove the objects
    -- of the kernel, no object has gone since `create_2cpu_ipcs` returned 0, and its memory is not at the null address, `cleanup` and the
    -- end of `main` both leave nothing under the keys of the three queues, the load memory and the
    -- two semaphores that it shares with its sub-schedulers.
    pub create-cleanup-AllGone :
        (own : Own) (k : K.State)
        → ((j : Kind) → Kept K j t.kernel k)
        → eqb_ℤ t.load_shm_addr (pos 0) ≡ false
        → AllGone (cleanup K true own (record t { kernel = k }))
          × AllGone (shutdown K true own (record t { kernel = k }))
    create-cleanup-AllGone own k kept mapped =
        let a = made_all-Kept K laws s t made k kept in
        (
          cleanup-AllGone one own (record t { kernel = k }) a mapped,
          shutdown-AllGone one own (record t { kernel = k }) a mapped,
        )
