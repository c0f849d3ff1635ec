-- ===== src/Ipc/Foreign.antt =====
-- The semaphore that scheduler/ removes without having made it.
use cpu_scheduler.Base.{
  ◌≡◌, refl, ◌∙◌, inl, inr, Bool, true, false, none, some, ℤ, pos, eqb_ℤ, Bool-cases, arith,
  if◌then◌else◌,
}
use cpu_scheduler.Ipc.{Kernel, Laws, Object, queue, memory, semaphore}
use cpu_scheduler.Ipc.Create.{Ipcs}
use cpu_scheduler.Ipc.Removal.{removed_gone}
use cpu_scheduler.Ipc.Cleanup.{remove_own-Fewer}
use cpu_scheduler.Ipc.Teardown.{Own, remove_own, cleanup, shutdown}

module _ (K : Kernel) (laws : Laws K) where
  -- A semaphore of another user outlasts every removal.
  remove_refused :
      (id key : ℤ) (o : Object) (s : K.State)
      → o.ours ≡ false
      → K.found semaphore key s ≡ some o
      → K.found semaphore key (K.remove semaphore id s) ≡ some o
  remove_refused id key o s other f =
      laws.remove_found semaphore id key s
      ∙ rw (f, other) (elim (Bool-cases (eqb_ℤ o.id id)) [ inl e ↦ rw e refl | inr e ↦ rw e refl ])

  remove_own_refused :
      (own : Own) (key : ℤ) (o : Object) (s : K.State)
      → o.ours ≡ false
      → K.found semaphore key s ≡ some o
      → K.found semaphore key (remove_own K own s) ≡ some o
  unfolding remove_own
  remove_own_refused own key o s other f =
      let k1 = K.remove queue own.msgq_id s in
      let k2 = K.remove semaphore own.sem_id k1 in
      laws.remove_other memory semaphore own.rt_id key (K.shmdt own.rt_addr k2) (λ e. cc)
      ∙ laws.shmdt_found own.rt_addr k2 semaphore key
      ∙ remove_refused own.sem_id key o k1 other
          (laws.remove_other queue semaphore own.msgq_id key s (λ e. cc) ∙ f)

  -- The removal by the id 0, behind that of the own objects.
  zero_removed :
      (own : Own) (key : ℤ) (o : Object) (s : K.State) (ours : Bool)
      → o.ours ≡ ours
      → K.found semaphore key s ≡ some o
      → o.id ≡ pos 0
      → K.found semaphore key (K.remove semaphore (pos 0) (remove_own K own s))
        ≡ (if ours then none else some o)
  zero_removed own key o s true mine f e =
      removed_gone K laws semaphore key 0 (pos 0) s (remove_own K own s) _ (o, f, e, omega arith)
        (remove_own-Fewer K laws own s) (λ k at. inr refl) (λ p g. ground arith)
  zero_removed own key o s false other f e =
      remove_refused (pos 0) key o (remove_own K own s) other
        (remove_own_refused own key o s other f)

  -- Without sub-schedulers nothing sets `load_sem_id`, which a C program begins with at 0. A
  -- semaphore with the id 0 that another program has made is gone behind `cleanup` and behind the
  -- end of `main` if the user of the scheduler may remove it, and otherwise stays.
  pub shutdown_removes_foreign :
      (own : Own) (x : Ipcs K) (key : ℤ) (o : Object)
      → x.load_sem_id ≡ pos 0
      → K.found semaphore key x.kernel ≡ some o
      → o.id ≡ pos 0
      → (K.found semaphore key (cleanup K false own x) ≡ (if o.ours then none else some o))
        × (K.found semaphore key (shutdown K false own x) ≡ (if o.ours then none else some o))
  unfolding cleanup shutdown
  shutdown_removes_foreign own x key o unset f e =
      let one = zero_removed own key o x.kernel o.ours refl f e in rw unset (one, one)
