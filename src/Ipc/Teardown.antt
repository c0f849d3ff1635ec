-- ===== src/Ipc/Teardown.antt =====
-- How scheduler/ gives its objects back: `cleanup` of scheduler/scheduler_functions.c, and the end
-- of `main` of scheduler/scheduler.c.
use cpu_scheduler.Base.{Bool, ℤ, if◌then◌else◌}
use cpu_scheduler.Ipc.{Kernel, queue, memory, semaphore}
use cpu_scheduler.Ipc.Create.{Ipcs, destroy_2cpu_ipcs}

-- The other globals that name an object.
pub record Own : Type 0 where
  pub msgq_id : ℤ
  pub sem_id : ℤ
  pub rt_id : ℤ
  pub rt_addr : ℤ

module _ (K : Kernel) where
  -- The queue from the generator, the tick semaphore and the remaining time.
  unfoldable pub remove_own : Own → K.State → K.State
  remove_own own k =
      K.remove memory own.rt_id
        (K.shmdt own.rt_addr (K.remove semaphore own.sem_id (K.remove queue own.msgq_id k)))

  -- Behind SIGINT; the kernel as the process exits.
  unfoldable pub cleanup : (sub_cpu_created : Bool) → Own → Ipcs K → K.State
  cleanup sub_cpu_created own s =
      let k = K.remove semaphore s.load_sem_id (remove_own own s.kernel) in
      if sub_cpu_created then (destroy_2cpu_ipcs K (record s { kernel = k })).kernel else k

  -- The end of `main`: the gate is opened for both sub-schedulers, which are waited for.
  unfoldable pub shutdown : (sub_cpu_created : Bool) → Own → Ipcs K → K.State
  shutdown sub_cpu_created own s =
      let opened =
        if sub_cpu_created then (K.setval s.threshold_sem_id 2 s.kernel).1 else s.kernel in
      let k = remove_own own opened in
      K.remove semaphore s.load_sem_id
        (if sub_cpu_created then (destroy_2cpu_ipcs K (record s { kernel = k })).kernel else k)
