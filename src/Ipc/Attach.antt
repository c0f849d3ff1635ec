-- ===== src/Ipc/Attach.antt =====
-- `attach_2cpu_ipcs` and `create_ipcs` of sub-sched/sub_scheduler_functions.c.
use cpu_scheduler.Base.{ℤ, pos, minus_one, eqb_ℤ, if◌then◌else◌}
use cpu_scheduler.Run.{ok, exits, Cmd, pure, ◌>>=◌, ◌>>◌, modify}
use cpu_scheduler.Ipc.{Kernel, queue, memory, semaphore, attach, create, key_file}
use cpu_scheduler.Ipc.Create.{
  failed, sub1_key, sub2_key, response_key, load_key, load_sem_key, threshold_key,
}

-- The globals of a sub-scheduler.
pub record SubIpcs (K : Kernel) : Type 0 where
  pub kernel : K.State
  pub my_msgq_id : ℤ
  pub msgq_resp_id : ℤ
  pub load_shm : ℤ
  pub load_sem_id : ℤ
  pub threshold_sem_id : ℤ
  pub sem_id : ℤ
  pub rt_id : ℤ
  pub rt_addr : ℤ

module _ (K : Kernel) where
  abbrev pub in_kernel : {A : Type 0} → (K.State → A × K.State) → Cmd (SubIpcs K) A
  in_kernel f s = let (a, k) = f s.kernel in ok a (record s { kernel = k })

  abbrev pub my_key : ℤ → ℤ
  my_key cpu = if eqb_ℤ cpu (pos 1) then sub1_key K else sub2_key K

  -- 0, or -1 where a queue or the memory is missing.
  unfoldable pub attach_2cpu_ipcs : ℤ → Cmd (SubIpcs K) ℤ
  attach_2cpu_ipcs cpu = do
    mine ← in_kernel (K.get queue (my_key cpu) 0 attach)
    modify (λ s. record s { my_msgq_id = mine })
    if failed mine then pure minus_one else (do
      resp ← in_kernel (K.get queue (response_key K) 0 attach)
      modify (λ s. record s { msgq_resp_id = resp })
      if failed resp then pure minus_one else (do
        load ← in_kernel (K.get memory (load_key K) 16 attach)
        if failed load then pure minus_one else (do
          at ← in_kernel (K.shmat load)
          modify (λ s. record s { load_shm = at })
          if failed at then pure minus_one else (do
            sem ← in_kernel (K.get semaphore (load_sem_key K) 1 attach)
            modify (λ s. record s { load_sem_id = sem })
            if failed sem then (λ _. exits) else (do
              gate ← in_kernel (K.get semaphore (threshold_key K) 1 attach)
              modify (λ s. record s { threshold_sem_id = gate })
              if failed gate then (λ _. exits) else pure (pos 0))))))

  abbrev pub tick_key : ℤ → ℤ
  tick_key cpu = if eqb_ℤ cpu (pos 1) then K.ftok key_file 81 else K.ftok key_file 82

  abbrev pub rt_key : ℤ → ℤ
  rt_key cpu = if eqb_ℤ cpu (pos 1) then K.ftok key_file 83 else K.ftok key_file 84

  -- The memory of the remaining time and the tick semaphore of a CPU.
  unfoldable pub create_ipcs : ℤ → Cmd (SubIpcs K) (Unit {0})
  create_ipcs cpu = do
    rt ← in_kernel (K.get memory (rt_key cpu) 4 create)
    modify (λ s. record s { rt_id = rt })
    if failed rt then (λ _. exits) else (do
      at ← in_kernel (K.shmat rt)
      modify (λ s. record s { rt_addr = at })
      if failed at then (λ _. exits) else (do
        sem ← in_kernel (K.get semaphore (tick_key cpu) 1 create)
        modify (λ s. record s { sem_id = sem })
        if failed sem then (λ _. exits) else (do
          set ← in_kernel (K.setval sem 0)
          if failed set then (λ _. exits) else pure tt)))

  -- Behind SIGINT, and at the end of `main`: the kernel as the process exits.
  unfoldable pub sub_cleanup : SubIpcs K → K.State
  sub_cleanup s =
      K.remove memory s.rt_id
        (K.remove semaphore s.sem_id (K.shmdt s.load_shm (K.shmdt s.rt_addr s.kernel)))
