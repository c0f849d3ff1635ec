-- ===== src/Ipc/Create.antt =====
-- `create_2cpu_ipcs` and `destroy_2cpu_ipcs` of scheduler/scheduler_functions.c.
use cpu_scheduler.Base.{
  ℕ, zero, suc, Bool, true, false, ◌&&◌, ◌||◌, not, ℤ, pos, minus_one, eqb_ℤ, if◌then◌else◌,
}
use cpu_scheduler.Run.{ok, exits, Cmd, pure, ◌>>=◌, ◌>>◌, gets, modify, when}
use cpu_scheduler.Ipc.{
  Kernel, Kind, queue, memory, semaphore, attach, create, exclusive, Errno, eexist, einval, other,
  key_file,
}

-- The globals of the scheduler for its two sub-schedulers.
pub record Ipcs (K : Kernel) : Type 0 where
  pub kernel : K.State
  pub msgq_sub1_id : ℤ
  pub msgq_sub2_id : ℤ
  pub msgq_resp_id : ℤ
  pub load_shm_id : ℤ
  pub load_shm_addr : ℤ
  pub load_sem_id : ℤ
  pub threshold_sem_id : ℤ

abbrev pub failed : ℤ → Bool
failed r = eqb_ℤ r minus_one

abbrev pub may_replace : Errno → Bool
may_replace eexist = true
may_replace einval = true
may_replace other = false

module _ (K : Kernel) where
  abbrev pub in_kernel : {A : Type 0} → (K.State → A × K.State) → Cmd (Ipcs K) A
  in_kernel f s = let (a, k) = f s.kernel in ok a (record s { kernel = k })

  abbrev pub kernel_does : (K.State → K.State) → Cmd (Ipcs K) (Unit {0})
  kernel_does f = modify (λ s. record s { kernel = f s.kernel })

  abbrev pub sub1_key : ℤ
  sub1_key = K.ftok key_file 75

  abbrev pub sub2_key : ℤ
  sub2_key = K.ftok key_file 76

  abbrev pub response_key : ℤ
  response_key = K.ftok key_file 77

  abbrev pub load_key : ℤ
  load_key = K.ftok key_file 80

  abbrev pub load_sem_key : ℤ
  load_sem_key = K.ftok key_file 85

  abbrev pub threshold_key : ℤ
  threshold_key = K.ftok key_file 86

  -- Receives until nothing is left, with the rounds as fuel.
  unfoldable pub clear_pending : ℕ → ℤ → K.State → K.State
  clear_pending zero id k = k
  clear_pending (suc rounds) id k =
      let rest = clear_pending rounds id (K.receive id k).1 in
      if (K.receive id k).0 then rest else (K.receive id k).1

  unfoldable pub clear_queue : ℤ → K.State → K.State
  unfolding clear_pending
  clear_queue id k = clear_pending (suc (K.pending id k)) id k

  -- The value of the parts is whether the function goes on; it returns -1 where they say no.
  unfoldable pub create_queues : Cmd (Ipcs K) Bool
  create_queues = do
    q1 ← in_kernel (K.get queue sub1_key 0 create)
    modify (λ s. record s { msgq_sub1_id = q1 })
    if failed q1 then pure false else (do
      q2 ← in_kernel (K.get queue sub2_key 0 create)
      modify (λ s. record s { msgq_sub2_id = q2 })
      if failed q2 then pure false else (do
        q3 ← in_kernel (K.get queue response_key 0 create)
        modify (λ s. record s { msgq_resp_id = q3 })
        if failed q3 then pure false else (do
          kernel_does (clear_queue q1)
          kernel_does (clear_queue q2)
          kernel_does (clear_queue q3)
          pure true)))

  -- The segment of an earlier run is removed, and a new one asked for.
  unfoldable pub replace_load : Cmd (Ipcs K) ℤ
  replace_load = do
    old ← in_kernel (K.get memory load_key 1 attach)
    when (not (failed old)) (kernel_does (K.remove memory old))
    in_kernel (K.get memory load_key 16 exclusive)

  unfoldable pub get_load : Cmd (Ipcs K) ℤ
  get_load = do
    first ← in_kernel (K.get memory load_key 16 exclusive)
    why ← gets (λ s. K.errno s.kernel)
    if failed first && may_replace why then replace_load else pure first

  unfoldable pub create_load : Cmd (Ipcs K) Bool
  create_load = do
    id ← get_load
    modify (λ s. record s { load_shm_id = id })
    if failed id then pure false else (do
      at ← in_kernel (K.shmat id)
      modify (λ s. record s { load_shm_addr = at })
      if failed at then pure false else (do
        kernel_does (K.store at 0 (pos 0))
        kernel_does (K.store at 1 (pos 0))
        kernel_does (K.store at 2 (pos 0))
        kernel_does (K.store at 3 (pos 0))
        pure true))

  -- A new semaphore, or the one that is there, set to a value.
  unfoldable pub make_semaphore : (key : ℤ) → (val : ℕ) → Cmd (Ipcs K) ℤ
  make_semaphore key val = do
    fresh ← in_kernel (K.get semaphore key 1 exclusive)
    id ← (if failed fresh then in_kernel (K.get semaphore key 1 attach) else pure fresh)
    set ← in_kernel (K.setval id val)
    if failed set then (λ _. exits) else pure id

  unfoldable pub create_semaphores : Cmd (Ipcs K) (Unit {0})
  create_semaphores = do
    load ← make_semaphore load_sem_key 1
    modify (λ s. record s { load_sem_id = load })
    gate ← make_semaphore threshold_key 0
    modify (λ s. record s { threshold_sem_id = gate })

  -- 0, or -1 if a queue or the memory is not to be had.
  unfoldable pub create_2cpu_ipcs : Cmd (Ipcs K) ℤ
  create_2cpu_ipcs = do
    queues ← create_queues
    if not queues then pure minus_one else (do
      load ← create_load
      if not load then pure minus_one else (create_semaphores >> pure (pos 0)))

  unfoldable pub remove_unless_failed : Kind → ℤ → K.State → K.State
  remove_unless_failed kind id k = if failed id then k else K.remove kind id k

  -- The load memory is detached, found again by its key and removed; a null address is 0.
  unfoldable pub destroy_load : ℤ → K.State → K.State
  destroy_load at k =
      if eqb_ℤ at (pos 0) || failed at
      then k
      else (let (id, k') = K.get memory load_key 16 attach (K.shmdt at k) in
          remove_unless_failed memory id k')

  unfoldable pub destroy_2cpu_ipcs : Ipcs K → Ipcs K
  destroy_2cpu_ipcs s =
      let k1 = remove_unless_failed queue s.msgq_sub1_id s.kernel in
      let k2 = remove_unless_failed queue s.msgq_sub2_id k1 in
      let k3 = remove_unless_failed queue s.msgq_resp_id k2 in
      let k4 = destroy_load s.load_shm_addr k3 in
      record s {
        kernel = remove_unless_failed semaphore s.threshold_sem_id k4;
        threshold_sem_id = if failed s.threshold_sem_id then s.threshold_sem_id else minus_one;
      }
