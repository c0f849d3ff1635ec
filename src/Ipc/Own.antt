-- ===== src/Ipc/Own.antt =====
-- The objects that each sub-scheduler makes for itself.
use cpu_scheduler.Base.{ℕ, ◌≡◌, ◌≢◌, refl, inl, inr, none, ℤ, eqb_ℤ, eqb_ℤ→eq, sym, ◌∙◌, Bool-cases}
use cpu_scheduler.Run.{ok}
use cpu_scheduler.Run.Ends.{Ends, Ends-ok}
use cpu_scheduler.Ipc.{Kernel, Laws, OneUser, Kind, memory, semaphore, create}
use cpu_scheduler.Ipc.Create.{failed}
use cpu_scheduler.Ipc.Attach.{SubIpcs, rt_key, tick_key, create_ipcs, sub_cleanup}
use cpu_scheduler.Ipc.Objects.{Holds, Kept, Holds-Kept, got, get-Kept}
use cpu_scheduler.Ipc.Removal.{Fewer, Fewer-trans, remove-Fewer, removed_gone}

module _ (K : Kernel) (laws : Laws K) where
  -- What `create_ipcs` makes for a CPU.
  abbrev pub OwnMade : ℤ → SubIpcs K → K.State → Type 0
  OwnMade cpu v k =
      Holds K memory (rt_key K cpu) 4 v.rt_id k × Holds K semaphore (tick_key K cpu) 1 v.sem_id k

  create_ipcs-made :
      (cpu : ℤ) (u : SubIpcs K) → Ends (create_ipcs K cpu u) (λ _ v. OwnMade cpu v v.kernel)
  unfolding create_ipcs
  create_ipcs-made cpu u =
      let a = K.get memory (rt_key K cpu) 4 create u.kernel in
      let b = K.shmat a.0 a.1 in
      let c = K.get semaphore (tick_key K cpu) 1 create b.1 in
      let d = K.setval c.0 0 c.1 in
      elim (Bool-cases (failed a.0)) [
        | inl e ↦ rw e tt
        | inr e ↦ elim (Bool-cases (failed b.0)) [
          | inl f ↦ rw (e, f) tt
          | inr f ↦ elim (Bool-cases (failed c.0)) [
            | inl g ↦ rw (e, f, g) tt
            | inr g ↦ elim (Bool-cases (failed d.0)) [
              | inl h ↦ rw (e, f, g, h) tt
              | inr h ↦
                  rw (e, f, g, h)
                    (
                      Holds-Kept K memory (rt_key K cpu) 4 a.0 a.1 d.1
                          (λ at o i.
                            laws.setval_found c.0 0 c.1 memory at
                            ∙ get-Kept K laws memory semaphore (tick_key K cpu) 1 create b.1 at o
                                (laws.shmat_found a.0 a.1 memory at ∙ i))
                          (got K laws memory (rt_key K cpu) 4 create u.kernel e),
                      Holds-Kept K semaphore (tick_key K cpu) 1 c.0 c.1 d.1
                          (λ at o i. laws.setval_found c.0 0 c.1 semaphore at ∙ i)
                          (got K laws semaphore (tick_key K cpu) 1 create b.1 g),
                    )
            ]
          ]
        ]
      ]

  -- Different keys lead to different ids.
  ids_apart :
      (k : Kind) (a b : ℤ) (n : ℕ) (i j : ℤ) (s : K.State)
      → a ≢ b
      → Holds K k a n i s
      → Holds K k b n j s
      → i ≢ j
  ids_apart k a b n i j s keys (o, f, d, _) (p, g, e, _) same =
      laws.found_apart k a b s o p keys f g (d ∙ same ∙ sym e)

  -- An object stays when one with another id is removed.
  remove_stays :
      (k : Kind) (key : ℤ) (n : ℕ) (i j : ℤ) (s : K.State)
      → i ≢ j
      → Holds K k key n i s
      → Holds K k key n i (K.remove k j s)
  remove_stays k key n i j s apart (o, f, d, b) = elim (Bool-cases (eqb_ℤ o.id j)) [
    | inl e ↦ absurd (apart (sym d ∙ eqb_ℤ→eq o.id j e))
    | inr e ↦ (o, laws.remove_found k j key s ∙ rw f (rw e refl), d, b)
  ]

  other_stays :
      (k j : Kind) (key : ℤ) (n : ℕ) (i id : ℤ) (s : K.State)
      → k ≢ j
      → Holds K k key n i s
      → Holds K k key n i (K.remove j id s)
  other_stays k j key n i id s kinds (o, f, d, b) =
      (o, laws.remove_other j k id key s kinds ∙ f, d, b)

  shmdt_stays :
      (k : Kind) (key : ℤ) (n : ℕ) (i at : ℤ) (s : K.State)
      → Holds K k key n i s
      → Holds K k key n i (K.shmdt at s)
  shmdt_stays k key n i at s (o, f, d, b) = (o, laws.shmdt_found at s k key ∙ f, d, b)

  -- When `create_ipcs` has returned for two CPUs whose keys differ, the second one after the first,
  -- their memories and their tick semaphores are different objects. In whatever later state the
  -- first CPU ends, if the user of the programs may remove the objects of the kernel and no object
  -- has gone before, its end leaves nothing under its two keys, and
  -- the two objects of the second CPU stay.
  pub create_ipcs-apart :
      (one : OneUser K) (a b : ℤ) (u v u' v' : SubIpcs K) (k : K.State)
      → create_ipcs K a u ≡ ok tt v
      → create_ipcs K b u' ≡ ok tt v'
      → rt_key K a ≢ rt_key K b
      → tick_key K a ≢ tick_key K b
      → ((j : Kind) → Kept K j v.kernel k)
      → ((j : Kind) → Kept K j v'.kernel k)
      → (v.rt_id ≢ v'.rt_id)
        × (v.sem_id ≢ v'.sem_id)
        × (K.found memory (rt_key K a) (sub_cleanup K (record v { kernel = k })) ≡ none)
        × (K.found semaphore (tick_key K a) (sub_cleanup K (record v { kernel = k })) ≡ none)
        × OwnMade b v' (sub_cleanup K (record v { kernel = k }))
  unfolding sub_cleanup
  create_ipcs-apart one a b u v u' v' k made made' rt_keys tick_keys kept kept' =
      let h =
        Ends-ok (λ _ x. OwnMade a x x.kernel) (create_ipcs K a u) tt v (create_ipcs-made a u)
          made in
      let h' =
        Ends-ok (λ _ x. OwnMade b x x.kernel) (create_ipcs K b u') tt v' (create_ipcs-made b u')
          made' in
      let m = Holds-Kept K memory (rt_key K a) 4 v.rt_id v.kernel k (kept memory) h.0 in
      let s = Holds-Kept K semaphore (tick_key K a) 1 v.sem_id v.kernel k (kept semaphore) h.1 in
      let m' = Holds-Kept K memory (rt_key K b) 4 v'.rt_id v'.kernel k (kept' memory) h'.0 in
      let s' =
        Holds-Kept K semaphore (tick_key K b) 1 v'.sem_id v'.kernel k (kept' semaphore) h'.1 in
      let memories = ids_apart memory (rt_key K a) (rt_key K b) 4 v.rt_id v'.rt_id k rt_keys m m' in
      let ticks =
        ids_apart semaphore (tick_key K a) (tick_key K b) 1 v.sem_id v'.sem_id k tick_keys s s' in
      let k1 = K.shmdt v.rt_addr k in
      let k2 = K.shmdt v.load_shm k1 in
      let k3 = K.remove semaphore v.sem_id k2 in
      let k4 = K.remove memory v.rt_id k3 in
      let f2 : Fewer K k k2 =
        Fewer-trans K laws k k1 k2 (λ j at. inr (laws.shmdt_found v.rt_addr k j at))
          (λ j at. inr (laws.shmdt_found v.load_shm k1 j at)) in
      let f3 : Fewer K k k3 =
        Fewer-trans K laws k k2 k3 f2 (remove-Fewer K laws semaphore v.sem_id k2) in
      (
        memories,
        ticks,
        removed_gone K laws memory (rt_key K a) 4 v.rt_id k k3 k4 m f3 (λ j at. inr refl)
            (one k memory (rt_key K a)),
        removed_gone K laws semaphore (tick_key K a) 1 v.sem_id k k2 k4 s f2
            (remove-Fewer K laws memory v.rt_id k3) (one k semaphore (tick_key K a)),
        (
          remove_stays memory (rt_key K b) 4 v'.rt_id v.rt_id k3 (λ e. memories (sym e))
              (other_stays memory semaphore (rt_key K b) 4 v'.rt_id v.sem_id k2 (λ e. cc)
                (shmdt_stays memory (rt_key K b) 4 v'.rt_id v.load_shm k1
                  (shmdt_stays memory (rt_key K b) 4 v'.rt_id v.rt_addr k m'))),
          other_stays semaphore memory (tick_key K b) 1 v'.sem_id v.rt_id k3 (λ e. cc)
              (remove_stays semaphore (tick_key K b) 1 v'.sem_id v.sem_id k2 (λ e. ticks (sym e))
                (shmdt_stays semaphore (tick_key K b) 1 v'.sem_id v.load_shm k1
                  (shmdt_stays semaphore (tick_key K b) 1 v'.sem_id v.rt_addr k s'))),
        ),
      )
