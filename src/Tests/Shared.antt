-- ===== src/Tests/Shared.antt =====
-- The results on the objects of Ipc, on the kernel of Objects.
use cpu_scheduler.Base.{arith, ◌≡◌, ◌≢◌, refl, true, false, none, pos, minus_one}
use cpu_scheduler.Run.{ok}
use cpu_scheduler.Ipc.{queue, memory, semaphore, Kind}
use cpu_scheduler.Ipc.Create.{
  Ipcs, create_2cpu_ipcs, create_queues, clear_queue, clear_pending, create_load, get_load,
  create_semaphores, make_semaphore,
}
use cpu_scheduler.Ipc.Attach.{SubIpcs, attach_2cpu_ipcs, create_ipcs, sub_cleanup, rt_key, tick_key}
use cpu_scheduler.Ipc.Own.{OwnMade, create_ipcs-apart}
use cpu_scheduler.Ipc.Objects.{Kept}
use cpu_scheduler.Ipc.Sharing.{attach_2cpu_ipcs-finds, queue_of}
use cpu_scheduler.Ipc.Cleanup.{AllGone, create-cleanup-AllGone}
use cpu_scheduler.Ipc.Teardown.{Own, cleanup, shutdown}
use cpu_scheduler.Ipc.Foreign.{shutdown_removes_foreign}
use cpu_scheduler.Tests.Objects.{Sizes, kernel, laws, one_user, with_object, with_object-keeps}

abbrev nothing : Sizes
nothing k key = none

-- The globals as the program begins.
abbrev fresh : Ipcs kernel
fresh = record {
  kernel = nothing;
  msgq_sub1_id = pos 0;
  msgq_sub2_id = pos 0;
  msgq_resp_id = pos 0;
  load_shm_id = pos 0;
  load_shm_addr = pos 0;
  load_sem_id = pos 0;
  threshold_sem_id = minus_one;
}

abbrev sizes : Sizes
sizes = with_object semaphore (pos 86) 1 (
    with_object semaphore (pos 85) 1 (
      with_object memory (pos 80) 16 (
        with_object queue (pos 77) 0
          (with_object queue (pos 76) 0 (with_object queue (pos 75) 0 nothing)))))

abbrev made : Ipcs kernel
made = record {
  kernel = sizes;
  msgq_sub1_id = pos 150;
  msgq_sub2_id = pos 152;
  msgq_resp_id = pos 154;
  load_shm_id = pos 160;
  load_shm_addr = pos 4096;
  load_sem_id = pos 170;
  threshold_sem_id = pos 172;
}

create_makes : create_2cpu_ipcs kernel fresh ≡ ok (pos 0) made
unfolding create_2cpu_ipcs create_queues clear_queue clear_pending create_load get_load
    create_semaphores make_semaphore
create_makes = refl

abbrev sub : SubIpcs kernel
sub = record {
  kernel = sizes;
  my_msgq_id = pos 0;
  msgq_resp_id = pos 0;
  load_shm = pos 0;
  load_sem_id = pos 0;
  threshold_sem_id = minus_one;
  sem_id = pos 0;
  rt_id = pos 0;
  rt_addr = pos 0;
}

keys_differ : pos 75 ≢ pos 76
keys_differ e = ground arith

attach_2cpu_ipcs-finds_example :
    (attach_2cpu_ipcs kernel (pos 2) sub
      ≡ ok (pos 0) (record sub {
        my_msgq_id = pos 152;
        msgq_resp_id = pos 154;
        load_shm = pos 4096;
        load_sem_id = pos 170;
        threshold_sem_id = pos 172;
      }))
    × (queue_of kernel laws fresh made create_makes (pos 1)
        ≢ queue_of kernel laws fresh made create_makes (pos 2))
attach_2cpu_ipcs-finds_example =
    attach_2cpu_ipcs-finds kernel laws fresh made create_makes sub (pos 2) (λ j at o f. f) refl
      keys_differ

abbrev own : Own
own = record { msgq_id = pos 3; sem_id = pos 5; rt_id = pos 7; rt_addr = pos 4096 }

create-cleanup-AllGone_example :
    AllGone kernel laws (cleanup kernel true own made)
    × AllGone kernel laws (shutdown kernel true own made)
create-cleanup-AllGone_example =
    create-cleanup-AllGone kernel laws one_user fresh made create_makes own sizes (λ j at o f. f)
      refl

-- A program has the semaphore with the key 0, and with the id 0 in this kernel.
abbrev other_program : Ipcs kernel
other_program = record fresh { kernel = with_object semaphore (pos 0) 3 nothing }

shutdown_removes_foreign_example :
    (kernel.found semaphore (pos 0) (cleanup kernel false own other_program) ≡ none)
    × (kernel.found semaphore (pos 0) (shutdown kernel false own other_program) ≡ none)
shutdown_removes_foreign_example =
    shutdown_removes_foreign kernel laws own other_program (pos 0)
      (record { id = pos 0; size = 3; ours = true }) refl refl refl

abbrev first_sizes : Sizes
first_sizes = with_object semaphore (pos 81) 1 (with_object memory (pos 83) 4 sizes)

abbrev both_sizes : Sizes
both_sizes = with_object semaphore (pos 82) 1 (with_object memory (pos 84) 4 first_sizes)

abbrev first : SubIpcs kernel
first = record sub { kernel = first_sizes; rt_id = pos 166; rt_addr = pos 4096; sem_id = pos 162 }

abbrev second : SubIpcs kernel
second = record sub { kernel = both_sizes; rt_id = pos 168; rt_addr = pos 4096; sem_id = pos 164 }

create_first : create_ipcs kernel (pos 1) sub ≡ ok tt first
unfolding create_ipcs
create_first = refl

create_second : create_ipcs kernel (pos 2) (record sub { kernel = first_sizes }) ≡ ok tt second
unfolding create_ipcs
create_second = refl

memories_differ : rt_key kernel (pos 1) ≢ rt_key kernel (pos 2)
memories_differ e = ground arith

ticks_differ : tick_key kernel (pos 1) ≢ tick_key kernel (pos 2)
ticks_differ e = ground arith

first_stays : (j : Kind) → Kept kernel j first_sizes both_sizes
first_stays j at o f =
    with_object-keeps semaphore j (pos 82) at 1 (with_object memory (pos 84) 4 first_sizes) refl o
      (with_object-keeps memory j (pos 84) at 4 first_sizes refl o f)

create_ipcs-apart_example :
    (pos 166 ≢ pos 168)
    × (pos 162 ≢ pos 164)
    × (kernel.found memory (pos 83) (sub_cleanup kernel (record first { kernel = both_sizes }))
        ≡ none)
    × (kernel.found semaphore (pos 81) (sub_cleanup kernel (record first { kernel = both_sizes }))
        ≡ none)
    × OwnMade kernel laws (pos 2) second (sub_cleanup kernel (record first { kernel = both_sizes }))
create_ipcs-apart_example =
    create_ipcs-apart kernel laws one_user (pos 1) (pos 2) sub first
      (record sub { kernel = first_sizes }) second both_sizes create_first create_second
      memories_differ ticks_differ first_stays (λ j at o f. f)
