-- ===== src/Tests/Schedules.antt =====
-- Tests of the properties of the scheduler with three algorithms.
use mathlib.Core.List.{Perm}
use cpu_scheduler.Base.{◌≡◌, refl, some, [], ◌∷◌, ◌++◌, map, arith, pos, ◌+ℤ◌, ◌-ℤ◌, abs}
use cpu_scheduler.Queue.Order.{IsOrdered}
use cpu_scheduler.Scheduler.State.{Sched}
use cpu_scheduler.Scheduler.Dispatch.{self, hpf_algo}
use cpu_scheduler.Scheduler.Dispatch.Priority.{Settled, hpf_algo-Settled}
use cpu_scheduler.Types.{running}
use cpu_scheduler.Scheduler.Dispatch.{rr_algo}
use cpu_scheduler.Scheduler.Dispatch.Rotation.{rotated, on_cpu, rr_algo-rotates}
use cpu_scheduler.Scheduler.Routing.{Routes, route_all}
use cpu_scheduler.Scheduler.Routing.Balance.{
  Within, ready_total, time_total, message, route_all-Within,
}
use cpu_scheduler.Scheduler.Stealing.{imbalance, check_threshold}
use cpu_scheduler.Scheduler.Stealing.Conservation.{CanSteal, Moves, check_threshold-Moves}
use cpu_scheduler.Tests.Data.{platform, pcb, two_pcbs, load, sched, stolen}

two_pcbs-IsOrdered : IsOrdered self two_pcbs.items
two_pcbs-IsOrdered = ((omega arith, tt), (tt, tt))

hpf_algo-Settled_example : (s' : Sched platform) × (hpf_algo sched ≡ some s') × Settled s'
hpf_algo-Settled_example = hpf_algo-Settled (λ id. refl) sched two_pcbs-IsOrdered

abbrev no_routes : Routes
no_routes = record { load = load; sub1 = []; sub2 = [] }

route_all-Within_example :
    Within 1 (route_all two_pcbs.items no_routes).load
    × (ready_total (route_all two_pcbs.items no_routes).load ≡ pos 5)
    × (time_total (route_all two_pcbs.items no_routes).load ≡ pos 20)
    × Perm
        ((route_all two_pcbs.items no_routes).sub1 ++ (route_all two_pcbs.items no_routes).sub2)
        (map message two_pcbs.items ++ [])
unfolding ◌+ℤ◌
route_all-Within_example =
    route_all-Within 1 two_pcbs.items no_routes (omega arith) (omega arith, omega arith)

stolen-CanSteal : CanSteal (pos 5) stolen load
unfolding imbalance abs ◌-ℤ◌
stolen-CanSteal = (omega arith, refl, omega arith, omega arith)

check_threshold-Moves_example :
    Moves (pos 3) load (check_threshold (pos 5) (pos 2) (some stolen) sched).load
check_threshold-Moves_example = check_threshold-Moves (pos 5) (pos 2) stolen sched stolen-CanSteal

-- The quantum of process 3 is over.
abbrev expired : Sched platform
expired = record sched { next_preemption_time = pos 5 }

rr_algo-rotates_example :
    (s' : Sched platform) × (rr_algo (pos 2) expired ≡ some s')
    × (s'.ready.items ≡ pcb 2 1 5 ∷ rotated (pcb 3 1 4) expired ∷ [])
    × (s'.clk ≡ pos 6 +ℤ pos 1)
    × (s'.next_preemption_time ≡ pos 6 +ℤ pos 1 +ℤ pos 2)
    × (on_cpu s'.curr ≡ some (pos 1, running))
rr_algo-rotates_example =
    rr_algo-rotates (λ id. refl) (pos 2) expired (pcb 3 1 4) (pcb 1 0 2) (pcb 2 1 5 ∷ []) refl refl
      refl refl refl
