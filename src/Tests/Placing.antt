-- ===== src/Tests/Placing.antt =====
-- Scheduling and rescheduling in the world of two clusters.
use proxima_scheduler.Prelude.{String, ◌≡◌, refl, some, [], ◌∷◌, string_eq}
use proxima_scheduler.Kube.{client}
use proxima_scheduler.Map.{Map}
use proxima_scheduler.Map
use proxima_scheduler.Prelude.Int.{pos}
use proxima_scheduler.Float.{Micro, micro, micro_float, Micro-IsOrdered}
use proxima_scheduler.Effect.Posts.{Returns, writes}
use proxima_scheduler.Scheduler.Selection.{get_node_ip_for_schedule, select_node, at_most, Limit}
use proxima_scheduler.Scheduler.Selection.Feasible.{Served, All-Served}
use proxima_scheduler.Scheduler.Selection.Chosen.{Chosen, get_node_ip_for_schedule-Chosen}
use proxima_scheduler.Scheduler.Selection.Complete.{IsOptimal, Named, select_node-IsOptimal}
use proxima_scheduler.Scheduler.Placing.{local_client, get_node_scores, schedule_pod}
use proxima_scheduler.Scheduler.Selection.Optimal.{Steady}
use proxima_scheduler.Scheduler.Placing.Scored.{AllFrom, get_node_scores-AllFrom}
use proxima_scheduler.Scheduler.Rescheduling.{reconcile_pods}
use proxima_scheduler.Scheduler.Rescheduling.Moves.{Moves}
use proxima_scheduler.Scheduler.Rescheduling.Reconciled.{reconcile_pods-Moves}
use proxima_scheduler.Scheduler.Hashing.{
  strip_hash, with_new_hashed_name, strip_hash-with_new_hashed_name,
}
use proxima_scheduler.Effect.Ends.{Ends}
use proxima_scheduler.Scheduler.Placing.Schedule.{IsPlaced, IsUntracked, schedule_pod-IsPlaced}
use proxima_scheduler.Scheduler.Rescheduling.{reschedule_pod}
use proxima_scheduler.Scheduler.Rescheduling.Replace.{IsReplaced, reschedule_pod-IsReplaced}
use proxima_scheduler.Tests.World.{world, plain_pod, sched, two_scores, world-IsHexadecimal}

served : Served sched two_scores
unfolding Map.lookup
served = All-Served sched two_scores ((client 0, refl), ((client 1, refl), tt))

get_node_ip_for_schedule-Chosen_example :
    Returns
      (get_node_ip_for_schedule world sched two_scores plain_pod [])
      (λ r k. (writes k ≡ writes []) × Chosen world sched plain_pod two_scores r)
get_node_ip_for_schedule-Chosen_example =
    get_node_ip_for_schedule-Chosen world sched plain_pod two_scores [] served

abbrev edges : Map String (Map String Micro)
edges = ("10.9.9.9", ("10.0.1.1", micro (pos 2_000_000)) ∷ []) ∷ []

abbrev limit : Limit
limit = at_most (pos 5_000_000)

named : Named two_scores
named = ((λ e. cc, tt), ((λ e. cc, tt), tt))

steady : Steady world
steady h c = refl

select_node-IsOptimal_example :
    Returns
      (select_node world sched plain_pod limit edges two_scores [])
      (λ r k. IsOptimal world sched plain_pod limit edges two_scores r)
select_node-IsOptimal_example =
    select_node-IsOptimal world sched plain_pod limit edges two_scores steady Micro-IsOrdered served
      [] named

has_local : local_client sched ≡ some (client 0)
unfolding Map.lookup
has_local = refl

schedule_pod-IsPlaced_example :
    Ends
      (schedule_pod world sched plain_pod [])
      (IsPlaced world sched plain_pod (client 0) (writes []))
      (IsUntracked world sched plain_pod (client 0) (writes []))
schedule_pod-IsPlaced_example =
    schedule_pod-IsPlaced world sched plain_pod (client 0) has_local world-IsHexadecimal []

get_node_scores-AllFrom_example :
    Returns (get_node_scores world sched []) (λ r k. (writes k ≡ writes []) × AllFrom world sched r)
get_node_scores-AllFrom_example = get_node_scores-AllFrom world sched []

reschedule_pod-IsReplaced_example :
    Returns
      (reschedule_pod world sched plain_pod two_scores "local" (some (client 0)) [])
      (IsReplaced world sched plain_pod "local" (client 0) (writes []))
reschedule_pod-IsReplaced_example =
    reschedule_pod-IsReplaced world sched plain_pod "local" (client 0) world-IsHexadecimal
      two_scores [] served

strip_hash-with_new_hashed_name_example :
    Returns
      (with_new_hashed_name world "web-0" [])
      (λ new k. (writes k ≡ writes []) × (strip_hash new ≡ strip_hash "web-0"))
strip_hash-with_new_hashed_name_example =
    strip_hash-with_new_hashed_name world "web-0" [] world-IsHexadecimal

reconcile_pods-Moves_example : Returns (reconcile_pods world sched []) (λ t k.
    (t.clientsets ≡ sched.clientsets)
    × (t.scheduler_name ≡ sched.scheduler_name)
    × Moves sched (writes []) (writes k))
reconcile_pods-Moves_example = reconcile_pods-Moves world world-IsHexadecimal sched []
