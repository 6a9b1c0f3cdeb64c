-- ===== src/Tests/Running.antt =====
-- A pinger that runs for two rounds and is stopped, and a scheduler that runs.
use proxima_scheduler.Prelude.{
  ◌≡◌, ◌≢◌, ap, refl, String, true, false, some, List, [], ◌∷◌, ◌++◌, string_eq,
}
use proxima_scheduler.Prelude.Int.{pos}
use proxima_scheduler.Map.{Map}
use proxima_scheduler.Map
use proxima_scheduler.Kube.{client}
use proxima_scheduler.Effect.{ok, err, api_error}
use proxima_scheduler.Float.{Micro, micro_float}
use proxima_scheduler.Pinger.States.{Reached, updated, started}
use proxima_scheduler.Pinger.Running.{
  Answers, Run, ran, ticks, tick, stop, run, unsaved, run_stopped, round,
}
use proxima_scheduler.Pinger.Saving.{points_of, found_latency, round_read}
use proxima_scheduler.Database.{Point, Answer, rows}
use proxima_scheduler.Database.Queries.{Query, get_average_ping_time_by_edges}
use proxima_scheduler.Database.Answers.{rows_of}
use proxima_scheduler.Database.Saved.{in_ms}
use proxima_scheduler.Effect.Posts.{writes}
use proxima_scheduler.Effect.Ends.{Ends}
use proxima_scheduler.Scheduler.Placing.{local_client}
use proxima_scheduler.Scheduler.Running.{Event, pod_added}
use proxima_scheduler.Scheduler.Running
use proxima_scheduler.Scheduler.Running.Justified.{Justified}
use proxima_scheduler.Scheduler.Running.Runs.{run-Justified}
use proxima_scheduler.Tests.World.{node_at, world, world-IsHexadecimal, sched, plain_pod}
use proxima_scheduler.Tests.Pinger.{at_start, two_nodes, ping, latency_of, one_node}

abbrev round_answers : Answers
round_answers = record { discovered = ok two_nodes; ping = ping; latency_of = latency_of }

abbrev lost_answers : Answers
lost_answers = record { discovered = err api_error; ping = ping; latency_of = latency_of }

abbrev two_rounds : List Answers
two_rounds = round_answers ∷ lost_answers ∷ []

run_stopped_example :
    (r : Run) × (run (ok two_nodes) (ticks two_rounds) at_start ≡ ran r)
    × (r.ended ≡ false)
    × (run (ok two_nodes) (ticks two_rounds ++ stop ∷ tick round_answers ∷ []) at_start
        ≡ ran (record r {
          saves =
              r.saves ++ unsaved r.pinger.db_enabled r.pinger.latencies r.pinger.external_node_ip;
          ended = true;
        }))
run_stopped_example = run_stopped (ok two_nodes) two_rounds (tick round_answers ∷ []) at_start refl

abbrev one_node-Reached : Reached one_node
one_node-Reached =
    updated (node_at "far" "10.0.1.1" ∷ []) at_start
      (started (pos 10) (some (client 0)) true "10.0.0.1" "" ("172.18.0.2", "172.18.0.3" ∷ []))

abbrev round_points : List (Point Micro)
round_points = points_of (round round_answers one_node).1

abbrev evaluate : Query → Answer Micro
evaluate q = rows (rows_of q.filters round_points) false

round_read_example :
    (m : Map String (Map String Micro)) × (get_average_ping_time_by_edges "proxima" evaluate ≡ ok m)
    × ((s d : String)
        → s ≢ one_node.external_node_ip
        → Map.lookup d (Map.get_or [] s m)
          ≡ in_ms (found_latency round_answers two_nodes one_node s d))
round_read_example =
    round_read round_answers two_nodes one_node "proxima" evaluate [] one_node-Reached refl tt
      (λ q e g. ap (λ f. rows (rows_of f round_points) false) e)

sched_local : local_client sched ≡ some (client 0)
unfolding Map.lookup
sched_local = refl

abbrev three_events : List Event
three_events = Event.tick ∷ pod_added plain_pod ∷ Event.tick ∷ []

run-Justified_example :
    Ends
      (Running.run world three_events sched [])
      (λ t k.
        (t.clientsets ≡ sched.clientsets)
        × (t.scheduler_name ≡ sched.scheduler_name)
        × Justified world sched (writes k))
      (λ k. Justified world sched (writes k))
run-Justified_example =
    run-Justified world sched (client 0) sched_local world-IsHexadecimal three_events
