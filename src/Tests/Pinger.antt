-- ===== src/Tests/Pinger.antt =====
-- A pinger that knows one node, finds another one, and aggregates.
use proxima_scheduler.Prelude.{
  ◌≡◌, String, true, some, List, [], ◌∷◌, ◌==◌, string_eq, if◌then◌else◌,
}
use proxima_scheduler.Prelude.Int.{ℤ, pos}
use proxima_scheduler.Map.{Map, IsUnique}
use proxima_scheduler.Map
use proxima_scheduler.Kube.{client, Node}
use proxima_scheduler.Effect.{Result, ok}
use proxima_scheduler.Nodes.{is_edge_proxy}
use proxima_scheduler.Pinger.{
  Pinger, key_eq, pinger_with, Ping, unanswered, answered, ping_all, update_from,
  aggregate_latencies, saved_sums,
}
use proxima_scheduler.Pinger.Addresses.{any_tracked, member, IsUpdated, update_from_lem}
use proxima_scheduler.Pinger.Rounds.{over_this_node, aggregate_latencies_lem}
use proxima_scheduler.Pinger.States.{
  IsConsistent, Reached, started, updated, pinged_all, aggregated, Reached-IsConsistent,
}
use proxima_scheduler.Tests.World.{node_at}

abbrev pub at_start : Pinger
at_start =
    pinger_with (pos 10) (some (client 0)) true "10.0.0.1" "" ("172.18.0.2", "172.18.0.3" ∷ [])

abbrev pub two_nodes : List Node
two_nodes = node_at "near" "10.0.0.1" ∷ node_at "far" "10.0.1.1" ∷ []

abbrev pub ping : String → Ping
ping address = if address == "10.0.1.1" then answered (pos 7) else unanswered

abbrev pub latency_of : String → String → Result ℤ
latency_of source destination = ok (pos 5)

abbrev pub one_node : Pinger
one_node = update_from (node_at "far" "10.0.1.1" ∷ []) at_start

abbrev after_round : Pinger
after_round = (aggregate_latencies latency_of (ping_all ping one_node).0).0

after_round_reached : Reached after_round
after_round_reached = aggregated latency_of (ping_all ping one_node).0 (
    pinged_all ping one_node (
      updated (node_at "far" "10.0.1.1" ∷ []) at_start
        (started (pos 10) (some (client 0)) true "10.0.0.1" "" ("172.18.0.2", "172.18.0.3" ∷ []))))

one_node-IsConsistent : IsConsistent one_node
one_node-IsConsistent = Reached-IsConsistent one_node (
    updated (node_at "far" "10.0.1.1" ∷ []) at_start
      (started (pos 10) (some (client 0)) true "10.0.0.1" "" ("172.18.0.2", "172.18.0.3" ∷ [])))

update_from_lem_example :
    IsUpdated "10.0.1.1" "172.18.0.3"
      (any_tracked "10.0.0.1" "10.0.1.1" two_nodes)
      at_start
      (update_from two_nodes at_start)
update_from_lem_example = update_from_lem two_nodes at_start "10.0.1.1" "172.18.0.3"

Reached-IsConsistent_example : IsConsistent after_round
Reached-IsConsistent_example = Reached-IsConsistent after_round after_round_reached

aggregate_latencies_lem_example :
    let (q, saved) = aggregate_latencies latency_of one_node in
    (saved ≡ saved_sums q.aggregated_latencies)
    × (Map.lookup
          (record { source = "172.18.0.3"; destination = "10.0.1.1" })
          q.aggregated_latencies
        ≡ (if member "172.18.0.3" one_node.edge_proxies
            then over_this_node
                (ok (pos 5))
                (is_edge_proxy "10.0.1.1" one_node.edge_proxies)
                (Map.lookup "10.0.1.1" one_node.latencies)
                (Map.lookup
                  (record { source = "172.18.0.3"; destination = "10.0.1.1" })
                  one_node.aggregated_latencies)
            else Map.lookup
                (record { source = "172.18.0.3"; destination = "10.0.1.1" })
                one_node.aggregated_latencies))
aggregate_latencies_lem_example =
    aggregate_latencies_lem latency_of one_node "172.18.0.3" "10.0.1.1" one_node-IsConsistent.unique
