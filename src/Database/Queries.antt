-- ===== src/Database/Queries.antt =====
-- The queries of the client, without the texts that they are written in.
use proxima_scheduler.Prelude.{String, List, [], ◌∷◌, string_eq}
use proxima_scheduler.Prelude.Int.{ℤ}
use proxima_scheduler.Map.{Map}
use proxima_scheduler.Float.{Float}
use proxima_scheduler.Effect.{Result}
use proxima_scheduler.Database.{Answer, read_values, read_by_edges, read_score, read_latency}

pub data Aggregate : Type 0 where
  mean last : Aggregate

pub record Query : Type 0 where
  pub bucket : String
  pub start : String
  pub filters : Map String String
  pub group : List String
  pub aggregate : Aggregate

module _ {F : Type 0} ⦃fl : Float F⦄ (bucket : String) (run : Query → Answer F) where
  unfoldable pub get_average_ping_time : Result (Map String F)
  get_average_ping_time = read_values "node" (
      run (record {
        bucket = bucket;
        start = "-30s";
        filters = ("_measurement", "ping_times") ∷ [];
        group = "node" ∷ [];
        aggregate = mean;
      }))

  unfoldable pub get_average_ping_time_by_edges : Result (Map String (Map String F))
  get_average_ping_time_by_edges = read_by_edges (
      run (record {
        bucket = bucket;
        start = "-2m";
        filters = ("_measurement", "ping_times") ∷ [];
        group = "node" ∷ "edge_proxy" ∷ [];
        aggregate = mean;
      }))

  unfoldable pub get_average_latencies_for_edge : String → Result (Map String F)
  get_average_latencies_for_edge edge = read_values "node" (
      run (record {
        bucket = bucket;
        start = "-30s";
        filters = ("_measurement", "ping_times") ∷ ("edge_proxy", edge) ∷ [];
        group = "node" ∷ [];
        aggregate = mean;
      }))

  unfoldable pub get_node_scores : Result (Map String F)
  get_node_scores = read_values "node" (
      run (record {
        bucket = bucket;
        start = "-60m";
        filters = ("_measurement", "node_scores") ∷ [];
        group = "node" ∷ [];
        aggregate = last;
      }))

  unfoldable pub get_node_score : String → Result F
  get_node_score node = read_score (
      run (record {
        bucket = bucket;
        start = "-60m";
        filters = ("_measurement", "node_scores") ∷ ("node", node) ∷ [];
        group = [];
        aggregate = last;
      }))

  unfoldable pub get_latency : String → String → Result ℤ
  get_latency source destination = read_latency (
      run (record {
        bucket = bucket;
        start = "-1h";
        filters =
            ("_measurement", "ping_times") ∷ ("edge_proxy", source) ∷ ("node", destination) ∷ [];
        group = [];
        aggregate = last;
      }))

  unfoldable pub get_aggregated_rpm_by_edge_proxy : Result (Map String F)
  get_aggregated_rpm_by_edge_proxy = read_values "edge_proxy" (
      run (record {
        bucket = bucket;
        start = "-5m";
        filters =
            ("_measurement", "edge_proxy_service_metrics")
            ∷ ("_field", "avg_rpm")
            ∷ ("service", "ALL")
            ∷ ("pod_url", "ALL")
            ∷ [];
        group = "edge_proxy" ∷ [];
        aggregate = last;
      }))
