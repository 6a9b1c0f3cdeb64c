-- ===== src/Database.antt =====
-- proxima-scheduler/util/db.go: the points that the client writes to InfluxDB, and what it makes of
-- the rows that a query answers. How InfluxDB evaluates a query is an argument.
pub mod Queries
pub mod Reading
pub mod Answers
pub mod Saved
use proxima_scheduler.Prelude.{
  ℕ, String, Bool, true, false, Option, none, some, List, [], ◌∷◌, ◌==◌, string_eq, if◌then◌else◌,
  ◌^◌,
}
use proxima_scheduler.Prelude.Int.{ℤ, pos, ◌-ℤ◌, ◌*ℤ◌}
use proxima_scheduler.Map.{Map}
use proxima_scheduler.Map
use proxima_scheduler.Float.{Float, quot_ℤ}
use proxima_scheduler.Effect.{
  Result, ok, err, database_error, parse_failed, no_score_found, no_latency_found,
}
use proxima_scheduler.Pinger.{AggregatedLatencyKey}

-- A point, with its measurement, its tags and its fields.
pub record Point (F : Type 0) : Type 0 where
  pub measurement : String
  pub tags : Map String String
  pub fields : Map String F

-- A row of an answer: the columns that hold a text, and `Value()` if it is a `float64`.
pub record FluxRecord (F : Type 0) : Type 0 where
  pub columns : Map String String
  pub value : Option F

-- A query fails at once, or gives rows and then, perhaps, an error.
pub data Answer (F : Type 0) : Type 0 where
  query_failed : Answer F
  rows : List (FluxRecord F) → Bool → Answer F

module _ {F : Type 0} ⦃fl : Float F⦄ where
  -- `latency.Seconds() * 1000`
  unfoldable pub seconds : ℤ → F
  seconds d =
      let sec = quot_ℤ d (pos (10 ^ 9)) in
      fl.add (fl.of_int sec)
        (fl.div (fl.of_int (d -ℤ sec *ℤ pos (10 ^ 9))) (fl.of_int (pos (10 ^ 9))))

  abbrev pub latency_ms : ℤ → F
  latency_ms d = fl.mul (seconds d) (fl.literal 1000 0)

  abbrev pub ping_point : String → String → ℤ → Point F
  ping_point node edge latency = record {
    measurement = "ping_times";
    tags = ("node", node) ∷ ("edge_proxy", edge) ∷ [];
    fields = ("latency_ms", latency_ms latency) ∷ [];
  }

  unfoldable pub save_ping_time : Map String ℤ → String → List (Point F)
  save_ping_time [] edge = []
  save_ping_time ((address, latency) ∷ rest) edge =
      ping_point address edge latency ∷ save_ping_time rest edge

  unfoldable pub save_aggregated_latencies : Map AggregatedLatencyKey ℤ → List (Point F)
  save_aggregated_latencies [] = []
  save_aggregated_latencies ((key, latency) ∷ rest) =
      ping_point key.destination key.source latency ∷ save_aggregated_latencies rest

  unfoldable pub save_request_latency : String → String → String → ℤ → List (Point F)
  save_request_latency pod node edge latency =
      record {
        measurement = "request_latency";
        tags = ("node", node) ∷ ("pod", pod) ∷ ("edge_node", edge) ∷ [];
        fields = ("latency_ms", latency_ms latency) ∷ [];
      }
      ∷ []

  unfoldable pub save_node_scores : Map String F → List (Point F)
  save_node_scores [] = []
  save_node_scores ((node, score) ∷ rest) =
      record {
        measurement = "node_scores";
        tags = ("node", node) ∷ [];
        fields = ("score", score) ∷ [];
      }
      ∷ save_node_scores rest

  unfoldable pub save_edge_proxy_metrics_for_service :
      String → String → String → ℤ → F → List (Point F)
  save_edge_proxy_metrics_for_service service pod edge latency rpm =
      record {
        measurement = "edge_proxy_service_metrics";
        tags = ("service", service) ∷ ("pod_url", pod) ∷ ("edge_proxy", edge) ∷ [];
        fields = ("avg_latency_ms", latency_ms latency) ∷ ("avg_rpm", rpm) ∷ [];
      }
      ∷ []

  unfoldable pub save_edge_proxy_weights : Map String F → List (Point F)
  save_edge_proxy_weights [] = []
  save_edge_proxy_weights ((edge, weight) ∷ rest) =
      record {
        measurement = "edge_proxy_weights";
        tags = ("edge_proxy", edge) ∷ [];
        fields = ("weight", weight) ∷ [];
      }
      ∷ save_edge_proxy_weights rest

  -- The loop over the rows: one without the tag or without a number is skipped.
  abbrev pub note_value : Option String → Option F → Map String F → Map String F
  note_value none value m = m
  note_value (some key) none m = m
  note_value (some key) (some value) m = Map.insert key value m

  unfoldable pub read_rows : String → List (FluxRecord F) → Map String F → Map String F
  read_rows tag [] m = m
  read_rows tag (row ∷ rest) m =
      read_rows tag rest (note_value (Map.lookup tag row.columns) row.value m)

  unfoldable pub read_values : String → Answer F → Result (Map String F)
  read_values tag query_failed = err database_error
  read_values tag (rows found true) = err database_error
  read_values tag (rows found false) = ok (read_rows tag found [])

  -- The map of an edge proxy is made when its first row comes.
  abbrev pub note_edge :
      Option String
      → Option String
      → Option F
      → Map String (Map String F)
      → Map String (Map String F)
  note_edge none edge value m = m
  note_edge (some node) none value m = m
  note_edge (some node) (some edge) none m = m
  note_edge (some node) (some edge) (some value) m =
      Map.insert edge (Map.insert node value (Map.get_or [] edge m)) m

  unfoldable pub read_edges :
      List (FluxRecord F) → Map String (Map String F) → Map String (Map String F)
  read_edges [] m = m
  read_edges (row ∷ rest) m =
      read_edges rest (
        note_edge (Map.lookup "node" row.columns) (Map.lookup "edge_proxy" row.columns) row.value m)

  unfoldable pub read_by_edges : Answer F → Result (Map String (Map String F))
  read_by_edges query_failed = err database_error
  read_by_edges (rows found true) = err database_error
  read_by_edges (rows found false) = ok (read_edges found [])

  -- The first number; the error at the end of the rows is seen only where they are all visited.
  unfoldable pub first_value : List (FluxRecord F) → Bool → Result F
  first_value [] true = err database_error
  first_value [] false = err no_score_found
  first_value (row ∷ rest) failed = elim row.value [
    | none ↦ first_value rest failed
    | some value ↦ ok value
  ]

  unfoldable pub read_score : Answer F → Result F
  read_score query_failed = err database_error
  read_score (rows found failed) = first_value found failed

  -- GetLatency looks at the first row only.
  unfoldable pub read_latency : Answer F → Result ℤ
  read_latency query_failed = err database_error
  read_latency (rows [] true) = err database_error
  read_latency (rows [] false) = err no_latency_found
  read_latency (rows (row ∷ rest) failed) = elim row.value [
    | none ↦ err parse_failed
    | some value ↦ ok (fl.to_int (fl.mul value (fl.of_int (pos (10 ^ 6)))))
  ]
