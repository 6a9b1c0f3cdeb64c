-- ===== src/Tests/Others.antt =====
-- The start of the scheduler, the database client, the configuration and the admission handler at
-- concrete inputs.
use proxima_scheduler.Prelude.{
  ◌≡◌, ◌≢◌, ◌++◌, ap, refl, String, true, false, Option, some, none, List, [], ◌∷◌, string_eq,
  beq_ne,
}
use proxima_scheduler.Prelude.Int.{ℤ, pos}
use proxima_scheduler.Map.{Map, IsUnique}
use proxima_scheduler.Map
use proxima_scheduler.Float.{Micro, micro, micro_float}
use proxima_scheduler.Effect.{ok, err, database_error}
use proxima_scheduler.Pinger.{AggregatedLatencyKey, key_eq}
use proxima_scheduler.Database.{
  Point, Answer, rows, read_values, save_ping_time, save_node_scores, save_aggregated_latencies,
}
use proxima_scheduler.Database.Queries.{Query, get_node_scores, get_average_ping_time_by_edges}
use proxima_scheduler.Database.Answers.{rows_of}
use proxima_scheduler.Database.Reading.{fails, found_rows, last_value, read_values_lem}
use proxima_scheduler.Database.Saved.{
  in_ms, get_node_scores-save_node_scores, get_average_ping_time_by_edges-save_aggregated_latencies,
}
use proxima_scheduler.Strings.{join, join_rest}
use proxima_scheduler.Configuration.{comma, load_config, load_config-join}
use proxima_scheduler.Admission.{
  AdmissionRequest, AdmissionReview, Patch, mutation_handler, IsHandled, mutation_handler-IsHandled,
}

abbrev two_rows : Answer Micro
two_rows =
    rows
      (record { columns = ("node", "10.0.0.1") ∷ []; value = some (micro (pos 4)) }
        ∷ record { columns = ("node", "10.0.0.1") ∷ []; value = none }
        ∷ [])
      false

read_values_lem_example :
    (fails two_rows ≡ true → read_values "node" two_rows ≡ err database_error)
    × (fails two_rows ≡ false
        → (m : Map String Micro) × (read_values "node" two_rows ≡ ok m)
          × IsUnique m
          × ((key : String) → Map.lookup key m ≡ last_value "node" key (found_rows two_rows) none))
read_values_lem_example = read_values_lem "node" two_rows

abbrev scores : Map String Micro
scores = ("10.0.0.1", micro (pos 4)) ∷ ("10.0.1.1", micro (pos 9)) ∷ []

scores-IsUnique : IsUnique scores
unfolding IsUnique Map.has Map.lookup
scores-IsUnique = (refl, (refl, tt))

-- A point of another measurement.
abbrev weight_point : Point Micro
weight_point = record {
  measurement = "edge_proxy_weights";
  tags = ("edge_proxy", "172.18.0.2") ∷ [];
  fields = ("weight", micro (pos 5)) ∷ [];
}

abbrev evaluate : List (Point Micro) → Query → Answer Micro
evaluate points q = rows (rows_of q.filters points) false

abbrev score_points : List (Point Micro)
score_points = weight_point ∷ save_node_scores scores

get_node_scores-save_node_scores_example :
    (m : Map String Micro) × (get_node_scores "proxima" (evaluate score_points) ≡ ok m)
    × ((n : String) → Map.lookup n m ≡ Map.lookup n scores)
get_node_scores-save_node_scores_example =
    get_node_scores-save_node_scores "proxima" (evaluate score_points) (weight_point ∷ []) scores
      scores-IsUnique ((λ e. cc), tt) (λ q e g. ap (λ f. rows (rows_of f score_points) false) e)

abbrev sums : Map AggregatedLatencyKey ℤ
sums =
    (record { source = "172.18.0.2"; destination = "10.0.0.1" }, pos 7_000_000)
    ∷ (record { source = "172.18.0.2"; destination = "10.0.1.1" }, pos 9_000_000)
    ∷ []

sums-IsUnique : IsUnique sums
unfolding IsUnique Map.has Map.lookup
sums-IsUnique = (refl, (refl, tt))

abbrev pings : Map String ℤ
pings = ("10.0.0.1", pos 3_000_000) ∷ []

abbrev ping_points : List (Point Micro)
ping_points = weight_point ∷ save_ping_time pings "172.18.0.9" ++ save_aggregated_latencies sums

get_average_ping_time_by_edges-save_aggregated_latencies_example :
    (m : Map String (Map String Micro)) × (get_average_ping_time_by_edges "proxima"
        (evaluate ping_points)
      ≡ ok m)
    × ((s d : String)
        → s ≢ "172.18.0.9"
        → Map.lookup d (Map.get_or [] s m)
          ≡ in_ms (Map.lookup (record { source = s; destination = d }) sums))
get_average_ping_time_by_edges-save_aggregated_latencies_example =
    get_average_ping_time_by_edges-save_aggregated_latencies "proxima" (evaluate ping_points)
      (weight_point ∷ []) pings "172.18.0.9" sums sums-IsUnique ((λ e. cc), tt)
      (λ q e g. ap (λ f. rows (rows_of f ping_points) false) e)

abbrev settings : Map String String
settings = ("EDGE_PROXIES", "a,b") ∷ ("INCLUDED_NAMESPACES", "default") ∷ []

abbrev parse_duration : String → Option ℤ
parse_duration s = none

edges_set : Map.lookup "EDGE_PROXIES" settings ≡ some (join comma ("a" ∷ "b" ∷ []))
unfolding Map.lookup join join_rest
edges_set = refl

namespaces_set : Map.lookup "INCLUDED_NAMESPACES" settings ≡ some (join comma ("default" ∷ []))
unfolding Map.lookup join join_rest
namespaces_set = refl

edges_filled : join comma ("a" ∷ "b" ∷ []) ≢ ""
unfolding join join_rest
edges_filled = (beq_ne (join comma ("a" ∷ "b" ∷ [])) "").0 refl

namespaces_filled : join comma ("default" ∷ []) ≢ ""
unfolding join join_rest
namespaces_filled = (beq_ne (join comma ("default" ∷ [])) "").0 refl

load_config-join_example :
    ((load_config parse_duration settings).edge_proxies ≡ "a" ∷ "b" ∷ [])
    × ((load_config parse_duration settings).included_namespaces ≡ "default" ∷ [])
load_config-join_example =
    load_config-join parse_duration settings "a" "default" ("b" ∷ []) [] edges_set namespaces_set
      ((refl, tt), ((refl, tt), tt))
      ((refl, (refl, (refl, (refl, (refl, (refl, (refl, tt))))))), tt) edges_filled
      namespaces_filled

abbrev decode : String → Option (Option AdmissionRequest)
decode body = some (some (record { uid = "u1"; raw = body }))

abbrev unmarshal : String → Option (Map String String)
unmarshal raw = some (("consul-register", raw) ∷ [])

abbrev marshal_patch : List Patch → Option String
marshal_patch patch = some "patch"

abbrev marshal : AdmissionReview → Option String
marshal r = some r.response.uid

mutation_handler-IsHandled_example :
    IsHandled decode unmarshal marshal_patch marshal "true" "patch"
      (mutation_handler decode unmarshal marshal_patch marshal "http://consul:8500" (some "true"))
mutation_handler-IsHandled_example =
    mutation_handler-IsHandled decode unmarshal marshal_patch marshal "http://consul:8500" "true"
      "patch" refl (λ r. (r.response.uid, refl))
