-- ===== src/Database/Saved.antt =====
-- What the client saves comes back by its queries.
use proxima_scheduler.Prelude.{
  String, true, false, ◌≡◌, ◌≢◌, ◌∙◌, ◌++◌, ap, refl, sym, subst, beq_ne, Option, none, some, List,
  [], ◌∷◌, string_eq, if◌then◌else◌, arith,
}
use proxima_scheduler.Prelude.Int.{ℤ}
use proxima_scheduler.Map.{Map, lookup-insert, get_or-insert, has-lookup, IsUnique}
use proxima_scheduler.Map
use proxima_scheduler.Float.{Float}
use proxima_scheduler.Effect.{ok}
use proxima_scheduler.Pinger.{AggregatedLatencyKey, key_eq, key_equals}
use proxima_scheduler.Database.Queries.{Query, get_node_scores, get_average_ping_time_by_edges}
use proxima_scheduler.Database.Answers.{
  passes_one, passes, field_rows, rows_of, rows_of-append, IsAnswering, IsElsewhere,
}
use proxima_scheduler.Database.{
  Answer, save_ping_time, Point, FluxRecord, rows, latency_ms, save_aggregated_latencies,
  save_node_scores, read_rows, read_values, read_edges, read_by_edges,
}

abbrev pub scores_filter : Map String String
scores_filter = ("_measurement", "node_scores") ∷ []

abbrev pub pings_filter : Map String String
pings_filter = ("_measurement", "ping_times") ∷ []

module _ {F : Type 0} ⦃fl : Float F⦄ where
  -- The row of a point with one field.
  abbrev row_of : Point F → Map String F → List (FluxRecord F) → List (FluxRecord F)
  row_of p [] rest = rest
  row_of p ((field, value) ∷ fields) rest = record { columns = p.tags; value = some value } ∷ rest

  unfoldable all_rows : List (Point F) → List (FluxRecord F)
  all_rows [] = []
  all_rows (p ∷ ps) = row_of p p.fields (all_rows ps)

  rows-scores :
      (scores : Map String F)
      → rows_of scores_filter (save_node_scores scores) ≡ all_rows (save_node_scores scores)
  unfolding all_rows save_node_scores rows_of field_rows passes passes_one
  rows-scores [] = refl
  rows-scores ((k, v) ∷ rest) = rw (rows-scores rest) refl

  rows-sums :
      (sums : Map AggregatedLatencyKey ℤ)
      → rows_of pings_filter (save_aggregated_latencies sums)
        ≡ all_rows (save_aggregated_latencies sums)
  unfolding all_rows save_aggregated_latencies rows_of field_rows passes passes_one
  rows-sums [] = refl
  rows-sums ((k, v) ∷ rest) = rw (rows-sums rest) refl

  saved_scores :
      (scores m : Map String F) (n : String)
      → IsUnique scores
      → Map.lookup n (read_rows "node" (all_rows (save_node_scores scores)) m)
        ≡ (if Map.has n scores then Map.lookup n scores else Map.lookup n m)
  unfolding read_rows all_rows save_node_scores IsUnique Map.has Map.lookup
  saved_scores [] m n u = refl
  saved_scores ((k, v) ∷ rest) m n (fresh, u) = ground (
    arith,
    saved_scores rest (Map.insert k v m) n u,
    lookup-insert k n v m,
    has-lookup k rest fresh,
    string_eq.equals_iff k n,
  )

  abbrev pub in_ms : Option ℤ → Option F
  in_ms none = none
  in_ms (some latency) = some (latency_ms latency)

  sums_read_back :
      (sums : Map AggregatedLatencyKey ℤ) (m : Map String (Map String F)) (s d : String)
      → IsUnique sums
      → Map.lookup d (Map.get_or [] s (read_edges (all_rows (save_aggregated_latencies sums)) m))
        ≡ (if Map.has (record { source = s; destination = d }) sums
            then in_ms (Map.lookup (record { source = s; destination = d }) sums)
            else Map.lookup d (Map.get_or [] s m))
  unfolding read_edges all_rows save_aggregated_latencies IsUnique Map.has Map.lookup
  sums_read_back [] m s d u = refl
  sums_read_back ((k, v) ∷ rest) m s d (fresh, u) =
      let key : AggregatedLatencyKey = record { source = s; destination = d } in
      let inner = Map.get_or [] k.source m in
      let fresh_key : key_equals k key ≡ true → Map.lookup key rest ≡ none = λ e.
        subst (λ x. Map.lookup x rest ≡ none) ((key_eq.equals_iff k key).0 e)
          (has-lookup k rest fresh) in
      ground (
        arith,
        fresh_key,
        sums_read_back rest (Map.insert k.source (Map.insert k.destination (latency_ms v) inner) m)
            s d u,
        get_or-insert [] k.source s (Map.insert k.destination (latency_ms v) inner) m,
        lookup-insert k.destination d (latency_ms v) inner,
        string_eq.equals_iff k.source s,
        string_eq.equals_iff k.destination d,
      )

  -- The scores that SaveNodeScores writes, one for a node, are those that GetNodeScores reads, whatever
  -- is written to other measurements: where the database answers its query with a row for each field
  -- of a point that the query's filters let through.
  pub get_node_scores-save_node_scores :
      (bucket : String) (run : Query → Answer F) (others : List (Point F)) (scores : Map String F)
      → IsUnique scores
      → IsElsewhere "node_scores" others
      → IsAnswering run (others ++ save_node_scores scores) scores_filter ("node" ∷ [])
      → (m : Map String F) × (get_node_scores bucket run ≡ ok m)
        × ((n : String) → Map.lookup n m ≡ Map.lookup n scores)
  unfolding get_node_scores read_values Map.has Map.lookup
  get_node_scores-save_node_scores bucket run others scores u elsewhere answers = (
    read_rows "node" (all_rows (save_node_scores scores)) [],
    ap (read_values "node") (
        answers _ refl refl
        ∙ ap (λ r. rows r false)
            (rows_of-append "node_scores" others (save_node_scores scores) elsewhere
              ∙ rows-scores scores)),
    λ n. ground (arith, saved_scores scores [] n u),
  )

  -- The pings of an edge proxy come first, and change only what is read of that edge proxy.
  pings_apart :
      (pings : Map String ℤ) (edge s : String) (points : List (Point F))
      (m : Map String (Map String F))
      → s ≢ edge
      → (m' : Map String (Map String F)) × (read_edges
            (rows_of pings_filter (save_ping_time pings edge ++ points))
            m
          ≡ read_edges (rows_of pings_filter points) m')
        × (Map.get_or [] s m' ≡ Map.get_or [] s m)
  unfolding read_edges rows_of field_rows passes passes_one save_ping_time Map.lookup
  pings_apart [] edge s points m apart = (m, refl, refl)
  pings_apart ((k, v) ∷ rest) edge s points m apart =
      let inner = Map.insert k (latency_ms v) (Map.get_or [] edge m) in
      let (m', e, same) = pings_apart rest edge s points (Map.insert edge inner m) apart in
      (
        m',
        e,
        same
            ∙ get_or-insert [] edge s inner m
            ∙ rw ((beq_ne edge s).1 (λ back. apart (sym back))) refl,
      )

  -- The aggregated latencies that SaveAggregatedLatencies writes, one for two addresses, are those
  -- that GetAveragePingTimeByEdges reads, in milliseconds, beside the ping times of one edge proxy,
  -- for all others, and whatever is written to other measurements: where the database answers its
  -- query with a row for each field of a point that the query's filters let through.
  pub get_average_ping_time_by_edges-save_aggregated_latencies :
      (bucket : String) (run : Query → Answer F) (others : List (Point F)) (pings : Map String ℤ)
      (edge : String) (sums : Map AggregatedLatencyKey ℤ)
      → IsUnique sums
      → IsElsewhere "ping_times" others
      → IsAnswering run
          (others ++ (save_ping_time pings edge ++ save_aggregated_latencies sums))
          pings_filter
          ("node" ∷ "edge_proxy" ∷ [])
      → (m : Map String (Map String F)) × (get_average_ping_time_by_edges bucket run ≡ ok m)
        × ((s d : String)
            → s ≢ edge
            → Map.lookup d (Map.get_or [] s m)
              ≡ in_ms (Map.lookup (record { source = s; destination = d }) sums))
  unfolding get_average_ping_time_by_edges read_by_edges Map.has Map.lookup Map.get_or
  get_average_ping_time_by_edges-save_aggregated_latencies bucket run others pings edge sums u
        elsewhere answers =
      let points = save_ping_time pings edge ++ save_aggregated_latencies sums in
      (
        read_edges (rows_of pings_filter points) [],
        ap read_by_edges (
            answers _ refl refl
            ∙ ap (λ r. rows r false) (rows_of-append "ping_times" others points elsewhere)),
        λ s d apart.
            let (m', e, same) =
              pings_apart pings edge s (save_aggregated_latencies sums) [] apart in
            ap (λ x. Map.lookup d (Map.get_or [] s x))
              (e ∙ ap (λ r. read_edges r m') (rows-sums sums))
            ∙ ground (arith, sums_read_back sums m' s d u, ap (Map.lookup d) same),
      )
