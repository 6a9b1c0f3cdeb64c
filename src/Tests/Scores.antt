-- ===== src/Tests/Scores.antt =====
-- A scores worker with two edge proxies that measured one node.
use proxima_scheduler.Prelude.{
  ◌≡◌, ◌≢◌, refl, String, true, false, not, ◌&&◌, some, none, List, [], ◌∷◌, inl, inr, string_eq,
  if◌then◌else◌, length, All,
}
use proxima_scheduler.Prelude.Int.{pos}
use proxima_scheduler.Map.{Map, IsUnique}
use proxima_scheduler.Map
use proxima_scheduler.Float.{Micro, micro, micro_float, Micro-IsOrdered}
use proxima_scheduler.Effect.{Result, ok, err, database_error, no_edge_proxies}
use proxima_scheduler.Nodes.{is_edge_proxy}
use proxima_scheduler.ScoresWorker.{
  ScoresWorker, new_scores_worker, set_weights, initialize_equal_edge_weights,
  calculate_edge_weights, add_edges, no_sums, score_nodes, total_rpm,
}
use proxima_scheduler.ScoresWorker.Scored.{is_measured, average_score, score_nodes_lem}
use proxima_scheduler.ScoresWorker.Weights.{smoothed, no_rates, rates, calculate_edge_weights_lem}
use proxima_scheduler.ScoresWorker.Running.{Answers, Work, run, ran, IsUnscored, run_unscored}
use proxima_scheduler.ScoresWorker.Extremes.{IsWithin, add_edges_extremes}

abbrev by_edges : Map String (Map String Micro)
by_edges =
    ("172.18.0.2", ("10.0.1.1", micro (pos 5_000_000)) ∷ [])
    ∷ ("172.18.0.3", ("10.0.1.1", micro (pos 9_000_000)) ∷ [])
    ∷ []

abbrev edges : List String
edges = "172.18.0.2" ∷ "172.18.0.3" ∷ []

abbrev worker : ScoresWorker Micro
worker = new_scores_worker (pos 30) edges

abbrev equal : ScoresWorker Micro
equal = record worker {
  edge_weights =
      set_weights
        (micro_float.div (micro_float.literal 1 0) (micro_float.of_int (pos (length by_edges))))
        by_edges worker.edge_weights;
}

falls_back : calculate_edge_weights (err database_error) by_edges worker ≡ ok equal
unfolding calculate_edge_weights initialize_equal_edge_weights
falls_back = refl

score_nodes_lem_example :
    let s = add_edges equal.edge_proxies equal.edge_weights by_edges no_sums in
    let (after, saved) = score_nodes (ok by_edges) (err database_error) worker in
    (micro_float.eq s.lmax s.lmin ≡ true → (after ≡ equal) × (saved ≡ none))
    × (micro_float.eq s.lmax s.lmin ≡ false
        → (saved ≡ some after.scores)
          × (Map.lookup "10.0.1.1" after.scores ≡ (
              if not (is_edge_proxy "10.0.1.1" equal.edge_proxies)
                && is_measured "10.0.1.1" by_edges
              then some (average_score equal.edge_weights by_edges s "10.0.1.1")
              else Map.lookup "10.0.1.1" equal.scores)))
score_nodes_lem_example =
    score_nodes_lem by_edges (err database_error) worker equal "10.0.1.1" falls_back

abbrev one_rate : Result (Map String Micro)
one_rate = ok (("172.18.0.2", micro (pos 12_000_000)) ∷ [])

one_rate-IsUnique : IsUnique (rates one_rate)
unfolding IsUnique Map.has Map.lookup
one_rate-IsUnique = (refl, tt)

calculate_edge_weights_lem_example :
    (no_rates one_rate ≡ false
      → (w : Map String Micro) × (calculate_edge_weights one_rate by_edges worker
          ≡ ok (record worker { edge_weights = w }))
        × (Map.lookup "172.18.0.2" w
            ≡ smoothed
                (total_rpm (rates one_rate) (micro_float.literal 0 0))
                (Map.lookup "172.18.0.2" (rates one_rate))
                (Map.lookup "172.18.0.2" worker.edge_weights)))
    × (no_rates one_rate ≡ true
        → by_edges ≢ []
        → (w : Map String Micro) × (calculate_edge_weights one_rate by_edges worker
            ≡ ok (record worker { edge_weights = w }))
          × (Map.lookup "172.18.0.2" w ≡ (
              if Map.has "172.18.0.2" by_edges
              then some (
                  micro_float.div
                    (micro_float.literal 1 0)
                    (micro_float.of_int (pos (length by_edges))))
              else Map.lookup "172.18.0.2" worker.edge_weights)))
    × (no_rates one_rate ≡ true
        → by_edges ≡ []
        → calculate_edge_weights one_rate by_edges worker ≡ err no_edge_proxies)
calculate_edge_weights_lem_example =
    calculate_edge_weights_lem one_rate by_edges worker "172.18.0.2" one_rate-IsUnique

no_edge : is_edge_proxy "10.0.1.1" edges ≡ false
unfolding is_edge_proxy
no_edge = refl

add_edges_extremes_example :
    IsWithin Micro-IsOrdered
      (micro (pos 9_000_000))
      (add_edges edges equal.edge_weights by_edges no_sums)
add_edges_extremes_example =
    add_edges_extremes Micro-IsOrdered edges equal.edge_weights by_edges no_sums "172.18.0.3"
      "10.0.1.1" (("10.0.1.1", micro (pos 9_000_000)) ∷ []) (micro (pos 9_000_000)) (inr (inl refl))
      (inl refl) no_edge

abbrev two_answers : List (Answers Micro)
two_answers =
    record {
      latencies = ok (("172.18.0.2", ("172.18.0.3", micro (pos 4)) ∷ []) ∷ by_edges);
      rpm = err database_error;
    }
    ∷ record { latencies = err database_error; rpm = ok [] }
    ∷ []

run_unscored_example :
    (w : Work Micro) × (run two_answers (new_scores_worker (pos 30) edges) ≡ ran w)
    × IsUnscored edges w.worker.scores
    × All (IsUnscored edges) w.saves
run_unscored_example = run_unscored (pos 30) edges two_answers refl
