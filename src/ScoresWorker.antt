-- ===== src/ScoresWorker.antt =====
-- proxima-scheduler/scheduler/scoresworker.go: the weights of the edge proxies and the scores of the
-- nodes. The database answers as the arguments say; what it is asked to save is part of the results.
pub mod Weights
pub mod Scored
pub mod Extremes
pub mod Running
use proxima_scheduler.Prelude.{
  ℕ, String, Bool, true, false, ◌+◌, Option, none, some, List, [], ◌∷◌, ◌==◌, string_eq,
  if◌then◌else◌, length,
}
use proxima_scheduler.Prelude.Int.{ℤ, pos}
use proxima_scheduler.Map.{Map}
use proxima_scheduler.Map
use proxima_scheduler.Float.{Float}
use proxima_scheduler.Effect.{Result, ok, err, no_edge_proxies}
use proxima_scheduler.Nodes.{is_edge_proxy}

pub record ScoresWorker (F : Type 0) : Type 0 where
  pub scores : Map String F
  pub edge_weights : Map String F
  pub scoring_interval : ℤ
  pub edge_proxies : List String

unfoldable pub new_scores_worker : {F : Type 0} → ℤ → List String → ScoresWorker F
new_scores_worker interval edges = record {
  scores = [];
  edge_weights = [];
  scoring_interval = interval;
  edge_proxies = edges;
}

-- The sums, by node, and the extremes that scoreNodes collects.
pub record Sums (F : Type 0) : Type 0 where
  pub weighted_latencies : Map String F
  pub weight_sums : Map String F
  pub lmin : F
  pub lmax : F

module _ {F : Type 0} ⦃fl : Float F⦄ where
  unfoldable pub total_rpm : Map String F → F → F
  total_rpm [] total = total
  total_rpm ((edge, rpm) ∷ rest) total = total_rpm rest (fl.add total rpm)

  -- `alpha*newWeight + (1-alpha)*prevWeight` for alpha 0.2
  abbrev pub smooth : F → F → F
  smooth new prev =
      fl.add (fl.mul (fl.literal 2 1) new) (fl.mul (fl.sub (fl.literal 1 0) (fl.literal 2 1)) prev)

  unfoldable pub smooth_weights : F → Map String F → Map String F → Map String F
  smooth_weights total [] weights = weights
  smooth_weights total ((edge, rpm) ∷ rest) weights = smooth_weights total rest (
      Map.insert edge (smooth (fl.div rpm total) (Map.get_or (fl.literal 0 0) edge weights))
        weights)

  unfoldable pub set_weights : {V : Type 0} → F → Map String V → Map String F → Map String F
  set_weights weight [] weights = weights
  set_weights weight ((edge, latencies) ∷ rest) weights =
      set_weights weight rest (Map.insert edge weight weights)

  -- The worker with its weights, which are also those that are saved.
  unfoldable pub initialize_equal_edge_weights :
      Map String (Map String F) → ScoresWorker F → Result (ScoresWorker F)
  initialize_equal_edge_weights [] sw = err no_edge_proxies
  initialize_equal_edge_weights (edge ∷ edges) sw = ok (record sw {
    edge_weights =
        set_weights (fl.div (fl.literal 1 0) (fl.of_int (pos (length (edge ∷ edges)))))
          (edge ∷ edges) sw.edge_weights;
  })

  unfoldable pub calculate_edge_weights :
      Result (Map String F) → Map String (Map String F) → ScoresWorker F → Result (ScoresWorker F)
  calculate_edge_weights (err e) latencies sw = initialize_equal_edge_weights latencies sw
  calculate_edge_weights (ok []) latencies sw = initialize_equal_edge_weights latencies sw
  calculate_edge_weights (ok (edge ∷ edges)) latencies sw =
      let total = total_rpm (edge ∷ edges) (fl.literal 0 0) in
      if fl.eq total (fl.literal 0 0)
      then initialize_equal_edge_weights latencies sw
      else ok (record sw { edge_weights = smooth_weights total (edge ∷ edges) sw.edge_weights })

  -- `m[k] += x`
  abbrev pub add_to : String → F → Map String F → Map String F
  add_to key x m = Map.insert key (fl.add (Map.get_or (fl.literal 0 0) key m) x) m

  -- One node's latency, as an edge proxy of the weight measured it.
  unfoldable pub add_node : List String → F → String → F → Sums F → Sums F
  add_node edges weight node latency s = if is_edge_proxy node edges then s else record {
    lmin = (if fl.lt latency s.lmin then latency else s.lmin);
    lmax = (if fl.lt s.lmax latency then latency else s.lmax);
    weighted_latencies = add_to node (fl.mul weight latency) s.weighted_latencies;
    weight_sums = add_to node weight s.weight_sums;
  }

  unfoldable pub add_nodes : List String → F → Map String F → Sums F → Sums F
  add_nodes edges weight [] s = s
  add_nodes edges weight ((node, latency) ∷ rest) s =
      add_nodes edges weight rest (add_node edges weight node latency s)

  unfoldable pub add_edges :
      List String → Map String F → Map String (Map String F) → Sums F → Sums F
  add_edges edges weights [] s = s
  add_edges edges weights ((edge, latencies) ∷ rest) s =
      add_edges edges weights rest
        (add_nodes edges (Map.get_or (fl.literal 0 0) edge weights) latencies s)

  abbrev pub no_sums : Sums F
  no_sums = record {
    weighted_latencies = [];
    weight_sums = [];
    lmin = fl.max_float;
    lmax = fl.literal 0 0;
  }

  -- The logistic function of a node's average latency.
  unfoldable pub score : F → F → F → F
  score lmin lmax latency =
      let mid = fl.div (fl.add lmin lmax) (fl.literal 2 0) in
      let k = fl.div (fl.literal 2 0) (fl.sub lmax lmin) in
      fl.div (fl.literal 1 0) (fl.add (fl.literal 1 0) (fl.exp (fl.mul k (fl.sub latency mid))))

  unfoldable pub score_all : Sums F → Map String F → Map String F → Map String F
  score_all s [] scores = scores
  score_all s ((node, weighted) ∷ rest) scores = score_all s rest (
      Map.insert node
        (score s.lmin s.lmax (fl.div weighted (Map.get_or (fl.literal 0 0) node s.weight_sums)))
        scores)

  -- The scores, and those that are saved, if any are.
  unfoldable pub score_sums : Sums F → ScoresWorker F → ScoresWorker F × Option (Map String F)
  score_sums s sw =
      if fl.eq s.lmax s.lmin
      then (sw, none)
      else (let scores = score_all s s.weighted_latencies sw.scores in
          (record sw { scores = scores }, some scores))

  unfoldable pub score_weighted :
      Map String (Map String F)
      → ScoresWorker F
      → Result (ScoresWorker F)
      → ScoresWorker F × Option (Map String F)
  score_weighted latencies sw (err e) = (sw, none)
  score_weighted latencies sw (ok weighted) =
      score_sums (add_edges weighted.edge_proxies weighted.edge_weights latencies no_sums) weighted

  unfoldable pub score_nodes :
      Result (Map String (Map String F))
      → Result (Map String F)
      → ScoresWorker F
      → ScoresWorker F × Option (Map String F)
  score_nodes (err e) rpm sw = (sw, none)
  score_nodes (ok latencies) rpm sw =
      score_weighted latencies sw (calculate_edge_weights rpm latencies sw)
