-- ===== src/Scheduler/Selection.antt =====
-- proxima-scheduler/scheduler/scheduler.go: GetNodeIPForSchedule and what it calls: the latency
-- limit, the two passes over the scores, and the weighted random choice.
pub mod Reads
pub mod Feasible
pub mod Refused
pub mod Caused
pub mod Sound
pub mod Filled
pub mod Complete
pub mod Optimal
pub mod Chosen
pub mod Steps
use proxima_scheduler.Prelude.{
  ℕ, String, Bool, true, false, not, ◌&&◌, ◌||◌, Option, none, some, List, [], ◌∷◌, ◌++◌, ◌==◌,
  string_eq, if◌then◌else◌,
}
use proxima_scheduler.Prelude.Int.{ℤ, pos, ◌*ℤ◌, ltb_ℤ, wrap64}
use proxima_scheduler.Strconv.{Parsed, value, syntax_error, range_error, parse_int}
use proxima_scheduler.Map.{Map}
use proxima_scheduler.Map
use proxima_scheduler.Float.{Float}
use proxima_scheduler.Kube.{Clientset, Pod, Selector, label_is}
use proxima_scheduler.Effect.{
  Env, M, Result, ok, err, Error, invalid_limit, no_suitable_node, no_near_optimal_node, ◌>>=◌,
  return, fault, loop, list_pods, get_node, random, get_average_latencies_for_edge,
}
use proxima_scheduler.Nodes.{get_node_internal_ip}
use proxima_scheduler.Scheduler.{Scheduler, NodeCandidate}
use proxima_scheduler.Scheduler.Capacity.{has_enough_capacity}

abbrev pub limit_key : String
limit_key = "proxima-scheduler/max-latency-ms"

-- `hasLimit` and `latencyLimit`, in nanoseconds.
pub data Limit : Type 0 where
  unlimited : Limit
  at_most : ℤ → Limit

-- `time.Duration(ms) * time.Millisecond`
unfoldable pub milliseconds : ℤ → ℤ
unfolding wrap64 ◌*ℤ◌
milliseconds ms = wrap64 (ms *ℤ pos 1_000_000)

unfoldable pub latency_limit : Pod → Result Limit
unfolding Map.lookup parse_int milliseconds
latency_limit pod = elim (Map.lookup limit_key pod.annotations) [
  | none ↦ ok unlimited
  | some text ↦ elim (parse_int text) [
    | value ms ↦ ok (at_most (milliseconds ms))
    | syntax_error ↦ err invalid_limit
    | range_error n ↦ err invalid_limit
  ]
]

abbrev pub Latencies : Type 0 → Type 0
Latencies F = Map String (Map String F)

abbrev pub Scores : Type 0 → Type 0
Scores F = Map String (Map String F)

pub record Best (F : Type 0) : Type 0 where
  pub ip : String
  pub score : F

module _ {F : Type 0} ⦃fl : Float F⦄ where
  -- `time.Duration(latencyMs * float64(time.Millisecond))`
  unfoldable pub latency_duration : F → ℤ
  latency_duration latency = fl.to_int (fl.mul latency (fl.of_int (pos 1_000_000)))

  -- The loop over the edge proxies: each has a latency to the node, within the limit.
  unfoldable pub within_limit : ℤ → String → Latencies F → Bool
  unfolding Map.lookup latency_duration
  within_limit limit ip [] = true
  within_limit limit ip ((edge, latencies) ∷ edges) = elim (Map.lookup ip latencies) [
    | none ↦ false
    | some latency ↦
        if ltb_ℤ limit (latency_duration latency) then false else within_limit limit ip edges
  ]

  unfoldable pub meets_limit : Limit → String → Latencies F → Bool
  unfolding within_limit
  meets_limit unlimited ip edges = true
  meets_limit (at_most limit) ip edges = within_limit limit ip edges

  -- pickWeightedByScore: the least score, the weights above it, and their running total.
  unfoldable pub least_score : List (NodeCandidate F) → F → F
  least_score [] least = least
  least_score (c ∷ cs) least = least_score cs (if fl.lt c.score least then c.score else least)

  unfoldable pub candidate_weight : F → NodeCandidate F → F
  candidate_weight least c = fl.add (fl.sub c.score least) (fl.literal 1 6)

  unfoldable pub total_weight : F → List (NodeCandidate F) → F → F
  unfolding candidate_weight
  total_weight least [] total = total
  total_weight least (c ∷ cs) total =
      total_weight least cs (fl.add total (candidate_weight least c))

  -- The last loop: the first candidate at which the running total reaches `r`.
  unfoldable pub pick_at : F → F → F → List (NodeCandidate F) → Option (NodeCandidate F)
  unfolding candidate_weight
  pick_at r least acc [] = none
  pick_at r least acc (c ∷ cs) =
      let acc' = fl.add acc (candidate_weight least c) in
      let rest = pick_at r least acc' cs in if fl.le r acc' then some c else rest

  abbrev pub last_candidate : List (NodeCandidate F) → Option (NodeCandidate F)
  last_candidate [] = none
  last_candidate (c ∷ []) = some c
  last_candidate (c ∷ d ∷ cs) = last_candidate (d ∷ cs)

  -- The candidate that the loop finds, or the last one; an index out of range if there is none.
  unfoldable pub found_or_last :
      Option (NodeCandidate F) → Option (NodeCandidate F) → M (String × String)
  found_or_last (some c) last = return (c.ip, c.cluster)
  found_or_last none (some c) = return (c.ip, c.cluster)
  found_or_last none none = fault

module _ {F : Type 0} ⦃fl : Float F⦄ (env : Env F) where
  unfoldable pub pick_weighted_by_score : List (NodeCandidate F) → M (String × String)
  pick_weighted_by_score cands = do
    let least = least_score cands fl.max_float
    let total = total_weight least cands (fl.literal 0 0)
    u ← random env
    found_or_last (pick_at (fl.mul u total) least (fl.literal 0 0) cands) (last_candidate cands)

  unfoldable pub obtain_step : String → Latencies F → M (Latencies F)
  obtain_step edge edges = do
    r ← get_average_latencies_for_edge env edge
    elim r [ err e ↦ return edges | ok latencies ↦ return (Map.insert edge latencies edges) ]

  unfoldable pub obtain_edge_node_latencies : Scheduler → M (Latencies F)
  obtain_edge_node_latencies s = loop obtain_step s.edge_proxies []

  -- The count of the pods of the application by node, which the passes do not read.
  unfoldable pub count_pod : Option Clientset → Pod → Map String Bool → M (Map String Bool)
  count_pod clientset existing counted =
      if existing.node_name == "" || existing.deleting then return counted else (do
        r ← get_node env clientset existing.node_name
        elim r [
          | err e ↦ return counted
          | ok node ↦ elim (get_node_internal_ip node) [
            | err e ↦ return counted
            | ok ip ↦ return (Map.insert ip true counted)
          ]
        ])

  unfoldable pub count_namespace :
      String → Clientset → String → Map String Bool → M (Map String Bool)
  count_namespace app clientset namespace counted = do
    r ← list_pods env (some clientset) namespace (label_is "app" app)
    elim r [ err e ↦ return counted | ok pods ↦ loop (count_pod (some clientset)) pods counted ]

  unfoldable pub count_cluster :
      Scheduler → String → String × Clientset → Map String Bool → M (Map String Bool)
  count_cluster s app (cluster, clientset) =
      loop (count_namespace app clientset) s.included_namespaces

  unfoldable pub pods_per_node : Scheduler → Pod → M (Map String Bool)
  pods_per_node s pod =
      let app = Map.get_or "" "app" pod.labels in
      if app == "" then return [] else loop (count_cluster s app) s.clientsets []

  -- The first pass: the highest score among the nodes that can take the pod.
  unfoldable pub best_step :
      Scheduler → Pod → Limit → Latencies F → String → String × F → Best F → M (Best F)
  best_step s pod limit edges cluster (ip, score) best = do
    enough ← has_enough_capacity env (Map.lookup cluster s.clientsets) ip pod
    if enough && meets_limit limit ip edges && fl.lt best.score score
        then return (record { ip = ip; score = score })
        else return best

  unfoldable pub best_cluster :
      Scheduler → Pod → Limit → Latencies F → String × Map String F → Best F → M (Best F)
  best_cluster s pod limit edges (cluster, nodes) = loop (best_step s pod limit edges cluster) nodes

  unfoldable pub best_pass : Scheduler → Pod → Limit → Latencies F → Scores F → M (Best F)
  best_pass s pod limit edges scores =
      loop (best_cluster s pod limit edges) scores (record { ip = ""; score = fl.neg fl.max_float })

  -- The second pass: every node that can take the pod and is within a tenth of the best score.
  unfoldable pub candidate_step :
      Scheduler
      → Pod
      → Limit
      → Latencies F
      → F
      → String
      → String × F
      → List (NodeCandidate F)
      → M (List (NodeCandidate F))
  candidate_step s pod limit edges threshold cluster (ip, score) cands =
      if fl.lt score threshold then return cands else (do
        enough ← has_enough_capacity env (Map.lookup cluster s.clientsets) ip pod
        if enough && meets_limit limit ip edges
            then return (cands ++ record { ip = ip; cluster = cluster; score = score } ∷ [])
            else return cands)

  unfoldable pub candidate_cluster :
      Scheduler
      → Pod
      → Limit
      → Latencies F
      → F
      → String × Map String F
      → List (NodeCandidate F)
      → M (List (NodeCandidate F))
  candidate_cluster s pod limit edges threshold (cluster, nodes) =
      loop (candidate_step s pod limit edges threshold cluster) nodes

  unfoldable pub candidate_pass :
      Scheduler → Pod → Limit → Latencies F → F → Scores F → M (List (NodeCandidate F))
  candidate_pass s pod limit edges threshold scores =
      loop (candidate_cluster s pod limit edges threshold) scores []

  -- `bestScore * (1.0 - epsilon)`
  unfoldable pub near : F → F
  near best = fl.mul best (fl.sub (fl.literal 1 0) (fl.literal 1 1))

  -- The choice among the candidates.
  unfoldable pub choose : List (NodeCandidate F) → M (Result (String × String))
  choose [] = return (err no_near_optimal_node)
  choose (c ∷ cs) = do picked ← pick_weighted_by_score (c ∷ cs); return (ok picked)

  -- Both passes, once the limit and the latencies are known.
  unfoldable pub select_node :
      Scheduler → Pod → Limit → Latencies F → Scores F → M (Result (String × String))
  select_node s pod limit edges scores = do
    best ← best_pass s pod limit edges scores
    if best.ip == ""
        then return (err no_suitable_node)
        else (do cands ← candidate_pass s pod limit edges (near best.score) scores; choose cands)

  -- The rest of GetNodeIPForSchedule, once the annotation is read.
  unfoldable pub schedule_within :
      Scheduler → Scores F → Pod → Result Limit → M (Result (String × String))
  schedule_within s scores pod (err e) = return (err e)
  schedule_within s scores pod (ok limit) = do
    edges ← obtain_edge_node_latencies s
    counted ← pods_per_node s pod
    select_node s pod limit edges scores

  unfoldable pub get_node_ip_for_schedule :
      Scheduler → Scores F → Pod → M (Result (String × String))
  unfolding schedule_within
  get_node_ip_for_schedule s scores pod = schedule_within s scores pod (latency_limit pod)
