-- ===== src/Scheduler/Selection/Chosen.antt =====
-- The promise of GetNodeIPForSchedule, in terms of the cluster, the database and the annotation.
use proxima_scheduler.Prelude.{
  ◌≤◌, String, true, false, ◌≡◌, ◌⊎◌, inl, inr, refl, ◌∙◌, some, List, ◌∷◌, In, In-append_right,
  string_eq,
}
use proxima_scheduler.Prelude.Int.{ℤ}
use proxima_scheduler.Kube.{Clientset, Pod, Node, everything}
use proxima_scheduler.Map.{Map, lookup-In}
use proxima_scheduler.Map
use proxima_scheduler.Float.{Float}
use proxima_scheduler.Effect.{
  Env, History, Result, ok, err, Error, no_suitable_node, no_near_optimal_node, Result-cases,
  and_then,
}
use proxima_scheduler.Effect.Posts.{
  Returns, Returns_mono, Returns-and_then, Returns_both, Returns_all, Quiet, writes,
}
use proxima_scheduler.Nodes.{find_node}
use proxima_scheduler.Nodes.Lookup.{HasAddress, find_node-first}
use proxima_scheduler.Scheduler.{Scheduler}
use proxima_scheduler.Scheduler.Capacity.{fits, total, node_holds_iff}
use proxima_scheduler.Scheduler.Selection.{
  Latencies, Scores, Limit, at_most, latency_limit, meets_limit, near, select_node,
  get_node_ip_for_schedule, schedule_within, obtain_edge_node_latencies, pods_per_node,
}
use proxima_scheduler.Scheduler.Selection.Reads.{
  Answered, Covered, pods_per_node-Quiet, obtain_edge_node_latencies-Quiet,
  obtain_edge_node_latencies-Covered,
}
use proxima_scheduler.Scheduler.Selection.Steps.{Near, within_limit-Near}
use proxima_scheduler.Scheduler.Selection.Refused.{IsNoneSuitable}
use proxima_scheduler.Scheduler.Selection.Caused.{IsNoneNear, IsCaused, select_node-IsCaused}
use proxima_scheduler.Scheduler.Selection.Feasible.{Served}
use proxima_scheduler.Scheduler.Selection.Sound.{Selected, select_node-Selected}

-- The cluster lists a node with the address, which has what the pod's containers request.
pub record HasRoom (listed : Result (List Node)) (ip : String) (pod : Pod) : Type 0 where
  pub nodes : List Node
  pub node : Node
  pub answered : listed ≡ ok nodes
  pub member : In node nodes
  pub addressed : HasAddress ip node
  pub cpu_fits : total (λ r. r.cpu) pod.containers ≤ node.cpu
  pub memory_fits : total (λ r. r.memory) pod.containers ≤ node.memory

fits-HasRoom :
    (listed : Result (List Node)) (ip : String) (pod : Pod)
    → fits ip pod listed ≡ true
    → HasRoom listed ip pod
fits-HasRoom (err e) ip pod h = cc
fits-HasRoom (ok nodes) ip pod h = elim (Result-cases (find_node ip nodes)) [
  | inl (e, missing) ↦ cc (rw missing at h)
  | inr (node, found) ↦
      let (before, after, split, has, first) = find_node-first ip nodes node found in
      let room = (node_holds_iff node pod).0 (rw found at h) in
      record {
        nodes = nodes;
        node = node;
        answered = refl;
        member = rw split (In-append_right node before (node ∷ after) (inl refl));
        addressed = has;
        cpu_fits = room.0;
        memory_fits = room.1;
      }
]

module _ {F : Type 0} ⦃fl : Float F⦄ (env : Env F) (s : Scheduler) (pod : Pod)
    (scores : Scores F) where
  -- What holds of a node that is returned under a limit.
  pub record IsChosen (limit : Limit) (cluster ip : String) : Type 0 where
    pub score : F
    pub nodes : Map String F
    pub cluster_listed : In (cluster, nodes) scores
    pub node_listed : In (ip, score) nodes
    pub clientset : Clientset
    pub known : Map.lookup cluster s.clientsets ≡ some clientset
    pub asked : History
    pub room : HasRoom (env.nodes asked clientset everything) ip pod
    pub best : F
    pub best_cluster : String
    pub best_nodes : Map String F
    pub best_ip : String
    pub best_cluster_listed : In (best_cluster, best_nodes) scores
    pub best_listed : In (best_ip, best) best_nodes
    pub near_best : fl.lt score (near env best) ≡ false
    pub within :
        (ms : ℤ) (edge : String)
        → limit ≡ at_most ms
        → In edge s.edge_proxies
        → ((latencies : Map String F) × Answered env edge latencies × Near ms ip latencies)
          ⊎ ((asked : History) × (e : Error) × (env.latencies_for_edge asked edge ≡ err e))

  meets_limit-within :
      (limit : Limit) (ip : String) (edges : Latencies F)
      → meets_limit limit ip edges ≡ true
      → (ms : ℤ) (edge : String) → limit ≡ at_most ms
      → Covered env edge edges
      → ((latencies : Map String F) × Answered env edge latencies × Near ms ip latencies)
        ⊎ ((asked : History) × (e : Error) × (env.latencies_for_edge asked edge ≡ err e))
  unfolding meets_limit
  meets_limit-within limit ip edges met ms edge e covered = elim covered [
    | inl (latencies, answered, found) ↦ inl (
      latencies,
      answered,
      within_limit-Near ms ip edges edge latencies (rw e at met)
          (lookup-In edge latencies edges found),
    )
    | inr failed ↦ inr failed
  ]

  -- The latencies that were read from the edge proxies.
  abbrev pub IsRead : Latencies F → Type 0
  IsRead edges = (edge : String) → In edge s.edge_proxies → Covered env edge edges

  -- Every result: an error for a malformed limit, one of the two errors of the passes, for its cause,
  -- or a node.
  abbrev pub Chosen : Result (String × String) → Type 0
  Chosen (err e) =
      (latency_limit pod ≡ err e)
      ⊎ ((limit : Limit) × (edges : Latencies F) × (latency_limit pod ≡ ok limit)
          × IsRead edges
          × (((e ≡ no_suitable_node) × IsNoneSuitable env s pod limit edges scores)
              ⊎ ((e ≡ no_near_optimal_node) × IsNoneNear env s pod limit edges scores)))
  Chosen (ok (ip, cluster)) =
      (limit : Limit) × (latency_limit pod ≡ ok limit) × IsChosen limit cluster ip

  Selected-Chosen :
      (limit : Limit) (edges : Latencies F) (served : Served s scores)
      (r : Result (String × String))
      → latency_limit pod ≡ ok limit
      → ((edge : String) → In edge s.edge_proxies → Covered env edge edges)
      → Selected env s pod limit edges scores served r
      → IsCaused env s pod limit edges scores r
      → Chosen r
  Selected-Chosen limit edges served (err e) l covered sel cause =
      inr (limit, edges, l, covered, cause)
  Selected-Chosen limit edges served (ok (ip, cluster)) l covered (score, f, (bc, bi, best, g, n))
        cause =
      (
        limit,
        l,
        record {
          score = score;
          nodes = f.nodes;
          cluster_listed = f.cluster_listed;
          node_listed = f.node_listed;
          clientset = f.clientset;
          known = f.known;
          asked = f.asked;
          room = fits-HasRoom _ ip pod f.fitted;
          best = best;
          best_cluster = bc;
          best_nodes = g.nodes;
          best_ip = bi;
          best_cluster_listed = g.cluster_listed;
          best_listed = g.node_listed;
          near_best = n;
          within =
              λ ms edge e m. meets_limit-within limit ip edges f.met ms edge e (covered edge m);
        },
      )

  schedule_within-Chosen :
      (limit : Limit) (h : History)
      → Served s scores
      → latency_limit pod ≡ ok limit
      → Returns
          (schedule_within env s scores pod (ok limit) h)
          (λ r h'. (writes h' ≡ writes h) × Chosen r)
  unfolding schedule_within
  schedule_within-Chosen limit h served l =
      Returns-and_then (obtain_edge_node_latencies env s h)
        (λ edges k.
          and_then (pods_per_node env s pod k)
            (λ counted. select_node env s pod limit edges scores))
        Known (λ r k. (writes k ≡ writes h) × Chosen r) obtained
        (λ edges k (quiet, covered).
          Returns-and_then (pods_per_node env s pod k)
            (λ counted. select_node env s pod limit edges scores) (Quiet k)
            (λ r j. (writes j ≡ writes h) × Chosen r) (pods_per_node-Quiet env s pod k)
            (λ counted j still.
              Returns_mono (select_node env s pod limit edges scores j) _
                (λ r i. (writes i ≡ writes h) × Chosen r)
                (Returns_both (select_node env s pod limit edges scores j) _ _
                  (select_node-Selected env s pod limit edges scores served j)
                  (select_node-IsCaused env s pod limit edges scores served j))
                (λ r i ((same, sel), cause). (
                  same ∙ still ∙ quiet,
                  Selected-Chosen limit edges served r l covered sel cause,
                ))))
    where
      Known : Latencies F → History → Type 0
      Known edges k =
          (writes k ≡ writes h)
          × ((edge : String) → In edge s.edge_proxies → Covered env edge edges)

      obtained : Returns (obtain_edge_node_latencies env s h) Known
      obtained =
          let o = obtain_edge_node_latencies env s h in
          let quiet = obtain_edge_node_latencies-Quiet env s h in
          Returns_both o (Quiet h)
            (λ edges k. (edge : String) → In edge s.edge_proxies → Covered env edge edges) quiet
            (Returns_all o (λ edge edges k. Covered env edge edges) (λ edge. In edge s.edge_proxies)
              (Returns_mono o (Quiet h) (λ edges k. Unit {0}) quiet (λ edges k q. tt))
              (λ edge m. obtain_edge_node_latencies-Covered env s edge m h))

  -- Asked for a node for a pod, with scores for clusters that the scheduler knows, the program
  -- neither panics nor changes any cluster. It returns a node that has a score, that had room for the
  -- pod's requests when its cluster was asked, whose score is not below nine tenths of that of a
  -- listed node, and that under a limit has from each edge proxy a latency within it, unless the query
  -- for that proxy failed. Or it returns an error for its cause: that of a malformed limit
  -- annotation; that no node suits, where each node that has a score was refused, as it had no room
  -- when its cluster was asked or is beyond the limit, or has no score above the least float, unless
  -- one is listed under the empty address; or that none is near the optimum, where a node could take
  -- the pod, and then each one with nine tenths of its score at least was refused.
  pub get_node_ip_for_schedule-Chosen :
      (h : History)
      → Served s scores
      → Returns
          (get_node_ip_for_schedule env s scores pod h)
          (λ r h'. (writes h' ≡ writes h) × Chosen r)
  unfolding get_node_ip_for_schedule
  get_node_ip_for_schedule-Chosen h served = elim (Result-cases (latency_limit pod)) [
    | inl (e, malformed) ↦ rw malformed (refl, inl malformed)
    | inr (limit, l) ↦ rw l (schedule_within-Chosen limit h served l)
  ]
