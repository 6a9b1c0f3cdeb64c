-- ===== src/Scheduler/Selection/Reads.antt =====
-- The parts of GetNodeIPForSchedule before the passes, which ask the clusters and the database.
use proxima_scheduler.Prelude.{
  String, Bool, ◌≡◌, ◌⊎◌, inl, inr, refl, ◌∙◌, some, [], ◌∷◌, In, arith, string_eq, ◌==◌,
  Bool-cases,
}
use proxima_scheduler.Kube.{Clientset, Pod, label_is}
use proxima_scheduler.Map.{Map}
use proxima_scheduler.Map
use proxima_scheduler.Float.{Float}
use proxima_scheduler.Effect.{
  Env, History, ok, err, Error, get_node, list_pods, get_average_latencies_for_edge, pods_listed,
  Result-cases,
}
use proxima_scheduler.Effect.Posts.{Returns, Returns_mono, loop-Quiet, loop_reaches, Quiet, writes}
use proxima_scheduler.Scheduler.{Scheduler}
use proxima_scheduler.Scheduler.Selection.{
  Latencies, obtain_step, obtain_edge_node_latencies, count_pod, count_namespace, count_cluster,
  pods_per_node,
}

-- Each clientset of the scheduler is not nil, so its calls do not panic.
module _ {F : Type 0} ⦃fl : Float F⦄ (env : Env F) where
  count_pod-Quiet :
      (c : Clientset) (pod : Pod) (m : Map String Bool) (h : History)
      → Returns (count_pod env (some c) pod m h) (Quiet h)
  unfolding count_pod get_node writes
  count_pod-Quiet c pod m h = ground arith

  count_namespace-Quiet :
      (app : String) (c : Clientset) (namespace : String) (m : Map String Bool) (h : History)
      → Returns (count_namespace env app c namespace m h) (Quiet h)
  unfolding count_namespace list_pods writes
  count_namespace-Quiet app c namespace m h =
      elim (Result-cases (env.pods h c namespace (label_is "app" app))) [
        | inl (e, failed) ↦ rw failed refl
        | inr (pods, listed) ↦ rw listed (
            loop-Quiet (count_pod env (some c)) pods (λ p n s k. count_pod-Quiet c p s k) m
              (pods_listed c namespace (label_is "app" app) ∷ h))
      ]

  pub pods_per_node-Quiet :
      (s : Scheduler) (pod : Pod) (h : History) → Returns (pods_per_node env s pod h) (Quiet h)
  unfolding pods_per_node count_cluster
  pods_per_node-Quiet s pod h = elim (Bool-cases (Map.get_or "" "app" pod.labels == "")) [
    | inl none_set ↦ rw none_set refl
    | inr app_set ↦ rw app_set (
        loop-Quiet (count_cluster env s (Map.get_or "" "app" pod.labels)) s.clientsets
          (λ (cluster, c) n m k.
            loop-Quiet (count_namespace env (Map.get_or "" "app" pod.labels) c)
              s.included_namespaces
              (λ ns q t j. count_namespace-Quiet (Map.get_or "" "app" pod.labels) c ns t j) m k)
          [] h)
  ]

  -- The database answered the query for the proxy with these latencies, at some time.
  abbrev pub Answered : String → Map String F → Type 0
  Answered edge latencies = (asked : History) × (env.latencies_for_edge asked edge ≡ ok latencies)

  -- The proxy's latencies are known, or its query failed.
  abbrev pub Covered : String → Latencies F → Type 0
  Covered edge edges =
      ((latencies : Map String F) × Answered edge latencies
        × (Map.lookup edge edges ≡ some latencies))
      ⊎ ((asked : History) × (e : Error) × (env.latencies_for_edge asked edge ≡ err e))

  obtain_step-Covered :
      (edge : String) (edges : Latencies F) (h : History)
      → Returns (obtain_step env edge edges h) (λ edges' h'. Covered edge edges')
  unfolding obtain_step get_average_latencies_for_edge
  obtain_step-Covered edge edges h = elim (Result-cases (env.latencies_for_edge h edge)) [
    | inl (e, failed) ↦ rw failed (inr (h, e, failed))
    | inr (latencies, answered) ↦
        rw answered (inl (latencies, (h, answered), Map.lookup-insert_self edge latencies edges))
  ]

  obtain_step-keeps :
      (edge other : String) (edges : Latencies F) (h : History)
      → Covered edge edges
      → Returns (obtain_step env other edges h) (λ edges' h'. Covered edge edges')
  unfolding obtain_step get_average_latencies_for_edge
  obtain_step-keeps edge other edges h covered =
      elim (Result-cases (env.latencies_for_edge h other)) [
        | inl (e, failed) ↦ rw failed covered
        | inr (latencies, answered) ↦ rw answered (elim (Bool-cases (other == edge)) [
          | inl same ↦
              let p : other ≡ edge = (string_eq.equals_iff other edge).0 same in
              inl (
                latencies,
                (h, rw (← p) answered),
                Map.lookup-insert other edge latencies edges ∙ rw same,
              )
          | inr differ ↦ elim covered [
            | inl (known, from, found) ↦
                inl (known, from, Map.lookup-insert other edge latencies edges ∙ rw differ found)
            | inr failed ↦ inr failed
          ]
        ])
      ]

  pub obtain_edge_node_latencies-Quiet :
      (s : Scheduler) (h : History) → Returns (obtain_edge_node_latencies env s h) (Quiet h)
  unfolding obtain_edge_node_latencies obtain_step get_average_latencies_for_edge writes
  obtain_edge_node_latencies-Quiet s h =
      loop-Quiet (obtain_step env) s.edge_proxies (λ edge m edges k. ground arith) [] h

  pub obtain_edge_node_latencies-Covered :
      (s : Scheduler) (edge : String)
      → In edge s.edge_proxies
      → (h : History)
      → Returns (obtain_edge_node_latencies env s h) (λ edges h'. Covered edge edges)
  unfolding obtain_edge_node_latencies
  obtain_edge_node_latencies-Covered s edge m h =
      loop_reaches (obtain_step env) (λ edges k. Unit) (λ edges k. Covered edge edges)
        s.edge_proxies edge m
        (λ y n edges k i.
          Returns_mono (obtain_step env y edges k) (λ a b. Covered y a) (λ a b. Unit)
            (obtain_step-Covered y edges k) (λ a b c. tt))
        (λ edges k i. obtain_step-Covered edge edges k)
        (λ y n edges k i c. obtain_step-keeps edge y edges k c) [] h tt
