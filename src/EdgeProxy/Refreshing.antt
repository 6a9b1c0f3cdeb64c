-- ===== src/EdgeProxy/Refreshing.antt =====
-- getPodsForService, refreshCandidates and backgroundRefresh: the pods that serve a service, and the
-- candidates that are made of them.
use proxima_scheduler.Prelude.{
  ℕ, String, Bool, true, false, not, ◌||◌, Option, none, some, List, [], ◌∷◌, ◌++◌, ◌==◌, string_eq,
  if◌then◌else◌,
}
use proxima_scheduler.Prelude.Int.{pos}
use proxima_scheduler.Decimal.{decimal}
use proxima_scheduler.Strings.{◌<>◌}
use proxima_scheduler.Kube.{
  Clientset, Pod, Container, Phase, running, pending, succeeded, failed, unknown, label_is,
}
use proxima_scheduler.Map.{Map}
use proxima_scheduler.Map
use proxima_scheduler.Float.{Float}
use proxima_scheduler.Effect.{
  Env, M, Result, ok, err, api_error, no_pods, no_targets, ◌>>=◌, return, loop, list_pods,
  get_average_latencies_for_edge,
}
use proxima_scheduler.Nodes.{find_edge_proxy_node_port_address}
use proxima_scheduler.EdgeProxy.{
  K8sPodInstance, ForwardTarget, WeightedForwardTarget, CachedForwardCandidates, EdgeProxy,
  allowed_services,
}

-- `len(pod.Spec.Containers) == 0 || len(pod.Spec.Containers[0].Ports) == 0`, and else the first port
abbrev pub first_of : List ℕ → Option ℕ
first_of [] = none
first_of (p ∷ ports) = some p

unfoldable pub first_port : List Container → Option ℕ
first_port [] = none
first_port (c ∷ containers) = first_of c.ports

abbrev pub is_running : Phase → Bool
is_running running = true
is_running pending = false
is_running succeeded = false
is_running failed = false
is_running unknown = false

abbrev pub instance_of : String → Pod → ℕ → K8sPodInstance
instance_of cluster pod port = record {
  pod_ip = pod.pod_ip;
  node_ip = pod.host_ip;
  node = pod.node_name;
  pod_name = pod.name;
  port = port;
  cluster = cluster;
}

-- The instance of one pod, if it can serve.
unfoldable pub serving : String → Pod → Option K8sPodInstance
unfolding first_port
serving cluster pod =
    if not (is_running pod.phase)
    then none
    else if pod.pod_ip == "" || pod.node_name == ""
    then none
    else if pod.host_ip == ""
    then none
    else elim (first_port pod.containers) [
      | none ↦ none
      | some port ↦ some (instance_of cluster pod port)
    ]

unfoldable pub instances : String → List Pod → List K8sPodInstance
instances cluster [] = []
instances cluster (pod ∷ pods) = elim (serving cluster pod) [
  | none ↦ instances cluster pods
  | some i ↦ i ∷ instances cluster pods
]

module _ {F : Type 0} ⦃fl : Float F⦄ (env : Env F) where
  unfoldable pub get_pods_for_service :
      String → String → String → Clientset → M (Result (List K8sPodInstance))
  get_pods_for_service service namespace cluster c = do
    r ← list_pods env (some c) namespace (label_is "app" service)
    elim r [ err e ↦ return (err api_error) | ok pods ↦ return (ok (instances cluster pods)) ]

  -- One cluster of the first loop of refreshCandidates.
  unfoldable pub add_pods :
      EdgeProxy F → String → String × Clientset → List K8sPodInstance → M (List K8sPodInstance)
  add_pods ep service (cluster, c) found = do
    r ← get_pods_for_service service ep.namespace cluster c
    elim r [ err e ↦ return found | ok pods ↦ return (found ++ pods) ]

  -- Where to forward to for an instance; nothing where the other cluster's proxy is not found.
  abbrev pub proxied : K8sPodInstance → Result String → M (Option ForwardTarget)
  proxied pod (err e) = return none
  proxied pod (ok url) =
      if url == ""
      then return none
      else return (some (record { pod = pod; forward_host = url <> ":30080"; use_proxy = true }))

  unfoldable pub forward_target : EdgeProxy F → K8sPodInstance → M (Option ForwardTarget)
  forward_target ep pod =
      if pod.cluster == "local"
      then return (
          some (record {
            pod = pod;
            forward_host = pod.pod_ip <> ":" <> decimal pod.port;
            use_proxy = false;
          }))
      else (do
        r ←
            find_edge_proxy_node_port_address env (Map.lookup pod.cluster ep.clientsets)
              "proxima-scheduler" "edgeproxy-service"
        proxied pod r)

  -- `1.0 / latency`
  unfoldable pub weighted : ForwardTarget → F → WeightedForwardTarget F
  weighted target latency = record { target = target; weight = fl.div (fl.literal 1 0) latency }

  abbrev pub offer :
      F → List (WeightedForwardTarget F) → Option ForwardTarget → List (WeightedForwardTarget F)
  offer latency targets none = targets
  offer latency targets (some target) = targets ++ weighted target latency ∷ []

  -- One pod of the second loop, with the measured latency of its node.
  unfoldable pub weigh_at :
      EdgeProxy F
      → K8sPodInstance
      → List (WeightedForwardTarget F)
      → Option F
      → M (List (WeightedForwardTarget F))
  weigh_at ep pod targets none = return targets
  weigh_at ep pod targets (some latency) =
      if fl.le latency (fl.literal 0 0)
      then return targets
      else (do t ← forward_target ep pod; return (offer latency targets t))

  unfoldable pub weigh :
      EdgeProxy F
      → Map String F
      → K8sPodInstance
      → List (WeightedForwardTarget F)
      → M (List (WeightedForwardTarget F))
  weigh ep latencies pod targets = weigh_at ep pod targets (Map.lookup pod.node_ip latencies)

  abbrev pub answer_of : List (WeightedForwardTarget F) → Result (List (WeightedForwardTarget F))
  answer_of [] = err no_targets
  answer_of (t ∷ ts) = ok (t ∷ ts)

  -- The function that refreshCandidates runs in its flight group.
  unfoldable pub weigh_all :
      EdgeProxy F → List K8sPodInstance → M (Result (List (WeightedForwardTarget F)))
  weigh_all ep [] = return (err no_pods)
  weigh_all ep (pod ∷ pods) = do
    r ← get_average_latencies_for_edge env ep.external_node_ip
    elim r [
      | err e ↦ return (err e)
      | ok latencies ↦ do
        targets ← loop (weigh ep latencies) (pod ∷ pods) []
        return (answer_of targets)
    ]

  abbrev pub fresh_candidates : List (WeightedForwardTarget F) → CachedForwardCandidates F
  fresh_candidates targets = record { candidates = targets; expiration = pos 0; refreshing = false }

  -- The cached entry after a failure; a missing one is made of zero values.
  unfoldable pub not_refreshing : Option (CachedForwardCandidates F) → CachedForwardCandidates F
  not_refreshing none = fresh_candidates []
  not_refreshing (some cached) = record cached { refreshing = false }

  unfoldable pub refreshed :
      EdgeProxy F → String → Result (List (WeightedForwardTarget F)) → EdgeProxy F
  refreshed ep service (ok targets) = record ep {
    store = Map.insert service (fresh_candidates targets) ep.store;
  }
  refreshed ep service (err e) = record ep {
    candidate_cache =
        Map.insert service (not_refreshing (Map.lookup service ep.candidate_cache))
          ep.candidate_cache;
  }

  unfoldable pub refresh_candidates : EdgeProxy F → String → M (EdgeProxy F)
  refresh_candidates ep service = do
    pods ← loop (add_pods ep service) ep.clientsets []
    r ← weigh_all ep pods
    return (refreshed ep service r)

  -- The services that are allowed are refreshed one by one at the start, and again at each tick.
  unfoldable pub refresh_all : EdgeProxy F → M (EdgeProxy F)
  refresh_all ep = loop (λ (e : String × Bool) p. refresh_candidates p e.0) allowed_services ep
