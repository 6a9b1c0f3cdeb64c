-- ===== src/EdgeProxy.antt =====
-- proxima-scheduler/edgeproxy/edgeproxy.go: the edge proxy's state. The counters `rrIndex` and `requestCounts`, which nothing reads, are left out.
pub mod Refreshing
pub mod Choosing
pub mod Paths
pub mod Requests
pub mod Fit
pub mod Offered
pub mod Weighed
pub mod Refreshed
pub mod States
pub mod Serving
pub mod Measured
pub mod Steady
pub mod Running
pub mod Lasting
use proxima_scheduler.Prelude.{
  ℕ, String, Bool, true, false, not, ◌||◌, ◌&&◌, Option, none, some, List, [], ◌∷◌, ◌++◌, ◌==◌,
  string_eq, if◌then◌else◌,
}
use proxima_scheduler.Prelude.Int.{ℤ, pos}
use proxima_scheduler.Decimal.{decimal}
use proxima_scheduler.Strings.{◌<>◌}
use proxima_scheduler.Kube.{
  Clientset, Pod, Container, Phase, running, pending, succeeded, failed, unknown, label_is,
}
use proxima_scheduler.Map.{Map}
use proxima_scheduler.Map
use proxima_scheduler.Float.{Float}
use proxima_scheduler.Effect.{
  Env, M, Result, ok, err, Error, api_error, no_candidates, no_pods, no_targets, ◌>>=◌, return,
  fault, loop, list_pods, get_average_latencies_for_edge, random,
}
use proxima_scheduler.Clients.{load_clusters}
use proxima_scheduler.Nodes.{find_edge_proxy_node_port_address, get_node_external_ip}

pub record K8sPodInstance : Type 0 where
  pub pod_ip : String
  pub node_ip : String
  pub node : String
  pub pod_name : String
  pub port : ℕ
  pub cluster : String

pub record ForwardTarget : Type 0 where
  pub pod : K8sPodInstance
  pub forward_host : String
  pub use_proxy : Bool

pub record WeightedForwardTarget (F : Type 0) : Type 0 where
  pub target : ForwardTarget
  pub weight : F

pub record CachedForwardCandidates (F : Type 0) : Type 0 where
  pub candidates : List (WeightedForwardTarget F)
  pub expiration : ℤ
  pub refreshing : Bool

pub record EdgeProxy (F : Type 0) : Type 0 where
  pub consul_address : String
  pub cache_duration : ℤ
  pub candidate_cache : Map String (CachedForwardCandidates F)
  pub node_ip : String
  pub external_node_ip : String
  pub clientsets : Map String Clientset
  pub namespace : String
  pub kind_network_ip : String
  pub store : Map String (CachedForwardCandidates F)
  pub refresh_interval : ℤ

abbrev pub allowed_services : Map String Bool
allowed_services = ("test-flask-service", true) ∷ []

unfoldable pub is_service_allowed : String → Bool
unfolding Map.has
is_service_allowed service = Map.has service allowed_services

-- The proxy that NewEdgeProxy makes, once its clients and its external address are known.
unfoldable pub edge_proxy_with :
    {F : Type 0}
    → String
    → ℤ
    → String
    → String
    → Map String Clientset
    → Result String
    → Result (EdgeProxy F)
edge_proxy_with consul cache_duration node_ip kind_network_ip clientsets (err e) = err e
edge_proxy_with consul cache_duration node_ip kind_network_ip clientsets (ok ip) = ok (record {
  consul_address = consul;
  cache_duration = cache_duration;
  candidate_cache = [];
  node_ip = node_ip;
  external_node_ip = ip;
  clientsets = clientsets;
  namespace = "default-proxima";
  kind_network_ip = kind_network_ip;
  store = [];
  refresh_interval = pos 2_000_000_000;
})

-- NewEdgeProxy. How a kubeconfig becomes a client is an argument. The local client is not nil, as in
-- cmd/edgeproxy/main.go, so the clients are never empty.
module _ {F : Type 0} (env : Env F) where
  unfoldable pub external_ip_of : String → Option Clientset → String → M (Result String)
  external_ip_of kind_network_ip local node_ip =
      if kind_network_ip == ""
      then get_node_external_ip env local node_ip
      else return (ok kind_network_ip)

  unfoldable pub new_edge_proxy :
      (String → Result Clientset)
      → String
      → Clientset
      → Map String String
      → ℤ
      → String
      → String
      → M (Result (EdgeProxy F))
  new_edge_proxy load consul local kubeconfigs cache_duration node_ip kind_network_ip =
      elim (load_clusters load kubeconfigs []) [
        | err e ↦ return (err e)
        | ok others ↦ do
          ip ← external_ip_of kind_network_ip (some local) node_ip
          return (
              edge_proxy_with consul cache_duration node_ip kind_network_ip
                (Map.insert "local" local others) ip)
      ]

unfoldable pub invalidate_cache : {F : Type 0} → EdgeProxy F → String → EdgeProxy F
invalidate_cache ep service = record ep { candidate_cache = Map.delete service ep.candidate_cache }

unfoldable pub get_latency_for_node : {F : Type 0} → String → Map String F → Option F
get_latency_for_node ip latencies = Map.lookup ip latencies
