-- ===== src/Tests/EdgeProxy.antt =====
-- An edge proxy with a pod of its own cluster and one of another cluster.
use proxima_scheduler.Prelude.{
  zero, suc, ◌≡◌, refl, String, true, false, some, List, [], ◌∷◌, inl, inr, ◌==◌, string_eq,
  if◌then◌else◌,
}
use proxima_scheduler.Prelude.Int.{pos}
use proxima_scheduler.Map.{Map}
use proxima_scheduler.Map
use proxima_scheduler.Float.{Micro, micro, micro_float, micro_positive}
use proxima_scheduler.Kube.{Clientset, client, Pod, running}
use proxima_scheduler.Effect.{Result, err, api_error, Env, done, ok, clock_read}
use proxima_scheduler.Effect.Posts.{Returns, writes}
use proxima_scheduler.Metrics.{MetricsWorker, new_metrics_worker, send_latency_data}
use proxima_scheduler.Clients.{load_clusters}
use proxima_scheduler.EdgeProxy.{
  EdgeProxy, ForwardTarget, edge_proxy_with, new_edge_proxy, external_ip_of, is_service_allowed,
}
use proxima_scheduler.EdgeProxy.Fit.{serving-IsFit}
use proxima_scheduler.EdgeProxy.Refreshing.{instance_of, refresh_candidates, serving, first_port}
use proxima_scheduler.EdgeProxy.Paths.{slash, service_of, service_in}
use proxima_scheduler.EdgeProxy.Requests.{
  Request, Context, preprocess_request, prepared, context_for, modify_response, director,
}
use proxima_scheduler.EdgeProxy.Refreshed.{IsRefreshed, refresh_candidates-IsRefreshed}
use proxima_scheduler.EdgeProxy.States.{Reached, started, IsSound, Reached-IsSound}
use proxima_scheduler.EdgeProxy.Serving.{IsReply, preprocess_request-IsReply}
use proxima_scheduler.EdgeProxy.Steady.{IsSteady}
use proxima_scheduler.EdgeProxy.Running.{Event, ticked, invalidate, handle, run}
use proxima_scheduler.EdgeProxy.Running
use proxima_scheduler.EdgeProxy.Lasting.{IsForwarded, run-IsAnswered}
use proxima_scheduler.EdgeProxy.Measured.{received, measured, modify_response-prepared}
use proxima_scheduler.Strings.{split, prepend}
use proxima_scheduler.Tests.World.{world, plain_pod}

abbrev flask : String
flask = "test-flask-service"

abbrev near_pod : Pod
near_pod = record plain_pod {
  phase = running;
  node_name = "near";
  pod_ip = "10.1.0.7";
  host_ip = "10.0.0.1";
}

abbrev far_pod : Pod
far_pod = record plain_pod {
  phase = running;
  node_name = "far";
  pod_ip = "10.1.1.7";
  host_ip = "10.0.1.1";
}

abbrev pods_of : Clientset → List Pod
pods_of (client n) = elim n [ zero ↦ near_pod ∷ [] | suc k ↦ far_pod ∷ [] ]

abbrev edge_world : Env Micro
edge_world = record world { pods = λ h c ns sel. ok (pods_of c) }

abbrev edge_files : Map String String
edge_files = ("edge", "/etc/kubeconfigs/edge") ∷ []

abbrev load : String → Result Clientset
load path = if path == "/etc/kubeconfigs/edge" then ok (client 1) else err api_error

abbrev at_start : EdgeProxy Micro
at_start = record {
  consul_address = "consul";
  cache_duration = pos 60;
  candidate_cache = [];
  node_ip = "10.0.0.1";
  external_node_ip = "172.18.0.2";
  clientsets = ("edge", client 1) ∷ ("local", client 0) ∷ [];
  namespace = "default-proxima";
  kind_network_ip = "172.18.0.2";
  store = [];
  refresh_interval = pos 2_000_000_000;
}

at_start_reached : Reached edge_world at_start
unfolding new_edge_proxy load_clusters edge_proxy_with external_ip_of Map.insert
at_start_reached =
    started load "consul" (client 0) edge_files (pos 60) "10.0.0.1" "172.18.0.2" [] [] at_start refl

refresh_candidates-IsRefreshed_example :
    Returns
      (refresh_candidates edge_world at_start flask [])
      (λ p k. (writes k ≡ writes []) × IsRefreshed edge_world at_start flask p)
refresh_candidates-IsRefreshed_example = refresh_candidates-IsRefreshed edge_world at_start flask []

Reached-IsSound_example : IsSound edge_world at_start
Reached-IsSound_example = Reached-IsSound edge_world at_start at_start_reached

abbrev asked : Request
asked = record { path = "/test-flask-service/items"; headers = [] }

preprocess_request-IsReply_example :
    Returns
      (preprocess_request edge_world at_start asked [])
      (λ reply k. (writes k ≡ writes []) × IsReply edge_world at_start asked reply)
preprocess_request-IsReply_example =
    preprocess_request-IsReply edge_world at_start asked [] at_start_reached

at_start-IsSteady : IsSteady edge_world at_start flask
unfolding serving first_port Map.lookup
at_start-IsSteady = record {
  clientset = client 0;
  local = inr (inl refl);
  listed = near_pod ∷ [];
  listing = λ h. refl;
  pod = near_pod;
  pod_listed = inl refl;
  best = instance_of "local" near_pod 8080;
  can_serve = serving-IsFit "local" near_pod (instance_of "local" near_pod 8080) refl;
  latencies = ("10.0.0.1", micro (pos 9_000_000)) ∷ ("10.0.1.1", micro (pos 2_000_000)) ∷ [];
  reading = λ h. refl;
  latency = micro (pos 9_000_000);
  known = refl;
  positive = micro_positive 8_999_999;
}

abbrev items : String
items = "test-flask-service/items"

abbrev client_request : Request
client_request = record { path = String.◌∷◌ slash items; headers = [] }

-- What befalls the proxy after its first refresh.
abbrev befalls : List Event
befalls = Running.asked client_request ∷ invalidate flask ∷ Running.asked client_request ∷ []

run-IsAnswered_example : Returns (run edge_world (ticked ∷ befalls) at_start []) (λ s k.
    Returns
      (handle edge_world (Running.asked client_request) s k)
      (IsForwarded edge_world flask s client_request))
unfolding is_service_allowed Map.has Map.lookup
run-IsAnswered_example =
    run-IsAnswered edge_world flask befalls client_request at_start [] refl at_start_reached
      at_start-IsSteady

names_flask : service_of (String.◌∷◌ slash items) ≡ some flask
unfolding service_of service_in split prepend
names_flask = refl

abbrev far_target : ForwardTarget
far_target = record {
  pod = instance_of "edge" far_pod 8080;
  forward_host = "far:30080";
  use_proxy = true;
}

abbrev near_target : ForwardTarget
near_target = record {
  pod = instance_of "local" far_pod 8080;
  forward_host = "10.1.1.7:8080";
  use_proxy = false;
}

abbrev worker : MetricsWorker
worker = new_metrics_worker 100 "10.0.0.1" "" (pos 60_000_000_000)

abbrev sent : Request
sent = prepared client_request flask true

abbrev first : Context
first = context_for far_target (pos 0) flask

abbrev arrived : Request
arrived = received (director sent first)

modify_response-prepared_example :
    (arrived.path ≡ client_request.path)
    × (service_of arrived.path ≡ some flask)
    × (modify_response edge_world sent first worker []
        ≡ done
            (send_latency_data (measured first (pos 0) (pos 0)) worker)
            (clock_read ∷ clock_read ∷ []))
    × (modify_response edge_world
          (prepared arrived flask false)
          (context_for near_target (pos 5) flask)
          worker
          []
        ≡ done worker [])
modify_response-prepared_example =
    modify_response-prepared edge_world [] items flask far_target near_target (pos 0) (pos 5) worker
      worker [] [] names_flask refl refl
