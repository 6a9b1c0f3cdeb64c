-- ===== src/Tests/Entry.antt =====
-- The programs, started in a cluster that holds the kubeconfig of another one.
use Prim.Native.Char.{Char}
use proxima_scheduler.Prelude.{
  ◌≡◌, refl, String, true, false, none, some, List, [], ◌∷◌, ◌==◌, string_eq, if◌then◌else◌,
}
use proxima_scheduler.Prelude.Int.{pos}
use proxima_scheduler.Map.{Map}
use proxima_scheduler.Map
use proxima_scheduler.Strings.{join, split}
use proxima_scheduler.Kube.{Clientset, client}
use proxima_scheduler.Float.{Micro, micro_float}
use proxima_scheduler.Effect.{ok, done}
use proxima_scheduler.Effect.Posts.{Returns, writes}
use proxima_scheduler.Configuration.{
  load_config, get_env, get_env_as_duration, parse_comma_separated_array,
}
use proxima_scheduler.Clients.{
  ClientGo, client_from, get_in_cluster_clientset, get_clientset_for_cluster, load_kubeconfigs,
  add_kubeconfigs, load_clusters, loaded, wrapped, file_stem, without_last,
}
use proxima_scheduler.Scheduler.{Scheduler}
use proxima_scheduler.Scheduler.Starting.{new_scheduler}
use proxima_scheduler.ScoresWorker.{ScoresWorker, new_scores_worker}
use proxima_scheduler.Metrics.{MetricsWorker, new_metrics_worker}
use proxima_scheduler.EdgeProxy.Requests.{Request}
use proxima_scheduler.EdgeProxy.{EdgeProxy, edge_proxy_with, new_edge_proxy, external_ip_of}
use proxima_scheduler.EdgeProxy.States.{Reached}
use proxima_scheduler.EdgeProxy.Requests.{other_error}
use proxima_scheduler.EdgeProxy.Running as EdgeRunning
use proxima_scheduler.Entry.{System, launched, in_cluster, load, scheduler_main, edge_proxy_main}
use proxima_scheduler.Entry.Launched.{kubeconfig_of, scheduler_main_lem, edge_proxy_main-IsServing}
use proxima_scheduler.Tests.World.{world}

abbrev client_go : ClientGo String
client_go = record {
  in_cluster_config = ok "here";
  build_config_from_flags = λ path. ok path;
  new_for_config = λ c. ok (if c == "here" then client 0 else client 1);
}

abbrev separator : Char
separator = "/"

abbrev one_file : System String
one_file = record {
  variables = ("KUBECONFIGS_PATH", "/conf") ∷ ("KIND_NETWORK_IP", "172.18.0.2") ∷ [];
  parse_duration = λ text. none;
  client_go = client_go;
  join_path = λ parts. join separator parts;
  read_dir = λ dir. ok (("..data", true) ∷ ("edge.yaml", false) ∷ []);
}

abbrev two_clusters : Scheduler
two_clusters = record {
  clientsets = ("edge", client 1) ∷ ("local", client 0) ∷ [];
  scheduler_name = "proxima-scheduler";
  included_namespaces = "default" ∷ [];
  edge_proxies = "default" ∷ [];
  desired_apps = [];
}

abbrev scores_worker : ScoresWorker Micro
scores_worker = new_scores_worker (pos 30_000_000_000) ("default" ∷ [])

scheduler_launched : scheduler_main one_file ≡ launched (two_clusters, scores_worker)
unfolding scheduler_main load_config get_env get_in_cluster_clientset wrapped load_kubeconfigs
    add_kubeconfigs file_stem new_scheduler load_clusters client_from get_clientset_for_cluster
    Map.lookup Map.insert split join without_last parse_comma_separated_array get_env_as_duration
scheduler_launched = refl

abbrev elsewhere : String
elsewhere = "edge"

scheduler_main_lem_example :
    (c : Clientset) × (in_cluster one_file ≡ ok c)
    × (Map.lookup "edge" two_clusters.clientsets ≡ (
        if "local" == elsewhere
        then some c
        else loaded (load one_file) (kubeconfig_of one_file "edge")))
    × (two_clusters.desired_apps ≡ [])
scheduler_main_lem_example =
    scheduler_main_lem one_file two_clusters scores_worker "edge" scheduler_launched

abbrev two_ends : EdgeProxy Micro
two_ends = record {
  consul_address = "";
  cache_duration = pos 0;
  candidate_cache = [];
  node_ip = "";
  external_node_ip = "172.18.0.2";
  clientsets = ("edge", client 1) ∷ ("local", client 0) ∷ [];
  namespace = "default-proxima";
  kind_network_ip = "172.18.0.2";
  store = [];
  refresh_interval = pos 2_000_000_000;
}

abbrev metrics_worker : MetricsWorker
metrics_worker = new_metrics_worker 100 "" "172.18.0.2" (pos 60_000_000_000)

edge_proxy_launched :
    edge_proxy_main one_file world [] ≡ done (launched (metrics_worker, two_ends)) []
unfolding edge_proxy_main load_config get_env get_in_cluster_clientset wrapped load_kubeconfigs
    add_kubeconfigs file_stem new_edge_proxy edge_proxy_with external_ip_of load_clusters
    client_from get_clientset_for_cluster Map.lookup Map.insert split join without_last
    parse_comma_separated_array get_env_as_duration
edge_proxy_launched = refl

abbrev one_request : Request
one_request = record { path = "/test-flask-service/"; headers = [] }

abbrev four_events : List EdgeRunning.Event
four_events =
    EdgeRunning.ticked
    ∷ EdgeRunning.asked one_request
    ∷ EdgeRunning.invalidate "test-flask-service"
    ∷ EdgeRunning.failed other_error "test-flask-service"
    ∷ []

edge_proxy_main-IsServing_example : Returns (EdgeRunning.run world four_events two_ends []) (λ s j.
    (writes j ≡ writes [])
    × Reached world s.proxy
    × Returns
        (EdgeRunning.handle world (EdgeRunning.asked one_request) s j)
        (EdgeRunning.IsAnswer world s one_request j))
edge_proxy_main-IsServing_example =
    edge_proxy_main-IsServing one_file world metrics_worker two_ends four_events one_request [] []
      edge_proxy_launched
