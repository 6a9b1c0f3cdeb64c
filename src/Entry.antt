-- ===== src/Entry.antt =====
-- The main functions of proxima-scheduler/cmd/: what each program starts from the environment, the
-- kubeconfigs and the cluster that it runs in.
pub mod Launched
use proxima_scheduler.Prelude.{String, Bool, Option, some, List, []}
use proxima_scheduler.Prelude.Int.{ℤ, pos}
use proxima_scheduler.Kube.{Clientset}
use proxima_scheduler.Map.{Map}
use proxima_scheduler.Effect.{Env, M, Result, ok, err, ◌>>=◌, return}
use proxima_scheduler.Clients.{
  ClientGo, get_in_cluster_clientset, get_clientset_for_cluster, load_kubeconfigs,
}
use proxima_scheduler.Configuration.{Config, load_config, home_dir}
use proxima_scheduler.Scheduler.{Scheduler}
use proxima_scheduler.Scheduler.Starting.{new_scheduler}
use proxima_scheduler.ScoresWorker.{ScoresWorker, new_scores_worker}
use proxima_scheduler.Metrics.{MetricsWorker, new_metrics_worker}
use proxima_scheduler.EdgeProxy.{EdgeProxy, new_edge_proxy}
use proxima_scheduler.Pinger.{Pinger, new_pinger}
use proxima_scheduler.Admission.{AdmissionHandler, new_admission_handler}

-- What a program finds: the environment's variables, client-go, and the file system. `join_path` is
-- filepath.Join, and `parse_duration` time.ParseDuration.
pub record System (C : Type 0) : Type 0 where
  pub variables : Map String String
  pub parse_duration : String → Option ℤ
  pub client_go : ClientGo C
  pub join_path : List String → String
  pub read_dir : String → Result (List (String × Bool))

-- `log.Fatalf` ends a program.
pub data Launch (A : Type 0) : Type 0 where
  fatal : Launch A
  launched : A → Launch A

unfoldable pub launch : {A : Type 0} → Result A → Launch A
launch (err e) = fatal
launch (ok a) = launched a

-- A nil map where there is an error, which is overwritten before it is looked at.
abbrev pub or_nil : Result (Map String String) → Map String String
or_nil (err e) = []
or_nil (ok m) = m

module _ {C : Type 0} (sys : System C) where
  abbrev pub config : Config
  config = load_config sys.parse_duration sys.variables

  abbrev pub in_cluster : Result Clientset
  in_cluster = get_in_cluster_clientset sys.client_go sys.join_path (home_dir sys.variables)

  abbrev pub kubeconfigs : Result (Map String String)
  kubeconfigs =
      let dir = config.kube_configs_path in load_kubeconfigs sys.join_path dir (sys.read_dir dir)

  abbrev pub load : String → Result Clientset
  load path = get_clientset_for_cluster sys.client_go path

  -- cmd/scheduler, up to its goroutines
  unfoldable pub scheduler_main : {F : Type 0} → Launch (Scheduler × ScoresWorker F)
  scheduler_main = elim in_cluster [
    | err e ↦ fatal
    | ok c ↦
        elim (new_scheduler load config.scheduler_name config.included_namespaces
          config.edge_proxies c (or_nil kubeconfigs)) [
            | err e ↦ fatal
            | ok s ↦ launched (s, new_scores_worker config.scoring_interval config.edge_proxies)
          ]
  ]

  -- cmd/admissionhandler
  unfoldable pub admission_main : AdmissionHandler
  admission_main =
      new_admission_handler config.consul_url config.admission_crt_path config.admission_key_path

  module _ {F : Type 0} (env : Env F) where
    -- cmd/edgeproxy, with a cache duration of 0
    unfoldable pub edge_proxy_main : M (Launch (MetricsWorker × EdgeProxy F))
    edge_proxy_main = elim in_cluster [
      | err e ↦ return fatal
      | ok c ↦ elim kubeconfigs [
        | err e ↦ return fatal
        | ok files ↦ do
          r ←
              new_edge_proxy env load config.consul_url c files (pos 0) config.node_ip
                config.kind_network_ip
          elim r [
            | err e ↦ return fatal
            | ok ep ↦ return (
                launched (
                  new_metrics_worker 100 config.node_ip config.kind_network_ip (pos 60_000_000_000),
                  ep,
                ))
          ]
      ]
    ]

    -- cmd/pinger
    unfoldable pub pinger_main : M (Launch Pinger)
    pinger_main = elim in_cluster [
      | err e ↦ return fatal
      | ok c ↦ do
        r ←
            new_pinger env config.ping_interval (some c) config.database_enabled config.node_ip
              config.edge_proxies config.kind_network_ip
        return (launch r)
    ]
