-- ===== src/Tests/World.antt =====
-- Two clusters with a node each, a database that knows both, and answers that never change.
use proxima_scheduler.Prelude.{
  zero, suc, String, true, false, refl, some, List, [], ◌∷◌, ◌==◌, string_eq, if◌then◌else◌,
}
use proxima_scheduler.Prelude.Int.{pos}
use proxima_scheduler.Map.{Map}
use proxima_scheduler.Float.{Micro, micro, micro_float}
use proxima_scheduler.Kube.{
  Clientset, client, internal_ip, Node, ready, condition_true, Pod, pending, node_port,
}
use proxima_scheduler.Effect.{Env, ok, err, api_error, database_error}
use proxima_scheduler.Scheduler.{Scheduler, DesiredApp}
use proxima_scheduler.Scheduler.Hashing.{IsHexadecimal, hex_run, is_hex, prefix}

abbrev pub node_at : String → String → Node
node_at name ip = record {
  name = name;
  addresses = record { type = internal_ip; address = ip } ∷ [];
  conditions = record { type = ready; status = condition_true } ∷ [];
  taints = [];
  cpu = 4000;
  memory = 8000;
}

abbrev pub nodes_of : Clientset → List Node
nodes_of (client n) = elim n [
  | zero ↦ node_at "near" "10.0.0.1" ∷ []
  | suc k ↦ node_at "far" "10.0.1.1" ∷ []
]

abbrev pub world : Env Micro
world = record {
  nodes = λ h c sel. ok (nodes_of c);
  node = λ h c name. elim (nodes_of c) [ [] ↦ err api_error | n ∷ ns ↦ ok n ];
  pods = λ h c ns sel. ok [];
  service = λ h c ns name. ok (record { type = node_port; node_ports = 30080 ∷ [] });
  accepts_create = λ h c ns pod. true;
  accepts_delete = λ h c ns name. true;
  accepts_bind = λ h c ns name uid node. true;
  node_score = λ h ip. ok (if ip == "10.0.0.1" then micro (pos 400_000) else micro (pos 900_000));
  latencies_for_edge =
      λ h edge. ok (("10.0.0.1", micro (pos 9_000_000)) ∷ ("10.0.1.1", micro (pos 2_000_000)) ∷ []);
  average_ping_time = λ h. err database_error;
  now = λ h. pos 0;
  random = λ h. micro (pos 0);
  digest = λ h name. "0a1b2c3d4e5f60718293a4b5c6d7e8f901234567";
}

abbrev pub plain_pod : Pod
plain_pod = record {
  name = "web-0";
  namespace = "default";
  uid = "u1";
  resource_version = "7";
  node_name = "";
  scheduler_name = "proxima-scheduler";
  labels = ("app", "web") ∷ [];
  annotations = ("proxima-scheduler/max-latency-ms", "5") ∷ [];
  containers =
      record { requests = some (record { cpu = some 500; memory = some 200 }); ports = 8080 ∷ [] }
      ∷ [];
  deleting = false;
  phase = pending;
  creation = pos 0;
  pod_ip = "";
  host_ip = "";
}

abbrev pub web : DesiredApp
web = record {
  app = "web";
  namespace = "default";
  replicas = pos 1;
  annotations = [];
  labels = [];
  template = plain_pod;
  pods_by_name = [];
}

abbrev pub sched : Scheduler
sched = record {
  clientsets = ("local", client 0) ∷ ("edge", client 1) ∷ [];
  scheduler_name = "proxima-scheduler";
  included_namespaces = "default" ∷ [];
  edge_proxies = "10.9.9.9" ∷ [];
  desired_apps = ("web", web) ∷ [];
}

abbrev pub two_scores : Map String (Map String Micro)
two_scores =
    ("local", ("10.0.0.1", micro (pos 400_000)) ∷ [])
    ∷ ("edge", ("10.0.1.1", micro (pos 900_000)) ∷ [])
    ∷ []

pub world-IsHexadecimal : IsHexadecimal world
unfolding hex_run is_hex prefix
world-IsHexadecimal h name = refl
