-- ===== src/Scheduler/Placing.antt =====
-- proxima-scheduler/scheduler/scheduler.go: GetNodeScores, schedulePod and bindPodToNode.
pub mod Scored
pub mod Target
pub mod Schedule
use proxima_scheduler.Prelude.{
  String, Bool, true, false, not, ◌&&◌, ◌||◌, Option, none, some, List, [], ◌∷◌, ◌==◌, string_eq,
  if◌then◌else◌,
}
use proxima_scheduler.Kube.{Clientset, Address, Node, Pod}
use proxima_scheduler.Map.{Map}
use proxima_scheduler.Map
use proxima_scheduler.Float.{Float}
use proxima_scheduler.Effect.{
  Env, M, Result, ok, err, Error, scores_failed, ◌>>=◌, return, fault, loop, get_node_score,
  create_pod, delete_pod, bind_pod,
}
use proxima_scheduler.Nodes.{is_internal, discover_nodes, get_node_by_internal_ip}
use proxima_scheduler.Scheduler.{Scheduler, DesiredApp, DesiredPod, is_node_ready, is_schedulable}
use proxima_scheduler.Scheduler.Hashing.{with_new_hashed_name}
use proxima_scheduler.Scheduler.Selection.{Scores, get_node_ip_for_schedule}

-- The last internal address, or the empty text.
unfoldable pub last_internal : List Address → String → String
last_internal [] ip = ip
last_internal (a ∷ rest) ip = last_internal rest (if is_internal a.type then a.address else ip)

-- The copy that is created under a new name, on a node.
abbrev pub renamed : Pod → String → String → Pod
renamed pod name node_name = record pod {
  resource_version = "";
  uid = "";
  node_name = node_name;
  name = name;
}

abbrev pub app_of : Pod → String
app_of pod = Map.get_or "" "app" pod.labels

abbrev pub local_client : Scheduler → Option Clientset
local_client s = Map.lookup "local" s.clientsets

-- `s.DesiredApps[app].PodsByName[name] = &DesiredPod{…}`
abbrev pub with_pods : Scheduler → String → DesiredApp → Map String DesiredPod → Scheduler
with_pods s app d pods = record s {
  desired_apps = Map.insert app (record d { pods_by_name = pods }) s.desired_apps;
}

-- The last lines of schedulePod; a nil dereference where the application is not known.
unfoldable pub track : Scheduler → String → DesiredPod → Option DesiredApp → M Scheduler
track s app entry none = fault
track s app entry (some d) = return (with_pods s app d (Map.insert entry.name entry d.pods_by_name))

module _ {F : Type 0} (env : Env F) where
  -- One node of the loop of GetNodeScores; after an error nothing more is asked.
  unfoldable pub score_node : Node → Result (Map String F) → M (Result (Map String F))
  score_node node (err e) = return (err e)
  score_node node (ok scores) =
      if not (is_node_ready node) || not (is_schedulable node) then return (ok scores) else (do
        r ← get_node_score env (last_internal node.addresses "")
        elim r [
          | err e ↦ return (err scores_failed)
          | ok score ↦ return (ok (Map.insert (last_internal node.addresses "") score scores))
        ])

  unfoldable pub add_cluster : String → Scores F → Result (Map String F) → M (Result (Scores F))
  add_cluster cluster scores (err e) = return (err e)
  add_cluster cluster scores (ok nodes) = return (ok (Map.insert cluster nodes scores))

  unfoldable pub score_nodes : String → Scores F → Result (List Node) → M (Result (Scores F))
  score_nodes cluster scores (err e) = return (err scores_failed)
  score_nodes cluster scores (ok nodes) = do
    scored ← loop score_node nodes (ok [])
    add_cluster cluster scores scored

  unfoldable pub score_cluster : String × Clientset → Result (Scores F) → M (Result (Scores F))
  score_cluster (cluster, c) (err e) = return (err e)
  score_cluster (cluster, c) (ok scores) = do
    nodes ← discover_nodes env (some c) true
    score_nodes cluster scores nodes

  unfoldable pub get_node_scores : Scheduler → M (Result (Scores F))
  get_node_scores s = loop score_cluster s.clientsets (ok [])

  unfoldable pub bind_pod_to_node : Option Clientset → Pod → String → M (Unit {0})
  bind_pod_to_node clientset pod node_name = do
    bound ← bind_pod env clientset pod.namespace pod.name pod.uid node_name
    return tt

  -- The end of schedulePod for a node of another cluster, once the copy has its name.
  unfoldable pub after_create : Scheduler → Pod → Pod → String → Bool → M Scheduler
  after_create s pod copy cluster false = return s
  after_create s pod copy cluster true = do
    deleted ← delete_pod env (local_client s) pod.namespace pod.name
    track s (app_of copy)
        (record { name = copy.name; cluster = cluster; node_name = copy.node_name })
        (Map.lookup (app_of copy) s.desired_apps)

  unfoldable pub place_remote : Scheduler → Pod → String → String → M Scheduler
  place_remote s pod cluster node_name = do
    name ← with_new_hashed_name env pod.name
    created ←
        create_pod env (Map.lookup cluster s.clientsets) pod.namespace (renamed pod name node_name)
    after_create s pod (renamed pod name node_name) cluster created

  unfoldable pub place_on : Scheduler → Pod → String → Result Node → M Scheduler
  place_on s pod cluster (err e) = return s
  place_on s pod cluster (ok node) =
      if cluster == "local"
      then (do bound ← bind_pod_to_node (local_client s) pod node.name; return s)
      else place_remote s pod cluster node.name

  unfoldable pub place : Scheduler → Pod → Result (String × String) → M Scheduler
  place s pod (err e) = return s
  place s pod (ok (ip, cluster)) = do
    node ← get_node_by_internal_ip env (Map.lookup cluster s.clientsets) ip
    place_on s pod cluster node

abbrev pub scores_or_none : {F : Type 0} → Result (Scores F) → Scores F
scores_or_none (err e) = []
scores_or_none (ok scores) = scores

module _ {F : Type 0} ⦃fl : Float F⦄ (env : Env F) where
  unfoldable pub schedule_pod : Scheduler → Pod → M Scheduler
  schedule_pod s pod = do
    scores ← get_node_scores env s
    picked ← get_node_ip_for_schedule env s (scores_or_none scores) pod
    place env s pod picked
