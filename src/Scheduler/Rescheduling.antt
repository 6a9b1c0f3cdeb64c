-- ===== src/Scheduler/Rescheduling.antt =====
-- proxima-scheduler/scheduler/scheduler.go: reschedulePod, and handlePodReconciliation and
-- ReconcilePods, which call it.
pub mod Tracking
pub mod Replace
pub mod Moves
pub mod Reconciled
use proxima_scheduler.Prelude.{
  String, Bool, true, false, ◌&&◌, Option, none, some, List, [], ◌∷◌, ◌==◌, string_eq,
  if◌then◌else◌,
}
use proxima_scheduler.Prelude.Int.{ℤ}
use proxima_scheduler.Kube.{Clientset, Node, Pod, has_label}
use proxima_scheduler.Map.{Map}
use proxima_scheduler.Map
use proxima_scheduler.Float.{Float}
use proxima_scheduler.Effect.{
  Env, M, Result, ok, err, ◌>>=◌, return, loop, list_pods, get_node, create_pod, delete_pod,
}
use proxima_scheduler.Nodes.{get_node_internal_ip, get_node_by_internal_ip}
use proxima_scheduler.Scheduler.{Scheduler, DesiredApp, DesiredPod}
use proxima_scheduler.Scheduler.Hashing.{with_new_hashed_name}
use proxima_scheduler.Scheduler.Selection.{
  Scores, Latencies, Limit, unlimited, at_most, limit_key, latency_limit, meets_limit,
  get_node_ip_for_schedule, obtain_edge_node_latencies,
}
use proxima_scheduler.Scheduler.Placing.{renamed, app_of, with_pods, get_node_scores}

-- Where the application is desired, one tracked name gives way to another entry.
unfoldable pub retarget : Scheduler → String → String → DesiredPod → Scheduler
retarget s app old entry = if app == "" then s else elim (Map.lookup app s.desired_apps) [
  | none ↦ s
  | some d ↦ with_pods s app d (Map.insert entry.name entry (Map.delete old d.pods_by_name))
]

module _ {F : Type 0} ⦃fl : Float F⦄ (env : Env F) where
  -- After the deletion of the original was asked for: a refusal undoes the change of names.
  unfoldable pub after_delete : Scheduler → Pod → String → Pod → Bool → M Scheduler
  after_delete s pod current_cluster new_pod true = return s
  after_delete s pod current_cluster new_pod false = return (
      retarget s (app_of pod) new_pod.name
        (record { name = pod.name; cluster = current_cluster; node_name = pod.node_name }))

  unfoldable pub after_replacement :
      Scheduler → Pod → String → Option Clientset → String → Pod → Bool → M Scheduler
  after_replacement s pod current_cluster clientset best_cluster new_pod false = return s
  after_replacement s pod current_cluster clientset best_cluster new_pod true = do
    let tracked =
        retarget s (app_of pod) pod.name
          (record { name = new_pod.name; cluster = best_cluster; node_name = new_pod.node_name })
    deleted ← delete_pod env clientset pod.namespace pod.name
    after_delete tracked pod current_cluster new_pod deleted

  unfoldable pub replace_on :
      Scheduler → Pod → String → Option Clientset → String → Result Node → M Scheduler
  replace_on s pod current_cluster clientset best_cluster (err e) = return s
  replace_on s pod current_cluster clientset best_cluster (ok node) = do
    name ← with_new_hashed_name env pod.name
    created ←
        create_pod env (Map.lookup best_cluster s.clientsets) pod.namespace
          (renamed pod name node.name)
    after_replacement s pod current_cluster clientset best_cluster (renamed pod name node.name)
        created

  unfoldable pub replace :
      Scheduler → Pod → String → Option Clientset → Result (String × String) → M Scheduler
  replace s pod current_cluster clientset (err e) = return s
  replace s pod current_cluster clientset (ok (ip, best_cluster)) = do
    node ← get_node_by_internal_ip env (Map.lookup best_cluster s.clientsets) ip
    replace_on s pod current_cluster clientset best_cluster node

  unfoldable pub reschedule_pod :
      Scheduler → Pod → Scores F → String → Option Clientset → M Scheduler
  reschedule_pod s pod scores current_cluster clientset = do
    picked ← get_node_ip_for_schedule env s scores pod
    replace s pod current_cluster clientset picked

  -- `nodeScores[cluster][ip]`, 0 where an entry is missing
  unfoldable pub score_of : Scores F → String → String → F
  score_of scores cluster ip = Map.get_or (fl.literal 0 0) ip (Map.get_or [] cluster scores)

  -- The limit that handlePodReconciliation reads: a malformed one counts as none.
  unfoldable pub reconcile_limit : Result Limit → Limit
  reconcile_limit (err e) = unlimited
  reconcile_limit (ok limit) = limit

  -- A pod on a node within its limit moves if another node's score is higher by more than a fifth.
  unfoldable pub compare_best :
      Scheduler
      → Pod
      → Scores F
      → String
      → Option Clientset
      → F
      → Result (String × String)
      → M Scheduler
  compare_best s pod scores cluster clientset current (err e) = return s
  compare_best s pod scores cluster clientset current (ok (best_ip, best_cluster)) =
      if fl.lt (fl.mul current (fl.literal 12 1)) (score_of scores best_cluster best_ip)
      then reschedule_pod s pod scores cluster clientset
      else return s

  unfoldable pub reconcile_at :
      Scheduler
      → Pod
      → Scores F
      → Latencies F
      → String
      → Option Clientset
      → Result String
      → M Scheduler
  reconcile_at s pod scores edges cluster clientset (err e) = return s
  reconcile_at s pod scores edges cluster clientset (ok ip) =
      if meets_limit (reconcile_limit (latency_limit pod)) ip edges
      then (do
        picked ← get_node_ip_for_schedule env s scores pod
        compare_best s pod scores cluster clientset (score_of scores cluster ip) picked)
      else reschedule_pod s pod scores cluster clientset

  unfoldable pub node_ip : Result Node → Result String
  node_ip (err e) = err e
  node_ip (ok node) = get_node_internal_ip node

  unfoldable pub handle_pod_reconciliation :
      Scheduler → Pod → Scores F → Latencies F → String → Option Clientset → M Scheduler
  handle_pod_reconciliation s pod scores edges cluster clientset =
      if pod.node_name == "" then return s else if pod.deleting then return s else (do
        node ← get_node env clientset pod.node_name
        reconcile_at s pod scores edges cluster clientset (node_ip node))

  -- One of the two loops over the pods of a namespace: those with a limit, or those without.
  unfoldable pub reconcile_one :
      Bool → Scores F → Latencies F → String → Option Clientset → Pod → Scheduler → M Scheduler
  reconcile_one limited scores edges cluster clientset pod s =
      if pod.scheduler_name == s.scheduler_name
      then (if limited
          then (if Map.has limit_key pod.annotations
              then handle_pod_reconciliation s pod scores edges cluster clientset
              else return s)
          else (if Map.has limit_key pod.annotations
              then return s
              else handle_pod_reconciliation s pod scores edges cluster clientset))
      else return s

  unfoldable pub reconcile_namespace :
      Scores F → Latencies F → String × Clientset → String → Scheduler → M Scheduler
  reconcile_namespace scores edges (cluster, c) namespace s = do
    r ← list_pods env (some c) namespace (has_label "app")
    elim r [
      | err e ↦ return s
      | ok pods ↦ do
        s' ← loop (reconcile_one true scores edges cluster (some c)) pods s
        loop (reconcile_one false scores edges cluster (some c)) pods s'
    ]

  unfoldable pub reconcile_cluster :
      Scores F → Latencies F → String × Clientset → Scheduler → M Scheduler
  reconcile_cluster scores edges entry s =
      loop (reconcile_namespace scores edges entry) s.included_namespaces s

  unfoldable pub reconcile_pods : Scheduler → M Scheduler
  reconcile_pods s = do
    r ← get_node_scores env s
    elim r [
      | err e ↦ return s
      | ok scores ↦ do
        edges ← obtain_edge_node_latencies env s
        loop (reconcile_cluster scores edges) s.clientsets s
    ]
