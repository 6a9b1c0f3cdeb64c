-- ===== src/Scheduler/Enforcing.antt =====
-- proxima-scheduler/scheduler/scheduler.go: EnforceDesired, which deletes the pods of desired
-- applications that do not come up and replaces the tracked pods that are gone, and spawnReplica.
pub mod Replaced
pub mod Noted
pub mod Found
pub mod Deleting
pub mod Settled
pub mod Scanned
use proxima_scheduler.Prelude.{
  String, Bool, true, false, ◌||◌, Option, none, some, List, [], ◌∷◌, ◌==◌, string_eq,
  if◌then◌else◌,
}
use proxima_scheduler.Prelude.Int.{ℤ, pos, ltb_ℤ, sub_time}
use proxima_scheduler.Kube.{
  Clientset, Pod, Phase, running, pending, succeeded, failed, unknown, label_is,
}
use proxima_scheduler.Map.{Map}
use proxima_scheduler.Map
use proxima_scheduler.Effect.{
  Env, M, Result, ok, err, ◌>>=◌, return, loop, list_pods, create_pod, delete_pod, now,
}
use proxima_scheduler.Scheduler.{Scheduler, DesiredApp, DesiredPod}
use proxima_scheduler.Scheduler.Hashing.{with_new_hashed_name}
use proxima_scheduler.Scheduler.Placing.{local_client}

-- `foundNames[name]`
unfoldable pub contains : String → List String → Bool
contains name [] = false
contains name (n ∷ ns) = n == name || contains name ns

-- A pod pending for longer than this, in nanoseconds, is stuck.
unfoldable pub pending_limit : ℤ
pending_limit = pos 60_000_000_000

-- The template under a new name, marked as generated.
abbrev pub replica : Pod → String → Pod
replica template name = record template {
  resource_version = "";
  uid = "";
  node_name = "";
  name = name;
  annotations =
      Map.insert "proxima-scheduler/generated-from" template.name
        (Map.insert "proxima-scheduler/generated" "true" template.annotations);
}

module _ {F : Type 0} (env : Env F) where
  -- A pending pod, at a time, is deleted or found.
  unfoldable pub enforce_pending : Clientset → Pod → ℤ → List String → M (List String)
  enforce_pending c pod t found =
      if ltb_ℤ pending_limit (sub_time t pod.creation)
      then (do deleted ← delete_pod env (some c) pod.namespace pod.name; return found)
      else return (pod.name ∷ found)

  unfoldable pub enforce_phase : Clientset → Pod → Phase → List String → M (List String)
  enforce_phase c pod running found = return (pod.name ∷ found)
  enforce_phase c pod pending found = do t ← now env; enforce_pending c pod t found
  enforce_phase c pod failed found = do
    deleted ← delete_pod env (some c) pod.namespace pod.name
    return found
  enforce_phase c pod succeeded found = return found
  enforce_phase c pod unknown found = return found

  -- One pod of the listing. The running count of the code, which nothing reads, is left out.
  unfoldable pub enforce_pod : Scheduler → Clientset → Pod → List String → M (List String)
  enforce_pod s c pod found =
      if pod.deleting
      then return found
      else if pod.scheduler_name == s.scheduler_name
      then enforce_phase c pod pod.phase found
      else return found

  unfoldable pub enforce_cluster :
      Scheduler → String → String → String × Clientset → List String → M (List String)
  enforce_cluster s app namespace (cluster, c) found = do
    r ← list_pods env (some c) namespace (label_is "app" app)
    elim r [ err e ↦ return found | ok pods ↦ loop (enforce_pod s c) pods found ]

  unfoldable pub spawn_replica : Scheduler → DesiredApp → M (Unit {0})
  spawn_replica s desired = do
    name ← with_new_hashed_name env desired.template.name
    created ← create_pod env (local_client s) desired.namespace (replica desired.template name)
    return tt

  -- One tracked name: where it was not found, it is dropped and a replica takes its place.
  unfoldable pub enforce_name :
      Scheduler → List String → String × DesiredPod → DesiredApp → M DesiredApp
  enforce_name s found (name, entry) desired = if contains name found then return desired else (do
    let left = record desired { pods_by_name = Map.delete name desired.pods_by_name }
    spawned ← spawn_replica s left
    return left)

  unfoldable pub enforce_names : Scheduler → List String → DesiredApp → M DesiredApp
  enforce_names s found desired = loop (enforce_name s found) desired.pods_by_name desired

  unfoldable pub enforce_app : Scheduler → String → DesiredApp → M DesiredApp
  enforce_app s app desired = do
    found ← loop (enforce_cluster s app desired.namespace) s.clientsets []
    enforce_names s found desired

  -- The loop over the desired applications, each of which is changed in place.
  unfoldable pub enforce_apps : Scheduler → Map String DesiredApp → M (Map String DesiredApp)
  enforce_apps s [] = return []
  enforce_apps s ((app, desired) ∷ apps) = do
    desired' ← enforce_app s app desired
    apps' ← enforce_apps s apps
    return ((app, desired') ∷ apps')

  unfoldable pub enforce_desired : Scheduler → M Scheduler
  enforce_desired s = do
    apps ← enforce_apps s s.desired_apps
    return (record s { desired_apps = apps })
