-- ===== src/Scheduler/Intake.antt =====
-- proxima-scheduler/scheduler/scheduler.go: the informer's handler of a new pod (the `AddFunc` of Run),
-- which schedules the pod or, if it asks for replicas, registers its application.
pub mod Registered
use Prim.Native.String
use proxima_scheduler.Prelude.{
  ℕ, zero, suc, ◌+◌, ◌/◌, ◌%◌, String, Bool, true, false, ◌&&◌, Option, none, some, List, [], ◌∷◌,
  ◌==◌, nat_eq, string_eq, if◌then◌else◌, ltb,
}
use proxima_scheduler.Prelude.Int.{ℤ, pos, pos_part}
use proxima_scheduler.Strconv.{parse_int, Parsed, value, syntax_error, range_error}
use proxima_scheduler.Decimal.{decimal}
use proxima_scheduler.Kube.{Clientset, Pod}
use proxima_scheduler.Map
use proxima_scheduler.Float.{Float}
use proxima_scheduler.Effect.{Env, M, ◌>>=◌, return, create_pod, delete_pod}
use proxima_scheduler.Scheduler.{Scheduler, DesiredApp}
use proxima_scheduler.Scheduler.Hashing.{join_hash, with_new_hashed_name}
use proxima_scheduler.Scheduler.Placing.{app_of, local_client, schedule_pod}
use proxima_scheduler.Scheduler.Enforcing.{replica}

abbrev pub replicas_key : String
replicas_key = "proxima-scheduler/replicas"

-- `strconv.Atoi`, whose error is only logged: the value beside an error is used.
unfoldable pub atoi : Parsed → ℤ
atoi (value n) = n
atoi syntax_error = pos 0
atoi (range_error n) = n

-- The application that is registered for a pod.
abbrev pub desired_app : Pod → ℤ → DesiredApp
desired_app pod replicas = record {
  app = app_of pod;
  namespace = pod.namespace;
  replicas = replicas;
  annotations = pod.annotations;
  labels = pod.labels;
  template = pod;
  pods_by_name = [];
}

abbrev pub registered : Scheduler → Pod → ℤ → Scheduler
registered s pod replicas = record s {
  desired_apps = Map.insert (app_of pod) (desired_app pod replicas) s.desired_apps;
}

-- `fmt.Sprintf("%s-%d", pod.Name, i)`
abbrev pub indexed_name : Pod → ℕ → String
indexed_name pod i = join_hash pod.name (decimal i)

module _ {F : Type 0} (env : Env F) where
  -- The loop over the replicas: so many are left, from this index on.
  unfoldable pub create_replicas : Scheduler → Pod → ℕ → ℕ → M (Unit {0})
  create_replicas s pod i zero = return tt
  create_replicas s pod i (suc left) = do
    name ← with_new_hashed_name env (indexed_name pod i)
    created ← create_pod env (local_client s) pod.namespace (replica pod name)
    create_replicas s pod (i + 1) left

  unfoldable pub register : Scheduler → Pod → ℤ → M Scheduler
  register s pod replicas = do
    created ← create_replicas (registered s pod replicas) pod 0 (pos_part replicas)
    deleted ← delete_pod env (local_client s) pod.namespace pod.name
    return (registered s pod replicas)

module _ {F : Type 0} ⦃fl : Float F⦄ (env : Env F) where
  unfoldable pub handle_new_pod : Scheduler → Pod → Option String → M Scheduler
  handle_new_pod s pod none = schedule_pod env s pod
  handle_new_pod s pod (some text) = register env s pod (atoi (parse_int text))

  unfoldable pub add_pod : Scheduler → Pod → M Scheduler
  add_pod s pod =
      if pod.scheduler_name == s.scheduler_name && pod.node_name == ""
      then (if Map.get_or "" "proxima-scheduler/generated" pod.annotations == "true"
          then schedule_pod env s pod
          else handle_new_pod s pod (Map.lookup replicas_key pod.annotations))
      else return s
