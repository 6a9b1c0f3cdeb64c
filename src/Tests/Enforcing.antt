-- ===== src/Tests/Enforcing.antt =====
-- The enforcement and the registration of an application in the world of two clusters.
use proxima_scheduler.Prelude.{
  zero, suc, String, ◌≡◌, refl, some, List, [], ◌∷◌, In, string_eq, inl, inr, subst,
}
use proxima_scheduler.Float.{Micro}
use proxima_scheduler.Scheduler.Enforcing.Settled.{IsRunning, IsSettled, enforce_desired_fixed}
use proxima_scheduler.Scheduler.Enforcing.Deleting.{IsDeletion}
use proxima_scheduler.Kube.{Clientset, client, Pod, running}
use proxima_scheduler.Map
use proxima_scheduler.Effect.Posts.{Returns, writes, Adds}
use proxima_scheduler.Scheduler.{Scheduler, DesiredApp, DesiredPod}
use proxima_scheduler.Scheduler.Placing.{local_client}
use proxima_scheduler.Scheduler.Enforcing.{enforce_names, enforce_desired}
use proxima_scheduler.Scheduler.Enforcing.Replaced.{
  IsEnforced, IsSpawned, missing, enforce_names-IsEnforced,
}
use proxima_scheduler.Scheduler.Enforcing.Scanned.{AllFrom, IsAllowed, enforce_desired-IsFrom}
use proxima_scheduler.Prelude.{Bool}
use proxima_scheduler.Prelude.Int.{pos}
use proxima_scheduler.Effect.{Env, Result, ok, err, api_error, History, pod_deleted}
use proxima_scheduler.Scheduler.Intake.{register, registered}
use proxima_scheduler.Scheduler.Intake.Registered.{IsCreated, register-IsCreated}
use proxima_scheduler.Tests.World.{world, world-IsHexadecimal, web, sched, plain_pod}

-- An application that tracks a pod that is gone.
abbrev tracking : DesiredApp
tracking = record web {
  pods_by_name =
      ("web-1", record { name = "web-1"; cluster = "edge"; node_name = "far" })
      ∷ ("web-2", record { name = "web-2"; cluster = "edge"; node_name = "far" })
      ∷ [];
}

abbrev with_tracking : Scheduler
with_tracking = record sched { desired_apps = ("web", tracking) ∷ [] }

has_local : local_client with_tracking ≡ some (client 0)
unfolding Map.lookup
has_local = refl

enforce_names-IsEnforced_example :
    Returns (enforce_names world with_tracking ("web-1" ∷ []) tracking []) (λ d k.
      IsEnforced world with_tracking
        (client 0)
        has_local
        world-IsHexadecimal
        ("web-1" ∷ [])
        tracking
        d
      × IsSpawned with_tracking
          (client 0)
          tracking.namespace
          tracking.template
          (missing ("web-1" ∷ []) tracking.pods_by_name)
          (writes [])
          (writes k))
enforce_names-IsEnforced_example =
    enforce_names-IsEnforced world with_tracking (client 0) has_local world-IsHexadecimal
      ("web-1" ∷ []) tracking []

enforce_desired-IsFrom_example : Returns (enforce_desired world with_tracking []) (λ s' k.
    AllFrom world with_tracking
      (client 0)
      has_local
      world-IsHexadecimal
      with_tracking.desired_apps
      s'.desired_apps
    × Adds
        (IsAllowed world with_tracking (client 0) has_local world-IsHexadecimal)
        (writes [])
        (writes k))
enforce_desired-IsFrom_example =
    enforce_desired-IsFrom world with_tracking (client 0) has_local world-IsHexadecimal []

register-IsCreated_example : Returns (register world with_tracking plain_pod (pos 2) []) (λ s' k.
    (s' ≡ registered with_tracking plain_pod (pos 2))
    × ((before : History) × (deleted : Bool) × (writes k
          ≡ pod_deleted (client 0) plain_pod.namespace plain_pod.name deleted ∷ before)
        × IsCreated (client 0) plain_pod 0 2 (writes []) before))
register-IsCreated_example =
    register-IsCreated (client 0) plain_pod world world-IsHexadecimal with_tracking (pos 2) []
      has_local

abbrev up_pod : Pod
up_pod = record plain_pod { name = "web-1"; node_name = "far"; phase = running }

abbrev lists_up : Clientset → Result (List Pod)
lists_up (client n) = elim n [ zero ↦ err api_error | suc k ↦ ok (up_pod ∷ []) ]

-- The local cluster does not answer, and the other one runs the pod.
abbrev half_world : Env Micro
half_world = record world { pods = λ h c ns sel. lists_up c }

abbrev tracks_up : DesiredApp
tracks_up = record web {
  pods_by_name = ("web-1", record { name = "web-1"; cluster = "edge"; node_name = "far" }) ∷ [];
}

abbrev tracking_up : Scheduler
tracking_up = record sched { desired_apps = ("web", tracks_up) ∷ [] }

up_pod-IsRunning : IsRunning half_world tracking_up "web" "default" "web-1"
up_pod-IsRunning = record {
  cluster = "edge";
  clientset = client 1;
  one_of = inr (inl refl);
  pod = up_pod;
  named = refl;
  up = (refl, refl, refl);
  listing = λ h. (up_pod ∷ [], refl, inl refl);
}

tracks_up-IsSettled :
    (name : String) (entry : DesiredPod)
    → In (name, entry) tracks_up.pods_by_name
    → IsRunning half_world tracking_up "web" "default" name
tracks_up-IsSettled name entry (inl e) =
    subst (λ (q : String × DesiredPod). IsRunning half_world tracking_up "web" "default" q.0) e
      up_pod-IsRunning
tracks_up-IsSettled name entry (inr never) = absurd never

tracking_up-IsSettled :
    (app : String) (d : DesiredApp)
    → In (app, d) tracking_up.desired_apps
    → IsSettled half_world tracking_up app d
tracking_up-IsSettled app d (inl e) =
    subst (λ (q : String × DesiredApp). IsSettled half_world tracking_up q.0 q.1) e
      tracks_up-IsSettled
tracking_up-IsSettled app d (inr never) = absurd never

enforce_desired_fixed_example :
    Returns
      (enforce_desired half_world tracking_up [])
      (λ s' k. (s' ≡ tracking_up) × Adds (IsDeletion half_world tracking_up) (writes []) (writes k))
enforce_desired_fixed_example =
    enforce_desired_fixed half_world tracking_up [] tracking_up-IsSettled
