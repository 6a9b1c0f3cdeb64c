-- ===== src/Scheduler/Running.antt =====
-- Run of proxima-scheduler/scheduler/scheduler.go: the namespaces that are watched, and what happens
-- to the scheduler at each event of an informer and of the ticker, one after another.
pub mod Justified
pub mod Runs
use proxima_scheduler.Prelude.{String, List, [], ◌∷◌, ◌++◌, ◌==◌, string_eq, if◌then◌else◌}
use proxima_scheduler.Kube.{Clientset, Pod}
use proxima_scheduler.Map.{Map}
use proxima_scheduler.Float.{Float}
use proxima_scheduler.Effect.{Env, M, ◌>>=◌, return, loop}
use proxima_scheduler.Scheduler.{Scheduler}
use proxima_scheduler.Scheduler.Rescheduling.{reconcile_pods}
use proxima_scheduler.Scheduler.Enforcing.{enforce_desired}
use proxima_scheduler.Scheduler.Intake.{add_pod}

-- An informer of the pods of a namespace.
pub record Informer : Type 0 where
  pub clientset : Clientset
  pub namespace : String

unfoldable pub informers_of : Clientset → List String → List Informer
informers_of c [] = []
informers_of c (ns ∷ rest) = record { clientset = c; namespace = ns } ∷ informers_of c rest

-- The loop that starts an informer for each namespace of the local cluster.
unfoldable pub informers : Map String Clientset → List String → List Informer
informers [] namespaces = []
informers ((name, c) ∷ rest) namespaces =
    (if name == "local" then informers_of c namespaces else []) ++ informers rest namespaces

pub data Event : Type 0 where
  -- an informer has seen a new pod
  pod_added : Pod → Event
  -- ten seconds have passed
  tick : Event

module _ {F : Type 0} ⦃fl : Float F⦄ (env : Env F) where
  unfoldable pub handle : Event → Scheduler → M Scheduler
  handle (pod_added pod) s = add_pod env s pod
  handle tick s = do s' ← reconcile_pods env s; enforce_desired env s'

  -- The events up to the closing of `StopCh`.
  unfoldable pub run : List Event → Scheduler → M Scheduler
  run events s = loop (handle) events s
