-- ===== src/Scheduler/Enforcing/Deleting.antt =====
-- The deletions of EnforceDesired: of pods that have failed or are stuck.
use proxima_scheduler.Prelude.{
  String, true, false, ◌≡◌, ◌⊎◌, inl, inr, refl, ap, some, List, [], ◌∷◌, ◌==◌, string_eq, In,
  Bool-cases,
}
use proxima_scheduler.Prelude.Int.{ltb_ℤ, sub_time}
use proxima_scheduler.Kube.{
  Clientset, Pod, Phase, running, pending, succeeded, failed, unknown, label_is,
}
use proxima_scheduler.Effect.{
  loop, Env, History, Call, Result-cases, ok, done, and_then, list_pods, delete_pod, now,
  pod_deleted, pods_listed, clock_read,
}
use proxima_scheduler.Effect.Posts.{Returns, Returns_mono, loop-Returns, writes, Adds, Adds-again}
use proxima_scheduler.Scheduler.{Scheduler}
use proxima_scheduler.Scheduler.Enforcing.{
  pending_limit, enforce_pending, enforce_phase, enforce_pod, enforce_cluster,
}

module _ {F : Type 0} (env : Env F) (s : Scheduler) where
  -- A pod of the scheduler's that has failed; or that is pending, and was made more than a minute
  -- before the time that the clock gave in the last call of the history.
  abbrev pub IsStuck : History → Pod → Type 0
  IsStuck at pod =
      (pod.deleting ≡ false)
      × ((pod.scheduler_name == s.scheduler_name) ≡ true)
      × ((pod.phase ≡ failed)
          ⊎ ((pod.phase ≡ pending)
              × ((before : History) × (at ≡ clock_read ∷ before)
                  × (ltb_ℤ pending_limit (sub_time (env.now before) pod.creation) ≡ true))))

  -- The deletion of such a pod in a cluster that listed it for an application.
  pub record IsDeletion (call : Call) : Type 0 where
    pub cluster : String
    pub clientset : Clientset
    pub one_of : In (cluster, clientset) s.clientsets
    pub app : String
    pub namespace : String
    pub asked : History
    pub listed : List Pod
    pub answered : env.pods asked clientset namespace (label_is "app" app) ≡ ok listed
    pub pod : Pod
    pub pod_listed : In pod listed
    -- the calls before the deletion, which is accepted or not after them
    pub at : History
    pub stuck : IsStuck at pod
    pub call_is :
        call
        ≡ pod_deleted clientset pod.namespace pod.name
            (env.accepts_delete at clientset pod.namespace pod.name)

  module _ (cluster : String) (c : Clientset) (m : In (cluster, c) s.clientsets)
      (app namespace : String) (asked : History) (listed : List Pod)
      (answered : env.pods asked c namespace (label_is "app" app) ≡ ok listed) where
    delete_pod-Adds :
        (pod : Pod) (h k : History) (found : List String)
        → In pod listed
        → IsStuck k pod
        → writes k ≡ writes h
        → Returns
            (and_then (delete_pod env (some c) pod.namespace pod.name k) (λ d. done found))
            (λ f j. Adds IsDeletion (writes h) (writes j))
    unfolding delete_pod writes
    delete_pod-Adds pod h k found n stuck quiet =
        let call =
          pod_deleted c pod.namespace pod.name (env.accepts_delete k c pod.namespace pod.name) in
        (
          call ∷ [],
          ap (◌∷◌ call) quiet,
          (
            record {
              cluster = cluster;
              clientset = c;
              one_of = m;
              app = app;
              namespace = namespace;
              asked = asked;
              listed = listed;
              answered = answered;
              pod = pod;
              pod_listed = n;
              at = k;
              stuck = stuck;
              call_is = refl;
            },
            tt,
          ),
        )

    enforce_phase-Adds :
        (pod : Pod) (phase : Phase) (found : List String) (h : History)
        → In pod listed
        → pod.deleting ≡ false
        → (pod.scheduler_name == s.scheduler_name) ≡ true
        → pod.phase ≡ phase
        → Returns
            (enforce_phase env c pod phase found h)
            (λ f k. Adds IsDeletion (writes h) (writes k))
    unfolding enforce_phase enforce_pending now writes
    enforce_phase-Adds pod running found h n kept ours is = ([], refl, tt)
    enforce_phase-Adds pod succeeded found h n kept ours is = ([], refl, tt)
    enforce_phase-Adds pod unknown found h n kept ours is = ([], refl, tt)
    enforce_phase-Adds pod failed found h n kept ours is =
        delete_pod-Adds pod h h found n (kept, ours, inl is) refl
    enforce_phase-Adds pod pending found h n kept ours is =
        elim (Bool-cases (ltb_ℤ pending_limit (sub_time (env.now h) pod.creation))) [
          | inl late ↦ rw late (
              delete_pod-Adds pod h (clock_read ∷ h) found n (kept, ours, inr (is, (h, refl, late)))
                refl)
          | inr early ↦ rw early ([], refl, tt)
        ]

    enforce_pod-Adds :
        (pod : Pod) (found : List String) (h : History)
        → In pod listed
        → Returns (enforce_pod env s c pod found h) (λ f k. Adds IsDeletion (writes h) (writes k))
    unfolding enforce_pod enforce_phase enforce_pending
    enforce_pod-Adds pod found h n = elim (Bool-cases pod.deleting) [
      | inl going ↦ rw going ([], refl, tt)
      | inr kept ↦ elim (Bool-cases (pod.scheduler_name == s.scheduler_name)) [
        | inl ours ↦ rw (kept, ours) (enforce_phase-Adds pod pod.phase found h n kept ours refl)
        | inr other ↦ rw (kept, other) ([], refl, tt)
      ]
    ]

  enforce_cluster-Adds :
      (app namespace cluster : String) (c : Clientset) (found : List String) (h : History)
      → In (cluster, c) s.clientsets
      → Returns
          (enforce_cluster env s app namespace (cluster, c) found h)
          (λ f k. Adds IsDeletion (writes h) (writes k))
  unfolding enforce_cluster list_pods writes
  enforce_cluster-Adds app namespace cluster c found h m =
      elim (Result-cases (env.pods h c namespace (label_is "app" app))) [
        | inl (e, refused) ↦ rw refused ([], refl, tt)
        | inr (listed, answered) ↦ rw answered (
            loop-Returns (enforce_pod env s c) (λ f k. Adds IsDeletion (writes h) (writes k)) listed
              (λ pod n f k adds.
                Returns_mono (enforce_pod env s c pod f k) _ _
                  (enforce_pod-Adds cluster c m app namespace h listed answered pod f k n)
                  (λ f' j more. Adds-again IsDeletion (writes h) (writes k) (writes j) adds more))
              found (pods_listed c namespace (label_is "app" app) ∷ h) ([], refl, tt))
      ]

  -- The scan of all clusters for an application.
  pub scan-Adds :
      (app namespace : String) (h : History)
      → Returns
          (loop (enforce_cluster env s app namespace) s.clientsets [] h)
          (λ f k. Adds IsDeletion (writes h) (writes k))
  scan-Adds app namespace h =
      loop-Returns (enforce_cluster env s app namespace)
        (λ f k. Adds IsDeletion (writes h) (writes k)) s.clientsets
        (λ (cluster, c) n f k adds.
          Returns_mono (enforce_cluster env s app namespace (cluster, c) f k) _ _
            (enforce_cluster-Adds app namespace cluster c f k n)
            (λ f' j more. Adds-again IsDeletion (writes h) (writes k) (writes j) adds more))
        [] h ([], refl, tt)
