-- ===== src/Scheduler/Running/Runs.antt =====
-- The scheduler as a whole: over any run, each deletion that it asks for has a reason.
use proxima_scheduler.Prelude.{
  String, true, ◌≡◌, inl, inr, refl, sym, ap, ◌∙◌, subst, some, List, [], ◌==◌, string_eq,
  Bool-cases, Option-cases,
}
use proxima_scheduler.Strconv.{parse_int}
use proxima_scheduler.Kube.{Clientset, Pod}
use proxima_scheduler.Map.{Map}
use proxima_scheduler.Map
use proxima_scheduler.Float.{Float}
use proxima_scheduler.Effect.{Env, Outcome, done, panic, History, and_then, return}
use proxima_scheduler.Effect.Posts.{Returns, Returns_mono, Returns_both, Returns-and_then, writes}
use proxima_scheduler.Effect.Ends.{Ends, Ends_mono, Ends-Returns, loop-Ends}
use proxima_scheduler.Scheduler.{Scheduler, DesiredApp}
use proxima_scheduler.Scheduler.Hashing.{IsHexadecimal}
use proxima_scheduler.Scheduler.Placing.{local_client, schedule_pod}
use proxima_scheduler.Scheduler.Placing.Schedule.{IsPlaced, IsUntracked, schedule_pod-IsPlaced}
use proxima_scheduler.Scheduler.Rescheduling.{reconcile_pods}
use proxima_scheduler.Scheduler.Rescheduling.Reconciled.{reconcile_pods-Moves}
use proxima_scheduler.Scheduler.Enforcing.{enforce_apps, enforce_desired}
use proxima_scheduler.Scheduler.Enforcing.Scanned.{enforce_desired-IsFrom}
use proxima_scheduler.Scheduler.Intake.{atoi, replicas_key, register, handle_new_pod, add_pod}
use proxima_scheduler.Scheduler.Intake.Registered.{register-IsCreated}
use proxima_scheduler.Scheduler.Running.{Event, pod_added, tick, handle, run}
use proxima_scheduler.Scheduler.Running.Justified.{
  Justified, nothing, replicated, IsLater, IsRunning, Moves-Justified, allowed-Justified,
  moved-Justified, IsPlaced-IsRunning,
}

-- A computation that puts its result into the desired applications changes nothing else.
same_but_apps :
    (t : Scheduler) (o : Outcome (Map String DesiredApp))
    → Returns (and_then o (λ apps. return (record t { desired_apps = apps }))) (λ t' k. Unit {0})
    → Returns
        (and_then o (λ apps. return (record t { desired_apps = apps })))
        (λ t' k. (t'.clientsets ≡ t.clientsets) × (t'.scheduler_name ≡ t.scheduler_name))
same_but_apps t (done apps h) u = (refl, refl)
same_but_apps t (panic h) u = u

module _ {F : Type 0} (env : Env F) (s : Scheduler) where
  module _ ⦃fl : Float F⦄ (local : Clientset) (has_local : local_client s ≡ some local)
      (hex : IsHexadecimal env) where
    local_later : (t : Scheduler) → IsLater env s t → local_client t ≡ some local
    local_later t later = ap (Map.lookup "local") later.0 ∙ has_local

    schedule_pod-Justified :
        (t : Scheduler) (pod : Pod) (h : History)
        → IsRunning env s t h
        → Ends (schedule_pod env t pod h) (IsRunning env s) (λ k. Justified env s (writes k))
    schedule_pod-Justified t pod h (later, j) =
        Ends_mono (schedule_pod env t pod h) (IsPlaced env t pod local (writes h))
          (IsUntracked env t pod local (writes h))
          (schedule_pod-IsPlaced env t pod local (local_later t later) hex h)
          (λ t' k placed. IsPlaced-IsRunning env s t t' pod local (writes h) k later placed j)
          (λ k (cluster, copy, missing, i).
            moved-Justified env s t pod local cluster copy (writes h) k later i j)

    register-Justified :
        (t : Scheduler) (pod : Pod) (text : String) (h : History)
        → (pod.scheduler_name == t.scheduler_name) ≡ true
        → Map.lookup replicas_key pod.annotations ≡ some text
        → IsRunning env s t h
        → Returns (register env t pod (atoi (parse_int text)) h) (IsRunning env s)
    register-Justified t pod text h ours asked (later, j) =
        Returns_mono (register env t pod (atoi (parse_int text)) h) _ (IsRunning env s)
          (register-IsCreated local pod env hex t (atoi (parse_int text)) h (local_later t later))
          (λ t' k (e, (before, deleted, w, made)). (
            subst (IsLater env s) (sym e) later,
            subst (Justified env s) (sym w) (
                replicated (writes h) before local pod text deleted has_local
                  (subst (λ n. (pod.scheduler_name == n) ≡ true) later.1 ours) asked made j),
          ))

    add_pod-Justified :
        (t : Scheduler) (pod : Pod) (h : History)
        → IsRunning env s t h
        → Ends (add_pod env t pod h) (IsRunning env s) (λ k. Justified env s (writes k))
    unfolding add_pod handle_new_pod
    add_pod-Justified t pod h i = elim (Bool-cases (pod.scheduler_name == t.scheduler_name)) [
      | inr other ↦ rw other i
      | inl ours ↦ elim (Bool-cases (pod.node_name == "")) [
        | inr placed ↦ rw (ours, placed) i
        | inl unplaced ↦
            elim (Bool-cases
              (Map.get_or "" "proxima-scheduler/generated" pod.annotations == "true")) [
                | inl generated ↦ rw (ours, unplaced, generated) (schedule_pod-Justified t pod h i)
                | inr original ↦ elim (Option-cases (Map.lookup replicas_key pod.annotations)) [
                  | inl single ↦
                      rw (ours, unplaced, original, single) (schedule_pod-Justified t pod h i)
                  | inr (text, asked) ↦
                      rw (ours, unplaced, original, asked)
                        (Ends-Returns (register env t pod (atoi (parse_int text)) h) _ _
                          (register-Justified t pod text h ours asked i))
                ]
              ]
      ]
    ]

    enforce_desired-Justified :
        (t : Scheduler) (h : History)
        → IsRunning env s t h
        → Returns (enforce_desired env t h) (IsRunning env s)
    unfolding enforce_desired
    enforce_desired-Justified t h (later, j) =
        let has_local_t = local_later t later in
        let from = enforce_desired-IsFrom env t local has_local_t hex h in
        let o = enforce_apps env t t.desired_apps h in
        Returns_mono (enforce_desired env t h) _ (IsRunning env s)
          (Returns_both (enforce_desired env t h) _ _ from
            (same_but_apps t o (Returns_mono (enforce_desired env t h) _ _ from (λ t' k v. tt))))
          (λ t' k ((apps, (calls, e, all)), (same, named)). (
            (same ∙ later.0, named ∙ later.1),
            subst (Justified env s) (sym e)
                (allowed-Justified env s t local has_local_t hex calls (writes h) later all j),
          ))

    handle-Justified :
        (event : Event) (t : Scheduler) (h : History)
        → IsRunning env s t h
        → Ends (handle env event t h) (IsRunning env s) (λ k. Justified env s (writes k))
    unfolding handle
    handle-Justified (pod_added pod) t h i = add_pod-Justified t pod h i
    handle-Justified tick t h i =
        Ends-Returns (and_then (reconcile_pods env t h) (enforce_desired env)) _ _ (
          Returns-and_then (reconcile_pods env t h) (enforce_desired env) _ (IsRunning env s)
            (reconcile_pods-Moves env hex t h)
            (λ u k (same, named, moves). enforce_desired-Justified u k (
              (same ∙ i.0.0, named ∙ i.0.1),
              Moves-Justified env s t (writes h) (writes k) i.0 moves i.1,
            )))

    -- Over any sequence of new pods and ticks, with any answers, the scheduler keeps its clusters and
    -- its name, and each deletion of a pod that it asks for has one of three reasons, also where the
    -- sequence ends in a panic. A copy of the pod under a new name of the same stem was accepted in
    -- a known cluster as the change just before; or the pod is one of the scheduler's that a cluster
    -- listed for an application, not deleted yet, and failed or pending for more than a minute; or
    -- the pod asks for replicas, and so many have been asked for as the changes just before. The
    -- local cluster is known, and digests are hexadecimal.
    pub run-Justified :
        (events : List Event)
        → Ends
            (run env events s [])
            (λ t k.
              (t.clientsets ≡ s.clientsets)
              × (t.scheduler_name ≡ s.scheduler_name)
              × Justified env s (writes k))
            (λ k. Justified env s (writes k))
    unfolding run writes
    run-Justified events =
        Ends_mono (run env events s []) (IsRunning env s) (λ k. Justified env s (writes k))
          (loop-Ends (handle env) (IsRunning env s) (λ k. Justified env s (writes k)) events
            handle-Justified s [] ((refl, refl), nothing))
          (λ t k (later, j). (later.0, later.1, j)) (λ k j. j)
