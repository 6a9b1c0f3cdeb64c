-- ===== src/Scheduler/Rescheduling/Reconciled.antt =====
-- ReconcilePods as a whole: what it asks of the clusters.
use proxima_scheduler.Prelude.{
  String, Bool, true, false, ◌≡◌, inl, inr, refl, sym, ◌∙◌, subst, some, List, ◌∷◌, ◌==◌, string_eq,
  In, Bool-cases,
}
use proxima_scheduler.Kube.{Clientset, Pod, has_label}
use proxima_scheduler.Map.{Map}
use proxima_scheduler.Map
use proxima_scheduler.Float.{Float}
use proxima_scheduler.Effect.{
  Env, M, History, Result, Result-cases, ok, err, and_then, return, loop, list_pods, get_node,
  pods_listed, node_read,
}
use proxima_scheduler.Effect.Posts.{
  Returns, Returns_mono, Returns-and_then, loop-Returns, writes, Quiet,
}
use proxima_scheduler.Scheduler.{Scheduler}
use proxima_scheduler.Scheduler.Hashing.{IsHexadecimal}
use proxima_scheduler.Scheduler.Selection.{
  Scores, Latencies, limit_key, latency_limit, meets_limit, get_node_ip_for_schedule,
  obtain_edge_node_latencies,
}
use proxima_scheduler.Scheduler.Selection.Reads.{obtain_edge_node_latencies-Quiet}
use proxima_scheduler.Scheduler.Selection.Feasible.{Served}
use proxima_scheduler.Scheduler.Selection.Chosen.{Chosen, get_node_ip_for_schedule-Chosen}
use proxima_scheduler.Scheduler.Placing.{get_node_scores}
use proxima_scheduler.Scheduler.Placing.Scored.{AllFrom, get_node_scores-AllFrom, AllFrom-Served}
use proxima_scheduler.Scheduler.Rescheduling.{
  reschedule_pod, reconcile_limit, score_of, compare_best, reconcile_at, node_ip,
  handle_pod_reconciliation, reconcile_one, reconcile_namespace, reconcile_cluster, reconcile_pods,
}
use proxima_scheduler.Scheduler.Rescheduling.Replace.{IsReplaced, reschedule_pod-IsReplaced}
use proxima_scheduler.Scheduler.Rescheduling.Moves.{
  Moves, stay, IsReconciled, quiet-IsReconciled, IsReplaced-IsReconciled, Served_at,
}

module _ {F : Type 0} ⦃fl : Float F⦄ (env : Env F) (hex : IsHexadecimal env) (s : Scheduler) where
  module _ (scores : Scores F) (served : Served s scores) (edges : Latencies F)
      (before : History) where
    reschedule_pod-IsReconciled :
        (t : Scheduler) (pod : Pod) (from : String) (current : Clientset) (h : History)
        → In (from, current) s.clientsets
        → IsReconciled s before t h
        → Returns (reschedule_pod env t pod scores from (some current) h) (IsReconciled s before)
    reschedule_pod-IsReconciled t pod from current h m i =
        Returns_mono (reschedule_pod env t pod scores from (some current) h)
          (IsReplaced env t pod from current (writes h)) (IsReconciled s before)
          (reschedule_pod-IsReplaced env t pod from current hex scores h
            (Served_at s t scores i.0 served))
          (λ t' k r. IsReplaced-IsReconciled s env before t t' pod from current h k m i r)

    compare_best-IsReconciled :
        (t : Scheduler) (pod : Pod) (from : String) (current : Clientset) (score : F)
        (picked : Result (String × String)) (h : History)
        → In (from, current) s.clientsets
        → IsReconciled s before t h
        → Returns
            (compare_best env t pod scores from (some current) score picked h)
            (IsReconciled s before)
    unfolding compare_best
    compare_best-IsReconciled t pod from current score (err e) h m i = i
    compare_best-IsReconciled t pod from current score (ok (ip, cluster)) h m i =
        elim (Bool-cases
          (fl.lt (fl.mul score (fl.literal 12 1)) (score_of env scores cluster ip))) [
            | inl better ↦ rw better (reschedule_pod-IsReconciled t pod from current h m i)
            | inr good ↦ rw good i
          ]

    reconcile_at-IsReconciled :
        (t : Scheduler) (pod : Pod) (from : String) (current : Clientset) (ip : Result String)
        (h : History)
        → In (from, current) s.clientsets
        → IsReconciled s before t h
        → Returns
            (reconcile_at env t pod scores edges from (some current) ip h)
            (IsReconciled s before)
    unfolding reconcile_at
    reconcile_at-IsReconciled t pod from current (err e) h m i = i
    reconcile_at-IsReconciled t pod from current (ok ip) h m i =
        elim (Bool-cases (meets_limit (reconcile_limit env (latency_limit pod)) ip edges)) [
          | inl near_enough ↦ rw near_enough (
              Returns-and_then (get_node_ip_for_schedule env t scores pod h) _
                (λ r k. (writes k ≡ writes h) × Chosen env t pod scores r) (IsReconciled s before)
                (get_node_ip_for_schedule-Chosen env t pod scores h
                  (Served_at s t scores i.0 served))
                (λ r k v.
                  compare_best-IsReconciled t pod from current (score_of env scores from ip) r k m
                    (quiet-IsReconciled s before h k t i v.0)))
          | inr far ↦ rw far (reschedule_pod-IsReconciled t pod from current h m i)
        ]

    handle_pod_reconciliation-IsReconciled :
        (t : Scheduler) (pod : Pod) (from : String) (current : Clientset) (h : History)
        → In (from, current) s.clientsets
        → IsReconciled s before t h
        → Returns
            (handle_pod_reconciliation env t pod scores edges from (some current) h)
            (IsReconciled s before)
    unfolding handle_pod_reconciliation get_node writes
    handle_pod_reconciliation-IsReconciled t pod from current h m i =
        elim (Bool-cases (pod.node_name == "")) [
          | inl unbound ↦ rw unbound i
          | inr bound ↦ elim (Bool-cases pod.deleting) [
            | inl going ↦ simp (bound, going) i
            | inr kept ↦
                simp (bound, kept)
                  (reconcile_at-IsReconciled t pod from current
                    (node_ip env (env.node h current pod.node_name))
                    (node_read current pod.node_name ∷ h) m i)
          ]
        ]

    reconcile_one-IsReconciled :
        (limited : Bool) (from : String) (current : Clientset) (pod : Pod) (t : Scheduler)
        (h : History)
        → In (from, current) s.clientsets
        → IsReconciled s before t h
        → Returns
            (reconcile_one env limited scores edges from (some current) pod t h)
            (IsReconciled s before)
    unfolding reconcile_one
    reconcile_one-IsReconciled limited from current pod t h m i =
        elim (Bool-cases (pod.scheduler_name == t.scheduler_name)) [
          | inr other ↦ rw other i
          | inl ours ↦ elim (Bool-cases limited) [
            | inl first ↦ elim (Bool-cases (Map.has limit_key pod.annotations)) [
              | inl with_limit ↦ rw (ours, first, with_limit) handled
              | inr without ↦ rw (ours, first, without) i
            ]
            | inr second ↦ elim (Bool-cases (Map.has limit_key pod.annotations)) [
              | inl with_limit ↦ rw (ours, second, with_limit) i
              | inr without ↦ rw (ours, second, without) handled
            ]
          ]
        ]
      where
        handled :
            Returns
              (handle_pod_reconciliation env t pod scores edges from (some current) h)
              (IsReconciled s before)
        handled = handle_pod_reconciliation-IsReconciled t pod from current h m i

    reconcile_list-IsReconciled :
        (limited : Bool) (from : String) (current : Clientset) (pods : List Pod) (t : Scheduler)
        (h : History)
        → In (from, current) s.clientsets
        → IsReconciled s before t h
        → Returns
            (loop (reconcile_one env limited scores edges from (some current)) pods t h)
            (IsReconciled s before)
    reconcile_list-IsReconciled limited from current pods t h m i =
        loop-Returns (reconcile_one env limited scores edges from (some current))
          (IsReconciled s before) pods
          (λ pod n u k j. reconcile_one-IsReconciled limited from current pod u k m j) t h i

    reconcile_namespace-IsReconciled :
        (from : String) (current : Clientset) (namespace : String) (t : Scheduler) (h : History)
        → In (from, current) s.clientsets
        → IsReconciled s before t h
        → Returns
            (reconcile_namespace env scores edges (from, current) namespace t h)
            (IsReconciled s before)
    unfolding reconcile_namespace list_pods writes
    reconcile_namespace-IsReconciled from current namespace t h m i =
        elim (Result-cases (env.pods h current namespace (has_label "app"))) [
          | inl (e, refused) ↦ rw refused i
          | inr (pods, answered) ↦ rw answered (
              Returns-and_then
                (loop (reconcile_one env true scores edges from (some current)) pods t
                  (pods_listed current namespace (has_label "app") ∷ h))
                (loop (reconcile_one env false scores edges from (some current)) pods)
                (IsReconciled s before) (IsReconciled s before)
                (reconcile_list-IsReconciled true from current pods t
                  (pods_listed current namespace (has_label "app") ∷ h) m i)
                (λ u k j. reconcile_list-IsReconciled false from current pods u k m j))
        ]

    reconcile_clusters-IsReconciled :
        (t : Scheduler) (h : History)
        → IsReconciled s before t h
        → Returns
            (loop (reconcile_cluster env scores edges) s.clientsets t h)
            (IsReconciled s before)
    unfolding reconcile_cluster
    reconcile_clusters-IsReconciled t h i =
        loop-Returns (reconcile_cluster env scores edges) (IsReconciled s before) s.clientsets
          (λ (from, current) m u k j.
            loop-Returns (reconcile_namespace env scores edges (from, current))
              (IsReconciled s before) u.included_namespaces
              (λ namespace n v l o. reconcile_namespace-IsReconciled from current namespace v l m o)
              u k j)
          t h i

  -- ReconcilePods never panics, keeps the scheduler's clusters and name, and changes clusters only by moves: it
  -- asks for the creation of a copy of a pod, under a new name of the same stem, in a known cluster;
  -- and only if that is accepted, for the deletion of the pod in the cluster that it is in, at once.
  -- Digests are hexadecimal.
  pub reconcile_pods-Moves :
      (h : History)
      → Returns (reconcile_pods env s h) (λ t k.
        (t.clientsets ≡ s.clientsets)
        × (t.scheduler_name ≡ s.scheduler_name)
        × Moves s (writes h) (writes k))
  unfolding reconcile_pods
  reconcile_pods-Moves h =
      Returns-and_then (get_node_scores env s h) _ (λ r k. (writes k ≡ writes h) × AllFrom env s r)
        (IsReconciled s (writes h)) (get_node_scores-AllFrom env s h) after_scores
    where
      after_scores :
          (r : Result (Scores F)) (k : History)
          → (writes k ≡ writes h) × AllFrom env s r
          → Returns
              ((elim r as (λ q. M Scheduler) [
                | err e ↦ return s
                | ok scores ↦ (λ j.
                    and_then
                      (obtain_edge_node_latencies env s j)
                      (λ edges. loop (reconcile_cluster env scores edges) s.clientsets s))
              ])
                k)
              (IsReconciled s (writes h))
      after_scores (err e) k v =
          (refl, refl, subst (Moves s (writes h)) (sym v.0) (stay (writes h)))
      after_scores (ok scores) k v =
          Returns-and_then (obtain_edge_node_latencies env s k) _ (Quiet k)
            (IsReconciled s (writes h)) (obtain_edge_node_latencies-Quiet env s k)
            (λ edges j quiet.
              reconcile_clusters-IsReconciled scores (AllFrom-Served env s (ok scores) v.1) edges
                (writes h) s j
                (refl, refl, subst (Moves s (writes h)) (sym (quiet ∙ v.0)) (stay (writes h))))
