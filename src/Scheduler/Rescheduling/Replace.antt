-- ===== src/Scheduler/Rescheduling/Replace.antt =====
-- reschedulePod: what it asks of the clusters and which names it tracks, on every path.
use proxima_scheduler.Prelude.{
  String, Bool, true, false, ◌≡◌, ◌⊎◌, inl, inr, refl, ap, subst, some, ◌∷◌, string_eq, Bool-cases,
  if◌then◌else◌,
}
use proxima_scheduler.Kube.{Clientset, Node, Pod}
use proxima_scheduler.Map
use proxima_scheduler.Float.{Float}
use proxima_scheduler.Effect.{
  Env, History, Result, ok, err, and_then, create_pod, delete_pod, pod_created, pod_deleted,
}
use proxima_scheduler.Effect.Posts.{Returns, Returns-and_then, writes}
use proxima_scheduler.Nodes.{get_node_by_internal_ip}
use proxima_scheduler.Scheduler.{Scheduler, DesiredPod}
use proxima_scheduler.Scheduler.Hashing.{
  strip_hash, with_new_hashed_name, IsHexadecimal, strip_hash-with_new_hashed_name,
}
use proxima_scheduler.Scheduler.Selection.{Scores, get_node_ip_for_schedule}
use proxima_scheduler.Scheduler.Selection.Feasible.{Served}
use proxima_scheduler.Scheduler.Selection.Chosen.{Chosen, get_node_ip_for_schedule-Chosen}
use proxima_scheduler.Scheduler.Placing.{renamed, app_of}
use proxima_scheduler.Scheduler.Placing.Target.{IsFound, get_node_by_internal_ip-IsFound, IsNodeFor}
use proxima_scheduler.Scheduler.Rescheduling.Tracking.{
  IsRetracked, retarget-IsRetracked, retarget-IsRetracked_back,
}
use proxima_scheduler.Scheduler.Rescheduling.{
  retarget, after_delete, after_replacement, replace_on, replace, reschedule_pod,
}

module _ (s : Scheduler) (pod : Pod) (current_cluster : String) (current : Clientset) where
  -- A copy of the pod under a new name of the same stem, for a known cluster.
  pub record IsReplacement (cluster : String) (c : Clientset) (copy : Pod) : Type 0 where
    pub known : Map.lookup cluster s.clientsets ≡ some c
    pub new_name : String
    pub on_node : String
    pub same : copy ≡ renamed pod new_name on_node
    pub stem : strip_hash new_name ≡ strip_hash pod.name

  -- The scheduler after the copy was accepted, and after the deletion was refused.
  abbrev pub moved_to : String → Pod → Scheduler
  moved_to cluster copy =
      retarget s (app_of pod) pod.name
        (record { name = copy.name; cluster = cluster; node_name = copy.node_name })

  abbrev pub moved_back : String → Pod → Scheduler
  moved_back cluster copy =
      retarget (moved_to cluster copy) (app_of pod) copy.name
        (record { name = pod.name; cluster = current_cluster; node_name = pod.node_name })

  abbrev entry_of : Pod → String → DesiredPod
  entry_of p cluster = record { name = p.name; cluster = cluster; node_name = p.node_name }

  -- What is tracked afterwards: the copy and not the pod, or the pod and not the copy.
  abbrev pub IsTracked : String → Pod → Bool → Scheduler → Type 0
  IsTracked cluster copy true s' = IsRetracked s s' (app_of pod) (entry_of copy cluster) pod.name
  IsTracked cluster copy false s' =
      IsRetracked s s' (app_of pod) (entry_of pod current_cluster) copy.name

  moved-IsTracked :
      (cluster : String) (copy : Pod) → IsTracked cluster copy true (moved_to cluster copy)
  moved-IsTracked cluster copy =
      retarget-IsRetracked s (app_of pod) pod.name (entry_of copy cluster)

  moved_back-IsTracked :
      (cluster : String) (copy : Pod) → IsTracked cluster copy false (moved_back cluster copy)
  moved_back-IsTracked cluster copy =
      retarget-IsRetracked_back s (app_of pod) (entry_of copy cluster)
        (entry_of pod current_cluster)

module _ {F : Type 0} ⦃fl : Float F⦄ (env : Env F) (s : Scheduler) (pod : Pod)
    (current_cluster : String) (current : Clientset) where
  abbrev pub IsReplaced : History → Scheduler → History → Type 0
  IsReplaced before s' k =
      ((s' ≡ s) × (writes k ≡ before))
      ⊎ (((s' ≡ s)
            × ((cluster : String) × (c : Clientset) × (copy : Pod) × IsReplacement s pod
                  current_cluster current cluster c copy
                × IsNodeFor env s pod cluster c copy.node_name
                × (writes k ≡ pod_created c pod.namespace copy false ∷ before)))
          ⊎ ((cluster : String) × (c : Clientset) × (copy : Pod) × (deleted : Bool) × IsReplacement
                s pod current_cluster current cluster c copy
              × IsNodeFor env s pod cluster c copy.node_name
              × (writes k
                  ≡ pod_deleted current pod.namespace pod.name deleted
                    ∷ pod_created c pod.namespace copy true
                    ∷ before)
              × (s' ≡ (
                  if deleted
                  then moved_to s pod current_cluster current cluster copy
                  else moved_back s pod current_cluster current cluster copy))
              × IsTracked s pod current_cluster current cluster copy deleted s'))

  module _ (hex : IsHexadecimal env) where
    after_replacement-IsReplaced :
        (cluster : String) (c : Clientset) (copy : Pod) (accepted : Bool) (before k : History)
        → IsReplacement s pod current_cluster current cluster c copy
        → IsNodeFor env s pod cluster c copy.node_name
        → writes k ≡ pod_created c pod.namespace copy accepted ∷ before
        → Returns
            (after_replacement env s pod current_cluster (some current) cluster copy accepted k)
            (IsReplaced before)
    unfolding after_replacement delete_pod after_delete writes
    after_replacement-IsReplaced cluster c copy false before k i on e =
        inr (inl (refl, (cluster, c, copy, i, on, e)))
    after_replacement-IsReplaced cluster c copy true before k i on e =
        elim (Bool-cases (env.accepts_delete k current pod.namespace pod.name)) [
          | inl gone ↦ rw gone (
              inr (
                inr (
                  cluster,
                  c,
                  copy,
                  true,
                  i,
                  on,
                  ap (◌∷◌ (pod_deleted current pod.namespace pod.name true)) e,
                  refl,
                  moved-IsTracked s pod current_cluster current cluster copy,
                )))
          | inr kept ↦ rw kept (
              inr (
                inr (
                  cluster,
                  c,
                  copy,
                  false,
                  i,
                  on,
                  ap (◌∷◌ (pod_deleted current pod.namespace pod.name false)) e,
                  refl,
                  moved_back-IsTracked s pod current_cluster current cluster copy,
                )))
        ]

    replace_on-IsReplaced :
        (cluster ip : String) (c : Clientset) (scores : Scores F) (node : Result Node) (h : History)
        → Map.lookup cluster s.clientsets ≡ some c
        → Chosen env s pod scores (ok (ip, cluster))
        → IsFound env c ip node
        → Returns
            (replace_on env s pod current_cluster (some current) cluster node h)
            (IsReplaced (writes h))
    unfolding replace_on create_pod writes
    replace_on-IsReplaced cluster ip c scores (err e) h known chosen is = inl (refl, refl)
    replace_on-IsReplaced cluster ip c scores (ok node) h known chosen is =
        Returns-and_then (with_new_hashed_name env pod.name h)
          (λ name k.
            and_then
              (create_pod env (Map.lookup cluster s.clientsets) pod.namespace
                (renamed pod name node.name) k)
              (after_replacement env s pod current_cluster (some current) cluster
                (renamed pod name node.name)))
          (λ name k. (writes k ≡ writes h) × (strip_hash name ≡ strip_hash pod.name))
          (IsReplaced (writes h)) (strip_hash-with_new_hashed_name env pod.name h hex)
          (λ name k (quiet, stem).
            let copy = renamed pod name node.name in
            let accepted = env.accepts_create k c pod.namespace copy in
            rw known (
              after_replacement-IsReplaced cluster c copy accepted (writes h)
                (pod_created c pod.namespace copy accepted ∷ k)
                (record {
                  known = known;
                  new_name = name;
                  on_node = node.name;
                  same = refl;
                  stem = stem;
                })
                (scores, ip, node, chosen, is, refl)
                (ap (◌∷◌ (pod_created c pod.namespace copy accepted)) quiet)))

    replace-IsReplaced :
        (scores : Scores F) (r : Result (String × String)) (h : History)
        → Chosen env s pod scores r
        → Returns (replace env s pod current_cluster (some current) r h) (IsReplaced (writes h))
    unfolding replace
    replace-IsReplaced scores (err e) h chosen = inl (refl, refl)
    replace-IsReplaced scores (ok (ip, cluster)) h chosen =
        let c = chosen.2.clientset in
        let known : Map.lookup cluster s.clientsets ≡ some c = chosen.2.known in
        rw known (
          Returns-and_then (get_node_by_internal_ip env (some c) ip h)
            (replace_on env s pod current_cluster (some current) cluster)
            (λ r k. (writes k ≡ writes h) × IsFound env c ip r) (IsReplaced (writes h))
            (get_node_by_internal_ip-IsFound env c ip h)
            (λ node k (quiet, is).
              subst
                (λ w.
                  Returns (replace_on env s pod current_cluster (some current) cluster node k)
                    (IsReplaced w))
                quiet (replace_on-IsReplaced cluster ip c scores node k known chosen is)))

    -- Rescheduling a pod never panics and ends in one of three ways. Nothing is asked of a cluster;
    -- or the creation of a copy is refused, and then nothing else is asked; or the copy is accepted,
    -- and then the deletion of the original is asked for in its cluster. Where that is accepted, the
    -- pod's application, if it has a name and is desired, tracks the copy, and not the pod any more;
    -- where it is refused, it tracks the pod, and not the copy. All other names are tracked as before,
    -- and in all else the scheduler stays as it is. The copy is for a node that the cluster listed,
    -- with the address that was chosen for the pod by GetNodeIPForSchedule. The clusters with scores
    -- are known, and digests are hexadecimal.
    pub reschedule_pod-IsReplaced :
        (scores : Scores F) (h : History)
        → Served s scores
        → Returns
            (reschedule_pod env s pod scores current_cluster (some current) h)
            (IsReplaced (writes h))
    unfolding reschedule_pod
    reschedule_pod-IsReplaced scores h served =
        Returns-and_then (get_node_ip_for_schedule env s scores pod h)
          (replace env s pod current_cluster (some current))
          (λ r k. (writes k ≡ writes h) × Chosen env s pod scores r) (IsReplaced (writes h))
          (get_node_ip_for_schedule-Chosen env s pod scores h served)
          (λ r k (quiet, chosen).
            subst
              (λ w. Returns (replace env s pod current_cluster (some current) r k) (IsReplaced w))
              quiet (replace-IsReplaced scores r k chosen))
