-- ===== src/Scheduler/Placing/Schedule.antt =====
-- schedulePod: what it asks of the clusters, on every path, and what it then tracks.
use mathlib.Core.Option.{some-injective}
use proxima_scheduler.Prelude.{
  String, Bool, true, false, ◌≡◌, ◌≢◌, ◌⊎◌, inl, inr, refl, sym, ap, ◌∙◌, subst, some, none, ◌∷◌,
  ◌==◌, string_eq, beq_ne, Bool-cases, Option-cases,
}
use proxima_scheduler.Kube.{Clientset, Node, Pod}
use proxima_scheduler.Map.{Map}
use proxima_scheduler.Map
use proxima_scheduler.Float.{Float}
use proxima_scheduler.Effect.{
  Env, History, Result, ok, err, Outcome, and_then, create_pod, delete_pod, bind_pod, pod_created,
  pod_deleted, pod_bound,
}
use proxima_scheduler.Effect.Posts.{writes}
use proxima_scheduler.Nodes.{get_node_by_internal_ip}
use proxima_scheduler.Effect.Ends.{Ends, Ends-and_then}
use proxima_scheduler.Scheduler.{Scheduler, DesiredApp}
use proxima_scheduler.Scheduler.Hashing.{
  strip_hash, with_new_hashed_name, IsHexadecimal, strip_hash-with_new_hashed_name,
}
use proxima_scheduler.Scheduler.Selection.{Scores, get_node_ip_for_schedule}
use proxima_scheduler.Scheduler.Selection.Chosen.{Chosen, get_node_ip_for_schedule-Chosen}
use proxima_scheduler.Scheduler.Placing.{
  renamed, app_of, local_client, with_pods, track, get_node_scores, bind_pod_to_node, after_create,
  place_remote, place_on, place, schedule_pod, scores_or_none,
}
use proxima_scheduler.Scheduler.Placing.Target.{IsFound, get_node_by_internal_ip-IsFound, IsNodeFor}
use proxima_scheduler.Scheduler.Placing.Scored.{AllFrom, get_node_scores-AllFrom, AllFrom-Served}

module _ (s : Scheduler) (pod : Pod) where
  -- The copy for another cluster: the pod with no identity of its own, on a node, under a new name
  -- of the same stem.
  pub record IsCopy (cluster : String) (c : Clientset) (copy : Pod) : Type 0 where
    pub remote : cluster ≢ "local"
    pub known : Map.lookup cluster s.clientsets ≡ some c
    pub new_name : String
    pub on_node : String
    pub same : copy ≡ renamed pod new_name on_node
    pub stem : strip_hash new_name ≡ strip_hash pod.name

module _ {F : Type 0} ⦃fl : Float F⦄ (env : Env F) (s : Scheduler) (pod : Pod)
    (local : Clientset) where
  -- The copy was accepted, and only then was the deletion of the original asked for.
  abbrev pub IsMoved : String → Pod → History → History → Type 0
  IsMoved cluster copy before k =
      (c : Clientset) × (deleted : Bool) × IsCopy s pod cluster c copy
      × IsNodeFor env s pod cluster c copy.node_name
      × (writes k
          ≡ pod_deleted local pod.namespace pod.name deleted
            ∷ pod_created c pod.namespace copy true
            ∷ before)

  -- The four ways to return.
  abbrev pub IsPlaced : History → Scheduler → History → Type 0
  IsPlaced before s' k =
      ((s' ≡ s) × (writes k ≡ before))
      ⊎ (((s' ≡ s)
            × ((node_name : String) × (bound : Bool) × IsNodeFor env s pod "local" local node_name
                × (writes k
                    ≡ pod_bound local pod.namespace pod.name pod.uid node_name bound ∷ before)))
          ⊎ (((s' ≡ s)
                × ((cluster : String) × (c : Clientset) × (copy : Pod) × IsCopy s pod cluster c copy
                    × IsNodeFor env s pod cluster c copy.node_name
                    × (writes k ≡ pod_created c pod.namespace copy false ∷ before)))
              ⊎ ((cluster : String) × (copy : Pod) × (d : DesiredApp) × (Map.lookup (app_of pod)
                      s.desired_apps
                    ≡ some d)
                  × IsMoved cluster copy before k
                  × (s'
                      ≡ with_pods s (app_of pod) d (
                          Map.insert copy.name
                            (record {
                              name = copy.name;
                              cluster = cluster;
                              node_name = copy.node_name;
                            })
                            d.pods_by_name)))))

  -- The panic: the application of the moved pod is not one of the desired ones.
  abbrev pub IsUntracked : History → History → Type 0
  IsUntracked before k =
      (cluster : String) × (copy : Pod) × (Map.lookup (app_of pod) s.desired_apps ≡ none)
      × IsMoved cluster copy before k

  module _ (has_local : local_client s ≡ some local) (hex : IsHexadecimal env) where
    after_create-IsPlaced :
        (copy : Pod) (cluster : String) (c : Clientset) (accepted : Bool) (h k : History)
        → IsCopy s pod cluster c copy
        → IsNodeFor env s pod cluster c copy.node_name
        → writes k ≡ pod_created c pod.namespace copy accepted ∷ writes h
        → Ends
            (after_create env s pod copy cluster accepted k)
            (IsPlaced (writes h))
            (IsUntracked (writes h))
    unfolding after_create writes delete_pod track
    after_create-IsPlaced copy cluster c false h k i on e =
        inr (inr (inl (refl, (cluster, c, copy, i, on, e))))
    after_create-IsPlaced copy cluster c true h k i on e =
        let same_app : app_of copy ≡ app_of pod = ap app_of i.same in
        let deleted = env.accepts_delete k local pod.namespace pod.name in
        let call = pod_deleted local pod.namespace pod.name deleted in
        let moved : IsMoved cluster copy (writes h) (call ∷ k) =
          (c, deleted, i, on, ap (◌∷◌ call) e) in
        elim (Option-cases (Map.lookup (app_of pod) s.desired_apps)) [
          | inl missing ↦ rw (has_local, same_app, missing) (cluster, copy, missing, moved)
          | inr (d, found) ↦
              rw (has_local, same_app, found)
                (inr (inr (inr (cluster, copy, d, found, moved, refl))))
        ]

    place_remote-IsPlaced :
        (cluster node_name : String) (c : Clientset) (h : History)
        → cluster ≢ "local"
        → Map.lookup cluster s.clientsets ≡ some c
        → IsNodeFor env s pod cluster c node_name
        → Ends
            (place_remote env s pod cluster node_name h)
            (IsPlaced (writes h))
            (IsUntracked (writes h))
    unfolding place_remote create_pod writes
    place_remote-IsPlaced cluster node_name c h remote known on =
        Ends-and_then (with_new_hashed_name env pod.name h)
          (λ name k.
            and_then
              (create_pod env (Map.lookup cluster s.clientsets) pod.namespace
                (renamed pod name node_name) k)
              (after_create env s pod (renamed pod name node_name) cluster))
          (λ name k. (writes k ≡ writes h) × (strip_hash name ≡ strip_hash pod.name))
          (IsPlaced (writes h)) (IsUntracked (writes h))
          (strip_hash-with_new_hashed_name env pod.name h hex)
          (λ name k (quiet, stem).
            let copy = renamed pod name node_name in
            let accepted = env.accepts_create k c pod.namespace copy in
            rw known (
              after_create-IsPlaced copy cluster c accepted h
                (pod_created c pod.namespace copy accepted ∷ k)
                (record {
                  remote = remote;
                  known = known;
                  new_name = name;
                  on_node = node_name;
                  same = refl;
                  stem = stem;
                })
                on (ap (◌∷◌ (pod_created c pod.namespace copy accepted)) quiet)))

    place_on-IsPlaced :
        (cluster ip : String) (c : Clientset) (scores : Scores F) (node : Result Node) (h : History)
        → Map.lookup cluster s.clientsets ≡ some c
        → Chosen env s pod scores (ok (ip, cluster))
        → IsFound env c ip node
        → Ends (place_on env s pod cluster node h) (IsPlaced (writes h)) (IsUntracked (writes h))
    unfolding place_on bind_pod_to_node bind_pod writes
    place_on-IsPlaced cluster ip c scores (err e) h known chosen is = inl (refl, refl)
    place_on-IsPlaced cluster ip c scores (ok node) h known chosen is =
        let on : IsNodeFor env s pod cluster c node.name = (scores, ip, node, chosen, is, refl) in
        elim (Bool-cases (cluster == "local")) [
          | inl here ↦
              let e : cluster ≡ "local" = (string_eq.equals_iff cluster "local").0 here in
              let known' : local_client s ≡ some c =
                subst (λ n. Map.lookup n s.clientsets ≡ some c) e known in
              let same : c ≡ local = some-injective c local (sym known' ∙ has_local) in
              rw (here, has_local)
                (inr (
                  inl (
                    refl,
                    (
                      node.name,
                      env.accepts_bind h local pod.namespace pod.name pod.uid node.name,
                      subst (λ d. IsNodeFor env s pod "local" d node.name) same
                          (subst (λ n. IsNodeFor env s pod n c node.name) e on),
                      refl,
                    ),
                  )))
          | inr there ↦ rw there (
              place_remote-IsPlaced cluster node.name c h ((beq_ne cluster "local").0 there) known
                on)
        ]

    Ends_quiet :
        (o : Outcome Scheduler) (before before' : History)
        → before ≡ before'
        → Ends o (IsPlaced before) (IsUntracked before)
        → Ends o (IsPlaced before') (IsUntracked before')
    Ends_quiet o before before' e = subst (λ w. Ends o (IsPlaced w) (IsUntracked w)) e

    place-Chosen :
        (scores : Scores F) (r : Result (String × String)) (h : History)
        → Chosen env s pod scores r
        → Ends (place env s pod r h) (IsPlaced (writes h)) (IsUntracked (writes h))
    unfolding place
    place-Chosen scores (err e) h chosen = inl (refl, refl)
    place-Chosen scores (ok (ip, cluster)) h chosen =
        let c = chosen.2.clientset in
        let known : Map.lookup cluster s.clientsets ≡ some c = chosen.2.known in
        rw known (
          Ends-and_then (get_node_by_internal_ip env (some c) ip h) (place_on env s pod cluster)
            (λ r k. (writes k ≡ writes h) × IsFound env c ip r) (IsPlaced (writes h))
            (IsUntracked (writes h)) (get_node_by_internal_ip-IsFound env c ip h)
            (λ node k (quiet, is).
              Ends_quiet (place_on env s pod cluster node k) (writes k) (writes h) quiet
                (place_on-IsPlaced cluster ip c scores node k known chosen is)))

    -- Scheduling a pod ends in one of five ways. Nothing is asked of a cluster; or the pod is bound
    -- in the local cluster; or the creation of a copy in another cluster is refused, and then nothing
    -- else is asked; or the copy is accepted, and only then is the deletion of the original asked
    -- for. In that case the copy is tracked under the pod's application if that is a desired one, and
    -- the program panics if it is not. A copy is the pod itself under a new name with the same stem,
    -- in another cluster. The node that the pod is bound to, or that the copy is for, is one that the
    -- cluster listed, with the address that was chosen for the pod by GetNodeIPForSchedule. The local
    -- cluster is known, and digests are hexadecimal.
    pub schedule_pod-IsPlaced :
        (h : History)
        → Ends (schedule_pod env s pod h) (IsPlaced (writes h)) (IsUntracked (writes h))
    unfolding schedule_pod
    schedule_pod-IsPlaced h =
        Ends-and_then (get_node_scores env s h)
          (λ scores k.
            and_then (get_node_ip_for_schedule env s (scores_or_none scores) pod k)
              (place env s pod))
          (λ r k. (writes k ≡ writes h) × AllFrom env s r) (IsPlaced (writes h))
          (IsUntracked (writes h)) (get_node_scores-AllFrom env s h)
          (λ scores k (quiet, all).
            Ends-and_then (get_node_ip_for_schedule env s (scores_or_none scores) pod k)
              (place env s pod)
              (λ r j. (writes j ≡ writes k) × Chosen env s pod (scores_or_none scores) r)
              (IsPlaced (writes h)) (IsUntracked (writes h))
              (get_node_ip_for_schedule-Chosen env s pod (scores_or_none scores) k
                (AllFrom-Served env s scores all))
              (λ r j (still, chosen).
                Ends_quiet (place env s pod r j) (writes j) (writes h) (still ∙ quiet)
                  (place-Chosen (scores_or_none scores) r j chosen)))
