-- ===== src/Scheduler/Rescheduling/Moves.antt =====
-- What reconciliation asks of the clusters, and what one move of it keeps.
use proxima_scheduler.Prelude.{
  String, Bool, true, false, ◌≡◌, inl, inr, refl, sym, ap, ◌∙◌, subst, ◌∷◌, ◌==◌, string_eq,
  if◌then◌else◌, In, Bool-cases, Option-cases,
}
use proxima_scheduler.Kube.{Clientset, Pod}
use proxima_scheduler.Map.{Map}
use proxima_scheduler.Map
use proxima_scheduler.Float.{Float}
use proxima_scheduler.Effect.{Env, History, pod_created, pod_deleted}
use proxima_scheduler.Effect.Posts.{writes}
use proxima_scheduler.Scheduler.{Scheduler, DesiredPod}
use proxima_scheduler.Scheduler.Selection.{Scores}
use proxima_scheduler.Scheduler.Selection.Feasible.{Served}
use proxima_scheduler.Scheduler.Rescheduling.{retarget}
use proxima_scheduler.Scheduler.Rescheduling.Replace.{
  IsReplacement, IsReplaced, moved_to, moved_back,
}

retarget_keeps :
    (s : Scheduler) (app old : String) (entry : DesiredPod)
    → let t = retarget s app old entry in
      (t.clientsets ≡ s.clientsets) × (t.scheduler_name ≡ s.scheduler_name)
unfolding retarget
retarget_keeps s app old entry = elim (Bool-cases (app == "")) [
  | inl e ↦ rw (e, retarget) (refl, refl)
  | inr e ↦ elim (Option-cases (Map.lookup app s.desired_apps)) [
    | inl m ↦ rw (e, m, retarget) (refl, refl)
    | inr (d, f) ↦ rw (e, f, retarget) (refl, refl)
  ]
]

-- The calls that reconciliation makes: a copy is refused, or a copy is accepted and its original is
-- then deleted in the cluster that it is in.
pub data Moves (s : Scheduler) : History → History → Type 0 where
  stay : (before : History) → Moves s before before
  refuse :
      (before after : History) (pod copy : Pod) (cluster from : String) (c current : Clientset)
      → Moves s before after
      → IsReplacement s pod from current cluster c copy
      → Moves s before (pod_created c pod.namespace copy false ∷ after)
  move :
      (before after : History) (pod copy : Pod) (cluster from : String) (c current : Clientset)
      (deleted : Bool)
      → Moves s before after
      → IsReplacement s pod from current cluster c copy
      → In (from, current) s.clientsets
      → Moves s before (
          pod_deleted current pod.namespace pod.name deleted
          ∷ pod_created c pod.namespace copy true
          ∷ after)

module _ (s : Scheduler) where
  -- The clusters and the name stay the same, and the calls are moves.
  abbrev pub IsReconciled : History → Scheduler → History → Type 0
  IsReconciled before t k =
      (t.clientsets ≡ s.clientsets)
      × (t.scheduler_name ≡ s.scheduler_name)
      × Moves s before (writes k)

  pub quiet-IsReconciled :
      (before h k : History) (t : Scheduler)
      → IsReconciled before t h
      → writes k ≡ writes h
      → IsReconciled before t k
  quiet-IsReconciled before h k t (same, named, moves) quiet =
      (same, named, subst (Moves s before) (sym quiet) moves)

  IsReplacement-at :
      (t : Scheduler) (pod copy : Pod) (cluster from : String) (c current : Clientset)
      → t.clientsets ≡ s.clientsets
      → IsReplacement t pod from current cluster c copy
      → IsReplacement s pod from current cluster c copy
  IsReplacement-at t pod copy cluster from c current same r = record {
    known = ap (Map.lookup cluster) (sym same) ∙ r.known;
    new_name = r.new_name;
    on_node = r.on_node;
    same = r.same;
    stem = r.stem;
  }

  retargets :
      (t : Scheduler) (pod copy : Pod) (cluster from : String) (current : Clientset)
      (deleted : Bool)
      → let u =
          if deleted
          then moved_to t pod from current cluster copy
          else moved_back t pod from current cluster copy in
        (u.clientsets ≡ t.clientsets) × (u.scheduler_name ≡ t.scheduler_name)
  retargets t pod copy cluster from current true = retarget_keeps t _ _ _
  retargets t pod copy cluster from current false =
      let (same, named) = retarget_keeps (moved_to t pod from current cluster copy) _ _ _ in
      let (same', named') = retarget_keeps t _ _ _ in (same ∙ same', named ∙ named')

  pub IsReplaced-IsReconciled :
      {F : Type 0} ⦃fl : Float F⦄ (env : Env F) (before : History) (t t' : Scheduler) (pod : Pod)
      (from : String) (current : Clientset) (h k : History)
      → In (from, current) s.clientsets
      → IsReconciled before t h
      → IsReplaced env t pod from current (writes h) t' k
      → IsReconciled before t' k
  IsReplaced-IsReconciled env before t t' pod from current h k m (same, named, moves) r = elim r [
    | inl (e, quiet) ↦ rw e (quiet-IsReconciled before h k t (same, named, moves) quiet)
    | inr (inl (e, (cluster, c, copy, i, on, w))) ↦ (
      ap (λ q. q.clientsets) e ∙ same,
      ap (λ q. q.scheduler_name) e ∙ named,
      subst (Moves s before) (sym w) (
          refuse before (writes h) pod copy cluster from c current moves
            (IsReplacement-at t pod copy cluster from c current same i)),
    )
    | inr (inr (cluster, c, copy, deleted, i, on, w, e, names)) ↦ (
      ap (λ q. q.clientsets) e ∙ (retargets t pod copy cluster from current deleted).0 ∙ same,
      ap (λ q. q.scheduler_name) e ∙ (retargets t pod copy cluster from current deleted).1 ∙ named,
      subst (Moves s before) (sym w) (
          move before (writes h) pod copy cluster from c current deleted moves
            (IsReplacement-at t pod copy cluster from c current same i) m),
    )
  ]

  -- The scores know the clusters of every later state.
  pub Served_at :
      {F : Type 0} (t : Scheduler) (scores : Scores F)
      → t.clientsets ≡ s.clientsets
      → Served s scores
      → Served t scores
  Served_at t scores same served cluster nodes n =
      let (c, known) = served cluster nodes n in (c, ap (Map.lookup cluster) same ∙ known)
