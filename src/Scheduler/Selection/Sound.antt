-- ===== src/Scheduler/Selection/Sound.antt =====
-- What the two passes of GetNodeIPForSchedule find, and the node that is returned.
use proxima_scheduler.Prelude.{
  String, false, ◌≡◌, ◌≢◌, ◌⊎◌, inl, inr, refl, ◌∙◌, List, [], ◌∷◌, In, if◌then◌else◌, Bool-cases,
  string_eq, ◌==◌, beq_ne,
}
use proxima_scheduler.Kube.{Pod}
use proxima_scheduler.Float.{Float}
use proxima_scheduler.Effect.{
  Env, History, Result, ok, err, no_suitable_node, no_near_optimal_node, return, and_then,
}
use proxima_scheduler.Effect.Posts.{Returns, Returns_mono, Returns-and_then, loop-Returns, writes}
use proxima_scheduler.Scheduler.{Scheduler, NodeCandidate}
use proxima_scheduler.Scheduler.Selection.{
  Latencies, Scores, Limit, Best, best_step, best_cluster, best_pass, candidate_step,
  candidate_cluster, candidate_pass, near, choose, select_node, pick_weighted_by_score,
}
use proxima_scheduler.Scheduler.Selection.Steps.{
  best_step_lem, candidate_step_lem, candidate_step_below, pick_weighted_by_score-In,
}
use proxima_scheduler.Scheduler.Selection.Feasible.{
  Served, Feasible, IsBest, IsNear, best_step-IsBest, candidate_step-IsNear,
}

module _ {F : Type 0} ⦃fl : Float F⦄ (env : Env F) (s : Scheduler) (pod : Pod) (limit : Limit)
    (edges : Latencies F) (scores : Scores F) where
  module _ (served : Served s scores) where
    pub best_pass-IsBest :
        (h : History)
        → Returns
            (best_pass env s pod limit edges scores h)
            (λ best h'. (writes h' ≡ writes h) × IsBest env s pod limit edges scores best)
    unfolding best_pass best_cluster writes
    best_pass-IsBest h =
        loop-Returns (best_cluster env s pod limit edges) Inv scores
          (λ (cluster, nodes) m best k i.
            let (c, known) = served cluster nodes m in
            loop-Returns (best_step env s pod limit edges cluster) Inv nodes
              (λ (ip, score) n b j v.
                rw (best_step_lem env s pod limit edges cluster c ip score b j known) (
                  v.0,
                  best_step-IsBest env s pod limit edges scores cluster ip score nodes c b j m n
                      known v.1,
                ))
              best k i)
          _ h (refl, inl (refl, refl))
      where
        Inv : Best F → History → Type 0
        Inv best k = (writes k ≡ writes h) × IsBest env s pod limit edges scores best

    pub candidate_pass-IsNear :
        (threshold : F) (h : History)
        → Returns (candidate_pass env s pod limit edges threshold scores h) (λ cands h'.
          (writes h' ≡ writes h)
          × ((d : NodeCandidate F) → In d cands → IsNear env s pod limit edges scores threshold d))
    unfolding candidate_pass candidate_cluster writes
    candidate_pass-IsNear threshold h =
        loop-Returns (candidate_cluster env s pod limit edges threshold) Inv scores
          (λ (cluster, nodes) m cands k i.
            let (c, known) = served cluster nodes m in
            loop-Returns (candidate_step env s pod limit edges threshold cluster) Inv nodes
              (λ (ip, score) n l j v. elim (Bool-cases (fl.lt score threshold)) [
                | inl below ↦
                    rw
                      (candidate_step_below env s pod limit edges cluster threshold ip score l j
                        below)
                      v
                | inr over ↦
                    rw
                      (candidate_step_lem env s pod limit edges cluster threshold c ip score l j
                        known over)
                      (
                        v.0,
                        candidate_step-IsNear env s pod limit edges scores threshold cluster ip
                            score nodes c l j m n known over v.1,
                      )
              ])
              cands k i)
          [] h (refl, λ d q. absurd q)
      where
        Inv : List (NodeCandidate F) → History → Type 0
        Inv cands k =
            (writes k ≡ writes h)
            × ((d : NodeCandidate F) → In d cands → IsNear env s pod limit edges scores threshold d)

    -- The result: a node that could take the pod, not below nine tenths of the score of another
    -- such node, or one of the two errors.
    abbrev pub Selected : Result (String × String) → Type 0
    Selected (err e) = (e ≡ no_suitable_node) ⊎ (e ≡ no_near_optimal_node)
    Selected (ok (ip, cluster)) =
        (score : F) × Feasible env s pod limit edges scores cluster ip score
        × ((best_cluster best_ip : String) × (best : F) × Feasible env s pod limit edges scores
              best_cluster best_ip best
            × (fl.lt score (near env best) ≡ false))

    choose-Selected :
        (cands : List (NodeCandidate F)) (best_cluster best_ip : String) (best : F) (h : History)
        → Feasible env s pod limit edges scores best_cluster best_ip best
        → ((d : NodeCandidate F)
            → In d cands
            → IsNear env s pod limit edges scores (near env best) d)
        → Returns (choose env cands h) (λ r h'. (writes h' ≡ writes h) × Selected r)
    unfolding choose
    choose-Selected [] bc bi best h f all = (refl, inr refl)
    choose-Selected (c ∷ cands) bc bi best h f all =
        Returns-and_then (pick_weighted_by_score env (c ∷ cands) h) (λ picked. return (ok picked))
          Picked (λ r h'. (writes h' ≡ writes h) × Selected r)
          (pick_weighted_by_score-In env c cands h)
          (λ picked k (quiet, (d, m, e)).
            (quiet, rw e (d.score, (all d m).0, (bc, bi, best, f, (all d m).1))))
      where
        Picked : String × String → History → Type 0
        Picked picked k =
            (writes k ≡ writes h)
            × ((d : NodeCandidate F) × In d (c ∷ cands) × (picked ≡ (d.ip, d.cluster)))

    after_best-Selected :
        (best : Best F) (h : History)
        → best.ip ≢ ""
        → IsBest env s pod limit edges scores best
        → Returns
            (and_then
              (candidate_pass env s pod limit edges (near env best.score) scores h)
              (choose env))
            (λ r h'. (writes h' ≡ writes h) × Selected r)
    after_best-Selected best h found is_best = elim is_best [
      | inl unset ↦ absurd (found unset.0)
      | inr (cluster, f) ↦
          Returns-and_then (candidate_pass env s pod limit edges (near env best.score) scores h)
            (choose env)
            (λ cands k.
              (writes k ≡ writes h)
              × ((d : NodeCandidate F)
                  → In d cands
                  → IsNear env s pod limit edges scores (near env best.score) d))
            (λ r k. (writes k ≡ writes h) × Selected r)
            (candidate_pass-IsNear (near env best.score) h)
            (λ cands k c.
              Returns_mono (choose env cands k) (λ r j. (writes j ≡ writes k) × Selected r)
                (λ r j. (writes j ≡ writes h) × Selected r)
                (choose-Selected cands cluster best.ip best.score k f c.1)
                (λ r j v. (v.0 ∙ c.0, v.1)))
    ]

    pub select_node-Selected :
        (h : History)
        → Returns
            (select_node env s pod limit edges scores h)
            (λ r h'. (writes h' ≡ writes h) × Selected r)
    unfolding select_node
    select_node-Selected h =
        Returns-and_then (best_pass env s pod limit edges scores h)
          (λ best. if best.ip == "" then return (err no_suitable_node) else (λ k.
            and_then (candidate_pass env s pod limit edges (near env best.score) scores k)
              (choose env)))
          (λ best k. (writes k ≡ writes h) × IsBest env s pod limit edges scores best)
          (λ r k. (writes k ≡ writes h) × Selected r) (best_pass-IsBest h)
          (λ best k (quiet, is_best). elim (Bool-cases (best.ip == "")) [
            | inl unset ↦ rw unset (quiet, inl refl)
            | inr set ↦ rw set (
                Returns_mono _ (λ r j. (writes j ≡ writes k) × Selected r)
                  (λ r j. (writes j ≡ writes h) × Selected r)
                  (after_best-Selected best k ((beq_ne best.ip "").0 set) is_best)
                  (λ r j v. (v.0 ∙ quiet, v.1)))
          ])
