-- ===== src/Scheduler/Selection/Caused.antt =====
-- The cause of each error of the two passes of GetNodeIPForSchedule.
use proxima_scheduler.Prelude.{
  String, true, ◌≡◌, ◌≢◌, ◌⊎◌, inl, inr, refl, List, [], ◌∷◌, if◌then◌else◌, Bool-cases, string_eq,
  ◌==◌, beq_ne,
}
use proxima_scheduler.Kube.{Pod}
use proxima_scheduler.Float.{Float}
use proxima_scheduler.Effect.{
  Env, History, Result, ok, err, no_suitable_node, no_near_optimal_node, return, and_then,
}
use proxima_scheduler.Effect.Posts.{
  Returns, Returns_mono, Returns_both, Returns_all, Returns-and_then, loop-Returns, loop_reaches,
}
use proxima_scheduler.Scheduler.{Scheduler, NodeCandidate}
use proxima_scheduler.Scheduler.Selection.{
  Latencies, Scores, Limit, Best, best_pass, candidate_step, candidate_cluster, candidate_pass,
  near, choose, select_node, pick_weighted_by_score,
}
use proxima_scheduler.Scheduler.Selection.Steps.{
  takes, candidate_step_lem, candidate_step_below, pick_weighted_by_score-In,
}
use proxima_scheduler.Scheduler.Selection.Feasible.{Served, Feasible, IsBest}
use proxima_scheduler.Scheduler.Selection.Sound.{best_pass-IsBest}
use proxima_scheduler.Scheduler.Selection.Filled.{
  IsCons, IsCons-append, candidate_step_keeps, candidate_cluster_keeps,
}
use proxima_scheduler.Scheduler.Selection.Refused.{
  Listed, IsRefused, IsOut, IsNoneSuitable, best_pass-IsOut,
}

module _ {F : Type 0} ⦃fl : Float F⦄ (env : Env F) (s : Scheduler) (pod : Pod) (limit : Limit)
    (edges : Latencies F) (scores : Scores F) where
  -- A node fitted in the first pass, and in the second one each node of nine tenths of its score at
  -- least was refused.
  abbrev pub IsNoneNear : Type 0
  IsNoneNear =
      (cluster ip : String) × (best : F) × Feasible env s pod limit edges scores cluster ip best
      × ((l : Listed env s pod limit edges scores)
          → (fl.lt l.score (near env best) ≡ true) ⊎ IsRefused env s pod limit edges scores l)

  -- Each error of the two passes has its cause.
  abbrev pub IsCaused : Result (String × String) → Type 0
  IsCaused (ok picked) = Unit {0}
  IsCaused (err e) =
      ((e ≡ no_suitable_node) × IsNoneSuitable env s pod limit edges scores)
      ⊎ ((e ≡ no_near_optimal_node) × IsNoneNear)

  module _ (served : Served s scores) where
    candidate-hit :
        (threshold : F) (l : Listed env s pod limit edges scores) (cands : List (NodeCandidate F))
        (h : History)
        → Returns
            (candidate_step env s pod limit edges threshold l.cluster (l.ip, l.score) cands h)
            (λ cs k.
              IsCons cs
              ⊎ ((fl.lt l.score threshold ≡ true) ⊎ IsRefused env s pod limit edges scores l))
    candidate-hit threshold l cands h =
        let (c, found) = served l.cluster l.nodes l.cluster_listed in
        elim (Bool-cases (fl.lt l.score threshold)) [
          | inl below ↦
              rw
                (candidate_step_below env s pod limit edges l.cluster threshold l.ip l.score cands h
                  below)
                (inr (inl below))
          | inr over ↦
              rw
                (candidate_step_lem env s pod limit edges l.cluster threshold c l.ip l.score cands h
                  found over)
                (elim (Bool-cases (takes env s pod limit edges l.cluster c h l.ip)) [
                  | inl taken ↦ inl (rw taken (IsCons-append cands _))
                  | inr refused ↦ inr (inr (c, h, found, refused))
                ])
        ]

    abbrev IsLeft : F → Listed env s pod limit edges scores → List (NodeCandidate F) → Type 0
    IsLeft threshold l cs =
        IsCons cs ⊎ ((fl.lt l.score threshold ≡ true) ⊎ IsRefused env s pod limit edges scores l)

    IsLeft-grows :
        (threshold : F) (l : Listed env s pod limit edges scores)
        (before after : List (NodeCandidate F))
        → IsLeft threshold l before
        → (IsCons before → IsCons after)
        → IsLeft threshold l after
    IsLeft-grows threshold l before after (inl full) grows = inl (grows full)
    IsLeft-grows threshold l before after (inr out) grows = inr out

    candidate_cluster-hit :
        (threshold : F) (l : Listed env s pod limit edges scores) (cands : List (NodeCandidate F))
        (h : History)
        → Returns
            (candidate_cluster env s pod limit edges threshold (l.cluster, l.nodes) cands h)
            (λ cs k. IsLeft threshold l cs)
    unfolding candidate_cluster
    candidate_cluster-hit threshold l cands h =
        let step = candidate_step env s pod limit edges threshold l.cluster in
        let keeps = candidate_step_keeps env s pod limit edges scores served threshold l.cluster in
        loop_reaches step (λ cs k. Unit {0}) (λ cs k. IsLeft threshold l cs) l.nodes (l.ip, l.score)
          l.node_listed
          (λ (ip, score) n cs k u.
            Returns_mono (step (ip, score) cs k) _ _ (keeps ip score l.nodes cs k l.cluster_listed)
              (λ a b j. tt))
          (λ cs k u. candidate-hit threshold l cs k)
          (λ (ip, score) n cs k u left.
            Returns_mono (step (ip, score) cs k) _ _ (keeps ip score l.nodes cs k l.cluster_listed)
              (λ a b j. IsLeft-grows threshold l cs a left j))
          cands h tt

    candidate_pass-hit :
        (threshold : F) (h : History)
        → Returns
            (candidate_pass env s pod limit edges threshold scores h)
            (λ cs k. (l : Listed env s pod limit edges scores) → IsLeft threshold l cs)
    unfolding candidate_pass
    candidate_pass-hit threshold h =
        let o = candidate_pass env s pod limit edges threshold scores h in
        let body = candidate_cluster env s pod limit edges threshold in
        let keeps = candidate_cluster_keeps env s pod limit edges scores served threshold in
        Returns_mono o _ _
          (Returns_all o (λ (l : Listed env s pod limit edges scores) cs k. IsLeft threshold l cs)
            (λ l. Unit {0})
            (loop-Returns body (λ cs k. Unit {0}) scores
              (λ (cluster, nodes) m cs k u.
                Returns_mono (body (cluster, nodes) cs k) _ _ (keeps cluster nodes cs k m)
                  (λ a b j. tt))
              [] h tt)
            (λ l u.
              loop_reaches body (λ cs k. Unit {0}) (λ cs k. IsLeft threshold l cs) scores
                (l.cluster, l.nodes) l.cluster_listed
                (λ (cluster, nodes) m cs k u.
                  Returns_mono (body (cluster, nodes) cs k) _ _ (keeps cluster nodes cs k m)
                    (λ a b j. tt))
                (λ cs k u. candidate_cluster-hit threshold l cs k)
                (λ (cluster, nodes) m cs k u left.
                  Returns_mono (body (cluster, nodes) cs k) _ _ (keeps cluster nodes cs k m)
                    (λ a b j. IsLeft-grows threshold l cs a left j))
                [] h tt))
          (λ cs k all l. all l tt)

    choose-IsCaused :
        (cluster ip : String) (best : F) (cands : List (NodeCandidate F)) (h : History)
        → Feasible env s pod limit edges scores cluster ip best
        → ((l : Listed env s pod limit edges scores) → IsLeft (near env best) l cands)
        → Returns (choose env cands h) (λ r k. IsCaused r)
    unfolding choose
    choose-IsCaused cluster ip best [] h f left = inr (
      refl,
      (cluster, ip, best, f, λ l. elim (left l) [ inl filled ↦ absurd filled | inr out ↦ out ]),
    )
    choose-IsCaused cluster ip best (c ∷ cands) h f left =
        Returns-and_then (pick_weighted_by_score env (c ∷ cands) h) (λ picked. return (ok picked)) _
          (λ r k. IsCaused r) (pick_weighted_by_score-In env c cands h) (λ picked k is. tt)

    rest-IsCaused :
        (b : Best F) (h : History)
        → b.ip ≢ ""
        → IsBest env s pod limit edges scores b
        → Returns
            (and_then
              (candidate_pass env s pod limit edges (near env b.score) scores h)
              (choose env))
            (λ r k. IsCaused r)
    rest-IsCaused b h full is = elim is [
      | inl (empty, start) ↦ absurd (full empty)
      | inr (cluster, f) ↦
          Returns-and_then (candidate_pass env s pod limit edges (near env b.score) scores h)
            (choose env) _ (λ r k. IsCaused r) (candidate_pass-hit (near env b.score) h)
            (λ cands k left. choose-IsCaused cluster b.ip b.score cands k f left)
    ]

    pub select_node-IsCaused :
        (h : History) → Returns (select_node env s pod limit edges scores h) (λ r k. IsCaused r)
    unfolding select_node
    select_node-IsCaused h =
        let o = best_pass env s pod limit edges scores h in
        Returns-and_then o
          (λ best. if best.ip == "" then return (err no_suitable_node) else (λ k.
            and_then (candidate_pass env s pod limit edges (near env best.score) scores k)
              (choose env)))
          (λ b k.
            IsBest env s pod limit edges scores b
            × ((l : Listed env s pod limit edges scores) → IsOut env s pod limit edges scores l b))
          (λ r k. IsCaused r)
          (Returns_mono o _ _
            (Returns_both o _ _ (best_pass-IsBest env s pod limit edges scores served h)
              (best_pass-IsOut env s pod limit edges scores served h))
            (λ b k (is, out). (is.1, out)))
          (λ b k (is, out). elim (Bool-cases (b.ip == "")) [
            | inl empty ↦
                let unset : b.ip ≡ "" = (string_eq.equals_iff b.ip "").0 empty in
                rw empty (
                  inl (
                    refl,
                    λ l. elim (out l) [ inl full ↦ absurd (full unset) | inr passed ↦ passed ],
                  ))
            | inr full ↦ rw full (rest-IsCaused b k ((beq_ne b.ip "").0 full) is)
          ])
