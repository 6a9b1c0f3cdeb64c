-- ===== src/Scheduler/Selection/Complete.antt =====
-- The two passes of GetNodeIPForSchedule together, on clusters whose lists of nodes do not change
-- meanwhile.
use proxima_scheduler.Prelude.{
  String, true, false, ◌≡◌, ◌≢◌, ◌⊎◌, inl, inr, refl, List, [], ◌∷◌, In, All, All-In, if◌then◌else◌,
  Bool-cases, string_eq, ◌==◌, beq_ne,
}
use proxima_scheduler.Kube.{Pod}
use proxima_scheduler.Float.{Float, IsOrdered}
use proxima_scheduler.Effect.{
  Env, History, Result, ok, err, no_suitable_node, no_near_optimal_node, Outcome, return, and_then,
}
use proxima_scheduler.Effect.Posts.{
  Returns, Returns_mono, Returns-and_then, Returns_both, Returns_all, writes,
}
use proxima_scheduler.Scheduler.{Scheduler, NodeCandidate}
use proxima_scheduler.Scheduler.Selection.{
  Latencies, Scores, Limit, Best, best_pass, candidate_pass, near, choose, select_node,
  pick_weighted_by_score,
}
use proxima_scheduler.Scheduler.Selection.Steps.{pick_weighted_by_score-In}
use proxima_scheduler.Scheduler.Selection.Feasible.{Served, Feasible, IsBest, IsNear}
use proxima_scheduler.Scheduler.Selection.Sound.{best_pass-IsBest, candidate_pass-IsNear}
use proxima_scheduler.Scheduler.Selection.Optimal.{Steady, best_pass_reaches}
use proxima_scheduler.Scheduler.Selection.Filled.{IsCons, candidate_pass_reaches}

-- No node is listed under an empty address.
abbrev pub Named : {F : Type 0} → Scores F → Type 0
Named scores = All (λ e. All (λ n. n.0 ≢ "") e.1) scores

module _ {F : Type 0} ⦃fl : Float F⦄ (env : Env F) (s : Scheduler) (pod : Pod) (limit : Limit)
    (edges : Latencies F) (scores : Scores F) where
  -- The highest score among the nodes that can take the pod.
  abbrev pub IsHighest : F → Type 0
  IsHighest best =
      ((cluster ip : String) × Feasible env s pod limit edges scores cluster ip best)
      × ((cluster ip : String) (score : F)
          → Feasible env s pod limit edges scores cluster ip score
          → fl.lt best score ≡ false)

  -- `no_suitable_node`: no node can take the pod and has a score above the least float.
  -- `no_near_optimal_node`: the highest score is below nine tenths of itself.
  -- A node: it can take the pod, and has nine tenths of the highest score.
  abbrev pub IsOptimal : Result (String × String) → Type 0
  IsOptimal (err e) =
      ((e ≡ no_suitable_node)
        × ((cluster ip : String) (score : F)
            → Feasible env s pod limit edges scores cluster ip score
            → fl.lt (fl.neg fl.max_float) score ≡ false))
      ⊎ ((e ≡ no_near_optimal_node)
          × ((best : F) × IsHighest best × (fl.lt best (near env best) ≡ true)))
  IsOptimal (ok (ip, cluster)) =
      (score best : F) × Feasible env s pod limit edges scores cluster ip score
      × IsHighest best
      × (fl.lt score (near env best) ≡ false)

  module _ (steady : Steady env) (ordered : IsOrdered F) (served : Served s scores) where
    Named-Feasible :
        Named scores
        → (cluster ip : String) (score : F) → Feasible env s pod limit edges scores cluster ip score
        → ip ≢ ""
    Named-Feasible named cluster ip score f =
        All-In (λ n. n.0 ≢ "") f.nodes (ip, score)
          (All-In (λ e. All (λ n. n.0 ≢ "") e.1) scores (cluster, f.nodes) named f.cluster_listed)
          f.node_listed

    abbrev Checked : F → List (NodeCandidate F) → Type 0
    Checked best cands =
        (d : NodeCandidate F) → In d cands → IsNear env s pod limit edges scores (near env best) d

    -- There are candidates, unless the best score is below its own threshold.
    abbrev Filled : F → List (NodeCandidate F) → Type 0
    Filled best cands = (fl.lt best (near env best) ≡ true) ⊎ IsCons cands

    candidate_pass-Passed :
        (cluster ip : String) (best : F) (h : History)
        → Feasible env s pod limit edges scores cluster ip best
        → Returns
            (candidate_pass env s pod limit edges (near env best) scores h)
            (λ cands k. Checked best cands × Filled best cands)
    candidate_pass-Passed cluster ip best h f =
        Returns_both o (λ cands k. Checked best cands) (λ cands k. Filled best cands)
          (Returns_mono o (λ cands k. (writes k ≡ writes h) × Checked best cands)
            (λ cands k. Checked best cands)
            (candidate_pass-IsNear env s pod limit edges scores served (near env best) h)
            (λ cands k v. v.1))
          filled
      where
        o : Outcome (List (NodeCandidate F))
        o = candidate_pass env s pod limit edges (near env best) scores h

        filled : Returns o (λ cands k. Filled best cands)
        filled = elim (Bool-cases (fl.lt best (near env best))) [
          | inl below ↦
              Returns_mono o (λ cands k. (writes k ≡ writes h) × Checked best cands)
                (λ cands k. Filled best cands)
                (candidate_pass-IsNear env s pod limit edges scores served (near env best) h)
                (λ cands k v. inl below)
          | inr over ↦
              Returns_mono o (λ cands k. IsCons cands) (λ cands k. Filled best cands)
                (candidate_pass_reaches env s pod limit edges scores steady ordered served
                  (near env best) cluster ip best h f over)
                (λ cands k full. inr full)
        ]

    choose-IsOptimal :
        (best : F) (cands : List (NodeCandidate F)) (h : History)
        → IsHighest best
        → Checked best cands
        → Filled best cands
        → Returns (choose env cands h) (λ r k. IsOptimal r)
    unfolding choose
    choose-IsOptimal best [] h high checked filled = elim filled [
      | inl below ↦ inr (refl, (best, high, below))
      | inr never ↦ absurd never
    ]
    choose-IsOptimal best (c ∷ cands) h high checked filled =
        Returns-and_then (pick_weighted_by_score env (c ∷ cands) h) (λ picked. return (ok picked))
          Picked (λ r k. IsOptimal r) (pick_weighted_by_score-In env c cands h)
          (λ picked k (quiet, (d, m, e)).
            rw e (d.score, best, (checked d m).0, high, (checked d m).1))
      where
        Picked : String × String → History → Type 0
        Picked picked k =
            (writes k ≡ writes h)
            × ((d : NodeCandidate F) × In d (c ∷ cands) × (picked ≡ (d.ip, d.cluster)))

    abbrev Bests : Best F → Type 0
    Bests best =
        IsBest env s pod limit edges scores best
        × ((cluster ip : String) (score : F)
            → Feasible env s pod limit edges scores cluster ip score
            → fl.lt best.score score ≡ false)

    best_pass-Bests :
        (h : History) → Returns (best_pass env s pod limit edges scores h) (λ best k. Bests best)
    best_pass-Bests h =
        let o = best_pass env s pod limit edges scores h in
        let sound = best_pass-IsBest env s pod limit edges scores served h in
        Returns_mono o
          (λ best k.
            ((writes k ≡ writes h) × IsBest env s pod limit edges scores best) × Above best)
          (λ best k. Bests best)
          (Returns_both o
            (λ best k. (writes k ≡ writes h) × IsBest env s pod limit edges scores best)
            (λ best k. Above best) sound
            (Returns_all o (λ t best k. fl.lt best.score t.2 ≡ false)
              (λ t. Feasible env s pod limit edges scores t.0 t.1 t.2)
              (Returns_mono o
                (λ best k. (writes k ≡ writes h) × IsBest env s pod limit edges scores best)
                (λ best k. Unit {0}) sound (λ best k v. tt))
              (λ t f.
                best_pass_reaches env s pod limit edges scores steady ordered served t.0 t.1 t.2 h
                  f)))
          (λ best k v. (v.0.1, λ cluster ip score f. v.1 (cluster, ip, score) f))
      where
        Above : Best F → Type 0
        Above best =
            (t : String × String × F)
            → Feasible env s pod limit edges scores t.0 t.1 t.2
            → fl.lt best.score t.2 ≡ false

    after_best-IsOptimal :
        (best : Best F) (h : History)
        → Named scores
        → Bests best
        → Returns
            ((if best.ip == "" then return (err no_suitable_node) else (λ k.
                and_then
                  (candidate_pass env s pod limit edges (near env best.score) scores k)
                  (choose env)))
              h)
            (λ r k. IsOptimal r)
    after_best-IsOptimal best h named (is_best, high) = elim is_best [
      | inl (unset, least) ↦
          rw unset (inl (refl, λ cluster ip score f. rw (← least) (high cluster ip score f)))
      | inr (cluster, f) ↦
          rw ((beq_ne best.ip "").1 (Named-Feasible named cluster best.ip best.score f)) (
            Returns-and_then (candidate_pass env s pod limit edges (near env best.score) scores h)
              (choose env) (λ cands k. Checked best.score cands × Filled best.score cands)
              (λ r k. IsOptimal r) (candidate_pass-Passed cluster best.ip best.score h f)
              (λ cands k v.
                choose-IsOptimal best.score cands k ((cluster, best.ip, f), high) v.0 v.1))
    ]

    -- While the clusters list the same nodes, the choice of a node is optimal. The node that is returned
    -- can take the pod, and its score is not below nine tenths of the highest score of all the nodes
    -- that can. The error of no suitable node means that no such node has a score above the least
    -- float, and the other error that the highest such score is below nine tenths of itself. The order
    -- of scores is irreflexive and transitive, the clusters with scores are known, and no node is
    -- listed under an empty address.
    pub select_node-IsOptimal :
        (h : History)
        → Named scores
        → Returns (select_node env s pod limit edges scores h) (λ r k. IsOptimal r)
    unfolding select_node
    select_node-IsOptimal h named =
        Returns-and_then (best_pass env s pod limit edges scores h) _ (λ best k. Bests best)
          (λ r k. IsOptimal r) (best_pass-Bests h) (λ best k b. after_best-IsOptimal best k named b)
