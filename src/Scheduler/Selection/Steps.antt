-- ===== src/Scheduler/Selection/Steps.antt =====
-- One round of each pass of GetNodeIPForSchedule, and the random choice, in closed form.
use proxima_scheduler.Prelude.{
  String, Bool, true, false, ◌&&◌, ◌≡◌, inl, inr, refl, sym, ap, ◌∙◌, some, List, [], ◌∷◌, ◌++◌, In,
  arith, if◌then◌else◌, Bool-cases, Option-cases, string_eq,
}
use proxima_scheduler.Prelude.Int.{ltb_ℤ, ℤ, ◌≤ℤ◌}
use proxima_scheduler.Kube.{Clientset, Pod, everything}
use proxima_scheduler.Map.{Map}
use proxima_scheduler.Map
use proxima_scheduler.Float.{Float}
use proxima_scheduler.Effect.{Env, History, done, nodes_listed, random}
use proxima_scheduler.Effect.Posts.{Returns, writes}
use proxima_scheduler.Scheduler.{Scheduler, NodeCandidate}
use proxima_scheduler.Scheduler.Capacity.{fits, has_enough_capacity_lem}
use proxima_scheduler.Scheduler.Selection.{
  Latencies, Limit, Best, within_limit, meets_limit, latency_duration, best_step, candidate_step,
  pick_at, found_or_last, least_score, total_weight, last_candidate, pick_weighted_by_score,
  candidate_weight,
}

module _ {F : Type 0} ⦃fl : Float F⦄ where
  -- The node has a latency from the proxy, within the limit.
  abbrev pub Near : ℤ → String → Map String F → Type 0
  Near limit ip latencies =
      (latency : F) × (Map.lookup ip latencies ≡ some latency) × (latency_duration latency ≤ℤ limit)

  pub within_limit-Near :
      (limit : ℤ) (ip : String) (edges : Latencies F) (edge : String) (latencies : Map String F)
      → within_limit limit ip edges ≡ true
      → In (edge, latencies) edges
      → Near limit ip latencies
  unfolding within_limit
  within_limit-Near limit ip [] edge latencies w m = absurd m
  within_limit-Near limit ip ((e, l) ∷ edges) edge latencies w m =
      elim (Option-cases (Map.lookup ip l)) [
        | inl missing ↦ absurd (ground arith)
        | inr (latency, found) ↦ elim (Bool-cases (ltb_ℤ limit (latency_duration latency))) [
          | inl over ↦ absurd (ground arith)
          | inr under ↦ elim m [
            | inl here ↦ (latency, ap (λ p. Map.lookup ip p.1) (sym here) ∙ found, ground arith)
            | inr there ↦ within_limit-Near limit ip edges edge latencies (ground arith) there
          ]
        ]
      ]

  pick_at-In :
      (r least acc : F) (cands : List (NodeCandidate F)) (c : NodeCandidate F)
      → pick_at r least acc cands ≡ some c
      → In c cands
  unfolding pick_at
  pick_at-In r least acc [] c e = cc
  pick_at-In r least acc (d ∷ cands) c e =
      ground (arith, pick_at-In r least (fl.add acc (candidate_weight least d)) cands c)

  last_candidate-In :
      (c : NodeCandidate F) (cands : List (NodeCandidate F))
      → (d : NodeCandidate F) × (last_candidate (c ∷ cands) ≡ some d) × In d (c ∷ cands)
  last_candidate-In c [] = (c, refl, inl refl)
  last_candidate-In c (b ∷ cands) = let (d, e, m) = last_candidate-In b cands in (d, e, inr m)

module _ {F : Type 0} ⦃fl : Float F⦄ (env : Env F) where
  -- The weighted choice always returns, and returns one of the candidates, whatever the weights
  -- and the random number.
  pub pick_weighted_by_score-In :
      (c : NodeCandidate F) (cands : List (NodeCandidate F)) (h : History)
      → Returns (pick_weighted_by_score env (c ∷ cands) h) (λ picked h'.
        (writes h' ≡ writes h)
        × ((d : NodeCandidate F) × In d (c ∷ cands) × (picked ≡ (d.ip, d.cluster))))
  unfolding pick_weighted_by_score found_or_last random writes
  pick_weighted_by_score-In c cands h =
      let all = c ∷ cands in
      let least = least_score all fl.max_float in
      let r = fl.mul (env.random h) (total_weight least all (fl.literal 0 0)) in
      elim (Option-cases (pick_at r least (fl.literal 0 0) all)) [
        | inl past ↦
            let (d, found, m) = last_candidate-In c cands in rw (past, found) (refl, (d, m, refl))
        | inr (d, found) ↦
            rw found (refl, (d, pick_at-In r least (fl.literal 0 0) all d found, refl))
      ]

  module _ (s : Scheduler) (pod : Pod) (limit : Limit) (edges : Latencies F)
      (cluster : String) where
    -- The node can take the pod, by what its cluster lists at the time.
    abbrev pub takes : Clientset → History → String → Bool
    takes c h ip = fits ip pod (env.nodes h c everything) && meets_limit limit ip edges

    pub best_step_lem :
        (c : Clientset) (ip : String) (score : F) (best : Best F) (h : History)
        → Map.lookup cluster s.clientsets ≡ some c
        → best_step env s pod limit edges cluster (ip, score) best h
          ≡ done
              (if takes c h ip && fl.lt best.score score
                then record { ip = ip; score = score }
                else best)
              (nodes_listed c everything ∷ h)
    unfolding best_step
    best_step_lem c ip score best h e =
        rw (e, has_enough_capacity_lem env c ip pod h) (ground arith)

    pub candidate_step_lem :
        (threshold : F) (c : Clientset) (ip : String) (score : F) (cands : List (NodeCandidate F))
        (h : History)
        → Map.lookup cluster s.clientsets ≡ some c
        → fl.lt score threshold ≡ false
        → candidate_step env s pod limit edges threshold cluster (ip, score) cands h
          ≡ done
              (if takes c h ip
                then cands ++ record { ip = ip; cluster = cluster; score = score } ∷ []
                else cands)
              (nodes_listed c everything ∷ h)
    unfolding candidate_step
    candidate_step_lem threshold c ip score cands h e t =
        rw (t, e, has_enough_capacity_lem env c ip pod h) (ground arith)

    pub candidate_step_below :
        (threshold : F) (ip : String) (score : F) (cands : List (NodeCandidate F)) (h : History)
        → fl.lt score threshold ≡ true
        → candidate_step env s pod limit edges threshold cluster (ip, score) cands h ≡ done cands h
    unfolding candidate_step
    candidate_step_below threshold ip score cands h t = rw t
