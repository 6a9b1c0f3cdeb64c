-- ===== src/Scheduler/Selection/Filled.antt =====
-- The second pass of GetNodeIPForSchedule, on clusters whose lists of nodes do not change meanwhile:
-- which nodes become candidates.
use proxima_scheduler.Prelude.{
  String, false, ◌≡◌, inl, inr, List, [], ◌∷◌, ◌++◌, In, Bool-cases, string_eq,
}
use proxima_scheduler.Kube.{Pod}
use proxima_scheduler.Map.{Map}
use proxima_scheduler.Float.{Float, IsOrdered}
use proxima_scheduler.Effect.{Env, History}
use proxima_scheduler.Effect.Posts.{Returns, Returns_mono, loop-Returns, loop_reaches}
use proxima_scheduler.Scheduler.{Scheduler, NodeCandidate}
use proxima_scheduler.Scheduler.Selection.{
  Latencies, Scores, Limit, candidate_step, candidate_cluster, candidate_pass,
}
use proxima_scheduler.Scheduler.Selection.Steps.{candidate_step_lem, candidate_step_below, takes}
use proxima_scheduler.Scheduler.Selection.Feasible.{Served, Feasible}
use proxima_scheduler.Scheduler.Selection.Optimal.{Steady, Feasible-takes}

abbrev pub IsCons {ℓ} : {A : Type ℓ} → List A → Type 0
IsCons [] = ⊥
IsCons (x ∷ xs) = Unit

pub IsCons-append {ℓ} : {A : Type ℓ} (xs : List A) (y : A) → IsCons (xs ++ y ∷ [])
IsCons-append [] y = tt
IsCons-append (x ∷ xs) y = tt

module _ {F : Type 0} ⦃fl : Float F⦄ (env : Env F) (s : Scheduler) (pod : Pod) (limit : Limit)
    (edges : Latencies F) (scores : Scores F) where
  module _ (served : Served s scores) where
    pub candidate_step_keeps :
        (threshold : F) (cluster ip : String) (score : F) (nodes : Map String F)
        (cands : List (NodeCandidate F)) (h : History)
        → In (cluster, nodes) scores
        → Returns
            (candidate_step env s pod limit edges threshold cluster (ip, score) cands h)
            (λ l k. IsCons cands → IsCons l)
    candidate_step_keeps threshold cluster ip score nodes cands h m =
        let (c, known) = served cluster nodes m in
        elim (Bool-cases (fl.lt score threshold)) [
          | inl below ↦
              rw
                (candidate_step_below env s pod limit edges cluster threshold ip score cands h
                  below)
                (λ full. full)
          | inr over ↦
              rw
                (candidate_step_lem env s pod limit edges cluster threshold c ip score cands h known
                  over)
                (λ full. elim (Bool-cases (takes env s pod limit edges cluster c h ip)) [
                  | inl takes ↦ rw takes (IsCons-append cands _)
                  | inr refused ↦ rw refused full
                ])
        ]

    pub candidate_cluster_keeps :
        (threshold : F) (cluster : String) (nodes : Map String F) (cands : List (NodeCandidate F))
        (h : History)
        → In (cluster, nodes) scores
        → Returns
            (candidate_cluster env s pod limit edges threshold (cluster, nodes) cands h)
            (λ l k. IsCons cands → IsCons l)
    unfolding candidate_cluster
    candidate_cluster_keeps threshold cluster nodes cands h m =
        loop-Returns (candidate_step env s pod limit edges threshold cluster)
          (λ l k. IsCons cands → IsCons l) nodes
          (λ (ip, score) n l k i.
            Returns_mono (candidate_step env s pod limit edges threshold cluster (ip, score) l k)
              (λ a b. IsCons l → IsCons a) (λ a b. IsCons cands → IsCons a)
              (candidate_step_keeps threshold cluster ip score nodes l k m)
              (λ a b j full. j (i full)))
          cands h (λ full. full)

  module _ (steady : Steady env) (ordered : IsOrdered F) (served : Served s scores) where
    candidate_step_hit :
        (threshold : F) (cluster ip : String) (score : F) (cands : List (NodeCandidate F))
        (h : History)
        → Feasible env s pod limit edges scores cluster ip score
        → fl.lt score threshold ≡ false
        → Returns
            (candidate_step env s pod limit edges threshold cluster (ip, score) cands h)
            (λ l k. IsCons l)
    candidate_step_hit threshold cluster ip score cands h f over =
        rw
          (
            candidate_step_lem env s pod limit edges cluster threshold f.clientset ip score cands h
                f.known over,
            Feasible-takes env s pod limit edges scores steady ordered served cluster ip score
                f.clientset h f f.known,
          )
          (IsCons-append cands _)

    candidate_cluster_hit :
        (threshold : F) (cluster ip : String) (score : F) (cands : List (NodeCandidate F))
        (h : History) (f : Feasible env s pod limit edges scores cluster ip score)
        → fl.lt score threshold ≡ false
        → Returns
            (candidate_cluster env s pod limit edges threshold (cluster, f.nodes) cands h)
            (λ l k. IsCons l)
    unfolding candidate_cluster
    candidate_cluster_hit threshold cluster ip score cands h f over =
        loop_reaches (candidate_step env s pod limit edges threshold cluster) (λ l k. Unit {0})
          (λ l k. IsCons l) f.nodes (ip, score) f.node_listed
          (λ (jp, t) n l k u.
            Returns_mono (candidate_step env s pod limit edges threshold cluster (jp, t) l k)
              (λ a b. IsCons l → IsCons a) (λ a b. Unit {0})
              (candidate_step_keeps served threshold cluster jp t f.nodes l k f.cluster_listed)
              (λ a b j. tt))
          (λ l k u. candidate_step_hit threshold cluster ip score l k f over)
          (λ (jp, t) n l k u full.
            Returns_mono (candidate_step env s pod limit edges threshold cluster (jp, t) l k)
              (λ a b. IsCons l → IsCons a) (λ a b. IsCons a)
              (candidate_step_keeps served threshold cluster jp t f.nodes l k f.cluster_listed)
              (λ a b j. j full))
          cands h tt

    pub candidate_pass_reaches :
        (threshold : F) (cluster ip : String) (score : F) (h : History)
        → Feasible env s pod limit edges scores cluster ip score
        → fl.lt score threshold ≡ false
        → Returns (candidate_pass env s pod limit edges threshold scores h) (λ l k. IsCons l)
    unfolding candidate_pass
    candidate_pass_reaches threshold cluster ip score h f over =
        loop_reaches (candidate_cluster env s pod limit edges threshold) (λ l k. Unit {0})
          (λ l k. IsCons l) scores (cluster, f.nodes) f.cluster_listed
          (λ (d, nodes) m l k u.
            Returns_mono (candidate_cluster env s pod limit edges threshold (d, nodes) l k)
              (λ a b. IsCons l → IsCons a) (λ a b. Unit {0})
              (candidate_cluster_keeps served threshold d nodes l k m) (λ a b j. tt))
          (λ l k u. candidate_cluster_hit threshold cluster ip score l k f over)
          (λ (d, nodes) m l k u full.
            Returns_mono (candidate_cluster env s pod limit edges threshold (d, nodes) l k)
              (λ a b. IsCons l → IsCons a) (λ a b. IsCons a)
              (candidate_cluster_keeps served threshold d nodes l k m) (λ a b j. j full))
          [] h tt
