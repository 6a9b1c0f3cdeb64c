-- ===== src/Scheduler/Selection/Optimal.antt =====
-- The first pass of GetNodeIPForSchedule, on clusters whose lists of nodes do not change meanwhile.
use mathlib.Core.Option.{some-injective}
use proxima_scheduler.Prelude.{
  String, true, false, ◌≡◌, sym, ap, ◌∙◌, some, [], In, arith, string_eq,
}
use proxima_scheduler.Kube.{Clientset, Pod, everything}
use proxima_scheduler.Map.{Map}
use proxima_scheduler.Map
use proxima_scheduler.Float.{Float, IsOrdered}
use proxima_scheduler.Effect.{Env, History}
use proxima_scheduler.Effect.Posts.{Returns, loop-Returns, loop_reaches}
use proxima_scheduler.Scheduler.{Scheduler}
use proxima_scheduler.Scheduler.Selection.{
  Latencies, Scores, Limit, Best, best_step, best_cluster, best_pass,
}
use proxima_scheduler.Scheduler.Selection.Steps.{takes, best_step_lem}
use proxima_scheduler.Scheduler.Selection.Feasible.{Served, Feasible}

-- The clusters list the same nodes at each time.
abbrev pub Steady : {F : Type 0} → Env F → Type 0
Steady env = (h : History) (c : Clientset) → env.nodes h c everything ≡ env.nodes [] c everything

module _ {F : Type 0} ⦃fl : Float F⦄ (env : Env F) (s : Scheduler) (pod : Pod) (limit : Limit)
    (edges : Latencies F) (scores : Scores F) (steady : Steady env) (ordered : IsOrdered F)
    (served : Served s scores) where
  pub Feasible-takes :
      (cluster ip : String) (score : F) (c : Clientset) (h : History)
      → Feasible env s pod limit edges scores cluster ip score
      → Map.lookup cluster s.clientsets ≡ some c
      → takes env s pod limit edges cluster c h ip ≡ true
  Feasible-takes cluster ip score c h f known =
      let same : f.clientset ≡ c = some-injective _ _ (sym f.known ∙ known) in
      let now : env.nodes h c everything ≡ env.nodes f.asked f.clientset everything =
        steady h c ∙ sym (steady f.asked c) ∙ ap (λ d. env.nodes f.asked d everything) (sym same) in
      rw (now, f.fitted) f.met

  -- A round leaves the best score at least as high.
  best_step_mono :
      (cluster ip : String) (score floor : F) (c : Clientset) (best : Best F) (h : History)
      → Map.lookup cluster s.clientsets ≡ some c
      → fl.lt best.score floor ≡ false
      → Returns
          (best_step env s pod limit edges cluster (ip, score) best h)
          (λ b h'. fl.lt b.score floor ≡ false)
  best_step_mono cluster ip score floor c best h known low =
      rw (best_step_lem env s pod limit edges cluster c ip score best h known)
        (ground (arith, ordered.lt_trans best.score score floor))

  best_step_hit :
      (cluster ip : String) (score : F) (best : Best F) (h : History)
      → Feasible env s pod limit edges scores cluster ip score
      → Returns
          (best_step env s pod limit edges cluster (ip, score) best h)
          (λ b h'. fl.lt b.score score ≡ false)
  best_step_hit cluster ip score best h f =
      rw
        (
          best_step_lem env s pod limit edges cluster f.clientset ip score best h f.known,
          Feasible-takes cluster ip score f.clientset h f f.known,
        )
        (ground (arith, ordered.lt_irrefl score))

  best_cluster_mono :
      (cluster : String) (nodes : Map String F) (floor : F) (best : Best F) (h : History)
      → In (cluster, nodes) scores
      → fl.lt best.score floor ≡ false
      → Returns
          (best_cluster env s pod limit edges (cluster, nodes) best h)
          (λ b h'. fl.lt b.score floor ≡ false)
  unfolding best_cluster
  best_cluster_mono cluster nodes floor best h m low =
      let (c, known) = served cluster nodes m in
      loop-Returns (best_step env s pod limit edges cluster) (λ b k. fl.lt b.score floor ≡ false)
        nodes (λ (ip, score) n b k v. best_step_mono cluster ip score floor c b k known v) best h
        low

  best_cluster_hit :
      (cluster ip : String) (score : F) (best : Best F) (h : History)
      (f : Feasible env s pod limit edges scores cluster ip score)
      → Returns
          (best_cluster env s pod limit edges (cluster, f.nodes) best h)
          (λ b h'. fl.lt b.score score ≡ false)
  unfolding best_cluster
  best_cluster_hit cluster ip score best h f =
      loop_reaches (best_step env s pod limit edges cluster) (λ b k. Unit {0})
        (λ b k. fl.lt b.score score ≡ false) f.nodes (ip, score) f.node_listed
        (λ (jp, t) n b k u.
          rw (best_step_lem env s pod limit edges cluster f.clientset jp t b k f.known) tt)
        (λ b k u. best_step_hit cluster ip score b k f)
        (λ (jp, t) n b k u v. best_step_mono cluster jp t score f.clientset b k f.known v) best h tt

  best_cluster_returns :
      (cluster : String) (nodes : Map String F) (best : Best F) (h : History)
      → In (cluster, nodes) scores
      → Returns (best_cluster env s pod limit edges (cluster, nodes) best h) (λ b h'. Unit {0})
  unfolding best_cluster
  best_cluster_returns cluster nodes best h m =
      let (c, known) = served cluster nodes m in
      loop-Returns (best_step env s pod limit edges cluster) (λ b k. Unit {0}) nodes
        (λ (ip, score) n b k u.
          rw (best_step_lem env s pod limit edges cluster c ip score b k known) tt)
        best h tt

  -- After the first pass no node that can take the pod has a higher score.
  pub best_pass_reaches :
      (cluster ip : String) (score : F) (h : History)
      → Feasible env s pod limit edges scores cluster ip score
      → Returns
          (best_pass env s pod limit edges scores h)
          (λ best h'. fl.lt best.score score ≡ false)
  unfolding best_pass
  best_pass_reaches cluster ip score h f =
      loop_reaches (best_cluster env s pod limit edges) (λ b k. Unit {0})
        (λ b k. fl.lt b.score score ≡ false) scores (cluster, f.nodes) f.cluster_listed
        (λ (d, nodes) m b k u. best_cluster_returns d nodes b k m)
        (λ b k u. best_cluster_hit cluster ip score b k f)
        (λ (d, nodes) m b k u v. best_cluster_mono d nodes score b k m v) _ h tt
