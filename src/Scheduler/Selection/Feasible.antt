-- ===== src/Scheduler/Selection/Feasible.antt =====
-- The nodes that could take a pod, and what a step of the two passes of GetNodeIPForSchedule keeps
-- of the best node and of the candidates.
use proxima_scheduler.Prelude.{
  String, true, false, ◌&&◌, ◌≡◌, ◌⊎◌, inl, inr, some, List, [], ◌∷◌, ◌++◌, In, All, All-In,
  In-append_cases, arith, if◌then◌else◌, Bool-cases, string_eq, subst,
}
use proxima_scheduler.Kube.{Clientset, Pod, everything}
use proxima_scheduler.Map.{Map}
use proxima_scheduler.Map
use proxima_scheduler.Float.{Float}
use proxima_scheduler.Effect.{Env, History}
use proxima_scheduler.Scheduler.{Scheduler, NodeCandidate}
use proxima_scheduler.Scheduler.Capacity.{fits}
use proxima_scheduler.Scheduler.Selection.{Latencies, Scores, Limit, Best, meets_limit}
use proxima_scheduler.Scheduler.Selection.Steps.{takes}

-- Each cluster that has scores is one of the scheduler's clusters.
abbrev pub Served : {F : Type 0} → Scheduler → Scores F → Type 0
Served s scores =
    (cluster : String) (nodes : Map String _)
    → In (cluster, nodes) scores
    → (c : Clientset) × (Map.lookup cluster s.clientsets ≡ some c)

pub All-Served :
    {F : Type 0} (s : Scheduler) (scores : Scores F)
    → All (λ e. (c : Clientset) × (Map.lookup e.0 s.clientsets ≡ some c)) scores
    → Served s scores
All-Served s scores all cluster nodes m =
    All-In (λ e. (c : Clientset) × (Map.lookup e.0 s.clientsets ≡ some c)) scores (cluster, nodes)
      all m

module _ {F : Type 0} ⦃fl : Float F⦄ (env : Env F) (s : Scheduler) (pod : Pod) (limit : Limit)
    (edges : Latencies F) (scores : Scores F) where
  -- A node that has the score, and that could take the pod when its cluster was asked.
  pub record Feasible (cluster ip : String) (score : F) : Type 0 where
    pub nodes : Map String F
    pub cluster_listed : In (cluster, nodes) scores
    pub node_listed : In (ip, score) nodes
    pub clientset : Clientset
    pub known : Map.lookup cluster s.clientsets ≡ some clientset
    pub asked : History
    pub fitted : fits ip pod (env.nodes asked clientset everything) ≡ true
    pub met : meets_limit limit ip edges ≡ true

  -- The best node so far, unless it is still the start of the loop.
  abbrev pub IsBest : Best F → Type 0
  IsBest best =
      ((best.ip ≡ "") × (best.score ≡ fl.neg fl.max_float))
      ⊎ ((cluster : String) × Feasible cluster best.ip best.score)

  abbrev pub IsNear : F → NodeCandidate F → Type 0
  IsNear threshold c = Feasible c.cluster c.ip c.score × (fl.lt c.score threshold ≡ false)

  takes-Feasible :
      (cluster ip : String) (score : F) (nodes : Map String F) (c : Clientset) (h : History)
      → In (cluster, nodes) scores
      → In (ip, score) nodes
      → Map.lookup cluster s.clientsets ≡ some c
      → takes env s pod limit edges cluster c h ip ≡ true
      → Feasible cluster ip score
  takes-Feasible cluster ip score nodes c h m n known taken = record {
    nodes = nodes;
    cluster_listed = m;
    node_listed = n;
    clientset = c;
    known = known;
    asked = h;
    fitted = ground arith;
    met = ground arith;
  }

  pub best_step-IsBest :
      (cluster ip : String) (score : F) (nodes : Map String F) (c : Clientset) (best : Best F)
      (h : History)
      → In (cluster, nodes) scores
      → In (ip, score) nodes
      → Map.lookup cluster s.clientsets ≡ some c
      → IsBest best
      → IsBest (
          if takes env s pod limit edges cluster c h ip && fl.lt best.score score
          then record { ip = ip; score = score }
          else best)
  best_step-IsBest cluster ip score nodes c best h m n known i =
      elim (Bool-cases (takes env s pod limit edges cluster c h ip && fl.lt best.score score)) [
        | inl better ↦
            rw better
              (inr (cluster, takes-Feasible cluster ip score nodes c h m n known (ground arith)))
        | inr worse ↦ rw worse i
      ]

  pub candidate_step-IsNear :
      (threshold : F) (cluster ip : String) (score : F) (nodes : Map String F) (c : Clientset)
      (cands : List (NodeCandidate F)) (h : History)
      → In (cluster, nodes) scores
      → In (ip, score) nodes
      → Map.lookup cluster s.clientsets ≡ some c
      → fl.lt score threshold ≡ false
      → ((d : NodeCandidate F) → In d cands → IsNear threshold d)
      → (d : NodeCandidate F)
      → In d (
          if takes env s pod limit edges cluster c h ip
          then cands ++ record { ip = ip; cluster = cluster; score = score } ∷ []
          else cands)
      → IsNear threshold d
  candidate_step-IsNear threshold cluster ip score nodes c cands h m n known over all d q =
      elim (Bool-cases (takes env s pod limit edges cluster c h ip)) [
        | inl taken ↦ elim (In-append_cases d cands _ (rw taken at q)) [
          | inl old ↦ all d old
          | inr new ↦ elim new [
            | inl e ↦
                subst (IsNear threshold) e
                  (takes-Feasible cluster ip score nodes c h m n known taken, over)
            | inr never ↦ absurd never
          ]
        ]
        | inr not_taken ↦ all d (rw not_taken at q)
      ]
