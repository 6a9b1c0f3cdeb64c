-- ===== src/Scheduler/Placing/Scored.antt =====
-- GetNodeScores: whose scores it returns.
use proxima_scheduler.Prelude.{
  String, true, not, ◌||◌, ◌≡◌, inl, inr, refl, subst, List, [], ◌∷◌, In, string_eq, Bool-cases,
  arith,
}
use proxima_scheduler.Kube.{Clientset, Node, label_is_not}
use proxima_scheduler.Map.{Map, In-insert, In-lookup}
use proxima_scheduler.Effect.{
  Env, History, Result, ok, err, scores_failed, loop, Result-cases, get_node_score, list_nodes,
  nodes_listed,
}
use proxima_scheduler.Effect.Posts.{Returns, Returns-and_then, loop-Returns, writes}
use proxima_scheduler.Nodes.{discover_nodes}
use proxima_scheduler.Scheduler.{Scheduler, is_node_ready, is_schedulable}
use proxima_scheduler.Scheduler.Selection.{Scores}
use proxima_scheduler.Scheduler.Selection.Feasible.{Served}
use proxima_scheduler.Scheduler.Placing.{
  last_internal, score_node, add_cluster, score_nodes, score_cluster, get_node_scores,
  scores_or_none,
}

module _ {F : Type 0} (env : Env F) where
  -- The score of a node of the list that may be used, as the database had it.
  pub record IsScore (listed : List Node) (ip : String) (score : F) : Type 0 where
    pub node : Node
    pub member : In node listed
    pub is_ready : is_node_ready node ≡ true
    pub may_schedule : is_schedulable node ≡ true
    pub address : last_internal node.addresses "" ≡ ip
    pub asked : History
    pub answered : env.node_score asked ip ≡ ok score

  -- All scores of a cluster are those of nodes that it listed beside its edge nodes.
  pub record FromCluster (s : Scheduler) (cluster : String) (nodes : Map String F) : Type 0 where
    pub clientset : Clientset
    pub one_of : In (cluster, clientset) s.clientsets
    pub listed : List Node
    pub asked : History
    pub answered : env.nodes asked clientset (label_is_not "edge" "true") ≡ ok listed
    pub scored : (ip : String) (score : F) → In (ip, score) nodes → IsScore listed ip score

  abbrev pub AllScored : List Node → Result (Map String F) → Type 0
  AllScored listed (err e) = e ≡ scores_failed
  AllScored listed (ok nodes) =
      (ip : String) (score : F) → In (ip, score) nodes → IsScore listed ip score

  score_node-AllScored :
      (listed : List Node) (node : Node) (r : Result (Map String F)) (h₀ h : History)
      → In node listed
      → (writes h ≡ writes h₀) × AllScored listed r
      → Returns (score_node env node r h) (λ r' k. (writes k ≡ writes h₀) × AllScored listed r')
  unfolding score_node get_node_score writes
  score_node-AllScored listed node (err e) h₀ h m i = i
  score_node-AllScored listed node (ok scores) h₀ h m i =
      elim (Bool-cases (not (is_node_ready node) || not (is_schedulable node))) [
        | inl skipped ↦ rw skipped i
        | inr used ↦ elim (Result-cases (env.node_score h (last_internal node.addresses ""))) [
          | inl (e, failed) ↦ rw (used, failed) (i.0, refl)
          | inr (score, answered) ↦
              rw (used, answered)
                (
                  i.0,
                  λ ip t n. elim (In-insert (last_internal node.addresses "") score scores ip t n) [
                    | inl p ↦
                        subst (λ (q : String × F). IsScore listed q.0 q.1) p
                          (record {
                            node = node;
                            member = m;
                            is_ready = ground arith;
                            may_schedule = ground arith;
                            address = refl;
                            asked = h;
                            answered = answered;
                          })
                    | inr old ↦ i.1 ip t old
                  ],
                )
        ]
      ]

  module _ (s : Scheduler) where
    abbrev pub AllFrom : Result (Scores F) → Type 0
    AllFrom (err e) = e ≡ scores_failed
    AllFrom (ok scores) =
        (cluster : String) (nodes : Map String F)
        → In (cluster, nodes) scores
        → FromCluster s cluster nodes

    add_cluster-AllFrom :
        (cluster : String) (c : Clientset) (listed : List Node) (asked : History)
        (scores : Scores F) (r : Result (Map String F)) (h₀ h : History)
        → In (cluster, c) s.clientsets
        → env.nodes asked c (label_is_not "edge" "true") ≡ ok listed
        → AllFrom (ok scores)
        → (writes h ≡ writes h₀) × AllScored listed r
        → Returns (add_cluster env cluster scores r h) (λ r' k. (writes k ≡ writes h₀) × AllFrom r')
    unfolding add_cluster
    add_cluster-AllFrom cluster c listed asked scores (err e) h₀ h m answered all i = i
    add_cluster-AllFrom cluster c listed asked scores (ok nodes) h₀ h m answered all i = (
      i.0,
      λ d ns n. elim (In-insert cluster nodes scores d ns n) [
        | inl p ↦
            subst (λ (q : String × Map String F). FromCluster s q.0 q.1) p
              (record {
                clientset = c;
                one_of = m;
                listed = listed;
                asked = asked;
                answered = answered;
                scored = i.1;
              })
        | inr old ↦ all d ns old
      ],
    )

    score_cluster-AllFrom :
        (cluster : String) (c : Clientset) (r : Result (Scores F)) (h₀ h : History)
        → In (cluster, c) s.clientsets
        → (writes h ≡ writes h₀) × AllFrom r
        → Returns (score_cluster env (cluster, c) r h) (λ r' k. (writes k ≡ writes h₀) × AllFrom r')
    unfolding score_cluster score_nodes discover_nodes list_nodes writes
    score_cluster-AllFrom cluster c (err e) h₀ h m i = i
    score_cluster-AllFrom cluster c (ok scores) h₀ h m i =
        elim (Result-cases (env.nodes h c (label_is_not "edge" "true"))) [
          | inl (e, failed) ↦ rw failed (i.0, refl)
          | inr (listed, answered) ↦ rw answered (
              Returns-and_then
                (loop (score_node env) listed (ok [])
                  (nodes_listed c (label_is_not "edge" "true") ∷ h))
                (add_cluster env cluster scores)
                (λ t k. (writes k ≡ writes h₀) × AllScored listed t)
                (λ t k. (writes k ≡ writes h₀) × AllFrom t)
                (loop-Returns (score_node env) (λ t k. (writes k ≡ writes h₀) × AllScored listed t)
                  listed (λ node n t k v. score_node-AllScored listed node t h₀ k n v) (ok [])
                  (nodes_listed c (label_is_not "edge" "true") ∷ h) (i.0, λ ip t n. absurd n))
                (λ t k v. add_cluster-AllFrom cluster c listed h scores t h₀ k m answered i.1 v))
        ]

    -- GetNodeScores never panics and changes no cluster. In the scores that it returns,
    -- each cluster is one of the scheduler's, and each node of it is one that the cluster listed
    -- beside its edge nodes, ready and without a NoSchedule taint, with the score that the database
    -- answered for its address; or it returns the error of a failed query.
    pub get_node_scores-AllFrom :
        (h : History) → Returns (get_node_scores env s h) (λ r k. (writes k ≡ writes h) × AllFrom r)
    unfolding get_node_scores
    get_node_scores-AllFrom h =
        loop-Returns (score_cluster env) (λ r k. (writes k ≡ writes h) × AllFrom r) s.clientsets
          (λ (cluster, c) m r k i. score_cluster-AllFrom cluster c r h k m i) (ok []) h
          (refl, λ cluster nodes n. absurd n)

    pub AllFrom-Served : (r : Result (Scores F)) → AllFrom r → Served s (scores_or_none r)
    AllFrom-Served (err e) all cluster nodes n = absurd n
    AllFrom-Served (ok scores) all cluster nodes n =
        let f = all cluster nodes n in In-lookup cluster f.clientset s.clientsets f.one_of
