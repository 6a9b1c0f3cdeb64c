-- ===== src/Scheduler/Selection/Refused.antt =====
-- Why the two passes of GetNodeIPForSchedule find no node.
use proxima_scheduler.Prelude.{
  String, false, ◌&&◌, ◌≡◌, ◌≢◌, ◌⊎◌, inl, inr, refl, some, In, if◌then◌else◌, Bool-cases,
  string_eq, ◌==◌, beq_ne,
}
use proxima_scheduler.Kube.{Clientset, Pod}
use proxima_scheduler.Map.{Map}
use proxima_scheduler.Map
use proxima_scheduler.Float.{Float}
use proxima_scheduler.Effect.{Env, History}
use proxima_scheduler.Effect.Posts.{Returns, Returns_mono, Returns_all, loop-Returns, loop_reaches}
use proxima_scheduler.Scheduler.{Scheduler}
use proxima_scheduler.Scheduler.Selection.{
  Latencies, Scores, Limit, Best, best_step, best_cluster, best_pass,
}
use proxima_scheduler.Scheduler.Selection.Steps.{takes, best_step_lem}
use proxima_scheduler.Scheduler.Selection.Feasible.{Served}

module _ {F : Type 0} ⦃fl : Float F⦄ (env : Env F) (s : Scheduler) (pod : Pod) (limit : Limit)
    (edges : Latencies F) (scores : Scores F) where
  -- A node that has a score.
  pub record Listed : Type 0 where
    pub cluster : String
    pub nodes : Map String F
    pub cluster_listed : In (cluster, nodes) scores
    pub ip : String
    pub score : F
    pub node_listed : In (ip, score) nodes

  -- The node had no room for the pod when its cluster was asked, or is beyond the limit.
  abbrev pub IsRefused : Listed → Type 0
  IsRefused n =
      (c : Clientset) × (asked : History) × (Map.lookup n.cluster s.clientsets ≡ some c)
      × (takes env s pod limit edges n.cluster c asked n.ip ≡ false)

  -- A node is listed under the empty address.
  abbrev pub Unnamed : Type 0
  Unnamed = (n : Listed) × (n.ip ≡ "")

  abbrev pub IsPassed : Listed → Type 0
  IsPassed n = Unnamed ⊎ ((fl.lt (fl.neg fl.max_float) n.score ≡ false) ⊎ IsRefused n)

  -- The best node is the start of the loop, or has an address.
  abbrev pub IsKnown : Best F → Type 0
  IsKnown b = ((b.ip ≡ "") × (b.score ≡ fl.neg fl.max_float)) ⊎ ((b.ip ≢ "") ⊎ Unnamed)

  abbrev pub IsOut : Listed → Best F → Type 0
  IsOut n b = (b.ip ≢ "") ⊎ IsPassed n

  named : (n : Listed) → (n.ip ≢ "") ⊎ Unnamed
  named n = elim (Bool-cases (n.ip == "")) [
    | inl empty ↦ inr (n, (string_eq.equals_iff n.ip "").0 empty)
    | inr full ↦ inl ((beq_ne n.ip "").0 full)
  ]

  named-IsKnown : (n : Listed) → IsKnown (record { ip = n.ip; score = n.score })
  named-IsKnown n = inr (named n)

  abbrev after : Listed → Clientset → History → Best F → Best F
  after n c h b =
      if takes env s pod limit edges n.cluster c h n.ip && fl.lt b.score n.score
      then record { ip = n.ip; score = n.score }
      else b

  after-IsKnown :
      (n : Listed) (c : Clientset) (h : History) (b : Best F) → IsKnown b → IsKnown (after n c h b)
  after-IsKnown n c h b known =
      elim (Bool-cases (takes env s pod limit edges n.cluster c h n.ip && fl.lt b.score n.score)) [
        | inl better ↦ rw better (named-IsKnown n)
        | inr worse ↦ rw worse known
      ]

  after_stays :
      (m n : Listed) (c : Clientset) (h : History) (b : Best F)
      → IsOut m b
      → IsOut m (after n c h b)
  after_stays m n c h b out =
      elim (Bool-cases (takes env s pod limit edges n.cluster c h n.ip && fl.lt b.score n.score)) [
        | inl better ↦
            rw better (elim (named n) [ inl full ↦ inl full | inr unnamed ↦ inr (inl unnamed) ])
        | inr worse ↦ rw worse out
      ]

  after_hit :
      (n : Listed) (c : Clientset) (h : History) (b : Best F)
      → Map.lookup n.cluster s.clientsets ≡ some c
      → IsKnown b
      → IsOut n (after n c h b)
  after_hit n c h b found known =
      elim (Bool-cases (takes env s pod limit edges n.cluster c h n.ip)) [
        | inr refused ↦ inr (inr (inr (c, h, found, refused)))
        | inl taken ↦ elim (Bool-cases (fl.lt b.score n.score)) [
          | inl better ↦
              rw (taken, better)
                (elim (named n) [ inl full ↦ inl full | inr unnamed ↦ inr (inl unnamed) ])
          | inr worse ↦
              rw (taken, worse)
                (elim known [
                  | inl (empty, start) ↦ inr (inr (inl (rw start at worse)))
                  | inr (inl full) ↦ inl full
                  | inr (inr unnamed) ↦ inr (inl unnamed)
                ])
        ]
      ]

  -- No node suits: each one that has a score was refused, or its score is not above the least
  -- float, or there is one without an address.
  abbrev pub IsNoneSuitable : Type 0
  IsNoneSuitable = (l : Listed) → IsPassed l

  module _ (served : Served s scores) where
    step-IsKnown :
        (n : Listed) (b : Best F) (h : History)
        → IsKnown b
        → Returns
            (best_step env s pod limit edges n.cluster (n.ip, n.score) b h)
            (λ b' k. IsKnown b')
    step-IsKnown n b h known =
        let (c, found) = served n.cluster n.nodes n.cluster_listed in
        rw (best_step_lem env s pod limit edges n.cluster c n.ip n.score b h found)
          (after-IsKnown n c h b known)

    step-stays :
        (m n : Listed) (b : Best F) (h : History)
        → IsOut m b
        → Returns
            (best_step env s pod limit edges n.cluster (n.ip, n.score) b h)
            (λ b' k. IsOut m b')
    step-stays m n b h out =
        let (c, found) = served n.cluster n.nodes n.cluster_listed in
        rw (best_step_lem env s pod limit edges n.cluster c n.ip n.score b h found)
          (after_stays m n c h b out)

    step-hit :
        (n : Listed) (b : Best F) (h : History)
        → IsKnown b
        → Returns
            (best_step env s pod limit edges n.cluster (n.ip, n.score) b h)
            (λ b' k. IsOut n b')
    step-hit n b h known =
        let (c, found) = served n.cluster n.nodes n.cluster_listed in
        rw (best_step_lem env s pod limit edges n.cluster c n.ip n.score b h found)
          (after_hit n c h b found known)

    abbrev at :
        (cluster : String) (nodes : Map String F) (ip : String) (score : F)
        → In (cluster, nodes) scores
        → In (ip, score) nodes
        → Listed
    at cluster nodes ip score m n = record {
      cluster = cluster;
      nodes = nodes;
      cluster_listed = m;
      ip = ip;
      score = score;
      node_listed = n;
    }

    cluster-IsKnown :
        (cluster : String) (nodes : Map String F) (b : Best F) (h : History)
        → In (cluster, nodes) scores
        → IsKnown b
        → Returns (best_cluster env s pod limit edges (cluster, nodes) b h) (λ b' k. IsKnown b')
    unfolding best_cluster
    cluster-IsKnown cluster nodes b h m known =
        loop-Returns (best_step env s pod limit edges cluster) (λ b' k. IsKnown b') nodes
          (λ (ip, score) n b' k i. step-IsKnown (at cluster nodes ip score m n) b' k i) b h known

    cluster-stays :
        (l : Listed) (cluster : String) (nodes : Map String F) (b : Best F) (h : History)
        → In (cluster, nodes) scores
        → IsOut l b
        → Returns (best_cluster env s pod limit edges (cluster, nodes) b h) (λ b' k. IsOut l b')
    unfolding best_cluster
    cluster-stays l cluster nodes b h m out =
        loop-Returns (best_step env s pod limit edges cluster) (λ b' k. IsOut l b') nodes
          (λ (ip, score) n b' k i. step-stays l (at cluster nodes ip score m n) b' k i) b h out

    cluster-hit :
        (l : Listed) (b : Best F) (h : History)
        → IsKnown b
        → Returns (best_cluster env s pod limit edges (l.cluster, l.nodes) b h) (λ b' k. IsOut l b')
    unfolding best_cluster
    cluster-hit l b h known =
        loop_reaches (best_step env s pod limit edges l.cluster) (λ b' k. IsKnown b')
          (λ b' k. IsOut l b') l.nodes (l.ip, l.score) l.node_listed
          (λ (ip, score) n b' k i.
            step-IsKnown (at l.cluster l.nodes ip score l.cluster_listed n) b' k i)
          (λ b' k i. step-hit l b' k i)
          (λ (ip, score) n b' k i out.
            step-stays l (at l.cluster l.nodes ip score l.cluster_listed n) b' k out)
          b h known

    best_pass-IsKnown :
        (h : History) → Returns (best_pass env s pod limit edges scores h) (λ b k. IsKnown b)
    unfolding best_pass
    best_pass-IsKnown h =
        loop-Returns (best_cluster env s pod limit edges) (λ b k. IsKnown b) scores
          (λ (cluster, nodes) m b k i. cluster-IsKnown cluster nodes b k m i) _ h (inl (refl, refl))

    -- After the first pass each node that has a score is out, or a best node is found.
    pub best_pass-IsOut :
        (h : History)
        → Returns (best_pass env s pod limit edges scores h) (λ b k. (l : Listed) → IsOut l b)
    unfolding best_pass
    best_pass-IsOut h =
        let o = best_pass env s pod limit edges scores h in
        Returns_mono o _ _
          (Returns_all o (λ (l : Listed) b k. IsOut l b) (λ l. Unit {0})
            (Returns_mono o _ _ (best_pass-IsKnown h) (λ b k i. tt))
            (λ l u.
              loop_reaches (best_cluster env s pod limit edges) (λ b k. IsKnown b)
                (λ b k. IsOut l b) scores (l.cluster, l.nodes) l.cluster_listed
                (λ (cluster, nodes) m b k i. cluster-IsKnown cluster nodes b k m i)
                (λ b k i. cluster-hit l b k i)
                (λ (cluster, nodes) m b k i out. cluster-stays l cluster nodes b k m out) _ h
                (inl (refl, refl))))
          (λ b k all l. all l tt)
