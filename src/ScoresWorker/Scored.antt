-- ===== src/ScoresWorker/Scored.antt =====
-- scoreNodes: the sums that it collects for a node and the score that it makes of them.
use proxima_scheduler.Prelude.{
  String, Bool, true, false, not, ◌&&◌, ◌||◌, ◌≡◌, refl, ap, ◌∙◌, none, some, List, [], ◌∷◌, ◌==◌,
  string_eq, if◌then◌else◌, arith, Bool-cases, inl, inr,
}
use proxima_scheduler.Map.{
  Map, has-nil, has-insert, get_or-insert, lookup-insert, has-lookup, IsUnique, insert-IsUnique,
}
use proxima_scheduler.Map
use proxima_scheduler.Float.{Float}
use proxima_scheduler.Effect.{Result, ok}
use proxima_scheduler.Nodes.{is_edge_proxy}
use proxima_scheduler.ScoresWorker.{
  ScoresWorker, Sums, add_node, add_nodes, add_edges, no_sums, score, score_all, score_sums,
  score_weighted, score_nodes, calculate_edge_weights,
}

module _ {F : Type 0} ⦃fl : Float F⦄ where
  -- The sum of a function of a node's latencies and the weights of the edge proxies that measured
  -- them.
  unfoldable pub sum_at : String → (F → F) → Map String F → F → F
  sum_at n f [] total = total
  sum_at n f ((node, latency) ∷ rest) total =
      sum_at n f rest (if node == n then fl.add total (f latency) else total)

  unfoldable pub sum_over : String → (F → F → F) → Map String F → Map String (Map String F) → F → F
  sum_over n f weights [] total = total
  sum_over n f weights ((edge, latencies) ∷ rest) total =
      sum_over n f weights rest
        (sum_at n (f (Map.get_or (fl.literal 0 0) edge weights)) latencies total)

  -- Whether an edge proxy measured the node.
  unfoldable pub is_measured : String → Map String (Map String F) → Bool
  is_measured n [] = false
  is_measured n ((edge, latencies) ∷ rest) = Map.has n latencies || is_measured n rest

  -- What the loops make of the sums of a node that is no edge proxy, or of one that is.
  abbrev IsSummed : List String → String → Bool → (F → F) → (F → F) → Sums F → Sums F → Type 0
  IsSummed edges n measured f g s t =
      (Map.has n t.weighted_latencies
        ≡ ((not (is_edge_proxy n edges) && measured) || Map.has n s.weighted_latencies))
      × (is_edge_proxy n edges ≡ false
          → Map.get_or (fl.literal 0 0) n t.weighted_latencies
            ≡ f (Map.get_or (fl.literal 0 0) n s.weighted_latencies))
      × (is_edge_proxy n edges ≡ false
          → Map.get_or (fl.literal 0 0) n t.weight_sums
            ≡ g (Map.get_or (fl.literal 0 0) n s.weight_sums))
      × (IsUnique s.weighted_latencies → IsUnique t.weighted_latencies)

  add_node-IsSummed :
      (edges : List String) (n node : String) (weight latency : F) (s : Sums F)
      → IsSummed edges n
          (node == n)
          (λ total. if node == n then fl.add total (fl.mul weight latency) else total)
          (λ total. if node == n then fl.add total weight else total)
          s
          (add_node edges weight node latency s)
  unfolding add_node
  add_node-IsSummed edges n node weight latency s = (
    ground (
      arith,
      has-insert node n
          (fl.add (Map.get_or (fl.literal 0 0) node s.weighted_latencies) (fl.mul weight latency))
          s.weighted_latencies,
      string_eq.equals_iff node n,
    ),
    (λ h. ground (
      arith,
      h,
      get_or-insert (fl.literal 0 0) node n
          (fl.add (Map.get_or (fl.literal 0 0) node s.weighted_latencies) (fl.mul weight latency))
          s.weighted_latencies,
      string_eq.equals_iff node n,
    )),
    (λ h. ground (
      arith,
      h,
      get_or-insert (fl.literal 0 0) node n
          (fl.add (Map.get_or (fl.literal 0 0) node s.weight_sums) weight) s.weight_sums,
      string_eq.equals_iff node n,
    )),
    elim (Bool-cases (is_edge_proxy node edges)) [
      | inl edge ↦ rw (add_node, edge) (λ u. u)
      | inr other ↦ rw (add_node, other) (insert-IsUnique node _ s.weighted_latencies)
    ],
  )

  IsSummed-trans :
      (edges : List String) (n : String) (t u : Bool) (f g f' g' : F → F) (x y z : Sums F)
      → IsSummed edges n t f g x y
      → IsSummed edges n u f' g' y z
      → IsSummed edges n (t || u) (λ a. f' (f a)) (λ a. g' (g a)) x z
  IsSummed-trans edges n t u f g f' g' x y z (a, b, c, d) (a', b', c', d') =
      (ground (arith, a, a'), (λ h. b' h ∙ ap f' (b h)), (λ h. c' h ∙ ap g' (c h)), (λ h. d' (d h)))

  add_nodes-IsSummed :
      (edges : List String) (n : String) (weight : F) (latencies : Map String F) (s : Sums F)
      → IsSummed edges n
          (Map.has n latencies)
          (sum_at n (fl.mul weight) latencies)
          (sum_at n (λ l. weight) latencies)
          s
          (add_nodes edges weight latencies s)
  unfolding add_nodes sum_at Map.has Map.lookup
  add_nodes-IsSummed edges n weight [] s = (ground arith, (λ h. refl), (λ h. refl), (λ u. u))
  add_nodes-IsSummed edges n weight ((node, latency) ∷ rest) s =
      let (a, b, c, d) =
        IsSummed-trans edges n (node == n) (Map.has n rest)
          (λ total. if node == n then fl.add total (fl.mul weight latency) else total)
          (λ total. if node == n then fl.add total weight else total)
          (sum_at n (fl.mul weight) rest) (sum_at n (λ l. weight) rest) s
          (add_node edges weight node latency s)
          (add_nodes edges weight rest (add_node edges weight node latency s))
          (add_node-IsSummed edges n node weight latency s)
          (add_nodes-IsSummed edges n weight rest (add_node edges weight node latency s)) in
      (a ∙ ground arith, b, c, d)

  add_edges-IsSummed :
      (edges : List String) (n : String) (weights : Map String F) (all : Map String (Map String F))
      (s : Sums F)
      → IsSummed edges n
          (is_measured n all)
          (sum_over n fl.mul weights all)
          (sum_over n (λ w l. w) weights all)
          s
          (add_edges edges weights all s)
  unfolding add_edges sum_over is_measured
  add_edges-IsSummed edges n weights [] s = (ground arith, (λ h. refl), (λ h. refl), (λ u. u))
  add_edges-IsSummed edges n weights ((edge, latencies) ∷ rest) s =
      let w = Map.get_or (fl.literal 0 0) edge weights in
      IsSummed-trans edges n (Map.has n latencies) (is_measured n rest)
        (sum_at n (fl.mul w) latencies) (sum_at n (λ l. w) latencies)
        (sum_over n fl.mul weights rest) (sum_over n (λ w l. w) weights rest) s
        (add_nodes edges w latencies s)
        (add_edges edges weights rest (add_nodes edges w latencies s))
        (add_nodes-IsSummed edges n w latencies s)
        (add_edges-IsSummed edges n weights rest (add_nodes edges w latencies s))

  score_all_lem :
      (s : Sums F) (all scores : Map String F) (n : String)
      → IsUnique all
      → Map.lookup n (score_all s all scores) ≡ (
          if Map.has n all
          then some (
              score s.lmin s.lmax (
                fl.div
                  (Map.get_or (fl.literal 0 0) n all)
                  (Map.get_or (fl.literal 0 0) n s.weight_sums)))
          else Map.lookup n scores)
  unfolding score_all IsUnique Map.has Map.lookup Map.get_or
  score_all_lem s [] scores n u = refl
  score_all_lem s ((node, weighted) ∷ rest) scores n (fresh, u) =
      let value =
        score s.lmin s.lmax (fl.div weighted (Map.get_or (fl.literal 0 0) node s.weight_sums)) in
      ground (
        arith,
        score_all_lem s rest (Map.insert node value scores) n u,
        lookup-insert node n value scores,
        has-lookup node rest fresh,
        string_eq.equals_iff node n,
      )

  -- The score of a node, by a direct description of its sums.
  abbrev pub average_score : Map String F → Map String (Map String F) → Sums F → String → F
  average_score weights latencies s n = score s.lmin s.lmax (
      fl.div (sum_over n fl.mul weights latencies (fl.literal 0 0))
        (sum_over n (λ w l. w) weights latencies (fl.literal 0 0)))

  scored :
      (latencies : Map String (Map String F)) (edges : List String) (weights scores : Map String F)
      (n : String)
      → let s = add_edges edges weights latencies no_sums in
        Map.lookup n (score_all s s.weighted_latencies scores) ≡ (
          if not (is_edge_proxy n edges) && is_measured n latencies
          then some (average_score weights latencies s n)
          else Map.lookup n scores)
  unfolding IsUnique Map.get_or Map.lookup
  scored latencies edges weights scores n =
      let s = add_edges edges weights latencies no_sums in
      let (has_sum, weighted, sum, unique) = add_edges-IsSummed edges n weights latencies no_sums in
      let empty : Map.has {V = F} n [] ≡ false = has-nil F n in
      score_all_lem s s.weighted_latencies scores n (unique tt)
      ∙ elim (Bool-cases (is_edge_proxy n edges)) [
        | inl edge ↦ ground (arith, edge, has_sum, empty)
        | inr other ↦ ground (arith, other, has_sum, empty, weighted other, sum other)
      ]

  -- Of a round in which the edge proxies get weights, with the latencies that they measured. Where
  -- the extremes of these differ, each node that an edge proxy measured and that is none itself is
  -- scored by its average latency, weighted by the edge proxies that measured it. All other scores
  -- stay, and all of them are saved. Where the extremes are equal, no score changes and none is
  -- saved.
  pub score_nodes_lem :
      (latencies : Map String (Map String F)) (rpm : Result (Map String F))
      (sw weighted : ScoresWorker F) (n : String)
      → calculate_edge_weights rpm latencies sw ≡ ok weighted
      → let s = add_edges weighted.edge_proxies weighted.edge_weights latencies no_sums in
        let (after, saved) = score_nodes (ok latencies) rpm sw in
        (fl.eq s.lmax s.lmin ≡ true → (after ≡ weighted) × (saved ≡ none))
        × (fl.eq s.lmax s.lmin ≡ false
            → (saved ≡ some after.scores)
              × (Map.lookup n after.scores ≡ (
                  if not (is_edge_proxy n weighted.edge_proxies) && is_measured n latencies
                  then some (average_score weighted.edge_weights latencies s n)
                  else Map.lookup n weighted.scores)))
  unfolding score_nodes score_weighted score_sums
  score_nodes_lem latencies rpm sw weighted n weights = rw weights (
    (λ same. rw same (refl, refl)),
    (λ differ.
        rw differ
          (refl, scored latencies weighted.edge_proxies weighted.edge_weights weighted.scores n)),
  )
