-- ===== src/ScoresWorker/Extremes.antt =====
-- The extremes of the latencies that scoreNodes collects.
use proxima_scheduler.Prelude.{
  String, false, ◌≡◌, List, [], ◌∷◌, string_eq, arith, inl, inr, In, subst, sym,
}
use proxima_scheduler.Map.{Map}
use proxima_scheduler.Map
use proxima_scheduler.Float.{Float, IsOrdered}
use proxima_scheduler.Nodes.{is_edge_proxy}
use proxima_scheduler.ScoresWorker.{Sums, add_node, add_nodes, add_edges}

module _ {F : Type 0} ⦃fl : Float F⦄ (ordered : IsOrdered F) where
  -- The latency lies between the extremes.
  abbrev pub IsWithin : F → Sums F → Type 0
  IsWithin l s = (fl.lt l s.lmin ≡ false) × (fl.lt s.lmax l ≡ false)

  add_node-IsWithin :
      (edges : List String) (node : String) (weight latency l : F) (s : Sums F)
      → IsWithin l s
      → IsWithin l (add_node edges weight node latency s)
  unfolding add_node
  add_node-IsWithin edges node weight latency l s (low, high) = (
    ground (arith, low, ordered.lt_trans l latency s.lmin),
    ground (arith, high, ordered.lt_trans s.lmax latency l),
  )

  reaches-IsWithin :
      (edges : List String) (node : String) (weight latency : F) (s : Sums F)
      → is_edge_proxy node edges ≡ false
      → IsWithin latency (add_node edges weight node latency s)
  unfolding add_node
  reaches-IsWithin edges node weight latency s other = (
    ground (arith, other, ordered.lt_irrefl latency),
    ground (arith, other, ordered.lt_irrefl latency),
  )

  add_nodes-IsWithin :
      (edges : List String) (weight l : F) (latencies : Map String F) (s : Sums F)
      → IsWithin l s
      → IsWithin l (add_nodes edges weight latencies s)
  unfolding add_nodes
  add_nodes-IsWithin edges weight l [] s w = w
  add_nodes-IsWithin edges weight l ((node, latency) ∷ rest) s w =
      add_nodes-IsWithin edges weight l rest (add_node edges weight node latency s)
        (add_node-IsWithin edges node weight latency l s w)

  add_edges-IsWithin :
      (edges : List String) (weights : Map String F) (l : F) (all : Map String (Map String F))
      (s : Sums F)
      → IsWithin l s
      → IsWithin l (add_edges edges weights all s)
  unfolding add_edges
  add_edges-IsWithin edges weights l [] s w = w
  add_edges-IsWithin edges weights l ((edge, latencies) ∷ rest) s w =
      add_edges-IsWithin edges weights l rest
        (add_nodes edges (Map.get_or (fl.literal 0 0) edge weights) latencies s)
        (add_nodes-IsWithin edges (Map.get_or (fl.literal 0 0) edge weights) l latencies s w)

  met_nodes :
      (edges : List String) (weight : F) (node : String) (l : F) (latencies : Map String F)
      (s : Sums F)
      → In {A = String × F} (node, l) latencies
      → is_edge_proxy node edges ≡ false
      → IsWithin l (add_nodes edges weight latencies s)
  unfolding add_nodes
  met_nodes edges weight node l [] s m other = absurd m
  met_nodes edges weight node l ((n, x) ∷ rest) s m other = elim m [
    | inl same ↦ add_nodes-IsWithin edges weight l rest (add_node edges weight n x s) (
        subst (λ (p : String × F). IsWithin l (add_node edges weight p.0 p.1 s)) (sym same)
          (reaches-IsWithin edges node weight l s other))
    | inr later ↦ met_nodes edges weight node l rest (add_node edges weight n x s) later other
  ]

  -- The extremes that the scores are computed from enclose every latency of a node that is no edge
  -- proxy, whichever edge proxy measured it and in which order they come, where `<` is a strict order.
  pub add_edges_extremes :
      (edges : List String) (weights : Map String F) (all : Map String (Map String F)) (s : Sums F)
      (edge node : String) (latencies : Map String F) (l : F)
      → In {A = String × Map String F} (edge, latencies) all
      → In {A = String × F} (node, l) latencies
      → is_edge_proxy node edges ≡ false
      → IsWithin l (add_edges edges weights all s)
  unfolding add_edges
  add_edges_extremes edges weights [] s edge node latencies l m n other = absurd m
  add_edges_extremes edges weights ((e, found) ∷ rest) s edge node latencies l m n other = elim m [
    | inl same ↦
        let w = Map.get_or (fl.literal 0 0) e weights in
        add_edges-IsWithin edges weights l rest (add_nodes edges w found s) (
          met_nodes edges w node l found s
            (subst (λ (p : String × Map String F). In {A = String × F} (node, l) p.1) (sym same) n)
            other)
    | inr later ↦
        add_edges_extremes edges weights rest
          (add_nodes edges (Map.get_or (fl.literal 0 0) e weights) found s) edge node latencies l
          later n other
  ]
