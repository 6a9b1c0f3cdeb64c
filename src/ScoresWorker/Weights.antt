-- ===== src/ScoresWorker/Weights.antt =====
-- calculateEdgeWeights and initializeEqualEdgeWeights.
use proxima_scheduler.Prelude.{
  String, Bool, true, false, ◌≡◌, ◌≢◌, refl, ◌∙◌, Option, none, some, [], ◌∷◌, string_eq,
  if◌then◌else◌, arith, length,
}
use proxima_scheduler.Prelude.Int.{pos}
use proxima_scheduler.Map.{Map, lookup-insert, get_or-insert, has-lookup, IsUnique}
use proxima_scheduler.Map
use proxima_scheduler.Float.{Float}
use proxima_scheduler.Effect.{Result, ok, err, no_edge_proxies}
use proxima_scheduler.ScoresWorker.{
  ScoresWorker, total_rpm, smooth, smooth_weights, set_weights, initialize_equal_edge_weights,
  calculate_edge_weights,
}

module _ {F : Type 0} ⦃fl : Float F⦄ where
  -- The smoothed weight of an edge proxy with a rate of requests.
  abbrev pub smoothed : F → Option F → Option F → Option F
  smoothed total none prev = prev
  smoothed total (some rpm) none = some (smooth (fl.div rpm total) (fl.literal 0 0))
  smoothed total (some rpm) (some prev) = some (smooth (fl.div rpm total) prev)

  smooth_weights_lem :
      (total : F) (rpm weights : Map String F) (e : String)
      → IsUnique rpm
      → Map.lookup e (smooth_weights total rpm weights)
        ≡ smoothed total (Map.lookup e rpm) (Map.lookup e weights)
  unfolding smooth_weights IsUnique Map.lookup Map.get_or
  smooth_weights_lem total [] weights e u = refl
  smooth_weights_lem total ((edge, r) ∷ rest) weights e (fresh, u) =
      let value = smooth (fl.div r total) (Map.get_or (fl.literal 0 0) edge weights) in
      ground (
        arith,
        smooth_weights_lem total rest (Map.insert edge value weights) e u,
        lookup-insert edge e value weights,
        has-lookup edge rest fresh,
        string_eq.equals_iff edge e,
      )

  set_weights_lem :
      {V : Type 0} (weight : F) (all : Map String V) (weights : Map String F) (e : String)
      → Map.lookup e (set_weights weight all weights)
        ≡ (if Map.has e all then some weight else Map.lookup e weights)
  unfolding set_weights Map.has Map.lookup
  set_weights_lem weight [] weights e = refl
  set_weights_lem weight ((edge, r) ∷ rest) weights e = ground (
    arith,
    set_weights_lem weight rest (Map.insert edge weight weights) e,
    lookup-insert edge e weight weights,
  )

  -- Whether there are no rates of requests to go by.
  abbrev pub no_rates : Result (Map String F) → Bool
  no_rates (err e) = true
  no_rates (ok []) = true
  no_rates (ok (edge ∷ edges)) = fl.eq (total_rpm (edge ∷ edges) (fl.literal 0 0)) (fl.literal 0 0)

  abbrev pub rates : Result (Map String F) → Map String F
  rates (err e) = []
  rates (ok rpm) = rpm

  falls_back :
      (rpm : Result (Map String F)) (latencies : Map String (Map String F)) (sw : ScoresWorker F)
      → no_rates rpm ≡ true
      → calculate_edge_weights rpm latencies sw ≡ initialize_equal_edge_weights latencies sw
  unfolding calculate_edge_weights
  falls_back (err e) latencies sw missing = refl
  falls_back (ok []) latencies sw missing = refl
  falls_back (ok (x ∷ xs)) latencies sw missing = rw missing refl

  weighs :
      (rpm : Result (Map String F)) (latencies : Map String (Map String F)) (sw : ScoresWorker F)
      → no_rates rpm ≡ false
      → calculate_edge_weights rpm latencies sw
        ≡ ok (record sw {
          edge_weights =
              smooth_weights (total_rpm (rates rpm) (fl.literal 0 0)) (rates rpm) sw.edge_weights;
        })
  unfolding calculate_edge_weights
  weighs (err e) latencies sw given = cc
  weighs (ok []) latencies sw given = cc
  weighs (ok (x ∷ xs)) latencies sw given = rw given refl

  equal_weights :
      (all : Map String (Map String F)) (sw : ScoresWorker F) (e : String)
      → all ≢ []
      → (w : Map String F) × (initialize_equal_edge_weights all sw
          ≡ ok (record sw { edge_weights = w }))
        × (Map.lookup e w ≡ (
            if Map.has e all
            then some (fl.div (fl.literal 1 0) (fl.of_int (pos (length all))))
            else Map.lookup e sw.edge_weights))
  unfolding initialize_equal_edge_weights
  equal_weights [] sw e filled = absurd (filled refl)
  equal_weights (x ∷ all) sw e filled = (
    _,
    refl,
    set_weights_lem (fl.div (fl.literal 1 0) (fl.of_int (pos (length (x ∷ all))))) (x ∷ all)
        sw.edge_weights e,
  )

  no_weights :
      (all : Map String (Map String F)) (sw : ScoresWorker F)
      → all ≡ []
      → initialize_equal_edge_weights all sw ≡ err no_edge_proxies
  unfolding initialize_equal_edge_weights
  no_weights [] sw e = refl
  no_weights (x ∷ all) sw e = cc

  -- The weights after calculateEdgeWeights. With rates of requests, one for an edge proxy and not of
  -- the sum 0, each edge proxy that has one gets a fifth of its share of them and four fifths of its
  -- last weight, and all others keep theirs. Without them, the edge proxies that measured a node get
  -- equal weights, and all others keep theirs; where there are none, there is an error. Only the
  -- weights of the worker change.
  pub calculate_edge_weights_lem :
      (rpm : Result (Map String F)) (latencies : Map String (Map String F)) (sw : ScoresWorker F)
      (e : String)
      → IsUnique (rates rpm)
      → (no_rates rpm ≡ false
          → (w : Map String F) × (calculate_edge_weights rpm latencies sw
              ≡ ok (record sw { edge_weights = w }))
            × (Map.lookup e w
                ≡ smoothed
                    (total_rpm (rates rpm) (fl.literal 0 0))
                    (Map.lookup e (rates rpm))
                    (Map.lookup e sw.edge_weights)))
        × (no_rates rpm ≡ true
            → latencies ≢ []
            → (w : Map String F) × (calculate_edge_weights rpm latencies sw
                ≡ ok (record sw { edge_weights = w }))
              × (Map.lookup e w ≡ (
                  if Map.has e latencies
                  then some (fl.div (fl.literal 1 0) (fl.of_int (pos (length latencies))))
                  else Map.lookup e sw.edge_weights)))
        × (no_rates rpm ≡ true
            → latencies ≡ []
            → calculate_edge_weights rpm latencies sw ≡ err no_edge_proxies)
  calculate_edge_weights_lem rpm latencies sw e u = (
    (λ given. (
      _,
      weighs rpm latencies sw given,
      smooth_weights_lem (total_rpm (rates rpm) (fl.literal 0 0)) (rates rpm) sw.edge_weights e u,
    )),
    (λ missing filled.
        let (w, same, value) = equal_weights latencies sw e filled in
        (w, falls_back rpm latencies sw missing ∙ same, value)),
    (λ missing empty. falls_back rpm latencies sw missing ∙ no_weights latencies sw empty),
  )
