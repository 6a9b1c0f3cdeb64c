-- ===== src/EdgeProxy/Choosing.antt =====
-- getBestPod and weightedRandomSelect.
use proxima_scheduler.Prelude.{String, Option, none, some, List, [], ◌∷◌, string_eq, if◌then◌else◌}
use proxima_scheduler.Map.{Map}
use proxima_scheduler.Map
use proxima_scheduler.Float.{Float}
use proxima_scheduler.Effect.{Env, M, Result, ok, err, no_candidates, ◌>>=◌, return, fault, random}
use proxima_scheduler.EdgeProxy.{
  ForwardTarget, WeightedForwardTarget, CachedForwardCandidates, EdgeProxy,
}

module _ {F : Type 0} ⦃fl : Float F⦄ (env : Env F) where
  -- weightedRandomSelect: the sum of the weights, and the loop that takes them off again.
  unfoldable pub sum_weights : List (WeightedForwardTarget F) → F → F
  sum_weights [] total = total
  sum_weights (t ∷ ts) total = sum_weights ts (fl.add total t.weight)

  unfoldable pub select_at : F → List (WeightedForwardTarget F) → Option ForwardTarget
  select_at r [] = none
  select_at r (t ∷ ts) =
      let left = fl.sub r t.weight in
      let rest = select_at left ts in if fl.le left (fl.literal 0 0) then some t.target else rest

  abbrev pub last_target : WeightedForwardTarget F → List (WeightedForwardTarget F) → ForwardTarget
  last_target t [] = t.target
  last_target t (u ∷ us) = last_target u us

  abbrev pub or_last : ForwardTarget → Option ForwardTarget → ForwardTarget
  or_last last none = last
  or_last last (some target) = target

  -- No target is selected from an empty list: the index of the last one is out of range.
  unfoldable pub weighted_random_select : List (WeightedForwardTarget F) → M ForwardTarget
  weighted_random_select [] = do u ← random env; fault
  weighted_random_select (t ∷ ts) = do
    u ← random env
    return (
        or_last (last_target t ts)
          (select_at (fl.mul u (sum_weights (t ∷ ts) (fl.literal 0 0))) (t ∷ ts)))

  unfoldable pub best_among : List (WeightedForwardTarget F) → M (Result ForwardTarget)
  best_among [] = return (err no_candidates)
  best_among (t ∷ ts) = do target ← weighted_random_select (t ∷ ts); return (ok target)

  unfoldable pub best_of : Option (CachedForwardCandidates F) → M (Result ForwardTarget)
  best_of none = return (err no_candidates)
  best_of (some cached) = best_among cached.candidates

  unfoldable pub get_best_pod : EdgeProxy F → String → M (Result ForwardTarget)
  get_best_pod ep service = best_of (Map.lookup service ep.store)
