-- ===== src/EdgeProxy/Refreshed.antt =====
-- refreshCandidates: where the candidates that it stores come from, and what a failure leaves.
use proxima_scheduler.Prelude.{String, ◌≡◌, ◌≢◌, ◌⊎◌, inl, inr, refl, ◌∙◌, List, [], ◌∷◌, string_eq}
use proxima_scheduler.Map.{Map, In-lookup}
use proxima_scheduler.Map
use proxima_scheduler.Float.{Float}
use proxima_scheduler.Effect.{
  Env, History, Result, Result-cases, ok, err, loop, get_average_latencies_for_edge, database_read,
}
use proxima_scheduler.Effect.Posts.{Returns, Returns-and_then, loop-Returns, writes}
use proxima_scheduler.EdgeProxy.{
  EdgeProxy, K8sPodInstance, CachedForwardCandidates, WeightedForwardTarget,
}
use proxima_scheduler.EdgeProxy.Refreshing.{
  answer_of, add_pods, weigh, weigh_all, fresh_candidates, refreshed, refresh_candidates,
}
use proxima_scheduler.EdgeProxy.Offered.{AllListed, pods-AllListed}
use proxima_scheduler.EdgeProxy.Weighed.{AllOffered, weigh-AllOffered}

module _ {F : Type 0} ⦃fl : Float F⦄ (env : Env F) (ep : EdgeProxy F) (service : String) where
  -- The flight's answer: only offered targets, and never an empty list.
  abbrev IsAnswer : Result (List (WeightedForwardTarget F)) → Type 0
  IsAnswer (err e) = Unit
  IsAnswer (ok ts) = (ts ≢ []) × AllOffered env ep service ts

  answer_of-IsAnswer :
      (ts : List (WeightedForwardTarget F))
      → AllOffered env ep service ts
      → IsAnswer (answer_of env ts)
  answer_of-IsAnswer [] offered = tt
  answer_of-IsAnswer (t ∷ ts) offered = ((λ p. cc), offered)

  weigh_all-AllOffered :
      (pods : List K8sPodInstance) (h : History)
      → AllListed env ep service pods
      → Returns (weigh_all env ep pods h) (λ r k. (writes k ≡ writes h) × IsAnswer r)
  unfolding weigh_all get_average_latencies_for_edge writes
  weigh_all-AllOffered [] h all = (refl, tt)
  weigh_all-AllOffered (i ∷ pods) h all =
      elim (Result-cases (env.latencies_for_edge h ep.external_node_ip)) [
        | inl (e, refused) ↦ rw refused (refl, tt)
        | inr (latencies, answered) ↦ rw answered (
            Returns-and_then (loop (weigh env ep latencies) (i ∷ pods) [] (database_read ∷ h)) _
              Kept (λ r k. (writes k ≡ writes h) × IsAnswer r)
              (loop-Returns (weigh env ep latencies) Kept (i ∷ pods)
                (λ j m ts k.
                  weigh-AllOffered env ep service latencies h answered j ts h k (all j m))
                [] (database_read ∷ h) (refl, λ t n. absurd n))
              (λ ts k (quiet, offered). (quiet, answer_of-IsAnswer ts offered)))
      ]
    where
      Kept : List (WeightedForwardTarget F) → History → Type 0
      Kept ts k = (writes k ≡ writes h) × AllOffered env ep service ts

  -- What a refresh leaves: a list of offered targets in the store, or a failure in the cache.
  abbrev pub IsRefreshed : EdgeProxy F → Type 0
  IsRefreshed p =
      ((ts : List (WeightedForwardTarget F)) × (ts ≢ [])
        × AllOffered env ep service ts
        × (p ≡ record ep { store = Map.insert service (fresh_candidates env ts) ep.store }))
      ⊎ ((cached : CachedForwardCandidates F) × (p
            ≡ record ep { candidate_cache = Map.insert service cached ep.candidate_cache }))

  refreshed-IsRefreshed :
      (r : Result (List (WeightedForwardTarget F)))
      → IsAnswer r
      → IsRefreshed (refreshed env ep service r)
  unfolding refreshed
  refreshed-IsRefreshed (err e) answer = inr (_, refl)
  refreshed-IsRefreshed (ok ts) answer = inl (ts, answer.0, answer.1, refl)

  -- A refresh always returns and changes no cluster. Either the service's candidates become a list
  -- that is not empty, each of which is a pod of the service that one of the proxy's clusters listed
  -- and that can serve, reached at its own address or over its cluster's proxy, with the inverse of
  -- the positive latency that the database gave for its node as its weight; or the store of
  -- candidates is what it was. Nothing else of the proxy changes but the failed entry of its cache.
  pub refresh_candidates-IsRefreshed :
      (h : History)
      → Returns (refresh_candidates env ep service h) (λ p k. (writes k ≡ writes h) × IsRefreshed p)
  unfolding refresh_candidates
  refresh_candidates-IsRefreshed h =
      Returns-and_then (loop (add_pods env ep service) ep.clientsets [] h) _
        (λ f k. (writes k ≡ writes h) × AllListed env ep service f)
        (λ p k. (writes k ≡ writes h) × IsRefreshed p) (pods-AllListed env ep service h)
        (λ pods k (quiet, all).
          Returns-and_then (weigh_all env ep pods k) _ (λ r j. (writes j ≡ writes k) × IsAnswer r)
            (λ p j. (writes j ≡ writes h) × IsRefreshed p) (weigh_all-AllOffered pods k all)
            (λ r j (q, answer). (q ∙ quiet, refreshed-IsRefreshed r answer)))
