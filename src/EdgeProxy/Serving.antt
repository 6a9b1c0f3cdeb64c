-- ===== src/EdgeProxy/Serving.antt =====
-- What a client of the proxy gets: preprocessRequest with the choice of a target behind it.
use mathlib.Core.Option.{some-injective}
use proxima_scheduler.Prelude.{
  String, true, false, ◌≡◌, ◌≢◌, ◌⊎◌, inl, inr, refl, sym, ap, Option, none, some, List, [], ◌∷◌,
  In, Bool-cases, string_eq,
}
use proxima_scheduler.Prelude.Int.{ℤ}
use proxima_scheduler.Map.{Map, lookup-insert}
use proxima_scheduler.Map
use proxima_scheduler.Float.{Float}
use proxima_scheduler.Effect.{Env, History, Result, ok, err, random, now, no_candidates}
use proxima_scheduler.Effect.Posts.{Returns, Returns-and_then, writes}
use proxima_scheduler.EdgeProxy.{
  EdgeProxy, ForwardTarget, WeightedForwardTarget, CachedForwardCandidates, is_service_allowed,
}
use proxima_scheduler.EdgeProxy.Choosing.{
  sum_weights, select_at, last_target, weighted_random_select, or_last, best_among, best_of,
  get_best_pod,
}
use proxima_scheduler.EdgeProxy.Paths.{service_of}
use proxima_scheduler.EdgeProxy.Requests.{
  Request, Reply, http_error, serve, prepared, context_for, serve_target, serve_service,
  preprocess_request,
}
use proxima_scheduler.EdgeProxy.Offered.{IsOffered}
use proxima_scheduler.EdgeProxy.Weighed.{AllOffered}
use proxima_scheduler.EdgeProxy.States.{Reached, IsSound, Reached-IsSound}

module _ {F : Type 0} ⦃fl : Float F⦄ (env : Env F) where
  -- The target is that of one of the candidates.
  abbrev pub IsTargetIn : List (WeightedForwardTarget F) → ForwardTarget → Type 0
  IsTargetIn ts target = (t : WeightedForwardTarget F) × In t ts × (t.target ≡ target)

  last-IsTargetIn :
      (t : WeightedForwardTarget F) (ts : List (WeightedForwardTarget F))
      → IsTargetIn (t ∷ ts) (last_target env t ts)
  last-IsTargetIn t [] = (t, inl refl, refl)
  last-IsTargetIn t (u ∷ ts) = let (v, m, e) = last-IsTargetIn u ts in (v, inr m, e)

  select_at-IsTargetIn :
      (r : F) (ts : List (WeightedForwardTarget F)) (target : ForwardTarget)
      → select_at env r ts ≡ some target
      → IsTargetIn ts target
  unfolding select_at
  select_at-IsTargetIn r [] target e = cc
  select_at-IsTargetIn r (t ∷ ts) target e =
      elim (Bool-cases (fl.le (fl.sub r t.weight) (fl.literal 0 0))) [
        | inl here ↦ (t, inl refl, some-injective _ _ (rw here at e))
        | inr later ↦
            let (u, m, q) = select_at-IsTargetIn (fl.sub r t.weight) ts target (rw later at e) in
            (u, inr m, q)
      ]

  -- The random choice among candidates, whatever their weights and the random number are.
  pub weighted_random_select-IsTargetIn :
      (t : WeightedForwardTarget F) (ts : List (WeightedForwardTarget F)) (h : History)
      → Returns
          (weighted_random_select env (t ∷ ts) h)
          (λ target k. (writes k ≡ writes h) × IsTargetIn (t ∷ ts) target)
  unfolding weighted_random_select random writes
  weighted_random_select-IsTargetIn t ts h = (
    refl,
    or_last-IsTargetIn
        (select_at env (fl.mul (env.random h) (sum_weights env (t ∷ ts) (fl.literal 0 0))) (t ∷ ts))
        (λ target. select_at-IsTargetIn _ (t ∷ ts) target),
  )
    where
      or_last-IsTargetIn :
          (o : Option ForwardTarget)
          → ((target : ForwardTarget) → o ≡ some target → IsTargetIn (t ∷ ts) target)
          → IsTargetIn (t ∷ ts) (or_last env (last_target env t ts) o)
      or_last-IsTargetIn none one = last-IsTargetIn t ts
      or_last-IsTargetIn (some target) one = one target refl

  -- What getBestPod answers in a state that the proxy reaches.
  abbrev pub IsBest : EdgeProxy F → String → Result ForwardTarget → Type 0
  IsBest ep service (err e) = (e ≡ no_candidates) × (Map.lookup service ep.store ≡ none)
  IsBest ep service (ok target) =
      (t : WeightedForwardTarget F) × IsOffered env ep service t × (t.target ≡ target)

  among-IsBest :
      (ep : EdgeProxy F) (service : String) (h : History) (ts : List (WeightedForwardTarget F))
      → (ts ≢ [])
      → AllOffered env ep service ts
      → Returns (best_among env ts h) (λ r k. (writes k ≡ writes h) × IsBest ep service r)
  unfolding best_among
  among-IsBest ep service h [] filled offered = absurd (filled refl)
  among-IsBest ep service h (t ∷ ts) filled offered =
      Returns-and_then (weighted_random_select env (t ∷ ts) h) _
        (λ target k. (writes k ≡ writes h) × IsTargetIn (t ∷ ts) target)
        (λ r k. (writes k ≡ writes h) × IsBest ep service r)
        (weighted_random_select-IsTargetIn t ts h)
        (λ target k (quiet, (u, m, e)). (quiet, (u, offered u m, e)))

  best_of-IsBest :
      (ep : EdgeProxy F) (service : String) (h : History) (o : Option (CachedForwardCandidates F))
      → Map.lookup service ep.store ≡ o
      → IsSound env ep
      → Returns (best_of env o h) (λ r k. (writes k ≡ writes h) × IsBest ep service r)
  unfolding best_of
  best_of-IsBest ep service h none missing sound = (refl, (refl, missing))
  best_of-IsBest ep service h (some c) known sound =
      among-IsBest ep service h c.candidates (sound service c known).0 (sound service c known).1

  -- What a client is answered, on every branch.
  abbrev pub IsReply : EdgeProxy F → Request → Reply → Type 0
  IsReply ep r reply =
      ((service_of r.path ≡ none) × (reply ≡ http_error 400 "Invalid request path"))
      ⊎ ((service : String) × (service_of r.path ≡ some service)
          × (((is_service_allowed service ≡ false) × (reply ≡ http_error 403 "Service not allowed"))
              ⊎ ((is_service_allowed service ≡ true)
                  × (((Map.lookup service ep.store ≡ none)
                        × (reply ≡ http_error 500 "Failed obtaining the best pod."))
                      ⊎ ((t : WeightedForwardTarget F) × (start : ℤ) × IsOffered env ep service t
                          × (reply
                              ≡ serve (prepared r service t.target.use_proxy)
                                  (context_for t.target start service)))))))

  -- In a state that the proxy reaches, each request is answered, without a panic and without a change
  -- to a cluster: a path without a service with 400, a service that is not allowed with 403, a
  -- service without candidates with 500, and each other one by a candidate of that very service.
  pub preprocess_request-IsReply :
      (ep : EdgeProxy F) (r : Request) (h : History)
      → Reached env ep
      → Returns
          (preprocess_request env ep r h)
          (λ reply k. (writes k ≡ writes h) × IsReply ep r reply)
  unfolding preprocess_request serve_target serve_service get_best_pod now writes
  preprocess_request-IsReply ep r h reached = service-IsReply (service_of r.path) refl
    where
      target-IsReply :
          (service : String) (k : History) (best : Result ForwardTarget)
          → service_of r.path ≡ some service
          → is_service_allowed service ≡ true
          → writes k ≡ writes h
          → IsBest ep service best
          → Returns
              (serve_target env r service best k)
              (λ reply j. (writes j ≡ writes h) × IsReply ep r reply)
      target-IsReply service k (err e) named allowed quiet best =
          (quiet, inr (service, named, inr (allowed, inl (best.1, refl))))
      target-IsReply service k (ok target) named allowed quiet (t, offered, same) = (
        quiet,
        inr (
          service,
          named,
          inr (
            allowed,
            inr (
              t,
              env.now k,
              offered,
              ap (λ u. serve (prepared r service u.use_proxy) (context_for u (env.now k) service))
                  (sym same),
            ),
          ),
        ),
      )

      service-IsReply :
          (o : Option String)
          → service_of r.path ≡ o
          → Returns
              (serve_service env ep r o h)
              (λ reply k. (writes k ≡ writes h) × IsReply ep r reply)
      service-IsReply none invalid = (refl, inl (invalid, refl))
      service-IsReply (some service) named = elim (Bool-cases (is_service_allowed service)) [
        | inr refused ↦ rw refused (refl, inr (service, named, inl (refused, refl)))
        | inl allowed ↦ rw allowed (
            Returns-and_then (get_best_pod env ep service h) _
              (λ best k. (writes k ≡ writes h) × IsBest ep service best)
              (λ reply k. (writes k ≡ writes h) × IsReply ep r reply)
              (best_of-IsBest ep service h (Map.lookup service ep.store) refl
                (Reached-IsSound env ep reached))
              (λ best k (quiet, is). target-IsReply service k best named allowed quiet is))
      ]
