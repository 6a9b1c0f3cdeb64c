-- ===== src/EdgeProxy/Running.antt =====
-- Run and backgroundRefresh of proxima-scheduler/edgeproxy/edgeproxy.go: what an edge proxy does at
-- each event, one after another, and what it answers.
use proxima_scheduler.Prelude.{
  String, Bool, true, false, Bool-cases, inl, inr, ◌==◌, string_eq, ◌≡◌, refl, ◌∙◌, List, [], ◌∷◌,
}
use proxima_scheduler.Float.{Float}
use proxima_scheduler.Effect.{Env, M, History, Outcome, done, panic, ◌>>=◌, return, loop}
use proxima_scheduler.Effect.Posts.{Returns, Returns_mono, Returns-and_then, loop-Returns, writes}
use proxima_scheduler.EdgeProxy.{EdgeProxy, allowed_services}
use proxima_scheduler.EdgeProxy.Refreshing.{refresh_candidates, refresh_all}
use proxima_scheduler.EdgeProxy.Refreshed.{refresh_candidates-IsRefreshed}
use proxima_scheduler.EdgeProxy.Requests.{
  Request, Reply, ProxyError, preprocess_request, handle_error, handle_invalidate,
}
use proxima_scheduler.EdgeProxy.States.{Reached, refreshed_at, invalidated}
use proxima_scheduler.EdgeProxy.Serving.{IsReply, preprocess_request-IsReply}

pub data Event : Type 0 where
  -- the start of backgroundRefresh, or its ticker
  ticked : Event
  -- a request for `/`, or for `/invalidate/` and a service
  asked : Request → Event
  invalidate : String → Event
  -- the transport fails on a request to a service
  failed : ProxyError → String → Event

-- The proxy, and what its clients were answered, newest first.
pub record Server (F : Type 0) : Type 0 where
  pub proxy : EdgeProxy F
  pub replies : List (Request × Reply)

module _ {F : Type 0} ⦃fl : Float F⦄ (env : Env F) where
  unfoldable pub refresh_if : Bool → String → EdgeProxy F → M (EdgeProxy F)
  refresh_if true service ep = refresh_candidates env ep service
  refresh_if false service ep = return ep

  unfoldable pub handle : Event → Server F → M (Server F)
  handle ticked s = do ep ← refresh_all env s.proxy; return (record s { proxy = ep })
  handle (asked r) s = do
    reply ← preprocess_request env s.proxy r
    return (record s { replies = (r, reply) ∷ s.replies })
  handle (invalidate service) s =
      return (record s { proxy = (handle_invalidate s.proxy service).1 })
  handle (failed e service) s = do
    ep ← refresh_if (handle_error e service).1 service s.proxy
    return (record s { proxy = ep })

  unfoldable pub run : List Event → EdgeProxy F → M (Server F)
  run events ep = loop handle events (record { proxy = ep; replies = [] })

  abbrev IsServing : History → Server F → History → Type 0
  IsServing h s k = (writes k ≡ writes h) × Reached env s.proxy

  -- One reply is given to the request, the right one for the proxy as it is, which stays, and no
  -- cluster is changed.
  abbrev pub IsAnswer : Server F → Request → History → Server F → History → Type 0
  IsAnswer s r k s' j =
      (reply : Reply) × (s' ≡ record s { replies = (r, reply) ∷ s.replies })
      × (writes j ≡ writes k)
      × IsReply env s.proxy r reply

  Returns-done :
      {A : Type 0} (o : Outcome A) (P : A → History → Type 0)
      → Returns o P
      → Returns o (λ a k. P a k × (o ≡ done a k))
  Returns-done (done a h) P p = (p, refl)
  Returns-done (panic h) P p = p

  pub refresh_candidates-Reached :
      (ep : EdgeProxy F) (service : String) (h k : History)
      → (writes k ≡ writes h) × Reached env ep
      → Returns (refresh_candidates env ep service k) (λ p j. (writes j ≡ writes h) × Reached env p)
  refresh_candidates-Reached ep service h k (quiet, reached) =
      Returns_mono (refresh_candidates env ep service k) _ _
        (Returns-done (refresh_candidates env ep service k) _
          (refresh_candidates-IsRefreshed env ep service k))
        (λ p j ((same, refreshed), e). (same ∙ quiet, refreshed_at ep p service k j reached e))

  pub refresh_if-Reached :
      (wanted : Bool) (ep : EdgeProxy F) (service : String) (h k : History)
      → (writes k ≡ writes h) × Reached env ep
      → Returns (refresh_if wanted service ep k) (λ p j. (writes j ≡ writes h) × Reached env p)
  unfolding refresh_if
  refresh_if-Reached true ep service h k i = refresh_candidates-Reached ep service h k i
  refresh_if-Reached false ep service h k i = i

  pub refresh_all-Reached :
      (ep : EdgeProxy F) (h k : History)
      → (writes k ≡ writes h) × Reached env ep
      → Returns (refresh_all env ep k) (λ p j. (writes j ≡ writes h) × Reached env p)
  unfolding refresh_all
  refresh_all-Reached ep h k i =
      loop-Returns (λ (e : String × Bool) p. refresh_candidates env p e.0)
        (λ p j. (writes j ≡ writes h) × Reached env p) allowed_services
        (λ (service, b) m p j r. refresh_candidates-Reached p service h j r) ep k i

  pub handle_invalidate-Reached :
      (ep : EdgeProxy F) (service : String)
      → Reached env ep
      → Reached env (handle_invalidate ep service).1
  unfolding handle_invalidate
  handle_invalidate-Reached ep service reached = elim (Bool-cases (service == "")) [
    | inl empty ↦ rw empty reached
    | inr named ↦ rw named (invalidated ep service reached)
  ]

  handle-IsServing :
      (event : Event) (s : Server F) (h k : History)
      → IsServing h s k
      → Returns (handle event s k) (IsServing h)
  unfolding handle
  handle-IsServing ticked s h k i =
      Returns-and_then (refresh_all env s.proxy k) _ (λ p j. (writes j ≡ writes h) × Reached env p)
        (IsServing h) (refresh_all-Reached s.proxy h k i) (λ p j r. r)
  handle-IsServing (asked r) s h k (quiet, reached) =
      Returns-and_then (preprocess_request env s.proxy r k) _
        (λ reply j. (writes j ≡ writes k) × IsReply env s.proxy r reply) (IsServing h)
        (preprocess_request-IsReply env s.proxy r k reached)
        (λ reply j (same, is). (same ∙ quiet, reached))
  handle-IsServing (invalidate service) s h k (quiet, reached) =
      (quiet, handle_invalidate-Reached s.proxy service reached)
  handle-IsServing (failed e service) s h k i =
      Returns-and_then (refresh_if (handle_error e service).1 service s.proxy k) _
        (λ p j. (writes j ≡ writes h) × Reached env p) (IsServing h)
        (refresh_if-Reached (handle_error e service).1 s.proxy service h k i) (λ p j r. r)

  pub handle-IsAnswer :
      (r : Request) (s : Server F) (k : History)
      → Reached env s.proxy
      → Returns (handle (asked r) s k) (IsAnswer s r k)
  unfolding handle
  handle-IsAnswer r s k reached =
      Returns-and_then (preprocess_request env s.proxy r k) _
        (λ reply j. (writes j ≡ writes k) × IsReply env s.proxy r reply) (IsAnswer s r k)
        (preprocess_request-IsReply env s.proxy r k reached)
        (λ reply j (same, is). (reply, refl, same, is))

  -- From a state that the proxy reaches, over any sequence of ticks, requests, invalidations and
  -- failures of requests, and with any answers to its calls, the proxy never panics, changes no
  -- cluster and stays in the states that it reaches. A request that comes then gets one reply, the
  -- right one for the proxy as it then is: 400, 403 or 500 for its cause, and otherwise a candidate
  -- of the requested service.
  pub run-IsServing :
      (before : List Event) (r : Request) (ep : EdgeProxy F) (h : History)
      → Reached env ep
      → Returns (run before ep h) (λ s k.
        (writes k ≡ writes h)
        × Reached env s.proxy
        × Returns (handle (asked r) s k) (IsAnswer s r k))
  unfolding run
  run-IsServing before r ep h reached =
      Returns_mono (run before ep h) (IsServing h) _
        (loop-Returns handle (IsServing h) before (λ event m s k i. handle-IsServing event s h k i)
          (record { proxy = ep; replies = [] }) h (refl, reached))
        (λ s k (quiet, still). (quiet, still, handle-IsAnswer r s k still))
