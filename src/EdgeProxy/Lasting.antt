-- ===== src/EdgeProxy/Lasting.antt =====
-- A service with candidates keeps some: refreshes that fail and invalidations do not take them away.
use proxima_scheduler.Prelude.{
  String, Bool, true, false, ◌≡◌, ◌≢◌, ◌⊎◌, inl, inr, refl, sym, ◌∙◌, subst, some, List, [], ◌∷◌,
  ◌==◌, string_eq, Bool-cases, Option-cases, arith,
}
use proxima_scheduler.Map.{lookup-insert}
use proxima_scheduler.Map
use proxima_scheduler.Float.{Float}
use proxima_scheduler.Effect.{Env, History, ok, err, no_candidates, loop}
use proxima_scheduler.Effect.Posts.{
  Returns, Returns_mono, Returns_both, Returns-and_then, loop-Returns, writes,
}
use proxima_scheduler.EdgeProxy.{
  EdgeProxy, ForwardTarget, CachedForwardCandidates, allowed_services, is_service_allowed,
  invalidate_cache,
}
use proxima_scheduler.EdgeProxy.Choosing.{get_best_pod, best_of}
use proxima_scheduler.EdgeProxy.Paths.{service_of}
use proxima_scheduler.EdgeProxy.Refreshing.{fresh_candidates, refresh_candidates, refresh_all}
use proxima_scheduler.EdgeProxy.Refreshed.{IsRefreshed, refresh_candidates-IsRefreshed}
use proxima_scheduler.EdgeProxy.Requests.{
  Request, Context, Reply, serve, preprocess_request, handle_error, handle_invalidate,
}
use proxima_scheduler.EdgeProxy.States.{Reached}
use proxima_scheduler.EdgeProxy.Serving.{IsReply, preprocess_request-IsReply}
use proxima_scheduler.EdgeProxy.Steady.{IsSteady, get_best_pod-refresh_candidates}
use proxima_scheduler.EdgeProxy.Running.{
  Event, ticked, asked, invalidate, failed, Server, refresh_if, handle, run, handle-IsAnswer,
  refresh_candidates-Reached, handle_invalidate-Reached,
}

module _ {F : Type 0} ⦃fl : Float F⦄ (env : Env F) (service : String) where
  abbrev pub IsStocked : EdgeProxy F → Type 0
  IsStocked ep = (c : CachedForwardCandidates F) × (Map.lookup service ep.store ≡ some c)

  stays-IsStocked :
      (ep p : EdgeProxy F) (other : String)
      → IsStocked ep
      → IsRefreshed env ep other p
      → IsStocked p
  stays-IsStocked ep p other (c, known) (inl (ts, filled, offered, e)) =
      subst IsStocked (sym e) (elim (Bool-cases (other == service)) [
        | inl same ↦ (
          fresh_candidates env ts,
          lookup-insert other service (fresh_candidates env ts) ep.store ∙ rw same refl,
        )
        | inr apart ↦
            (c, lookup-insert other service (fresh_candidates env ts) ep.store ∙ rw apart known)
      ])
  stays-IsStocked ep p other (c, known) (inr (cached, e)) = subst IsStocked (sym e) (c, known)

  refresh-IsStocked :
      (ep : EdgeProxy F) (other : String) (h : History)
      → IsStocked ep
      → Returns (refresh_candidates env ep other h) (λ p k. IsStocked p)
  refresh-IsStocked ep other h stocked =
      Returns_mono (refresh_candidates env ep other h) _ _
        (refresh_candidates-IsRefreshed env ep other h)
        (λ p k (quiet, refreshed). stays-IsStocked ep p other stocked refreshed)

  -- The reply to a request for the service is a target.
  abbrev pub IsAnswered : Request × Reply → Type 0
  IsAnswered (r, reply) =
      (service_of r.path ≢ some service) ⊎ ((q : Request) × (ctx : Context) × (reply ≡ serve q ctx))

  reply-IsAnswered :
      (ep : EdgeProxy F) (r : Request) (reply : Reply)
      → is_service_allowed service ≡ true
      → IsStocked ep
      → IsReply env ep r reply
      → IsAnswered (r, reply)
  reply-IsAnswered ep r reply allowed (c, known) is = elim is [
    | inl (invalid, e) ↦ inl (λ named. cc)
    | inr (other, named, inl (refused, e)) ↦ inl (λ same. cc)
    | inr (other, named, inr (fine, inl (missing, e))) ↦ inl (λ same. cc)
    | inr (other, named, inr (fine, inr (t, start, offered, e))) ↦ inr (_, _, e)
  ]

  abbrev IsLasting : Server F → History → Type 0
  IsLasting s k = Reached env s.proxy × IsStocked s.proxy

  -- The proxy is in a state that it reaches, with candidates for the service.
  abbrev IsReady : EdgeProxy F → History → Type 0
  IsReady p k = Reached env p × IsStocked p

  refresh-IsReady :
      (ep : EdgeProxy F) (other : String) (h : History)
      → IsReady ep h
      → Returns (refresh_candidates env ep other h) IsReady
  refresh-IsReady ep other h (reached, stocked) =
      Returns_mono (refresh_candidates env ep other h) _ IsReady
        (Returns_both (refresh_candidates env ep other h) _ _
          (refresh_candidates-Reached env ep other h h (refl, reached))
          (refresh-IsStocked ep other h stocked))
        (λ p k ((quiet, r), stock). (r, stock))

  refresh_all-IsReady :
      (ep : EdgeProxy F) (h : History) → IsReady ep h → Returns (refresh_all env ep h) IsReady
  unfolding refresh_all
  refresh_all-IsReady ep h i =
      loop-Returns (λ (e : String × Bool) p. refresh_candidates env p e.0) IsReady allowed_services
        (λ (other, b) m p j r. refresh-IsReady p other j r) ep h i

  refresh_if-IsReady :
      (wanted : Bool) (ep : EdgeProxy F) (other : String) (h : History)
      → IsReady ep h
      → Returns (refresh_if env wanted other ep h) IsReady
  unfolding refresh_if
  refresh_if-IsReady true ep other h i = refresh-IsReady ep other h i
  refresh_if-IsReady false ep other h i = i

  handle_invalidate-IsReady :
      (ep : EdgeProxy F) (other : String) (h : History)
      → IsReady ep h
      → IsReady (handle_invalidate ep other).1 h
  unfolding handle_invalidate invalidate_cache
  handle_invalidate-IsReady ep other h (reached, stocked) = (
    handle_invalidate-Reached env ep other reached,
    elim (Bool-cases (other == "")) [ inl empty ↦ rw empty stocked | inr named ↦ rw named stocked ],
  )

  handle-IsLasting :
      (event : Event) (s : Server F) (h : History)
      → IsLasting s h
      → Returns (handle env event s h) IsLasting
  unfolding handle
  handle-IsLasting ticked s h i =
      Returns-and_then (refresh_all env s.proxy h) _ IsReady IsLasting
        (refresh_all-IsReady s.proxy h i) (λ p k ready. ready)
  handle-IsLasting (asked r) s h i =
      Returns-and_then (preprocess_request env s.proxy r h) _
        (λ reply k. (writes k ≡ writes h) × IsReply env s.proxy r reply) IsLasting
        (preprocess_request-IsReply env s.proxy r h i.0) (λ reply k is. i)
  handle-IsLasting (invalidate other) s h i = handle_invalidate-IsReady s.proxy other h i
  handle-IsLasting (failed e other) s h i =
      Returns-and_then (refresh_if env (handle_error e other).1 other s.proxy h) _ IsReady IsLasting
        (refresh_if-IsReady (handle_error e other).1 s.proxy other h i) (λ p k ready. ready)

  -- A service whose requests get a target has candidates.
  found-IsStocked :
      (p : EdgeProxy F) (k : History)
      → Returns (get_best_pod env p service k) (λ r j. (target : ForwardTarget) × (r ≡ ok target))
      → IsStocked p
  unfolding get_best_pod best_of
  found-IsStocked p k found = elim (Option-cases (Map.lookup service p.store)) [
    | inr (c, known) ↦ (c, known)
    | inl missing ↦ absurd (none_found (rw missing at found))
  ]
    where
      none_found : (target : ForwardTarget) × (err no_candidates ≡ ok target) → ⊥
      none_found (target, e) = cc

  allowed-name : is_service_allowed service ≡ true → "test-flask-service" ≡ service
  unfolding is_service_allowed Map.has Map.lookup
  allowed-name allowed = ground (arith, string_eq.equals_iff "test-flask-service" service)

  refreshed-IsReady :
      (ep : EdgeProxy F) (h : History)
      → Reached env ep
      → IsSteady env ep service
      → Returns (refresh_candidates env ep service h) IsReady
  refreshed-IsReady ep h reached steady =
      Returns_mono (refresh_candidates env ep service h) _ IsReady
        (Returns_both (refresh_candidates env ep service h) _ _
          (refresh_candidates-Reached env ep service h h (refl, reached))
          (get_best_pod-refresh_candidates env ep service steady h))
        (λ p k ((quiet, r), found). (r, found-IsStocked p k found))

  first-IsReady :
      (ep : EdgeProxy F) (h : History)
      → is_service_allowed service ≡ true
      → Reached env ep
      → IsSteady env ep service
      → Returns (refresh_all env ep h) IsReady
  unfolding refresh_all loop
  first-IsReady ep h allowed reached steady =
      Returns-and_then (refresh_candidates env ep "test-flask-service" h) _ IsReady IsReady
        (subst (λ name. Returns (refresh_candidates env ep name h) IsReady)
          (sym (allowed-name allowed)) (refreshed-IsReady ep h reached steady))
        (λ p k r. r)

  -- The request gets a reply, and where it names the service, the reply is a target.
  abbrev pub IsForwarded : Server F → Request → Server F → History → Type 0
  IsForwarded s r s' k =
      (reply : Reply) × (s' ≡ record s { replies = (r, reply) ∷ s.replies }) × IsAnswered (r, reply)

  asked-IsForwarded :
      (r : Request) (s : Server F) (k : History)
      → is_service_allowed service ≡ true
      → IsLasting s k
      → Returns (handle env (asked r) s k) (IsForwarded s r)
  asked-IsForwarded r s k allowed (reached, stocked) =
      Returns_mono (handle env (asked r) s k) _ (IsForwarded s r)
        (handle-IsAnswer env r s k reached)
        (λ s' j (reply, e, quiet, is).
          (reply, e, reply-IsAnswered s.proxy r reply allowed stocked is))

  pub run-IsAnswered :
      (before : List Event) (r : Request) (ep : EdgeProxy F) (h : History)
      → is_service_allowed service ≡ true
      → Reached env ep
      → IsSteady env ep service
      → Returns
          (run env (ticked ∷ before) ep h)
          (λ s k. Returns (handle env (asked r) s k) (IsForwarded s r))
  unfolding run loop handle
  run-IsAnswered before r ep h allowed reached steady =
      Returns-and_then (handle env ticked (record { proxy = ep; replies = [] }) h) _ IsLasting
        (λ s k. Returns (handle env (asked r) s k) (IsForwarded s r))
        (Returns-and_then (refresh_all env ep h) _ IsReady IsLasting
          (first-IsReady ep h allowed reached steady) (λ p k ready. ready))
        (λ s k i.
          Returns_mono (loop (handle env) before s k) IsLasting
            (λ s k. Returns (handle env (asked r) s k) (IsForwarded s r))
            (loop-Returns (handle env) IsLasting before
              (λ event m t j lasting. handle-IsLasting event t j lasting) s k i)
            (λ t j lasting. asked-IsForwarded r t j allowed lasting))
