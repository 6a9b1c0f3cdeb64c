-- ===== src/EdgeProxy/Steady.antt =====
-- A service that can be served gets served: where the API server and the database keep listing one
-- pod of the proxy's own cluster, a refresh finds a candidate, and the next request is forwarded.
use proxima_scheduler.Prelude.{
  String, false, ◌≡◌, ◌≢◌, inl, inr, refl, ap, ◌∙◌, Option, none, some, List, [], ◌∷◌, ◌++◌, In,
  Bool-cases, Option-cases, In-append_left, In-append_right, string_eq,
}
use proxima_scheduler.Kube.{Clientset, Pod, label_is}
use proxima_scheduler.Map.{Map, lookup-insert_self}
use proxima_scheduler.Map
use proxima_scheduler.Float.{Float}
use proxima_scheduler.Effect.{
  Env, History, Result, Result-cases, ok, loop, list_pods, get_average_latencies_for_edge,
  database_read,
}
use proxima_scheduler.Effect.Posts.{Returns, Returns_both, Returns-and_then, loop_reaches, writes}
use proxima_scheduler.EdgeProxy.{EdgeProxy, K8sPodInstance, ForwardTarget, WeightedForwardTarget}
use proxima_scheduler.EdgeProxy.Fit.{IsFit, IsFit-serving}
use proxima_scheduler.EdgeProxy.Refreshing.{
  serving, instances, get_pods_for_service, add_pods, forward_target, offer, weigh_at, weigh,
  answer_of, weigh_all, fresh_candidates, refreshed, refresh_candidates,
}
use proxima_scheduler.EdgeProxy.Choosing.{weighted_random_select, best_among, best_of, get_best_pod}
use proxima_scheduler.EdgeProxy.Offered.{
  AllListed, IsListed, pods-AllListed, add_pods-AllListed, serving-cluster,
}
use proxima_scheduler.EdgeProxy.Weighed.{AllOffered, forward_target-IsReached, weigh-AllOffered}
use proxima_scheduler.EdgeProxy.Serving.{weighted_random_select-IsTargetIn}

In-instances :
    (cluster : String) (pods : List Pod) (pod : Pod) (i : K8sPodInstance)
    → In pod pods
    → serving cluster pod ≡ some i
    → In i (instances cluster pods)
unfolding instances
In-instances cluster [] pod i m fit = absurd m
In-instances cluster (p ∷ pods) pod i (inl same) fit =
    rw (instances, ap (serving cluster) same ∙ fit) (inl refl)
In-instances cluster (p ∷ pods) pod i (inr later) fit = elim (Option-cases (serving cluster p)) [
  | inl unfit ↦ rw (instances, unfit) (In-instances cluster pods pod i later fit)
  | inr (j, other) ↦ rw (instances, other) (inr (In-instances cluster pods pod i later fit))
]

-- One pod of the proxy's own cluster that every answer lists, on a node with a known latency.
pub record IsSteady {F : Type 0} ⦃fl : Float F⦄ (env : Env F) (ep : EdgeProxy F) (service : String)
    : Type 0 where
  pub clientset : Clientset
  pub local : In ("local", clientset) ep.clientsets
  pub listed : List Pod
  pub listing :
      (h : History) → env.pods h clientset ep.namespace (label_is "app" service) ≡ ok listed
  pub pod : Pod
  pub pod_listed : In pod listed
  pub best : K8sPodInstance
  pub can_serve : IsFit "local" pod best
  pub latencies : Map String F
  pub reading : (h : History) → env.latencies_for_edge h ep.external_node_ip ≡ ok latencies
  pub latency : F
  pub known : Map.lookup best.node_ip latencies ≡ some latency
  pub positive : fl.le latency (fl.literal 0 0) ≡ false

module _ {F : Type 0} ⦃fl : Float F⦄ (env : Env F) (ep : EdgeProxy F) (service : String)
    (steady : IsSteady env ep service) where
  abbrev Listed : History → List K8sPodInstance → History → Type 0
  Listed h₀ f k = (writes k ≡ writes h₀) × AllListed env ep service f

  adds-best :
      (found : List K8sPodInstance) (h : History)
      → Returns
          (add_pods env ep service ("local", steady.clientset) found h)
          (λ f k. In steady.best f)
  unfolding add_pods get_pods_for_service list_pods
  adds-best found h = rw (steady.listing h) (
      In-append_right steady.best found (instances "local" steady.listed) (
        In-instances "local" steady.listed steady.pod steady.best steady.pod_listed
          (IsFit-serving "local" steady.pod steady.best steady.can_serve)))

  keeps-best :
      (cluster : String) (c : Clientset) (found : List K8sPodInstance) (h : History)
      → In steady.best found
      → Returns (add_pods env ep service (cluster, c) found h) (λ f k. In steady.best f)
  unfolding add_pods get_pods_for_service list_pods
  keeps-best cluster c found h m =
      elim (Result-cases (env.pods h c ep.namespace (label_is "app" service))) [
        | inl (e, refused) ↦ rw refused m
        | inr (pods, answered) ↦
            rw answered (In-append_left steady.best found (instances cluster pods) m)
      ]

  finds-best :
      (h : History)
      → Returns (loop (add_pods env ep service) ep.clientsets [] h) (λ f k. In steady.best f)
  finds-best h =
      loop_reaches (add_pods env ep service) (Listed h) (λ f k. In steady.best f) ep.clientsets
        ("local", steady.clientset) steady.local
        (λ (cluster, c) m f k i. add_pods-AllListed env ep service cluster c f h k m i)
        (λ f k i. adds-best f k) (λ (cluster, c) m f k i. keeps-best cluster c f k) [] h
        (refl, λ i n. absurd n)

  here : steady.best.cluster ≡ "local"
  here =
      serving-cluster "local" steady.pod steady.best
        (IsFit-serving "local" steady.pod steady.best steady.can_serve)

  append-filled : {A : Type 0} (xs : List A) (x : A) → (xs ++ x ∷ []) ≢ []
  append-filled [] x e = cc
  append-filled (y ∷ xs) x e = cc

  offers-best :
      (ts : List (WeightedForwardTarget F)) (h : History)
      → Returns (weigh env ep steady.latencies steady.best ts h) (λ us k. us ≢ [])
  unfolding weigh weigh_at forward_target
  offers-best ts h = rw (steady.known, steady.positive, here) (append-filled ts _)

  offer_filled :
      (latency : F) (ts : List (WeightedForwardTarget F)) (o : Option ForwardTarget)
      → ts ≢ []
      → offer env latency ts o ≢ []
  offer_filled latency ts none filled = filled
  offer_filled latency ts (some target) filled = append-filled ts _

  at_filled :
      (i : K8sPodInstance) (ts : List (WeightedForwardTarget F)) (h : History) (o : Option F)
      → IsListed env ep service i
      → ts ≢ []
      → Returns (weigh_at env ep i ts o h) (λ us k. us ≢ [])
  unfolding weigh_at
  at_filled i ts h none l filled = filled
  at_filled i ts h (some latency) l filled = elim (Bool-cases (fl.le latency (fl.literal 0 0))) [
    | inl bad ↦ rw bad filled
    | inr good ↦ rw good (
        Returns-and_then (forward_target env ep i h) _ _ (λ us k. us ≢ [])
          (forward_target-IsReached env ep service i h l)
          (λ o k is. offer_filled latency ts o filled))
  ]

  keeps_filled :
      (i : K8sPodInstance) (ts : List (WeightedForwardTarget F)) (h : History)
      → IsListed env ep service i
      → ts ≢ []
      → Returns (weigh env ep steady.latencies i ts h) (λ us k. us ≢ [])
  unfolding weigh
  keeps_filled i ts h l filled = at_filled i ts h (Map.lookup i.node_ip steady.latencies) l filled

  abbrev Answered : Result (List (WeightedForwardTarget F)) → History → Type 0
  Answered r k =
      (t : WeightedForwardTarget F) × (ts : List (WeightedForwardTarget F)) × (r ≡ ok (t ∷ ts))

  answer_filled :
      (ts : List (WeightedForwardTarget F)) (k : History) → ts ≢ [] → Answered (answer_of env ts) k
  answer_filled [] k filled = absurd (filled refl)
  answer_filled (t ∷ ts) k filled = (t, ts, refl)

  weighs-best :
      (pods : List K8sPodInstance) (h : History)
      → AllListed env ep service pods
      → In steady.best pods
      → Returns (weigh_all env ep pods h) Answered
  unfolding weigh_all get_average_latencies_for_edge writes
  weighs-best [] h all m = absurd m
  weighs-best (i ∷ pods) h all m = rw (steady.reading h) (
      Returns-and_then (loop (weigh env ep steady.latencies) (i ∷ pods) [] (database_read ∷ h)) _
        (λ ts k. ts ≢ []) Answered
        (loop_reaches (weigh env ep steady.latencies)
          (λ ts k. (writes k ≡ writes h) × AllOffered env ep service ts) (λ ts k. ts ≢ [])
          (i ∷ pods) steady.best m
          (λ j n ts k b.
            weigh-AllOffered env ep service steady.latencies h (steady.reading h) j ts h k (all j n)
              b)
          (λ ts k b. offers-best ts k) (λ j n ts k b filled. keeps_filled j ts k (all j n) filled)
          [] (database_read ∷ h) (refl, λ t n. absurd n))
        (λ ts k filled. answer_filled ts k filled))

  serves :
      (r : Result (List (WeightedForwardTarget F))) (j : History)
      → Answered r j
      → Returns
          (get_best_pod env (refreshed env ep service r) service j)
          (λ r k. (target : ForwardTarget) × (r ≡ ok target))
  unfolding get_best_pod best_of best_among refreshed
  serves r j (t, ts, e) =
      rw (e, lookup-insert_self service (fresh_candidates env (t ∷ ts)) ep.store)
        (Returns-and_then (weighted_random_select env (t ∷ ts) j) _ _
          (λ r k. (target : ForwardTarget) × (r ≡ ok target))
          (weighted_random_select-IsTargetIn env t ts j) (λ target k is. (target, refl)))

  -- Where every listing of the proxy's own cluster has a pod of the service that can serve, and
  -- every reading of the database a positive latency for its node, the next request for the service
  -- after a refresh gets a target, however the other clusters answer.
  pub get_best_pod-refresh_candidates :
      (h : History)
      → Returns (refresh_candidates env ep service h) (λ p k.
        Returns (get_best_pod env p service k) (λ r j. (target : ForwardTarget) × (r ≡ ok target)))
  unfolding refresh_candidates
  get_best_pod-refresh_candidates h =
      Returns-and_then (loop (add_pods env ep service) ep.clientsets [] h) _
        (λ f k. (Listed h f k) × In steady.best f) _
        (Returns_both (loop (add_pods env ep service) ep.clientsets [] h) (Listed h)
          (λ f k. In steady.best f) (pods-AllListed env ep service h) (finds-best h))
        (λ pods k (all, m).
          Returns-and_then (weigh_all env ep pods k) _ Answered _ (weighs-best pods k all.1 m)
            (λ r j answered. serves r j answered))
