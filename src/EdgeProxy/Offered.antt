-- ===== src/EdgeProxy/Offered.antt =====
-- refreshCandidates: where the pods and the targets that its two loops collect come from.
use proxima_scheduler.Prelude.{
  String, true, false, ◌≡◌, ◌≢◌, ◌⊎◌, inl, inr, refl, sym, ap, ◌∙◌, subst, some, List, [], ◌∷◌,
  string_eq, arith, In, In-append_cases, Option-cases,
}
use proxima_scheduler.Strings.{◌<>◌}
use proxima_scheduler.Decimal.{decimal}
use proxima_scheduler.Kube.{Clientset, Node, Pod, label_is}
use proxima_scheduler.Map.{Map, In-lookup}
use proxima_scheduler.Map
use proxima_scheduler.Float.{Float}
use proxima_scheduler.Effect.{Env, History, Result-cases, ok, loop, list_pods}
use proxima_scheduler.Effect.Posts.{Returns, loop-Returns, writes}
use proxima_scheduler.EdgeProxy.{EdgeProxy, K8sPodInstance, ForwardTarget, WeightedForwardTarget}
use proxima_scheduler.EdgeProxy.Fit.{IsFit, serving-IsFit}
use proxima_scheduler.EdgeProxy.Refreshing.{serving, instances, get_pods_for_service, add_pods}

-- Each instance is that of a pod that can serve.
instances-serving :
    (cluster : String) (pods : List Pod) (i : K8sPodInstance)
    → In i (instances cluster pods)
    → (pod : Pod) × In pod pods × (serving cluster pod ≡ some i)
unfolding instances
instances-serving cluster [] i n = absurd n
instances-serving cluster (pod ∷ pods) i n = elim (Option-cases (serving cluster pod)) [
  | inl unfit ↦
      let (p, m, e) = instances-serving cluster pods i (rw (instances, unfit) at n) in (p, inr m, e)
  | inr (j, fit) ↦ elim (rw (instances, fit) at n) [
    | inl same ↦ (pod, inl refl, fit ∙ ap some same)
    | inr later ↦ let (p, m, e) = instances-serving cluster pods i later in (p, inr m, e)
  ]
]

pub serving-cluster :
    (cluster : String) (pod : Pod) (i : K8sPodInstance)
    → serving cluster pod ≡ some i
    → i.cluster ≡ cluster
unfolding serving
serving-cluster cluster pod i e = ground arith

module _ {F : Type 0} (env : Env F) (clusters : Map String Clientset) where
  -- Where the proxy of a cluster is reached: the first of the edge nodes that the cluster lists.
  pub record IsProxyOf (cluster url : String) : Type 0 where
    pub clientset : Clientset
    pub known : Map.lookup cluster clusters ≡ some clientset
    pub asked : History
    pub node : Node
    pub others : List Node
    pub answered : env.nodes asked clientset (label_is "edge" "true") ≡ ok (node ∷ others)
    pub named : url ≡ node.name

  -- A pod of this cluster is reached at its own address, another one over its cluster's proxy.
  abbrev pub IsReached : ForwardTarget → Type 0
  IsReached t =
      ((t.pod.cluster ≡ "local")
        × (t.use_proxy ≡ false)
        × (t.forward_host ≡ (t.pod.pod_ip <> ":" <> decimal t.pod.port)))
      ⊎ ((t.pod.cluster ≢ "local")
          × (t.use_proxy ≡ true)
          × ((url : String) × IsProxyOf t.pod.cluster url
              × (url ≢ "")
              × (t.forward_host ≡ (url <> ":30080"))))

-- What the clusters and the database answered, from which a candidate is made.
module _ {F : Type 0} ⦃fl : Float F⦄ (env : Env F) (clusters : Map String Clientset)
    (namespace edge_ip service : String) where
  -- The instance is that of a pod of the service that one of the clusters listed, and that can serve.
  pub record IsPodOf (i : K8sPodInstance) : Type 0 where
    pub clientset : Clientset
    pub one_of : In (i.cluster, clientset) clusters
    pub asked : History
    pub listed : List Pod
    pub answered : env.pods asked clientset namespace (label_is "app" service) ≡ ok listed
    pub pod : Pod
    pub pod_listed : In pod listed
    pub can_serve : IsFit i.cluster pod i

  -- The candidate is such an instance, and its weight the inverse of a measured latency.
  pub record IsTargetOf (t : WeightedForwardTarget F) : Type 0 where
    pub is_pod : IsPodOf t.target.pod
    pub reached : IsReached env clusters t.target
    pub asked : History
    pub latencies : Map String F
    pub answered : env.latencies_for_edge asked edge_ip ≡ ok latencies
    pub latency : F
    pub known : Map.lookup t.target.pod.node_ip latencies ≡ some latency
    pub positive : fl.le latency (fl.literal 0 0) ≡ false
    pub weight_is : t.weight ≡ fl.div (fl.literal 1 0) latency

module _ {F : Type 0} ⦃fl : Float F⦄ (env : Env F) (ep : EdgeProxy F) (service : String) where
  abbrev pub IsListed : K8sPodInstance → Type 0
  IsListed i = IsPodOf env ep.clientsets ep.namespace ep.external_node_ip service i

  abbrev pub IsOffered : WeightedForwardTarget F → Type 0
  IsOffered t = IsTargetOf env ep.clientsets ep.namespace ep.external_node_ip service t

  abbrev pub AllListed : List K8sPodInstance → Type 0
  AllListed found = (i : K8sPodInstance) → In i found → IsListed i

  placed :
      (cluster : String) (c : Clientset) (h : History) (pods : List Pod) (i : K8sPodInstance)
      (pod : Pod)
      → In (cluster, c) ep.clientsets
      → env.pods h c ep.namespace (label_is "app" service) ≡ ok pods
      → In pod pods
      → serving cluster pod ≡ some i
      → IsListed i
  placed cluster c h pods i pod m answered there fit = record {
    clientset = c;
    one_of = subst (λ k. In {A = String × Clientset} (k, c) ep.clientsets) same m;
    asked = h;
    listed = pods;
    answered = answered;
    pod = pod;
    pod_listed = there;
    can_serve = serving-IsFit i.cluster pod i (subst (λ k. serving k pod ≡ some i) same fit);
  }
    where
      same : cluster ≡ i.cluster
      same = sym (serving-cluster cluster pod i fit)

  pub add_pods-AllListed :
      (cluster : String) (c : Clientset) (found : List K8sPodInstance) (h₀ h : History)
      → In (cluster, c) ep.clientsets
      → (writes h ≡ writes h₀) × AllListed found
      → Returns
          (add_pods env ep service (cluster, c) found h)
          (λ f k. (writes k ≡ writes h₀) × AllListed f)
  unfolding add_pods get_pods_for_service list_pods writes
  add_pods-AllListed cluster c found h₀ h m (quiet, all) =
      elim (Result-cases (env.pods h c ep.namespace (label_is "app" service))) [
        | inl (e, refused) ↦ rw refused (quiet, all)
        | inr (pods, answered) ↦ rw answered (
          quiet,
          λ i n. elim (In-append_cases i found (instances cluster pods) n) [
            | inl old ↦ all i old
            | inr new ↦
                let (pod, there, fit) = instances-serving cluster pods i new in
                placed cluster c h pods i pod m answered there fit
          ],
        )
      ]

  pub pods-AllListed :
      (h : History)
      → Returns
          (loop (add_pods env ep service) ep.clientsets [] h)
          (λ f k. (writes k ≡ writes h) × AllListed f)
  pods-AllListed h =
      loop-Returns (add_pods env ep service) (λ f k. (writes k ≡ writes h) × AllListed f)
        ep.clientsets (λ (cluster, c) m found k i. add_pods-AllListed cluster c found h k m i) [] h
        (refl, λ i n. absurd n)
