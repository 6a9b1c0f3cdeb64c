-- ===== src/EdgeProxy/Weighed.antt =====
-- refreshCandidates: the targets that its second loop makes of the listed pods.
use mathlib.Core.Option.{some-injective}
use proxima_scheduler.Prelude.{
  String, false, ◌≡◌, ◌≢◌, inl, inr, refl, sym, ◌∙◌, subst, Option, none, some, List, [], ◌∷◌, ◌==◌,
  string_eq, In, In-append_cases, Bool-cases, beq_ne, nat_eq,
}
use proxima_scheduler.Kube.{Clientset, Service, ServiceType, node_port, other_service, label_is}
use proxima_scheduler.Map.{Map, In-lookup}
use proxima_scheduler.Map
use proxima_scheduler.Float.{Float}
use proxima_scheduler.Effect.{
  Env, History, Result, Result-cases, ok, err, done, list_nodes, get_service, service_read,
}
use proxima_scheduler.Effect.Posts.{Returns, Returns-and_then, writes}
use proxima_scheduler.Nodes.{find_edge_proxy_node_port_address, first_node_port}
use proxima_scheduler.EdgeProxy.{EdgeProxy, K8sPodInstance, ForwardTarget, WeightedForwardTarget}
use proxima_scheduler.EdgeProxy.Refreshing.{
  proxied, forward_target, weighted, offer, weigh_at, weigh,
}
use proxima_scheduler.EdgeProxy.Offered.{IsProxyOf, IsReached, IsListed, IsOffered}

module _ {F : Type 0} ⦃fl : Float F⦄ (env : Env F) (ep : EdgeProxy F) (service : String) where
  -- What the search for the proxy of a cluster answers.
  abbrev IsFound : String → Result String → Type 0
  IsFound cluster (err e) = Unit {0}
  IsFound cluster (ok url) = IsProxyOf env ep.clientsets cluster url

  address-of_type :
      (cluster : String) (c : Clientset) (h : History) (found : Service) (t : ServiceType)
      → Map.lookup cluster ep.clientsets ≡ some c
      → env.service h c "proxima-scheduler" "edgeproxy-service" ≡ ok found
      → found.type ≡ t
      → Returns
          (find_edge_proxy_node_port_address env (some c) "proxima-scheduler" "edgeproxy-service" h)
          (λ r k. (writes k ≡ writes h) × IsFound cluster r)
  unfolding find_edge_proxy_node_port_address get_service list_nodes writes
  address-of_type cluster c h found other_service known answered is = rw (answered, is) (refl, tt)
  address-of_type cluster c h found node_port known answered is =
      let k = service_read c "proxima-scheduler" "edgeproxy-service" ∷ h in
      elim (Bool-cases (first_node_port found.node_ports == 0)) [
        | inl missing ↦ rw (answered, is, missing) (refl, tt)
        | inr port ↦ elim (Result-cases (env.nodes k c (label_is "edge" "true"))) [
          | inl (e, refused) ↦ rw (answered, is, port, refused) (refl, tt)
          | inr ([], listed) ↦ rw (answered, is, port, listed) (refl, tt)
          | inr (n ∷ ns, listed) ↦
              rw (answered, is, port, listed)
                (
                  refl,
                  record {
                    clientset = c;
                    known = known;
                    asked = k;
                    node = n;
                    others = ns;
                    answered = listed;
                    named = refl;
                  },
                )
        ]
      ]

  address-IsFound :
      (cluster : String) (c : Clientset) (h : History)
      → Map.lookup cluster ep.clientsets ≡ some c
      → Returns
          (find_edge_proxy_node_port_address env (some c) "proxima-scheduler" "edgeproxy-service" h)
          (λ r k. (writes k ≡ writes h) × IsFound cluster r)
  unfolding find_edge_proxy_node_port_address get_service writes
  address-IsFound cluster c h known =
      elim (Result-cases (env.service h c "proxima-scheduler" "edgeproxy-service")) [
        | inl (e, refused) ↦ rw refused (refl, tt)
        | inr (found, answered) ↦ address-of_type cluster c h found found.type known answered refl
      ]

  abbrev IsTarget : K8sPodInstance → Option ForwardTarget → Type 0
  IsTarget i t = (u : ForwardTarget) → t ≡ some u → (u.pod ≡ i) × IsReached env ep.clientsets u

  found-IsTarget :
      (i : K8sPodInstance) (v : ForwardTarget)
      → v.pod ≡ i
      → IsReached env ep.clientsets v
      → IsTarget i (some v)
  found-IsTarget i v same reached u e =
      subst (λ w. (w.pod ≡ i) × IsReached env ep.clientsets w) (some-injective v u e)
        (same, reached)

  none-IsTarget : (i : K8sPodInstance) → IsTarget i none
  none-IsTarget i u e = cc

  reached-IsTarget :
      (i : K8sPodInstance) (h k : History) (r : Result String)
      → (i.cluster ≢ "local")
      → writes k ≡ writes h
      → IsFound i.cluster r
      → Returns (proxied env i r k) (λ t k'. (writes k' ≡ writes h) × IsTarget i t)
  reached-IsTarget i h k (err e) away quiet f = (quiet, none-IsTarget i)
  reached-IsTarget i h k (ok url) away quiet f = elim (Bool-cases (url == "")) [
    | inl empty ↦ rw empty (quiet, none-IsTarget i)
    | inr given ↦
        rw given (
          quiet,
          found-IsTarget i _ refl (inr (away, refl, (url, f, (beq_ne url "").0 given, refl))),
        )
  ]

  -- What forward_target answers for a listed instance.
  pub forward_target-IsReached :
      (i : K8sPodInstance) (h : History)
      → IsListed env ep service i
      → Returns (forward_target env ep i h) (λ t k. (writes k ≡ writes h) × IsTarget i t)
  unfolding forward_target
  forward_target-IsReached i h l = elim (Bool-cases (i.cluster == "local")) [
    | inl here ↦ rw here (
      refl,
      found-IsTarget i _ refl (inl ((string_eq.equals_iff i.cluster "local").0 here, refl, refl)),
    )
    | inr there ↦
        let (c, known) = In-lookup i.cluster l.clientset ep.clientsets l.one_of in
        rw (there, known)
          (Returns-and_then
            (find_edge_proxy_node_port_address env (some c) "proxima-scheduler" "edgeproxy-service"
              h)
            _ (λ r k. (writes k ≡ writes h) × IsFound i.cluster r)
            (λ t k. (writes k ≡ writes h) × IsTarget i t) (address-IsFound i.cluster c h known)
            (λ r k (quiet, f).
              reached-IsTarget i h k r ((beq_ne i.cluster "local").0 there) quiet f))
  ]

  abbrev pub AllOffered : List (WeightedForwardTarget F) → Type 0
  AllOffered ts = (t : WeightedForwardTarget F) → In t ts → IsOffered env ep service t

  with_target :
      (targets : List (WeightedForwardTarget F)) (i : K8sPodInstance) (asked : History)
      (latencies : Map String F) (latency : F) (h k : History) (o : Option ForwardTarget)
      → IsListed env ep service i
      → env.latencies_for_edge asked ep.external_node_ip ≡ ok latencies
      → Map.lookup i.node_ip latencies ≡ some latency
      → fl.le latency (fl.literal 0 0) ≡ false
      → AllOffered targets
      → (writes k ≡ writes h) × IsTarget i o
      → Returns
          (done (offer env latency targets o) k)
          (λ ts k'. (writes k' ≡ writes h) × AllOffered ts)
  unfolding weighted
  with_target targets i asked latencies latency h k none l answered known positive all (quiet, is) =
      (quiet, all)
  with_target targets i asked latencies latency h k (some target) l answered known positive all
        (quiet, is) =
      (
        quiet,
        λ t n. elim (In-append_cases t targets (weighted env target latency ∷ []) n) [
          | inl old ↦ all t old
          | inr (inl new) ↦ subst (IsOffered env ep service) new offered
          | inr (inr never) ↦ absurd never
        ],
      )
    where
      same : target.pod ≡ i
      same = (is target refl).0

      offered : IsOffered env ep service (weighted env target latency)
      offered = record {
        is_pod = subst (IsListed env ep service) (sym same) l;
        reached = (is target refl).1;
        asked = asked;
        latencies = latencies;
        answered = answered;
        latency = latency;
        known =
            subst (λ (j : K8sPodInstance). Map.lookup j.node_ip latencies ≡ some latency) (sym same)
              known;
        positive = positive;
        weight_is = refl;
      }

  at-AllOffered :
      (latencies : Map String F) (asked : History)
      → env.latencies_for_edge asked ep.external_node_ip ≡ ok latencies
      → (i : K8sPodInstance) (targets : List (WeightedForwardTarget F)) (h₀ h : History)
      → IsListed env ep service i
      → (writes h ≡ writes h₀) × AllOffered targets
      → (o : Option F) → Map.lookup i.node_ip latencies ≡ o
      → Returns (weigh_at env ep i targets o h) (λ ts k. (writes k ≡ writes h₀) × AllOffered ts)
  unfolding weigh_at
  at-AllOffered latencies asked answered i targets h₀ h l (quiet, all) none unknown = (quiet, all)
  at-AllOffered latencies asked answered i targets h₀ h l (quiet, all) (some latency) known =
      elim (Bool-cases (fl.le latency (fl.literal 0 0))) [
        | inl bad ↦ rw bad (quiet, all)
        | inr good ↦ rw good (
            Returns-and_then (forward_target env ep i h) _
              (λ t k. (writes k ≡ writes h) × IsTarget i t)
              (λ ts k. (writes k ≡ writes h₀) × AllOffered ts) (forward_target-IsReached i h l)
              (λ o k (q, is).
                with_target targets i asked latencies latency h₀ k o l answered known good all
                  (q ∙ quiet, is)))
      ]

  pub weigh-AllOffered :
      (latencies : Map String F) (asked : History)
      → env.latencies_for_edge asked ep.external_node_ip ≡ ok latencies
      → (i : K8sPodInstance) (targets : List (WeightedForwardTarget F)) (h₀ h : History)
      → IsListed env ep service i
      → (writes h ≡ writes h₀) × AllOffered targets
      → Returns
          (weigh env ep latencies i targets h)
          (λ ts k. (writes k ≡ writes h₀) × AllOffered ts)
  unfolding weigh
  weigh-AllOffered latencies asked answered i targets h₀ h l b =
      at-AllOffered latencies asked answered i targets h₀ h l b (Map.lookup i.node_ip latencies)
        refl
