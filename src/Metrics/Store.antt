-- ===== src/Metrics/Store.antt =====
-- The table of metrics: what a request changes in it, and the invariant of all tables that the worker
-- reaches.
use proxima_scheduler.Prelude.{
  ◌≡◌, ◌≢◌, refl, sym, ap, subst, Option, some, none, [], ◌∷◌, String, ◌&&◌, ◌==◌, string_eq,
  if◌then◌else◌, Bool-cases, Option-cases, inl, inr, In,
}
use proxima_scheduler.Prelude.Int.{ℤ}
use proxima_scheduler.Map.{Map, lookup-insert, get_or-insert, lookup-In, In-insert}
use proxima_scheduler.Map
use proxima_scheduler.Metrics.{
  MetricsData, ProxyPodMetrics, ServiceMetrics, catch_up, count_request, known_or_fresh,
  process_data, flush_services, next_bucket,
}
use proxima_scheduler.Metrics.Flush.{flush_pods_iff, flush_services_iff}
use proxima_scheduler.Metrics.Ring.{
  IsRing, fresh-IsRing, catch_up-IsRing, count_request-IsRing, next_bucket-IsRing,
}

-- The metrics of a pod of a service.
unfoldable pub entry : ServiceMetrics → String → String → Option ProxyPodMetrics
entry services service url = Map.lookup url (Map.get_or [] service services)

-- The metrics of a request's pod afterwards, from those before.
abbrev pub counted : ℤ → ℤ → ℤ → ℤ → ℤ → Option ProxyPodMetrics → ProxyPodMetrics
counted created bucket updated now latency before =
    count_request latency
      (catch_up now (record (known_or_fresh created bucket before) { last_updated = updated }))

-- A request changes the metrics of its own pod of its own service and of no other: they are brought
-- up to the current minute, those of a pod not seen before from empty buckets, and the request is
-- counted in the current bucket.
pub process_data-entry :
    (created bucket updated now : ℤ) (sample : MetricsData) (services : ServiceMetrics)
    (service url : String)
    → entry (process_data created bucket updated now sample services) service url ≡ (
        if sample.service_name == service && sample.pod_url == url
        then some (
            counted created bucket updated now sample.latency
              (entry services sample.service_name sample.pod_url))
        else entry services service url)
unfolding process_data entry
process_data-entry created bucket updated now sample services service url =
    let pods = Map.get_or [] sample.service_name services in
    let new = counted created bucket updated now sample.latency (Map.lookup sample.pod_url pods) in
    elim (Bool-cases (sample.service_name == service)) [
      | inl here ↦
          let same : Map.get_or [] sample.service_name services ≡ Map.get_or [] service services =
            ap (λ s. Map.get_or [] s services)
              ((string_eq.equals_iff sample.service_name service).0 here) in
          rw
            (
              get_or-insert [] sample.service_name service (Map.insert sample.pod_url new pods)
                  services,
              here,
              lookup-insert sample.pod_url url new pods,
            )
            (ap (λ q. if sample.pod_url == url then some new else Map.lookup url q) same)
      | inr there ↦
          rw
            (
              get_or-insert [] sample.service_name service (Map.insert sample.pod_url new pods)
                  services,
              there,
            )
            refl
    ]

-- In each table that the worker reaches, every pod has a ring, and every service a pod.
abbrev pub IsPods : Map String ProxyPodMetrics → Type 0
IsPods pods = (pods ≢ []) × ((url : String) (m : ProxyPodMetrics) → In (url, m) pods → IsRing m)

abbrev pub IsTable : ServiceMetrics → Type 0
IsTable services =
    (service : String) (pods : Map String ProxyPodMetrics)
    → In (service, pods) services
    → IsPods pods

known_or_fresh-IsRing :
    (created bucket : ℤ) (before : Option ProxyPodMetrics)
    → ((m : ProxyPodMetrics) → before ≡ some m → IsRing m)
    → IsRing (known_or_fresh created bucket before)
unfolding known_or_fresh
known_or_fresh-IsRing created bucket none ring = fresh-IsRing created bucket
known_or_fresh-IsRing created bucket (some m) ring = ring m refl

IsTable-get_or :
    (services : ServiceMetrics) (service url : String) (m : ProxyPodMetrics)
    → IsTable services
    → In (url, m) (Map.get_or [] service services)
    → IsRing m
unfolding Map.get_or
IsTable-get_or services service url m table n = elim (Option-cases (Map.lookup service services)) [
  | inl missing ↦ absurd (rw (Map.get_or, missing) at n)
  | inr (pods, found) ↦
      (table service pods (lookup-In service pods services found)).1 url m
        (rw (Map.get_or, found) at n)
]

insert_ne :
    (url : String) (m : ProxyPodMetrics) (pods : Map String ProxyPodMetrics)
    → Map.insert url m pods ≢ []
unfolding Map.insert
insert_ne url m [] = λ e. cc
insert_ne url m ((u, n) ∷ pods) = elim (Bool-cases (u == url)) [
  | inl same ↦ rw same (λ e. cc)
  | inr other ↦ rw other (λ e. cc)
]

process_data-IsTable :
    (created bucket updated now : ℤ) (sample : MetricsData) (services : ServiceMetrics)
    → IsTable services
    → IsTable (process_data created bucket updated now sample services)
unfolding process_data
process_data-IsTable created bucket updated now sample services table service pods m =
    elim (In-insert sample.service_name (Map.insert sample.pod_url new old_pods) services service
      pods m) [
        | inl p ↦ subst IsPods (ap (λ q. q.1) p) (insert_ne sample.pod_url new old_pods, rings)
        | inr old ↦ table service pods old
      ]
  where
    old_pods : Map String ProxyPodMetrics
    old_pods = Map.get_or [] sample.service_name services

    new : ProxyPodMetrics
    new = counted created bucket updated now sample.latency (Map.lookup sample.pod_url old_pods)

    new_ring : IsRing new
    new_ring = count_request-IsRing sample.latency _ (
        catch_up-IsRing now _ (
          known_or_fresh-IsRing created bucket (Map.lookup sample.pod_url old_pods) (λ k e.
            IsTable-get_or services sample.service_name sample.pod_url k table
              (lookup-In sample.pod_url k old_pods e))))

    rings :
        (url : String) (k : ProxyPodMetrics)
        → In (url, k) (Map.insert sample.pod_url new old_pods)
        → IsRing k
    rings url k n = elim (In-insert sample.pod_url new old_pods url k n) [
      | inl p ↦ subst IsRing (ap (λ q. q.1) p) new_ring
      | inr old ↦ IsTable-get_or services sample.service_name url k table old
    ]

flush_services-IsTable :
    (now : ℤ) (services : ServiceMetrics) → IsTable services → IsTable (flush_services now services)
unfolding next_bucket
flush_services-IsTable now services table service pods m =
    let (before, i, e, k) = (flush_services_iff now services service pods).0 m in
    subst IsPods (sym e) (
      k,
      λ url n j.
          let (b, l, recent, same) = (flush_pods_iff now before url n).0 j in
          subst IsRing (sym same) (next_bucket-IsRing b ((table service before i).1 url b l)),
    )

-- The tables of the worker: it starts with none, and each request or flush leads to the next one.
pub data Reached : ServiceMetrics → Type 0 where
  started : Reached []
  received :
      (created bucket updated now : ℤ) (sample : MetricsData) (services : ServiceMetrics)
      → Reached services
      → Reached (process_data created bucket updated now sample services)
  flushed :
      (now : ℤ) (services : ServiceMetrics)
      → Reached services
      → Reached (flush_services now services)

-- In every table that a worker reaches, each pod has two rings of five buckets with an index into
-- them, so that no index is out of range, and each service has at least one pod.
pub Reached-IsTable : (services : ServiceMetrics) → Reached services → IsTable services
Reached-IsTable services started = λ s p m. absurd m
Reached-IsTable services (received created bucket updated now sample before r) =
    process_data-IsTable created bucket updated now sample before (Reached-IsTable before r)
Reached-IsTable services (flushed now before r) =
    flush_services-IsTable now before (Reached-IsTable before r)
