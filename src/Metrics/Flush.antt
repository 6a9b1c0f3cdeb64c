-- ===== src/Metrics/Flush.antt =====
-- flushMetrics, as it changes the table: which pods stay, and with which metrics.
use proxima_scheduler.Prelude.{
  ◌+◌, ◌%◌, set, ◌≡◌, ◌≢◌, ◌↔◌, refl, sym, ap, inl, inr, List, [], ◌∷◌, String, false, arith, In,
  Bool-cases, subst,
}
use proxima_scheduler.Prelude.Int.{ℤ, pos, ltb_ℤ, sub_time}
use proxima_scheduler.Map.{Map}
use proxima_scheduler.Metrics.{
  ProxyPodMetrics, ServiceMetrics, next_bucket, is_stale, fifteen_minutes, flush_pods,
  flush_services, is_empty,
}

-- A pod that had its last request fifteen minutes ago at most, 900 000 000 000 nanoseconds, with its
-- metrics moved to the next of five buckets, which is emptied.
abbrev pub IsKept : ℤ → Map String ProxyPodMetrics → String → ProxyPodMetrics → Type 0
IsKept now pods url m =
    (before : ProxyPodMetrics) × In (url, before) pods
    × (ltb_ℤ (pos 900_000_000_000) (sub_time now before.last_updated) ≡ false)
    × (m ≡ record before {
      current_index = (before.current_index + 1) % 5;
      rpm_buckets = set before.rpm_buckets ((before.current_index + 1) % 5) (pos 0);
      latency_buckets = set before.latency_buckets ((before.current_index + 1) % 5) (pos 0);
    })

pub flush_pods-IsKept :
    (now : ℤ) (pods : Map String ProxyPodMetrics) (url : String) (m : ProxyPodMetrics)
    → In (url, m) (flush_pods now pods)
    → IsKept now pods url m
unfolding flush_pods is_stale fifteen_minutes next_bucket
flush_pods-IsKept now [] url m n = absurd n
flush_pods-IsKept now ((u, before) ∷ pods) url m n = elim (Bool-cases (is_stale now before)) [
  | inl stale ↦
      let (b, i, s, e) = flush_pods-IsKept now pods url m (rw stale at n) in (b, inr i, s, e)
  | inr recent ↦ elim (rw recent at n) [
    | inl p ↦ (before, inl (ap (λ q. (q.0, before)) p), recent, sym (ap (λ q. q.1) p))
    | inr later ↦ let (b, i, s, e) = flush_pods-IsKept now pods url m later in (b, inr i, s, e)
  ]
]

flush_pods_keeps :
    (now : ℤ) (pods : Map String ProxyPodMetrics) (url : String) (before : ProxyPodMetrics)
    → In (url, before) pods
    → is_stale now before ≡ false
    → In (url, next_bucket before) (flush_pods now pods)
unfolding flush_pods
flush_pods_keeps now [] url before n recent = absurd n
flush_pods_keeps now ((u, m) ∷ pods) url before n recent = elim (Bool-cases (is_stale now m)) [
  | inl stale ↦ elim n [
    | inl p ↦ cc (ap (λ q. is_stale now q.1) p, stale, recent)
    | inr later ↦ rw stale (flush_pods_keeps now pods url before later recent)
  ]
  | inr fresh_one ↦ elim n [
    | inl p ↦ rw fresh_one (inl (ap (λ q. (q.0, next_bucket q.1)) p))
    | inr later ↦ rw fresh_one (inr (flush_pods_keeps now pods url before later recent))
  ]
]

-- A flush keeps the pods whose last request was not more than fifteen minutes before it, each with
-- the index moved on in a ring of five and both buckets at the new index emptied, and no other pod.
pub flush_pods_iff :
    (now : ℤ) (pods : Map String ProxyPodMetrics) (url : String) (m : ProxyPodMetrics)
    → In (url, m) (flush_pods now pods) ↔ IsKept now pods url m
unfolding is_stale fifteen_minutes next_bucket
flush_pods_iff now pods url m = (
  flush_pods-IsKept now pods url m,
  λ (before, n, recent, e).
      subst (λ q. In (url, q) (flush_pods now pods)) (sym e)
        (flush_pods_keeps now pods url before n recent),
)

is_empty_iff : {A : Type 0} (xs : List A) → (is_empty xs ≡ false) ↔ (xs ≢ [])
is_empty_iff [] = ground arith
is_empty_iff (x ∷ xs) = (λ e p. cc, λ n. refl)

-- A service that stays, with the pods that it then has.
abbrev pub IsLeft : ℤ → ServiceMetrics → String → Map String ProxyPodMetrics → Type 0
IsLeft now services service pods =
    (before : Map String ProxyPodMetrics) × In (service, before) services
    × (pods ≡ flush_pods now before)
    × (flush_pods now before ≢ [])

flush_services-IsLeft :
    (now : ℤ) (services : ServiceMetrics) (service : String) (pods : Map String ProxyPodMetrics)
    → In (service, pods) (flush_services now services)
    → IsLeft now services service pods
unfolding flush_services
flush_services-IsLeft now [] service pods n = absurd n
flush_services-IsLeft now ((s, before) ∷ services) service pods n =
    elim (Bool-cases (is_empty (flush_pods now before))) [
      | inl gone ↦
          let (b, i, e, k) = flush_services-IsLeft now services service pods (rw gone at n) in
          (b, inr i, e, k)
      | inr some_left ↦ elim (rw some_left at n) [
        | inl p ↦ (
          before,
          inl (ap (λ q. (q.0, before)) p),
          sym (ap (λ q. q.1) p),
          (is_empty_iff (flush_pods now before)).0 some_left,
        )
        | inr later ↦
            let (b, i, e, k) = flush_services-IsLeft now services service pods later in
            (b, inr i, e, k)
      ]
    ]

flush_services_keeps :
    (now : ℤ) (services : ServiceMetrics) (service : String) (before : Map String ProxyPodMetrics)
    → In (service, before) services
    → flush_pods now before ≢ []
    → In (service, flush_pods now before) (flush_services now services)
unfolding flush_services
flush_services_keeps now [] service before n k = absurd n
flush_services_keeps now ((s, b) ∷ services) service before n k =
    elim (Bool-cases (is_empty (flush_pods now b))) [
      | inl gone ↦ elim n [
        | inl p ↦ cc (
          ap (λ q. is_empty (flush_pods now q.1)) p,
          gone,
          (is_empty_iff (flush_pods now before)).1 k,
        )
        | inr later ↦ rw gone (flush_services_keeps now services service before later k)
      ]
      | inr some_left ↦ elim n [
        | inl p ↦ rw some_left (inl (ap (λ q. (q.0, flush_pods now q.1)) p))
        | inr later ↦ rw some_left (inr (flush_services_keeps now services service before later k))
      ]
    ]

-- A flush keeps the services of which it keeps a pod, each with the pods that it keeps, and no other
-- service.
pub flush_services_iff :
    (now : ℤ) (services : ServiceMetrics) (service : String) (pods : Map String ProxyPodMetrics)
    → In (service, pods) (flush_services now services) ↔ IsLeft now services service pods
flush_services_iff now services service pods = (
  flush_services-IsLeft now services service pods,
  λ (before, n, e, k).
      subst (λ q. In (service, q) (flush_services now services)) (sym e)
        (flush_services_keeps now services service before n k),
)
