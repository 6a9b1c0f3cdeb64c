-- ===== src/Metrics.antt =====
-- proxima-scheduler/edgeproxy/metricsworker.go: requests and latencies of each pod of a service, in a
-- ring of five buckets, one per minute. Readings of the clock are arguments, in the order of the
-- code. Saved metrics are returned as rows.
pub mod Ring
pub mod Window
pub mod Store
pub mod Flush
pub mod Running
pub mod Worked
use proxima_scheduler.Prelude.{
  ℕ, zero, suc, ◌+◌, ◌-◌, ◌%◌, ◌^◌, String, Bool, true, false, Option, none, some, List, [], ◌∷◌,
  ◌++◌, ◌==◌, string_eq, if◌then◌else◌, ltb, length, set, get_elem?,
}
use proxima_scheduler.Prelude.Int.{ℤ, pos, negsuc, ◌+ℤ◌, ltb_ℤ, wrap64, sub_time}
use proxima_scheduler.Map.{Map}
use proxima_scheduler.Map
use proxima_scheduler.Float.{Float, quot_ℤ, eqb_ℤ}

pub record MetricsData : Type 0 where
  pub service_name : String
  pub pod_url : String
  pub node_ip : String
  pub latency : ℤ
  pub timestamp : ℤ

pub record ProxyPodMetrics : Type 0 where
  pub last_updated : ℤ
  pub rpm_buckets : List ℤ
  pub latency_buckets : List ℤ
  pub current_index : ℕ
  pub last_bucket : ℤ

-- What SaveEdgeProxyMetricsForService is called with.
pub record Row (F : Type 0) : Type 0 where
  pub service : String
  pub pod : String
  pub host : String
  pub avg_latency : ℤ
  pub avg_rpm : F

abbrev pub ServiceMetrics : Type 0
ServiceMetrics = Map String (Map String ProxyPodMetrics)

-- The channel is the list of the data that wait in it.
pub record MetricsWorker : Type 0 where
  pub metrics_chan : List MetricsData
  pub buffer_size : ℕ
  pub host_node_ip : String
  pub kind_network_ip : String
  pub service_metrics : ServiceMetrics
  pub flush_interval : ℤ

abbrev pub five_zeros : List ℤ
five_zeros = pos 0 ∷ pos 0 ∷ pos 0 ∷ pos 0 ∷ pos 0 ∷ []

unfoldable pub new_metrics_worker : ℕ → String → String → ℤ → MetricsWorker
new_metrics_worker size host kind_host interval = record {
  metrics_chan = [];
  buffer_size = size;
  host_node_ip = host;
  kind_network_ip = kind_host;
  service_metrics = [];
  flush_interval = interval;
}

-- The metrics of a pod that was not seen before.
unfoldable pub fresh : ℤ → ℤ → ProxyPodMetrics
fresh updated bucket = record {
  last_updated = updated;
  rpm_buckets = five_zeros;
  latency_buckets = five_zeros;
  current_index = 0;
  last_bucket = bucket;
}

-- The index moves to the next bucket, which is emptied.
unfoldable pub next_bucket : ProxyPodMetrics → ProxyPodMetrics
next_bucket m =
    let i = (m.current_index + 1) % 5 in
    record m {
      current_index = i;
      rpm_buckets = set m.rpm_buckets i (pos 0);
      latency_buckets = set m.latency_buckets i (pos 0);
    }

unfoldable pub shift : ℕ → ProxyPodMetrics → ProxyPodMetrics
shift zero m = m
shift (suc k) m = shift k (next_bucket m)

-- `int(d.Minutes())`. Up to five minutes the floating-point quotient truncates to the same number,
-- and the code tells no more than five apart.
unfoldable pub minutes : ℤ → ℤ
minutes d = quot_ℤ d (pos 60_000_000_000)

-- The rounds of the loop `for i := 0; i < elapsedMinutes && i < 5; i++`.
unfoldable pub rounds : ℤ → ℕ
rounds (pos n) = if ltb n 5 then n else 5
rounds (negsuc n) = 0

unfoldable pub catch_up : ℤ → ProxyPodMetrics → ProxyPodMetrics
unfolding minutes sub_time
catch_up now m =
    let elapsed = minutes (sub_time now m.last_bucket) in
    if ltb_ℤ (pos 0) elapsed then record (shift (rounds elapsed) m) { last_bucket = now } else m

-- `buckets[i] += n`
unfoldable pub add_at : ℕ → ℤ → List ℤ → List ℤ
add_at i n buckets = elim (get_elem? buckets i) [
  | none ↦ buckets
  | some old ↦ set buckets i (wrap64 (old +ℤ n))
]

unfoldable pub count_request : ℤ → ProxyPodMetrics → ProxyPodMetrics
count_request latency m = record m {
  rpm_buckets = add_at m.current_index (pos 1) m.rpm_buckets;
  latency_buckets = add_at m.current_index latency m.latency_buckets;
}

unfoldable pub known_or_fresh : ℤ → ℤ → Option ProxyPodMetrics → ProxyPodMetrics
known_or_fresh updated bucket none = fresh updated bucket
known_or_fresh updated bucket (some m) = m

-- One round of processMetrics: the clock is read for a new entry twice, for the update, and once more.
unfoldable pub process_data : ℤ → ℤ → ℤ → ℤ → MetricsData → ServiceMetrics → ServiceMetrics
process_data created bucket updated now sample services =
    let pods = Map.get_or [] sample.service_name services in
    let m = known_or_fresh created bucket (Map.lookup sample.pod_url pods) in
    Map.insert sample.service_name
      (Map.insert sample.pod_url
        (count_request sample.latency (catch_up now (record m { last_updated = updated }))) pods)
      services

-- SendLatencyData: what does not fit is dropped.
unfoldable pub send_latency_data : MetricsData → MetricsWorker → MetricsWorker
send_latency_data sample mw =
    if ltb (length mw.metrics_chan) mw.buffer_size
    then record mw { metrics_chan = mw.metrics_chan ++ sample ∷ [] }
    else mw

-- The sum of the buckets, and that of all pods of all services.
unfoldable pub sum : List ℤ → ℤ → ℤ
sum [] total = total
sum (n ∷ ns) total = sum ns (wrap64 (total +ℤ n))

-- `totalLatency / time.Duration(totalRequests)`, 0 without requests
unfoldable pub quotient : ℤ → ℤ → ℤ
quotient latency requests =
    if eqb_ℤ requests (pos 0) then pos 0 else wrap64 (quot_ℤ latency requests)

unfoldable pub calculate_average_latency : ProxyPodMetrics → ℤ
calculate_average_latency m = quotient (sum m.latency_buckets (pos 0)) (sum m.rpm_buckets (pos 0))

unfoldable pub fifteen_minutes : ℤ
fifteen_minutes = pos 900_000_000_000

unfoldable pub is_stale : ℤ → ProxyPodMetrics → Bool
is_stale now m = ltb_ℤ fifteen_minutes (sub_time now m.last_updated)

-- The two loops of flushMetrics, as they change the table.
unfoldable pub flush_pods : ℤ → Map String ProxyPodMetrics → Map String ProxyPodMetrics
flush_pods now [] = []
flush_pods now ((url, m) ∷ pods) =
    if is_stale now m then flush_pods now pods else (url, next_bucket m) ∷ flush_pods now pods

abbrev pub is_empty : {A : Type 0} → List A → Bool
is_empty [] = true
is_empty (x ∷ xs) = false

unfoldable pub flush_services : ℤ → ServiceMetrics → ServiceMetrics
flush_services now [] = []
flush_services now ((service, pods) ∷ services) =
    if is_empty (flush_pods now pods)
    then flush_services now services
    else (service, flush_pods now pods) ∷ flush_services now services

-- The totals over all that is left.
unfoldable pub total_pods : (ProxyPodMetrics → List ℤ) → Map String ProxyPodMetrics → ℤ → ℤ
total_pods buckets [] total = total
total_pods buckets ((url, m) ∷ pods) total = total_pods buckets pods (sum (buckets m) total)

unfoldable pub total_services : (ProxyPodMetrics → List ℤ) → ServiceMetrics → ℤ → ℤ
total_services buckets [] total = total
total_services buckets ((service, pods) ∷ services) total =
    total_services buckets services (total_pods buckets pods total)

module _ {F : Type 0} ⦃fl : Float F⦄ where
  unfoldable pub per_minute : ℤ → F
  per_minute requests = fl.div (fl.of_int requests) (fl.literal 5 0)

  unfoldable pub calculate_average_rpm : ProxyPodMetrics → F
  calculate_average_rpm m = per_minute (sum m.rpm_buckets (pos 0))

  -- saveEdgeProxyMetrics
  unfoldable pub save_edge_proxy_metrics : MetricsWorker → String → String → ℤ → F → Row F
  save_edge_proxy_metrics mw service pod latency rpm = record {
    service = service;
    pod = pod;
    host = if mw.kind_network_ip == "" then mw.host_node_ip else mw.kind_network_ip;
    avg_latency = latency;
    avg_rpm = rpm;
  }

  unfoldable pub pod_rows : MetricsWorker → String → Map String ProxyPodMetrics → List (Row F)
  pod_rows mw service [] = []
  pod_rows mw service ((url, m) ∷ pods) =
      save_edge_proxy_metrics mw service url (calculate_average_latency m) (calculate_average_rpm m)
      ∷ pod_rows mw service pods

  unfoldable pub service_rows : MetricsWorker → ServiceMetrics → List (Row F)
  service_rows mw [] = []
  service_rows mw ((service, pods) ∷ services) =
      pod_rows mw service pods ++ service_rows mw services

  -- The last row, for the whole edge proxy, if there were requests.
  unfoldable pub all_row : MetricsWorker → List (Row F)
  all_row mw =
      let requests = total_services (λ m. m.rpm_buckets) mw.service_metrics (pos 0) in
      let latency = total_services (λ m. m.latency_buckets) mw.service_metrics (pos 0) in
      if ltb_ℤ (pos 0) requests
      then save_edge_proxy_metrics mw "ALL" "ALL" (quotient latency requests) (per_minute requests)
        ∷ []
      else []

  unfoldable pub flush_metrics : ℤ → MetricsWorker → MetricsWorker × List (Row F)
  flush_metrics now mw =
      let flushed = record mw { service_metrics = flush_services now mw.service_metrics } in
      (flushed, service_rows mw mw.service_metrics ++ all_row flushed)
