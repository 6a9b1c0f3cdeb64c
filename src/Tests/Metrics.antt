-- ===== src/Tests/Metrics.antt =====
-- A worker with one pod that had a request, on the way through a shift and a flush.
use proxima_scheduler.Prelude.{
  ℕ, List, ◌++◌, ◌≤◌, length, zero, suc, ◌%◌, ◌+◌, ◌≡◌, ◌↔◌, refl, some, [], ◌∷◌, String, ◌==◌,
  string_eq, ◌&&◌, if◌then◌else◌, get_elem?, In, arith,
}
use proxima_scheduler.Prelude.Int.{ℤ, pos}
use proxima_scheduler.Map.{Map}
use proxima_scheduler.Metrics.{
  MetricsData, ProxyPodMetrics, ServiceMetrics, shift, process_data, flush_pods, flush_services,
  next_bucket, fresh, count_request, catch_up,
}
use proxima_scheduler.Float.{Micro, micro_float}
use proxima_scheduler.Metrics.Running.{Readings, Event, sent, taken, ticked, Work, run, new_work}
use proxima_scheduler.Metrics.Worked.{
  accepted, Op, replay, samples, flushes, ticks_of, run-accepted,
}
use proxima_scheduler.Metrics.Window.{
  Minute, Window, View, IsHeld, Implements, elapse, requested, count_request_window,
}
use proxima_scheduler.Metrics.Ring.{IsRing, emptied, shift-emptied}
use proxima_scheduler.Metrics.Store.{entry, counted, process_data-entry, IsTable}
use proxima_scheduler.Metrics.Flush.{IsKept, flush_pods_iff}

abbrev busy : ProxyPodMetrics
busy = record {
  last_updated = pos 100;
  rpm_buckets = pos 1 ∷ pos 2 ∷ pos 3 ∷ pos 4 ∷ pos 5 ∷ [];
  latency_buckets = pos 10 ∷ pos 20 ∷ pos 30 ∷ pos 40 ∷ pos 50 ∷ [];
  current_index = 3;
  last_bucket = pos 100;
}

abbrev pods : Map String ProxyPodMetrics
pods = ("10.0.0.7:80", busy) ∷ []

abbrev services : ServiceMetrics
services = ("web", pods) ∷ []

abbrev sample : MetricsData
sample = record {
  service_name = "web";
  pod_url = "10.0.0.7:80";
  node_ip = "10.0.0.1";
  latency = pos 60;
  timestamp = pos 120;
}

busy-IsRing : IsRing busy
busy-IsRing = (refl, refl, omega arith)

shift-emptied_example :
    ((shift 3 busy).current_index ≡ (3 + 3) % 5)
    × (get_elem? (shift 3 busy).rpm_buckets 2 ≡ emptied 3 3 2 (get_elem? busy.rpm_buckets 2))
    × (get_elem? (shift 3 busy).latency_buckets 2
        ≡ emptied 3 3 2 (get_elem? busy.latency_buckets 2))
shift-emptied_example = shift-emptied 3 busy 2 busy-IsRing (omega arith) (omega arith)

process_data-entry_example :
    entry
      (process_data (pos 1) (pos 2) (pos 120) (pos 121) sample services)
      sample.service_name
      sample.pod_url
    ≡ (if sample.service_name == sample.service_name && sample.pod_url == sample.pod_url
        then some (
            counted
              (pos 1)
              (pos 2)
              (pos 120)
              (pos 121)
              (pos 60)
              (entry services sample.service_name sample.pod_url))
        else entry services sample.service_name sample.pod_url)
process_data-entry_example =
    process_data-entry (pos 1) (pos 2) (pos 120) (pos 121) sample services sample.service_name
      sample.pod_url

abbrev after_flush : ServiceMetrics
after_flush = flush_services (pos 200) (process_data (pos 1) (pos 2) (pos 3) (pos 4) sample [])

flush_pods_iff_example :
    In ("10.0.0.7:80", next_bucket busy) (flush_pods (pos 200) pods)
    ↔ IsKept (pos 200) pods "10.0.0.7:80" (next_bucket busy)
flush_pods_iff_example = flush_pods_iff (pos 200) pods "10.0.0.7:80" (next_bucket busy)

abbrev minute : ℕ → ℕ → Minute
minute n total = record { requests = pos n; latency = pos total }

abbrev busy_window : Window
busy_window zero = minute 4 40
busy_window (suc zero) = minute 3 30
busy_window (suc (suc zero)) = minute 2 20
busy_window (suc (suc (suc zero))) = minute 1 10
busy_window (suc (suc (suc (suc age)))) = minute 5 50

busy-IsHeld : IsHeld busy busy_window
busy-IsHeld zero within = (refl, refl)
busy-IsHeld (suc zero) within = (refl, refl)
busy-IsHeld (suc (suc zero)) within = (refl, refl)
busy-IsHeld (suc (suc (suc zero))) within = (refl, refl)
busy-IsHeld (suc (suc (suc (suc zero)))) within = (refl, refl)
busy-IsHeld (suc (suc (suc (suc (suc age))))) within = ground arith

abbrev later : ℤ
later = pos 120_000_000_100

abbrev busy_view : View
busy_view = record { window = busy_window; since = busy.last_bucket }

count_request_window_example :
    Implements
      (fresh (pos 1) (pos 2))
      (record { window = λ age. record { requests = pos 0; latency = pos 0 }; since = pos 2 })
    × Implements (count_request (pos 60) (catch_up later busy)) (requested (pos 60) later busy_view)
    × Implements
        (next_bucket busy)
        (record { window = elapse 1 busy_window; since = busy.last_bucket })
count_request_window_example =
    count_request_window (pos 1) (pos 2) later (pos 60) busy busy_view busy-IsRing
      (busy-IsHeld, refl)

abbrev clock : Readings
clock = record { created = pos 1; bucket = pos 2; updated = pos 120; now = pos 121 }

abbrev steps : List Event
steps = sent sample ∷ sent sample ∷ sent sample ∷ taken clock ∷ sent sample ∷ ticked (pos 200) ∷ []

run-accepted_example :
    let w : Work Micro = run steps (new_work 2 "10.0.0.1" "" (pos 60)) in
    (ops : List Op) × (w.worker.service_metrics ≡ replay ops [])
    × (samples ops ++ w.worker.metrics_chan ≡ accepted 2 0 steps)
    × (flushes ops ≡ ticks_of steps)
    × (length w.worker.metrics_chan ≤ 2)
    × IsTable w.worker.service_metrics
run-accepted_example = run-accepted Micro 2 "10.0.0.1" "" (pos 60) steps

-- The third measurement finds no room, the fourth one does.
three_accepted : accepted 2 0 steps ≡ sample ∷ sample ∷ sample ∷ []
unfolding accepted
three_accepted = refl
