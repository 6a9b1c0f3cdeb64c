-- ===== src/Metrics/Running.antt =====
-- The goroutines of proxima-scheduler/edgeproxy/metricsworker.go, processMetrics and periodicFlush, and
-- the senders, one step after another: the channel between them and the table.
use proxima_scheduler.Prelude.{ℕ, String, List, [], ◌∷◌, ◌++◌}
use proxima_scheduler.Prelude.Int.{ℤ}
use proxima_scheduler.Float.{Float}
use proxima_scheduler.Metrics.{
  MetricsData, MetricsWorker, Row, new_metrics_worker, send_latency_data, process_data,
  flush_metrics,
}

-- The readings of the clock in one round of processMetrics.
pub record Readings : Type 0 where
  pub created : ℤ
  pub bucket : ℤ
  pub updated : ℤ
  pub now : ℤ

pub data Event : Type 0 where
  -- a measurement is sent, processMetrics takes the next one if one waits, the flush's ticker
  sent : MetricsData → Event
  taken : Readings → Event
  ticked : ℤ → Event

-- The worker, and the rows that it has asked the database to save.
pub record Work (F : Type 0) : Type 0 where
  pub worker : MetricsWorker
  pub rows : List (Row F)

module _ {F : Type 0} where
  -- The channel as it was, and the measurement at its head.
  unfoldable pub take_next : Readings → List MetricsData → Work F → Work F
  take_next t [] w = w
  take_next t (sample ∷ rest) w = record w {
    worker = record w.worker {
      metrics_chan = rest;
      service_metrics =
          process_data t.created t.bucket t.updated t.now sample w.worker.service_metrics;
    };
  }

  unfoldable pub step : ⦃fl : Float F⦄ → Event → Work F → Work F
  step (sent sample) w = record w { worker = send_latency_data sample w.worker }
  step (taken t) w = take_next t w.worker.metrics_chan w
  step (ticked now) w =
      let (worker, rows) = flush_metrics now w.worker in
      record w { worker = worker; rows = w.rows ++ rows }

  unfoldable pub run : ⦃fl : Float F⦄ → List Event → Work F → Work F
  run [] w = w
  run (event ∷ events) w = run events (step event w)

  unfoldable pub new_work : ℕ → String → String → ℤ → Work F
  new_work size host kind_host interval = record {
    worker = new_metrics_worker size host kind_host interval;
    rows = [];
  }
