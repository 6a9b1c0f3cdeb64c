-- ===== src/Metrics/Worked.antt =====
-- What makes the table of the metrics worker, and what waits in its channel.
use mathlib.Core.List.{append_assoc, append-nil}
use proxima_scheduler.Prelude.{
  ℕ, String, ◌+◌, ◌-◌, ◌≤◌, ◌≡◌, refl, sym, ap, ◌∙◌, inl, inr, Bool-cases, List, [], ◌∷◌, ◌++◌,
  if◌then◌else◌, ltb, length, length-append, arith, subst,
}
use proxima_scheduler.Prelude.Int.{ℤ}
use proxima_scheduler.Float.{Float}
use proxima_scheduler.Metrics.{
  MetricsData, MetricsWorker, new_metrics_worker, send_latency_data, process_data, flush_metrics,
  flush_services, ServiceMetrics,
}
use proxima_scheduler.Metrics.Store.{IsTable, Reached, started, received, Reached-IsTable}
use proxima_scheduler.Metrics.Store
use proxima_scheduler.Metrics.Running.{
  Readings, Event, sent, taken, ticked, Work, take_next, step, run, new_work,
}

-- What changes the table: a measurement, with the readings of the clock, or a flush.
pub data Op : Type 0 where
  counted : Readings → MetricsData → Op
  flushed_at : ℤ → Op

-- The changes made one after another to a table.
unfoldable pub replay : List Op → ServiceMetrics → ServiceMetrics
replay [] table = table
replay (counted t sample ∷ ops) table =
    replay ops (process_data t.created t.bucket t.updated t.now sample table)
replay (flushed_at now ∷ ops) table = replay ops (flush_services now table)

unfoldable pub samples : List Op → List MetricsData
samples [] = []
samples (counted t sample ∷ ops) = sample ∷ samples ops
samples (flushed_at now ∷ ops) = samples ops

unfoldable pub flushes : List Op → List ℤ
flushes [] = []
flushes (counted t sample ∷ ops) = flushes ops
flushes (flushed_at now ∷ ops) = now ∷ flushes ops

-- The times of the flush's ticker.
unfoldable pub ticks_of : List Event → List ℤ
ticks_of [] = []
ticks_of (sent sample ∷ events) = ticks_of events
ticks_of (taken t ∷ events) = ticks_of events
ticks_of (ticked now ∷ events) = now ∷ ticks_of events

replay-append :
    (ops more : List Op) (table : ServiceMetrics)
    → replay (ops ++ more) table ≡ replay more (replay ops table)
unfolding replay
replay-append [] more table = refl
replay-append (counted t sample ∷ ops) more table = replay-append ops more _
replay-append (flushed_at now ∷ ops) more table = replay-append ops more _

samples-append : (ops more : List Op) → samples (ops ++ more) ≡ samples ops ++ samples more
unfolding samples
samples-append [] more = refl
samples-append (counted t sample ∷ ops) more = ap (◌∷◌ sample) (samples-append ops more)
samples-append (flushed_at now ∷ ops) more = samples-append ops more

flushes-append : (ops more : List Op) → flushes (ops ++ more) ≡ flushes ops ++ flushes more
unfolding flushes
flushes-append [] more = refl
flushes-append (counted t sample ∷ ops) more = flushes-append ops more
flushes-append (flushed_at now ∷ ops) more = ap (◌∷◌ now) (flushes-append ops more)

-- The measurements that a channel of a size takes, by the number of those that wait in it.
unfoldable pub accepted : ℕ → ℕ → List Event → List MetricsData
accepted size waiting [] = []
accepted size waiting (sent sample ∷ events) =
    if ltb waiting size
    then sample ∷ accepted size (waiting + 1) events
    else accepted size waiting events
accepted size waiting (taken t ∷ events) = accepted size (waiting - 1) events
accepted size waiting (ticked now ∷ events) = accepted size waiting events

send_latency_data-chan :
    (size : ℕ) (sample : MetricsData) (mw : MetricsWorker)
    → mw.buffer_size ≡ size
    → (send_latency_data sample mw).metrics_chan ≡ (
        if ltb (length mw.metrics_chan) size
        then mw.metrics_chan ++ sample ∷ []
        else mw.metrics_chan)
unfolding send_latency_data
send_latency_data-chan size sample mw size_is = ground (arith, size_is)

accepted-sent :
    (size : ℕ) (sample : MetricsData) (events : List Event) (chan chan' through : List MetricsData)
    → chan' ≡ (if ltb (length chan) size then chan ++ sample ∷ [] else chan)
    → (if ltb (length chan) size then through ++ sample ∷ [] else through)
        ++ accepted size (length chan') events
      ≡ through ++ accepted size (length chan) (sent sample ∷ events)
unfolding accepted
accepted-sent size sample events chan chan' through e = elim (Bool-cases (ltb (length chan) size)) [
  | inl room ↦
      let longer : length chan' ≡ length chan + 1 =
        ap length (e ∙ rw room refl) ∙ length-append chan (sample ∷ []) in
      rw (room, longer)
        (append_assoc through (sample ∷ []) (accepted size (length chan + 1) events))
  | inr full ↦
      let same : length chan' ≡ length chan = ap length (e ∙ rw full refl) in rw (full, same) refl
]

module _ {F : Type 0} ⦃fl : Float F⦄ where
  -- The changes that made the table: their measurements, followed by those that wait in the channel,
  -- are those that the channel let through, and their flushes came at the given times.
  abbrev IsWorked : ℕ → List MetricsData → List ℤ → Work F → Type 0
  IsWorked size through times w =
      ((ops : List Op) × (w.worker.service_metrics ≡ replay ops [])
        × (samples ops ++ w.worker.metrics_chan ≡ through)
        × (flushes ops ≡ times))
      × (length w.worker.metrics_chan ≤ size)
      × (w.worker.buffer_size ≡ size)
      × Reached w.worker.service_metrics

  sent-IsWorked :
      (size : ℕ) (sample : MetricsData) (w : Work F) (through : List MetricsData) (times : List ℤ)
      → IsWorked size through times w
      → IsWorked size
          (if ltb (length w.worker.metrics_chan) size then through ++ sample ∷ [] else through)
          times
          (step (sent sample) w)
  unfolding step send_latency_data
  sent-IsWorked size sample w through times ((ops, table, order, flushed), fits, size_is, reached) =
      let chan = w.worker.metrics_chan in
      elim (Bool-cases (ltb (length chan) size)) [
        | inl room ↦
            let e : send_latency_data sample w.worker
                ≡ record w.worker { metrics_chan = chan ++ sample ∷ [] } =
              simp (size_is, room) in
            rw room (
              subst (λ mw. IsWorked size (through ++ sample ∷ []) times (record w { worker = mw }))
                (sym e)
                (
                  (
                    ops,
                    table,
                    sym (append_assoc (samples ops) chan (sample ∷ []))
                        ∙ ap (λ (l : List MetricsData). l ++ sample ∷ []) order,
                    flushed,
                  ),
                  ground (arith, length-append chan (sample ∷ []), room),
                  size_is,
                  reached,
                ))
        | inr full ↦
            let e : send_latency_data sample w.worker ≡ w.worker = simp (size_is, full) in
            rw full (
              subst (λ mw. IsWorked size through times (record w { worker = mw })) (sym e)
                ((ops, table, order, flushed), fits, size_is, reached))
      ]

  taken-IsWorked :
      (size : ℕ) (t : Readings) (w : Work F) (through waiting : List MetricsData) (times : List ℤ)
      → w.worker.metrics_chan ≡ waiting
      → IsWorked size through times w
      → IsWorked size through times (take_next t waiting w)
        × (length (take_next t waiting w).worker.metrics_chan ≡ length waiting - 1)
  unfolding take_next replay samples flushes
  taken-IsWorked size t w through [] times none_waits i = (i, ap length none_waits)
  taken-IsWorked size t w through (sample ∷ rest) times waits
        ((ops, table, order, flushed), fits, size_is, reached) =
      let last = counted t sample ∷ [] in
      (
        (
          (
            ops ++ last,
            ap (process_data t.created t.bucket t.updated t.now sample) table
                ∙ sym (replay-append ops last []),
            ap (λ l. l ++ rest) (samples-append ops last)
                ∙ append_assoc (samples ops) (sample ∷ []) rest
                ∙ ap (◌++◌ (samples ops)) (sym waits)
                ∙ order,
            flushes-append ops last ∙ append-nil (flushes ops) ∙ flushed,
          ),
          omega (arith, ap length waits, fits),
          size_is,
          received t.created t.bucket t.updated t.now sample w.worker.service_metrics reached,
        ),
        omega arith,
      )

  ticked-IsWorked :
      (size : ℕ) (now : ℤ) (w : Work F) (through : List MetricsData) (times : List ℤ)
      → IsWorked size through times w
      → IsWorked size through (times ++ now ∷ []) (step (ticked now) w)
  unfolding step flush_metrics replay samples flushes
  ticked-IsWorked size now w through times ((ops, table, order, flushed), fits, size_is, reached) =
      let last = flushed_at now ∷ [] in
      (
        (
          ops ++ last,
          ap (flush_services now) table ∙ sym (replay-append ops last []),
          ap (λ l. l ++ w.worker.metrics_chan) (samples-append ops last ∙ append-nil (samples ops))
              ∙ order,
          flushes-append ops last ∙ ap (λ l. l ++ now ∷ []) flushed,
        ),
        fits,
        size_is,
        Store.flushed now w.worker.service_metrics reached,
      )

  run-IsWorked :
      (size : ℕ) (events : List Event) (w : Work F) (through : List MetricsData) (times : List ℤ)
      → IsWorked size through times w
      → IsWorked size
          (through ++ accepted size (length w.worker.metrics_chan) events)
          (times ++ ticks_of events)
          (run events w)
  unfolding run accepted step flush_metrics ticks_of
  run-IsWorked size [] w through times ((ops, table, order, flushed), fits, size_is, reached) = (
    (ops, table, order ∙ sym (append-nil through), flushed ∙ sym (append-nil times)),
    fits,
    size_is,
    reached,
  )
  run-IsWorked size (sent sample ∷ events) w through times i =
      subst (λ l. IsWorked size l (times ++ ticks_of events) (run events (step (sent sample) w)))
        (accepted-sent size sample events w.worker.metrics_chan
          (step (sent sample) w).worker.metrics_chan through
          (send_latency_data-chan size sample w.worker i.2))
        (run-IsWorked size events (step (sent sample) w) _ times
          (sent-IsWorked size sample w through times i))
  run-IsWorked size (taken t ∷ events) w through times i =
      let (j, less) = taken-IsWorked size t w through w.worker.metrics_chan times refl i in
      subst
        (λ n.
          IsWorked size (through ++ accepted size n events) (times ++ ticks_of events)
            (run events (step (taken t) w)))
        less (run-IsWorked size events (step (taken t) w) through times j)
  run-IsWorked size (ticked now ∷ events) w through times i =
      subst
        (λ l.
          IsWorked size (through ++ accepted size (length w.worker.metrics_chan) events) l
            (run events (step (ticked now) w)))
        (append_assoc times (now ∷ []) (ticks_of events))
        (run-IsWorked size events (step (ticked now) w) through (times ++ now ∷ [])
          (ticked-IsWorked size now w through times i))

-- Over any sequence of measurements that are sent, rounds of processMetrics and flushes, from the
-- start of a worker, its table is the one that some changes make, one after another, of the empty
-- table: the processing of measurements, and the flushes at the times of the ticker. Those
-- measurements, followed by the ones that wait in the channel, are in the order of their sending
-- exactly the ones that were sent while the channel had room. No more wait than the channel's size,
-- and each pod of the table has rings of five buckets with an index into them, and each service a pod.
pub run-accepted :
    (F : Type 0) ⦃fl : Float F⦄ (size : ℕ) (host kind_host : String) (interval : ℤ)
    (events : List Event)
    → let w : Work F = run events (new_work size host kind_host interval) in
      (ops : List Op) × (w.worker.service_metrics ≡ replay ops [])
      × (samples ops ++ w.worker.metrics_chan ≡ accepted size 0 events)
      × (flushes ops ≡ ticks_of events)
      × (length w.worker.metrics_chan ≤ size)
      × IsTable w.worker.service_metrics
unfolding new_work new_metrics_worker replay samples flushes
run-accepted F size host kind_host interval events =
    let ((ops, table, order, flushed), fits, size_is, reached) =
      run-IsWorked size events (new_work size host kind_host interval) [] []
        (([], refl, refl, refl), omega arith, refl, started) in
    (ops, table, order, flushed, fits, Reached-IsTable _ reached)
