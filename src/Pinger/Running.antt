-- ===== src/Pinger/Running.antt =====
-- Run and Stop of proxima-scheduler/pinger/pinger.go: the rounds of a pinger, and its end.
use proxima_scheduler.Prelude.{
  String, Bool, Bool-cases, inl, inr, ◌⊎◌, subst, true, false, ◌≡◌, refl, sym, ap, ◌∙◌, Option,
  none, some, List, [], ◌∷◌, ◌++◌, if◌then◌else◌,
}
use proxima_scheduler.Prelude.Int.{ℤ, pos, ltb_ℤ}
use mathlib.Core.List.{append_assoc}
use proxima_scheduler.Kube.{Node}
use proxima_scheduler.Map.{Map}
use proxima_scheduler.Effect.{Result, ok, err}
use proxima_scheduler.Pinger.{
  Pinger, AggregatedLatencyKey, Ping, take_nodes, ping_all, aggregate_latencies, save_latencies,
}
use proxima_scheduler.Pinger.States.{Reached, updated, pinged_all, aggregated}

-- The answers that a round gets: of the API server, of the addresses that are pinged, and of the
-- database.
pub record Answers : Type 0 where
  pub discovered : Result (List Node)
  pub ping : String → Ping
  pub latency_of : String → String → Result ℤ

-- What the loop waits for: the ticker, or the end of `stopChan`.
pub data Event : Type 0 where
  tick : Answers → Event
  stop : Event

-- What the database is asked to save.
pub data Save : Type 0 where
  ping_times : Map String ℤ → String → Save
  sums : Map AggregatedLatencyKey ℤ → Save

pub record Run : Type 0 where
  pub pinger : Pinger
  -- oldest first
  pub saves : List Save
  pub ended : Bool

unfoldable pub pings_saved : Option (Map String ℤ × String) → List Save
pings_saved none = []
pings_saved (some (latencies, edge)) = ping_times latencies edge ∷ []

unfoldable pub sums_saved : Option (Map AggregatedLatencyKey ℤ) → List Save
sums_saved none = []
sums_saved (some m) = sums m ∷ []

-- One tick.
unfoldable pub round : Answers → Pinger → Pinger × List Save
round answers p =
    let (q, pings) = ping_all answers.ping (take_nodes answers.discovered p) in
    let (r, added) = aggregate_latencies answers.latency_of q in
    (r, pings_saved pings ++ sums_saved added)

-- The latencies that are left when the pinger stops.
unfoldable pub last_saves : Pinger → List Save
last_saves p = if p.db_enabled then pings_saved (save_latencies p) else []

-- The loop of Run. It returns when it is stopped.
unfoldable pub run_events : List Event → Pinger → Run
run_events [] p = record { pinger = p; saves = []; ended = false }
run_events (tick answers ∷ events) p =
    let (q, saves) = round answers p in
    let rest = run_events events q in record rest { saves = saves ++ rest.saves }
run_events (stop ∷ events) p = record { pinger = p; saves = last_saves p; ended = true }

-- `time.NewTicker` panics unless its interval is positive.
pub data Ran : Type 0 where
  panicked : Ran
  ran : Run → Ran

-- Run discovers the nodes once before its loop.
unfoldable pub run : Result (List Node) → List Event → Pinger → Ran
run discovered events p =
    if ltb_ℤ (pos 0) p.interval then ran (run_events events (take_nodes discovered p)) else panicked

unfoldable pub ticks : List Answers → List Event
ticks [] = []
ticks (answers ∷ rest) = tick answers ∷ ticks rest

stopped_lem :
    (before : List Answers) (after : List Event) (p : Pinger)
    → let r = run_events (ticks before) p in
      (r.ended ≡ false)
      × (run_events (ticks before ++ stop ∷ after) p
          ≡ record r { saves = r.saves ++ last_saves r.pinger; ended = true })
unfolding run_events ticks
stopped_lem [] after p = (refl, refl)
stopped_lem (answers ∷ before) after p =
    let (q, saves) = round answers p in
    let (going, stopped) = stopped_lem before after q in
    let r = run_events (ticks before) q in
    (
      going,
      ap (λ (t : Run). record t { saves = saves ++ t.saves }) stopped
          ∙ ap (λ l. record { pinger = r.pinger; saves = l; ended = true })
              (sym (append_assoc saves r.saves (last_saves r.pinger))),
    )

-- The latencies, if there are any, and if the database is enabled.
abbrev pub unsaved : Bool → Map String ℤ → String → List Save
unsaved false latencies edge = []
unsaved true [] edge = []
unsaved true (entry ∷ latencies) edge = ping_times (entry ∷ latencies) edge ∷ []

last_saves_lem : (p : Pinger) → last_saves p ≡ unsaved p.db_enabled p.latencies p.external_node_ip
unfolding last_saves pings_saved save_latencies
last_saves_lem p = enabled p p.latencies refl (Bool-cases p.db_enabled)
  where
    enabled :
        (q : Pinger) (m : Map String ℤ)
        → q.latencies ≡ m
        → (q.db_enabled ≡ true) ⊎ (q.db_enabled ≡ false)
        → last_saves q ≡ unsaved q.db_enabled q.latencies q.external_node_ip
    enabled q m e (inr off) = rw off refl
    enabled q [] e (inl on) = rw (on, e) refl
    enabled q (entry ∷ m) e (inl on) = rw (on, e) refl

-- A pinger with a positive interval runs on over any rounds, and returns at the first stop: what is
-- ready after it changes nothing and saves nothing. Before it returns it asks the database, if that
-- is enabled, to save the latencies of its last state once more, under its node's external address,
-- if it has any latency.
pub run_stopped :
    (discovered : Result (List Node)) (before : List Answers) (after : List Event) (p : Pinger)
    → ltb_ℤ (pos 0) p.interval ≡ true
    → (r : Run) × (run discovered (ticks before) p ≡ ran r)
      × (r.ended ≡ false)
      × (run discovered (ticks before ++ stop ∷ after) p
          ≡ ran (record r {
            saves =
                r.saves ++ unsaved r.pinger.db_enabled r.pinger.latencies r.pinger.external_node_ip;
            ended = true;
          }))
unfolding run
run_stopped discovered before after p ticking =
    let (going, stopped) = stopped_lem before after (take_nodes discovered p) in
    let r = run_events (ticks before) (take_nodes discovered p) in
    (
      r,
      rw ticking refl,
      going,
      rw ticking (
          ap ran stopped
          ∙ ap (λ l. ran (record r { saves = r.saves ++ l; ended = true }))
              (last_saves_lem r.pinger)),
    )

take_nodes-Reached :
    (discovered : Result (List Node)) (p : Pinger) → Reached p → Reached (take_nodes discovered p)
unfolding take_nodes
take_nodes-Reached (err e) p r = r
take_nodes-Reached (ok nodes) p r = updated nodes p r

pub round-Reached : (answers : Answers) (p : Pinger) → Reached p → Reached (round answers p).0
unfolding round
round-Reached answers p r =
    let q = take_nodes answers.discovered p in
    aggregated answers.latency_of (ping_all answers.ping q).0
      (pinged_all answers.ping q (take_nodes-Reached answers.discovered p r))

run_events-Reached :
    (events : List Event) (p : Pinger) → Reached p → Reached (run_events events p).pinger
unfolding run_events
run_events-Reached [] p r = r
run_events-Reached (tick answers ∷ events) p r =
    run_events-Reached events (round answers p).0 (round-Reached answers p r)
run_events-Reached (stop ∷ events) p r = r

-- A pinger that runs stays in the states that updates, pings and aggregations reach.
pub run-Reached :
    (discovered : Result (List Node)) (events : List Event) (p : Pinger) (r : Run)
    → Reached p
    → run discovered events p ≡ ran r
    → Reached r.pinger
unfolding run
run-Reached discovered events p r reached e = elim (Bool-cases (ltb_ℤ (pos 0) p.interval)) [
  | inr stuck ↦ cc (rw (run, stuck) at e)
  | inl ticking ↦
      let same : ran (run_events events (take_nodes discovered p)) ≡ ran r =
        rw (run, ticking) at e in
      let q : run_events events (take_nodes discovered p) ≡ r = cc in
      subst (λ (x : Run). Reached x.pinger) q
        (run_events-Reached events (take_nodes discovered p)
          (take_nodes-Reached discovered p reached))
]
