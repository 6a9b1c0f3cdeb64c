-- ===== src/ScoresWorker/Running.antt =====
-- Run of proxima-scheduler/scheduler/scoresworker.go: the scores over the rounds of its ticker.
use proxima_scheduler.Prelude.{
  String, true, ◌≡◌, refl, sym, ◌∙◌, subst, inl, inr, Bool-cases, Option, none, some, List, [], ◌∷◌,
  All, string_eq, if◌then◌else◌, arith,
}
use proxima_scheduler.Prelude.Int.{ℤ, pos, ltb_ℤ}
use proxima_scheduler.Map.{Map}
use proxima_scheduler.Map
use proxima_scheduler.Float.{Float}
use proxima_scheduler.Effect.{Result, Result-cases, ok, err}
use proxima_scheduler.Nodes.{is_edge_proxy}
use proxima_scheduler.ScoresWorker.{
  ScoresWorker, new_scores_worker, initialize_equal_edge_weights, calculate_edge_weights, add_edges,
  no_sums, score_sums, score_weighted, score_nodes,
}
use proxima_scheduler.ScoresWorker.Scored.{score_nodes_lem}

-- What the database answers in a round: the latencies by edge proxy, and the rates of requests.
pub record Answers (F : Type 0) : Type 0 where
  pub latencies : Result (Map String (Map String F))
  pub rpm : Result (Map String F)

-- The worker, and the scores that it has asked the database to save, newest first.
pub record Work (F : Type 0) : Type 0 where
  pub worker : ScoresWorker F
  pub saves : List (Map String F)

-- `time.NewTicker` panics unless its interval is positive.
pub data Ran (F : Type 0) : Type 0 where
  panicked : Ran F
  ran : Work F → Ran F

module _ {F : Type 0} where
  unfoldable pub note_save : Option (Map String F) → List (Map String F) → List (Map String F)
  note_save none saves = saves
  note_save (some scores) saves = scores ∷ saves

  unfoldable pub score_round : ⦃fl : Float F⦄ → Answers F → Work F → Work F
  score_round a w =
      let (sw, saved) = score_nodes a.latencies a.rpm w.worker in
      record { worker = sw; saves = note_save saved w.saves }

  unfoldable pub score_rounds : ⦃fl : Float F⦄ → List (Answers F) → Work F → Work F
  score_rounds [] w = w
  score_rounds (a ∷ answers) w = score_rounds answers (score_round a w)

  unfoldable pub run : ⦃fl : Float F⦄ → List (Answers F) → ScoresWorker F → Ran F
  run answers sw =
      if ltb_ℤ (pos 0) sw.scoring_interval
      then ran (score_rounds answers (record { worker = sw; saves = [] }))
      else panicked

module _ {F : Type 0} ⦃fl : Float F⦄ where
  -- The weights are all that calculateEdgeWeights changes.
  weights_keep :
      (rpm : Result (Map String F)) (latencies : Map String (Map String F))
      (sw weighted : ScoresWorker F)
      → calculate_edge_weights rpm latencies sw ≡ ok weighted
      → (weighted.scores ≡ sw.scores) × (weighted.edge_proxies ≡ sw.edge_proxies)
  unfolding calculate_edge_weights initialize_equal_edge_weights
  weights_keep rpm latencies sw weighted e = ground (arith, e)

  -- No edge proxy of the list has a score.
  abbrev pub IsUnscored : List String → Map String F → Type 0
  IsUnscored edges scores = (n : String) → is_edge_proxy n edges ≡ true → Map.lookup n scores ≡ none

  abbrev IsWorked : List String → Work F → Type 0
  IsWorked edges w =
      (w.worker.edge_proxies ≡ edges)
      × IsUnscored edges w.worker.scores
      × All (IsUnscored edges) w.saves

  score_nodes-edge_proxies :
      (latencies : Result (Map String (Map String F))) (rpm : Result (Map String F))
      (sw : ScoresWorker F)
      → (score_nodes latencies rpm sw).0.edge_proxies ≡ sw.edge_proxies
  unfolding score_nodes score_weighted score_sums
  score_nodes-edge_proxies (err e) rpm sw = refl
  score_nodes-edge_proxies (ok latencies) rpm sw =
      elim (Result-cases (calculate_edge_weights rpm latencies sw)) [
        | inl (e, failed) ↦ rw failed refl
        | inr (weighted, given) ↦
            let keeps = weights_keep rpm latencies sw weighted given in
            rw given (ground (arith, keeps))
      ]

  -- The scores after a round, and those that are saved.
  scored-IsUnscored :
      (edges : List String) (latencies : Map String (Map String F)) (rpm : Result (Map String F))
      (sw weighted : ScoresWorker F) (saves : List (Map String F))
      → calculate_edge_weights rpm latencies sw ≡ ok weighted
      → IsWorked edges (record { worker = weighted; saves = saves })
      → let (after, saved) = score_nodes (ok latencies) rpm sw in
        IsUnscored edges after.scores × All (IsUnscored edges) (note_save saved saves)
  unfolding note_save
  scored-IsUnscored edges latencies rpm sw weighted saves given (own, unscored, all) =
      let s = add_edges weighted.edge_proxies weighted.edge_weights latencies no_sums in
      let lem = λ (n : String). score_nodes_lem latencies rpm sw weighted n given in
      elim (Bool-cases (fl.eq s.lmax s.lmin)) [
        | inl same ↦ let (stays, unsaved) = (lem "").0 same in rw (stays, unsaved) (unscored, all)
        | inr differ ↦
            let after = (score_nodes (ok latencies) rpm sw).0 in
            let left : IsUnscored edges after.scores =
              λ n edge. ground (arith, ((lem n).1 differ).1, own, edge, unscored n) in
            rw ((lem "").1 differ).0 (left, (left, all))
      ]

  after_round :
      (edges : List String) (latencies : Result (Map String (Map String F)))
      (rpm : Result (Map String F)) (w : Work F)
      → IsWorked edges w
      → let (after, saved) = score_nodes latencies rpm w.worker in
        IsUnscored edges after.scores × All (IsUnscored edges) (note_save saved w.saves)
  unfolding score_nodes score_weighted note_save
  after_round edges (err e) rpm w (own, unscored, all) = (unscored, all)
  after_round edges (ok latencies) rpm w (own, unscored, all) =
      elim (Result-cases (calculate_edge_weights rpm latencies w.worker)) [
        | inl (e, failed) ↦ rw failed (unscored, all)
        | inr (weighted, given) ↦
            let (scores, proxies) = weights_keep rpm latencies w.worker weighted given in
            scored-IsUnscored edges latencies rpm w.worker weighted w.saves given
              (proxies ∙ own, subst (IsUnscored edges) (sym scores) unscored, all)
      ]

  score_rounds-IsWorked :
      (edges : List String) (answers : List (Answers F)) (w : Work F)
      → IsWorked edges w
      → IsWorked edges (score_rounds answers w)
  unfolding score_rounds score_round
  score_rounds-IsWorked edges [] w i = i
  score_rounds-IsWorked edges (a ∷ answers) w i =
      let (unscored, all) = after_round edges a.latencies a.rpm w i in
      score_rounds-IsWorked edges answers (score_round a w)
        (score_nodes-edge_proxies a.latencies a.rpm w.worker ∙ i.0, unscored, all)

  -- A scores worker with a positive interval runs through any rounds, with any answers of the
  -- database, and never gives one of its edge proxies a score: neither in its own table nor in any
  -- that it asks the database to save.
  pub run_unscored :
      (interval : ℤ) (edges : List String) (answers : List (Answers F))
      → ltb_ℤ (pos 0) interval ≡ true
      → (w : Work F) × (run answers (new_scores_worker interval edges) ≡ ran w)
        × IsUnscored edges w.worker.scores
        × All (IsUnscored edges) w.saves
  unfolding run new_scores_worker Map.lookup
  run_unscored interval edges answers ticking =
      let start : Work F = record { worker = new_scores_worker interval edges; saves = [] } in
      let (own, unscored, all) =
        score_rounds-IsWorked edges answers start (refl, (λ n e. refl), tt) in
      (score_rounds answers start, rw ticking refl, unscored, all)
