-- ===== src/Database/Answers.antt =====
-- How InfluxDB evaluates the filters of a query, as its documentation says: each field of a point
-- gives a row, with the point's tags as its columns, where the measurement, the field and the tags are
-- the ones that the filters name. Where a group has one row, that row is its mean and its last one.
use proxima_scheduler.Prelude.{
  String, Bool, true, false, ◌&&◌, ◌≡◌, ◌≢◌, refl, ◌∙◌, none, some, List, [], ◌∷◌, ◌++◌, ◌==◌,
  string_eq, All, beq_ne, if◌then◌else◌,
}
use proxima_scheduler.Map.{Map}
use proxima_scheduler.Map
use proxima_scheduler.Database.{Point, FluxRecord, Answer, rows}
use proxima_scheduler.Database.Queries.{Query}

module _ {F : Type 0} where
  -- One filter, on a field of a point.
  unfoldable pub passes_one : String → String → Point F → String → Bool
  passes_one key value p field =
      if key == "_measurement"
      then p.measurement == value
      else if key == "_field"
      then field == value
      else elim (Map.lookup key p.tags) [ none ↦ false | some tag ↦ tag == value ]

  unfoldable pub passes : Map String String → Point F → String → Bool
  passes [] p field = true
  passes ((key, value) ∷ filters) p field = passes_one key value p field && passes filters p field

  unfoldable pub field_rows :
      Map String String → Point F → Map String F → List (FluxRecord F) → List (FluxRecord F)
  field_rows filters p [] rest = rest
  field_rows filters p ((field, value) ∷ fields) rest =
      let more = field_rows filters p fields rest in
      if passes filters p field
      then record { columns = p.tags; value = some value } ∷ more
      else more

  unfoldable pub rows_of : Map String String → List (Point F) → List (FluxRecord F)
  rows_of filters [] = []
  rows_of filters (p ∷ points) = field_rows filters p p.fields (rows_of filters points)

  -- The database answers queries with these filters, where each group has one row of the points.
  abbrev pub IsAnswering :
      (Query → Answer F) → List (Point F) → Map String String → List String → Type 0
  IsAnswering run points filters group =
      (q : Query)
      → q.filters ≡ filters
      → q.group ≡ group
      → run q ≡ rows (rows_of filters points) false

  -- Points of other measurements give no rows.
  abbrev pub IsElsewhere : String → List (Point F) → Type 0
  IsElsewhere measurement points = All (λ (p : Point F). p.measurement ≢ measurement) points

  no_rows :
      (measurement : String) (p : Point F) (fields : Map String F) (rest : List (FluxRecord F))
      → p.measurement ≢ measurement
      → field_rows (("_measurement", measurement) ∷ []) p fields rest ≡ rest
  unfolding field_rows passes passes_one
  no_rows measurement p [] rest other = refl
  no_rows measurement p ((field, value) ∷ fields) rest other =
      rw ((beq_ne p.measurement measurement).1 other, no_rows measurement p fields rest other) refl

  pub rows_of-append :
      (measurement : String) (others points : List (Point F))
      → IsElsewhere measurement others
      → rows_of (("_measurement", measurement) ∷ []) (others ++ points)
        ≡ rows_of (("_measurement", measurement) ∷ []) points
  unfolding rows_of
  rows_of-append measurement [] points all = refl
  rows_of-append measurement (p ∷ others) points (other, all) =
      no_rows measurement p p.fields
        (rows_of (("_measurement", measurement) ∷ []) (others ++ points)) other
      ∙ rows_of-append measurement others points all
