-- ===== src/Database/Reading.antt =====
-- What the client makes of the rows that a query answers.
use proxima_scheduler.Prelude.{
  String, Bool, true, false, ◌≡◌, refl, Option, none, some, List, [], ◌∷◌, ◌==◌, string_eq,
  if◌then◌else◌,
}
use proxima_scheduler.Map.{Map, lookup-insert, IsUnique, insert-IsUnique}
use proxima_scheduler.Map
use proxima_scheduler.Float.{Float}
use proxima_scheduler.Effect.{ok, err, database_error}
use proxima_scheduler.Database.{
  FluxRecord, Answer, query_failed, rows, note_value, read_rows, read_values,
}

module _ {F : Type 0} ⦃fl : Float F⦄ where
  -- The number of the last row that has one for the key.
  abbrev pub newer : Option String → Option F → String → Option F → Option F
  newer none value key old = old
  newer (some k) none key old = old
  newer (some k) (some value) key old = if k == key then some value else old

  unfoldable pub last_value : String → String → List (FluxRecord F) → Option F → Option F
  last_value tag key [] old = old
  last_value tag key (row ∷ rest) old =
      last_value tag key rest (newer (Map.lookup tag row.columns) row.value key old)

  note_value-lookup :
      (tag : Option String) (value : Option F) (key : String) (m : Map String F)
      → Map.lookup key (note_value tag value m) ≡ newer tag value key (Map.lookup key m)
  note_value-lookup none value key m = refl
  note_value-lookup (some k) none key m = refl
  note_value-lookup (some k) (some value) key m = lookup-insert k key value m

  note_value-IsUnique :
      (tag : Option String) (value : Option F) (m : Map String F)
      → IsUnique m
      → IsUnique (note_value tag value m)
  note_value-IsUnique none value m u = u
  note_value-IsUnique (some k) none m u = u
  note_value-IsUnique (some k) (some value) m u = insert-IsUnique k value m u

  read_rows_lem :
      (tag key : String) (found : List (FluxRecord F)) (m : Map String F)
      → Map.lookup key (read_rows tag found m) ≡ last_value tag key found (Map.lookup key m)
  unfolding read_rows last_value
  read_rows_lem tag key [] m = refl
  read_rows_lem tag key (row ∷ rest) m =
      rw
        (
          read_rows,
          read_rows_lem tag key rest (note_value (Map.lookup tag row.columns) row.value m),
          note_value-lookup (Map.lookup tag row.columns) row.value key m,
        )
        refl

  read_rows-IsUnique :
      (tag : String) (found : List (FluxRecord F)) (m : Map String F)
      → IsUnique m
      → IsUnique (read_rows tag found m)
  unfolding read_rows
  read_rows-IsUnique tag [] m u = u
  read_rows-IsUnique tag (row ∷ rest) m u =
      read_rows-IsUnique tag rest (note_value (Map.lookup tag row.columns) row.value m)
        (note_value-IsUnique (Map.lookup tag row.columns) row.value m u)

  abbrev pub fails : Answer F → Bool
  fails query_failed = true
  fails (rows found failed) = failed

  abbrev pub found_rows : Answer F → List (FluxRecord F)
  found_rows query_failed = []
  found_rows (rows found failed) = found

  -- A query that fails, at once or after some rows, gives an error, whatever the rows are. Each other
  -- answer gives a map with one entry for a key, the number of the last row that has one for it: rows
  -- without the key's column or without a number are passed over.
  pub read_values_lem :
      (tag : String) (a : Answer F)
      → (fails a ≡ true → read_values tag a ≡ err database_error)
        × (fails a ≡ false
            → (m : Map String F) × (read_values tag a ≡ ok m)
              × IsUnique m
              × ((key : String) → Map.lookup key m ≡ last_value tag key (found_rows a) none))
  unfolding read_values IsUnique Map.lookup
  read_values_lem tag query_failed = ((λ e. refl), (λ e. cc))
  read_values_lem tag (rows found true) = ((λ e. refl), (λ e. cc))
  read_values_lem tag (rows found false) = (
    (λ e. cc),
    (λ e. (
      read_rows tag found [],
      refl,
      read_rows-IsUnique tag found [] tt,
      λ key. read_rows_lem tag key found [],
    )),
  )
