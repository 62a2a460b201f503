-- ===== src/Drift.antt =====
-- internal/drift/drift.go: the comparison of two profiles of a table. Go visits the entries of its two
-- maps in an order of its own choosing, so the order is an argument.
pub mod Map
pub mod Lines
pub mod Order
pub mod Same
mod Tests
use data_profiler.Prelude.{
  ℕ, Bool, true, false, not, ◌&&◌, ◌||◌, Option, none, some, List, [], ◌∷◌, ◌++◌, Str, lit, str_eq,
  if◌then◌else◌, print_ℤ,
}
use data_profiler.Prelude.Int.{ℤ, pos, eqb_ℤ}
use data_profiler.Prelude.Float.{Float64}
use data_profiler.Domain.{ColumnProfile, TableProfile, DriftReport}
use mathlib.Core.Bool.{xor}
use Map.{lookup, insert}

-- "<title><name> (<old> -> <current>)"
abbrev pub arrow : Str → Str → Str → Str → Str
arrow title name old current =
    title ++ (name ++ (lit " (" ++ (old ++ (lit " -> " ++ (current ++ lit ")")))))

module _ (fl : Float64) where
  open fl use {F, of_int, fsub, flt, fle, feq, fmt2}

  abbrev pub Columns : Type 0
  Columns = List (Str × ColumnProfile F)

  -- `m[c.Name] = c` for each column: of two columns with one name the later stays.
  unfoldable pub column_map : List (ColumnProfile F) → Columns → Columns
  column_map [] m = m
  column_map (c ∷ columns) m = column_map columns (insert c.name c m)

  unfoldable pub significant_delta : F → F → F → Bool
  significant_delta old current threshold =
      let delta = fsub current old in
      fle threshold (if flt delta (of_int (pos 0)) then fsub (of_int (pos 0)) delta else delta)

  -- `r.Changed` and `r.ColumnChanges`
  pub record Changes : Type 0 where
    pub changed : Bool
    pub column_changes : List Str

  -- One `if` of the source: it sets the flag and appends a line.
  abbrev pub note : Bool → Str → Changes → Changes
  note true line r = record { changed = true; column_changes = r.column_changes ++ line ∷ [] }
  note false line r = r

  abbrev pub arrow_percent : Str → Str → F → F → Str
  arrow_percent title name old current =
      arrow title name (fmt2 old ++ lit "%") (fmt2 current ++ lit "%")

  unfoldable pub compare_column : Str → ColumnProfile F → ColumnProfile F → Changes → Changes
  compare_column name old current r =
      note (not (str_eq old.pii current.pii))
        (arrow (lit "PII classification changed: ") name old.pii current.pii)
        (note (significant_delta old.outlier_percentage current.outlier_percentage (of_int (pos 5)))
          (arrow_percent (lit "outlier percentage changed: ") name old.outlier_percentage
            current.outlier_percentage)
          (note
            (significant_delta old.distinct_percentage current.distinct_percentage
              (of_int (pos 10)))
            (arrow_percent (lit "distinct percentage changed: ") name old.distinct_percentage
              current.distinct_percentage)
            (note (significant_delta old.null_percentage current.null_percentage (of_int (pos 10)))
              (arrow_percent (lit "null percentage changed: ") name old.null_percentage
                current.null_percentage)
              (note (not (eqb_ℤ old.distinct_count current.distinct_count))
                (arrow (lit "distinct count changed: ") name (print_ℤ old.distinct_count)
                  (print_ℤ current.distinct_count))
                (note (xor old.nullable current.nullable) (lit "nullability changed: " ++ name) (
                  note (not (str_eq old.data_type current.data_type))
                    (arrow (lit "type changed: ") name old.data_type current.data_type) r))))))

  abbrev pub compare_entry : Str → ColumnProfile F → Option (ColumnProfile F) → Changes → Changes
  compare_entry name old none r = note true (lit "removed: " ++ name) r
  compare_entry name old (some current) r = compare_column name old current r

  -- The loops over `oldCols` and `newCols`.
  unfoldable pub visit_old : Columns → Columns → Changes → Changes
  visit_old new_cols [] r = r
  visit_old new_cols ((name, old) ∷ rest) r =
      visit_old new_cols rest (compare_entry name old (lookup name new_cols) r)

  abbrev pub is_missing : Option (ColumnProfile F) → Bool
  is_missing none = true
  is_missing (some c) = false

  unfoldable pub visit_new : Columns → Columns → Changes → Changes
  visit_new old_cols [] r = r
  visit_new old_cols ((name, c) ∷ rest) r =
      visit_new old_cols rest (note (is_missing (lookup name old_cols)) (lit "added: " ++ name) r)

  -- `order` is the order in which a map is visited.
  unfoldable pub compare : (Columns → Columns) → TableProfile F → TableProfile F → DriftReport F
  compare order a b =
      let delta = fsub b.quality.score a.quality.score in
      let old_cols = column_map a.columns [] in
      let new_cols = column_map b.columns [] in
      let r =
        note (not (eqb_ℤ a.duplicate_row_count b.duplicate_row_count))
          (lit "duplicate rows changed: "
            ++ (print_ℤ a.duplicate_row_count ++ (lit " -> " ++ print_ℤ b.duplicate_row_count)))
          (visit_new old_cols (order new_cols) (
            visit_old new_cols (order old_cols) (
              note (not (feq delta (of_int (pos 0))))
                (lit "quality score changed: "
                  ++ (fmt2 a.quality.score ++ (lit " -> " ++ fmt2 b.quality.score)))
                (record { changed = false; column_changes = [] })))) in
      record { changed = r.changed; score_delta = delta; column_changes = r.column_changes }
