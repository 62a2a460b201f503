-- ===== src/Profile/Table.antt =====
-- internal/adapters/profile.go: `ProfileTable`.
use data_profiler.Prelude.{
  ℕ, Bool, true, false, Option, none, some, List, [], ◌∷◌, map, Str, lit, str_eq, to_lower,
}
use data_profiler.Prelude.Int.{ℤ, pos}
use data_profiler.Prelude.Float.{Float64}
use data_profiler.Domain.{ColumnProfile, Relationship, TableProfile}
use data_profiler.Store.{Result, ok, err}
use data_profiler.Dialect.{Dialect}
use data_profiler.Dialect.Query.{Query, text}
use data_profiler.Dialect.Methods.{columns_query, relationships_query, sample_table_expr}
use data_profiler.Profile.Source.{Source, Rows, no_rows, rows, until_error, scanned}
use data_profiler.Profile.Queries.{qualified, count_query, duplicates_query}
use data_profiler.Profile.Details.{share_or_zero}
use data_profiler.Profile.Column.{ColumnMeta, empty_profile, profile_column}
use data_profiler.Profile.Gather.{Event, gather_all}
use data_profiler.Profile.Correlations.{add_numeric_correlations}

-- `strings.EqualFold(n, "YES")`
abbrev pub column_meta : Str × Str × Str → ColumnMeta
column_meta (name, typ, n) = record {
  name = name;
  data_type = typ;
  nullable = str_eq (to_lower n) (lit "yes");
}

-- The loop over the rows that describe the columns, and `rows.Err()`.
unfoldable pub scan_columns :
    List (Result (Str × Str × Str)) → Option Str → Result (List ColumnMeta)
scan_columns [] none = ok []
scan_columns [] (some e) = err e
scan_columns (err e ∷ rs) last = err e
scan_columns (ok r ∷ rs) last = elim (scan_columns rs last) [
  | err e ↦ err e
  | ok cs ↦ ok (column_meta r ∷ cs)
]

abbrev pub read_columns : Rows (Str × Str × Str) → Result (List ColumnMeta)
read_columns (no_rows e) = err e
read_columns (rows rs last) = scan_columns rs last

abbrev pub relationship : Str × Str × Str × Str → Relationship
relationship (column, schema, table, target) = record {
  column = column;
  target_schema = schema;
  target_table = table;
  target_column = target;
  typ = lit "foreign_key";
}

-- `addRelationships`
unfoldable pub add_relationships : Rows (Str × Str × Str × Str) → List Relationship
add_relationships found = map relationship (until_error (scanned found))

-- What the goroutines and the contexts do: the order in which the columns are handed in, and at which looks the
-- context is done.
pub record Course : Type 0 where
  pub events : List Event
  pub done : ℕ → Bool

infixl 5 ◌>>=◌
abbrev pub ◌>>=◌ : {B C : Type 0} → Result B → (B → Result C) → Result C
err message >>= rest = err message
ok found >>= rest = rest found

module _ (fl : Float64) (src : Source fl.F) (d : Dialect) where
  open fl use {F, of_int}

  -- SELECT COUNT(*) of the sample, if there is one.
  abbrev pub count_sample : ℤ → Query × Bool → Result ℤ
  count_sample total (from, true) = src.count (text d (count_query from))
  count_sample total (from, false) = ok total

  abbrev pub profile_columns : Query → ℤ → List ColumnMeta → List (ColumnProfile F × Option Str)
  profile_columns from total cols = map (λ c. profile_column fl src d from c total) cols

  abbrev pub with_duplicates : Result (Option ℤ) → ℤ → TableProfile F → TableProfile F
  with_duplicates (err e) total p = p
  with_duplicates (ok none) total p = p
  with_duplicates (ok (some n)) total p = record p {
    duplicate_row_count = n;
    duplicate_row_percentage = share_or_zero fl n total;
  }

  abbrev pub count_duplicates : Query → ℤ → List ColumnMeta → TableProfile F → TableProfile F
  count_duplicates from total [] p = p
  count_duplicates from total (c ∷ cols) p =
      with_duplicates
        (src.nullable_count (text d (duplicates_query from (map (λ m. m.name) (c ∷ cols))))) total p

  -- From the columns' profiles to the end.
  unfoldable pub assemble :
      Course
      → Str
      → Str
      → ℤ
      → ℤ
      → ℤ
      → Query × Bool
      → List ColumnMeta
      → List (ColumnProfile F)
      → TableProfile F
  assemble course schema table sample total sampled_rows (from, sampled) cols out =
      count_duplicates from sampled_rows cols (record {
        schema = schema;
        table = table;
        total_rows = total;
        sampled = sampled;
        sample_size = sample;
        columns = out;
        duplicate_row_count = pos 0;
        duplicate_row_percentage = of_int (pos 0);
        quality = record { score = of_int (pos 0); checks = [] };
        drift = none;
        correlations = add_numeric_correlations fl src d from course.done cols;
        relationships =
            add_relationships (src.relationship_rows (text d (relationships_query d)) schema table);
        created_at = 0;
      })

  -- From the sample on.
  abbrev pub profile_sample : Course → Str → Str → ℤ → ℤ → Query × Bool → Result (TableProfile F)
  profile_sample course schema table sample total (from, sampled) = do
    sampled_rows ← count_sample total (from, sampled)
    cols ← read_columns (src.column_rows (text d (columns_query d)) schema table)
    out ← gather_all (empty_profile fl) (profile_columns from sampled_rows cols) course.events
    ok (assemble course schema table sample total sampled_rows (from, sampled) cols out)

  unfoldable pub profile_table : Course → Str → Str → ℤ → Result (TableProfile F)
  profile_table course schema table sample = do
    total ← src.count (text d (count_query (qualified schema table)))
    sampled ← sample_table_expr fl d (qualified schema table) sample total
    profile_sample course schema table sample total sampled
