-- ===== src/Profile/Optional.antt =====
-- The queries without which there is no profile, and the others.
use data_profiler.Prelude.{◌≡◌, refl, Option, List, [], ◌∷◌, Str, length, inl, inr}
use data_profiler.Prelude.Int.{ℤ}
use data_profiler.Prelude.Float.{Float64}
use data_profiler.Domain.{TableProfile}
use data_profiler.Store.{Result, ok, err}
use data_profiler.Dialect.{Dialect}
use data_profiler.Dialect.Query.{Query, named, text}
use data_profiler.Dialect.Methods.{columns_query}
use data_profiler.Profile.Classify.{is_text, is_numeric, is_date_time}
use data_profiler.Profile.Source.{Source, Rows, Aggregates, Moments, Percentiles}
use data_profiler.Profile.Queries.{aggregates_query}
use data_profiler.Profile.Column.{ColumnMeta, empty_profile, described, profile_column}
use data_profiler.Profile.Table.{Course, read_columns, profile_columns, profile_table}
use data_profiler.Profile.Orders.{Covers, firsts, all_found, gather_all-orders}
use data_profiler.Profile.Reports.{profile_table-Steps, Steps-profile_table, length-profile_columns}

-- The answers to the other queries.
pub record Others (F : Type 0) : Type 0 where
  pub nullable_count : Str → Result (Option ℤ)
  pub nullable_float : Str → Result (Option F)
  pub moments : Str → Result (Moments F)
  pub percentiles : Str → Result (Percentiles F)
  pub relationship_rows : Str → Str → Str → Rows (Str × Str × Str × Str)
  pub value_rows : Str → Rows (Str × ℤ)
  pub bucket_rows : Str → Rows (ℤ × ℤ)
  pub group_rows : Str → Rows ℤ

-- The same source with other answers to them.
abbrev pub answering : {F : Type 0} → Source F → Others F → Source F
answering src o = record src {
  nullable_count = o.nullable_count;
  nullable_float = o.nullable_float;
  moments = o.moments;
  percentiles = o.percentiles;
  relationship_rows = o.relationship_rows;
  value_rows = o.value_rows;
  bucket_rows = o.bucket_rows;
  group_rows = o.group_rows;
}

module _ (fl : Float64) (src : Source fl.F) (d : Dialect) (o : Others fl.F) where
  open fl use {F}

  all_found-answering :
      (from : Query) (total : ℤ) (cols : List ColumnMeta)
      → all_found (profile_columns fl (answering src o) d from total cols)
        ≡ all_found (profile_columns fl src d from total cols)
  unfolding profile_column
  all_found-answering from total [] = refl
  all_found-answering from total (c ∷ cols) =
      let q = text d (
        aggregates_query d from (named c.name) (is_text c.data_type) (is_numeric c.data_type)
          (is_date_time c.data_type)) in
      go (src.aggregates q) (all_found-answering from total cols)
    where
      go :
          (r : Result (Aggregates F))
          → all_found (profile_columns fl (answering src o) d from total cols)
            ≡ all_found (profile_columns fl src d from total cols)
          → all_found (
              described fl (answering src o) d from c total r
              ∷ profile_columns fl (answering src o) d from total cols)
            ≡ all_found
                (described fl src d from c total r ∷ profile_columns fl src d from total cols)
      go (err e) ih = refl
      go (ok a) ih = ih

  -- A profile fails only by its counts of rows, its list of columns, the sample or a column's aggregates:
  -- whatever the other queries answer or fail with, a table that has a profile still has one.
  pub profile_table-optional :
      (course : Course) (schema table : Str) (sample : ℤ) (p : TableProfile F)
      → ((cols : List ColumnMeta)
          → read_columns (src.column_rows (text d (columns_query d)) schema table) ≡ ok cols
          → Covers course.events (length cols))
      → profile_table fl src d course schema table sample ≡ ok p
      → (q : TableProfile F) × (profile_table fl (answering src o) d course schema table sample
          ≡ ok q)
  profile_table-optional course schema table sample p all h =
      let s = profile_table-Steps fl src d schema table sample course p h in
      let found = profile_columns fl src d s.from s.sampled_rows s.cols in
      let found' = profile_columns fl (answering src o) d s.from s.sampled_rows s.cols in
      let covers = all s.cols s.described in
      let len = length-profile_columns fl src d s.from s.sampled_rows s.cols in
      let len' = length-profile_columns fl (answering src o) d s.from s.sampled_rows s.cols in
      let same = all_found-answering s.from s.sampled_rows s.cols in
      elim (gather_all-orders (empty_profile fl) found course.events (rw len covers)) [
        | inr (broken, (e, bad)) ↦ let gathered = s.gathered in cc (bad, gathered)
        | inl (fine, g) ↦
            elim (gather_all-orders (empty_profile fl) found' course.events (rw len' covers)) [
              | inr (broken, (e, bad)) ↦ cc (fine, broken, same)
              | inl (fine', g') ↦ (
                _,
                Steps-profile_table fl (answering src o) d schema table sample course _ (record {
                  total = s.total;
                  from = s.from;
                  sampled = s.sampled;
                  sampled_rows = s.sampled_rows;
                  cols = s.cols;
                  out = firsts found';
                  counted = s.counted;
                  chosen = s.chosen;
                  recounted = s.recounted;
                  described = s.described;
                  gathered = g';
                  assembled = refl;
                }),
              )
            ]
      ]
