-- ===== src/Profile/Columns.antt =====
-- The columns of a profile.
use data_profiler.Prelude.{
  ◌≡◌, refl, sym, ap, ◌∙◌, Bool, true, false, ◌⊎◌, Option, none, some, List, [], ◌∷◌, Str, length,
  inl, inr, subst,
}
use data_profiler.Prelude.Int.{ℤ}
use data_profiler.Prelude.Float.{Float64}
use data_profiler.Domain.{ColumnProfile, TableProfile}
use data_profiler.Store.{Result, ok, err}
use data_profiler.Dialect.{Dialect}
use data_profiler.Dialect.Query.{Query, named, text}
use data_profiler.Profile.Queries.{aggregates_query, qualified, count_query}
use data_profiler.Dialect.Methods.{columns_query, sample_table_expr}
use data_profiler.Profile.Classify.{is_text, is_numeric, is_date_time}
use data_profiler.Profile.Source.{Source, Aggregates}
use data_profiler.Profile.Column.{ColumnMeta, empty_profile, described, profile_column}
use data_profiler.Profile.Table.{
  Course, read_columns, count_sample, with_duplicates, count_duplicates, assemble, profile_columns,
  profile_table,
}
use data_profiler.Profile.Orders.{Covers, firsts, all_found, gather_all-orders}
use data_profiler.Profile.Reports.{profile_table-Steps, length-profile_columns}
use data_profiler.Profile.Facts.{facts, facts-describe}

module _ (fl : Float64) where
  open fl use {F}

  -- What a column's profile says first: its name, type and nullability, the rows that were read, and
  -- the two counts of its aggregates.
  abbrev pub Describes : Source F → Dialect → Query → ℤ → ColumnMeta → ColumnProfile F → Type 0
  Describes src d from total c p =
      (a : Aggregates F) × (src.aggregates (
          text d (
            aggregates_query d from (named c.name) (is_text c.data_type) (is_numeric c.data_type)
              (is_date_time c.data_type)))
        ≡ ok a)
      × (facts fl p ≡ (c.name, c.data_type, c.nullable, total, a.null_count, a.distinct_count))

  -- The same for each column in turn.
  abbrev pub AllDescribe :
      Source F → Dialect → Query → ℤ → List ColumnMeta → List (ColumnProfile F) → Type 0
  AllDescribe src d from total [] [] = Unit
  AllDescribe src d from total [] (p ∷ ps) = ⊥
  AllDescribe src d from total (c ∷ cols) [] = ⊥
  AllDescribe src d from total (c ∷ cols) (p ∷ ps) =
      Describes src d from total c p × AllDescribe src d from total cols ps

  firsts-AllDescribe :
      (src : Source F) (d : Dialect) (from : Query) (total : ℤ) (cols : List ColumnMeta)
      → all_found (profile_columns fl src d from total cols) ≡ true
      → AllDescribe src d from total cols (firsts (profile_columns fl src d from total cols))
  unfolding profile_column
  firsts-AllDescribe src d from total [] h = tt
  firsts-AllDescribe src d from total (c ∷ cols) h =
      go (src.aggregates q) refl (firsts-AllDescribe src d from total cols) h
    where
      q : Str
      q = text d (
          aggregates_query d from (named c.name) (is_text c.data_type) (is_numeric c.data_type)
            (is_date_time c.data_type))

      go :
          (r : Result (Aggregates F))
          → src.aggregates q ≡ r
          → (all_found (profile_columns fl src d from total cols) ≡ true
              → AllDescribe src d from total cols
                  (firsts (profile_columns fl src d from total cols)))
          → all_found (described fl src d from c total r ∷ profile_columns fl src d from total cols)
            ≡ true
          → AllDescribe src d from total (c ∷ cols) (
              firsts (described fl src d from c total r ∷ profile_columns fl src d from total cols))
      go (err e) at others h' = cc h'
      go (ok a) at others h' = ((a, at, facts-describe fl src d from c total a), others h')

  columns-with_duplicates :
      (src : Source F) (d : Dialect) (n : Result (Option ℤ)) (total : ℤ) (p : TableProfile F)
      → (with_duplicates fl src d n total p).columns ≡ p.columns
  columns-with_duplicates src d (err e) total p = refl
  columns-with_duplicates src d (ok none) total p = refl
  columns-with_duplicates src d (ok (some n)) total p = refl

  columns-count_duplicates :
      (src : Source F) (d : Dialect) (from : Query) (total : ℤ) (cols : List ColumnMeta)
      (p : TableProfile F)
      → (count_duplicates fl src d from total cols p).columns ≡ p.columns
  columns-count_duplicates src d from total [] p = refl
  columns-count_duplicates src d from total (c ∷ cols) p = columns-with_duplicates src d _ total p

  columns-assemble :
      (src : Source F) (d : Dialect) (course : Course) (schema table : Str)
      (sample total sampled_rows : ℤ) (from : Query) (sampled : Bool) (cols : List ColumnMeta)
      (out : List (ColumnProfile F))
      → (assemble fl src d course schema table sample total sampled_rows
          (from, sampled)
          cols
          out).columns
        ≡ out
  unfolding assemble
  columns-assemble src d course schema table sample total sampled_rows from sampled cols out =
      columns-count_duplicates src d from sampled_rows cols _

  -- What a profile reads: the table itself or the sample of it that was chosen, and how many rows that has by the
  -- answers of the count queries.
  abbrev pub Reads : Source F → Dialect → Str → Str → ℤ → Query → ℤ → Type 0
  Reads src d schema table sample from total =
      (all : ℤ) × (src.count (text d (count_query (qualified schema table))) ≡ ok all)
      × (((sample_table_expr fl d (qualified schema table) sample all ≡ ok (from, true))
            × (src.count (text d (count_query from)) ≡ ok total))
          ⊎ ((sample_table_expr fl d (qualified schema table) sample all ≡ ok (from, false))
              × (total ≡ all)))

  Steps-Reads :
      (src : Source F) (d : Dialect) (schema table : Str) (sample all : ℤ) (from : Query)
      (sampled : Bool) (total : ℤ)
      → src.count (text d (count_query (qualified schema table))) ≡ ok all
      → sample_table_expr fl d (qualified schema table) sample all ≡ ok (from, sampled)
      → count_sample fl src d all (from, sampled) ≡ ok total
      → Reads src d schema table sample from total
  Steps-Reads src d schema table sample all from true total counted chosen recounted =
      (all, counted, inl (chosen, recounted))
  Steps-Reads src d schema table sample all from false total counted chosen recounted =
      (all, counted, inr (chosen, cc recounted))

  -- If all the goroutines finish, the columns of a profile are those that the database lists, in that order: each
  -- has the column's name, type and nullability, the number of rows that are read, and the numbers of null and
  -- of distinct values that its own aggregates query answers. What is read is what the sample's expression of the
  -- table gives for the table's count, and its rows are the answer of the count query of the sample if it is a
  -- sample, and the table's count otherwise.
  pub profile_table-columns :
      (src : Source F) (d : Dialect) (course : Course) (schema table : Str) (sample : ℤ)
      (p : TableProfile F)
      → ((cols : List ColumnMeta)
          → read_columns (src.column_rows (text d (columns_query d)) schema table) ≡ ok cols
          → Covers course.events (length cols))
      → profile_table fl src d course schema table sample ≡ ok p
      → (from : Query) × (total : ℤ) × (cols : List ColumnMeta) × Reads src d schema table sample
          from total
        × (read_columns (src.column_rows (text d (columns_query d)) schema table) ≡ ok cols)
        × AllDescribe src d from total cols p.columns
  profile_table-columns src d course schema table sample p all h =
      let s = profile_table-Steps fl src d schema table sample course p h in
      let found = profile_columns fl src d s.from s.sampled_rows s.cols in
      let len = length-profile_columns fl src d s.from s.sampled_rows s.cols in
      elim (gather_all-orders (empty_profile fl) found course.events
        (rw len (all s.cols s.described))) [
          | inr (broken, (e, bad)) ↦ let gathered = s.gathered in cc (bad, gathered)
          | inl (fine, g) ↦
              let gathered = s.gathered in
              let same : firsts found ≡ s.out = cc (g, gathered) in
              let told : firsts found ≡ p.columns =
                same
                ∙ sym (
                    columns-assemble src d course schema table sample s.total s.sampled_rows s.from
                      s.sampled s.cols s.out)
                ∙ ap (λ q. q.columns) s.assembled in
              (
                s.from,
                s.sampled_rows,
                s.cols,
                Steps-Reads src d schema table sample s.total s.from s.sampled s.sampled_rows
                    s.counted s.chosen s.recounted,
                s.described,
                subst (λ l. AllDescribe src d s.from s.sampled_rows s.cols l) told
                    (firsts-AllDescribe src d s.from s.sampled_rows s.cols fine),
              )
        ]
