-- ===== src/Profile/Reports.antt =====
-- What a profile of a table depends on.
use data_profiler.Prelude.{
  suc, ◌≡◌, refl, sym, ap, ◌∙◌, Bool, Option, List, [], ◌∷◌, Str, length, inl, inr,
}
use data_profiler.Prelude.Int.{ℤ}
use data_profiler.Prelude.Float.{Float64}
use data_profiler.Domain.{ColumnProfile, TableProfile}
use data_profiler.Store.{Result, ok, err}
use data_profiler.Dialect.{Dialect}
use data_profiler.Dialect.Query.{Query, text}
use data_profiler.Dialect.Methods.{columns_query, sample_table_expr}
use data_profiler.Profile.Source.{Source}
use data_profiler.Profile.Queries.{qualified, count_query}
use data_profiler.Profile.Column.{ColumnMeta, empty_profile}
use data_profiler.Profile.Gather.{Event, gather_all}
use data_profiler.Profile.Table.{
  Course, ◌>>=◌, read_columns, count_sample, profile_columns, assemble, profile_sample,
  profile_table,
}
use data_profiler.Profile.Orders.{Covers, gather_all-orders}

-- A step of a successful profile has succeeded, and so has what follows it.
both_succeed :
    {B C : Type 0} (step : Result B) (rest : B → Result C) {c : C}
    → ok c ≡ (step >>= rest)
    → (b : B) × (step ≡ ok b) × (rest b ≡ ok c)
both_succeed (err message) rest told = cc told
both_succeed (ok b) rest told = (b, refl, sym told)

module _ (fl : Float64) (src : Source fl.F) (d : Dialect) where
  pub length-profile_columns :
      (from : Query) (total : ℤ) (cols : List ColumnMeta)
      → length (profile_columns fl src d from total cols) ≡ length cols
  length-profile_columns from total [] = refl
  length-profile_columns from total (c ∷ cols) = ap suc (length-profile_columns from total cols)

module _ (fl : Float64) (src : Source fl.F) (d : Dialect) (schema table : Str) (sample : ℤ) where
  open fl use {F}

  -- Every step that a successful profile has taken.
  pub record Steps (course : Course) (p : TableProfile F) : Type 0 where
    pub total : ℤ
    pub from : Query
    pub sampled : Bool
    pub sampled_rows : ℤ
    pub cols : List ColumnMeta
    pub out : List (ColumnProfile F)
    pub counted : src.count (text d (count_query (qualified schema table))) ≡ ok total
    pub chosen : sample_table_expr fl d (qualified schema table) sample total ≡ ok (from, sampled)
    pub recounted : count_sample fl src d total (from, sampled) ≡ ok sampled_rows
    pub described : read_columns (src.column_rows (text d (columns_query d)) schema table) ≡ ok cols
    pub gathered :
        gather_all
          (empty_profile fl)
          (profile_columns fl src d from sampled_rows cols)
          course.events
        ≡ ok out
    pub assembled :
        assemble fl src d course schema table sample total sampled_rows (from, sampled) cols out ≡ p

  same_out :
      (found : List (ColumnProfile F × Option Str)) (es fs : List Event)
      (out : List (ColumnProfile F))
      → Covers es (length found)
      → Covers fs (length found)
      → gather_all (empty_profile fl) found es ≡ ok out
      → gather_all (empty_profile fl) found fs ≡ ok out
  same_out found es fs out one other h = elim (gather_all-orders (empty_profile fl) found es one) [
    | inr (broken, (e, bad)) ↦ cc (bad, h)
    | inl (fine, g) ↦ elim (gather_all-orders (empty_profile fl) found fs other) [
      | inl (fine', g') ↦ g' ∙ sym g ∙ h
      | inr (broken, (e, bad)) ↦ cc (fine, broken)
    ]
  ]

  unwrap : {A : Type 0} → A → Result A → A
  unwrap a (ok b) = b
  unwrap a (err e) = a

  ok-injective : {A : Type 0} {a b : A} → ok a ≡ ok b → a ≡ b
  unfolding unwrap
  ok-injective {A} {a} h = ap (unwrap a) h

  pub profile_table-Steps :
      (course : Course) (p : TableProfile F)
      → profile_table fl src d course schema table sample ≡ ok p
      → Steps course p
  unfolding profile_table
  profile_table-Steps course p h =
      let (total, counted, h1) =
        both_succeed (src.count (text d (count_query (qualified schema table)))) _ (sym h) in
      let (chosen_from, chosen, h2) =
        both_succeed (sample_table_expr fl d (qualified schema table) sample total) _ (sym h1) in
      go total counted chosen_from chosen h2
    where
      go :
          (total : ℤ)
          → src.count (text d (count_query (qualified schema table))) ≡ ok total
          → (s : Query × Bool) → sample_table_expr fl d (qualified schema table) sample total ≡ ok s
          → profile_sample fl src d course schema table sample total s ≡ ok p
          → Steps course p
      go total counted (from, sampled) chosen h2 =
          let (sampled_rows, recounted, h3) =
            both_succeed (count_sample fl src d total (from, sampled)) _ (sym h2) in
          let (cols, described, h4) =
            both_succeed (read_columns (src.column_rows (text d (columns_query d)) schema table)) _
              (sym h3) in
          let (out, gathered, h5) =
            both_succeed
              (gather_all (empty_profile fl) (profile_columns fl src d from sampled_rows cols)
                course.events)
              _ (sym h4) in
          record {
            total = total;
            from = from;
            sampled = sampled;
            sampled_rows = sampled_rows;
            cols = cols;
            out = out;
            counted = counted;
            chosen = chosen;
            recounted = recounted;
            described = described;
            gathered = gathered;
            assembled = ok-injective h5;
          }

  pub Steps-profile_table :
      (course : Course) (p : TableProfile F)
      → Steps course p
      → profile_table fl src d course schema table sample ≡ ok p
  unfolding profile_table
  Steps-profile_table course p s =
      rw (s.counted, s.chosen, s.recounted, s.described, s.gathered) (ap (λ q. ok q) s.assembled)

  -- The order in which the goroutines finish does not change a profile: what is found in one order in which all
  -- of them finish is found in every other.
  pub profile_table-orders :
      (course : Course) (es : List Event) (p : TableProfile F)
      → ((cols : List ColumnMeta)
          → read_columns (src.column_rows (text d (columns_query d)) schema table) ≡ ok cols
          → Covers course.events (length cols) × Covers es (length cols))
      → profile_table fl src d course schema table sample ≡ ok p
      → profile_table fl src d (record course { events = es }) schema table sample ≡ ok p
  unfolding assemble
  profile_table-orders course es p all h =
      let s = profile_table-Steps course p h in
      let found = profile_columns fl src d s.from s.sampled_rows s.cols in
      let len = length-profile_columns fl src d s.from s.sampled_rows s.cols in
      let (one, other) = all s.cols s.described in
      let same = same_out found course.events es s.out (rw len one) (rw len other) s.gathered in
      Steps-profile_table (record course { events = es }) p
        (record {
          total = s.total;
          from = s.from;
          sampled = s.sampled;
          sampled_rows = s.sampled_rows;
          cols = s.cols;
          out = s.out;
          counted = s.counted;
          chosen = s.chosen;
          recounted = s.recounted;
          described = s.described;
          gathered = same;
          assembled = s.assembled;
        })
