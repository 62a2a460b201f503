-- ===== src/Profile/Facts.antt =====
-- What the later parts of a column's profile leave as it is.
use data_profiler.Prelude.{
  ◌≡◌, refl, ◌∙◌, ◌&&◌, ◌||◌, Bool, true, false, Option, none, some, Str, if◌then◌else◌,
}
use data_profiler.Prelude.Int.{ℤ, pos, sub64, leb_ℤ, ltb_ℤ}
use data_profiler.Prelude.Float.{Float64}
use data_profiler.Domain.{ColumnProfile}
use data_profiler.Store.{Result, ok, err}
use data_profiler.Dialect.{Dialect}
use data_profiler.Dialect.Query.{Query, named, text}
use data_profiler.Profile.Queries.{groups_query}
use data_profiler.Dialect.Methods.{pattern_counts_query}
use data_profiler.Profile.Classify.{is_text, is_numeric, is_date_time}
use data_profiler.Profile.Source.{Source, Rows, no_rows, rows, Aggregates, Moments, Percentiles}
use data_profiler.Profile.Details.{
  add_date_distribution, add_top_values, add_string_patterns, add_text_entropy,
  add_numeric_histogram, with_entropy,
}
use data_profiler.Profile.Column.{
  ColumnMeta, set_aggregates, set_dates, with_future, with_moments, with_outliers, with_percentiles,
  describe_dates, describe_text, describe_numbers, describe,
}

module _ (fl : Float64) where
  open fl use {F}

  -- What the later parts of a profile leave as it is.
  abbrev pub Facts : Type 0
  Facts = Str × Str × Bool × ℤ × ℤ × ℤ

  abbrev pub facts : ColumnProfile F → Facts
  facts p = (p.name, p.data_type, p.nullable, p.total_rows, p.null_count, p.distinct_count)

  facts-if :
      (b : Bool) (p q : ColumnProfile F) {x : Facts}
      → facts p ≡ x
      → facts q ≡ x
      → facts (if b then p else q) ≡ x
  facts-if true p q h k = h
  facts-if false p q h k = k

  facts-with_entropy :
      (found : Rows ℤ) (n m : ℤ) (p : ColumnProfile F)
      → facts (with_entropy fl found n m p) ≡ facts p
  facts-with_entropy (no_rows e) n m p = refl
  facts-with_entropy (rows rs none) n m p = refl
  facts-with_entropy (rows rs (some e)) n m p = refl

  facts-with_future :
      (n : Option ℤ) (total : ℤ) (p : ColumnProfile F) → facts (with_future fl n total p) ≡ facts p
  facts-with_future none total p = refl
  facts-with_future (some n) total p = refl

  facts-with_moments :
      (m : Result (Moments F)) (p : ColumnProfile F) → facts (with_moments fl m p) ≡ facts p
  facts-with_moments (err e) p = refl
  facts-with_moments (ok m) p = refl

  facts-with_outliers :
      (n : Result (Option ℤ)) (total : ℤ) (p : ColumnProfile F)
      → facts (with_outliers fl n total p) ≡ facts p
  facts-with_outliers (err e) total p = refl
  facts-with_outliers (ok none) total p = refl
  facts-with_outliers (ok (some n)) total p = refl

  facts-add_numeric_histogram :
      (found : Rows (ℤ × ℤ)) (total : ℤ) (p : ColumnProfile F)
      → facts (add_numeric_histogram fl found total p) ≡ facts p
  unfolding add_numeric_histogram
  facts-add_numeric_histogram found total p =
      facts-if (leb_ℤ (sub64 total p.null_count) (pos 0)) _ _ refl refl

  facts-with_percentiles :
      (s : Result (Percentiles F)) (buckets : Rows (ℤ × ℤ)) (n : Result (Option ℤ)) (total : ℤ)
      (p : ColumnProfile F)
      → facts (with_percentiles fl s buckets n total p) ≡ facts p
  facts-with_percentiles (err e) buckets n total p = refl
  facts-with_percentiles (ok s) buckets n total p =
      facts-with_outliers n total _ ∙ facts-add_numeric_histogram buckets total _

  facts-add_string_patterns :
      (found : Rows (Str × ℤ)) (total : ℤ) (p : ColumnProfile F)
      → facts (add_string_patterns fl found total p) ≡ facts p
  unfolding add_string_patterns
  facts-add_string_patterns found total p =
      facts-if (leb_ℤ (sub64 total p.null_count) (pos 0)) _ _ refl refl

  facts-add_text_entropy :
      (found : Rows ℤ) (total distinct : ℤ) (p : ColumnProfile F)
      → facts (add_text_entropy fl found total distinct p) ≡ facts p
  unfolding add_text_entropy
  facts-add_text_entropy found total distinct p =
      facts-if (leb_ℤ (sub64 total p.null_count) (pos 0) || leb_ℤ distinct (pos 1)) _ _ refl
        (facts-with_entropy found (sub64 total p.null_count) distinct p)

  module _ (src : Source F) (d : Dialect) (from : Query) (c : ColumnMeta) (total : ℤ) where
    facts-describe_dates :
        (a : Aggregates F) (p : ColumnProfile F)
        → facts (describe_dates fl src d from c total a p) ≡ facts p
    unfolding describe_dates set_dates add_date_distribution
    facts-describe_dates a p =
        facts-if (is_date_time c.data_type) _ _ (facts-with_future a.future_date_count total p) refl

    facts-describe_text :
        (p : ColumnProfile F) → facts (describe_text fl src d from c total p) ≡ facts p
    unfolding describe_text
    facts-describe_text p =
        let patterns = src.value_rows (text d (pattern_counts_query d (named c.name) from)) in
        let groups = src.group_rows (text d (groups_query from (named c.name))) in
        let q = add_string_patterns fl patterns total p in
        let more = add_text_entropy fl groups total q.distinct_count q in
        let kept : facts q ≡ facts p = facts-add_string_patterns patterns total p in
        let deep : facts more ≡ facts p =
          facts-add_text_entropy groups total q.distinct_count q ∙ kept in
        facts-if (is_text c.data_type) _ p
          (facts-if (ltb_ℤ (pos 1) q.distinct_count && leb_ℤ q.distinct_count (pos 10000)) more q
            deep kept)
          refl

    facts-describe_numbers :
        (p : ColumnProfile F) → facts (describe_numbers fl src d from c total p) ≡ facts p
    unfolding describe_numbers
    facts-describe_numbers p =
        facts-if (is_numeric c.data_type) _ _
          (facts-with_percentiles _ _ _ total _ ∙ facts-with_moments _ p) refl

    pub facts-describe :
        (a : Aggregates F)
        → facts (describe fl src d from c total a)
          ≡ (c.name, c.data_type, c.nullable, total, a.null_count, a.distinct_count)
    unfolding describe set_aggregates add_top_values
    facts-describe a = facts-describe_numbers _ ∙ (facts-describe_text _ ∙ facts-describe_dates a _)
