-- ===== src/Profile/Column.antt =====
-- internal/adapters/profile.go: `profileColumn`.
use data_profiler.Prelude.{Bool, false, ◌&&◌, Option, none, some, [], Str, if◌then◌else◌}
use data_profiler.Prelude.Int.{ℤ, pos, sub64, leb_ℤ, ltb_ℤ}
use data_profiler.Prelude.Float.{Float64}
use data_profiler.Domain.{ColumnProfile}
use data_profiler.Store.{Result, ok, err}
use data_profiler.Dialect.{Dialect}
use data_profiler.Dialect.Query.{Query, named, text}
use data_profiler.Dialect.Methods.{
  date_distribution_query, pattern_counts_query, numeric_advanced_stats_query,
  numeric_histogram_query,
}
use data_profiler.Profile.Classify.{is_text, is_numeric, is_date_time}
use data_profiler.Profile.Source.{Source, Rows, Aggregates, Moments, Percentiles}
use data_profiler.Profile.Queries.{
  aggregates_query, top_values_query, stats_query, outliers_query, groups_query,
}
use data_profiler.Profile.Details.{
  share_or_zero, nullable_float, add_date_distribution, add_top_values, add_string_patterns,
  add_text_entropy, add_numeric_histogram,
}

pub record ColumnMeta : Type 0 where
  pub name : Str
  pub data_type : Str
  pub nullable : Bool

module _ (fl : Float64) where
  open fl use {F, of_int, is_nan}

  abbrev zero : F
  zero = of_int (pos 0)

  -- The zero value of `domain.ColumnProfile`.
  abbrev pub empty_profile : ColumnProfile F
  empty_profile = record {
    name = [];
    data_type = [];
    nullable = false;
    total_rows = pos 0;
    null_count = pos 0;
    null_percentage = zero;
    distinct_count = pos 0;
    distinct_percentage = zero;
    empty_count = pos 0;
    whitespace_count = pos 0;
    zero_count = pos 0;
    min = none;
    max = none;
    avg = none;
    sum = none;
    variance = none;
    skewness = none;
    kurtosis = none;
    std_dev = none;
    median = none;
    p50 = none;
    p75 = none;
    p90 = none;
    p95 = none;
    p99 = none;
    min_length = none;
    max_length = none;
    avg_length = none;
    future_date_count = pos 0;
    future_date_percentage = zero;
    date_range_days = none;
    date_distribution = [];
    top_values = [];
    patterns = [];
    pii = [];
    pii_confidence = zero;
    outlier_count = pos 0;
    outlier_percentage = zero;
    histogram = [];
    entropy = none;
    normalized_entropy = none;
  }

  abbrev pub new_profile : ColumnMeta → ℤ → ColumnProfile F
  new_profile c total = record empty_profile {
    name = c.name;
    data_type = c.data_type;
    nullable = c.nullable;
    total_rows = total;
  }

  -- The scanned aggregates and the two percentages of the rows.
  unfoldable pub set_aggregates : Aggregates F → ℤ → ColumnProfile F → ColumnProfile F
  set_aggregates a total p = record p {
    null_count = a.null_count;
    distinct_count = a.distinct_count;
    empty_count = a.empty_count;
    whitespace_count = a.whitespace_count;
    zero_count = a.zero_count;
    null_percentage = share_or_zero fl a.null_count total;
    distinct_percentage = share_or_zero fl a.distinct_count total;
    min_length = a.min_len;
    max_length = a.max_len;
    avg_length = nullable_float fl a.avg_len;
    min = a.min_value;
    max = a.max_value;
    avg = nullable_float fl a.avg_num;
  }

  abbrev pub with_future : Option ℤ → ℤ → ColumnProfile F → ColumnProfile F
  with_future none total p = p
  with_future (some n) total p = record p {
    future_date_count = n;
    future_date_percentage = share_or_zero fl n (sub64 total p.null_count);
  }

  unfoldable pub set_dates : Aggregates F → ℤ → ColumnProfile F → ColumnProfile F
  set_dates a total p = record (with_future a.future_date_count total p) {
    date_range_days = nullable_float fl a.date_range_days;
  }

  abbrev pub with_moments : Result (Moments F) → ColumnProfile F → ColumnProfile F
  with_moments (err e) p = p
  with_moments (ok m) p = record p {
    sum = nullable_float fl m.sum;
    variance = nullable_float fl m.variance;
    skewness = nullable_float fl m.skewness;
    kurtosis = nullable_float fl m.kurtosis;
  }

  abbrev pub with_outliers : Result (Option ℤ) → ℤ → ColumnProfile F → ColumnProfile F
  with_outliers (err e) total p = p
  with_outliers (ok none) total p = p
  with_outliers (ok (some n)) total p = record p {
    outlier_count = n;
    outlier_percentage = share_or_zero fl n (sub64 total p.null_count);
  }

  -- The percentiles, and only where they are found the histogram and the outliers.
  abbrev pub with_percentiles :
      Result (Percentiles F)
      → Rows (ℤ × ℤ)
      → Result (Option ℤ)
      → ℤ
      → ColumnProfile F
      → ColumnProfile F
  with_percentiles (err e) buckets outliers total p = p
  with_percentiles (ok s) buckets outliers total p = with_outliers outliers total (
      add_numeric_histogram fl buckets total (record p {
        std_dev = nullable_float fl s.stddev;
        median = nullable_float fl s.median;
        p50 = nullable_float fl s.median;
        p75 = nullable_float fl s.p75;
        p90 = nullable_float fl s.p90;
        p95 = nullable_float fl s.p95;
        p99 = nullable_float fl s.p99;
      }))

  module _ (src : Source F) (d : Dialect) (from : Query) (c : ColumnMeta) (total : ℤ) where
    abbrev qc : Query
    qc = named c.name

    unfoldable pub describe_dates : Aggregates F → ColumnProfile F → ColumnProfile F
    describe_dates a p =
        if is_date_time c.data_type
        then add_date_distribution fl (src.value_rows (text d (date_distribution_query d qc from)))
            total (set_dates a total p)
        else p

    unfoldable pub describe_text : ColumnProfile F → ColumnProfile F
    describe_text p =
        if is_text c.data_type
        then (let q =
              add_string_patterns fl (src.value_rows (text d (pattern_counts_query d qc from)))
                total p in
            if ltb_ℤ (pos 1) q.distinct_count && leb_ℤ q.distinct_count (pos 10000)
            then add_text_entropy fl (src.group_rows (text d (groups_query from qc))) total
                q.distinct_count q
            else q)
        else p

    unfoldable pub describe_numbers : ColumnProfile F → ColumnProfile F
    describe_numbers p =
        if is_numeric c.data_type
        then with_percentiles (src.percentiles (text d (stats_query d from qc)))
            (src.bucket_rows (text d (numeric_histogram_query d qc from)))
            (src.nullable_count (text d (outliers_query from qc))) total
            (with_moments (src.moments (text d (numeric_advanced_stats_query d from qc))) p)
        else p

    unfoldable pub describe : Aggregates F → ColumnProfile F
    describe a = describe_numbers (
        describe_text (
          add_top_values fl (src.value_rows (text d (top_values_query d from qc))) total
            (describe_dates a (set_aggregates a total (new_profile c total)))))

    -- The profile, and the error if there is one. What Scan stored before it failed is left out: nobody reads it.
    abbrev pub described : Result (Aggregates F) → ColumnProfile F × Option Str
    described (err e) = (new_profile c total, some e)
    described (ok a) = (describe a, none)

    unfoldable pub profile_column : ColumnProfile F × Option Str
    profile_column = described (
        src.aggregates (
          text d (
            aggregates_query d from qc (is_text c.data_type) (is_numeric c.data_type)
              (is_date_time c.data_type))))
