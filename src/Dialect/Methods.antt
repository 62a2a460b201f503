-- ===== src/Dialect/Methods.antt =====
-- internal/adapters/adapter.go: the interface `Dialect`, by the type of the source's database.
use data_profiler.Prelude.{Bool, true, false, ◌||◌, [], ◌∷◌, lit, print_ℤ, if◌then◌else◌}
use data_profiler.Prelude.Int.{ℤ, pos, leb_ℤ}
use data_profiler.Prelude.Float.{Float64}
use data_profiler.Store.{Result, ok, err}
use data_profiler.Dialect.Query.{Query, words, sql, join}
use data_profiler.Dialect.Postgres
use data_profiler.Dialect.Mysql
use data_profiler.Dialect.SqlServer
use data_profiler.Dialect.{Dialect, postgres, mysql, sqlserver}

unfoldable pub tables_query : Dialect → Query
tables_query postgres = Postgres.tables_query
tables_query mysql = Mysql.tables_query
tables_query sqlserver = SqlServer.tables_query

unfoldable pub columns_query : Dialect → Query
columns_query postgres = Postgres.columns_query
columns_query mysql = Mysql.columns_query
columns_query sqlserver = SqlServer.columns_query

unfoldable pub count_expr : Dialect → Query → Query
count_expr postgres = Postgres.count_expr
count_expr mysql = Mysql.count_expr
count_expr sqlserver = SqlServer.count_expr

unfoldable pub length_expr : Dialect → Query → Query
length_expr postgres = Postgres.length_expr
length_expr mysql = Mysql.length_expr
length_expr sqlserver = SqlServer.length_expr

unfoldable pub cast_text : Dialect → Query → Query
cast_text postgres = Postgres.cast_text
cast_text mysql = Mysql.cast_text
cast_text sqlserver = SqlServer.cast_text

unfoldable pub numeric_stats_expr : Dialect → Query → Query
numeric_stats_expr postgres = Postgres.numeric_stats_expr
numeric_stats_expr mysql = Mysql.numeric_stats_expr
numeric_stats_expr sqlserver = SqlServer.numeric_stats_expr

unfoldable pub numeric_advanced_stats_query : Dialect → Query → Query → Query
numeric_advanced_stats_query postgres = Postgres.numeric_advanced_stats_query
numeric_advanced_stats_query mysql = Mysql.numeric_advanced_stats_query
numeric_advanced_stats_query sqlserver = SqlServer.numeric_advanced_stats_query

unfoldable pub numeric_histogram_query : Dialect → Query → Query → Query
numeric_histogram_query postgres = Postgres.numeric_histogram_query
numeric_histogram_query mysql = Mysql.numeric_histogram_query
numeric_histogram_query sqlserver = SqlServer.numeric_histogram_query

unfoldable pub future_date_count_expr : Dialect → Query → Query
future_date_count_expr postgres = Postgres.future_date_count_expr
future_date_count_expr mysql = Mysql.future_date_count_expr
future_date_count_expr sqlserver = SqlServer.future_date_count_expr

unfoldable pub date_range_days_expr : Dialect → Query → Query
date_range_days_expr postgres = Postgres.date_range_days_expr
date_range_days_expr mysql = Mysql.date_range_days_expr
date_range_days_expr sqlserver = SqlServer.date_range_days_expr

unfoldable pub date_distribution_query : Dialect → Query → Query → Query
date_distribution_query postgres = Postgres.date_distribution_query
date_distribution_query mysql = Mysql.date_distribution_query
date_distribution_query sqlserver = SqlServer.date_distribution_query

unfoldable pub pattern_counts_query : Dialect → Query → Query → Query
pattern_counts_query postgres = Postgres.pattern_counts_query
pattern_counts_query mysql = Mysql.pattern_counts_query
pattern_counts_query sqlserver = SqlServer.pattern_counts_query

unfoldable pub numeric_correlation_query : Dialect → Query → Query → Query → Query
numeric_correlation_query postgres = Postgres.numeric_correlation_query
numeric_correlation_query mysql = Mysql.numeric_correlation_query
numeric_correlation_query sqlserver = SqlServer.numeric_correlation_query

unfoldable pub relationships_query : Dialect → Query
relationships_query postgres = Postgres.relationships_query
relationships_query mysql = Mysql.relationships_query
relationships_query sqlserver = SqlServer.relationships_query

module _ (fl : Float64) where
  open fl use {of_int, fmul, fdiv, fmt6}

  -- The part of Postgres's table that is read: a constant sample of about `sample` rows.
  unfoldable pub postgres_sample : Query → ℤ → ℤ → Query
  postgres_sample table sample total =
      let pct = fdiv (fmul (of_int sample) (of_int (pos 100))) (of_int total) in
      join (
        sql "(SELECT * FROM "
        ∷ table
        ∷ sql " TABLESAMPLE SYSTEM ("
        ∷ (words (fmt6 pct) ∷ [])
        ∷ sql ") REPEATABLE (42) LIMIT "
        ∷ (words (print_ℤ sample) ∷ [])
        ∷ sql ") AS profile_sample"
        ∷ [])

  abbrev pub sample_for : Dialect → Query → ℤ → ℤ → Result (Query × Bool)
  sample_for postgres table sample total = ok (postgres_sample table sample total, true)
  sample_for mysql table sample total = err (lit "sampling is not yet supported for MySQL")
  sample_for sqlserver table sample total = err (lit "sampling is not yet supported for SQL Server")

  unfoldable pub sample_table_expr : Dialect → Query → ℤ → ℤ → Result (Query × Bool)
  sample_table_expr d table sample total =
      if leb_ℤ sample (pos 0) || leb_ℤ total sample
      then ok (table, false)
      else sample_for d table sample total
