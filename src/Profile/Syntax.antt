-- ===== src/Profile/Syntax.antt =====
-- The queries that internal/adapters/profile.go builds around a dialect's.
use data_profiler.Prelude.{refl, true, false, List, [], ◌∷◌, Str, lit, All}
use data_profiler.Dialect.{Dialect, postgres, mysql, sqlserver}
use data_profiler.Dialect.Query.{Query, named}
use data_profiler.Dialect.Balance.{plain_step, step, scan, scan_pieces, IsBalanced}
use data_profiler.Dialect.Postgres
use data_profiler.Dialect.Mysql
use data_profiler.Dialect.SqlServer
use data_profiler.Dialect.Methods.{
  length_expr, cast_text, future_date_count_expr, date_range_days_expr, numeric_stats_expr,
}
use data_profiler.Dialect.Queries.{All-IsBalanced_of}
use data_profiler.Profile.Queries.{
  qualified, count_query, aggregates_query, top_values_query, stats_query, outliers_query,
  groups_query,
}

-- Those for a column of a table that is read in full; the aggregates as they are for a column of text, of
-- numbers, of dates and of anything else.
abbrev pub column_queries : Dialect → Query → Query → List Query
column_queries d from qc =
    count_query from
    ∷ aggregates_query d from qc true false false
    ∷ aggregates_query d from qc false true false
    ∷ aggregates_query d from qc false false true
    ∷ aggregates_query d from qc false false false
    ∷ top_values_query d from qc
    ∷ stats_query d from qc
    ∷ outliers_query from qc
    ∷ groups_query from qc
    ∷ []

-- In each of these every literal and identifier ends and every parenthesis has its partner, whatever bytes the
-- names of the schema, the table and the column hold.
pub column_queries-IsBalanced :
    (d : Dialect) (schema table column : Str)
    → All (IsBalanced d) (column_queries d (qualified schema table) (named column))
unfolding count_query aggregates_query top_values_query stats_query outliers_query groups_query
    length_expr cast_text numeric_stats_expr future_date_count_expr date_range_days_expr
    Postgres.length_expr Postgres.cast_text Postgres.numeric_stats_expr
    Postgres.future_date_count_expr Postgres.date_range_days_expr Mysql.length_expr Mysql.cast_text
    Mysql.numeric_stats_expr Mysql.future_date_count_expr Mysql.date_range_days_expr
    SqlServer.length_expr SqlServer.cast_text SqlServer.numeric_stats_expr
    SqlServer.future_date_count_expr SqlServer.date_range_days_expr lit scan scan_pieces step
    plain_step
column_queries-IsBalanced postgres schema table column =
    All-IsBalanced_of postgres (column_queries postgres (qualified schema table) (named column))
      refl
column_queries-IsBalanced mysql schema table column =
    All-IsBalanced_of mysql (column_queries mysql (qualified schema table) (named column)) refl
column_queries-IsBalanced sqlserver schema table column =
    All-IsBalanced_of sqlserver (column_queries sqlserver (qualified schema table) (named column))
      refl
