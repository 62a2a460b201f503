-- ===== src/Profile/Queries.antt =====
-- internal/adapters/profile.go: the query texts that it builds from a dialect's.
use data_profiler.Prelude.{Bool, List, [], ◌∷◌, Str, if◌then◌else◌}
use data_profiler.Dialect.{Dialect}
use data_profiler.Dialect.Query.{Query, sql, named, join}
use data_profiler.Dialect.Methods.{
  length_expr, cast_text, future_date_count_expr, date_range_days_expr, numeric_stats_expr,
}

abbrev pub qualified : Str → Str → Query
qualified schema table = join (named schema ∷ sql "." ∷ named table ∷ [])

unfoldable pub count_query : Query → Query
count_query from = join (sql "SELECT COUNT(*) FROM " ∷ from ∷ [])

abbrev pub commas : List Str → Query
commas [] = []
commas (c ∷ []) = named c
commas (c ∷ d ∷ cs) = join (named c ∷ sql "," ∷ commas (d ∷ cs) ∷ [])

unfoldable pub duplicates_query : Query → List Str → Query
duplicates_query from columns = join (
    sql "SELECT COALESCE(SUM(n-1),0) FROM (SELECT COUNT(*) AS n FROM "
    ∷ from
    ∷ sql " GROUP BY "
    ∷ commas columns
    ∷ sql ") duplicates"
    ∷ [])

abbrev pub text_part : Dialect → Query → Bool → Query
text_part d qc is =
    if is
    then join (
        sql ",COALESCE(MIN("
        ∷ length_expr d qc
        ∷ sql "),0),COALESCE(MAX("
        ∷ length_expr d qc
        ∷ sql "),0),AVG("
        ∷ length_expr d qc
        ∷ sql "),COALESCE(SUM(CASE WHEN "
        ∷ qc
        ∷ sql " IS NOT NULL AND "
        ∷ qc
        ∷ sql "='' THEN 1 ELSE 0 END),0),COALESCE(SUM(CASE WHEN "
        ∷ qc
        ∷ sql " IS NOT NULL AND "
        ∷ qc
        ∷ sql "<>'' AND REGEXP_REPLACE("
        ∷ cast_text d qc
        ∷ sql ", '[[:space:]]', '', 'g')='' THEN 1 ELSE 0 END),0)"
        ∷ [])
    else sql ",NULL,NULL,NULL,0,0"

abbrev pub value_part : Dialect → Query → Bool → Bool → Query
value_part d qc numeric date_time =
    if numeric
    then join (
        sql ","
        ∷ cast_text d (join (sql "MIN(" ∷ qc ∷ sql ")" ∷ []))
        ∷ sql ","
        ∷ cast_text d (join (sql "MAX(" ∷ qc ∷ sql ")" ∷ []))
        ∷ sql ",AVG("
        ∷ qc
        ∷ sql "),COALESCE(SUM(CASE WHEN "
        ∷ qc
        ∷ sql "=0 THEN 1 ELSE 0 END),0),0,0"
        ∷ [])
    else if date_time
    then join (
        sql ","
        ∷ cast_text d (join (sql "MIN(" ∷ qc ∷ sql ")" ∷ []))
        ∷ sql ","
        ∷ cast_text d (join (sql "MAX(" ∷ qc ∷ sql ")" ∷ []))
        ∷ sql ",NULL,0,"
        ∷ future_date_count_expr d qc
        ∷ sql ","
        ∷ date_range_days_expr d qc
        ∷ [])
    else sql ",NULL,NULL,NULL,0,0,0"

-- By the type of the column: text, numeric, date and time.
unfoldable pub aggregates_query : Dialect → Query → Query → Bool → Bool → Bool → Query
aggregates_query d from qc text numeric date_time = join (
    sql "SELECT COUNT(*)-COUNT("
    ∷ qc
    ∷ sql "),COUNT(DISTINCT "
    ∷ qc
    ∷ sql ")"
    ∷ text_part d qc text
    ∷ value_part d qc numeric date_time
    ∷ sql " FROM "
    ∷ from
    ∷ [])

unfoldable pub top_values_query : Dialect → Query → Query → Query
top_values_query d from qc = join (
    sql "SELECT "
    ∷ cast_text d qc
    ∷ sql ",COUNT(*) FROM "
    ∷ from
    ∷ sql " WHERE "
    ∷ qc
    ∷ sql " IS NOT NULL GROUP BY "
    ∷ cast_text d qc
    ∷ sql " ORDER BY COUNT(*) DESC LIMIT 10"
    ∷ [])

unfoldable pub stats_query : Dialect → Query → Query → Query
stats_query d from qc = join (sql "SELECT " ∷ numeric_stats_expr d qc ∷ sql " FROM " ∷ from ∷ [])

unfoldable pub outliers_query : Query → Query → Query
outliers_query from qc = join (
    sql "SELECT COUNT(*) FROM "
    ∷ from
    ∷ sql " WHERE "
    ∷ qc
    ∷ sql " IS NOT NULL AND ABS("
    ∷ qc
    ∷ sql " - (SELECT AVG("
    ∷ qc
    ∷ sql ") FROM "
    ∷ from
    ∷ sql ")) > 3 * (SELECT STDDEV_POP("
    ∷ qc
    ∷ sql ") FROM "
    ∷ from
    ∷ sql ")"
    ∷ [])

unfoldable pub groups_query : Query → Query → Query
groups_query from qc = join (
    sql "SELECT COUNT(*) FROM "
    ∷ from
    ∷ sql " WHERE "
    ∷ qc
    ∷ sql " IS NOT NULL GROUP BY "
    ∷ qc
    ∷ [])
