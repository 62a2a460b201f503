-- ===== src/Dialect/Mysql.antt =====
-- internal/adapters/adapter.go: the query texts of MySQLDialect.
use data_profiler.Prelude.{[], ◌∷◌}
use data_profiler.Dialect.Query.{Query, sql, join}

unfoldable pub tables_query : Query
tables_query =
    sql
      "SELECT table_schema,table_name FROM information_schema.tables WHERE table_schema=? AND table_type='BASE TABLE'"

unfoldable pub columns_query : Query
columns_query =
    sql
      "SELECT column_name,data_type,is_nullable FROM information_schema.columns WHERE table_schema=? AND table_name=? ORDER BY ordinal_position"

unfoldable pub count_expr : Query → Query
count_expr t = join (sql "COUNT(*) FROM " ∷ t ∷ [])

unfoldable pub length_expr : Query → Query
length_expr c = join (sql "CHAR_LENGTH(" ∷ c ∷ sql ")" ∷ [])

unfoldable pub cast_text : Query → Query
cast_text c = join (sql "CAST(" ∷ c ∷ sql " AS CHAR)" ∷ [])

unfoldable pub numeric_stats_expr : Query → Query
numeric_stats_expr c = join (sql "STDDEV_POP(" ∷ c ∷ sql "),NULL,NULL,NULL,NULL,NULL" ∷ [])

unfoldable pub numeric_advanced_stats_query : Query → Query → Query
numeric_advanced_stats_query table c = join (
    sql
      "SELECT SUM(v)*1.0,VAR_POP(v),CASE WHEN var_v=0 THEN NULL ELSE AVG(POW(v-mean_v,3))/POW(var_v,1.5) END,CASE WHEN var_v=0 THEN NULL ELSE AVG(POW(v-mean_v,4))/POW(var_v,2)-3 END FROM (SELECT "
    ∷ c
    ∷ sql " AS v,AVG("
    ∷ c
    ∷ sql ") OVER() AS mean_v,VAR_POP("
    ∷ c
    ∷ sql ") OVER() AS var_v FROM "
    ∷ table
    ∷ sql " WHERE "
    ∷ c
    ∷ sql " IS NOT NULL) s GROUP BY var_v"
    ∷ [])

abbrev bucket : Query → Query → Query
bucket c table = join (
    sql "CASE WHEN (SELECT MIN("
    ∷ c
    ∷ sql ") FROM "
    ∷ table
    ∷ sql ") = (SELECT MAX("
    ∷ c
    ∷ sql ") FROM "
    ∷ table
    ∷ sql ") THEN 0 ELSE LEAST(9, FLOOR(("
    ∷ c
    ∷ sql " - (SELECT MIN("
    ∷ c
    ∷ sql ") FROM "
    ∷ table
    ∷ sql ")) / NULLIF((SELECT MAX("
    ∷ c
    ∷ sql ") FROM "
    ∷ table
    ∷ sql ") - (SELECT MIN("
    ∷ c
    ∷ sql ") FROM "
    ∷ table
    ∷ sql "),0) * 10)) END"
    ∷ [])

unfoldable pub numeric_histogram_query : Query → Query → Query
numeric_histogram_query c table = join (
    sql "SELECT "
    ∷ bucket c table
    ∷ sql ",COUNT(*) FROM "
    ∷ table
    ∷ sql " WHERE "
    ∷ c
    ∷ sql " IS NOT NULL GROUP BY "
    ∷ bucket c table
    ∷ sql " ORDER BY 1"
    ∷ [])

unfoldable pub future_date_count_expr : Query → Query
future_date_count_expr c =
    join (sql "COALESCE(SUM(CASE WHEN " ∷ c ∷ sql " > CURRENT_TIMESTAMP THEN 1 ELSE 0 END),0)" ∷ [])

unfoldable pub date_range_days_expr : Query → Query
date_range_days_expr c =
    join (sql "TIMESTAMPDIFF(SECOND,MIN(" ∷ c ∷ sql "),MAX(" ∷ c ∷ sql "))/86400.0" ∷ [])

unfoldable pub date_distribution_query : Query → Query → Query
date_distribution_query c table = join (
    sql "SELECT DATE_FORMAT("
    ∷ c
    ∷ sql ",'%Y-%m'),COUNT(*) FROM "
    ∷ table
    ∷ sql " WHERE "
    ∷ c
    ∷ sql " IS NOT NULL GROUP BY 1 ORDER BY 1 DESC LIMIT 12"
    ∷ [])

unfoldable pub pattern_counts_query : Query → Query → Query
pattern_counts_query c table = join (
    sql "SELECT CASE WHEN "
    ∷ c
    ∷ sql " REGEXP '^[^@[:space:]]+@[A-Za-z0-9]+\\.[A-Za-z]{2,}$' THEN 'email' WHEN "
    ∷ c
    ∷ sql
        " REGEXP '^[0-9A-Fa-f]{8}-[0-9A-Fa-f]{4}-[1-5][0-9A-Fa-f]{3}-[89AaBb][0-9A-Fa-f]{3}-[0-9A-Fa-f]{12}$' THEN 'uuid' WHEN "
    ∷ c
    ∷ sql " REGEXP '^https?://[^[:space:]]+$' THEN 'url' WHEN "
    ∷ c
    ∷ sql " REGEXP '^[0-9]{4}[-/][0-9]{1,2}[-/][0-9]{1,2}$' THEN 'date' WHEN "
    ∷ c
    ∷ sql " REGEXP '^[+-]?[0-9]+([.,][0-9]+)?$' THEN 'numeric_string' WHEN "
    ∷ c
    ∷ sql " REGEXP '^[0-9]+$' THEN 'integer_string' WHEN "
    ∷ c
    ∷ sql " REGEXP '^[A-Za-z]+$' THEN 'alphabetic' WHEN "
    ∷ c
    ∷ sql " REGEXP '^[A-Za-z0-9]+$' THEN 'alphanumeric' WHEN "
    ∷ c
    ∷ sql " REGEXP '^[^A-Za-z0-9]+$' THEN 'symbolic' ELSE 'mixed' END,COUNT(*) FROM "
    ∷ table
    ∷ sql " WHERE "
    ∷ c
    ∷ sql " IS NOT NULL GROUP BY 1 ORDER BY 2 DESC"
    ∷ [])

unfoldable pub numeric_correlation_query : Query → Query → Query → Query
numeric_correlation_query x y table = join (
    sql "SELECT (COUNT(*)*SUM("
    ∷ x
    ∷ sql "*"
    ∷ y
    ∷ sql ")-SUM("
    ∷ x
    ∷ sql ")*SUM("
    ∷ y
    ∷ sql "))/NULLIF(SQRT((COUNT(*)*SUM("
    ∷ x
    ∷ sql "*"
    ∷ x
    ∷ sql ")-SUM("
    ∷ x
    ∷ sql ")*SUM("
    ∷ x
    ∷ sql "))*(COUNT(*)*SUM("
    ∷ y
    ∷ sql "*"
    ∷ y
    ∷ sql ")-SUM("
    ∷ y
    ∷ sql ")*SUM("
    ∷ y
    ∷ sql "))),0) FROM "
    ∷ table
    ∷ sql " WHERE "
    ∷ x
    ∷ sql " IS NOT NULL AND "
    ∷ y
    ∷ sql " IS NOT NULL"
    ∷ [])

unfoldable pub relationships_query : Query
relationships_query =
    sql
      "SELECT kcu.column_name,kcu.referenced_table_schema,kcu.referenced_table_name,kcu.referenced_column_name\nFROM information_schema.key_column_usage kcu\nJOIN information_schema.table_constraints tc\n  ON tc.constraint_schema=kcu.constraint_schema AND tc.constraint_name=kcu.constraint_name AND tc.table_name=kcu.table_name\nWHERE tc.constraint_type='FOREIGN KEY' AND kcu.table_schema=? AND kcu.table_name=?\nORDER BY kcu.ordinal_position"
