-- ===== src/Dialect/SqlServer.antt =====
-- internal/adapters/adapter.go: the query texts of SQLServerDialect.
use data_profiler.Prelude.{[], ◌∷◌}
use data_profiler.Dialect.Query.{Query, sql, join}

unfoldable pub tables_query : Query
tables_query =
    sql
      "SELECT TABLE_SCHEMA,TABLE_NAME FROM INFORMATION_SCHEMA.TABLES WHERE TABLE_SCHEMA=@p1 AND TABLE_TYPE='BASE TABLE'"

unfoldable pub columns_query : Query
columns_query =
    sql
      "SELECT COLUMN_NAME,DATA_TYPE,IS_NULLABLE FROM INFORMATION_SCHEMA.COLUMNS WHERE TABLE_SCHEMA=@p1 AND TABLE_NAME=@p2 ORDER BY ORDINAL_POSITION"

unfoldable pub count_expr : Query → Query
count_expr t = join (sql "COUNT_BIG(*) FROM " ∷ t ∷ [])

unfoldable pub length_expr : Query → Query
length_expr c = join (sql "LEN(" ∷ c ∷ sql ")" ∷ [])

unfoldable pub cast_text : Query → Query
cast_text c = join (sql "CAST(" ∷ c ∷ sql " AS NVARCHAR(MAX))" ∷ [])

unfoldable pub numeric_stats_expr : Query → Query
numeric_stats_expr c = join (
    sql "STDEV("
    ∷ c
    ∷ sql "),PERCENTILE_CONT(0.50) WITHIN GROUP (ORDER BY "
    ∷ c
    ∷ sql ") OVER (),PERCENTILE_CONT(0.75) WITHIN GROUP (ORDER BY "
    ∷ c
    ∷ sql ") OVER (),PERCENTILE_CONT(0.90) WITHIN GROUP (ORDER BY "
    ∷ c
    ∷ sql ") OVER (),PERCENTILE_CONT(0.95) WITHIN GROUP (ORDER BY "
    ∷ c
    ∷ sql ") OVER (),PERCENTILE_CONT(0.99) WITHIN GROUP (ORDER BY "
    ∷ c
    ∷ sql ") OVER ()"
    ∷ [])

unfoldable pub numeric_advanced_stats_query : Query → Query → Query
numeric_advanced_stats_query table c = join (
    sql
      "SELECT CAST(SUM(v) AS float),VARP(v),CASE WHEN var_v=0 THEN NULL ELSE AVG(POWER(v-mean_v,3))/POWER(var_v,1.5) END,CASE WHEN var_v=0 THEN NULL ELSE AVG(POWER(v-mean_v,4))/POWER(var_v,2)-3 END FROM (SELECT "
    ∷ c
    ∷ sql " AS v,AVG("
    ∷ c
    ∷ sql ") OVER() AS mean_v,VARP("
    ∷ c
    ∷ sql ") OVER() AS var_v FROM "
    ∷ table
    ∷ sql " WHERE "
    ∷ c
    ∷ sql " IS NOT NULL) s GROUP BY var_v"
    ∷ [])

abbrev bucket : Query → Query → Query
bucket c table = join (
    sql "CASE WHEN (SELECT MIN("
    ∷ c
    ∷ sql ") FROM "
    ∷ table
    ∷ sql ") = (SELECT MAX("
    ∷ c
    ∷ sql ") FROM "
    ∷ table
    ∷ sql ") THEN 0 ELSE CASE WHEN FLOOR(("
    ∷ c
    ∷ sql " - (SELECT MIN("
    ∷ c
    ∷ sql ") FROM "
    ∷ table
    ∷ sql ")) / NULLIF((SELECT MAX("
    ∷ c
    ∷ sql ") FROM "
    ∷ table
    ∷ sql ") - (SELECT MIN("
    ∷ c
    ∷ sql ") FROM "
    ∷ table
    ∷ sql "),0) * 10) > 9 THEN 9 ELSE CAST(FLOOR(("
    ∷ c
    ∷ sql " - (SELECT MIN("
    ∷ c
    ∷ sql ") FROM "
    ∷ table
    ∷ sql ")) / NULLIF((SELECT MAX("
    ∷ c
    ∷ sql ") FROM "
    ∷ table
    ∷ sql ") - (SELECT MIN("
    ∷ c
    ∷ sql ") FROM "
    ∷ table
    ∷ sql "),0) * 10) AS INT) END END"
    ∷ [])

unfoldable pub numeric_histogram_query : Query → Query → Query
numeric_histogram_query c table = join (
    sql "SELECT "
    ∷ bucket c table
    ∷ sql ",COUNT(*) FROM "
    ∷ table
    ∷ sql " WHERE "
    ∷ c
    ∷ sql " IS NOT NULL GROUP BY "
    ∷ bucket c table
    ∷ sql " ORDER BY 1"
    ∷ [])

unfoldable pub future_date_count_expr : Query → Query
future_date_count_expr c =
    join (sql "COALESCE(SUM(CASE WHEN " ∷ c ∷ sql " > CURRENT_TIMESTAMP THEN 1 ELSE 0 END),0)" ∷ [])

unfoldable pub date_range_days_expr : Query → Query
date_range_days_expr c =
    join (sql "DATEDIFF_BIG(SECOND,MIN(" ∷ c ∷ sql "),MAX(" ∷ c ∷ sql "))/86400.0" ∷ [])

unfoldable pub date_distribution_query : Query → Query → Query
date_distribution_query c table = join (
    sql "SELECT CONVERT(char(7),"
    ∷ c
    ∷ sql ",120),COUNT_BIG(*) FROM "
    ∷ table
    ∷ sql " WHERE "
    ∷ c
    ∷ sql " IS NOT NULL GROUP BY CONVERT(char(7),"
    ∷ c
    ∷ sql ",120) ORDER BY 1 DESC OFFSET 0 ROWS FETCH NEXT 12 ROWS ONLY"
    ∷ [])

unfoldable pub pattern_counts_query : Query → Query → Query
pattern_counts_query c table = join (
    sql "SELECT CASE WHEN "
    ∷ c
    ∷ sql " LIKE '%@%.%' THEN 'email' WHEN "
    ∷ c
    ∷ sql " LIKE '________-____-____-____-____________' THEN 'uuid' WHEN "
    ∷ c
    ∷ sql " LIKE 'http://%' OR "
    ∷ c
    ∷ sql " LIKE 'https://%' THEN 'url' WHEN "
    ∷ c
    ∷ sql " LIKE '[0-9][0-9][0-9][0-9][- /][0-9][0-9][- /][0-9][0-9]' THEN 'date' WHEN "
    ∷ c
    ∷ sql " NOT LIKE '%[^0-9]%' THEN 'integer_string' WHEN "
    ∷ c
    ∷ sql " NOT LIKE '%[^A-Za-z]%' THEN 'alphabetic' WHEN "
    ∷ c
    ∷ sql " NOT LIKE '%[^A-Za-z0-9]%' THEN 'alphanumeric' ELSE 'mixed' END,COUNT_BIG(*) FROM "
    ∷ table
    ∷ sql " WHERE "
    ∷ c
    ∷ sql " IS NOT NULL GROUP BY 1 ORDER BY COUNT_BIG(*) DESC"
    ∷ [])

unfoldable pub numeric_correlation_query : Query → Query → Query → Query
numeric_correlation_query x y table = join (
    sql "SELECT (COUNT_BIG(*)*SUM("
    ∷ x
    ∷ sql "*"
    ∷ y
    ∷ sql ")-SUM("
    ∷ x
    ∷ sql ")*SUM("
    ∷ y
    ∷ sql "))/NULLIF(SQRT((COUNT_BIG(*)*SUM("
    ∷ x
    ∷ sql "*"
    ∷ x
    ∷ sql ")-SUM("
    ∷ x
    ∷ sql ")*SUM("
    ∷ x
    ∷ sql "))*(COUNT_BIG(*)*SUM("
    ∷ y
    ∷ sql "*"
    ∷ y
    ∷ sql ")-SUM("
    ∷ y
    ∷ sql ")*SUM("
    ∷ y
    ∷ sql "))),0) FROM "
    ∷ table
    ∷ sql " WHERE "
    ∷ x
    ∷ sql " IS NOT NULL AND "
    ∷ y
    ∷ sql " IS NOT NULL"
    ∷ [])

unfoldable pub relationships_query : Query
relationships_query =
    sql
      "SELECT COL_NAME(fkc.parent_object_id,fkc.parent_column_id),\nSCHEMA_NAME(rt.schema_id),rt.name,COL_NAME(fkc.referenced_object_id,fkc.referenced_column_id)\nFROM sys.foreign_key_columns fkc\nJOIN sys.tables pt ON pt.object_id=fkc.parent_object_id\nJOIN sys.schemas ps ON ps.schema_id=pt.schema_id\nJOIN sys.tables rt ON rt.object_id=fkc.referenced_object_id\nWHERE ps.name=@p1 AND pt.name=@p2\nORDER BY fkc.constraint_object_id,fkc.constraint_column_id"
