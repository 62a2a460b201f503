-- ===== src/Dialect/Postgres.antt =====
-- internal/adapters/adapter.go: the query texts of PostgresDialect.
use data_profiler.Prelude.{[], ◌∷◌}
use data_profiler.Dialect.Query.{Query, sql, join}

unfoldable pub tables_query : Query
tables_query =
    sql
      "SELECT table_schema,table_name FROM information_schema.tables WHERE table_schema=$1 AND table_type='BASE TABLE'"

unfoldable pub columns_query : Query
columns_query =
    sql
      "SELECT column_name,data_type,is_nullable FROM information_schema.columns WHERE table_schema=$1 AND table_name=$2 ORDER BY ordinal_position"

unfoldable pub count_expr : Query → Query
count_expr t = join (sql "COUNT(*) FROM " ∷ t ∷ [])

unfoldable pub length_expr : Query → Query
length_expr c = join (sql "LENGTH(" ∷ c ∷ sql ")" ∷ [])

unfoldable pub cast_text : Query → Query
cast_text c = join (sql "CAST(" ∷ c ∷ sql " AS TEXT)" ∷ [])

unfoldable pub numeric_stats_expr : Query → Query
numeric_stats_expr c = join (
    sql "STDDEV_POP("
    ∷ c
    ∷ sql "),PERCENTILE_CONT(0.50) WITHIN GROUP (ORDER BY "
    ∷ c
    ∷ sql "),PERCENTILE_CONT(0.75) WITHIN GROUP (ORDER BY "
    ∷ c
    ∷ sql "),PERCENTILE_CONT(0.90) WITHIN GROUP (ORDER BY "
    ∷ c
    ∷ sql "),PERCENTILE_CONT(0.95) WITHIN GROUP (ORDER BY "
    ∷ c
    ∷ sql "),PERCENTILE_CONT(0.99) WITHIN GROUP (ORDER BY "
    ∷ c
    ∷ sql ")"
    ∷ [])

unfoldable pub numeric_advanced_stats_query : Query → Query → Query
numeric_advanced_stats_query table c = join (
    sql
      "SELECT SUM(v)::double precision,VAR_POP(v),CASE WHEN var_v=0 THEN NULL ELSE AVG(POWER(v-mean_v,3))/POWER(var_v,1.5) END,CASE WHEN var_v=0 THEN NULL ELSE AVG(POWER(v-mean_v,4))/POWER(var_v,2)-3 END FROM (SELECT "
    ∷ c
    ∷ sql " AS v,AVG("
    ∷ c
    ∷ sql ") OVER() AS mean_v,VAR_POP("
    ∷ c
    ∷ sql ") OVER() AS var_v FROM "
    ∷ table
    ∷ sql " WHERE "
    ∷ c
    ∷ sql " IS NOT NULL) s GROUP BY var_v"
    ∷ [])

abbrev bucket : Query → Query → Query
bucket c table = join (
    sql "CASE WHEN (SELECT MIN("
    ∷ c
    ∷ sql ") FROM "
    ∷ table
    ∷ sql ") = (SELECT MAX("
    ∷ c
    ∷ sql ") FROM "
    ∷ table
    ∷ sql ") THEN 0 ELSE LEAST(9, FLOOR(("
    ∷ c
    ∷ sql " - (SELECT MIN("
    ∷ c
    ∷ sql ") FROM "
    ∷ table
    ∷ sql ")) / NULLIF((SELECT MAX("
    ∷ c
    ∷ sql ") FROM "
    ∷ table
    ∷ sql ") - (SELECT MIN("
    ∷ c
    ∷ sql ") FROM "
    ∷ table
    ∷ sql ")),0) * 10)::int) END"
    ∷ [])

unfoldable pub numeric_histogram_query : Query → Query → Query
numeric_histogram_query c table = join (
    sql "SELECT "
    ∷ bucket c table
    ∷ sql ",COUNT(*) FROM "
    ∷ table
    ∷ sql " WHERE "
    ∷ c
    ∷ sql " IS NOT NULL GROUP BY "
    ∷ bucket c table
    ∷ sql " ORDER BY 1"
    ∷ [])

unfoldable pub future_date_count_expr : Query → Query
future_date_count_expr c =
    join (sql "COALESCE(SUM(CASE WHEN " ∷ c ∷ sql " > CURRENT_TIMESTAMP THEN 1 ELSE 0 END),0)" ∷ [])

unfoldable pub date_range_days_expr : Query → Query
date_range_days_expr c =
    join (sql "EXTRACT(EPOCH FROM (MAX(" ∷ c ∷ sql ") - MIN(" ∷ c ∷ sql ")))/86400.0" ∷ [])

unfoldable pub date_distribution_query : Query → Query → Query
date_distribution_query c table = join (
    sql "SELECT TO_CHAR(DATE_TRUNC('month',"
    ∷ c
    ∷ sql "),'YYYY-MM'),COUNT(*) FROM "
    ∷ table
    ∷ sql " WHERE "
    ∷ c
    ∷ sql " IS NOT NULL GROUP BY 1 ORDER BY 1 DESC LIMIT 12"
    ∷ [])

unfoldable pub pattern_counts_query : Query → Query → Query
pattern_counts_query c table = join (
    sql "SELECT CASE WHEN "
    ∷ c
    ∷ sql " ~* '^[^@\\s]+@[A-Za-z0-9]+\\.[A-Za-z]{2,}$' THEN 'email' WHEN "
    ∷ c
    ∷ sql
        " ~* '^[0-9a-f]{8}-[0-9a-f]{4}-[1-5][0-9a-f]{3}-[89ab][0-9a-f]{3}-[0-9a-f]{12}$' THEN 'uuid' WHEN "
    ∷ c
    ∷ sql " ~* '^https?://[^\\s]+$' THEN 'url' WHEN "
    ∷ c
    ∷ sql " ~ '^[0-9]{4}[-/][0-9]{1,2}[-/][0-9]{1,2}$' THEN 'date' WHEN "
    ∷ c
    ∷ sql " ~ '^[+-]?[0-9]+([.,][0-9]+)?$' THEN 'numeric_string' WHEN "
    ∷ c
    ∷ sql " ~ '^[0-9]+$' THEN 'integer_string' WHEN "
    ∷ c
    ∷ sql " ~ '^[A-Za-z]+$' THEN 'alphabetic' WHEN "
    ∷ c
    ∷ sql " ~ '^[A-Za-z0-9]+$' THEN 'alphanumeric' WHEN "
    ∷ c
    ∷ sql " ~ '^[^A-Za-z0-9]+$' THEN 'symbolic' ELSE 'mixed' END,COUNT(*) FROM "
    ∷ table
    ∷ sql " WHERE "
    ∷ c
    ∷ sql " IS NOT NULL GROUP BY 1 ORDER BY 2 DESC"
    ∷ [])

unfoldable pub numeric_correlation_query : Query → Query → Query → Query
numeric_correlation_query x y table = join (
    sql "SELECT CORR("
    ∷ x
    ∷ sql ","
    ∷ y
    ∷ sql ") FROM "
    ∷ table
    ∷ sql " WHERE "
    ∷ x
    ∷ sql " IS NOT NULL AND "
    ∷ y
    ∷ sql " IS NOT NULL"
    ∷ [])

unfoldable pub relationships_query : Query
relationships_query =
    sql
      "SELECT src_attr.attname,target_ns.nspname,target.relname,tgt.attname\nFROM pg_constraint con\nJOIN pg_class target ON target.oid=con.confrelid\nJOIN pg_namespace target_ns ON target_ns.oid=target.relnamespace\nJOIN LATERAL unnest(con.conkey) WITH ORDINALITY src(attnum,ord) ON TRUE\nJOIN LATERAL unnest(con.confkey) WITH ORDINALITY ref(attnum,ord) ON ref.ord=src.ord\nJOIN pg_attribute src_attr ON src_attr.attrelid=con.conrelid AND src_attr.attnum=src.attnum\nJOIN pg_attribute tgt ON tgt.attrelid=con.confrelid AND tgt.attnum=ref.attnum\nWHERE con.contype='f' AND con.connamespace=(SELECT oid FROM pg_namespace WHERE nspname=$1)\n  AND con.conrelid=(quote_ident($1)||'.'||quote_ident($2))::regclass\nORDER BY con.oid,src.ord"
