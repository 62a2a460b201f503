-- ===== src/Connect.antt =====
-- internal/adapters/adapter.go: opening a source database, its settings and its columns.
pub mod Handles
pub mod Jobs
mod Tests
use data_profiler.Prelude.{
  Bool, true, false, ◌||◌, Option, none, some, List, [], ◌∷◌, ◌++◌, Str, lit, str_eq, to_lower,
  atoi, if◌then◌else◌,
}
use data_profiler.Prelude.Int.{ℤ, pos, ltb_ℤ}
use data_profiler.Store.{Result, ok, err}
use data_profiler.Config.{Process, at_least_one, above_zero}
use data_profiler.Dialect.{Dialect, postgres, mysql, sqlserver}
use data_profiler.Dialect.Query.{text}
use data_profiler.Dialect.Methods.{columns_query}
use data_profiler.Profile.Source.{Source}
use data_profiler.Profile.Column.{ColumnMeta}
use data_profiler.Profile.Table.{read_columns}
use data_profiler.Prelude.Float.{Float64}

-- The bounds that `Open` sets on a handle's pool of connections.
pub record Pool : Type 0 where
  pub max_open : ℤ
  pub max_idle : ℤ
  pub lifetime : ℤ

-- What database/sql does: `connect` is sql.Open for a driver and a DSN, `ping` the error of PingContext.
-- `quoted` is the verb %q of fmt.
pub record Sql (H : Type 0) : Type 0 where
  pub connect : Str → Str → Result H
  pub ping : H → Option Str
  pub quoted : Str → Str

-- The calls that are made on a handle.
pub data Call (H : Type 0) : Type 0 where
  limits : H → Pool → Call H
  pings : H → Call H
  closes : H → Call H

pub record Adapter (H : Type 0) : Type 0 where
  pub db : H
  pub dialect : Dialect

-- `envInt`
unfoldable pub env_int : Process → Str → ℤ → ℤ
env_int process key fallback = at_least_one (atoi (process.getenv key)) fallback

abbrev pub parsed_duration : (Str → Option ℤ) → Str → ℤ → ℤ
parsed_duration parse [] fallback = fallback
parsed_duration parse (c ∷ v) fallback = above_zero (parse (c ∷ v)) fallback

-- `envDuration`
unfoldable pub env_duration : Process → Str → ℤ → ℤ
env_duration process key fallback =
    parsed_duration process.parse_duration (process.getenv key) fallback

-- `if maxIdle > maxOpen { maxIdle = maxOpen }`
abbrev pub clamp_idle : ℤ → ℤ → ℤ
clamp_idle max_open max_idle = if ltb_ℤ max_open max_idle then max_open else max_idle

unfoldable pub pool_of : Process → Pool
pool_of process =
    let max_open = env_int process (lit "PROFILE_SOURCE_MAX_OPEN_CONNS") (pos 4) in
    record {
      max_open = max_open;
      max_idle =
          clamp_idle max_open (env_int process (lit "PROFILE_SOURCE_MAX_IDLE_CONNS") (pos 2));
      lifetime = env_duration process (lit "PROFILE_SOURCE_CONN_MAX_LIFETIME") (pos 1800000000000);
    }

-- The map of the drivers; a missing key gives the empty string.
unfoldable pub driver_of : Str → Str
driver_of typ =
    if str_eq typ (lit "postgres") || str_eq typ (lit "postgresql")
    then lit "pgx"
    else if str_eq typ (lit "mysql")
    then lit "mysql"
    else if str_eq typ (lit "sqlserver")
    then lit "sqlserver"
    else []

-- `switch typ`; `none` is its default.
unfoldable pub dialect_of : Str → Option Dialect
dialect_of typ =
    if str_eq typ (lit "postgres") || str_eq typ (lit "postgresql")
    then some postgres
    else if str_eq typ (lit "mysql")
    then some mysql
    else if str_eq typ (lit "sqlserver")
    then some sqlserver
    else none

abbrev pub not_bundled : Str
not_bundled =
    lit
      "snowflake adapter boundary is defined but driver integration is not bundled; add gosnowflake in adapters/snowflake.go"

module _ {H : Type 0} (sql : Sql H) (process : Process) where
  open sql use {connect, ping, quoted}

  abbrev pub unsupported : Str → Str
  unsupported typ = lit "unsupported database type " ++ quoted typ

  -- The result of `Open`, and the calls that it has made on the handle.
  abbrev pub Opened : Type 0
  Opened = Result (Adapter H) × List (Call H)

  -- After the ping, `switch typ` and its default.
  abbrev pub with_dialect : Str → H → List (Call H) → Option Dialect → Opened
  with_dialect typ db calls none = (err (unsupported typ), calls ++ closes db ∷ [])
  with_dialect typ db calls (some d) = (ok (record { db = db; dialect = d }), calls)

  abbrev pub pinged : Str → H → List (Call H) → Option Str → Opened
  pinged typ db calls (some e) = (err e, calls ++ closes db ∷ [])
  pinged typ db calls none = with_dialect typ db calls (dialect_of typ)

  abbrev pub connected : Str → Result H → Opened
  connected typ (err e) = (err e, [])
  connected typ (ok db) = pinged typ db (limits db (pool_of process) ∷ pings db ∷ []) (ping db)

  abbrev pub with_driver : Str → Str → Str → Opened
  with_driver typ dsn [] =
      (err (if str_eq typ (lit "snowflake") then not_bundled else unsupported typ), [])
  with_driver typ dsn (c ∷ driver) = connected typ (connect (c ∷ driver) dsn)

  unfoldable pub open_source : Str → Str → Opened
  open_source typ dsn = let lower = to_lower typ in with_driver lower dsn (driver_of lower)

-- `DiscoverColumns`; a list that ends in an error is not used.
unfoldable pub discover_columns :
    {F : Type 0} → Source F → Dialect → Str → Str → Result (List ColumnMeta)
discover_columns src d schema table =
    read_columns (src.column_rows (text d (columns_query d)) schema table)
