-- ===== src/Connect/Handles.antt =====
-- What `Open` leaves open.
use data_profiler.Prelude.{
  ℕ, ◌≡◌, ◌≤◌, refl, false, ◌⊎◌, inl, inr, Option, none, some, List, [], ◌∷◌, ◌++◌, Str, lit,
  str_eq, str_eq_iff, if◌then◌else◌, to_lower, atoi, Bool-cases, Option-cases, arith,
}
use data_profiler.Prelude.Int.{ℤ, pos, ltb_ℤ, ◌≤ℤ◌}
use data_profiler.Store.{Result, ok, err}
use data_profiler.Config.{Process}
use data_profiler.Config.Limits.{IsPositive, at_least_one-IsPositive, above_zero-IsPositive}
use data_profiler.Dialect.{Dialect, postgres, mysql, sqlserver}
use data_profiler.Connect.{
  Sql, Call, limits, pings, closes, env_int, env_duration, clamp_idle, pool_of, driver_of,
  dialect_of, connected, with_driver, not_bundled, unsupported, open_source, Opened,
  parsed_duration,
}

-- The database types, with the driver and the dialect of each.
abbrev pub Serves : Str → Str → Dialect → Type 0
Serves typ driver d =
    ((typ ≡ lit "postgres") × (driver ≡ lit "pgx") × (d ≡ postgres))
    ⊎ ((typ ≡ lit "postgresql") × (driver ≡ lit "pgx") × (d ≡ postgres))
    ⊎ ((typ ≡ lit "mysql") × (driver ≡ lit "mysql") × (d ≡ mysql))
    ⊎ ((typ ≡ lit "sqlserver") × (driver ≡ lit "sqlserver") × (d ≡ sqlserver))

abbrev pub IsUnserved : Str → Type 0
IsUnserved typ =
    (str_eq typ (lit "postgres") ≡ false)
    × (str_eq typ (lit "postgresql") ≡ false)
    × (str_eq typ (lit "mysql") ≡ false)
    × (str_eq typ (lit "sqlserver") ≡ false)

-- The maps of drivers and of dialects at a type.
pub driver_of-Serves :
    (typ : Str)
    → (IsUnserved typ × (driver_of typ ≡ []))
      ⊎ ((driver : Str) × (d : Dialect) × Serves typ driver d
          × (driver_of typ ≡ driver)
          × (dialect_of typ ≡ some d))
unfolding driver_of dialect_of
driver_of-Serves typ = elim (Bool-cases (str_eq typ (lit "postgres"))) [
  | inl e ↦
      inr
        (_, postgres, inl ((str_eq_iff typ (lit "postgres")).0 e, refl, refl), rw e refl, rw e refl)
  | inr e ↦ elim (Bool-cases (str_eq typ (lit "postgresql"))) [
    | inl f ↦ inr (
      _,
      postgres,
      inr (inl ((str_eq_iff typ (lit "postgresql")).0 f, refl, refl)),
      rw (e, f) refl,
      rw (e, f) refl,
    )
    | inr f ↦ elim (Bool-cases (str_eq typ (lit "mysql"))) [
      | inl g ↦ inr (
        _,
        mysql,
        inr (inr (inl ((str_eq_iff typ (lit "mysql")).0 g, refl, refl))),
        rw (e, f, g) refl,
        rw (e, f, g) refl,
      )
      | inr g ↦ elim (Bool-cases (str_eq typ (lit "sqlserver"))) [
        | inl h ↦ inr (
          _,
          sqlserver,
          inr (inr (inr ((str_eq_iff typ (lit "sqlserver")).0 h, refl, refl))),
          rw (e, f, g, h) refl,
          rw (e, f, g, h) refl,
        )
        | inr h ↦ inl ((e, f, g, h), rw (e, f, g, h) refl)
      ]
    ]
  ]
]

clamp_idle-bounds :
    (n m : ℤ) → IsPositive n → IsPositive m → IsPositive (clamp_idle n m) × (clamp_idle n m ≤ℤ n)
clamp_idle-bounds n m (a, same, above) (b, same', above') = elim (Bool-cases (ltb_ℤ n m)) [
  | inl e ↦ rw e ((a, same, above), omega arith)
  | inr e ↦ rw e ((b, same', above'), ground arith)
]

env_int-IsPositive :
    (process : Process) (key : Str) (n : ℕ) → 1 ≤ n → IsPositive (env_int process key (pos n))
unfolding env_int
env_int-IsPositive process key n h = at_least_one-IsPositive (atoi (process.getenv key)) n h

parsed_duration-IsPositive :
    (parse : Str → Option ℤ) (v : Str) (n : ℕ)
    → 1 ≤ n
    → IsPositive (parsed_duration parse v (pos n))
parsed_duration-IsPositive parse [] n h = (n, refl, h)
parsed_duration-IsPositive parse (c ∷ v) n h = above_zero-IsPositive (parse (c ∷ v)) n h

-- Whatever the environment holds, a source has room for at least one connection, open and idle, for no more idle
-- ones than open ones, and its connections live for a positive time.
pub pool_of-bounds :
    (process : Process)
    → IsPositive (pool_of process).max_open
      × IsPositive (pool_of process).max_idle
      × IsPositive (pool_of process).lifetime
      × ((pool_of process).max_idle ≤ℤ (pool_of process).max_open)
unfolding pool_of env_duration
pool_of-bounds process =
    let n = env_int-IsPositive process (lit "PROFILE_SOURCE_MAX_OPEN_CONNS") 4 (omega arith) in
    let m = env_int-IsPositive process (lit "PROFILE_SOURCE_MAX_IDLE_CONNS") 2 (omega arith) in
    let (idle, under) =
      clamp_idle-bounds (env_int process (lit "PROFILE_SOURCE_MAX_OPEN_CONNS") (pos 4))
        (env_int process (lit "PROFILE_SOURCE_MAX_IDLE_CONNS") (pos 2)) n m in
    (
      n,
      idle,
      parsed_duration-IsPositive process.parse_duration
          (process.getenv (lit "PROFILE_SOURCE_CONN_MAX_LIFETIME")) 1800000000000 (omega arith),
      under,
    )

module _ {H : Type 0} (sql : Sql H) (process : Process) where
  -- The calls that opening a handle makes, and the one that gives it up.
  abbrev pub opening_calls : H → List (Call H)
  opening_calls db = limits db (pool_of process) ∷ pings db ∷ []

  -- What comes of a driver: its own error, or a handle. One that answers is kept and is limited, one that
  -- does not is closed.
  abbrev pub Connects : Str → Str → Dialect → Opened sql process → Type 0
  Connects driver dsn d r =
      ((e : Str) × (sql.connect driver dsn ≡ err e) × (r ≡ (err e, [])))
      ⊎ ((db : H) × (sql.connect driver dsn ≡ ok db)
          × (((e : Str) × (sql.ping db ≡ some e)
                × (r ≡ (err e, opening_calls db ++ closes db ∷ [])))
              ⊎ ((sql.ping db ≡ none)
                  × (r ≡ (ok (record { db = db; dialect = d }), opening_calls db)))))

  -- A type without a driver opens nothing, and the others ask their driver.
  abbrev pub Ends : Str → Str → Opened sql process → Type 0
  Ends typ dsn r =
      (IsUnserved typ
        × (r ≡ (
          err (if str_eq typ (lit "snowflake") then not_bundled else unsupported sql process typ),
          [],
        )))
      ⊎ ((driver : Str) × (d : Dialect) × Serves typ driver d × Connects driver dsn d r)

  connected-Connects :
      (typ driver dsn : Str) (d : Dialect)
      → dialect_of typ ≡ some d
      → Connects driver dsn d (connected sql process typ (sql.connect driver dsn))
  connected-Connects typ driver dsn d dialect = go (sql.connect driver dsn) refl
    where
      go :
          (r : Result H)
          → sql.connect driver dsn ≡ r
          → Connects driver dsn d (connected sql process typ r)
      go (err e) at = inl (e, at, refl)
      go (ok db) at = elim (Option-cases (sql.ping db)) [
        | inr (e, fails) ↦ inr (db, at, inl (e, fails, rw fails refl))
        | inl answers ↦ inr (db, at, inr (answers, rw (answers, dialect) refl))
      ]

  -- A driver of the table has a name, so that `Open` goes on to it.
  with_driver-Serves :
      (typ driver dsn : Str) (d : Dialect)
      → Serves typ driver d
      → with_driver sql process typ dsn driver ≡ connected sql process typ (sql.connect driver dsn)
  unfolding lit
  with_driver-Serves typ driver dsn d (inl (a, at, b)) = rw at refl
  with_driver-Serves typ driver dsn d (inr (inl (a, at, b))) = rw at refl
  with_driver-Serves typ driver dsn d (inr (inr (inl (a, at, b)))) = rw at refl
  with_driver-Serves typ driver dsn d (inr (inr (inr (a, at, b)))) = rw at refl

  with_driver-Ends :
      (typ dsn : Str) → Ends typ dsn (with_driver sql process typ dsn (driver_of typ))
  with_driver-Ends typ dsn = elim (driver_of-Serves typ) [
    | inl (unserved, none_named) ↦ rw none_named (inl (unserved, refl))
    | inr (driver, d, serves, named, dialect) ↦
        rw (named, with_driver-Serves typ driver dsn d serves)
          (inr (driver, d, serves, connected-Connects typ driver dsn d dialect))
  ]

  -- `Open` of a type that is not, in lower case, one of the four it serves is the error that names it, or that of
  -- snowflake, and opens nothing. Of a type that it serves it asks the driver of that type: it answers the error
  -- of the driver and opens nothing; or the error of the ping, with the driver's handle closed; or, when the
  -- handle answers the ping, that handle under the limits of the settings with the dialect of the type.
  pub open_source-Ends : (typ dsn : Str) → Ends (to_lower typ) dsn (open_source sql process typ dsn)
  unfolding open_source
  open_source-Ends typ dsn = with_driver-Ends (to_lower typ) dsn
