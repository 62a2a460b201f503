-- ===== src/Dialect.antt =====
-- internal/adapters/adapter.go: the three dialects, and how each quotes an identifier.
pub mod Query
pub mod Postgres
pub mod Mysql
pub mod SqlServer
pub mod Methods
pub mod Quoting
pub mod Balance
pub mod Queries
mod Tests
use data_profiler.Prelude.{
  ℕ, Bool, true, false, Option, none, some, List, [], ◌∷◌, ◌++◌, Str, replace_byte, ◌==◌,
  if◌then◌else◌,
}

pub data Dialect : Type 0 where
  postgres mysql sqlserver : Dialect

-- The first and the last byte of a quoted identifier.
abbrev pub opening : Dialect → ℕ
opening postgres = b'"'
opening mysql = b'`'
opening sqlserver = b'['

abbrev pub closing : Dialect → ℕ
closing postgres = b'"'
closing mysql = b'`'
closing sqlserver = b']'

unfoldable pub quote : Dialect → Str → Str
quote d s = opening d ∷ (replace_byte (closing d) (closing d ∷ closing d ∷ []) s ++ closing d ∷ [])

-- How a database reads a quoted identifier from the start of a text: up to a closing byte that is not
-- doubled. The flag says that a closing byte has just been read.
abbrev pub prepend : ℕ → Option (Str × Str) → Option (Str × Str)
prepend x none = none
prepend x (some (name, rest)) = some (x ∷ name, rest)

unfoldable pub read_name : ℕ → Bool → Str → Option (Str × Str)
read_name c false [] = none
read_name c true [] = some ([], [])
read_name c false (x ∷ s) =
    let closed = read_name c true s in
    let more = read_name c false s in if x == c then closed else prepend x more
read_name c true (x ∷ s) =
    let more = read_name c false s in if x == c then prepend c more else some ([], x ∷ s)

unfoldable pub read_quoted : Dialect → Str → Option (Str × Str)
read_quoted d [] = none
read_quoted d (x ∷ s) =
    let name = read_name (closing d) false s in if x == opening d then name else none
