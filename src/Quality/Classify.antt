-- ===== src/Quality/Classify.antt =====
-- internal/quality/quality.go: the tests on a column's name and type.
use data_profiler.Prelude.{
  ◌-◌, Bool, false, ◌&&◌, ◌||◌, List, [], ◌∷◌, Str, lit, str_eq, contains, to_lower, length, drop,
  ltb, if◌then◌else◌,
}

-- `containsAny`; its inner loop over the positions is `contains`.
unfoldable pub contains_any : Str → List Str → Bool
contains_any s [] = false
contains_any s (value ∷ values) = contains value s || contains_any s values

unfoldable pub is_text_column : Str → Bool
is_text_column t = contains_any (to_lower t) (lit "char" ∷ lit "text" ∷ lit "string" ∷ [])

unfoldable pub is_date_time_column : Str → Bool
is_date_time_column t = contains_any (to_lower t) (lit "date" ∷ lit "time" ∷ lit "timestamp" ∷ [])

unfoldable pub is_numeric_column : Str → Bool
is_numeric_column t = contains_any (to_lower t) (
    lit "int"
    ∷ lit "decimal"
    ∷ lit "numeric"
    ∷ lit "float"
    ∷ lit "double"
    ∷ lit "real"
    ∷ lit "money"
    ∷ [])

unfoldable pub is_likely_key : Str → Bool
is_likely_key name =
    let n = to_lower name in
    str_eq n (lit "id")
    || (ltb 3 (length n)
        && (str_eq (drop (length n - 3) n) (lit "_id")
            || str_eq (drop (length n - 2) n) (lit "id")))

unfoldable pub severity : Bool → Str → Str
severity passed failed_severity = if passed then lit "pass" else failed_severity
