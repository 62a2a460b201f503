-- ===== src/Profile/Classify.antt =====
-- internal/adapters/profile.go: the tests on a column's type.
use data_profiler.Prelude.{Bool, false, ◌||◌, List, [], ◌∷◌, Str, lit, contains, to_lower}

unfoldable pub is_text : Str → Bool
is_text typ =
    let t = to_lower typ in
    contains (lit "char") t || (contains (lit "text") t || contains (lit "string") t)

unfoldable pub is_date_time : Str → Bool
is_date_time typ = let t = to_lower typ in contains (lit "date") t || contains (lit "time") t

-- The loop over the words.
unfoldable pub contains_one : List Str → Str → Bool
contains_one [] t = false
contains_one (x ∷ xs) t = contains x t || contains_one xs t

unfoldable pub is_numeric : Str → Bool
is_numeric typ =
    contains_one
      (lit "int"
        ∷ lit "decimal"
        ∷ lit "numeric"
        ∷ lit "float"
        ∷ lit "double"
        ∷ lit "real"
        ∷ lit "money"
        ∷ [])
      (to_lower typ)
