-- ===== src/Profile/Types.antt =====
-- The two copies of the tests on a column's type, here and in internal/quality/quality.go.
use data_profiler.Prelude.{
  ◌≡◌, refl, true, List, [], ◌∷◌, ◌++◌, Str, lit, has_prefix, contains, to_lower, arith,
}
use data_profiler.Quality.Classify.{
  contains_any, is_text_column, is_date_time_column, is_numeric_column,
}
use data_profiler.Profile.Classify.{is_text, is_date_time, is_numeric, contains_one}

has_prefix-append : (p q s : Str) → has_prefix (p ++ q) s ≡ true → has_prefix p s ≡ true
unfolding has_prefix
has_prefix-append [] q s h = refl
has_prefix-append (x ∷ p) q [] h = h
has_prefix-append (x ∷ p) q (c ∷ s) h = ground (arith, has_prefix-append p q s)

contains-append : (p q s : Str) → contains (p ++ q) s ≡ true → contains p s ≡ true
unfolding contains
contains-append p q [] h = has_prefix-append p q [] h
contains-append p q (c ∷ s) h = ground (arith, has_prefix-append p q (c ∷ s), contains-append p q s)

contains_one-contains_any :
    (words : List Str) (t : Str) → contains_one words t ≡ contains_any t words
unfolding contains_one contains_any
contains_one-contains_any [] t = refl
contains_one-contains_any (w ∷ words) t = rw (contains_one-contains_any words t) refl

timestamp_time : (s : Str) → contains (lit "timestamp") s ≡ true → contains (lit "time") s ≡ true
unfolding lit
timestamp_time s h = contains-append (lit "time") (lit "stamp") s h

-- The profiler and the grader agree on which columns hold text, numbers, and dates or times.
types-agree :
    (typ : Str)
    → (is_text typ ≡ is_text_column typ)
      × (is_numeric typ ≡ is_numeric_column typ)
      × (is_date_time typ ≡ is_date_time_column typ)
unfolding is_text is_text_column is_numeric is_numeric_column is_date_time is_date_time_column
    contains_any
types-agree typ = (
  ground arith,
  contains_one-contains_any _ (to_lower typ),
  ground (arith, timestamp_time (to_lower typ)),
)
