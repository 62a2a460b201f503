-- ===== src/Profile/Correlations.antt =====
-- internal/adapters/profile.go: `addNumericCorrelations`.
use data_profiler.Prelude.{
  ℕ, suc, Bool, ◌||◌, Option, none, some, List, [], ◌∷◌, ◌++◌, map, length, ltb, if◌then◌else◌,
}
use data_profiler.Prelude.Float.{Float64}
use data_profiler.Domain.{Correlation}
use data_profiler.Store.{Result, ok, err}
use data_profiler.Dialect.{Dialect}
use data_profiler.Dialect.Query.{Query, named, text}
use data_profiler.Dialect.Methods.{numeric_correlation_query}
use data_profiler.Profile.Classify.{is_numeric}
use data_profiler.Profile.Source.{Source}
use data_profiler.Profile.Column.{ColumnMeta}

unfoldable pub numeric_columns : List ColumnMeta → List ColumnMeta
numeric_columns [] = []
numeric_columns (c ∷ cs) =
    let rest = numeric_columns cs in if is_numeric c.data_type then c ∷ rest else rest

-- The two loops: each column with each one behind it.
unfoldable pub pairs : List ColumnMeta → List (ColumnMeta × ColumnMeta)
pairs [] = []
pairs (c ∷ cs) = map (λ d. (c, d)) cs ++ pairs cs

module _ (fl : Float64) (src : Source fl.F) (d : Dialect) (table : Query) where
  open fl use {F, is_nan}

  abbrev pub correlation_of : ColumnMeta × ColumnMeta → Result (Option F) → List (Correlation F)
  correlation_of (a, b) (err e) = []
  correlation_of (a, b) (ok none) = []
  correlation_of (a, b) (ok (some x)) =
      if is_nan x
      then []
      else (record { column_a = a.name; column_b = b.name; coefficient = x }) ∷ []

  abbrev pub correlate_pair : ColumnMeta × ColumnMeta → List (Correlation F)
  correlate_pair (a, b) =
      correlation_of (a, b)
        (src.nullable_float
          (text d (numeric_correlation_query d (named a.name) (named b.name) table)))

  -- The body of the loops; `done` says whether the context is done at the `n`-th look at it.
  unfoldable pub correlate : (ℕ → Bool) → ℕ → List (ColumnMeta × ColumnMeta) → List (Correlation F)
  correlate done n [] = []
  correlate done n (p ∷ ps) =
      let rest = correlate done (suc n) ps in if done n then [] else correlate_pair p ++ rest

  unfoldable pub add_numeric_correlations : (ℕ → Bool) → List ColumnMeta → List (Correlation F)
  add_numeric_correlations done cols =
      let numeric = numeric_columns cols in
      if ltb (length numeric) 2 || ltb 12 (length numeric)
      then []
      else correlate done 0 (pairs numeric)
