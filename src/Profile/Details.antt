-- ===== src/Profile/Details.antt =====
-- internal/adapters/profile.go: the parts of a column's profile that it adds when their queries succeed.
use data_profiler.Prelude.{
  ℕ, ◌+◌, ◌||◌, ◌&&◌, Option, none, some, List, [], ◌∷◌, ◌++◌, map, Str, set, replicate, ◌==◌,
  if◌then◌else◌,
}
use data_profiler.Prelude.Int.{ℤ, pos, pos_part, sub64, leb_ℤ, ltb_ℤ, eqb_ℤ}
use data_profiler.Prelude.Float.{Float64}
use data_profiler.Domain.{DateDistribution, PatternCount, HistogramBin, ValueCount, ColumnProfile}
use data_profiler.Store.{Result, ok, err}
use data_profiler.Profile.Source.{Rows, no_rows, rows, until_error, successes, scanned}

module _ (fl : Float64) where
  open fl use {F, of_int, fadd, fsub, fmul, fdiv, flt, feq, is_nan, log2, parse_float}

  -- float64(n)*100/float64(of)
  abbrev pub share : ℤ → ℤ → F
  share n of = fdiv (fmul (of_int n) (of_int (pos 100))) (of_int of)

  -- The same, or 0 where there is nothing to divide by.
  abbrev pub share_or_zero : ℤ → ℤ → F
  share_or_zero n of = if ltb_ℤ (pos 0) of then share n of else of_int (pos 0)

  -- `nullableFloat`
  abbrev pub nullable_float : Option F → Option F
  nullable_float none = none
  nullable_float (some x) = if is_nan x then none else some x

  -- `addDateDistribution`, from the rows of its query.
  abbrev pub date_bin : ℤ → Str × ℤ → DateDistribution F
  date_bin total (period, n) = record {
    period = period;
    count = n;
    percentage = share_or_zero n total;
  }

  unfoldable pub add_date_distribution : Rows (Str × ℤ) → ℤ → ColumnProfile F → ColumnProfile F
  add_date_distribution found total p = record p {
    date_distribution = p.date_distribution ++ map (date_bin total) (until_error (scanned found));
  }

  abbrev pub value_count : ℤ → Str × ℤ → ValueCount F
  value_count total (v, n) = record { value = v; count = n; percentage = share_or_zero n total }

  unfoldable pub add_top_values : Rows (Str × ℤ) → ℤ → ColumnProfile F → ColumnProfile F
  add_top_values found total p = record p {
    top_values = p.top_values ++ map (value_count total) (successes (scanned found));
  }

  abbrev pub pattern_count : ℤ → Str × ℤ → PatternCount F
  pattern_count non_null (name, n) = record {
    pattern_name = name;
    count = n;
    percentage = share n non_null;
  }

  -- `addStringPatterns`
  unfoldable pub add_string_patterns : Rows (Str × ℤ) → ℤ → ColumnProfile F → ColumnProfile F
  add_string_patterns found total p =
      let non_null = sub64 total p.null_count in
      if leb_ℤ non_null (pos 0) then p else record p {
        patterns = p.patterns ++ map (pattern_count non_null) (until_error (scanned found));
      }

  -- The loop of `addTextEntropy`.
  unfoldable pub entropy_of : ℤ → List (Result ℤ) → F → F
  entropy_of non_null [] entropy = entropy
  entropy_of non_null (err e ∷ rs) entropy = entropy_of non_null rs entropy
  entropy_of non_null (ok n ∷ rs) entropy =
      let prob = fdiv (of_int n) (of_int non_null) in
      entropy_of non_null rs
        (if leb_ℤ n (pos 0) then entropy else fsub entropy (fmul prob (log2 prob)))

  abbrev pub normalized : F → F → Option F
  normalized entropy most = if flt (of_int (pos 0)) most then some (fdiv entropy most) else none

  abbrev pub with_entropy : Rows ℤ → ℤ → ℤ → ColumnProfile F → ColumnProfile F
  with_entropy (no_rows e) non_null distinct p = p
  with_entropy (rows rs (some e)) non_null distinct p = p
  with_entropy (rows rs none) non_null distinct p =
      let entropy = entropy_of non_null rs (of_int (pos 0)) in
      record p {
        entropy = some entropy;
        normalized_entropy = normalized entropy (log2 (of_int distinct));
      }

  -- `addTextEntropy`
  unfoldable pub add_text_entropy : Rows ℤ → ℤ → ℤ → ColumnProfile F → ColumnProfile F
  add_text_entropy found total distinct p =
      let non_null = sub64 total p.null_count in
      if leb_ℤ non_null (pos 0) || leb_ℤ distinct (pos 1)
      then p
      else with_entropy found non_null distinct p

  -- `counts[bucket] = count`, for each row with a bucket in range.
  unfoldable pub fill_counts : List (Result (ℤ × ℤ)) → List ℤ → List ℤ
  fill_counts [] counts = counts
  fill_counts (err e ∷ rs) counts = fill_counts rs counts
  fill_counts (ok (bucket, n) ∷ rs) counts = fill_counts rs (
      if leb_ℤ (pos 0) bucket && ltb_ℤ bucket (pos 10)
      then set counts (pos_part bucket) n
      else counts)

  -- The loop over the counts, from bin `i` on.
  abbrev pub bin : F → F → F → ℤ → ℕ → ℤ → HistogramBin F
  bin least most width non_null i n = record {
    lower = fadd least (fmul (of_int (pos i)) width);
    upper = if i == 9 then most else fadd least (fmul (of_int (pos (i + 1))) width);
    count = n;
    percentage = share n non_null;
  }

  unfoldable pub bins : F → F → F → ℤ → ℕ → List ℤ → List (HistogramBin F)
  bins least most width non_null i [] = []
  bins least most width non_null i (n ∷ counts) =
      let rest = bins least most width non_null (i + 1) counts in
      if eqb_ℤ n (pos 0) then rest else bin least most width non_null i n ∷ rest

  abbrev pub spread : Rows (ℤ × ℤ) → F → F → ℤ → List (HistogramBin F)
  spread (no_rows e) least most non_null = []
  spread (rows rs last) least most non_null =
      bins least most (fdiv (fsub most least) (of_int (pos 10))) non_null 0
        (fill_counts rs (replicate 10 (pos 0)))

  abbrev pub histogram_of : Rows (ℤ × ℤ) → Option F → Option F → ℤ → List (HistogramBin F)
  histogram_of found none most non_null = []
  histogram_of found (some least) none non_null = []
  histogram_of found (some least) (some most) non_null =
      if feq least most
      then (record { lower = least; upper = most; count = non_null; percentage = of_int (pos 100) })
        ∷ []
      else spread found least most non_null

  abbrev pub parsed : Option Str → Option F
  parsed none = none
  parsed (some s) = parse_float s

  -- `addNumericHistogram`. The histogram is empty before it.
  unfoldable pub add_numeric_histogram : Rows (ℤ × ℤ) → ℤ → ColumnProfile F → ColumnProfile F
  add_numeric_histogram found total p =
      let non_null = sub64 total p.null_count in
      if leb_ℤ non_null (pos 0)
      then p
      else record p { histogram = histogram_of found (parsed p.min) (parsed p.max) non_null }
