-- ===== src/Drift/Same.antt =====
-- When a report says that nothing changed.
use data_profiler.Prelude.{
  ◌≡◌, ◌↔◌, refl, sym, ◌∙◌, Bool, true, false, not, Option, none, some, List, [], ◌∷◌, ◌++◌, Str,
  arith, Option-cases, inl, inr, str_eq_iff,
}
use data_profiler.Prelude.Int.{ℤ, pos, eqb_ℤ}
use data_profiler.Prelude.Float.{Float64}
use data_profiler.Domain.{ColumnProfile, TableProfile}
use data_profiler.Drift.Map.{
  lookup, insert, HasUniqueKeys, insert-HasUniqueKeys, mem-of-lookup, lookup-of-mem,
}
use data_profiler.Drift.{Columns, column_map, significant_delta, compare}
use data_profiler.Drift.Lines.{
  is_nonempty, lines_of, line_if, column_lines, old_lines, new_lines, report_lines, compare-lines,
}
use mathlib.Core.List
use mathlib.Core.List.{Mem, Memᴰ, Perm, append-nil}
use mathlib.Core.List.Perm
use mathlib.Core.Logic.{∥∥₁_elim}
use mathlib.Core.Bool.{xor}
use native.Mathlib.Nat.{ℕ_set}

-- No line at all, in a list and in its parts.
abbrev IsBlank : List Str → Type 0
IsBlank l = l ≡ []

IsBlank-iff : (l : List Str) → (is_nonempty l ≡ false) ↔ IsBlank l
IsBlank-iff [] = (λ h. refl, λ h. refl)
IsBlank-iff (x ∷ l) = (λ h. cc, λ h. cc)

IsBlank-append : (l k : List Str) → IsBlank (l ++ k) ↔ (IsBlank l × IsBlank k)
IsBlank-append [] k = (λ h. (refl, h), λ h. h.1)
IsBlank-append (x ∷ l) k = (λ h. cc, λ h. cc (h.0))

IsBlank-prop : (l : List Str) → IsProp (IsBlank l)
IsBlank-prop l = List.is_set (List.is_set ℕ_set) l []

module _ {A : Type 0} (f : A → List Str) where
  IsBlank-lines_of : (l : List A) → IsBlank (lines_of f l) → (x : A) → Memᴰ x l → IsBlank (f x)
  IsBlank-lines_of [] h x at = elim at [ ]
  IsBlank-lines_of (y ∷ l) h x (Memᴰ.head e) = rw e ((IsBlank-append (f y) (lines_of f l)).0 h).0
  IsBlank-lines_of (y ∷ l) h x (Memᴰ.tail at) =
      IsBlank-lines_of l ((IsBlank-append (f y) (lines_of f l)).0 h).1 x at

  lines_of-IsBlank : (l : List A) → ((x : A) → Memᴰ x l → IsBlank (f x)) → IsBlank (lines_of f l)
  lines_of-IsBlank [] h = refl
  lines_of-IsBlank (y ∷ l) h =
      (IsBlank-append (f y) (lines_of f l)).1
        (h y (Memᴰ.head refl), lines_of-IsBlank l (λ x at. h x (Memᴰ.tail at)))

  -- The order does not matter.
  IsBlank-perm :
      (l k : List A) → Perm l k → IsBlank (lines_of f l) ↔ ((x : A) → Memᴰ x k → IsBlank (f x))
  IsBlank-perm l k p = (
    λ h x at.
        ∥∥₁_elim ((Perm.mem_iff p).1 ∣ at ∣₁) (IsBlank-prop (f x))
          (λ at'. IsBlank-lines_of l h x at'),
    λ h.
        lines_of-IsBlank l
          λ x at. ∥∥₁_elim ((Perm.mem_iff p).0 ∣ at ∣₁) (IsBlank-prop (f x)) (λ at'. h x at'),
  )

IsBlank-line_if : (b : Bool) (line : Str) → IsBlank (line_if b line) ↔ (b ≡ false)
IsBlank-line_if true line = (λ h. cc, λ h. cc)
IsBlank-line_if false line = (λ h. refl, λ h. refl)

split : {l k : List Str} → IsBlank (l ++ k) → IsBlank l × IsBlank k
split {l} {k} h = (IsBlank-append l k).0 h

not-false : (b : Bool) → not b ≡ false → b ≡ true
not-false b h = ground arith

xor-false : (a b : Bool) → xor a b ≡ false → a ≡ b
unfolding xor
xor-false true true h = refl
xor-false true false h = cc
xor-false false true h = cc
xor-false false false h = refl

false-xor : (a b : Bool) → a ≡ b → xor a b ≡ false
unfolding xor
false-xor true true h = refl
false-xor true false h = cc
false-xor false true h = cc
false-xor false false h = refl

eqb_ℤ_iff : (a b : ℤ) → (eqb_ℤ a b ≡ true) ↔ (a ≡ b)
eqb_ℤ_iff a b = ground arith

module _ (fl : Float64) where
  open fl use {F, of_int, fsub, feq}

  -- Two columns in which the report sees no difference.
  pub record SameColumn (old current : ColumnProfile F) : Type 0 where
    pub data_type : old.data_type ≡ current.data_type
    pub nullable : old.nullable ≡ current.nullable
    pub distinct_count : old.distinct_count ≡ current.distinct_count
    pub null_percentage :
        significant_delta fl old.null_percentage current.null_percentage (of_int (pos 10)) ≡ false
    pub distinct_percentage :
        significant_delta fl old.distinct_percentage current.distinct_percentage (of_int (pos 10))
        ≡ false
    pub outlier_percentage :
        significant_delta fl old.outlier_percentage current.outlier_percentage (of_int (pos 5))
        ≡ false
    pub pii : old.pii ≡ current.pii

  -- A column that both tables have, unchanged, or that neither has.
  abbrev pub SameEntry : Option (ColumnProfile F) → Option (ColumnProfile F) → Type 0
  SameEntry none none = Unit
  SameEntry none (some current) = ⊥
  SameEntry (some old) none = ⊥
  SameEntry (some old) (some current) = SameColumn old current

  pub record SameProfile (a b : TableProfile F) : Type 0 where
    pub score : feq (fsub b.quality.score a.quality.score) (of_int (pos 0)) ≡ true
    pub columns :
        (name : Str)
        → SameEntry
            (lookup name (column_map fl a.columns []))
            (lookup name (column_map fl b.columns []))
    pub duplicate_row_count : a.duplicate_row_count ≡ b.duplicate_row_count

  column_lines-IsBlank :
      (name : Str) (old current : ColumnProfile F)
      → IsBlank (column_lines fl name old current) ↔ SameColumn old current
  column_lines-IsBlank name old current = (
    λ h.
        let (h6, pii) = split h in
        let (h5, outlier) = split h6 in
        let (h4, distinct_pct) = split h5 in
        let (h3, null_pct) = split h4 in
        let (h2, distinct) = split h3 in
        let (typ, nullable) = split h2 in
        record {
          data_type =
              (str_eq_iff old.data_type current.data_type).0
                (not-false _ ((IsBlank-line_if _ _).0 typ));
          nullable = xor-false _ _ ((IsBlank-line_if _ _).0 nullable);
          distinct_count = (eqb_ℤ_iff _ _).0 (not-false _ ((IsBlank-line_if _ _).0 distinct));
          null_percentage = (IsBlank-line_if _ _).0 null_pct;
          distinct_percentage = (IsBlank-line_if _ _).0 distinct_pct;
          outlier_percentage = (IsBlank-line_if _ _).0 outlier;
          pii = (str_eq_iff old.pii current.pii).0 (not-false _ ((IsBlank-line_if _ _).0 pii));
        },
    λ s.
        let typ = (str_eq_iff old.data_type current.data_type).1 s.data_type in
        let distinct = (eqb_ℤ_iff old.distinct_count current.distinct_count).1 s.distinct_count in
        let pii = (str_eq_iff old.pii current.pii).1 s.pii in
        let nullable = false-xor old.nullable current.nullable s.nullable in
        rw (
          typ, distinct, pii, nullable, s.null_percentage, s.distinct_percentage,
          s.outlier_percentage,
        ),
  )

  column_map-HasUniqueKeys :
      (columns : List (ColumnProfile F)) (m : Columns fl)
      → HasUniqueKeys m
      → HasUniqueKeys (column_map fl columns m)
  unfolding column_map
  column_map-HasUniqueKeys [] m h = h
  column_map-HasUniqueKeys (c ∷ columns) m h =
      column_map-HasUniqueKeys columns (insert c.name c m) (insert-HasUniqueKeys c.name c m h)

  module _ (old_cols new_cols : Columns fl) (uo : HasUniqueKeys old_cols)
      (un : HasUniqueKeys new_cols) where
    entries_same :
        ((e : Str × ColumnProfile F) → Memᴰ e old_cols → IsBlank (old_lines fl new_cols e))
        → ((e : Str × ColumnProfile F) → Memᴰ e new_cols → IsBlank (new_lines fl old_cols e))
        → (name : Str) → SameEntry (lookup name old_cols) (lookup name new_cols)
    entries_same ho hn name = elim (Option-cases (lookup name old_cols)) [
      | inl eo ↦ elim (Option-cases (lookup name new_cols)) [
        | inl en ↦ rw (eo, en) tt
        | inr (c, en) ↦
            let line = rw eo at (hn (name, c) (mem-of-lookup name c new_cols en)) in
            absurd (cc line)
      ]
      | inr (o, eo) ↦
          let lines = ho (name, o) (mem-of-lookup name o old_cols eo) in
          elim (Option-cases (lookup name new_cols)) [
            | inl en ↦ let line = rw en at lines in absurd (cc line)
            | inr (c, en) ↦ rw (eo, en) ((column_lines-IsBlank name o c).0 (rw en at lines))
          ]
    ]

    same_entries :
        ((name : Str) → SameEntry (lookup name old_cols) (lookup name new_cols))
        → ((e : Str × ColumnProfile F) → Memᴰ e old_cols → IsBlank (old_lines fl new_cols e))
          × ((e : Str × ColumnProfile F) → Memᴰ e new_cols → IsBlank (new_lines fl old_cols e))
    same_entries h = (
      λ (name, o) at.
          let here = rw (lookup-of-mem name o old_cols uo at) at (h name) in
          elim (Option-cases (lookup name new_cols)) [
            | inl en ↦ absurd (rw en at here)
            | inr (c, en) ↦ rw en ((column_lines-IsBlank name o c).1 (rw en at here))
          ],
      λ (name, c) at.
          let here = rw (lookup-of-mem name c new_cols un at) at (h name) in
          elim (Option-cases (lookup name old_cols)) [
            | inl eo ↦ absurd (rw eo at here)
            | inr (o, eo) ↦ rw eo
          ],
    )

  -- A report says that nothing changed exactly when the scores do not differ, the duplicate counts are equal, and
  -- every name has a column in both tables or in neither, with one type, nullability, distinct count
  -- and PII label and with percentages that differ by less than the thresholds; whatever order Go
  -- visits the maps in.
  pub compare-unchanged_iff :
      (order : Columns fl → Columns fl)
      → ((m : Columns fl) → Perm (order m) m)
      → (a b : TableProfile F) → ((compare fl order a b).changed ≡ false) ↔ SameProfile a b
  compare-unchanged_iff order perm a b =
      let old_cols = column_map fl a.columns [] in
      let new_cols = column_map fl b.columns [] in
      let uo = column_map-HasUniqueKeys a.columns [] tt in
      let un = column_map-HasUniqueKeys b.columns [] tt in
      let flag = (compare-lines fl order a b).1 in
      let (old_blank, blank_old) =
        IsBlank-perm (old_lines fl new_cols) (order old_cols) old_cols (perm old_cols) in
      let (new_blank, blank_new) =
        IsBlank-perm (new_lines fl old_cols) (order new_cols) new_cols (perm new_cols) in
      (
        λ h.
            let blank = (IsBlank-iff (report_lines fl order a b)).0 (sym flag ∙ h) in
            let (h3, duplicates) = split blank in
            let (h2, added) = split h3 in
            let (scores, olds) = split h2 in
            record {
              score = not-false _ ((IsBlank-line_if _ _).0 scores);
              columns = entries_same old_cols new_cols uo un (old_blank olds) (new_blank added);
              duplicate_row_count =
                  (eqb_ℤ_iff _ _).0 (not-false _ ((IsBlank-line_if _ _).0 duplicates));
            },
        λ s.
            let (olds, news) = same_entries old_cols new_cols uo un s.columns in
            let dup =
              (eqb_ℤ_iff a.duplicate_row_count b.duplicate_row_count).1 s.duplicate_row_count in
            flag
            ∙ (IsBlank-iff (report_lines fl order a b)).1
                (rw (s.score, dup, blank_old olds, blank_new news)),
      )
