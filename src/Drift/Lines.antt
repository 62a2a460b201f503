-- ===== src/Drift/Lines.antt =====
-- The lines of a report as a list that does not depend on a running state: the parts of the two maps
-- one after the other.
use data_profiler.Prelude.{
  ◌≡◌, refl, sym, ap, ◌∙◌, Bool, true, false, not, Option, none, some, List, [], ◌∷◌, ◌++◌, Str,
  lit, print_ℤ, str_eq,
}
use data_profiler.Prelude.Int.{pos, eqb_ℤ}
use data_profiler.Prelude.Float.{Float64}
use data_profiler.Domain.{ColumnProfile, TableProfile}
use data_profiler.Drift.Map.{lookup}
use data_profiler.Drift.{
  Columns, column_map, Changes, note, arrow, arrow_percent, compare_column, compare_entry,
  is_missing, visit_old, visit_new, compare, significant_delta,
}
use mathlib.Core.List.{append-nil, append_assoc}
use mathlib.Core.Bool.{xor}

abbrev pub is_nonempty {ℓ} : {A : Type ℓ} → List A → Bool
is_nonempty [] = false
is_nonempty (x ∷ xs) = true

-- The lines of every item, in order.
abbrev pub lines_of {ℓ} : {A : Type ℓ} → (A → List Str) → List A → List Str
lines_of f [] = []
lines_of f (x ∷ xs) = f x ++ lines_of f xs

abbrev pub line_if : Bool → Str → List Str
line_if true line = line ∷ []
line_if false line = []

is_nonempty-snoc : (xs : List Str) (x : Str) → is_nonempty (xs ++ x ∷ []) ≡ true
is_nonempty-snoc [] x = refl
is_nonempty-snoc (y ∷ xs) x = refl

module _ (fl : Float64) where
  open fl use {F, of_int, fsub, feq, fmt2}

  -- What a piece of the code does to the running state: it appends `lines`, and the flag says
  -- whether the state has lines.
  record Adds (step : Changes fl → Changes fl) (lines : List Str) : Type 0 where
    pub appends : (r : Changes fl) → (step r).column_changes ≡ r.column_changes ++ lines
    pub flags :
        (r : Changes fl)
        → r.changed ≡ is_nonempty r.column_changes
        → (step r).changed ≡ is_nonempty (step r).column_changes

  note-Adds : (b : Bool) (line : Str) → Adds (note fl b line) (line_if b line)
  note-Adds true line = record { appends = λ r. refl; flags = λ r h. sym (is_nonempty-snoc _ _) }
  note-Adds false line = record { appends = λ r. sym (append-nil _); flags = λ r h. h }

  then-Adds :
      (f g : Changes fl → Changes fl) (xs ys : List Str)
      → Adds f xs
      → Adds g ys
      → Adds (λ r. g (f r)) (xs ++ ys)
  then-Adds f g xs ys hf hg = record {
    appends = λ r.
        hg.appends (f r) ∙ ap (λ l. l ++ ys) (hf.appends r) ∙ append_assoc r.column_changes xs ys;
    flags = λ r h. hg.flags (f r) (hf.flags r h);
  }

  -- The lines about one column, in the order of the source.
  abbrev pub column_lines : Str → ColumnProfile F → ColumnProfile F → List Str
  column_lines name old current =
      line_if (not (str_eq old.data_type current.data_type))
        (arrow (lit "type changed: ") name old.data_type current.data_type)
      ++ line_if (xor old.nullable current.nullable) (lit "nullability changed: " ++ name)
      ++ line_if (not (eqb_ℤ old.distinct_count current.distinct_count)) (
          arrow (lit "distinct count changed: ") name (print_ℤ old.distinct_count)
            (print_ℤ current.distinct_count))
      ++ line_if
          (significant_delta fl old.null_percentage current.null_percentage (of_int (pos 10)))
          (arrow_percent fl (lit "null percentage changed: ") name old.null_percentage
            current.null_percentage)
      ++ line_if
          (significant_delta fl old.distinct_percentage current.distinct_percentage
            (of_int (pos 10)))
          (arrow_percent fl (lit "distinct percentage changed: ") name old.distinct_percentage
            current.distinct_percentage)
      ++ line_if
          (significant_delta fl old.outlier_percentage current.outlier_percentage (of_int (pos 5)))
          (arrow_percent fl (lit "outlier percentage changed: ") name old.outlier_percentage
            current.outlier_percentage)
      ++ line_if (not (str_eq old.pii current.pii))
          (arrow (lit "PII classification changed: ") name old.pii current.pii)

  abbrev pub entry_lines : Str → ColumnProfile F → Option (ColumnProfile F) → List Str
  entry_lines name old none = (lit "removed: " ++ name) ∷ []
  entry_lines name old (some current) = column_lines name old current

  abbrev pub old_lines : Columns fl → Str × ColumnProfile F → List Str
  old_lines new_cols e = entry_lines e.0 e.1 (lookup e.0 new_cols)

  abbrev pub new_lines : Columns fl → Str × ColumnProfile F → List Str
  new_lines old_cols e = line_if (is_missing fl (lookup e.0 old_cols)) (lit "added: " ++ e.0)

  compare_column-Adds :
      (name : Str) (old current : ColumnProfile F)
      → Adds (compare_column fl name old current) (column_lines name old current)
  unfolding compare_column
  compare_column-Adds name old current =
      then-Adds _ _ _ _
        (then-Adds _ _ _ _
          (then-Adds _ _ _ _
            (then-Adds _ _ _ _
              (then-Adds _ _ _ _ (then-Adds _ _ _ _ (note-Adds _ _) (note-Adds _ _))
                (note-Adds _ _))
              (note-Adds _ _))
            (note-Adds _ _))
          (note-Adds _ _))
        (note-Adds _ _)

  compare_entry-Adds :
      (name : Str) (old : ColumnProfile F) (found : Option (ColumnProfile F))
      → Adds (compare_entry fl name old found) (entry_lines name old found)
  compare_entry-Adds name old none = note-Adds true (lit "removed: " ++ name)
  compare_entry-Adds name old (some current) = compare_column-Adds name old current

  visit_old-Adds :
      (new_cols l : Columns fl) → Adds (visit_old fl new_cols l) (lines_of (old_lines new_cols) l)
  unfolding visit_old
  visit_old-Adds new_cols [] = note-Adds false []
  visit_old-Adds new_cols ((name, old) ∷ l) =
      then-Adds (compare_entry fl name old (lookup name new_cols)) (visit_old fl new_cols l) _ _
        (compare_entry-Adds name old (lookup name new_cols)) (visit_old-Adds new_cols l)

  visit_new-Adds :
      (old_cols l : Columns fl) → Adds (visit_new fl old_cols l) (lines_of (new_lines old_cols) l)
  unfolding visit_new
  visit_new-Adds old_cols [] = note-Adds false []
  visit_new-Adds old_cols ((name, c) ∷ l) =
      then-Adds (note fl (is_missing fl (lookup name old_cols)) (lit "added: " ++ name))
        (visit_new fl old_cols l) _ _ (note-Adds _ _) (visit_new-Adds old_cols l)

  module _ (order : Columns fl → Columns fl) (a b : TableProfile F) where
    -- The four parts of a report.
    abbrev pub score_lines : List Str
    score_lines = line_if (not (feq (fsub b.quality.score a.quality.score) (of_int (pos 0)))) (
        lit "quality score changed: "
        ++ (fmt2 a.quality.score ++ (lit " -> " ++ fmt2 b.quality.score)))

    abbrev pub duplicate_lines : List Str
    duplicate_lines = line_if (not (eqb_ℤ a.duplicate_row_count b.duplicate_row_count)) (
        lit "duplicate rows changed: "
        ++ (print_ℤ a.duplicate_row_count ++ (lit " -> " ++ print_ℤ b.duplicate_row_count)))

    abbrev pub report_lines : List Str
    report_lines =
        let old_cols = column_map fl a.columns [] in
        let new_cols = column_map fl b.columns [] in
        score_lines
        ++ lines_of (old_lines new_cols) (order old_cols)
        ++ lines_of (new_lines old_cols) (order new_cols)
        ++ duplicate_lines

    all_steps : Changes fl → Changes fl
    all_steps r =
        let old_cols = column_map fl a.columns [] in
        let new_cols = column_map fl b.columns [] in
        note fl (not (eqb_ℤ a.duplicate_row_count b.duplicate_row_count))
          (lit "duplicate rows changed: "
            ++ (print_ℤ a.duplicate_row_count ++ (lit " -> " ++ print_ℤ b.duplicate_row_count)))
          (visit_new fl old_cols (order new_cols) (
            visit_old fl new_cols (order old_cols) (
              note fl (not (feq (fsub b.quality.score a.quality.score) (of_int (pos 0))))
                (lit "quality score changed: "
                  ++ (fmt2 a.quality.score ++ (lit " -> " ++ fmt2 b.quality.score)))
                r)))

    all_steps-Adds : Adds all_steps report_lines
    unfolding all_steps
    all_steps-Adds =
        let old_cols = column_map fl a.columns [] in
        let new_cols = column_map fl b.columns [] in
        then-Adds _ _ _ _
          (then-Adds _ _ _ _
            (then-Adds _ _ _ _ (note-Adds _ _) (visit_old-Adds new_cols (order old_cols)))
            (visit_new-Adds old_cols (order new_cols)))
          (note-Adds _ _)

    -- A report's lines are its four parts in order, and its flag says whether there is a line.
    pub compare-lines :
        ((compare fl order a b).column_changes ≡ report_lines)
        × ((compare fl order a b).changed ≡ is_nonempty report_lines)
    unfolding compare all_steps
    compare-lines =
        let start : Changes fl = record { changed = false; column_changes = [] } in
        (
          all_steps-Adds.appends start,
          all_steps-Adds.flags start refl ∙ ap is_nonempty (all_steps-Adds.appends start),
        )
