-- ===== src/Drift/Order.antt =====
-- Reports made in two orders of visiting the maps.
use data_profiler.Prelude.{◌≡◌, refl, sym, ◌∙◌, subst, List, [], ◌++◌, Str}
use data_profiler.Prelude.Float.{Float64}
use data_profiler.Domain.{TableProfile}
use data_profiler.Drift.{Columns, column_map, compare}
use data_profiler.Drift.Lines.{
  is_nonempty, lines_of, old_lines, new_lines, score_lines, duplicate_lines, report_lines,
  compare-lines,
}
use mathlib.Core.List.{Perm, Permᴰ, append_assoc, perm_append_comm}
use mathlib.Core.List.Perm
use mathlib.Core.Logic.{∥∥₁_elim, ∥∥₁_prop}
use mathlib.Core.Bool.{Bool-set}

module _ {A : Type 0} (f : A → List Str) where
  lines_of-permᴰ : {l k : List A} → Permᴰ l k → Perm (lines_of f l) (lines_of f k)
  lines_of-permᴰ Permᴰ.nil = Perm.refl []
  lines_of-permᴰ (Permᴰ.cons {a = a} {l₁ = l} {l₂ = k} e p) =
      subst (λ b. Perm (f a ++ lines_of f l) (f b ++ lines_of f k)) e
        (Perm.append_left (f a) (lines_of-permᴰ p))
  lines_of-permᴰ (Permᴰ.swap {a = a} {b = b} {b' = d} {l = l} e e') =
      subst (λ c. Perm (f a ++ (f b ++ lines_of f l)) (f c ++ (f d ++ lines_of f l))) e'
        (subst (λ c. Perm (f a ++ (f b ++ lines_of f l)) (f b ++ (f c ++ lines_of f l))) e
          (rw (← append_assoc, ← append_assoc)
            (Perm.append_right (lines_of f l) (perm_append_comm (f a) (f b)))))
  lines_of-permᴰ (Permᴰ.trans p q) = Perm.trans (lines_of-permᴰ p) (lines_of-permᴰ q)

  lines_of-perm : {l k : List A} → Perm l k → Perm (lines_of f l) (lines_of f k)
  lines_of-perm p = ∥∥₁_elim p ∥∥₁_prop lines_of-permᴰ

is_nonempty-permᴰ : {l k : List Str} → Permᴰ l k → is_nonempty l ≡ is_nonempty k
is_nonempty-permᴰ Permᴰ.nil = refl
is_nonempty-permᴰ (Permᴰ.cons e p) = refl
is_nonempty-permᴰ (Permᴰ.swap e e') = refl
is_nonempty-permᴰ (Permᴰ.trans p q) = is_nonempty-permᴰ p ∙ is_nonempty-permᴰ q

-- Whatever two orders Go visits the maps in, the flag and the score delta are the same, and the lines are
-- the same up to their order.
pub compare-perm :
    (fl : Float64) (order visit : Columns fl → Columns fl)
    → ((m : Columns fl) → Perm (order m) m)
    → ((m : Columns fl) → Perm (visit m) m)
    → (a b : TableProfile fl.F)
    → ((compare fl order a b).changed ≡ (compare fl visit a b).changed)
      × ((compare fl order a b).score_delta ≡ (compare fl visit a b).score_delta)
      × Perm (compare fl order a b).column_changes (compare fl visit a b).column_changes
compare-perm fl order visit po pv a b =
    let old_cols = column_map fl a.columns [] in
    let new_cols = column_map fl b.columns [] in
    let same : (m : Columns fl) → Perm (order m) (visit m) =
      λ m. Perm.trans (po m) (Perm.symm (pv m)) in
    let lines : Perm (report_lines fl order a b) (report_lines fl visit a b) =
      Perm.append_right (duplicate_lines fl order a b) (
        Perm.append
          (Perm.append_left (score_lines fl order a b)
            (lines_of-perm (old_lines fl new_cols) (same old_cols)))
          (lines_of-perm (new_lines fl old_cols) (same new_cols))) in
    let (lo, fo) = compare-lines fl order a b in
    let (lv, fv) = compare-lines fl visit a b in
    (
      fo ∙ ∥∥₁_elim lines (Bool-set _ _) is_nonempty-permᴰ ∙ sym fv,
      unfold compare in refl,
      subst (λ l. Perm l (compare fl visit a b).column_changes) (sym lo)
          (subst (λ l. Perm (report_lines fl order a b) l) (sym lv) lines),
    )
