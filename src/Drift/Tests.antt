-- ===== src/Drift/Tests.antt =====
-- Runs of `Compare` and instances of its theorems.
use data_profiler.Prelude.{◌≡◌, ◌↔◌, false, [], ◌∷◌}
use data_profiler.Prelude.Rational.{fraction}
use data_profiler.Samples.{users, users_later}
use data_profiler.Drift.Order.{compare-perm}
use data_profiler.Drift.Same.{SameProfile, compare-unchanged_iff}
use data_profiler.Drift.{Columns, compare}
use mathlib.Core.List.{Perm}
use mathlib.Core.List.Perm

-- Two orders in which a map of two entries can be visited.
abbrev in_order : Columns fraction → Columns fraction
in_order m = m

abbrev swapped : Columns fraction → Columns fraction
swapped [] = []
swapped (a ∷ []) = a ∷ []
swapped (a ∷ b ∷ m) = b ∷ a ∷ m

swapped-perm : (m : Columns fraction) → Perm (swapped m) m
swapped-perm [] = Perm.refl []
swapped-perm (a ∷ []) = Perm.refl (a ∷ [])
swapped-perm (a ∷ b ∷ m) = Perm.swap _ _ _

compare-perm_example :
    ((compare fraction in_order users users_later).changed
      ≡ (compare fraction swapped users users_later).changed)
    × ((compare fraction in_order users users_later).score_delta
        ≡ (compare fraction swapped users users_later).score_delta)
    × Perm
        (compare fraction in_order users users_later).column_changes
        (compare fraction swapped users users_later).column_changes
compare-perm_example =
    compare-perm fraction in_order swapped (λ m. Perm.refl m) swapped-perm users users_later

compare-unchanged_iff_example :
    ((compare fraction swapped users users_later).changed ≡ false)
    ↔ SameProfile fraction users users_later
compare-unchanged_iff_example =
    compare-unchanged_iff fraction swapped swapped-perm users users_later
