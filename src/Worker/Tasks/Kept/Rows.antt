-- ===== src/Worker/Tasks/Kept/Rows.antt =====
-- The jobs that wait after an UPDATE and after an INSERT.
use data_profiler.Prelude.{
  ℕ, ◌≡◌, ◌⊎◌, sym, ◌∙◌, inl, inr, true, false, Option, List, [], ◌∷◌, ◌++◌, Str, str_eq,
  str_eq_iff, Bool-cases,
}
use data_profiler.Domain.{Status}
use data_profiler.Store.Tables.{JobRow, find_job, is_queued, update_row}
use data_profiler.Worker.Shutdown.{is_waiting}

-- A job that waits after an UPDATE of the row `id` waited before, or it is that row's.
pub waiting-update_row :
    (x id : Str) (status : Status) (error : Str) (began finished : Option ℕ) (rows : List JobRow)
    → is_waiting (find_job x (update_row id status error began finished rows)) ≡ true
    → ((str_eq id x ≡ true) × (is_queued status ≡ true))
      ⊎ ((str_eq id x ≡ false) × (is_waiting (find_job x rows) ≡ true))
unfolding find_job update_row
waiting-update_row x id status error began finished [] h = cc h
waiting-update_row x id status error began finished (q ∷ rows) h =
    elim (Bool-cases (str_eq q.id id)) [
      | inl own ↦
          let same : q.id ≡ id = (str_eq_iff q.id id).0 own in
          elim (Bool-cases (str_eq q.id x)) [
            | inl at ↦ inl (rw same at at, rw (own, at) at h)
            | inr other ↦
                elim (waiting-update_row x id status error began finished rows
                  (rw (own, other) at h)) [
                    | inl found ↦ inl found
                    | inr (apart, before) ↦ inr (apart, rw other before)
                  ]
          ]
      | inr not_own ↦ elim (Bool-cases (str_eq q.id x)) [
        | inl at ↦
            let same : q.id ≡ x = (str_eq_iff q.id x).0 at in
            elim (Bool-cases (str_eq id x)) [
              | inl eq ↦
                  let both : q.id ≡ id = same ∙ sym ((str_eq_iff id x).0 eq) in
                  let yes = (str_eq_iff q.id id).1 both in cc (yes, not_own)
              | inr apart ↦ inr (apart, rw at (rw (not_own, at) at h))
            ]
        | inr other ↦
            elim (waiting-update_row x id status error began finished rows
              (rw (not_own, other) at h)) [
                | inl found ↦ inl found
                | inr (apart, before) ↦ inr (apart, rw other before)
              ]
      ]
    ]

pub waiting-append :
    (x : Str) (rows : List JobRow) (r : JobRow)
    → is_waiting (find_job x (rows ++ r ∷ [])) ≡ true
    → (str_eq r.id x ≡ true) ⊎ (is_waiting (find_job x rows) ≡ true)
unfolding find_job
waiting-append x [] r h = elim (Bool-cases (str_eq r.id x)) [
  | inl e ↦ inl e
  | inr e ↦ let no : false ≡ true = rw e at h in cc no
]
waiting-append x (q ∷ rows) r h = elim (Bool-cases (str_eq q.id x)) [
  | inl e ↦ inr (rw e (rw e at h))
  | inr e ↦ elim (waiting-append x rows r (rw e at h)) [
    | inl own ↦ inl own
    | inr before ↦ inr (rw e before)
  ]
]
