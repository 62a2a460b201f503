-- ===== src/Api/History.antt =====
-- The answer of GET /profiles/history.
use data_profiler.Prelude.{
  ℕ, suc, ◌≡◌, ◌⊎◌, ◌≤◌, ◌<◌, inl, inr, refl, sym, ap, ◌∙◌, true, ◌||◌, Option, none, some, List,
  [], ◌∷◌, Str, lit, trim_space, atoi, length, take, length-take_le, Bool-cases, Option-cases,
  arith,
}
use data_profiler.Prelude.Int.{ℤ, pos, negsuc, ltb_ℤ}
use data_profiler.Prelude.Float.{Float64}
use data_profiler.Domain.{TableProfile}
use data_profiler.Store.Tables.{ProfileRow, rows_of_table}
use data_profiler.Store.Keeps.{call-holds}
use data_profiler.Store.{
  Result, ok, err, Env, Db, collect, scan_profile, history_limit, get_profile_history,
}
use data_profiler.Worker.{System}
use data_profiler.Api.{
  Response, text, profiles, is_empty, accept_limit, parse_limit, answer, missing, get_history,
}

-- Only the count of calls may differ.
abbrev pub SameTables : System → System → Type 0
SameTables s t = (t.db.jobs ≡ s.db.jobs) × (t.db.profiles ≡ s.db.profiles) × (t.queue ≡ s.queue)

accept_limit_bounds :
    (o : Option ℤ) (z : ℤ) → accept_limit o ≡ some z → (n : ℕ) × (z ≡ pos n) × (0 < n) × (n ≤ 100)
accept_limit_bounds none z h = cc h
accept_limit_bounds (some (pos n)) z h =
    elim (Bool-cases (ltb_ℤ (pos n) (pos 1) || ltb_ℤ (pos 100) (pos n))) [
      | inl e ↦ let refused = rw e at h in cc refused
      | inr e ↦
          let same = rw e at h in
          (n, ap (λ o. elim o [ none ↦ pos n | some x ↦ x ]) (sym same), ground arith, ground arith)
    ]
accept_limit_bounds (some (negsuc n)) z h =
    let below : ltb_ℤ (negsuc n) (pos 1) ≡ true = ground arith in
    let refused = rw below at h in cc refused

module _ (fl : Float64) (env : Env fl.F) where
  open fl use {F}

  abbrev Fits : ℕ → Db → Result (List (TableProfile F)) × Db → Type 0
  Fits n d (ok ps, d') = (length ps ≤ n) × (d'.jobs ≡ d.jobs) × (d'.profiles ≡ d.profiles)
  Fits n d (err e, d') = (d'.jobs ≡ d.jobs) × (d'.profiles ≡ d.profiles)

  abbrev ShorterThan : ℕ → Result (List (TableProfile F)) → Type 0
  ShorterThan n (ok ps) = length ps ≤ n
  ShorterThan n (err e) = Unit

  collect-length :
      (rows : List ProfileRow) → ShorterThan (length rows) (collect env (scan_profile env) rows)
  collect-length [] = omega arith
  collect-length (r ∷ rows) =
      add (scan_profile env r) (collect env (scan_profile env) rows) (collect-length rows)
    where
      add :
          (first : Result (TableProfile F)) (rest : Result (List (TableProfile F)))
          → ShorterThan (length rows) rest
          → ShorterThan (suc (length rows)) (elim first [
            | err e ↦ err e
            | ok b ↦ elim rest [ err e ↦ err e | ok bs ↦ ok (b ∷ bs) ]
          ])
      add (err e) rest h = tt
      add (ok b) (err e) h = tt
      add (ok b) (ok bs) h = omega (arith, h)

  Fits-of :
      (m n : ℕ) (d : Db) (r : Result (List (TableProfile F)))
      → ShorterThan m r
      → m ≤ n
      → Fits n d (r, record d { calls = suc d.calls })
  Fits-of m n d (ok ps) h le = (omega arith, refl, refl)
  Fits-of m n d (err e) h le = (refl, refl)

  get_profile_history-Fits :
      (schema table : Str) (n : ℕ) (d : Db)
      → 0 < n
      → n ≤ 100
      → Fits n d (get_profile_history env schema table (pos n) d)
  unfolding get_profile_history
  get_profile_history-Fits schema table n d low high =
      let limit : history_limit env (pos n) ≡ n = ground arith in
      let rows = rows_of_table schema table d.profiles in
      call-holds env (Fits n d)
        (λ db. (
          collect env (scan_profile env)
              (take (history_limit env (pos n)) (rows_of_table schema table db.profiles)),
          db,
        ))
        d (λ e. (refl, refl))
        (rw limit (
          Fits-of (length (take n rows)) n d _ (collect-length (take n rows))
            (length-take_le n rows)))

  -- A refusal, a miss, or as many profiles as were asked for at most.
  abbrev pub IsHistory : Str → System → Response F × System → Type 0
  IsHistory raw s ((status, text m), t) =
      ((status ≡ 400) × (t ≡ s)) ⊎ ((status ≡ 404) × SameTables s t)
  IsHistory raw s ((status, profiles ps), t) =
      (status ≡ 200)
      × SameTables s t
      × ((n : ℕ) × (parse_limit raw ≡ some (pos n)) × (0 < n) × (n ≤ 100) × (length ps ≤ n))
  IsHistory raw s ((status, _), t) = ⊥

  parse_limit_bounds :
      (raw : Str) (z : ℤ) → parse_limit raw ≡ some z → (n : ℕ) × (z ≡ pos n) × (0 < n) × (n ≤ 100)
  unfolding parse_limit
  parse_limit_bounds [] z h =
      (20, ap (λ o. elim o [ none ↦ pos 20 | some x ↦ x ]) (sym h), omega arith, omega arith)
  parse_limit_bounds (c ∷ raw) z h = accept_limit_bounds (atoi (c ∷ raw)) z h

  answered :
      (raw : Str) (n : ℕ) (s : System) (r : Result (List (TableProfile F)) × Db)
      → parse_limit raw ≡ some (pos n)
      → 0 < n
      → n ≤ 100
      → Fits n s.db r
      → IsHistory raw s (
          answer fl env
            (missing fl env (lit "history not found"))
            (λ ps. (200, profiles ps))
            (r.0, record s { db = r.1 }))
  answered raw n s (ok ps, d) parsed low high fits =
      (refl, (fits.1, fits.2, refl), (n, parsed, low, high, fits.0))
  answered raw n s (err e, d) parsed low high fits = inr (refl, (fits.0, fits.1, refl))

  -- Whatever fails, GET /profiles/history answers 400 and touches nothing, or answers 404, or answers 200 with no
  -- more profiles than the limit that it read, which is between 1 and 100; it never changes a table or the channel.
  pub get_history-IsHistory :
      (schema table raw : Str) (s : System)
      → IsHistory raw s (get_history fl env schema table raw s)
  unfolding get_history
  get_history-IsHistory schema table raw s =
      elim (Bool-cases (is_empty (trim_space schema) || is_empty (trim_space table))) [
        | inl e ↦ rw e (inl (refl, refl))
        | inr e ↦ rw e (elim (Option-cases (parse_limit raw)) [
          | inl h ↦ rw h (inl (refl, refl))
          | inr (z, h) ↦
              let (n, same, low, high) = parse_limit_bounds raw z h in
              let parsed : parse_limit raw ≡ some (pos n) = h ∙ ap some same in
              rw parsed (
                answered raw n s
                  (get_profile_history env (trim_space schema) (trim_space table) (pos n) s.db)
                  parsed low high
                  (get_profile_history-Fits (trim_space schema) (trim_space table) n s.db low high))
        ])
      ]
