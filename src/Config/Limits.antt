-- ===== src/Config/Limits.antt =====
-- The settings that `NewManager` takes.
use data_profiler.Prelude.{
  ℕ, zero, suc, ◌≡◌, ◌≤◌, ◌<◌, ◌^◌, refl, false, Option, none, some, [], ◌∷◌, Str, lit, atoi,
  print_ℕ, atoi-print_ℕ, Bool-cases, inl, inr, arith,
}
use data_profiler.Prelude.Int.{ℤ, pos, negsuc, ltb_ℤ, leb_ℤ}
use data_profiler.Store.{Db}
use data_profiler.Worker.{new_manager}
use data_profiler.Config.{
  Process, non_empty, at_least_one, above_zero, get, get_int, get_duration, load,
}

-- A positive number.
abbrev pub IsPositive : ℤ → Type 0
IsPositive z = (n : ℕ) × (z ≡ pos n) × (1 ≤ n)

pub at_least_one-IsPositive : (v : Option ℤ) (d : ℕ) → 1 ≤ d → IsPositive (at_least_one v (pos d))
at_least_one-IsPositive none d h = (d, refl, h)
at_least_one-IsPositive (some (pos zero)) d h = (d, refl, h)
at_least_one-IsPositive (some (pos (suc n))) d h = elim (Bool-cases (ltb_ℤ (pos (suc n)) (pos 1))) [
  | inl e ↦ rw e (d, refl, h)
  | inr e ↦ rw e (suc n, refl, omega arith)
]
at_least_one-IsPositive (some (negsuc n)) d h = elim (Bool-cases (ltb_ℤ (negsuc n) (pos 1))) [
  | inl e ↦ rw e (d, refl, h)
  | inr e ↦ absurd (ground arith)
]

pub above_zero-IsPositive : (v : Option ℤ) (d : ℕ) → 1 ≤ d → IsPositive (above_zero v (pos d))
above_zero-IsPositive none d h = (d, refl, h)
above_zero-IsPositive (some (pos zero)) d h = (d, refl, h)
above_zero-IsPositive (some (pos (suc n))) d h = elim (Bool-cases (leb_ℤ (pos (suc n)) (pos 0))) [
  | inl e ↦ rw e (d, refl, h)
  | inr e ↦ rw e (suc n, refl, omega arith)
]
above_zero-IsPositive (some (negsuc n)) d h = elim (Bool-cases (leb_ℤ (negsuc n) (pos 0))) [
  | inl e ↦ rw e (d, refl, h)
  | inr e ↦ absurd (ground arith)
]

new_manager-positive :
    (db : Db) (n m : ℤ)
    → IsPositive n
    → IsPositive m
    → (pos (new_manager db n m).workers ≡ n) × ((new_manager db n m).stale_after ≡ m)
unfolding new_manager
new_manager-positive db n m (a, same, above) (b, same', above') =
    let few : leb_ℤ n (pos 0) ≡ false = rw same (ground arith) in
    let none_left : leb_ℤ m (pos 0) ≡ false = rw same' (ground arith) in
    rw (few, none_left) (rw same refl, refl)

load-job_workers : (process : Process) → IsPositive (load process).job_workers
unfolding load get_int
load-job_workers process =
    at_least_one-IsPositive (atoi (get process (lit "JOB_WORKERS") [])) 4 (omega arith)

load-job_stale_after : (process : Process) → IsPositive (load process).job_stale_after
unfolding load get_duration
load-job_stale_after process =
    above_zero-IsPositive (process.parse_duration (get process (lit "JOB_STALE_AFTER") []))
      1800000000000 (omega arith)

-- Whatever the environment holds, the number of workers and the age of a stale job are positive, so that the
-- manager takes both as they are loaded and its own corrections never apply.
load-new_manager :
    (process : Process) (db : Db)
    → (1 ≤ (new_manager db (load process).job_workers (load process).job_stale_after).workers)
      × (pos (new_manager db (load process).job_workers (load process).job_stale_after).workers
          ≡ (load process).job_workers)
      × ((new_manager db (load process).job_workers (load process).job_stale_after).stale_after
          ≡ (load process).job_stale_after)
load-new_manager process db =
    let n = load-job_workers process in
    let m = load-job_stale_after process in
    let (same, same') = new_manager-positive db _ _ n m in
    let (a, e, above) = n in (ground (arith, same, e, above), same, same')

non_empty-print_ℕ : (v : Str) (n : ℕ) → v ≡ print_ℕ n → non_empty v [] ≡ print_ℕ n
non_empty-print_ℕ [] n h = h
non_empty-print_ℕ (c ∷ v) n h = h

-- A positive number that fits in an int64 is read back from its decimal digits.
get_int-print_ℕ :
    (process : Process) (k : Str) (d : ℤ) (n : ℕ)
    → process.getenv k ≡ print_ℕ n
    → 1 ≤ n
    → n < 2 ^ 63
    → get_int process k d ≡ pos n
unfolding get_int get
get_int-print_ℕ process k d n written above fits =
    rw (non_empty-print_ℕ (process.getenv k) n written, atoi-print_ℕ n above fits)
      (rw (below n above) refl)
  where
    below : (n : ℕ) → 1 ≤ n → ltb_ℤ (pos n) (pos 1) ≡ false
    below n h = ground arith
