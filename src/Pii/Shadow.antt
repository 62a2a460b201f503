-- ===== src/Pii/Shadow.antt =====
-- The labels are tried on the values in a fixed order, and the test for phone numbers comes before
-- those for credit cards and government ids.
use data_profiler.Prelude.{
  ◌≤◌, ◌<◌, ◌^◌, ◌≡◌, refl, ap, ◌∙◌, subst, true, false, ◌||◌, none, List, [], ◌∷◌, ◌++◌, Str, lit,
  str_eq, arith, All, Bool-cases, inl, inr, length, ◌==◌, trim_space,
}
use data_profiler.Prelude.Int.{pos}
use data_profiler.Prelude.Float.{Float64, Ieee}
use data_profiler.Domain.{ValueCount}
use data_profiler.Regex.{matches}
use data_profiler.Regex.Laws.{matches_iff, repeat-Matches}
use data_profiler.Pii.Patterns.{is_digit, email_re, phone_re}
use data_profiler.Pii.Checks.{digits_only, matches_label}
use data_profiler.Pii.Ipv4.{IsDigits}
use data_profiler.Pii.Evidence.{rows_checked, rows_matched, HasCounts, value_match_ratio_exact}
use data_profiler.Pii.{
  HeaderRule, normalize, header_label, value_labels, hundredths, value_match_ratio, detect_values,
  detect_profile,
}

-- Ten to 21 digits and nothing else: a card number, or a twelve-digit Aadhaar number, without separators.
abbrev pub IsDigitRun : Str → Type 0
IsDigitRun s = IsDigits s × (10 ≤ length s) × (length s ≤ 21)

digits_only_self : (s : Str) → IsDigits s → digits_only s ≡ s
unfolding digits_only
digits_only_self [] h = refl
digits_only_self (c ∷ s) h = rw (h.0, digits_only_self s h.1)

phone_body :
    (s : Str)
    → IsDigits s
    → All
        (λ c. (is_digit c || c == b' ' || c == b'.' || c == b'(' || c == b')' || c == b'-') ≡ true)
        s
phone_body [] h = tt
phone_body (c ∷ s) h = (rw h.0 refl, phone_body s h.1)

phone_re-digits : (s : Str) → IsDigitRun s → matches phone_re s ≡ true
unfolding phone_re
phone_re-digits [] h = absurd (omega arith)
phone_re-digits (c ∷ s) h = (matches_iff phone_re (c ∷ s)).1 (
  [],
  c ∷ s,
  refl,
  inl refl,
  (
    c ∷ [],
    s,
    refl,
    (c, refl, h.0.0),
    repeat-Matches _ 7 13 s (phone_body s h.0.1) (omega arith) (omega arith),
  ),
)

All-right : (xs ys : Str) → IsDigits (xs ++ ys) → IsDigits ys
All-right [] ys h = h
All-right (x ∷ xs) ys h = All-right xs ys h.1

email_re-digits : (s : Str) → IsDigits s → matches email_re s ≡ false
unfolding email_re
email_re-digits s h = elim (Bool-cases (matches email_re s)) [
  | inr miss ↦ miss
  | inl hit ↦
      let (a, w, e, _, (x, y, e', (c, ec, at), _)) = (matches_iff email_re s).0 hit in
      let right : IsDigits w = All-right a w (subst IsDigits e h) in
      let head : IsDigits (c ∷ y) = subst IsDigits (e' ∙ ap (λ z. z ++ y) ec) right in
      absurd (ground arith)
]

matches_label-phone : (s : Str) → IsDigitRun s → matches_label (lit "phone") s ≡ true
unfolding matches_label lit str_eq
matches_label-phone s h = rw (phone_re-digits s h, digits_only_self s h.0) (ground arith)

matches_label-email : (s : Str) → IsDigitRun s → matches_label (lit "email") s ≡ false
unfolding matches_label lit str_eq
matches_label-email s h = email_re-digits s h.0

module _ {F : Type 0} where
  abbrev pub AllDigitRuns : List (ValueCount F) → Type 0
  AllDigitRuns = All (λ v. IsDigitRun (trim_space v.value))

  rows_matched-phone :
      (values : List (ValueCount F))
      → AllDigitRuns values
      → rows_matched (lit "phone") values ≡ rows_checked values
  rows_matched-phone [] h = refl
  rows_matched-phone (v ∷ values) h =
      rw (matches_label-phone (trim_space v.value) h.0, rows_matched-phone values h.1)

  rows_matched-email :
      (values : List (ValueCount F)) → AllDigitRuns values → rows_matched (lit "email") values ≡ 0
  rows_matched-email [] h = refl
  rows_matched-email (v ∷ values) h =
      ground (arith, matches_label-email (trim_space v.value) h.0, rows_matched-email values h.1)

-- A column whose header hits no rule, and whose sampled values all are runs of 10 to 21 digits, is
-- reported as phone with confidence 0.90, whether the digits are card numbers (which pass the Luhn
-- check), Aadhaar numbers or neither; if the counts are not negative and sum to between 1 and 2^25.
pub detect_profile-digit_runs :
    (fl : Float64) (ieee : Ieee fl) (order : List HeaderRule) (column data_type : Str)
    (values : List (ValueCount fl.F))
    → header_label (normalize column) order ≡ none
    → AllDigitRuns values
    → HasCounts values
    → 0 < rows_checked values
    → rows_checked values ≤ 2 ^ 25
    → detect_profile fl order column data_type values
      ≡ record { label = lit "phone"; confidence = hundredths fl 90 }
unfolding detect_profile detect_values value_labels
detect_profile-digit_runs fl ieee order column data_type values no_hit runs counts some_rows fits =
    let n = rows_checked values in
    let email : value_match_ratio fl (lit "email") values
        ≡ fl.fdiv (fl.of_int (pos 0)) (fl.of_int (pos n)) =
      value_match_ratio_exact fl (lit "email") values counts some_rows (omega arith)
      ∙ ap (λ m. fl.fdiv (fl.of_int (pos m)) (fl.of_int (pos n)))
          (rows_matched-email values runs) in
    let phone : value_match_ratio fl (lit "phone") values
        ≡ fl.fdiv (fl.of_int (pos n)) (fl.of_int (pos n)) =
      value_match_ratio_exact fl (lit "phone") values counts some_rows (omega arith)
      ∙ ap (λ m. fl.fdiv (fl.of_int (pos m)) (fl.of_int (pos n)))
          (rows_matched-phone values runs) in
    rw (
      no_hit,
      email,
      phone,
      ieee.quotient_lt 80 100 0 n (omega arith) (omega arith) (omega arith) (omega arith) some_rows
          fits (omega arith),
      ieee.quotient_lt 50 100 0 n (omega arith) (omega arith) (omega arith) (omega arith) some_rows
          fits (omega arith),
      ieee.quotient_le 80 100 n n (omega arith) (omega arith) (omega arith) (omega arith) some_rows
          (omega arith) (omega arith),
    )
