-- ===== src/Pii.antt =====
-- internal/pii/detect.go: the classification of a column. Go visits the map `headerRules` in an
-- order of its own choosing, so the order is an argument.
pub mod Patterns
pub mod Checks
pub mod Luhn
pub mod Ipv4
pub mod Detect
pub mod Evidence
pub mod Shadow
mod Tests
use data_profiler.Prelude.{
  ℕ, ◌+◌, ◌*◌, Bool, true, false, ◌&&◌, ◌||◌, Option, none, some, List, [], ◌∷◌, Str, String, lit,
  str_eq, contains, trim_space, to_lower, replace_byte, if◌then◌else◌,
}
use data_profiler.Prelude.Int.{ℤ, pos, add64, eqb_ℤ}
use data_profiler.Prelude.Float.{Float64}
use data_profiler.Domain.{ValueCount}
use Checks.{matches_label}

pub record Detection (F : Type 0) : Type 0 where
  pub label : Str
  pub confidence : F

abbrev pub HeaderRule : Type 0
HeaderRule = Str × List Str

unfoldable pub header_rules : List HeaderRule
header_rules =
    (lit "email", lit "email" ∷ lit "e_mail" ∷ lit "email_address" ∷ [])
    ∷ (lit "phone", lit "phone" ∷ lit "mobile" ∷ lit "telephone" ∷ lit "phone_number" ∷ [])
    ∷ (
      lit "person_name",
      lit "first_name" ∷ lit "last_name" ∷ lit "full_name" ∷ lit "person_name" ∷ lit "name" ∷ [],
    )
    ∷ (lit "date_of_birth", lit "dob" ∷ lit "birth_date" ∷ lit "date_of_birth" ∷ [])
    ∷ (
      lit "address",
      lit "address" ∷ lit "street" ∷ lit "city" ∷ lit "postal_code" ∷ lit "zip" ∷ [],
    )
    ∷ (
      lit "government_id",
      lit "ssn"
          ∷ lit "aadhaar"
          ∷ lit "aadhar"
          ∷ lit "pan"
          ∷ lit "passport"
          ∷ lit "national_id"
          ∷ lit "government_id"
          ∷ [],
    )
    ∷ (lit "credit_card", lit "card_number" ∷ lit "credit_card" ∷ lit "credit_card_number" ∷ [])
    ∷ (lit "ip_address", lit "ip" ∷ lit "ip_address" ∷ lit "ipv4" ∷ lit "ipv6" ∷ [])
    ∷ (lit "uuid", lit "uuid" ∷ [])
    ∷ []

unfoldable pub normalize : Str → Str
normalize s =
    replace_byte b' ' (b'_' ∷ []) (replace_byte b'-' (b'_' ∷ []) (to_lower (trim_space s)))

-- The labels that are tried on the values alone, in the order of the source.
unfoldable pub value_labels : List Str
value_labels =
    lit "email"
    ∷ lit "phone"
    ∷ lit "credit_card"
    ∷ lit "government_id"
    ∷ lit "uuid"
    ∷ lit "ip_address"
    ∷ []

unfoldable pub name_hit : Str → List Str → Bool
name_hit header [] = false
name_hit header (rule ∷ names) = str_eq header rule || contains rule header || name_hit header names

-- The label at which the nested loops over the map return, if any.
unfoldable pub header_label : Str → List HeaderRule → Option Str
header_label header [] = none
header_label header ((label, names) ∷ rules) =
    if name_hit header names then some label else header_label header rules

module _ (fl : Float64) where
  open fl use {F, of_int, fdiv, fle}

  -- a constant such as 0.80, in hundredths
  abbrev pub hundredths : ℕ → F
  hundredths n = fdiv (of_int (pos n)) (of_int (pos 100))

  -- The loop of `valueMatchRatio`: the counts of the values that are not blank, and of those that
  -- match.
  unfoldable pub tally : Str → List (ValueCount F) → ℤ → ℤ → ℤ × ℤ
  tally label [] checked matched = (checked, matched)
  tally label (v ∷ values) checked matched =
      let text = trim_space v.value in
      let blank = str_eq text [] in
      tally label values (if blank then checked else add64 checked v.count) (
        if blank
        then matched
        else if matches_label label text
        then add64 matched v.count
        else matched)

  unfoldable pub value_match_ratio : Str → List (ValueCount F) → F
  value_match_ratio label values =
      let (checked, matched) = tally label values (pos 0) (pos 0) in
      if eqb_ℤ checked (pos 0) then of_int (pos 0) else fdiv (of_int matched) (of_int checked)

  -- the confidence of a header match
  unfoldable pub header_confidence : Str → Str → F → F
  header_confidence header label ratio =
      if fle (hundredths 80) ratio
      then hundredths 95
      else if fle (hundredths 50) ratio
      then hundredths 85
      else if str_eq label (lit "person_name") && str_eq header (lit "name")
      then hundredths 65
      else hundredths 75

  abbrev pub no_detection : Detection F
  no_detection = record { label = []; confidence = of_int (pos 0) }

  -- the second loop, over the values alone
  unfoldable pub detect_values : List (ValueCount F) → List Str → Detection F
  detect_values values [] = no_detection
  detect_values values (label ∷ labels) =
      let ratio = value_match_ratio label values in
      if fle (hundredths 80) ratio
      then record { label = label; confidence = hundredths 90 }
      else if fle (hundredths 50) ratio
      then record { label = label; confidence = hundredths 80 }
      else detect_values values labels

  abbrev pub detection_for : Str → List (ValueCount F) → Option Str → Detection F
  detection_for header values (some label) = record {
    label = label;
    confidence = header_confidence header label (value_match_ratio label values);
  }
  detection_for header values none = detect_values values value_labels

  -- `data_type` is not read, as in the source.
  unfoldable pub detect_profile : List HeaderRule → Str → Str → List (ValueCount F) → Detection F
  detect_profile order column data_type values =
      let header = normalize column in detection_for header values (header_label header order)

  unfoldable pub detect : List HeaderRule → Str → Str → Str
  detect order column data_type = (detect_profile order column data_type []).label
