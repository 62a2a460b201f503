-- ===== src/Pii/Tests.antt =====
-- Runs of the detector, the package's own tests among them, and instances of its theorems.
use data_profiler.Prelude.{
  ℕ, ◌≡◌, ◌↔◌, ◌⊎◌, refl, true, false, List, [], ◌∷◌, ◌++◌, Str, lit, arith, str_eq, to_lower,
  to_upper, trim_left, trim_space, replace_byte, lower_byte, upper_byte, is_space, contains,
  has_prefix,
}
use data_profiler.Prelude.Int.{pos, add64, wrap64}
use data_profiler.Prelude.Rational.{Fraction, fraction, fraction-Ieee}
use data_profiler.Domain.{ValueCount}
use data_profiler.Regex.{matches, nullable, deriv, mk_seq, mk_alt}
use data_profiler.Pii.Patterns.{email_re, phone_re, uuid_re, ipv4_re, pan_re, aadhaar_re}
use data_profiler.Pii.Checks.{
  split_dots, octets_ok, valid_ipv4, digits_only, luhn_sum, luhn, matches_label,
}
use data_profiler.Pii.Luhn.{luhn-one_digit, luhn-swapped}
use data_profiler.Pii.Ipv4.{IsOctet, dotted, valid_ipv4_iff}
use data_profiler.Pii.Detect.{
  detect_profile-perm, detect_profile_sound, FromHeader, FromValues, NoEvidence, HasOneLabel-of_All,
}
use data_profiler.Pii.Shadow.{detect_profile-digit_runs}
use data_profiler.Pii.Evidence.{detect_profile-strong_evidence}
use data_profiler.Pii.{
  HeaderRule, header_rules, normalize, value_labels, name_hit, header_label, hundredths, tally,
  value_match_ratio, header_confidence, detect_values, detect_profile, detect,
}
use mathlib.Core.List.{Memᴰ}
use mathlib.Core.List.Perm

checks : Unit {0}
unfolding matches nullable deriv mk_seq mk_alt email_re phone_re uuid_re ipv4_re pan_re aadhaar_re
    split_dots octets_ok valid_ipv4 digits_only luhn_sum luhn matches_label lit str_eq to_upper
    upper_byte
checks = tt

detector : Unit {0}
unfolding checks header_rules normalize value_labels name_hit header_label tally value_match_ratio
    header_confidence detect_values detect_profile detect to_lower lower_byte trim_left trim_space
    is_space replace_byte contains has_prefix add64 wrap64
detector = tt

luhn_runs : (luhn (lit "4111111111111111") ≡ true) × (luhn (lit "4111111111111112") ≡ false)
unfolding checks
luhn_runs = (refl, refl)

ipv4_runs :
    (matches_label (lit "ip_address") (lit "999.1.1.1") ≡ false)
    × (matches_label (lit "ip_address") (lit "192.168.1.10") ≡ true)
    × (matches_label (lit "email") (lit "b@. test.com") ≡ false)
    × (matches_label (lit "email") (lit "c@test.com") ≡ true)
unfolding checks
ipv4_runs = (refl, refl, refl, refl)

abbrev count_of : Str → ℕ → ValueCount Fraction
count_of v n = record { value = v; count = pos n; percentage = (pos 0, 1) }

-- The inputs of detect_test.go. Its last test expects the label credit_card.
abbrev contacts : List (ValueCount Fraction)
contacts = count_of (lit "alice@example.com") 4 ∷ count_of (lit "bob@example.com") 3 ∷ []

detect_tests :
    (detect fraction header_rules (lit "email") (lit "text") ≡ lit "email")
    × (detect fraction header_rules (lit "customer_id") (lit "int") ≡ [])
    × ((detect_profile fraction header_rules (lit "contact") (lit "text") contacts).label
        ≡ lit "email")
    × ((detect_profile fraction header_rules
          (lit "payment_value")
          (lit "text")
          (count_of (lit "4111 1111 1111 1111") 2 ∷ [])).label
        ≡ lit "phone")
unfolding detector
detect_tests = (refl, refl, refl, refl)

-- The order in which Go visits the map decides the label of a header that two labels claim.
abbrev address_first : List HeaderRule
address_first = (lit "address", lit "address" ∷ []) ∷ (lit "email", lit "email" ∷ []) ∷ []

abbrev email_first : List HeaderRule
email_first = (lit "email", lit "email" ∷ []) ∷ (lit "address", lit "address" ∷ []) ∷ []

order_matters :
    (detect fraction email_first (lit "email_address") (lit "text") ≡ lit "email")
    × (detect fraction address_first (lit "email_address") (lit "text") ≡ lit "address")
unfolding detector
order_matters = (refl, refl)

luhn-one_digit_example : luhn (lit "4111111" ++ b'2' ∷ lit "11111111") ≡ false
unfolding checks
luhn-one_digit_example =
    luhn-one_digit (lit "4111111") (lit "11111111") b'1' b'2' refl refl (omega arith) refl

luhn-swapped_example : luhn (b'1' ∷ b'4' ∷ lit "11111111111111") ≡ false
unfolding checks
luhn-swapped_example =
    luhn-swapped [] (lit "11111111111111") b'4' b'1' refl refl (omega arith) (λ h. omega arith)
      (λ h. omega arith) refl

valid_ipv4_iff_example : (valid_ipv4 (lit "192.168.1.10") ≡ true) ↔ (
    (a : Str) × (b : Str) × (c : Str) × (d : Str) × IsOctet a
    × IsOctet b
    × IsOctet c
    × IsOctet d
    × (lit "192.168.1.10" ≡ dotted a b c d))
valid_ipv4_iff_example = valid_ipv4_iff (lit "192.168.1.10")

detect_profile-perm_example :
    detect_profile fraction email_first (lit "Home Street") (lit "text") []
    ≡ detect_profile fraction address_first (lit "Home Street") (lit "text") []
unfolding detector
detect_profile-perm_example =
    detect_profile-perm fraction (lit "Home Street") (lit "text") [] email_first address_first
      (Perm.swap _ _ _)
      (HasOneLabel-of_All (normalize (lit "Home Street")) (lit "address") email_first
        (λ h. cc, (λ h. refl, tt)))

detect_profile_sound_example :
    FromHeader fraction
      (lit "contact")
      (lit "text")
      contacts
      header_rules
      (detect_profile fraction header_rules (lit "contact") (lit "text") contacts)
    ⊎ (((r : HeaderRule) → Memᴰ r header_rules → name_hit (normalize (lit "contact")) r.1 ≡ false)
        × (FromValues fraction
              (lit "contact")
              (lit "text")
              contacts
              value_labels
              (detect_profile fraction header_rules (lit "contact") (lit "text") contacts)
            ⊎ NoEvidence fraction
                (lit "contact")
                (lit "text")
                contacts
                value_labels
                (detect_profile fraction header_rules (lit "contact") (lit "text") contacts)))
detect_profile_sound_example =
    detect_profile_sound fraction (lit "contact") (lit "text") contacts header_rules

detect_profile-strong_evidence_example :
    detect_profile fraction header_rules (lit "e-mail") (lit "text") contacts
    ≡ record { label = lit "email"; confidence = hundredths fraction 95 }
unfolding detector
detect_profile-strong_evidence_example =
    detect_profile-strong_evidence fraction fraction-Ieee header_rules (lit "e-mail") (lit "text")
      (lit "email") contacts refl (refl, (refl, tt)) (omega arith) (omega arith) (omega arith)

-- A card number that passes the Luhn check.
abbrev cards : List (ValueCount Fraction)
cards = count_of (lit "4111111111111111") 2 ∷ []

detect_profile-digit_runs_example :
    detect_profile fraction header_rules (lit "payment_value") (lit "text") cards
    ≡ record { label = lit "phone"; confidence = hundredths fraction 90 }
unfolding detector
detect_profile-digit_runs_example =
    detect_profile-digit_runs fraction fraction-Ieee header_rules (lit "payment_value") (lit "text")
      cards refl ((ground arith, omega arith, omega arith), tt) (refl, tt) (omega arith)
      (omega arith)
