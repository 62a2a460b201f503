-- ===== src/Pii/Checks.antt =====
-- internal/pii/detect.go: the tests on a single value.
use data_profiler.Prelude.{
  ℕ, ◌+◌, ◌-◌, ◌*◌, ◌%◌, Bool, true, false, not, ◌&&◌, ◌||◌, List, [], ◌∷◌, Str, lit, str_eq,
  to_upper, length, ◌==◌, ltb, leb, if◌then◌else◌,
}
use data_profiler.Regex.{matches}
use data_profiler.Pii.Patterns.{is_digit, email_re, phone_re, uuid_re, ipv4_re, pan_re, aadhaar_re}
use mathlib.Core.List.{reverse}

-- `int(r-'0')`, in a text that `ipv4RE` has matched, so that every byte is a digit or the dot.
abbrev pub decimal_from : ℕ → Str → ℕ
decimal_from n [] = n
decimal_from n (c ∷ s) = decimal_from (n * 10 + (c - 48)) s

-- strings.Split(value, ".")
abbrev pub push_byte : ℕ → List Str → List Str
push_byte c [] = (c ∷ []) ∷ []
push_byte c (p ∷ ps) = if c == b'.' then [] ∷ p ∷ ps else (c ∷ p) ∷ ps

unfoldable pub split_dots : Str → List Str
split_dots [] = [] ∷ []
split_dots (c ∷ s) = push_byte c (split_dots s)

unfoldable pub octets_ok : List Str → Bool
octets_ok [] = true
octets_ok (part ∷ parts) = if ltb 255 (decimal_from 0 part) then false else octets_ok parts

unfoldable pub valid_ipv4 : Str → Bool
valid_ipv4 value = if not (matches ipv4_re value) then false else octets_ok (split_dots value)

unfoldable pub digits_only : Str → Str
digits_only [] = []
digits_only (c ∷ s) = let rest = digits_only s in if is_digit c then c ∷ rest else rest

-- `int(s[i]-'0')` is a subtraction of bytes.
abbrev pub digit_of : ℕ → ℕ
digit_of c = (c + 256 - 48) % 256

abbrev pub double_digit : ℕ → ℕ
double_digit n = if ltb 9 (n * 2) then n * 2 - 9 else n * 2

-- The loop of `luhn` from the last byte to the first: the text is given reversed.
unfoldable pub luhn_sum : Bool → ℕ → Str → ℕ
luhn_sum alternate sum [] = sum
luhn_sum alternate sum (c ∷ s) =
    let n = digit_of c in
    luhn_sum (not alternate) (sum + (if alternate then double_digit n else n)) s

unfoldable pub luhn : Str → Bool
luhn s =
    if ltb (length s) 13 || ltb 19 (length s) then false else luhn_sum false 0 (reverse s) % 10 == 0

unfoldable pub matches_label : Str → Str → Bool
matches_label label value =
    if str_eq label (lit "email")
    then matches email_re value
    else if str_eq label (lit "phone")
    then matches phone_re value && leb 10 (length (digits_only value))
    else if str_eq label (lit "credit_card")
    then (let digits = digits_only value in
        leb 13 (length digits) && leb (length digits) 19 && luhn digits)
    else if str_eq label (lit "government_id")
    then matches pan_re (to_upper value) || matches aadhaar_re (digits_only value)
    else if str_eq label (lit "uuid")
    then matches uuid_re value
    else if str_eq label (lit "ip_address")
    then valid_ipv4 value
    else false
