-- ===== src/Pii/Patterns.antt =====
-- internal/pii/detect.go: the compiled expressions. On ASCII texts the flag (?i) adds nothing to a
-- class that already has both cases; the classes of uuidRE list both.
use data_profiler.Prelude.{ℕ, Bool, not, ◌&&◌, ◌||◌, ◌==◌, leb}
use data_profiler.Regex.{Regex, cls, seq, opt, plus, exactly, up_to, byte}

abbrev pub in_range : ℕ → ℕ → ℕ → Bool
in_range lo hi c = leb lo c && leb c hi

abbrev pub is_digit : ℕ → Bool
is_digit c = in_range b'0' b'9' c

abbrev pub is_alnum : ℕ → Bool
is_alnum c = in_range b'A' b'Z' c || in_range b'a' b'z' c || is_digit c

-- \s of package regexp: [\t\n\f\r ]
abbrev is_regex_space : ℕ → Bool
is_regex_space c = c == 9 || c == 10 || c == 12 || c == 13 || c == b' '

-- [A-Za-z0-9](?:[A-Za-z0-9-]{0,61}[A-Za-z0-9])?
abbrev domain_label : Regex
domain_label =
    let inner = cls (λ c. is_alnum c || c == b'-') in
    seq (cls is_alnum) (opt (seq (up_to 61 inner) (cls is_alnum)))

unfoldable pub email_re : Regex
email_re =
    seq (plus (cls (λ c. not (c == b'@' || is_regex_space c))))
      (seq (byte b'@') (seq domain_label (plus (seq (byte b'.') domain_label))))

unfoldable pub phone_re : Regex
phone_re =
    let body =
      cls (λ c. is_digit c || c == b' ' || c == b'.' || c == b'(' || c == b')' || c == b'-') in
    seq (opt (byte b'+')) (seq (cls is_digit) (seq (exactly 7 body) (up_to 13 body)))

abbrev hex : Regex
hex = cls (λ c. is_digit c || in_range b'a' b'f' c || in_range b'A' b'F' c)

unfoldable pub uuid_re : Regex
uuid_re =
    let variant =
      cls (λ c. c == b'8' || c == b'9' || c == b'a' || c == b'b' || c == b'A' || c == b'B') in
    seq (exactly 8 hex) (
      seq (byte b'-') (
        seq (exactly 4 hex) (
          seq (byte b'-') (
            seq (cls (in_range b'1' b'5')) (
              seq (exactly 3 hex) (
                seq (byte b'-')
                  (seq variant (seq (exactly 3 hex) (seq (byte b'-') (exactly 12 hex))))))))))

-- [0-9]{1,3}
abbrev pub octet_digits : Regex
octet_digits = seq (cls is_digit) (up_to 2 (cls is_digit))

unfoldable pub ipv4_re : Regex
ipv4_re = seq (exactly 3 (seq octet_digits (byte b'.'))) octet_digits

unfoldable pub pan_re : Regex
pan_re =
    let letter = cls (in_range b'A' b'Z') in
    seq (exactly 5 letter) (seq (exactly 4 (cls is_digit)) letter)

unfoldable pub aadhaar_re : Regex
aadhaar_re = exactly 12 (cls is_digit)
