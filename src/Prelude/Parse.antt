-- ===== src/Prelude/Parse.antt =====
-- strconv.Atoi.
use data_profiler.Prelude.Tests.{leb, ◌==◌, if◌then◌else◌}
use data_profiler.Prelude.Int.{ℤ, pos, sub_ℕ}
use data_profiler.Prelude.Text.{Str}
use Prim.Native.Nat.{ℕ, ◌+◌, ◌-◌, ◌*◌}
use mathlib.Core.Bool.{Bool, true, false, ◌&&◌}
use mathlib.Core.Option.{Option, none, some}
use mathlib.Core.List.{[], ◌∷◌}

-- A sign and at least one digit, and the number is an int64.
unfoldable pub digits_value : ℕ → Str → Option ℕ
digits_value n [] = some n
digits_value n (c ∷ s) =
    let rest = digits_value (n * 10 + (c - b'0')) s in
    if leb b'0' c && leb c b'9' then rest else none

abbrev pub in_int64 : Bool → Option ℕ → Option ℤ
in_int64 negative none = none
in_int64 false (some n) = if leb n 9223372036854775807 then some (pos n) else none
in_int64 true (some n) = if leb n 9223372036854775808 then some (sub_ℕ 0 n) else none

abbrev pub unsigned : Bool → Str → Option ℤ
unsigned negative [] = none
unsigned negative (c ∷ s) = in_int64 negative (digits_value 0 (c ∷ s))

unfoldable pub atoi : Str → Option ℤ
atoi [] = none
atoi (c ∷ s) =
    if c == b'-'
    then unsigned true s
    else if c == b'+'
    then unsigned false s
    else unsigned false (c ∷ s)
