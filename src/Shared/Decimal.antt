-- ===== src/Shared/Decimal.antt =====
-- Decimal numerals: fmt's %d and %010d, and strconv.Atoi.
pub mod Reads
use Prim.Native.Nat.{ℕ, zero, suc, ◌+◌, ◌-◌, ◌*◌, ◌/◌, ◌%◌}
use mathlib.Core.Bool.{Bool, true, false, ◌&&◌}
use mathlib.Core.Option.{Option, none, some}
use mathlib.Core.List.{[], ◌∷◌, ◌++◌}
use agentic_mudahurus.Shared.Tests.{ltb, leb, ◌==◌, if◌then◌else◌}
use agentic_mudahurus.Shared.Lists.{length, replicate}
use agentic_mudahurus.Shared.Strings.{Text}
use agentic_mudahurus.Shared.Int.{ℤ, pos, negsuc}

-- The digits of `n` before `out`, most significant first; `fuel` bounds their number.
pub emit : ℕ → ℕ → Text → Text
emit zero n out = out
emit (suc fuel) n out =
    let more = emit fuel (n / 10) ((b'0' + n % 10) ∷ out) in
    if ltb n 10 then (b'0' + n) ∷ out else more

-- fmt.Sprintf("%d", n)
unfoldable pub decimal : ℕ → Text
unfolding emit
decimal n = emit (suc n) n []

-- fmt.Sprintf("%0wd", n)
unfoldable pub zero_padded : ℕ → ℕ → Text
unfolding decimal
zero_padded w n = let d = decimal n in replicate (w - length d) b'0' ++ d

abbrev pub is_digit : ℕ → Bool
is_digit c = leb b'0' c && leb c b'9'

-- The value of a run of digits behind `n`; none at another character.
unfoldable pub read_digits : ℕ → Text → Option ℕ
read_digits n [] = some n
read_digits n (c ∷ s) = if is_digit c then read_digits (n * 10 + (c - b'0')) s else none

abbrev pub max_int64 : ℕ
max_int64 = 9223372036854775807

-- At least one digit, and a value within the range of a 64-bit integer.
unfoldable pub in_range : Bool → Text → Option ℤ
unfolding read_digits
in_range negative [] = none
in_range negative (c ∷ s) = elim (read_digits 0 (c ∷ s)) [
  | none ↦ none
  | some n ↦
      if negative
      then (if leb n (max_int64 + 1) then some (if n == 0 then pos 0 else negsuc (n - 1)) else none)
      else if leb n max_int64
      then some (pos n)
      else none
]

-- strconv.Atoi on a 64-bit platform; none is an error
unfoldable pub atoi : Text → Option ℤ
unfolding in_range
atoi [] = none
atoi (c ∷ s) =
    if c == b'-'
    then in_range true s
    else if c == b'+'
    then in_range false s
    else in_range false (c ∷ s)

-- What Atoi returns beside an error: 0 for what is no numeral, and the nearest end of the range for one
-- that is out of it.
clamped : Bool → Option ℕ → ℤ
clamped negative none = pos 0
clamped true (some n) =
    if leb n (max_int64 + 1) then (if n == 0 then pos 0 else negsuc (n - 1)) else negsuc max_int64
clamped false (some n) = if leb n max_int64 then pos n else pos max_int64

digits_value : Bool → Text → ℤ
digits_value negative [] = pos 0
digits_value negative (c ∷ s) = clamped negative (read_digits 0 (c ∷ s))

-- `n, _ := strconv.Atoi(s)`
unfoldable pub atoi_value : Text → ℤ
unfolding clamped digits_value read_digits
atoi_value [] = pos 0
atoi_value (c ∷ s) =
    if c == b'-'
    then digits_value true s
    else if c == b'+'
    then digits_value false s
    else digits_value false (c ∷ s)
