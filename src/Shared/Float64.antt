-- ===== src/Shared/Float64.antt =====
-- Go's float64 on numbers that are not negative: each operation is exact and then rounded to 53 bits, to
-- nearest and ties to even, as IEEE 754 has it. Exponents stay between -1100 and 1100; infinities and
-- subnormal numbers are left out.
use Prim.Native.Nat.{ℕ, zero, suc, ◌+◌, ◌-◌, ◌*◌, ◌/◌, ◌%◌, ◌^◌}
use mathlib.Core.Bool.{Bool, ◌&&◌, ◌||◌}
use agentic_mudahurus.Shared.Tests.{ltb, leb, ◌==◌, if◌then◌else◌}

-- num / den, where den is a power of two
pub record Float64 : Type 0 where
  pub num : ℕ
  pub den : ℕ

-- Doublings of the first number until it is at least 2^52 times the second: the number, and how many.
scale_up : ℕ → ℕ → ℕ → ℕ → ℕ × ℕ
scale_up zero n d k = (n, k)
scale_up (suc fuel) n d k =
    let more = scale_up fuel (2 * n) d (suc k) in if ltb (n / d) (2 ^ 52) then more else (n, k)

-- Doublings of the second number until the first is below 2^53 times it.
scale_down : ℕ → ℕ → ℕ → ℕ → ℕ × ℕ
scale_down zero n d k = (d, k)
scale_down (suc fuel) n d k =
    let more = scale_down fuel n (2 * d) (suc k) in if ltb (n / d) (2 ^ 53) then (d, k) else more

abbrev nearest_even : ℕ → ℕ → ℕ
nearest_even n d =
    let q = n / d in let r = n % d in if ltb d (2 * r) || 2 * r == d && q % 2 == 1 then q + 1 else q

-- The float64 that is nearest to n / d.
unfoldable pub round_ratio : ℕ → ℕ → Float64
unfolding scale_up scale_down
round_ratio n d =
    let (n', up) = scale_up 1100 n d 0 in
    let (d', down) = scale_down 1100 n' d 0 in
    if n == 0
    then record { num = 0; den = 1 }
    else record { num = nearest_even n' d' * 2 ^ down; den = 2 ^ up }

-- The number of a decimal with two places, in hundredths.
unfoldable pub of_hundredths : ℕ → Float64
unfolding round_ratio
of_hundredths n = round_ratio n 100

unfoldable pub of_int : ℕ → Float64
unfolding round_ratio
of_int n = round_ratio n 1

unfoldable pub add : Float64 → Float64 → Float64
unfolding round_ratio
add a b = round_ratio (a.num * b.den + b.num * a.den) (a.den * b.den)

-- where the second is not greater
unfoldable pub sub : Float64 → Float64 → Float64
unfolding round_ratio
sub a b = round_ratio (a.num * b.den - b.num * a.den) (a.den * b.den)

unfoldable pub mul : Float64 → Float64 → Float64
unfolding round_ratio
mul a b = round_ratio (a.num * b.num) (a.den * b.den)

-- where the second is not zero
unfoldable pub div : Float64 → Float64 → Float64
unfolding round_ratio
div a b = round_ratio (a.num * b.den) (a.den * b.num)

abbrev pub le : Float64 → Float64 → Bool
le a b = leb (a.num * b.den) (b.num * a.den)

-- int64(a), below 2^63
abbrev pub truncated : Float64 → ℕ
truncated a = a.num / a.den

-- As the database rounds it to two places, in hundredths.
abbrev pub to_hundredths : Float64 → ℕ
to_hundredths a = (200 * a.num + a.den) / (2 * a.den)
