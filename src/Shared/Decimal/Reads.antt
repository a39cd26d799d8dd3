-- ===== src/Shared/Decimal/Reads.antt =====
-- A numeral that is written reads back.
use agentic_mudahurus.Shared.{
  ℕ, zero, suc, ◌+◌, ◌*◌, ◌/◌, ◌%◌, ◌≤◌, ◌<◌, ◌≡◌, refl, ◌∙◌, ◌-◌, true, false, some, [], ◌∷◌, ltb,
  ◌==◌, Bool-cases, inl, inr, arith, Text, All,
}
use agentic_mudahurus.Shared.Int.{pos}
use agentic_mudahurus.Shared.Decimal.{
  emit, decimal, read_digits, is_digit, max_int64, atoi_value, clamped,
}

digit : (d : ℕ) → d < 10 → is_digit (b'0' + d) ≡ true
digit d h = ground arith

small_of : (n : ℕ) → ltb n 10 ≡ true → n < 10
small_of n e = ground arith

large_of : (n : ℕ) → ltb n 10 ≡ false → 10 ≤ n
large_of n e = ground arith

read-emit :
    (fuel n : ℕ) (out : Text) → n < fuel → read_digits 0 (emit fuel n out) ≡ read_digits n out
unfolding emit read_digits
read-emit zero n out h = absurd (omega (arith, h))
read-emit (suc fuel) n out h = elim (Bool-cases (ltb n 10)) [
  | inl small ↦
      let lone : 0 + (b'0' + n - b'0') ≡ n = omega arith in
      rw (small, digit n (small_of n small), lone) refl
  | inr large ↦
      let last : n / 10 * 10 + (b'0' + n % 10 - b'0') ≡ n = omega arith in
      rw large (
        read-emit fuel (n / 10) ((b'0' + n % 10) ∷ out) (shorter large)
        ∙ (rw (digit (n % 10) (omega arith), last) refl))
]
  where
    shorter : ltb n 10 ≡ false → n / 10 < fuel
    shorter large = let big : 10 ≤ n = large_of n large in omega arith

emit_starts :
    (fuel n : ℕ) (out : Text)
    → n < fuel
    → (c : ℕ) × (s : Text) × (emit fuel n out ≡ c ∷ s) × (is_digit c ≡ true)
unfolding emit
emit_starts zero n out h = absurd (omega (arith, h))
emit_starts (suc fuel) n out h = elim (Bool-cases (ltb n 10)) [
  | inl small ↦ (b'0' + n, out, rw small refl, digit n (small_of n small))
  | inr large ↦
      let big : 10 ≤ n = large_of n large in
      let (c, s, e, d) =
        emit_starts fuel (n / 10) ((b'0' + n % 10) ∷ out) (omega (arith, h, big)) in
      (c, s, rw large e, d)
]

atoi-digits :
    (c : ℕ) (s : Text) (n : ℕ)
    → is_digit c ≡ true
    → read_digits 0 (c ∷ s) ≡ some n
    → n ≤ max_int64
    → atoi_value (c ∷ s) ≡ pos n
unfolding atoi_value
atoi-digits c s n d e h =
    let minus : (c == b'-') ≡ false = ground arith in
    let plus : (c == b'+') ≡ false = ground arith in rw (minus, plus, e) (in_range n h)
  where
    in_range : (n : ℕ) → n ≤ max_int64 → clamped false (some n) ≡ pos n
    in_range n h = ground arith

-- What `%d` writes of a number within the range of an int64, Atoi reads back.
pub atoi_value-decimal : (n : ℕ) → n ≤ max_int64 → atoi_value (decimal n) ≡ pos n
unfolding decimal read_digits
atoi_value-decimal n h =
    let (c, s, e, d) = emit_starts (suc n) n [] (omega arith) in
    let value = read-emit (suc n) n [] (omega arith) in rw e (atoi-digits c s n d (rw e at value) h)

abbrev pub IsDigits : Text → Type 0
IsDigits s = All (λ c. is_digit c ≡ true) s

emit-IsDigits : (fuel n : ℕ) (out : Text) → IsDigits out → IsDigits (emit fuel n out)
unfolding emit
emit-IsDigits zero n out h = h
emit-IsDigits (suc fuel) n out h = elim (Bool-cases (ltb n 10)) [
  | inl small ↦ rw small (digit n (small_of n small), h)
  | inr large ↦
      rw large
        (emit-IsDigits fuel (n / 10) ((b'0' + n % 10) ∷ out) (digit (n % 10) (omega arith), h))
]

pub decimal-IsDigits : (n : ℕ) → IsDigits (decimal n)
unfolding decimal
decimal-IsDigits n = emit-IsDigits (suc n) n [] tt
