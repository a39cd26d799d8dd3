-- ===== src/Orders/Invoice/Columns.antt =====
-- The columns of an invoice's table line up.
use agentic_mudahurus.Shared.{
  ℕ, zero, suc, ◌-◌, ◌≡◌, ◌≤◌, refl, ap, [], ◌∷◌, length, length-append, replicate, Text, codes,
  rune_len, byte_len, arith,
}
use agentic_mudahurus.Orders.Invoice.{cut, truncate, pad_right}

length-replicate : (n c : ℕ) → length (replicate n c) ≡ n
length-replicate zero c = refl
length-replicate (suc n) c = ap suc (length-replicate n c)

rune_len_pos : (c : ℕ) → 1 ≤ rune_len c
unfolding rune_len
rune_len_pos c = ground arith

length-byte_len : (s : Text) → length s ≤ byte_len s
unfolding byte_len
length-byte_len [] = omega arith
length-byte_len (c ∷ s) = omega (arith, length-byte_len s, rune_len_pos c)

length-cut : (n : ℕ) (s : Text) → length (cut n s) ≤ n
unfolding cut
length-cut n [] = omega arith
length-cut n (c ∷ s) =
    let rest = length-cut (n - rune_len c) s in
    let some_bytes = rune_len_pos c in let filled = length-replicate n 0xfffd in ground arith

length-truncate : (s : Text) (n : ℕ) → 1 ≤ n → length (truncate s n) ≤ n
unfolding truncate
length-truncate s n h =
    let short = length-byte_len s in
    let cut_short = length-cut (n - 1) s in
    let with_mark = length-append (cut (n - 1) s) (codes "…") in ground arith

-- Whatever the text, a column of at least one character that holds it, truncated to the column's width
-- and filled up, is exactly that wide.
pub column_width : (s : Text) (n : ℕ) → 1 ≤ n → length (pad_right n (truncate s n)) ≡ n
unfolding pad_right
column_width s n h = omega (
  arith,
  length-append (truncate s n) (replicate (n - length (truncate s n)) b' '),
  length-replicate (n - length (truncate s n)) b' ',
  length-truncate s n h,
)
