-- ===== src/Prelude/Ints.antt =====
-- Integers over the native numbers, as differences of two, with JavaScript's remainder made
-- non-negative.
use Prim.Native.Nat.{ℕ, suc, ◌+◌, ◌-◌, ◌*◌, ◌/◌, ◌%◌}
use utm_curs_i_orar.Prelude.Tests.{leb, if◌then◌else◌}

pub data ℤ : Type 0 where
  pos negsuc : ℕ → ℤ

-- The difference of two numbers.
infix 6 ◌⊖◌
abbrev pub ◌⊖◌ : ℕ → ℕ → ℤ
m ⊖ n = if leb n m then pos (m - n) else negsuc (n - m - 1)

infixl 6 ◌+ℤ◌
-- An integer and a number.
abbrev pub ◌+ℤ◌ : ℤ → ℕ → ℤ
pos m +ℤ n = pos (m + n)
negsuc m +ℤ n = n ⊖ suc m

-- `((value % by) + by) % by`
abbrev pub modulo : ℤ → ℕ → ℕ
modulo (pos m) k = m % k
modulo (negsuc m) k = (k - suc m % k) % k

-- `Math.round(value / by)`, an odd divisor, so that no quotient ends in a half.
abbrev pub rounded : ℤ → ℕ → ℤ
rounded (pos m) k = pos ((2 * m + k) / (2 * k))
rounded (negsuc m) k = 0 ⊖ ((2 * suc m + k - 1) / (2 * k))
