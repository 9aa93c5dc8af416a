-- ===== src/Base/Int.antt =====
-- The signed integers of C: `int`, `ssize_t` and the conversions between them and `size_t`.
use Prim.Native.Nat.{ℕ, zero, suc, ◌+◌, ◌-◌, ◌/◌, ◌%◌, ◌^◌}
use mathlib.Core.Bool.{Bool, true, false}
use gfhttpd.Base.Tests.{ltb, ◌==◌, if◌then◌else◌}

-- `negsuc n` is -(n + 1).
pub data ℤ : Type 0 where
  pos : ℕ → ℤ
  negsuc : ℕ → ℤ

-- `n < 0`
abbrev pub is_negative : ℤ → Bool
is_negative (pos n) = false
is_negative (negsuc n) = true

abbrev pub is_zero : ℤ → Bool
is_zero (pos n) = n == 0
is_zero (negsuc n) = false

-- The conversion to a 64-bit unsigned type.
abbrev pub to_size : ℤ → ℕ
to_size (pos n) = n % 2 ^ 64
to_size (negsuc n) = (2 ^ 64 - 1) - n % 2 ^ 64

-- The `int` with these 32 bits.
abbrev signed : ℕ → ℤ
signed n = if ltb n (2 ^ 31) then pos n else negsuc ((2 ^ 32 - 1) - n)

-- The conversion to `int`, 32 bits.
abbrev pub to_int : ℤ → ℤ
to_int (pos n) = signed (n % 2 ^ 32)
to_int (negsuc n) = signed ((2 ^ 32 - 1) - n % 2 ^ 32)

-- The difference of two `size_t`.
abbrev pub size_sub : ℕ → ℕ → ℕ
size_sub m n = (m + (2 ^ 64 - n % 2 ^ 64)) % 2 ^ 64

-- The conversion to a 32-bit unsigned type.
abbrev pub to_unsigned : ℤ → ℕ
to_unsigned (pos n) = n % 2 ^ 32
to_unsigned (negsuc n) = (2 ^ 32 - 1) - n % 2 ^ 32

-- `-n`
abbrev negated : ℕ → ℤ
negated zero = pos 0
negated (suc n) = negsuc n

-- C's `/` and `%` by a positive number, which round towards 0.
abbrev pub quotient : ℤ → ℕ → ℤ
quotient (pos n) d = pos (n / d)
quotient (negsuc n) d = negated ((n + 1) / d)

abbrev pub remainder : ℤ → ℕ → ℤ
remainder (pos n) d = pos (n % d)
remainder (negsuc n) d = negated ((n + 1) % d)

-- The difference of two naturals.
abbrev pub minus : ℕ → ℕ → ℤ
minus m n = if ltb m n then negsuc ((n - m) - 1) else pos (m - n)

-- `+` and `<` of C's integers, where they do not overflow.
abbrev pub add : ℤ → ℤ → ℤ
add (pos m) (pos n) = pos (m + n)
add (pos m) (negsuc n) = minus m (suc n)
add (negsuc m) (pos n) = minus n (suc m)
add (negsuc m) (negsuc n) = negsuc (suc (m + n))

abbrev pub less : ℤ → ℤ → Bool
less (pos m) (pos n) = ltb m n
less (pos m) (negsuc n) = false
less (negsuc m) (pos n) = true
less (negsuc m) (negsuc n) = ltb n m

abbrev pub is_int : ℤ → ℕ → Bool
is_int (pos m) n = m == n
is_int (negsuc m) n = false
