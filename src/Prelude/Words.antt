-- ===== src/Prelude/Words.antt =====
-- Go's fixed-width signed integers: a value is an integer, and an operation wraps to its width.
use Prim.Native.Nat.{◌+◌, ◌-◌, ◌%◌, ◌≤◌}
use mathlib.Core.Path.{◌≡◌, refl}
use native.Mathlib.Omega.{arith}
use agentrax.Prelude.Int.{ℤ, pos, negsuc, pos_part, neg_part, sub_ℕ, ◌+ℤ◌, ◌-ℤ◌}

-- An int32 holds the integers from -2^31 up to 2^31 - 1, an int64 those from -2^63 up to 2^63 - 1.
abbrev pub max_int32 : ℤ
max_int32 = pos 2147483647

abbrev pub max_int64 : ℤ
max_int64 = pos 9223372036854775807

abbrev pub InInt32 : ℤ → Type 0
InInt32 a = (pos_part a ≤ 2147483647) × (neg_part a ≤ 2147483648)

abbrev pub InInt64 : ℤ → Type 0
InInt64 a = (pos_part a ≤ 9223372036854775807) × (neg_part a ≤ 9223372036854775808)

-- The two's complement value of `a` at 32 bits: (a + 2^31) mod 2^32 - 2^31.
unfoldable pub wrap32 : ℤ → ℤ
wrap32 a =
    sub_ℕ ((pos_part a + 2147483648 + (4294967296 - neg_part a % 4294967296)) % 4294967296)
      2147483648

unfoldable pub wrap64 : ℤ → ℤ
wrap64 a =
    sub_ℕ
      ((pos_part a
          + 9223372036854775808
          + (18446744073709551616 - neg_part a % 18446744073709551616))
        % 18446744073709551616)
      9223372036854775808

pub wrap32-InInt32 : (a : ℤ) → InInt32 (wrap32 a)
unfolding wrap32
wrap32-InInt32 a = ground arith

-- A sum that fits is not changed.
pub wrap32_id : (a : ℤ) → InInt32 a → wrap32 a ≡ a
unfolding wrap32
wrap32_id (pos n) h = ground arith
wrap32_id (negsuc n) h = ground arith

pub wrap64_id : (a : ℤ) → InInt64 a → wrap64 a ≡ a
unfolding wrap64
wrap64_id (pos n) h = ground arith
wrap64_id (negsuc n) h = ground arith

wrap32_overflow : wrap32 (pos 2147483648) ≡ negsuc 2147483647
unfolding wrap32
wrap32_overflow = refl

-- Sums and differences at the two widths.
abbrev pub add32 : ℤ → ℤ → ℤ
add32 a b = wrap32 (a +ℤ b)

abbrev pub sub32 : ℤ → ℤ → ℤ
sub32 a b = wrap32 (a -ℤ b)

abbrev pub add64 : ℤ → ℤ → ℤ
add64 a b = wrap64 (a +ℤ b)
