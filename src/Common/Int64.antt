-- ===== src/Common/Int64.antt =====
-- Go's `int64`: integers in two's complement, which wrap around.
use pfm_go.Common.{refl, ℕ, ◌+◌, ◌-◌, ◌%◌, ◌^◌, ◌<◌, ◌≡◌, ◌∙◌, arith, ltb, if◌then◌else◌}
use pfm_go.Common.Int.{ℤ, pos, negsuc, ◌+ℤ◌, ◌-ℤ◌, ◌≤ℤ◌}

abbrev pub max_int64 : ℤ
max_int64 = pos (2 ^ 63 - 1)

abbrev pub min_int64 : ℤ
min_int64 = negsuc (2 ^ 63 - 1)

-- The values that an `int64` can hold.
abbrev pub IsInt64 : ℤ → Type 0
IsInt64 a = (min_int64 ≤ℤ a) × (a ≤ℤ max_int64)

-- The 64 bits of an integer, and the integer that 64 bits stand for.
unfoldable pub bits : ℤ → ℕ
bits (pos n) = n % 2 ^ 64
bits (negsuc n) = 2 ^ 64 - 1 - n % 2 ^ 64

pub of_bits : ℕ → ℤ
of_bits b = if ltb b (2 ^ 63) then pos b else negsuc (2 ^ 64 - 1 - b)

-- The value that is left of an integer in an `int64`.
unfoldable pub wrap : ℤ → ℤ
unfolding bits of_bits
wrap a = of_bits (bits a)

-- `a + b`, `a - b`, `-a` and `a * b`.
unfoldable pub add64 : ℤ → ℤ → ℤ
unfolding wrap
add64 a b = wrap (a +ℤ b)

unfoldable pub sub64 : ℤ → ℤ → ℤ
unfolding wrap
sub64 a b = wrap (a -ℤ b)

unfoldable pub neg64 : ℤ → ℤ
unfolding wrap
neg64 a = wrap (pos 0 -ℤ a)

-- What an `int64` holds is unchanged, and what does not fit becomes something that fits.
pub wrap-IsInt64 : (a : ℤ) → IsInt64 (wrap a)
unfolding wrap
wrap-IsInt64 (pos n) = ground arith
wrap-IsInt64 (negsuc n) = ground arith

pub wrap_of_IsInt64 : (a : ℤ) → IsInt64 a → wrap a ≡ a
unfolding wrap
wrap_of_IsInt64 (pos n) h = ground arith
wrap_of_IsInt64 (negsuc n) h = ground arith

pub bits_zero : bits (pos 0) ≡ 0
unfolding bits
bits_zero = refl

pub bits_one : bits (pos 1) ≡ 1
unfolding bits
bits_one = refl

pub bits-lt : (a : ℤ) → bits a < 2 ^ 64
unfolding bits
bits-lt (pos n) = omega arith
bits-lt (negsuc n) = omega arith

pub bits-wrap : (a : ℤ) → bits (wrap a) ≡ bits a
unfolding wrap
bits-wrap (pos n) = ground arith
bits-wrap (negsuc n) = ground arith

-- On the bits addition is addition modulo 2 ^ 64.
pub bits-+ℤ : (a b : ℤ) → bits (a +ℤ b) ≡ (bits a + bits b) % 2 ^ 64
unfolding bits ◌+ℤ◌
bits-+ℤ (pos a) (pos b) = ground arith
bits-+ℤ (pos a) (negsuc b) = ground arith
bits-+ℤ (negsuc a) (pos b) = ground arith
bits-+ℤ (negsuc a) (negsuc b) = ground arith

pub bits--ℤ : (a b : ℤ) → bits (a -ℤ b) ≡ (bits a + 2 ^ 64 - bits b) % 2 ^ 64
unfolding bits ◌-ℤ◌
bits--ℤ (pos a) (pos b) = ground arith
bits--ℤ (pos a) (negsuc b) = ground arith
bits--ℤ (negsuc a) (pos b) = ground arith
bits--ℤ (negsuc a) (negsuc b) = ground arith

pub eq_of_bits : (a b : ℤ) → IsInt64 a → IsInt64 b → bits a ≡ bits b → a ≡ b
unfolding bits
eq_of_bits (pos a) (pos b) p q e = ground arith
eq_of_bits (pos a) (negsuc b) p q e = ground arith
eq_of_bits (negsuc a) (pos b) p q e = ground arith
eq_of_bits (negsuc a) (negsuc b) p q e = ground arith

pub bits-add64 : (a b : ℤ) → bits (add64 a b) ≡ (bits a + bits b) % 2 ^ 64
unfolding add64
bits-add64 a b = bits-wrap (a +ℤ b) ∙ bits-+ℤ a b

pub bits-sub64 : (a b : ℤ) → bits (sub64 a b) ≡ (bits a + 2 ^ 64 - bits b) % 2 ^ 64
unfolding sub64
bits-sub64 a b = bits-wrap (a -ℤ b) ∙ bits--ℤ a b

pub add64-IsInt64 : (a b : ℤ) → IsInt64 (add64 a b)
unfolding add64
add64-IsInt64 a b = wrap-IsInt64 (a +ℤ b)

pub sub64-IsInt64 : (a b : ℤ) → IsInt64 (sub64 a b)
unfolding sub64
sub64-IsInt64 a b = wrap-IsInt64 (a -ℤ b)

-- A sum that fits is exact.
pub add64_exact : (a b : ℤ) → IsInt64 (a +ℤ b) → add64 a b ≡ a +ℤ b
unfolding add64
add64_exact a b = wrap_of_IsInt64 (a +ℤ b)
