-- ===== src/Money.antt =====
-- internal/platform/money: arithmetic on amounts in minor units, which are int64 values.
pub mod Arithmetic
pub mod Shares
use pfm_go.Common.{
  ℕ, zero, suc, ◌/◌, ◌%◌, Bool, true, false, String, List, [], ◌∷◌, replicate, ◌==◌, string_eq,
  if◌then◌else◌,
}
use pfm_go.Common.Int.{ℤ, pos, negsuc, sub_ℕ, ltb_ℤ}
use pfm_go.Common.Int64.{max_int64, min_int64, add64, sub64, neg64}
use pfm_go.Message.{sentinel, Sentinel}
use pfm_go.Effect.{Result, ok, err, panic}

-- `Add`; `math.MaxInt64-b` and `math.MinInt64-b` are int64 expressions of the source.
unfoldable pub add : ℤ → ℤ → Result ℤ
add a b =
    if (if ltb_ℤ (pos 0) b then ltb_ℤ (sub64 max_int64 b) a else false)
    then err (sentinel Sentinel.money_overflow)
    else if (if ltb_ℤ b (pos 0) then ltb_ℤ a (sub64 min_int64 b) else false)
    then err (sentinel Sentinel.money_overflow)
    else ok (add64 a b)

unfoldable pub sub : ℤ → ℤ → Result ℤ
unfolding add
sub a b = add a (neg64 b)

-- Go's division by a positive number and its remainder, which cut towards zero.
unfoldable pub quot : ℤ → ℕ → ℤ
quot (pos a) n = pos (a / n)
quot (negsuc a) n = sub_ℕ 0 (suc a / n)

unfoldable pub rem : ℤ → ℕ → ℤ
rem (pos a) n = pos (a % n)
rem (negsuc a) n = sub_ℕ 0 (suc a % n)

-- `parts[i]++` for the first `k` parts; an index out of range panics.
unfoldable pub bump : ℕ → List ℤ → Result (List ℤ)
bump zero parts = ok parts
bump (suc k) [] = panic
bump (suc k) (p ∷ parts) = elim (bump k parts) [
  | ok rest ↦ ok (add64 p (pos 1) ∷ rest)
  | err e ↦ err e
  | panic ↦ panic
]

-- The rounds of `for i := int64(0); i < remainder; i++`, none for a negative remainder.
unfoldable pub rounds : ℤ → ℕ
rounds (pos n) = n
rounds (negsuc n) = 0

-- `Split`: division by zero and a negative length panic.
unfoldable pub split : ℤ → ℤ → Result (List ℤ)
unfolding bump quot rem rounds
split amount (negsuc n) = panic
split amount (pos zero) = panic
split amount (pos (suc n)) =
    bump (rounds (rem amount (suc n))) (replicate (suc n) (quot amount (suc n)))

-- The keys of `supportedCurrencies`.
unfoldable pub is_supported : String → Bool
is_supported code = if code == "USD" then true else if code == "BRL" then true else code == "EUR"

unfoldable pub validate_currency : String → Result (Unit {0})
unfolding is_supported
validate_currency code =
    if is_supported code then ok tt else err (sentinel Sentinel.money_invalid_currency)
