-- ===== src/Tests/Amounts.antt =====
-- internal/platform/money at concrete inputs, those of money_test.go among them.
use pfm_go.Common.{suc, ◌-◌, ◌/◌, ◌%◌, ◌≡◌, refl, ◌⊎◌, List, [], ◌∷◌, length, replicate, arith}
use pfm_go.Common.Int.{ℤ, pos, negsuc, sub_ℕ, ◌+ℤ◌, ◌-ℤ◌}
use pfm_go.Common.Int64.{IsInt64, min_int64, add64}
use pfm_go.Message.{sentinel, Sentinel}
use pfm_go.Effect.{ok, err}
use pfm_go.Money.{add, sub, split}
use pfm_go.Money.Arithmetic.{add_exact, sub_exact, sub_of_least}
use pfm_go.Money.Shares.{shares, sum, split_is_exact, split_of_negative}

-- The example of the comment on `Split`.
three_shares : split (pos 10000) (pos 3) ≡ ok (pos 3334 ∷ pos 3333 ∷ pos 3333 ∷ [])
unfolding split add64 ◌+ℤ◌
three_shares = refl

-- A negative amount loses a unit.
lost_unit : split (negsuc 99) (pos 3) ≡ ok (negsuc 32 ∷ negsuc 32 ∷ negsuc 32 ∷ [])
unfolding split
lost_unit = refl

add_exact_example :
    (IsInt64 (pos 2 +ℤ pos 3) × (add (pos 2) (pos 3) ≡ ok (pos 2 +ℤ pos 3)))
    ⊎ ((¬ IsInt64 (pos 2 +ℤ pos 3))
        × (add (pos 2) (pos 3) ≡ err (sentinel Sentinel.money_overflow)))
add_exact_example = add_exact (pos 2) (pos 3) (ground arith) (ground arith)

sub_exact_example :
    (IsInt64 (pos 2 -ℤ pos 3) × (sub (pos 2) (pos 3) ≡ ok (pos 2 -ℤ pos 3)))
    ⊎ ((¬ IsInt64 (pos 2 -ℤ pos 3))
        × (sub (pos 2) (pos 3) ≡ err (sentinel Sentinel.money_overflow)))
sub_exact_example = sub_exact (pos 2) (pos 3) (ground arith) (ground arith) (λ e. cc)

sub_of_least_example :
    (IsInt64 (negsuc 0 -ℤ min_int64)
      × (sub (negsuc 0) min_int64 ≡ err (sentinel Sentinel.money_overflow)))
    ⊎ ((¬ IsInt64 (negsuc 0 -ℤ min_int64))
        × (sub (negsuc 0) min_int64 ≡ ok (negsuc 0 +ℤ min_int64)))
sub_of_least_example = sub_of_least (negsuc 0) (ground arith)

split_is_exact_example :
    (parts : List ℤ) × (split (pos 10000) (pos 3) ≡ ok parts)
    × (parts ≡ shares (10000 % 3) (3 - 10000 % 3) (10000 / 3))
    × (length parts ≡ 3)
    × (sum parts ≡ pos 10000)
split_is_exact_example = split_is_exact 10000 3 (ground arith) (ground arith)

split_of_negative_example :
    (parts : List ℤ) × (split (negsuc 99) (pos 3) ≡ ok parts)
    × (parts ≡ replicate 3 (sub_ℕ 0 (suc 99 / 3)))
    × (sum parts ≡ sub_ℕ 0 (suc 99 - suc 99 % 3))
split_of_negative_example = split_of_negative 99 3 (ground arith)
