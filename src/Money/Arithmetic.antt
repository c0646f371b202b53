-- ===== src/Money/Arithmetic.antt =====
-- internal/platform/money/arithmetic.go: sums and differences are exact or refused.
use pfm_go.Common.{◌-◌, ◌^◌, subst, ◌≡◌, ◌≢◌, ap, ◌⊎◌, inl, inr, arith}
use pfm_go.Common.Int.{ℤ, pos, ◌+ℤ◌, ◌-ℤ◌, negsuc}
use pfm_go.Common.Int64.{IsInt64, max_int64, min_int64, sub64, neg64, add64_exact, wrap_of_IsInt64}
use pfm_go.Message.{sentinel, Sentinel}
use pfm_go.Effect.{ok, err}
use pfm_go.Money.{add, sub}

sub64_exact : (a b : ℤ) → IsInt64 (a -ℤ b) → sub64 a b ≡ a -ℤ b
unfolding sub64
sub64_exact a b = wrap_of_IsInt64 (a -ℤ b)

fits-cases : (a : ℤ) → IsInt64 a ⊎ (¬ IsInt64 a)
fits-cases a = ground arith

-- For int64 values, `Add` returns the exact sum if it is an int64, and else the overflow error.
pub add_exact :
    (a b : ℤ)
    → IsInt64 a
    → IsInt64 b
    → (IsInt64 (a +ℤ b) × (add a b ≡ ok (a +ℤ b)))
      ⊎ ((¬ IsInt64 (a +ℤ b)) × (add a b ≡ err (sentinel Sentinel.money_overflow)))
unfolding add ◌+ℤ◌ ◌-ℤ◌
add_exact (pos a) (pos b) h k =
    let e = sub64_exact max_int64 (pos b) (ground arith) in
    elim (fits-cases (pos a +ℤ pos b)) [
      | inl fits ↦ let exact = add64_exact (pos a) (pos b) fits in inl (fits, ground arith)
      | inr over ↦ inr (over, ground arith)
    ]
add_exact (pos a) (negsuc b) h k =
    let e = sub64_exact min_int64 (negsuc b) (ground arith) in
    elim (fits-cases (pos a +ℤ negsuc b)) [
      | inl fits ↦ let exact = add64_exact (pos a) (negsuc b) fits in inl (fits, ground arith)
      | inr over ↦ inr (over, ground arith)
    ]
add_exact (negsuc a) (pos b) h k =
    let e = sub64_exact max_int64 (pos b) (ground arith) in
    elim (fits-cases (negsuc a +ℤ pos b)) [
      | inl fits ↦ let exact = add64_exact (negsuc a) (pos b) fits in inl (fits, ground arith)
      | inr over ↦ inr (over, ground arith)
    ]
add_exact (negsuc a) (negsuc b) h k =
    let e = sub64_exact min_int64 (negsuc b) (ground arith) in
    elim (fits-cases (negsuc a +ℤ negsuc b)) [
      | inl fits ↦ let exact = add64_exact (negsuc a) (negsuc b) fits in inl (fits, ground arith)
      | inr over ↦ inr (over, ground arith)
    ]

neg64_exact : (b : ℤ) → IsInt64 b → b ≢ min_int64 → neg64 b ≡ pos 0 -ℤ b
unfolding neg64 ◌-ℤ◌
neg64_exact (pos b) h other = wrap_of_IsInt64 (pos 0 -ℤ pos b) (ground arith)
neg64_exact (negsuc b) h other =
    wrap_of_IsInt64 (pos 0 -ℤ negsuc b)
      (let z : b ≢ 2 ^ 63 - 1 = λ e. other (ap negsuc e) in ground arith)

plus_negated : (a b : ℤ) → a +ℤ (pos 0 -ℤ b) ≡ a -ℤ b
unfolding ◌+ℤ◌ ◌-ℤ◌
plus_negated a b = ground arith

negated_fits : (b : ℤ) → IsInt64 b → b ≢ min_int64 → IsInt64 (pos 0 -ℤ b)
unfolding ◌-ℤ◌
negated_fits (pos b) h other = ground arith
negated_fits (negsuc b) h other = let z : b ≢ 2 ^ 63 - 1 = λ e. other (ap negsuc e) in ground arith

-- For int64 values of which the second is not the least one, `Sub` returns the exact difference
-- if it is an int64, and else the overflow error.
pub sub_exact :
    (a b : ℤ)
    → IsInt64 a
    → IsInt64 b
    → b ≢ min_int64
    → (IsInt64 (a -ℤ b) × (sub a b ≡ ok (a -ℤ b)))
      ⊎ ((¬ IsInt64 (a -ℤ b)) × (sub a b ≡ err (sentinel Sentinel.money_overflow)))
unfolding sub
sub_exact a b h k other =
    let e = neg64_exact b k other in
    let outcome = add_exact a (pos 0 -ℤ b) h (negated_fits b k other) in
    subst
      (λ c.
        (IsInt64 c × (add a (neg64 b) ≡ ok c))
        ⊎ ((¬ IsInt64 c) × (add a (neg64 b) ≡ err (sentinel Sentinel.money_overflow))))
      (plus_negated a b) (rw e outcome)

-- With the least int64 as the second value `Sub` answers the wrong way round for every int64: the
-- overflow error if the difference is an int64, and the sum of the two if it is not.
pub sub_of_least :
    (a : ℤ)
    → IsInt64 a
    → (IsInt64 (a -ℤ min_int64) × (sub a min_int64 ≡ err (sentinel Sentinel.money_overflow)))
      ⊎ ((¬ IsInt64 (a -ℤ min_int64)) × (sub a min_int64 ≡ ok (a +ℤ min_int64)))
unfolding sub add neg64 ◌-ℤ◌ ◌+ℤ◌
sub_of_least (pos a) h =
    let e = sub64_exact min_int64 min_int64 (ground arith) in
    let exact = add64_exact (pos a) min_int64 (ground arith) in inr (ground arith, ground arith)
sub_of_least (negsuc a) h =
    let e = sub64_exact min_int64 min_int64 (ground arith) in inl (ground arith, ground arith)
