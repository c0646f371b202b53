-- ===== src/Money/Shares.antt =====
-- internal/platform/money/split.go: the shares that `Split` returns.
use pfm_go.Common.{
  ℕ, zero, suc, ◌+◌, ◌*◌, ◌/◌, ◌%◌, ◌-◌, ◌<◌, ◌^◌, ◌≡◌, refl, sym, ap, subst, ◌∙◌, List, [], ◌∷◌,
  length, replicate, length-replicate, arith,
}
use pfm_go.Common.Int.{ℤ, pos, negsuc, sub_ℕ, ◌+ℤ◌}
use pfm_go.Common.Int64.{add64, add64_exact}
use pfm_go.Effect.{ok}
use pfm_go.Money.{bump, rounds, rem, quot, split}

-- The shares of a split into `k` larger and then `r` smaller ones.
abbrev pub shares : ℕ → ℕ → ℕ → List ℤ
shares zero r base = replicate r (pos base)
shares (suc k) r base = pos (base + 1) ∷ shares k r base

-- The sum of a list, without bound.
abbrev pub sum : List ℤ → ℤ
sum [] = pos 0
sum (p ∷ ps) = p +ℤ sum ps

plus_pos : (a b c : ℕ) → a + b ≡ c → pos a +ℤ pos b ≡ pos c
unfolding ◌+ℤ◌
plus_pos a b c h = ground arith

bump-replicate :
    (k r base : ℕ)
    → (0 < k → base + 1 < 2 ^ 63)
    → bump k (replicate (k + r) (pos base)) ≡ ok (shares k r base)
unfolding bump
bump-replicate zero r base fits = let e : 0 + r ≡ r = omega arith in rw e
bump-replicate (suc k) r base fits =
    let e : suc k + r ≡ suc (k + r) = omega arith in
    let one_more = fits (omega arith) in
    let exact : add64 (pos base) (pos 1) ≡ pos (base + 1) =
      add64_exact (pos base) (pos 1) (let p = plus_pos base 1 (base + 1) refl in ground arith)
      ∙ plus_pos base 1 (base + 1) refl in
    rw (e, bump-replicate k r base (λ _. one_more), exact)

sum-shares : (k r base : ℕ) → sum (shares k r base) ≡ pos (k * (base + 1) + r * base)
sum-shares zero zero base = ap pos (omega arith)
sum-shares zero (suc r) base =
    rw (sum-shares zero r base)
      (plus_pos base (0 * (base + 1) + r * base) (0 * (base + 1) + suc r * base) (omega arith))
sum-shares (suc k) r base =
    rw (sum-shares k r base) (
      plus_pos (base + 1) (k * (base + 1) + r * base) (suc k * (base + 1) + r * base) (omega arith))

length-shares : (k r base : ℕ) → length (shares k r base) ≡ k + r
length-shares zero r base = length-replicate r (pos base) ∙ omega arith
length-shares (suc k) r base = ap suc (length-shares k r base) ∙ omega arith

sum_of_parts :
    (amount n k r base : ℕ) → n ≡ k + r → n * base + k ≡ amount → k * (base + 1) + r * base ≡ amount
sum_of_parts amount n k r base whole h =
    let h' : (k + r) * base + k ≡ amount = rw (sym whole) h in omega arith

one_more_fits :
    (amount m k base : ℕ)
    → amount < 2 ^ 63
    → suc m * base + k ≡ amount
    → k < suc m
    → 0 < k
    → base + 1 < 2 ^ 63
one_more_fits amount zero k base fits h less some_left = omega arith
one_more_fits amount (suc m) k base fits h less some_left = omega arith

-- `Split` of an amount that is not negative into a positive number of parts returns that many
-- shares, which add up to the amount: the first `amount % n` are `amount / n + 1`, the others
-- `amount / n`.
pub split_is_exact :
    (amount n : ℕ)
    → amount < 2 ^ 63
    → 0 < n
    → (parts : List ℤ) × (split (pos amount) (pos n) ≡ ok parts)
      × (parts ≡ shares (amount % n) (n - amount % n) (amount / n))
      × (length parts ≡ n)
      × (sum parts ≡ pos amount)
unfolding split rem quot rounds
split_is_exact amount zero fits positive = absurd (omega arith)
split_is_exact amount (suc m) fits positive =
    let k = amount % suc m in
    let base = amount / suc m in
    let r = suc m - k in
    let less : k < suc m = omega arith in
    let whole : suc m ≡ k + r = omega arith in
    let divided : suc m * base + k ≡ amount = omega arith in
    let bumped : bump k (replicate (suc m) (pos base)) ≡ ok (shares k r base) =
      subst (λ n. bump k (replicate n (pos base)) ≡ ok (shares k r base)) (sym whole)
        (bump-replicate k r base (one_more_fits amount m k base fits divided less)) in
    (
      shares k r base,
      bumped,
      refl,
      length-shares k r base ∙ omega arith,
      sum-shares k r base ∙ ap pos (sum_of_parts amount (suc m) k r base whole divided),
    )

negated_sum : (a b : ℕ) → sub_ℕ 0 a +ℤ sub_ℕ 0 b ≡ sub_ℕ 0 (a + b)
unfolding ◌+ℤ◌
negated_sum a b = ground arith

sum-replicate : (n b : ℕ) → sum (replicate n (sub_ℕ 0 b)) ≡ sub_ℕ 0 (n * b)
sum-replicate zero b = let e : 0 * b ≡ 0 = omega arith in rw e
sum-replicate (suc n) b =
    let e : b + n * b ≡ suc n * b = omega arith in
    ap (λ z. sub_ℕ 0 b +ℤ z) (sum-replicate n b) ∙ negated_sum b (n * b) ∙ ap (sub_ℕ 0) e

no_rounds : (a : ℕ) → rounds (sub_ℕ 0 a) ≡ 0
unfolding rounds
no_rounds a = ground arith

-- The shares of a negative amount are all the quotient cut towards zero, so that their sum misses
-- the amount by the remainder.
pub split_of_negative :
    (amount n : ℕ)
    → 0 < n
    → (parts : List ℤ) × (split (negsuc amount) (pos n) ≡ ok parts)
      × (parts ≡ replicate n (sub_ℕ 0 (suc amount / n)))
      × (sum parts ≡ sub_ℕ 0 (suc amount - suc amount % n))
unfolding split rem quot bump
split_of_negative amount zero positive = absurd (omega arith)
split_of_negative amount (suc m) positive =
    let base = suc amount / suc m in
    let e : suc m * base ≡ suc amount - suc amount % suc m = omega arith in
    (
      replicate (suc m) (sub_ℕ 0 base),
      rw (no_rounds (suc amount % suc m)),
      refl,
      sum-replicate (suc m) base ∙ ap (sub_ℕ 0) e,
    )
