-- ===== src/Ledger/Logic/Balance.antt =====
-- The balance check of a posting: the sums of debits and credits on int64 against the true sums.
use pfm_go.Common.{
  ◌+◌, ◌%◌, ◌^◌, true, false, ◌≡◌, ◌↔◌, List, [], ◌∷◌, ◌==◌, string_eq, ==_iff, arith,
  if◌then◌else◌,
}
use pfm_go.Common.Int.{ℤ, pos, ◌+ℤ◌, eqb_ℤ_iff}
use pfm_go.Common.Int64.{
  IsInt64, add64, bits, bits-lt, bits_zero, bits-+ℤ, bits-add64, add64-IsInt64, eq_of_bits,
}
use pfm_go.Types.{EntryType, entry_type_debit, entry_type_credit}
use pfm_go.Ledger.{EntryInput}
use pfm_go.Ledger.Logic.{tally, sum_entries, is_unbalanced}

-- The sum of the amounts of one type, as an integer.
abbrev pub total : EntryType → List EntryInput → ℤ
total t [] = pos 0
total t (e ∷ es) = if e.entry_type == t then e.amount +ℤ total t es else total t es

pub debit_not_credit :
    (t : EntryType) → (t == entry_type_debit) ≡ true → (t == entry_type_credit) ≡ false
debit_not_credit t h = rw ((==_iff t entry_type_debit).0 h)

abbrev AreInt64 : ℤ × ℤ → Type 0
AreInt64 (d, c) = IsInt64 d × IsInt64 c

tally-AreInt64 : (e : EntryInput) (sums : ℤ × ℤ) → AreInt64 sums → AreInt64 (tally e sums)
unfolding tally
tally-AreInt64 e (d, c) h = ground (arith, add64-IsInt64 d e.amount, add64-IsInt64 c e.amount)

sum_entries-AreInt64 :
    (es : List EntryInput) (sums : ℤ × ℤ) → AreInt64 sums → AreInt64 (sum_entries es sums)
unfolding sum_entries
sum_entries-AreInt64 [] sums h = h
sum_entries-AreInt64 (e ∷ es) sums h =
    sum_entries-AreInt64 es (tally e sums) (tally-AreInt64 e sums h)

-- The sums of the loop have the bits of the true sums.
debit_sum_bits :
    (es : List EntryInput) (d c : ℤ)
    → bits (sum_entries es (d, c)).0 ≡ (bits d + bits (total entry_type_debit es)) % 2 ^ 64
unfolding sum_entries
debit_sum_bits [] d c = omega (arith, bits-lt d, bits_zero)
debit_sum_bits (e ∷ es) d c =
    let rest = total entry_type_debit es in
    ground (
      arith,
      debit_sum_bits es (add64 d e.amount) c,
      debit_sum_bits es d (add64 c e.amount),
      debit_sum_bits es d c,
      bits-add64 d e.amount,
      bits-+ℤ e.amount rest,
    )

credit_sum_bits :
    (es : List EntryInput) (d c : ℤ)
    → bits (sum_entries es (d, c)).1 ≡ (bits c + bits (total entry_type_credit es)) % 2 ^ 64
unfolding sum_entries
credit_sum_bits [] d c = omega (arith, bits-lt c, bits_zero)
credit_sum_bits (e ∷ es) d c =
    let rest = total entry_type_credit es in
    ground (
      arith,
      credit_sum_bits es (add64 d e.amount) c,
      credit_sum_bits es d (add64 c e.amount),
      credit_sum_bits es d c,
      bits-add64 c e.amount,
      bits-+ℤ e.amount rest,
      debit_not_credit e.entry_type,
    )

-- The check lets a posting pass exactly when the true sums of debits and credits agree
-- modulo 2 ^ 64.
pub is_unbalanced_iff :
    (es : List EntryInput)
    → (is_unbalanced es ≡ false)
      ↔ (bits (total entry_type_debit es) ≡ bits (total entry_type_credit es))
unfolding is_unbalanced
is_unbalanced_iff es =
    let (d, c) = sum_entries es (pos 0, pos 0) in
    let (hd, hc) = sum_entries-AreInt64 es (pos 0, pos 0) (omega arith) in
    let debits_lt = bits-lt (total entry_type_debit es) in
    let credits_lt = bits-lt (total entry_type_credit es) in
    let debit_bits = debit_sum_bits es (pos 0) (pos 0) in
    let credit_bits = credit_sum_bits es (pos 0) (pos 0) in
    ground (arith, eqb_ℤ_iff d c, eq_of_bits d c hd hc, bits_zero)

-- If the true sums of debits and credits are int64 values, the check lets a posting pass exactly
-- when they are equal.
is_unbalanced_exact :
    (es : List EntryInput)
    → IsInt64 (total entry_type_debit es)
    → IsInt64 (total entry_type_credit es)
    → (is_unbalanced es ≡ false) ↔ (total entry_type_debit es ≡ total entry_type_credit es)
is_unbalanced_exact es hd hc = ground (
  arith,
  is_unbalanced_iff es,
  eq_of_bits (total entry_type_debit es) (total entry_type_credit es) hd hc,
)
