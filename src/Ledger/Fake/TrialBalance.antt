-- ===== src/Ledger/Fake/TrialBalance.antt =====
-- The trial balance: over all accounts, the balances that the storage keeps add up to zero.
use pfm_go.Common.{ℕ, ◌+◌, ◌-◌, ◌%◌, ◌^◌, ◌<◌, ◌≡◌, ap, ◌∙◌, inl, inr, List, [], ◌∷◌, arith, nat_eq}
use pfm_go.Common.Int.{ℤ, pos}
use pfm_go.Common.Int64.{
  add64, sub64, bits, bits-lt, bits_zero, bits-+ℤ, bits--ℤ, bits-add64, bits-sub64,
}
use pfm_go.Types.{Uuid, entry_type_debit, entry_type_credit}
use pfm_go.GoMap.{Map, lookup, insert}
use pfm_go.Ledger.{EntryInput, PostTransactionInput}
use pfm_go.Ledger.Logic.Balance.{total, debit_not_credit, is_unbalanced_iff}
use pfm_go.Ledger.Fake.{
  FakeLedgerRepository, balance_of, update_balance, store_entry, store_entries, post_transaction,
  new_transaction, store_transaction,
}
use pfm_go.Ledger.Fake.Books.{effect, post_transaction-cases}

-- The sum of all balances, on 64 bits.
abbrev pub trial_balance : Map Uuid ℤ → ℕ
trial_balance [] = 0
trial_balance ((_, b) ∷ m) = (bits b + trial_balance m) % 2 ^ 64

trial_balance-lt : (m : Map Uuid ℤ) → trial_balance m < 2 ^ 64
trial_balance-lt [] = omega arith
trial_balance-lt ((k, b) ∷ m) = omega arith

trial_balance-insert :
    (k : Uuid) (v : ℤ) (m : Map Uuid ℤ)
    → trial_balance (insert k v m)
      ≡ (trial_balance m + bits v + 2 ^ 64 - bits (balance_of k m)) % 2 ^ 64
unfolding balance_of lookup insert
trial_balance-insert k v [] = omega (arith, bits-lt v, bits_zero)
trial_balance-insert k v ((j, w) ∷ m) = ground (
  arith,
  trial_balance-insert k v m,
  bits-lt w,
  bits-lt v,
  trial_balance-lt m,
  bits-lt (balance_of k m),
)

-- Every entry moves the trial balance by what it adds to its account.
trial_balance-update :
    (e : EntryInput) (m : Map Uuid ℤ)
    → trial_balance (update_balance e m)
      ≡ (trial_balance m + bits (effect e.entry_type e.amount)) % 2 ^ 64
unfolding update_balance effect
trial_balance-update e m =
    let old = balance_of e.account_id m in
    ground (
      arith,
      trial_balance-insert e.account_id (add64 old e.amount) m,
      trial_balance-insert e.account_id (sub64 old e.amount) m,
      bits-add64 old e.amount,
      bits-sub64 old e.amount,
      bits--ℤ (pos 0) e.amount,
      bits_zero,
      bits-lt old,
      bits-lt e.amount,
      trial_balance-lt m,
    )

-- What the entries of a posting add, all together.
moved : List EntryInput → ℕ
moved [] = 0
moved (e ∷ es) = (bits (effect e.entry_type e.amount) + moved es) % 2 ^ 64

moved_lem :
    (es : List EntryInput)
    → moved es
      ≡ (bits (total entry_type_credit es) + 2 ^ 64 - bits (total entry_type_debit es)) % 2 ^ 64
unfolding moved effect
moved_lem [] = omega (arith, bits_zero)
moved_lem (e ∷ es) =
    let credits = total entry_type_credit es in
    let debits = total entry_type_debit es in
    ground (
      arith,
      moved_lem es,
      bits-+ℤ e.amount credits,
      bits-+ℤ e.amount debits,
      bits--ℤ (pos 0) e.amount,
      bits_zero,
      bits-lt e.amount,
      bits-lt credits,
      bits-lt debits,
      debit_not_credit e.entry_type,
    )

trial_balance-store_entries :
    (uuid_new : ℕ → Uuid) (id : Uuid) (es : List EntryInput) (f : FakeLedgerRepository)
    → trial_balance (store_entries uuid_new id es f).1.balances
      ≡ (trial_balance f.balances + moved es) % 2 ^ 64
unfolding store_entries store_entry moved
trial_balance-store_entries uuid_new id [] f = omega (arith, trial_balance-lt f.balances)
trial_balance-store_entries uuid_new id (e ∷ es) f = omega (
  arith,
  trial_balance-store_entries uuid_new id es (store_entry uuid_new id e f),
  trial_balance-update e f.balances,
)

-- Posting to the storage, whether it is refused or not, never changes the sum of all balances
-- modulo 2 ^ 64.
pub post_transaction-trial_balance :
    (uuid_new : ℕ → Uuid) (household_id : Uuid) (input : PostTransactionInput) (caller_id : Uuid)
    (f : FakeLedgerRepository)
    → trial_balance (post_transaction uuid_new household_id input caller_id f).1.balances
      ≡ trial_balance f.balances
unfolding store_transaction
post_transaction-trial_balance uuid_new household_id input caller_id f =
    elim (post_transaction-cases uuid_new household_id input caller_id f) [
      | inl (_, same) ↦ ap (λ (g : FakeLedgerRepository). trial_balance g.balances) same
      | inr (_, balanced, e) ↦
          let t = new_transaction uuid_new household_id input caller_id f.drawn in
          let stored = store_transaction uuid_new t f in
          ap (λ r. trial_balance r.1.balances) e
          ∙ omega (
            arith,
            trial_balance-store_entries uuid_new t.id input.entries stored,
            moved_lem input.entries,
            (is_unbalanced_iff input.entries).0 balanced,
            bits-lt (total entry_type_credit input.entries),
            trial_balance-lt f.balances,
          )
    ]
