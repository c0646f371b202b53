-- ===== src/Ledger/Fake/Books.antt =====
-- The balances that the storage keeps against the entries that it stores.
use pfm_go.Common.{
  ℕ, ◌+◌, ◌%◌, ◌^◌, true, false, ◌≡◌, ◌≢◌, sym, ap, subst, ◌⊎◌, none, List, [], ◌∷◌, ◌++◌, ◌==◌,
  nat_eq, string_eq, Bool-cases, Option-cases, inl, inr, arith, if◌then◌else◌,
}
use pfm_go.Common.Int.{ℤ, pos, ◌+ℤ◌, ◌-ℤ◌}
use pfm_go.Common.Int64.{
  IsInt64, add64, sub64, bits, bits-lt, bits_zero, bits-+ℤ, bits--ℤ, bits-add64, bits-sub64,
  add64-IsInt64, sub64-IsInt64,
}
use pfm_go.Types.{Uuid, entry_type_debit, entry_type_credit, EntryType}
use pfm_go.Effect.{ok}
use pfm_go.GoMap.{Map, insert}
use pfm_go.GoMap.Laws.{lookup-insert}
use pfm_go.Ledger.{Entry, EntryInput, PostTransactionInput}
use pfm_go.Ledger.Logic.{is_unbalanced}
use pfm_go.Ledger.Fake.{
  FakeLedgerRepository, balance_of, update_balance, new_entry, store_entry, store_entries,
  post_transaction, new_transaction, store_transaction,
}

-- What an entry adds to the balance of its account.
unfoldable pub effect : EntryType → ℤ → ℤ
effect t amount =
    if t == entry_type_credit
    then amount
    else if t == entry_type_debit
    then pos 0 -ℤ amount
    else pos 0

-- Credits less debits of one account, as an integer.
abbrev pub net : Uuid → List Entry → ℤ
net a [] = pos 0
net a (e ∷ es) = if e.account_id == a then effect e.entry_type e.amount +ℤ net a es else net a es

-- The stored balance of an account is an int64 with the bits of its net.
pub record AgreesAt (a : Uuid) (f : FakeLedgerRepository) : Type 0 where
  pub fits : IsInt64 (balance_of a f.balances)
  pub agrees : bits (balance_of a f.balances) ≡ bits (net a f.entries)

bits-net-concat :
    (a : Uuid) (es : List Entry) (e : Entry)
    → bits (net a (es ++ e ∷ [])) ≡ (
        if e.account_id == a
        then (bits (net a es) + bits (effect e.entry_type e.amount)) % 2 ^ 64
        else bits (net a es))
bits-net-concat a [] e = ground (
  arith,
  bits-+ℤ (effect e.entry_type e.amount) (pos 0),
  bits_zero,
  bits-lt (effect e.entry_type e.amount),
)
bits-net-concat a (x ∷ es) e =
    let x_effect = effect x.entry_type x.amount in
    ground (
      arith,
      bits-net-concat a es e,
      bits-+ℤ x_effect (net a es),
      bits-+ℤ x_effect (net a (es ++ e ∷ [])),
    )

balance_of-insert :
    (k a : Uuid) (v : ℤ) (m : Map Uuid ℤ)
    → balance_of a (insert k v m) ≡ (if k == a then v else balance_of a m)
unfolding balance_of
balance_of-insert k a v m = ground (arith, lookup-insert k a v m)

pub update_balance-bits :
    (e : EntryInput) (a : Uuid) (m : Map Uuid ℤ)
    → bits (balance_of a (update_balance e m)) ≡ (
        if e.account_id == a
        then (bits (balance_of a m) + bits (effect e.entry_type e.amount)) % 2 ^ 64
        else bits (balance_of a m))
unfolding update_balance effect
update_balance-bits e a m =
    let old = balance_of e.account_id m in
    ground (
      arith,
      balance_of-insert e.account_id a (add64 old e.amount) m,
      balance_of-insert e.account_id a (sub64 old e.amount) m,
      bits-add64 old e.amount,
      bits-sub64 old e.amount,
      bits--ℤ (pos 0) e.amount,
      bits_zero,
      bits-lt old,
      bits-lt e.amount,
      bits-lt (balance_of a m),
    )

update_balance_fits :
    (e : EntryInput) (a : Uuid) (m : Map Uuid ℤ)
    → IsInt64 (balance_of a m)
    → IsInt64 (balance_of a (update_balance e m))
unfolding update_balance
update_balance_fits e a m h =
    let old = balance_of e.account_id m in
    ground (
      arith,
      balance_of-insert e.account_id a (add64 old e.amount) m,
      balance_of-insert e.account_id a (sub64 old e.amount) m,
      add64-IsInt64 old e.amount,
      sub64-IsInt64 old e.amount,
    )

-- What posting can do: it is refused and changes nothing, or it stores the transaction.
pub post_transaction-cases :
    (uuid_new : ℕ → Uuid) (household_id : Uuid) (input : PostTransactionInput) (caller_id : Uuid)
    (f : FakeLedgerRepository)
    → (((f.err ≢ none) ⊎ (is_unbalanced input.entries ≡ true))
        × ((post_transaction uuid_new household_id input caller_id f).1 ≡ f))
      ⊎ ((f.err ≡ none)
          × (is_unbalanced input.entries ≡ false)
          × (let t = new_transaction uuid_new household_id input caller_id f.drawn in
              let (stored, f') =
                store_entries uuid_new t.id input.entries (store_transaction uuid_new t f) in
              post_transaction uuid_new household_id input caller_id f ≡ (ok (t, stored), f')))
unfolding post_transaction
post_transaction-cases uuid_new household_id input caller_id f = elim (Option-cases f.err) [
  | inr (e, failing) ↦ inl (inl (λ h. cc), rw failing)
  | inl working ↦ elim (Bool-cases (is_unbalanced input.entries)) [
    | inl differ ↦ inl (inr differ, rw (working, differ))
    | inr same ↦ inr (working, same, rw (working, same))
  ]
]

module _ (uuid_new : ℕ → Uuid) (a : Uuid) where
  store_entry-AgreesAt :
      (transaction_id : Uuid) (e : EntryInput) (f : FakeLedgerRepository)
      → AgreesAt a f
      → AgreesAt a (store_entry uuid_new transaction_id e f)
  unfolding store_entry
  store_entry-AgreesAt transaction_id e f h = record {
    fits = update_balance_fits e a f.balances h.fits;
    agrees = ground (
      arith,
      update_balance-bits e a f.balances,
      h.agrees,
      bits-net-concat a f.entries (new_entry uuid_new transaction_id e f.drawn),
    );
  }

  store_entries-AgreesAt :
      (transaction_id : Uuid) (es : List EntryInput) (f : FakeLedgerRepository)
      → AgreesAt a f
      → AgreesAt a (store_entries uuid_new transaction_id es f).1
  unfolding store_entries
  store_entries-AgreesAt transaction_id [] f h = h
  store_entries-AgreesAt transaction_id (e ∷ es) f h =
      store_entries-AgreesAt transaction_id es (store_entry uuid_new transaction_id e f)
        (store_entry-AgreesAt transaction_id e f h)

  -- Posting keeps the balance of every account in step with its entries, whether it is refused
  -- or not.
  pub post_transaction-AgreesAt :
      (household_id : Uuid) (input : PostTransactionInput) (caller_id : Uuid)
      (f : FakeLedgerRepository)
      → AgreesAt a f
      → AgreesAt a (post_transaction uuid_new household_id input caller_id f).1
  unfolding store_transaction
  post_transaction-AgreesAt household_id input caller_id f h =
      elim (post_transaction-cases uuid_new household_id input caller_id f) [
        | inl (_, same) ↦ subst (AgreesAt a) (sym same) h
        | inr (_, _, e) ↦
            let t = new_transaction uuid_new household_id input caller_id f.drawn in
            let kept : AgreesAt a (store_transaction uuid_new t f) = record {
              fits = h.fits;
              agrees = h.agrees;
            } in
            subst (AgreesAt a) (sym (ap (λ r. r.1) e))
              (store_entries-AgreesAt t.id input.entries (store_transaction uuid_new t f) kept)
      ]
