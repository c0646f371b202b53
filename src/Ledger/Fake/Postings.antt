-- ===== src/Ledger/Fake/Postings.antt =====
-- Sequences of postings to the storage in memory, against the sum of what was posted.
use pfm_go.Common.{
  Bool, ℕ, ◌+◌, ◌%◌, ◌^◌, true, false, ◌≡◌, refl, ap, ◌∙◌, none, List, [], ◌∷◌, ◌==◌, nat_eq,
  nat_eqb, string_eq, inl, inr, arith, if◌then◌else◌,
}
use pfm_go.Common.Int.{ℤ, pos, ◌+ℤ◌, ◌-ℤ◌}
use pfm_go.Common.Int64.{
  wrap, wrap-IsInt64, bits-wrap, eq_of_bits, bits, bits-lt, bits_zero, bits-+ℤ,
}
use pfm_go.Types.{Uuid, entry_type_debit, entry_type_credit}
use pfm_go.Effect.{ok}
use pfm_go.GoMap.{lookup}
use pfm_go.Ledger.{EntryInput, PostTransactionInput}
use pfm_go.Ledger.Logic.Balance.{total, is_unbalanced_iff}
use pfm_go.Ledger.Fake.{
  FakeLedgerRepository, new_fake_ledger_repository, balance_of, store_entry, store_entries,
  post_transaction, new_transaction, store_transaction, get_balance,
}
use pfm_go.Ledger.Fake.Books.{
  effect, update_balance-bits, post_transaction-cases, AgreesAt, post_transaction-AgreesAt,
}

pub record Posting : Type 0 where
  pub household_id : Uuid
  pub input : PostTransactionInput
  pub caller_id : Uuid

-- Credits less debits of one account, as an integer.
abbrev pub net_of : Uuid → List EntryInput → ℤ
net_of a [] = pos 0
net_of a (e ∷ es) =
    let rest = net_of a es in
    if e.account_id == a
    then (if e.entry_type == entry_type_credit
        then e.amount +ℤ rest
        else if e.entry_type == entry_type_debit
        then (pos 0 -ℤ e.amount) +ℤ rest
        else rest)
    else rest

-- The sums of debits and credits agree on 64 bits.
abbrev pub is_balanced : List EntryInput → Bool
is_balanced es = nat_eqb (bits (total entry_type_debit es)) (bits (total entry_type_credit es))

-- Credits less debits of one account over all postings that are balanced.
abbrev pub posted : Uuid → List Posting → ℤ
posted a [] = pos 0
posted a (p ∷ ps) =
    let rest = posted a ps in
    if is_balanced p.input.entries then net_of a p.input.entries +ℤ rest else rest

get_balance-reads :
    (a : Uuid) (b : ℤ) (f : FakeLedgerRepository)
    → f.err ≡ none
    → balance_of a f.balances ≡ b
    → get_balance a f ≡ (ok b, f)
unfolding get_balance
get_balance-reads a b f working e = rw (working, e)

module _ (uuid_new : ℕ → Uuid) where
  -- The storage after the postings, one after the other, whether they are refused or not.
  abbrev pub post_all : List Posting → FakeLedgerRepository → FakeLedgerRepository
  post_all [] f = f
  post_all (p ∷ ps) f =
      post_all ps (post_transaction uuid_new p.household_id p.input p.caller_id f).1

  store_entries-bits :
      (a transaction_id : Uuid) (es : List EntryInput) (f : FakeLedgerRepository)
      → bits (balance_of a (store_entries uuid_new transaction_id es f).1.balances)
        ≡ (bits (balance_of a f.balances) + bits (net_of a es)) % 2 ^ 64
  unfolding store_entries store_entry effect
  store_entries-bits a transaction_id [] f =
      omega (arith, bits_zero, bits-lt (balance_of a f.balances))
  store_entries-bits a transaction_id (e ∷ es) f = ground (
    arith,
    store_entries-bits a transaction_id es (store_entry uuid_new transaction_id e f),
    update_balance-bits e a f.balances,
    bits-+ℤ e.amount (net_of a es),
    bits-+ℤ (pos 0 -ℤ e.amount) (net_of a es),
    bits_zero,
  )

  store_entries-err :
      (transaction_id : Uuid) (es : List EntryInput) (f : FakeLedgerRepository)
      → (store_entries uuid_new transaction_id es f).1.err ≡ f.err
  unfolding store_entries store_entry
  store_entries-err transaction_id [] f = refl
  store_entries-err transaction_id (e ∷ es) f =
      store_entries-err transaction_id es (store_entry uuid_new transaction_id e f)

  -- One posting moves the balance by the net of its entries, if it is balanced.
  post_transaction-bits :
      (a : Uuid) (p : Posting) (f : FakeLedgerRepository)
      → f.err ≡ none
      → let f' = (post_transaction uuid_new p.household_id p.input p.caller_id f).1 in
        (f'.err ≡ none)
        × (bits (balance_of a f'.balances) ≡ (
            if is_balanced p.input.entries
            then (bits (balance_of a f.balances) + bits (net_of a p.input.entries)) % 2 ^ 64
            else bits (balance_of a f.balances)))
  unfolding store_transaction
  post_transaction-bits a p f working =
      let es = p.input.entries in
      let balanced = is_unbalanced_iff es in
      elim (post_transaction-cases uuid_new p.household_id p.input p.caller_id f) [
        | inl (inl failing, same) ↦ absurd (failing working)
        | inl (inr differ, same) ↦
            let apart : is_balanced es ≡ false = ground (arith, balanced) in
            (
              ap (λ g. g.err) same ∙ working,
              ap (λ g. bits (balance_of a g.balances)) same ∙ rw apart,
            )
        | inr (_, passed, e) ↦
            let t = new_transaction uuid_new p.household_id p.input p.caller_id f.drawn in
            let start = store_transaction uuid_new t f in
            let even : is_balanced es ≡ true = ground (arith, balanced) in
            (
              ap (λ r. r.1.err) e ∙ store_entries-err t.id es start ∙ working,
              ap (λ r. bits (balance_of a r.1.balances)) e
                  ∙ store_entries-bits a t.id es start
                  ∙ rw even,
            )
      ]

  post_all-bits :
      (a : Uuid) (ps : List Posting) (f : FakeLedgerRepository)
      → f.err ≡ none
      → ((post_all ps f).err ≡ none)
        × (bits (balance_of a (post_all ps f).balances)
            ≡ (bits (balance_of a f.balances) + bits (posted a ps)) % 2 ^ 64)
  post_all-bits a [] f working =
      (working, omega (arith, bits_zero, bits-lt (balance_of a f.balances)))
  post_all-bits a (p ∷ ps) f working =
      let f' = (post_transaction uuid_new p.household_id p.input p.caller_id f).1 in
      let (working', first) = post_transaction-bits a p f working in
      let (still, rest) = post_all-bits a ps f' working' in
      (still, ground (arith, bits-+ℤ (net_of a p.input.entries) (posted a ps)))

  post_all-AgreesAt :
      (a : Uuid) (ps : List Posting) (f : FakeLedgerRepository)
      → AgreesAt a f
      → AgreesAt a (post_all ps f)
  post_all-AgreesAt a [] f h = h
  post_all-AgreesAt a (p ∷ ps) f h =
      post_all-AgreesAt a ps _
        (post_transaction-AgreesAt uuid_new a p.household_id p.input p.caller_id f h)

  start-AgreesAt : (a : Uuid) → AgreesAt a new_fake_ledger_repository
  unfolding balance_of lookup
  start-AgreesAt a = record { fits = ground arith; agrees = refl }

  start_bits : (a : Uuid) → bits (balance_of a new_fake_ledger_repository.balances) ≡ 0
  unfolding balance_of lookup bits
  start_bits a = refl

  -- After any sequence of postings to the empty storage, `GetBalance` answers the credits less the
  -- debits of the account over those postings whose sums agree modulo 2 ^ 64, as an int64; the
  -- other postings leave no trace in it.
  pub get_balance-post_all :
      (ps : List Posting) (a : Uuid)
      → let f = post_all ps new_fake_ledger_repository in
        get_balance a f ≡ (ok (wrap (posted a ps)), f)
  get_balance-post_all ps a =
      let f = post_all ps new_fake_ledger_repository in
      let (working, moved) = post_all-bits a ps new_fake_ledger_repository refl in
      let agrees = post_all-AgreesAt a ps new_fake_ledger_repository (start-AgreesAt a) in
      let same_bits : bits (balance_of a f.balances) ≡ bits (wrap (posted a ps)) =
        omega (arith, moved, start_bits a, bits-wrap (posted a ps), bits-lt (posted a ps)) in
      let exact : balance_of a f.balances ≡ wrap (posted a ps) =
        eq_of_bits _ _ agrees.fits (wrap-IsInt64 _) same_bits in
      get_balance-reads a (wrap (posted a ps)) f working exact
