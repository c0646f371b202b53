-- ===== src/Postgres/Ledgers/Balances.antt =====
-- internal/adapter/postgres/ledger_repo.go: what a posting does to the balances of the database,
-- given what the queries of db/queries/ledger.sql are documented to do.
use pfm_go.Common.{
  All, ◌≡◌, refl, sym, ap, ◌∙◌, inl, inr, Option, none, some, String, List, [], ◌∷◌, ◌==◌, nat_eq,
  string_eq, Bool-cases, arith, if◌then◌else◌,
}
use pfm_go.Common.Int.{ℤ, pos, ◌+ℤ◌, ◌-ℤ◌, ◌≤ℤ◌, int_laws}
use pfm_go.Common.Int64.{max_int64, bits, neg64, wrap_of_IsInt64}
use pfm_go.Types.{Uuid, Time, entry_type_debit, entry_type_credit}
use pfm_go.Effect.{ok, Result-cases}
use pfm_go.Ledger.{Transaction, Entry, EntryInput, PostTransactionInput}
use pfm_go.Ledger.Logic.{is_unbalanced}
use pfm_go.Ledger.Logic.Balance.{total, is_unbalanced_iff}
use pfm_go.Postgres.{time_to_pg_date, uuid_to_pg_uuid}
use pfm_go.Postgres.Ledgers.{
  Queries, delta_of, insert_entry, insert_entries, insert_all, post_transaction,
}

-- The balance of an account that is not deleted, moved by an amount.
abbrev pub shift : ℤ → Option ℤ → Option ℤ
shift n none = none
shift n (some b) = some (b +ℤ n)

-- What the queries do when they return no error: an insertion leaves every balance alone, and an
-- adjustment moves the balance of the account, unless that is deleted.
pub record MovesBalances {S : Type 0} (q : Queries S) (balance : S → Uuid → Option ℤ) : Type 0 where
  pub transaction_keeps :
      (household_id : Uuid) (description : String) (date : Option Time) (created_by : Option Uuid)
      (s : S) (a : Uuid)
      → balance (q.insert_transaction household_id description date created_by s).1 a ≡ balance s a
  pub entry_keeps :
      (transaction_id account_id : Uuid) (entry_type : String) (amount : ℤ) (s : S) (a : Uuid)
      → balance (q.insert_ledger_entry transaction_id account_id entry_type amount s).1 a
        ≡ balance s a
  pub adjust_moves :
      (id : Uuid) (delta : ℤ) (s : S)
      → (q.adjust_account_balance id delta s).0 ≡ ok tt
      → (a : Uuid)
      → balance (q.adjust_account_balance id delta s).1 a
        ≡ (if id == a then shift delta (balance s a) else balance s a)

-- Credits less debits of one account.
abbrev pub net_of : Uuid → List EntryInput → ℤ
net_of a [] = pos 0
net_of a (e ∷ es) =
    let rest = net_of a es in
    if e.account_id == a
    then (if e.entry_type == entry_type_credit
        then e.amount +ℤ rest
        else if e.entry_type == entry_type_debit
        then rest -ℤ e.amount
        else rest)
    else rest

-- The amounts that the domain lets through.
abbrev pub IsAmount : EntryInput → Type 0
IsAmount e = (pos 1 ≤ℤ e.amount) × (e.amount ≤ℤ max_int64)

neg64_exact : (a : ℤ) → pos 1 ≤ℤ a → a ≤ℤ max_int64 → neg64 a ≡ pos 0 -ℤ a
unfolding neg64
neg64_exact a low high = wrap_of_IsInt64 (pos 0 -ℤ a) (omega int_laws)

add_sum : (b a r : ℤ) → (b +ℤ a) +ℤ r ≡ b +ℤ (a +ℤ r)
add_sum b a r = omega int_laws

add_difference : (b a r : ℤ) → (b +ℤ (pos 0 -ℤ a)) +ℤ r ≡ b +ℤ (r -ℤ a)
add_difference b a r = omega int_laws

add_zero : (b r : ℤ) → (b +ℤ pos 0) +ℤ r ≡ b +ℤ r
add_zero b r = omega int_laws

plus_zero : (b : ℤ) → b +ℤ pos 0 ≡ b
plus_zero b = omega int_laws

shift_zero : (b : Option ℤ) → b ≡ shift (pos 0) b
shift_zero none = refl
shift_zero (some b) = rw (plus_zero b)

shift-net_of :
    (a : Uuid) (e : EntryInput) (es : List EntryInput) (b : Option ℤ)
    → IsAmount e
    → shift (net_of a es) (if e.account_id == a then shift (delta_of e) b else b)
      ≡ shift (net_of a (e ∷ es)) b
unfolding delta_of
shift-net_of a e es none h = ground arith
shift-net_of a e es (some b) h = ground (
  arith,
  neg64_exact e.amount,
  add_sum b e.amount (net_of a es),
  add_difference b e.amount (net_of a es),
  add_zero b (net_of a es),
)

module _ {S : Type 0} (q : Queries S) (balance : S → Uuid → Option ℤ)
    (law : MovesBalances q balance) where
  insert_entry_moves :
      (transaction_id : Uuid) (e : EntryInput) (s : S) (x : Entry)
      → (insert_entry q transaction_id e s).0 ≡ ok x
      → (a : Uuid)
      → balance (insert_entry q transaction_id e s).1 a
        ≡ (if e.account_id == a then shift (delta_of e) (balance s a) else balance s a)
  unfolding insert_entry
  insert_entry_moves transaction_id e s x done a =
      let inserted = q.insert_ledger_entry transaction_id e.account_id e.entry_type e.amount s in
      let kept = law.entry_keeps transaction_id e.account_id e.entry_type e.amount s a in
      elim (Result-cases (q.adjust_account_balance e.account_id (delta_of e) inserted.1).0) [
        | inr (inl (e', failed)) ↦ absurd (ground arith)
        | inr (inr panicked) ↦ absurd (ground arith)
        | inl (tt, adjusted) ↦
            ground (arith, law.adjust_moves e.account_id (delta_of e) inserted.1 adjusted a)
      ]

  insert_entries_move :
      (transaction_id : Uuid) (es : List EntryInput) (s : S) (xs : List Entry)
      → All IsAmount es
      → (insert_entries q transaction_id es s).0 ≡ ok xs
      → (a : Uuid)
      → balance (insert_entries q transaction_id es s).1 a ≡ shift (net_of a es) (balance s a)
  unfolding insert_entries
  insert_entries_move transaction_id [] s xs h done a = shift_zero (balance s a)
  insert_entries_move transaction_id (e ∷ es) s xs (h, hs) done a =
      let s1 = (insert_entry q transaction_id e s).1 in
      elim (Result-cases (insert_entry q transaction_id e s).0) [
        | inr (inl (e', failed)) ↦ absurd (ground arith)
        | inr (inr panicked) ↦ absurd (ground arith)
        | inl (x, first) ↦
            let moved = insert_entry_moves transaction_id e s x first a in
            elim (Result-cases (insert_entries q transaction_id es s1).0) [
              | inr (inl (e', failed)) ↦ absurd (ground arith)
              | inr (inr panicked) ↦ absurd (ground arith)
              | inl (rest, others) ↦
                  let later = insert_entries_move transaction_id es s1 rest hs others a in
                  let same : (insert_entries q transaction_id (e ∷ es) s).1
                      ≡ (insert_entries q transaction_id es s1).1 =
                    ground arith in
                  ap (λ s'. balance s' a) same
                  ∙ later
                  ∙ ap (shift (net_of a es)) moved
                  ∙ shift-net_of a e es (balance s a) h
            ]
      ]

  insert_all_moves :
      (household_id : Uuid) (input : PostTransactionInput) (caller_id : Uuid) (s : S)
      (r : Transaction × List Entry)
      → All IsAmount input.entries
      → (insert_all q household_id input caller_id s).0 ≡ ok r
      → (a : Uuid)
      → balance (insert_all q household_id input caller_id s).1 a
        ≡ shift (net_of a input.entries) (balance s a)
  unfolding insert_all
  insert_all_moves household_id input caller_id s r h done a =
      let date = time_to_pg_date input.transaction_date in
      let inserted =
        q.insert_transaction household_id input.description date (uuid_to_pg_uuid caller_id) s in
      let kept =
        law.transaction_keeps household_id input.description date (uuid_to_pg_uuid caller_id) s a in
      elim (Result-cases inserted.0) [
        | inr (inl (e', failed)) ↦ absurd (ground arith)
        | inr (inr panicked) ↦ absurd (ground arith)
        | inl (row, first) ↦
            let entries = insert_entries q row.id input.entries inserted.1 in
            elim (Result-cases entries.0) [
              | inr (inl (e', failed)) ↦ absurd (ground arith)
              | inr (inr panicked) ↦ absurd (ground arith)
              | inl (xs, others) ↦
                  let same : (insert_all q household_id input caller_id s).1 ≡ entries.1 =
                    ground arith in
                  ap (λ s'. balance s' a) same
                  ∙ insert_entries_move row.id input.entries inserted.1 xs h others a
                  ∙ ap (shift (net_of a input.entries)) kept
            ]
      ]

  -- A posting of positive int64 amounts that the storage accepts has debits and credits that
  -- agree modulo 2 ^ 64, and moves the balance of every account that is not deleted by the credits
  -- less the debits of its entries. The insertions leave balances alone, and an adjustment moves
  -- one balance by what it is told.
  pub post_transaction_moves :
      (household_id : Uuid) (input : PostTransactionInput) (caller_id : Uuid) (s : S)
      (r : Transaction × List Entry)
      → All IsAmount input.entries
      → (post_transaction q household_id input caller_id s).0 ≡ ok r
      → (bits (total entry_type_debit input.entries) ≡ bits (total entry_type_credit input.entries))
        × ((a : Uuid)
            → balance (post_transaction q household_id input caller_id s).1 a
              ≡ shift (net_of a input.entries) (balance s a))
  unfolding post_transaction
  post_transaction_moves household_id input caller_id s r h done =
      elim (Bool-cases (is_unbalanced input.entries)) [
        | inl refused ↦ absurd (ground arith)
        | inr passed ↦
            let same : post_transaction q household_id input caller_id s
                ≡ insert_all q household_id input caller_id s =
              rw passed in
            (
              (is_unbalanced_iff input.entries).0 passed,
              λ a.
                  ap (λ p. balance p.1 a) same
                  ∙ insert_all_moves household_id input caller_id s r h
                      (sym (ap (λ p. p.0) same) ∙ done) a,
            )
      ]
