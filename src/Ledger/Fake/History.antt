-- ===== src/Ledger/Fake/History.antt =====
-- The transaction history: whose transactions it shows, how it grows, and its pages.
use pfm_go.Common.{
  ℕ, suc, ◌<◌, Bool, true, false, ◌≡◌, ◌≢◌, refl, sym, ap, ap₂, ◌∙◌, inl, inr, List, [], ◌∷◌, ◌++◌,
  none, append-nil, append_assoc, ◌||◌, length, All, nat_eq, arith,
}
use pfm_go.Types.{Uuid, uuid_nil}
use pfm_go.Effect.{ok}
use pfm_go.Ledger.{
  Transaction, Entry, EntryInput, PostTransactionInput, HistoryQuery, TransactionWithEntries,
}
use pfm_go.Ledger.Logic.{is_unbalanced}
use pfm_go.Ledger.Fake.{
  FakeLedgerRepository, new_entry, store_entry, store_entries, store_transaction, new_transaction,
  post_transaction, has_match, entries_of, collect,
}
use pfm_go.Ledger.Fake.Books.{post_transaction-cases}

-- Every transaction of the history belongs to the household, and its entries are its own.
abbrev pub BelongsTo : Uuid → TransactionWithEntries → Type 0
BelongsTo household_id r =
    (r.transaction.household_id ≡ household_id)
    × All (λ e. e.transaction_id ≡ r.transaction.id) r.entries

entries_of-own : (id : Uuid) (es : List Entry) → All (λ e. e.transaction_id ≡ id) (entries_of id es)
unfolding entries_of
entries_of-own id [] = tt
entries_of-own id (e ∷ es) = ground (arith, entries_of-own id es)

-- The history of a household shows no transaction of another, whatever the filter.
pub collect-BelongsTo :
    (household_id : Uuid) (q : HistoryQuery) (es : List Entry) (ts : List Transaction)
    → All (BelongsTo household_id) (collect household_id q es ts)
unfolding collect
collect-BelongsTo household_id q es [] = tt
collect-BelongsTo household_id q es (t ∷ ts) =
    ground (arith, collect-BelongsTo household_id q es ts, entries_of-own t.id es)

entries_of-append :
    (id : Uuid) (xs ys : List Entry)
    → entries_of id (xs ++ ys) ≡ entries_of id xs ++ entries_of id ys
unfolding entries_of
entries_of-append id [] ys = refl
entries_of-append id (x ∷ xs) ys = ground (arith, entries_of-append id xs ys)

entries_of_same :
    (id : Uuid) (es : List Entry) → All (λ e. e.transaction_id ≡ id) es → entries_of id es ≡ es
unfolding entries_of
entries_of_same id [] h = refl
entries_of_same id (e ∷ es) h = ground (arith, entries_of_same id es h.1)

entries_of_other :
    (id : Uuid) (es : List Entry) → All (λ e. e.transaction_id ≢ id) es → entries_of id es ≡ []
unfolding entries_of
entries_of_other id [] h = refl
entries_of_other id (e ∷ es) h = ground (arith, entries_of_other id es h.1)

has_match-append :
    (q : HistoryQuery) (xs ys : List Entry) (id : Uuid)
    → has_match q (xs ++ ys) id ≡ has_match q xs id || has_match q ys id
unfolding has_match
has_match-append q [] ys id = refl
has_match-append q (x ∷ xs) ys id = ground (arith, has_match-append q xs ys id)

has_match_other :
    (q : HistoryQuery) (es : List Entry) (id : Uuid)
    → All (λ e. e.transaction_id ≢ id) es
    → has_match q es id ≡ false
unfolding has_match
has_match_other q [] id h = refl
has_match_other q (e ∷ es) id h = ground (arith, has_match_other q es id h.1)

has_match_unfiltered :
    (q : HistoryQuery) (e : Entry) (es : List Entry) (id : Uuid)
    → q.account_id ≡ uuid_nil
    → e.transaction_id ≡ id
    → has_match q (e ∷ es) id ≡ true
unfolding has_match
has_match_unfiltered q e es id unfiltered own = ground arith

others_of :
    (id j : Uuid) (es : List Entry)
    → j ≢ id
    → All (λ e. e.transaction_id ≡ id) es
    → All (λ e. e.transaction_id ≢ j) es
others_of id j [] ne own = tt
others_of id j (e ∷ es) ne (h, own) = (λ p. ne (sym p ∙ h), others_of id j es ne own)

-- Entries of a transaction that is not in the list change nothing.
collect-append_entries :
    (household_id : Uuid) (q : HistoryQuery) (xs ys : List Entry) (id : Uuid)
    (ts : List Transaction)
    → All (λ e. e.transaction_id ≡ id) ys
    → All (λ t. t.id ≢ id) ts
    → collect household_id q (xs ++ ys) ts ≡ collect household_id q xs ts
unfolding collect
collect-append_entries household_id q xs ys id [] own fresh = refl
collect-append_entries household_id q xs ys id (t ∷ ts) own (ne, fresh) =
    let others : All (λ e. e.transaction_id ≢ t.id) ys = others_of id t.id ys ne own in
    ground (
      arith,
      collect-append_entries household_id q xs ys id ts own fresh,
      has_match-append q xs ys t.id,
      has_match_other q ys t.id others,
      entries_of-append t.id xs ys,
      entries_of_other t.id ys others,
      append-nil (entries_of t.id xs),
    )

collect-concat :
    (household_id : Uuid) (q : HistoryQuery) (es : List Entry) (ts : List Transaction)
    (t : Transaction)
    → collect household_id q es (ts ++ t ∷ [])
      ≡ collect household_id q es ts ++ collect household_id q es (t ∷ [])
unfolding collect
collect-concat household_id q es [] t = refl
collect-concat household_id q es (x ∷ ts) t = ground (arith, collect-concat household_id q es ts t)

-- The storage after the loop over the entries: it has the returned entries at the end, all of
-- them of the transaction, and no other transaction.
store_entries_appends :
    (uuid_new : ℕ → Uuid) (id : Uuid) (es : List EntryInput) (f : FakeLedgerRepository)
    → let (stored, f') = store_entries uuid_new id es f in
      (f'.entries ≡ f.entries ++ stored)
      × (f'.transactions ≡ f.transactions)
      × All (λ e. e.transaction_id ≡ id) stored
unfolding store_entries store_entry new_entry
store_entries_appends uuid_new id [] f = (sym (append-nil f.entries), refl, tt)
store_entries_appends uuid_new id (e ∷ es) f =
    let (entries, transactions, own) =
      store_entries_appends uuid_new id es (store_entry uuid_new id e f) in
    (
      entries ∙ append_assoc f.entries (new_entry uuid_new id e f.drawn ∷ []) _,
      transactions,
      (refl, own),
    )

-- No stored transaction or entry has the identifier.
abbrev pub IsFresh : Uuid → FakeLedgerRepository → Type 0
IsFresh id f =
    All (λ (t : Transaction). t.id ≢ id) f.transactions
    × All (λ (e : Entry). e.transaction_id ≢ id) f.entries

or_true : (b : Bool) → b || true ≡ true
or_true true = refl
or_true false = refl

-- The row of a transaction whose entries stand at the end.
collect_new :
    (q : HistoryQuery) (t : Transaction) (es : List Entry) (e : Entry) (new : List Entry)
    → q.account_id ≡ uuid_nil
    → All (λ x. x.transaction_id ≢ t.id) es
    → All (λ x. x.transaction_id ≡ t.id) (e ∷ new)
    → collect t.household_id q (es ++ e ∷ new) (t ∷ [])
      ≡ record { transaction = t; entries = e ∷ new } ∷ []
unfolding collect
collect_new q t es e new unfiltered others own = ground (
  arith,
  has_match-append q es (e ∷ new) t.id,
  has_match_unfiltered q e new t.id unfiltered own.0,
  or_true (has_match q es t.id),
  entries_of-append t.id es (e ∷ new),
  entries_of_other t.id es others,
  entries_of_same t.id (e ∷ new) own,
)

collect_stored :
    (q : HistoryQuery) (t : Transaction) (es stored : List Entry) (ts : List Transaction)
    → q.account_id ≡ uuid_nil
    → 0 < length stored
    → All (λ (x : Transaction). x.id ≢ t.id) ts
    → All (λ x. x.transaction_id ≢ t.id) es
    → All (λ x. x.transaction_id ≡ t.id) stored
    → collect t.household_id q (es ++ stored) (ts ++ t ∷ [])
      ≡ collect t.household_id q es ts ++ record { transaction = t; entries = stored } ∷ []
collect_stored q t es [] ts unfiltered h fresh others own = absurd (omega arith)
collect_stored q t es (e ∷ new) ts unfiltered h fresh others own =
    collect-concat t.household_id q (es ++ e ∷ new) ts t
    ∙ ap₂ ◌++◌ (collect-append_entries t.household_id q es (e ∷ new) t.id ts own fresh)
        (collect_new q t es e new unfiltered others own)

length-store_entries :
    (uuid_new : ℕ → Uuid) (id : Uuid) (es : List EntryInput) (f : FakeLedgerRepository)
    → length (store_entries uuid_new id es f).0 ≡ length es
unfolding store_entries
length-store_entries uuid_new id [] f = refl
length-store_entries uuid_new id (e ∷ es) f =
    ap suc (length-store_entries uuid_new id es (store_entry uuid_new id e f))

-- With no injected error, a balanced posting with entries, under an identifier that is new, succeeds
-- and appears at the end of the
-- household's unfiltered history with exactly the entries that it returned; what was there
-- before is unchanged.
pub post_transaction_history :
    (uuid_new : ℕ → Uuid) (household_id : Uuid) (input : PostTransactionInput) (caller_id : Uuid)
    (q : HistoryQuery) (f : FakeLedgerRepository)
    → f.err ≡ none
    → is_unbalanced input.entries ≡ false
    → 0 < length input.entries
    → q.account_id ≡ uuid_nil
    → IsFresh (uuid_new f.drawn) f
    → let (r, f') = post_transaction uuid_new household_id input caller_id f in
      (t : Transaction) × (stored : List Entry) × (r ≡ ok (t, stored))
      × (collect household_id q f'.entries f'.transactions
          ≡ collect household_id q f.entries f.transactions
            ++ record { transaction = t; entries = stored } ∷ [])
unfolding store_transaction new_transaction
post_transaction_history uuid_new household_id input caller_id q f working balanced some_entries
      unfiltered fresh =
    elim (post_transaction-cases uuid_new household_id input caller_id f) [
      | inl (refused, _) ↦ elim refused [ inl failing ↦ absurd (failing working) | inr differ ↦ cc ]
      | inr (_, _, e) ↦
          let t = new_transaction uuid_new household_id input caller_id f.drawn in
          let (stored, f') =
            store_entries uuid_new t.id input.entries (store_transaction uuid_new t f) in
          let (entries, transactions, own) =
            store_entries_appends uuid_new t.id input.entries (store_transaction uuid_new t f) in
          let grown =
            length-store_entries uuid_new t.id input.entries (store_transaction uuid_new t f) in
          (
            t,
            stored,
            ap (λ r. r.0) e,
            ap (λ r. collect household_id q r.1.entries r.1.transactions) e
                ∙ ap₂ (collect household_id q) entries transactions
                ∙ collect_stored q t f.entries stored f.transactions unfiltered (omega arith)
                    fresh.0 fresh.1 own,
          )
    ]
