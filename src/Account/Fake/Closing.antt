-- ===== src/Account/Fake/Closing.antt =====
-- Closing an account: `AccountLogic.Deactivate` over the storage in memory.
use pfm_go.Common.{
  ℕ, String, true, false, ◌≡◌, ◌≢◌, refl, ◌⊎◌, inl, inr, none, some, nat_eq, ==_refl, Bool-cases,
  Option-cases, arith, ◌∙◌, ap,
}
use pfm_go.Common.Int.{pos, eqb_ℤ, eqb_ℤ_iff}
use pfm_go.Types.{Uuid}
use pfm_go.Message.{Error, sentinel, wrapped, Sentinel, is}
use pfm_go.Effect.{Result, ok}
use pfm_go.GoMap.{lookup, delete}
use pfm_go.GoMap.Laws.{lookup-delete}
use pfm_go.Account.{Account, Repository}
use pfm_go.Account.Logic
use pfm_go.Account.Fake.{
  FakeAccountRepository, fake_account_repository, find_by_id, deactivate, remove,
}

abbrev pub balance_not_zero : Error
balance_not_zero =
    wrapped "account logic: deactivate: %w" (sentinel Sentinel.account_balance_not_zero)

abbrev pub not_found : Error
not_found = wrapped "account: find by id: %w" (sentinel Sentinel.account_not_found)

-- The three ends of `Deactivate`, over any storage.
module _ {S : Type 0} (repo : Repository S) where
  found_none :
      (id caller_id : Uuid) (e : Error) (s s' : S)
      → repo.find_by_id id s ≡ (Result.err e, s')
      → is e Sentinel.account_not_found ≡ true
      → Logic.deactivate repo id caller_id s ≡ (ok tt, s')
  unfolding Logic.deactivate
  found_none id caller_id e s s' looked_up missing = ground arith

  found_nonzero :
      (id caller_id : Uuid) (a : Account) (s s' : S)
      → repo.find_by_id id s ≡ (ok a, s')
      → eqb_ℤ a.balance (pos 0) ≡ false
      → Logic.deactivate repo id caller_id s ≡ (Result.err balance_not_zero, s')
  unfolding Logic.deactivate
  found_nonzero id caller_id a s s' looked_up nonzero = ground arith

  found_zero :
      (id caller_id : Uuid) (a : Account) (s s' s'' : S)
      → repo.find_by_id id s ≡ (ok a, s')
      → eqb_ℤ a.balance (pos 0) ≡ true
      → repo.deactivate id caller_id s' ≡ (ok tt, s'')
      → Logic.deactivate repo id caller_id s ≡ (ok tt, s'')
  unfolding Logic.deactivate
  found_zero id caller_id a s s' s'' looked_up zero_balance removed = ground arith

found :
    (id : Uuid) (f : FakeAccountRepository) (a : Account)
    → f.err ≡ none
    → lookup id f.by_id ≡ some a
    → find_by_id id f ≡ (ok a, f)
unfolding find_by_id
found id f a working there = rw (working, there)

missing :
    (id : Uuid) (f : FakeAccountRepository)
    → f.err ≡ none
    → lookup id f.by_id ≡ none
    → find_by_id id f ≡ (Result.err not_found, f)
unfolding find_by_id
missing id f working gone = rw (working, gone)

-- What `Deactivate` does to an account, by its balance.
abbrev pub Closes :
    Uuid → FakeAccountRepository → Result (Unit {0}) × FakeAccountRepository → Type 0
Closes id f (r, f') =
    ((lookup id f.by_id ≡ none) × (r ≡ ok tt) × (f' ≡ f))
    ⊎ ((a : Account) × (lookup id f.by_id ≡ some a)
        × (((a.balance ≢ pos 0) × (r ≡ Result.err balance_not_zero) × (f' ≡ f))
            ⊎ ((a.balance ≡ pos 0) × (r ≡ ok tt) × (lookup id f'.by_id ≡ none))))

module _ (uuid_new : ℕ → Uuid) (uuid_string : Uuid → String) (to_lower : String → String) where
  abbrev repo : Repository FakeAccountRepository
  repo = fake_account_repository uuid_new uuid_string to_lower

  removed :
      (id caller_id : Uuid) (f : FakeAccountRepository) (a : Account)
      → f.err ≡ none
      → lookup id f.by_id ≡ some a
      → deactivate uuid_new uuid_string to_lower id caller_id f
        ≡ (ok tt, remove uuid_new uuid_string to_lower id a f)
  unfolding deactivate lookup delete
  removed id caller_id f a working there = rw (working, there)

  gone_after :
      (id : Uuid) (a : Account) (f : FakeAccountRepository)
      → lookup id (remove uuid_new uuid_string to_lower id a f).by_id ≡ none
  unfolding remove
  gone_after id a f = lookup-delete id id f.by_id ∙ rw (==_refl id)

  -- With no injected error, deactivating succeeds without effect if there is no such account, is refused without effect
  -- if its balance is not zero, and otherwise removes it.
  pub deactivate-Closes :
      (id caller_id : Uuid) (f : FakeAccountRepository)
      → f.err ≡ none
      → Closes id f
          (Logic.deactivate (fake_account_repository uuid_new uuid_string to_lower) id caller_id f)
  unfolding is
  deactivate-Closes id caller_id f working = elim (Option-cases (lookup id f.by_id)) [
    | inl gone ↦
        let h = found_none repo id caller_id not_found f f (missing id f working gone) refl in
        inl (gone, ap (λ x. x.0) h, ap (λ x. x.1) h)
    | inr (a, there) ↦ elim (Bool-cases (eqb_ℤ a.balance (pos 0))) [
      | inr nonzero ↦
          let h = found_nonzero repo id caller_id a f f (found id f a working there) nonzero in
          inr (a, there, inl ((λ z. cc), ap (λ x. x.0) h, ap (λ x. x.1) h))
      | inl zero_balance ↦
          let h =
            found_zero repo id caller_id a f f (remove uuid_new uuid_string to_lower id a f)
              (found id f a working there) zero_balance (removed id caller_id f a working there) in
          inr (
            a,
            there,
            inr (
              (eqb_ℤ_iff a.balance (pos 0)).0 zero_balance,
              ap (λ x. x.0) h,
              ap (λ (x : Result (Unit {0}) × FakeAccountRepository). lookup id x.1.by_id) h
                  ∙ gone_after id a f,
            ),
          )
    ]
  ]
