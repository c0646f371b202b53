-- ===== src/Account/Fake/Versions.antt =====
-- Optimistic concurrency: of two writers that saw the same version only one succeeds.
use pfm_go.Common.{
  ℕ, String, false, ◌≡◌, ◌≢◌, sym, ap, ◌∙◌, inl, inr, none, some, nat_eq, Bool-cases, Option-cases,
  arith, ==_refl,
}
use pfm_go.Common.Int.{ℤ, pos, eqb_ℤ, eqb_ℤ_iff}
use pfm_go.Common.Int64.{add64, bits, bits-add64, bits-lt, bits_one}
use pfm_go.Types.{Uuid}
use pfm_go.Message.{Error, sentinel, wrapped, Sentinel}
use pfm_go.Effect.{Result, ok}
use pfm_go.GoMap.{lookup}
use pfm_go.GoMap.Laws.{lookup-insert}
use pfm_go.Account.{Account, UpdateNameInput, UpdateBalanceInput}
use pfm_go.Account.Fake.{FakeAccountRepository, update_balance, update_name, put, with_balance}

next_version_differs : (v : ℤ) → add64 v (pos 1) ≢ v
next_version_differs v e =
    let h = ap bits e in omega (arith, bits-add64 v (pos 1), bits-lt v, bits_one)

abbrev pub balance_conflict : Error
balance_conflict =
    wrapped "account: update balance: %w" (sentinel Sentinel.account_version_conflict)

abbrev pub name_conflict : Error
name_conflict = wrapped "account: update name: %w" (sentinel Sentinel.account_version_conflict)

-- A call that succeeds found the account in the expected version, and stored the next one.
update_balance-ok :
    (id : Uuid) (input : UpdateBalanceInput) (v : ℤ) (caller_id : Uuid) (f : FakeAccountRepository)
    (a : Account) (f' : FakeAccountRepository)
    → update_balance id input v caller_id f ≡ (ok a, f')
    → (f.err ≡ none) × (f' ≡ put id a f) × (a.version ≡ add64 v (pos 1))
unfolding update_balance
update_balance-ok id input v caller_id f a f' h = elim (Option-cases f.err) [
  | inr (e, failing) ↦
      let refused : update_balance id input v caller_id f ≡ (Result.err e, f) = rw failing in cc
  | inl working ↦ elim (Option-cases (lookup id f.by_id)) [
    | inl missing ↦
        let refused : update_balance id input v caller_id f ≡ (
          Result.err (wrapped "account: update balance: %w" (sentinel Sentinel.account_not_found)),
          f,
        ) =
          rw (working, missing) in
        cc
    | inr (old, found) ↦ elim (Bool-cases (eqb_ℤ old.version v)) [
      | inr conflict ↦
          let refused : update_balance id input v caller_id f ≡ (Result.err balance_conflict, f) =
            rw (working, found, conflict) in
          cc
      | inl current ↦
          let stored : update_balance id input v caller_id f ≡ (
            ok (with_balance input caller_id old),
            put id (with_balance input caller_id old) f,
          ) =
            rw (working, found, current) in
          let same : a ≡ with_balance input caller_id old = cc in
          let now : f' ≡ put id (with_balance input caller_id old) f = cc in
          (
            working,
            now ∙ ap (λ b. put id b f) (sym same),
            ap (λ (b : Account). b.version) same
                ∙ ap (λ w. add64 w (pos 1)) ((eqb_ℤ_iff old.version v).0 current),
          )
    ]
  ]
]

balance_is_stale :
    (id : Uuid) (input : UpdateBalanceInput) (v : ℤ) (caller_id : Uuid) (f : FakeAccountRepository)
    (a : Account)
    → f.err ≡ none
    → lookup id f.by_id ≡ some a
    → eqb_ℤ a.version v ≡ false
    → update_balance id input v caller_id f ≡ (Result.err balance_conflict, f)
unfolding update_balance
balance_is_stale id input v caller_id f a working found stale = rw (working, found, stale)

module _ (uuid_new : ℕ → Uuid) (uuid_string : Uuid → String) (to_lower : String → String) where
  name_is_stale :
      (id : Uuid) (input : UpdateNameInput) (v : ℤ) (caller_id : Uuid) (f : FakeAccountRepository)
      (a : Account)
      → f.err ≡ none
      → lookup id f.by_id ≡ some a
      → eqb_ℤ a.version v ≡ false
      → update_name uuid_new uuid_string to_lower id input v caller_id f
        ≡ (Result.err name_conflict, f)
  unfolding update_name
  name_is_stale id input v caller_id f a working found stale = rw (working, found, stale)

  -- After one writer has set the balance of an account at some version, any other writer that
  -- still expects that version fails with a version conflict, whether it sets the balance or the
  -- name, and changes nothing.
  pub second_writer_fails :
      (id : Uuid) (input : UpdateBalanceInput) (v : ℤ) (caller_id : Uuid)
      (f : FakeAccountRepository) (a : Account) (f' : FakeAccountRepository)
      → update_balance id input v caller_id f ≡ (ok a, f')
      → (other_balance : UpdateBalanceInput) (other_name : UpdateNameInput) (other_id : Uuid)
      → (update_balance id other_balance v other_id f' ≡ (Result.err balance_conflict, f'))
        × (update_name uuid_new uuid_string to_lower id other_name v other_id f'
            ≡ (Result.err name_conflict, f'))
  unfolding put
  second_writer_fails id input v caller_id f a f' h other_balance other_name other_id =
      let (working, now, next) = update_balance-ok id input v caller_id f a f' h in
      let working' : f'.err ≡ none = ap (λ (g : FakeAccountRepository). g.err) now ∙ working in
      let found : lookup id f'.by_id ≡ some a =
        ap (λ (g : FakeAccountRepository). lookup id g.by_id) now
        ∙ (lookup-insert id id a f.by_id ∙ rw (==_refl id)) in
      let stale : eqb_ℤ a.version v ≡ false =
        ground (arith, eqb_ℤ_iff a.version v, next_version_differs v) in
      (
        balance_is_stale id other_balance v other_id f' a working' found stale,
        name_is_stale id other_name v other_id f' a working' found stale,
      )
