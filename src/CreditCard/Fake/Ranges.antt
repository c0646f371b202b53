-- ===== src/CreditCard/Fake/Ranges.antt =====
-- Settings stay in range, and on credit card accounts, in the storage in memory.
use pfm_go.Common.{
  ℕ, String, ◌≡◌, sym, subst, ◌⊎◌, inl, inr, some, ◌==◌, ==_iff, nat_eq, Bool-cases, Option-cases,
  arith,
}
use pfm_go.Common.Int.{ℤ, eqb_ℤ}
use pfm_go.Types.{Uuid, AccountType, account_type_credit_card}
use pfm_go.Effect.{Result, ok}
use pfm_go.GoMap
use pfm_go.GoMap.{lookup, contains, insert}
use pfm_go.GoMap.Laws.{lookup-insert, lookup-delete}
use pfm_go.CreditCard.{Settings, CreateInput, AccountTypeFinder}
use pfm_go.CreditCard.Logic.Checks.{IsDay, IsLimit, IsInRange}
use pfm_go.CreditCard.Fake.{
  FakeCreditCardSettingsRepository, touched, put, update, delete, new_settings, store, create,
}

-- An update writes nothing, or the changed settings under the account that had them.
update-state :
    (format : String) (change : Settings → Settings) (id : Uuid) (v : ℤ) (caller_id : Uuid)
    (f : FakeCreditCardSettingsRepository)
    → ((update format change id v caller_id f).1 ≡ f)
      ⊎ ((s : Settings) × (lookup id f.by_account ≡ some s)
          × ((update format change id v caller_id f).1 ≡ put id (touched caller_id (change s)) f))
unfolding update
update-state format change id v caller_id f = elim (Option-cases f.err) [
  | inr (e, failing) ↦ inl (rw failing)
  | inl working ↦ elim (Option-cases (lookup id f.by_account)) [
    | inl missing ↦ inl (rw (working, missing))
    | inr (s, found) ↦ elim (Bool-cases (eqb_ℤ s.version v)) [
      | inr conflict ↦ inl (rw (working, found, conflict))
      | inl current ↦ inr (s, found, rw (working, found, current))
    ]
  ]
]

-- `account_type` answers what the finder reads elsewhere, so that it leaves the settings alone.
module _ (uuid_new : ℕ → Uuid) (account_type : Uuid → Result AccountType) where
  abbrev pub accounts : AccountTypeFinder FakeCreditCardSettingsRepository
  accounts = record { find_account_type = λ id f. (account_type id, f) }

  -- Settings that the program may hold for an account.
  abbrev pub IsValid : Uuid → Settings → Type 0
  IsValid id s =
      (account_type id ≡ ok account_type_credit_card)
      × IsDay s.closing_day
      × IsDay s.due_day
      × IsLimit s.limit_amount

  abbrev pub AllValid : FakeCreditCardSettingsRepository → Type 0
  AllValid f = (id : Uuid) (s : Settings) → lookup id f.by_account ≡ some s → IsValid id s

  put-AllValid :
      (id : Uuid) (s : Settings) (f : FakeCreditCardSettingsRepository)
      → IsValid id s
      → AllValid f
      → AllValid (put id s f)
  unfolding put
  put-AllValid id s f valid h i t e = elim (Bool-cases (id == i)) [
    | inl same ↦
        let e' : some s ≡ some t = ground (arith, lookup-insert id i s f.by_account) in
        let e'' : s ≡ t = cc in
        subst (λ (j : Uuid). IsValid j t) ((==_iff id i).0 same)
          (subst (λ (u : Settings). IsValid id u) e'' valid)
    | inr apart ↦
        let e' : lookup i f.by_account ≡ some t =
          ground (arith, lookup-insert id i s f.by_account) in
        h i t e'
  ]

  pub update-AllValid :
      (format : String) (change : Settings → Settings) (id : Uuid) (v : ℤ) (caller_id : Uuid)
      (f : FakeCreditCardSettingsRepository)
      → ((s : Settings) → IsValid id s → IsValid id (touched caller_id (change s)))
      → AllValid f
      → AllValid (update format change id v caller_id f).1
  update-AllValid format change id v caller_id f keeps h =
      elim (update-state format change id v caller_id f) [
        | inl same ↦ subst AllValid (sym same) h
        | inr (s, found, e) ↦
            subst AllValid (sym e)
              (put-AllValid id (touched caller_id (change s)) f (keeps s (h id s found)) h)
      ]

  pub delete-AllValid :
      (id caller_id : Uuid) (f : FakeCreditCardSettingsRepository)
      → AllValid f
      → AllValid (delete id caller_id f).1
  unfolding delete
  delete-AllValid id caller_id f h = elim (Option-cases f.err) [
    | inr (e, failing) ↦
        let same : (delete id caller_id f).1 ≡ f = rw failing in subst AllValid (sym same) h
    | inl working ↦
        let e : (delete id caller_id f).1 ≡ record f { by_account = GoMap.delete id f.by_account } =
          rw working in
        subst AllValid (sym e) (λ i t there.
          (let e' : lookup i f.by_account ≡ some t =
              ground (arith, lookup-delete id i f.by_account) in
            h i t e'))
  ]

  pub create-AllValid :
      (id : Uuid) (input : CreateInput) (caller_id : Uuid) (f : FakeCreditCardSettingsRepository)
      → account_type id ≡ ok account_type_credit_card
      → IsInRange input
      → AllValid f
      → AllValid (create uuid_new id input caller_id f).1
  unfolding create new_settings store put
  create-AllValid id input caller_id f card in_range h = elim (Option-cases f.err) [
    | inr (e, failing) ↦
        let same : (create uuid_new id input caller_id f).1 ≡ f = rw failing in
        subst AllValid (sym same) h
    | inl working ↦ elim (Bool-cases (contains id f.by_account)) [
      | inl there ↦
          let same : (create uuid_new id input caller_id f).1 ≡ f = rw (working, there) in
          subst AllValid (sym same) h
      | inr free ↦
          let s = new_settings uuid_new id input caller_id f.drawn in
          let e : (create uuid_new id input caller_id f).1 ≡ store uuid_new s f =
            rw (working, free) in
          let (closing, due, limit) = in_range in
          let valid : IsValid id s = (card, closing, due, limit) in
          subst AllValid (sym e) (put-AllValid id s f valid h)
    ]
  ]
