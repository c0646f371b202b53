-- ===== src/CreditCard/Fake/Reach.antt =====
-- The states of the settings' storage in memory that calls of `SettingsLogic` reach.
use pfm_go.Common.{ℕ, ◌≡◌, refl, sym, subst, inl, inr, some, nat_eq}
use pfm_go.Common.Int.{ℤ}
use pfm_go.Types.{Uuid, AccountType}
use pfm_go.Effect.{Result}
use pfm_go.GoMap.{lookup}
use pfm_go.CreditCard.{
  Settings, CreateInput, UpdateClosingDayInput, UpdateDueDayInput, UpdateLimitInput, Repository,
}
use pfm_go.CreditCard.Logic
use pfm_go.CreditCard.Logic.Checks.{
  update_closing_day-cases, update_due_day-cases, update_limit-cases, delete-state, create-cases,
}
use pfm_go.CreditCard.Fake.{
  FakeCreditCardSettingsRepository, new_fake_credit_card_settings_repository, touched,
  with_closing_day, with_due_day, with_limit, update_closing_day, update_due_day, update_limit,
  fake_credit_card_settings_repository,
}
use pfm_go.CreditCard.Fake.Ranges.{
  accounts, IsValid, AllValid, update-AllValid, delete-AllValid, create-AllValid,
}

module _ (uuid_new : ℕ → Uuid) (account_type : Uuid → Result AccountType) where
  abbrev pub repo : Repository FakeCreditCardSettingsRepository
  repo = fake_credit_card_settings_repository uuid_new

  -- One call of `SettingsLogic` that may write.
  pub data Step : FakeCreditCardSettingsRepository → FakeCreditCardSettingsRepository → Type 0 where
    creates :
        (id : Uuid) (input : CreateInput) (caller_id : Uuid) (f : FakeCreditCardSettingsRepository)
        → Step f (Logic.create repo (accounts uuid_new account_type) id input caller_id f).1
    sets_closing_day :
        (id : Uuid) (input : UpdateClosingDayInput) (v : ℤ) (caller_id : Uuid)
        (f : FakeCreditCardSettingsRepository)
        → Step f (Logic.update_closing_day repo id input v caller_id f).1
    sets_due_day :
        (id : Uuid) (input : UpdateDueDayInput) (v : ℤ) (caller_id : Uuid)
        (f : FakeCreditCardSettingsRepository)
        → Step f (Logic.update_due_day repo id input v caller_id f).1
    sets_limit :
        (id : Uuid) (input : UpdateLimitInput) (v : ℤ) (caller_id : Uuid)
        (f : FakeCreditCardSettingsRepository)
        → Step f (Logic.update_limit repo id input v caller_id f).1
    deletes :
        (id caller_id : Uuid) (f : FakeCreditCardSettingsRepository)
        → Step f (Logic.delete repo id caller_id f).1

  pub data Reachable : FakeCreditCardSettingsRepository → Type 0 where
    initial : Reachable new_fake_credit_card_settings_repository
    continues : {f f' : FakeCreditCardSettingsRepository} → Reachable f → Step f f' → Reachable f'

  abbrev Valid : FakeCreditCardSettingsRepository → Type 0
  Valid = AllValid uuid_new account_type

  Step-AllValid : (f f' : FakeCreditCardSettingsRepository) → Step f f' → Valid f → Valid f'
  unfolding update_closing_day update_due_day update_limit touched
  Step-AllValid _ _ (creates id input caller_id f) h =
      elim (create-cases repo f (accounts uuid_new account_type) id input caller_id refl) [
        | inl same ↦ subst Valid (sym same) h
        | inr (card, in_range, e) ↦
            subst Valid (sym e)
              (create-AllValid uuid_new account_type id input caller_id f card in_range h)
      ]
  Step-AllValid _ _ (sets_closing_day id input v caller_id f) h =
      elim (update_closing_day-cases repo f id input v caller_id) [
        | inl same ↦ subst Valid (sym same) h
        | inr (day, e) ↦ subst Valid (sym e) (
            update-AllValid uuid_new account_type _ (with_closing_day input) id v caller_id f
              (λ s (card, _, due, limit). (card, day, due, limit)) h)
      ]
  Step-AllValid _ _ (sets_due_day id input v caller_id f) h =
      elim (update_due_day-cases repo f id input v caller_id) [
        | inl same ↦ subst Valid (sym same) h
        | inr (day, e) ↦ subst Valid (sym e) (
            update-AllValid uuid_new account_type _ (with_due_day input) id v caller_id f
              (λ s (card, closing, _, limit). (card, closing, day, limit)) h)
      ]
  Step-AllValid _ _ (sets_limit id input v caller_id f) h =
      elim (update_limit-cases repo f id input v caller_id) [
        | inl same ↦ subst Valid (sym same) h
        | inr (limit, e) ↦ subst Valid (sym e) (
            update-AllValid uuid_new account_type _ (with_limit input) id v caller_id f
              (λ s (card, closing, due, _). (card, closing, due, limit)) h)
      ]
  Step-AllValid _ _ (deletes id caller_id f) h =
      subst Valid (sym (delete-state repo f id caller_id))
        (delete-AllValid uuid_new account_type id caller_id f h)

  Reachable-AllValid : (f : FakeCreditCardSettingsRepository) → Reachable f → Valid f
  unfolding lookup
  Reachable-AllValid _ initial = λ i s e. cc
  Reachable-AllValid f (continues before step) =
      Step-AllValid _ f step (Reachable-AllValid _ before)

  -- In every state that calls of `SettingsLogic` reach from the empty storage, settings stand only
  -- under accounts whose type is answered to be a credit card, their two days are from 1 to 31, and
  -- their limit is not negative.
  pub settings-IsValid :
      (f : FakeCreditCardSettingsRepository)
      → Reachable f
      → (id : Uuid) (s : Settings) → lookup id f.by_account ≡ some s
      → IsValid uuid_new account_type id s
  settings-IsValid f reached = Reachable-AllValid f reached
