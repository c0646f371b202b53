-- ===== src/Tests/Cards.antt =====
-- internal/domain/creditcard and internal/adapter/postgres/fake_creditcard_settings_repo.go at
-- concrete inputs.
use pfm_go.Common.{ℕ, ◌+◌, ◌≡◌, refl, some, nat_eq}
use pfm_go.Common.Int.{pos}
use pfm_go.Types.{Uuid, AccountType, account_type_credit_card}
use pfm_go.Effect.{Result, ok}
use pfm_go.GoMap.{lookup, contains, insert}
use pfm_go.Validate.{check, field, range, non_negative}
use pfm_go.CreditCard.{CreateInput}
use pfm_go.CreditCard.Logic
use pfm_go.CreditCard.Fake.{
  FakeCreditCardSettingsRepository, new_fake_credit_card_settings_repository, create, new_settings,
}
use pfm_go.CreditCard.Fake.Ranges.{accounts, IsValid}
use pfm_go.CreditCard.Fake.Reach.{repo, Reachable, Step, settings-IsValid}

abbrev id_of : ℕ → Uuid
id_of n = n + 100

-- Every account is a credit card.
abbrev all_cards : Uuid → Result AccountType
all_cards _ = ok account_type_credit_card

abbrev start : FakeCreditCardSettingsRepository
start = new_fake_credit_card_settings_repository

abbrev input : CreateInput
input = record { closing_day = pos 5; due_day = pos 15; limit_amount = pos 100000 }

abbrev created : FakeCreditCardSettingsRepository
created = (Logic.create (repo id_of all_cards) (accounts id_of all_cards) 7 input 3 start).1

created_reached : Reachable id_of all_cards created
created_reached = Reachable.continues Reachable.initial (Step.creates 7 input 3 start)

settings_stored : lookup 7 created.by_account ≡ some (new_settings id_of 7 input 3 0)
unfolding Logic.create check field range non_negative create lookup contains insert
settings_stored = refl

settings-IsValid_example : IsValid id_of all_cards 7 (new_settings id_of 7 input 3 0)
settings-IsValid_example =
    settings-IsValid id_of all_cards created created_reached 7 (new_settings id_of 7 input 3 0)
      settings_stored
