-- ===== src/Tests/Accounts.antt =====
-- internal/domain/account and internal/adapter/postgres/fake_account_repo.go at concrete inputs.
use pfm_go.Common.{ℕ, ◌+◌, String, ◌≡◌, refl, none, some, nat_eq, string_eq}
use pfm_go.Common.Int.{pos, ◌+ℤ◌}
use pfm_go.Common.Int64.{add64}
use pfm_go.Types.{Uuid}
use pfm_go.Effect.{Result, ok}
use pfm_go.GoMap.{lookup, contains, insert}
use pfm_go.Account.{Account, CreateInput, UpdateBalanceInput}
use pfm_go.Account.Logic
use pfm_go.Account.Fake.{
  FakeAccountRepository, new_fake_account_repository, create, new_account, update_balance,
  update_name, with_balance, fake_account_repository,
}
use pfm_go.Account.Fake.Versions.{balance_conflict, name_conflict, second_writer_fails}
use pfm_go.Account.Fake.Closing.{Closes, deactivate-Closes}
use pfm_go.Account.Fake.Reach.{Reachable, Step, Reachable-names_are_unique}

abbrev id_of : ℕ → Uuid
id_of n = n + 100

abbrev shown : Uuid → String
shown _ = "id"

abbrev lower : String → String
lower name = name

abbrev start : FakeAccountRepository
start = new_fake_account_repository

abbrev wallet_input : CreateInput
wallet_input = record { name = "Wallet"; account_type = "CHECKING"; currency_code = "USD" }

abbrev created : FakeAccountRepository
created = (create id_of shown lower 7 wallet_input 3 start).1

abbrev wallet : Account
wallet = new_account id_of shown lower 7 wallet_input 3 0

created_reached : Reachable id_of shown lower created
unfolding lookup
created_reached = Reachable.continues Reachable.initial (Step.creates 7 wallet_input 3 start refl)

wallet_stored : lookup 100 created.by_id ≡ some wallet
unfolding create lookup insert contains
wallet_stored = refl

Reachable-names_are_unique_example : wallet.id ≡ wallet.id
unfolding new_account
Reachable-names_are_unique_example =
    Reachable-names_are_unique id_of shown lower created created_reached wallet.id wallet.id wallet
      wallet wallet_stored wallet_stored refl refl

abbrev deposit : UpdateBalanceInput
deposit = record { balance = pos 500 }

abbrev deposited : FakeAccountRepository
deposited = (update_balance 100 deposit (pos 1) 3 created).1

deposit_succeeds :
    update_balance 100 deposit (pos 1) 3 created ≡ (ok (with_balance deposit 3 wallet), deposited)
unfolding create update_balance lookup insert contains add64 ◌+ℤ◌
deposit_succeeds = refl

second_writer_fails_example :
    (update_balance 100 deposit (pos 1) 4 deposited ≡ (Result.err balance_conflict, deposited))
    × (update_name id_of shown lower 100 (record { name = "Purse" }) (pos 1) 4 deposited
        ≡ (Result.err name_conflict, deposited))
second_writer_fails_example =
    second_writer_fails id_of shown lower 100 deposit (pos 1) 3 created
      (with_balance deposit 3 wallet) deposited deposit_succeeds deposit (record { name = "Purse" })
      4

created_works : created.err ≡ none
unfolding create lookup contains
created_works = refl

deactivate-Closes_example :
    Closes 100 created (Logic.deactivate (fake_account_repository id_of shown lower) 100 3 created)
deactivate-Closes_example = deactivate-Closes id_of shown lower 100 3 created created_works
