-- ===== src/Lib.antt =====
-- The core of pfm-go, a program that keeps the finances of households: users form households,
-- a household has accounts, and a ledger records transactions as debits and credits of accounts.
--
-- The domain packages hold the rules (`LedgerLogic`, `AccountLogic`, `HouseholdLogic`,
-- `SettingsLogic` of credit cards); each works over a storage that it knows by an interface, and
-- validates its input with one package of rules. Two storages implement these interfaces: the one
-- in memory that the repository's own tests use, and the one over PostgreSQL. Both are modelled in
-- full, the second over the queries and the driver, which are parameters. The HTTP handlers, with
-- the middleware and the table of routes, call the domain through one interface for each operation.
--
-- Files and code:
--   Common            numbers, lists, signed integers and 64-bit words (no code of the program)
--   Message           internal/message/errors.go: error values, wrapping, `errors.Is`
--   Effect            a call that returns a value and an error and works on a store
--   GoMap             Go maps
--   Types             internal/types
--   Validate          internal/platform/validate: rules and the collection of violations
--   Database          internal/platform/database: the transactor's contract and its double
--   Ledger            internal/domain/ledger/ledger.go; Ledger/Logic: ledger_logic.go;
--                     Ledger/Fake: internal/adapter/postgres/fake_ledger_repo.go
--   Account           internal/domain/account/account.go; Account/Logic: account_logic.go;
--                     Account/Fake: internal/adapter/postgres/fake_account_repo.go
--   Household         internal/domain/household/household.go; Household/Logic:
--                     household_logic.go; Household/Members: member_logic.go, and the
--                     adapter householdUserCreator of cmd/pfm/main.go;
--                     Household/Fake: internal/adapter/postgres/fake_household_repo.go
--   CreditCard        internal/domain/creditcard/settings.go; CreditCard/Logic:
--                     settings_logic.go; CreditCard/Fake:
--                     internal/adapter/postgres/fake_creditcard_settings_repo.go
--   User              internal/domain/user/user.go and the ports of internal/port/auth; User/Logic:
--                     user_logic.go; User/Login: login_logic.go; User/Fake:
--                     internal/adapter/postgres/fake_user_repo.go
--   Auth              internal/adapter/auth/fake_hasher.go, fake_token_service.go and
--                     internal/platform/clock/fake.go; Auth/Session: registration and login together
--   Http              internal/platform/ctxutil; Http/Wire: the bodies of requests and responses;
--                     Http/Response: internal/adapter/http/response.go; Http/Bearer and Http/Guards:
--                     internal/middleware/authn.go and authz.go; Http/Users, Households, Accounts,
--                     Cards, Ledgers and Health: the handlers of internal/adapter/http;
--                     Http/Routes: routes.go
--   Database/Postgres internal/platform/database/transactor.go
--   Postgres          internal/adapter/postgres/user_repo.go, household_repo.go, account_repo.go,
--                     creditcard_settings_repo.go and ledger_repo.go, in the files below it
--   Money             internal/platform/money: arithmetic.go, split.go, currency.go
--   Tests             runs at concrete inputs
-- The files below a component's file prove what they are named for: Ledger/Fake/Books is about
-- balances and entries, Household/Fake/Admins about the admins of a household.
--
-- A Go function with an error result is a function from a store to a result and a store. The
-- result is a value, an error or a runtime panic; what was written before an error stays written.
-- A repository interface is a record of such functions, and a logic takes one as a parameter, so
-- that its theorems hold over any storage; those under Fake are about the storage in memory.
-- Operations keep the source's names in snake case: `LedgerLogic.PostTransaction` is
-- Ledger/Logic `post_transaction`, `FakeLedgerRepository.PostTransaction` is Ledger/Fake
-- `post_transaction`.
--
-- Integers of type int and int64 are integers of unbounded size whose additions wrap around at 64
-- bits (`add64`, `sub64`). A map is a list of keys and values; the loops over maps and lists are
-- recursions on lists and need no fuel. Ids are numbers, since the program only compares them;
-- `uuid.New` draws from a sequence that is a parameter, and a field counts the draws.
-- `strings.ToLower` and `UUID.String` are parameters too. Times are numbers of one unit.
--
-- A handler is a function from a request to such a call whose result is a response: its status, its
-- headers and the value whose JSON is the body. What the handlers use of the packages that decode
-- bodies and parse and print identifiers, times and numbers is one record, `Codec`, a parameter. A
-- service interface has one method and is that function. The list of routes pairs the patterns with
-- the handlers and the middleware around them, as `RegisterRoutes` does.
--
-- Not modelled: locks (each operation of the storage holds its lock from start to end), contexts
-- but for their values, the check that the doubles run in a test binary, times that the database
-- sets, the queries that sqlc generates (the Postgres storage takes them as parameters, and its
-- theorems name what their SQL does as hypotheses), transactions of several sessions at once, a
-- commit of which the driver cannot tell whether it took place, how the multiplexer matches a path,
-- JSON, the hasher and the tokens of production, which call cryptographic packages, configuration,
-- logging, and the programs under cmd but for one adapter. The formatting and parsing of amounts is
-- not modelled either.
pub mod Common
pub mod Message
pub mod Effect
pub mod GoMap
pub mod Types
pub mod User
pub mod Auth
pub mod Http
pub mod Postgres
pub mod Validate
pub mod Database
pub mod Ledger
pub mod Account
pub mod Household
pub mod CreditCard
pub mod Money
pub mod Tests
