-- ===== src/Postgres.antt =====
-- internal/adapter/postgres: what the storages over PostgreSQL share, in user_repo.go and
-- ledger_repo.go. The queries, which sqlc generates, are parameters, and so are the errors of the
-- driver.
pub mod Users
pub mod Households
pub mod Accounts
pub mod Settings
pub mod Ledgers
pub mod Versions
pub mod Outcomes
use pfm_go.Common.{
  ℕ, ◌+◌, ◌-◌, ◌%◌, ◌^◌, ltb, String, Bool, false, ◌&&◌, Option, none, some, ◌==◌, nat_eq,
  string_eq, if◌then◌else◌,
}
use pfm_go.Common.Int.{ℤ, pos, negsuc}
use pfm_go.Types.{Uuid, Time, uuid_nil, zero_time}
use pfm_go.Message.{Error, Sentinel, sentinel, wrapped}
use pfm_go.Effect.{Action, fail, on_error}

-- `*pgconn.PgError`
pub record PgError : Type 0 where
  pub code : String
  pub constraint_name : String

-- `errors.Is(err, pgx.ErrNoRows)`, and `errors.As(err, &pgErr)`.
pub record DriverErrors : Type 0 where
  pub is_no_rows : Error → Bool
  pub as_pg_error : Error → Option PgError

-- A nullable column is an option.
unfoldable pub uuid_to_pg_uuid : Uuid → Option Uuid
uuid_to_pg_uuid id = if id == uuid_nil then none else some id

unfoldable pub pg_uuid_to_uuid : Option Uuid → Uuid
pg_uuid_to_uuid none = uuid_nil
pg_uuid_to_uuid (some id) = id

unfoldable pub pg_timestamptz_to_time : Option Time → Time
pg_timestamptz_to_time none = zero_time
pg_timestamptz_to_time (some t) = t

unfoldable pub pg_date_to_time : Option Time → Time
pg_date_to_time none = zero_time
pg_date_to_time (some t) = t

unfoldable pub time_to_pg_date : Time → Option Time
time_to_pg_date t = some t

-- The conversion `int32(n)`: the 32 low bits, in two's complement.
abbrev low_bits : ℤ → ℕ
low_bits (pos n) = n % 2 ^ 32
low_bits (negsuc n) = 2 ^ 32 - 1 - n % 2 ^ 32

unfoldable pub int32 : ℤ → ℤ
int32 n = let b = low_bits n in if ltb b (2 ^ 31) then pos b else negsuc (2 ^ 32 - 1 - b)

module _ (errors : DriverErrors) where
  unfoldable pub is_unique_violation : Error → String → Bool
  is_unique_violation e constraint_name = elim (errors.as_pg_error e) [
    | none ↦ false
    | some pg ↦ pg.code == "23505" && pg.constraint_name == constraint_name
  ]

  module _ {S A : Type 0} where
    -- The error of a query that found no row is reported as the given one.
    unfoldable pub or_no_rows : String → Sentinel → Action S A → Action S A
    or_no_rows format s query = on_error query λ e.
        if errors.is_no_rows e then fail (wrapped format (sentinel s)) else fail (wrapped format e)

    -- The violation of a unique index is reported as the given error.
    unfoldable pub or_violation : String → String → Sentinel → Action S A → Action S A
    unfolding is_unique_violation
    or_violation format constraint_name s query = on_error query λ e.
        if is_unique_violation e constraint_name
        then fail (wrapped format (sentinel s))
        else fail (wrapped format e)
