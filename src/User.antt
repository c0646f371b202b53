-- ===== src/User.antt =====
-- internal/domain/user/user.go: users, the contract of their storage, and the contracts of
-- internal/port/auth.
pub mod Logic
pub mod Login
pub mod Fake
use pfm_go.Common.{String, Bool}
use pfm_go.Common.Int.{ℤ}
use pfm_go.Types.{Uuid, Time}
use pfm_go.Effect.{Action}

pub record User : Type 0 where
  pub id : Uuid
  pub email : String
  pub display_name : String
  pub password_hash : String
  pub version : ℤ
  pub created_at : Time
  pub updated_at : Time
  pub created_by : Uuid
  pub updated_by : Uuid

pub record RegisterInput : Type 0 where
  pub email : String
  pub display_name : String
  pub password : String

pub record UpdateProfileInput : Type 0 where
  pub display_name : String

pub record ChangePasswordInput : Type 0 where
  pub old_password : String
  pub new_password : String

pub record LoginResult : Type 0 where
  pub token : String
  pub expires_at : Time

-- `Repository`: `UserReader` and `UserWriter`
pub record Repository (S : Type 0) : Type 0 where
  pub find_by_id : Uuid → Action S User
  pub find_by_email : String → Action S User
  pub create : RegisterInput → String → Uuid → Action S User
  pub update_profile : Uuid → UpdateProfileInput → ℤ → Uuid → Action S User
  pub change_password : Uuid → String → ℤ → Uuid → Action S User
  pub deactivate : Uuid → Uuid → Action S (Unit {0})

-- `auth.PasswordHasher`
pub record PasswordHasher (S : Type 0) : Type 0 where
  pub hash : String → Action S String
  pub verify : String → String → Action S Bool

-- `auth.TokenService`
pub record TokenService (S : Type 0) : Type 0 where
  pub issue : Uuid → Time → Action S String
  pub validate : String → Action S Uuid

-- `clock.Clock`
pub record Clock (S : Type 0) : Type 0 where
  pub now : Action S Time
