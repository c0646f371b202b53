-- ===== src/Household.antt =====
-- internal/domain/household/household.go: the data of the household domain and the contract of
-- its storage.
pub mod Logic
pub mod Members
pub mod Fake
use pfm_go.Common.{String, List}
use pfm_go.Common.Int.{ℤ}
use pfm_go.Types.{Uuid, Time, Role, Status}
use pfm_go.Effect.{Action}

pub record Household : Type 0 where
  pub id : Uuid
  pub name : String
  pub status : Status
  pub version : ℤ
  pub created_at : Time
  pub updated_at : Time
  pub created_by : Uuid
  pub updated_by : Uuid

pub record Membership : Type 0 where
  pub household_id : Uuid
  pub user_id : Uuid
  pub role : Role
  pub invited_by : Uuid
  pub joined_at : Time

pub record CreateInput : Type 0 where
  pub name : String

pub record UpdateNameInput : Type 0 where
  pub name : String

pub record AddMemberInput : Type 0 where
  pub user_id : Uuid
  pub role : Role

-- `Repository`: `HouseholdReader` and `HouseholdWriter`
pub record Repository (S : Type 0) : Type 0 where
  pub find_by_id : Uuid → Action S Household
  pub list_for_user : Uuid → Action S (List Household)
  pub find_membership : Uuid → Uuid → Action S Membership
  pub list_members : Uuid → Action S (List Membership)
  pub create : CreateInput → Uuid → Action S Household
  pub add_member : Uuid → AddMemberInput → Uuid → Action S Membership
  pub remove_member : Uuid → Uuid → Uuid → Action S (Unit {0})
  pub update_name : Uuid → UpdateNameInput → ℤ → Uuid → Action S Household
  pub deactivate : Uuid → Uuid → Action S (Unit {0})

pub record NewUserInput : Type 0 where
  pub email : String
  pub display_name : String
  pub password : String

pub record CreatedUser : Type 0 where
  pub id : Uuid
  pub email : String
  pub display_name : String

pub record CreatedMember : Type 0 where
  pub user : CreatedUser
  pub membership : Membership

-- `userCreator`
pub record UserCreator (S : Type 0) : Type 0 where
  pub create : NewUserInput → Uuid → Action S CreatedUser
