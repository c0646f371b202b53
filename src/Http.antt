-- ===== src/Http.antt =====
-- internal/adapter/http, internal/middleware and internal/platform/ctxutil: requests and
-- responses, and the values that a context carries.
pub mod Wire
pub mod Response
pub mod Bearer
pub mod Guards
pub mod Health
pub mod Users
pub mod Households
pub mod Accounts
pub mod Cards
pub mod Ledgers
pub mod Routes
use pfm_go.Common.{String, Option, none, some}
use pfm_go.Types.{Uuid, Role, uuid_nil}

-- The values under the keys of ctxutil.go.
pub record Context : Type 0 where
  pub user_id : Option Uuid
  pub household_id : Option Uuid
  pub trace_id : Option String
  pub role : Option Role

abbrev pub background : Context
background = record { user_id = none; household_id = none; trace_id = none; role = none }

abbrev pub with_user_id : Context → Uuid → Context
with_user_id ctx id = record ctx { user_id = some id }

abbrev pub with_household_id : Context → Uuid → Context
with_household_id ctx id = record ctx { household_id = some id }

abbrev pub with_trace_id : Context → String → Context
with_trace_id ctx id = record ctx { trace_id = some id }

abbrev pub with_role : Context → Role → Context
with_role ctx role = record ctx { role = some role }

-- `*http.Request`: what the program reads of it.
pub record Request : Type 0 where
  pub method : String
  pub header : String → String
  pub path_value : String → String
  pub query : String → String
  pub body : String
  pub ctx : Context

-- `r.WithContext(ctx)`
abbrev pub with_context : Request → Context → Request
with_context r ctx = record r { ctx = ctx }

-- `callerID, _ := ctxutil.UserID(r.Context())`: the zero UUID if there is none.
unfoldable pub caller_id : Request → Uuid
caller_id r = elim r.ctx.user_id [ none ↦ uuid_nil | some id ↦ id ]
