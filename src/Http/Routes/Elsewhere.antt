-- ===== src/Http/Routes/Elsewhere.antt =====
-- internal/adapter/http/account.go behind its guard: the guard looks at the household of the
-- path, and the handler only at the account.
use pfm_go.Common.{String, false, ◌≡◌, refl, ◌∙◌, some, arith}
use pfm_go.Types.{Uuid}
use pfm_go.Effect.{ok}
use pfm_go.Household.{Membership}
use pfm_go.Account.{Account}
use pfm_go.Http.{Request, with_user_id, with_household_id, with_role, with_context, caller_id}
use pfm_go.Http.Wire.{Body, Codec, UpdateAccountBalanceRequest}
use pfm_go.Http.Response.{or_reply, with_path_id, with_body, answer, max_request_body_bytes}
use pfm_go.Http.Bearer.{extract_bearer}
use pfm_go.Http.Guards.{household_guard}
use pfm_go.Http.Guards.Outcomes.{authn-next, checked_guard-next}
use pfm_go.Http.Accounts.{show_account, update_account_balance_handler}
use pfm_go.Http.Routes.{RouteDeps, guarded}
use pfm_go.Http.Routes.Scopes.{member_only}

module _ (codec : Codec) {S : Type 0} (d : RouteDeps S) where
  update_account_balance_handler-show :
      (r : Request) (account_id : Uuid) (req : UpdateAccountBalanceRequest) (a : Account) (s s' : S)
      → codec.parse_uuid (r.path_value "id") ≡ some account_id
      → codec.decode max_request_body_bytes Body.update_account_balance r.body ≡ some req
      → d.update_account_balance account_id
          (record { balance = req.balance })
          req.version
          (caller_id r)
          s
        ≡ (ok a, s')
      → update_account_balance_handler codec d.update_account_balance r s
        ≡ (ok (show_account codec a), s')
  unfolding update_account_balance_handler with_path_id with_body or_reply answer
  update_account_balance_handler-show r account_id req a s s' named decoded updated = ground arith

  -- Whoever is a member of some household sets the balance of any account: a request whose token
  -- validates for a member of the household in the path passes the guard, and the handler hands
  -- the account in the path to the service. No condition relates the account to the household.
  pub members_reach_any_account :
      (r : Request) (token : String) (user_id household_id account_id : Uuid) (m : Membership)
      (req : UpdateAccountBalanceRequest) (a : Account) (s s' s'' s''' : S)
      → extract_bearer r ≡ some token
      → d.validate token s ≡ (ok user_id, s')
      → codec.parse_uuid (r.path_value "household_id") ≡ some household_id
      → d.find_membership household_id user_id s' ≡ (ok m, s'')
      → codec.parse_uuid (r.path_value "id") ≡ some account_id
      → codec.decode max_request_body_bytes Body.update_account_balance r.body ≡ some req
      → d.update_account_balance account_id
          (record { balance = req.balance })
          req.version
          user_id
          s''
        ≡ (ok a, s''')
      → guarded codec d (update_account_balance_handler codec d.update_account_balance) r s
        ≡ (ok (show_account codec a), s''')
  unfolding guarded household_guard caller_id
  members_reach_any_account r token user_id household_id account_id m req a s s' s'' s''' there
        valid path member named decoded updated =
      let q : Request = with_context r (with_user_id r.ctx user_id) in
      let q' : Request = with_context q (with_role (with_household_id q.ctx household_id) m.role) in
      let handler = update_account_balance_handler codec d.update_account_balance in
      authn-next d.validate (member_only codec d handler) r s token user_id s' there valid
      ∙ checked_guard-next codec d.find_membership "household_id" false handler r s' s'' user_id
          household_id path m member refl
      ∙ update_account_balance_handler-show q' account_id req a s'' s''' named decoded updated
