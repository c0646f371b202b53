-- ===== src/Http/Households.antt =====
-- internal/adapter/http/household.go: the handlers of households and their members.
use Prim.Native.String
use pfm_go.Common.{List, map}
use pfm_go.Common.Int.{ℤ}
use pfm_go.Types.{Uuid}
use pfm_go.Message.{msg_bad_request_body}
use pfm_go.Effect.{Action}
use pfm_go.Household.{
  Household, Membership, CreateInput, UpdateNameInput, AddMemberInput, NewUserInput, CreatedMember,
}
use pfm_go.Http.{caller_id}
use pfm_go.Http.Wire.{
  Body, Codec, Payload, HouseholdResponse, MembershipResponse, CreatedHouseholdUserResponse,
}
use pfm_go.Http.Response.{
  Response, Handler, write_json, write_created, write_no_content, bad_request, or_reply,
  with_path_id, with_body, answer,
}
use pfm_go.Http.Users.{credentials_result, or_violations}

module _ (codec : Codec) where
  unfoldable to_household_response : Household → HouseholdResponse
  to_household_response h = record {
    id = codec.uuid_string h.id;
    name = h.name;
    status = h.status;
    version = h.version;
    created_at = codec.rfc3339 h.created_at;
    updated_at = codec.rfc3339 h.updated_at;
  }

  unfoldable to_membership_response : Membership → MembershipResponse
  to_membership_response m = record {
    household_id = codec.uuid_string m.household_id;
    user_id = codec.uuid_string m.user_id;
    role = m.role;
    invited_by = codec.uuid_string m.invited_by;
    joined_at = codec.rfc3339 m.joined_at;
  }

  unfoldable show_household : Household → Response
  unfolding to_household_response write_json
  show_household h = write_json 200 (Payload.household (to_household_response h))

  unfoldable show_households : List Household → Response
  unfolding to_household_response write_json
  show_households hs = write_json 200 (Payload.households (map to_household_response hs))

  unfoldable created_household : Household → Response
  unfolding to_household_response write_created
  created_household h =
      write_created (String.◌++◌ "/api/v1/households/" (codec.uuid_string h.id))
        (Payload.household (to_household_response h))

  unfoldable pub created_membership : Membership → Response
  unfolding to_membership_response write_created
  created_membership m = write_created "" (Payload.membership (to_membership_response m))

  unfoldable pub created_household_user : CreatedMember → Response
  unfolding write_created
  created_household_user created =
      let shown : CreatedHouseholdUserResponse = record {
        id = codec.uuid_string created.user.id;
        email = created.user.email;
        display_name = created.user.display_name;
      } in
      write_created (String.◌++◌ "/api/v1/users/" (codec.uuid_string created.user.id))
        (Payload.created_user shown)

  module _ {S : Type 0} where
    unfoldable pub create_household_handler : (CreateInput → Uuid → Action S Household) → Handler S
    unfolding with_body answer caller_id created_household
    create_household_handler create r =
        with_body codec Body.create_household r
          λ req. answer codec (create (record { name = req.name }) (caller_id r)) created_household

    unfoldable pub get_household_handler : (Uuid → Action S Household) → Handler S
    unfolding with_path_id answer show_household
    get_household_handler find_by_id r =
        with_path_id codec "household_id" r λ id. answer codec (find_by_id id) show_household

    unfoldable pub list_households_handler : (Uuid → Action S (List Household)) → Handler S
    unfolding answer caller_id show_households
    list_households_handler list_for_user r =
        answer codec (list_for_user (caller_id r)) show_households

    unfoldable pub add_member_handler :
        (Uuid → AddMemberInput → Uuid → Action S Membership) → Handler S
    unfolding with_path_id with_body or_reply bad_request answer caller_id created_membership
    add_member_handler add_member r = with_path_id codec "household_id" r λ household_id.
        with_body codec Body.add_member r λ req.
          or_reply codec (codec.parse_uuid req.user_id) (bad_request msg_bad_request_body)
            λ user_id.
              answer codec
                (add_member household_id (record { user_id = user_id; role = req.role })
                  (caller_id r))
                created_membership

    unfoldable pub remove_member_handler : (Uuid → Uuid → Uuid → Action S (Unit {0})) → Handler S
    unfolding with_path_id answer caller_id
    remove_member_handler remove_member r = with_path_id codec "household_id" r λ household_id.
        with_path_id codec "user_id" r λ user_id.
          answer codec (remove_member household_id user_id (caller_id r)) (λ _. write_no_content)

    unfoldable pub update_household_name_handler :
        (Uuid → UpdateNameInput → ℤ → Uuid → Action S Household) → Handler S
    unfolding with_path_id with_body answer caller_id show_household
    update_household_name_handler update_name r = with_path_id codec "household_id" r λ id.
        with_body codec Body.update_name r λ req.
          answer codec (update_name id (record { name = req.name }) req.version (caller_id r))
            show_household

    unfoldable pub create_household_user_handler :
        (Uuid → NewUserInput → Uuid → Action S CreatedMember) → Handler S
    unfolding with_path_id with_body or_violations answer caller_id created_household_user
    create_household_user_handler create_household_user r =
        with_path_id codec "household_id" r λ household_id.
          with_body codec Body.create_household_user r λ req.
            let input : NewUserInput = record {
              email = req.email;
              display_name = req.display_name;
              password = req.password;
            } in
            let call =
              answer codec (create_household_user household_id input (caller_id r))
                created_household_user in
            or_violations codec (credentials_result codec req.email req.password) call call

    unfoldable pub deactivate_household_handler : (Uuid → Uuid → Action S (Unit {0})) → Handler S
    unfolding with_path_id answer caller_id
    deactivate_household_handler deactivate r =
        with_path_id codec "household_id" r
          λ id. answer codec (deactivate id (caller_id r)) (λ _. write_no_content)
