-- ===== src/Tests/Users.antt =====
-- internal/domain/user, internal/adapter/postgres/fake_user_repo.go and internal/adapter/auth at
-- concrete inputs.
use pfm_go.Common.{
  ℕ, ◌+◌, String, true, false, ◌≡◌, ◌≢◌, ◌⊎◌, ◌==◌, if◌then◌else◌, refl, ◌↔◌, none, some, nat_eq,
  string_eq, [],
}
use pfm_go.Common.Int.{pos}
use pfm_go.Types.{Uuid}
use pfm_go.Effect.{ok, err}
use pfm_go.GoMap.{lookup, contains, insert}
use pfm_go.Validate.{check, field, required, min_len, max_len}
use pfm_go.User.{User, RegisterInput, ChangePasswordInput}
use pfm_go.User.Logic
use pfm_go.User.Login.{login}
use pfm_go.User.Fake.{
  FakeUserRepository, new_fake_user_repository, new_user, create, find_by_id, find_by_email,
}
use pfm_go.User.Fake.Reach.{Reachable, Step, finders_agree, Reachable-emails_are_unique}
use pfm_go.User.Fake.Passwords
use pfm_go.User.Fake.Passwords.{next_user, version_conflict, change_password-Changes}
use pfm_go.User.Logic.Ends.{change_error}
use pfm_go.Message.{sentinel, Sentinel}
use pfm_go.Auth.{
  FakeTokenService, new_fake_token_service, new_fake_clock, fake_hasher, fake_hash, fake_verify,
  issue, validate, advance, service_now, clock_now, store_token,
}
use pfm_go.Auth.Hasher.{fake_verify-fake_hash}
use pfm_go.Auth.Tokens.{answer, issue-validate}
use pfm_go.Auth.Session.{World, repo, tokens, clk, register-login, on_users, on_service}

abbrev id_of : ℕ → Uuid
id_of n = n + 100

abbrev lower : String → String
lower email = email

abbrev shown : ℕ → String
shown _ = "id"

abbrev start : FakeUserRepository
start = new_fake_user_repository

abbrev ann_input : RegisterInput
ann_input = record { email = "ann@pfm.org"; display_name = "Ann"; password = "long enough" }

abbrev ann : User
ann = new_user id_of lower ann_input "fake:long enough" 3 0

abbrev created : FakeUserRepository
created = (create id_of lower ann_input "fake:long enough" 3 start).1

created_reached : Reachable id_of lower created
unfolding lookup
created_reached =
    Reachable.continues Reachable.initial (Step.creates ann_input "fake:long enough" 3 start refl)

no_error : created.err ≡ none
unfolding create lookup insert contains
no_error = refl

ann_stored : lookup 100 created.by_id ≡ some ann
unfolding create lookup insert contains
ann_stored = refl

finders_agree_example :
    (find_by_id 100 created ≡ (ok ann, created))
    ↔ (find_by_email id_of lower "ann@pfm.org" created ≡ (ok ann, created))
unfolding new_user
finders_agree_example = finders_agree id_of lower created created_reached no_error ann

Reachable-emails_are_unique_example : (ann.id ≡ ann.id) × (ann ≡ ann)
unfolding new_user
Reachable-emails_are_unique_example =
    Reachable-emails_are_unique id_of lower created created_reached ann.id ann.id ann ann ann_stored
      ann_stored refl

abbrev new_passwords : ChangePasswordInput
new_passwords = record { old_password = "long enough"; new_password = "even longer" }

passwords_pass : Logic.passwords_result new_passwords ≡ []
unfolding field required min_len
passwords_pass = refl

old_is_right : fake_verify "long enough" "fake:long enough" created ≡ (ok true, created)
unfolding fake_verify
old_is_right = refl

new_is_hashed : fake_hash "even longer" created ≡ (ok "fake:even longer", created)
unfolding fake_hash check field required max_len
new_is_hashed = refl

abbrev changed_ann : User
changed_ann = next_user id_of lower "fake:even longer" 3 ann

change_password-Changes_example :
    let r =
      Logic.change_password
        (Passwords.repo id_of lower)
        fake_hasher
        100
        new_passwords
        (pos 1)
        3
        created in
    ((true ≡ false)
      × (r ≡ (err (change_error (sentinel Sentinel.login_invalid_credentials)), created)))
    ⊎ ((true ≡ true) × (ann.version ≢ pos 1) × (r ≡ (err (version_conflict id_of lower), created)))
    ⊎ ((true ≡ true)
        × (ann.version ≡ pos 1)
        × (r.0 ≡ ok changed_ann)
        × ((i : Uuid)
            → lookup i r.1.by_id ≡ (if 100 == i then some changed_ann else lookup i created.by_id))
        × ((e : String)
            → lookup e r.1.by_email
              ≡ (if lower ann.email == e then some changed_ann else lookup e created.by_email)))
unfolding new_user
change_password-Changes_example =
    change_password-Changes id_of lower fake_hasher 100 new_passwords (pos 1) 3 created ann true
      "fake:even longer" no_error ann_stored passwords_pass old_is_right new_is_hashed

abbrev noon : FakeTokenService
noon = new_fake_token_service (new_fake_clock 1000)

abbrev issued : FakeTokenService
issued = (issue shown 100 1500 noon).1

abbrev later : FakeTokenService
later = record issued { clk = advance 501 issued.clk }

issue-validate_example : (validate "fake-id" later).0 ≡ answer 100 1500 1501
unfolding issue store_token advance
issue-validate_example = issue-validate shown 100 1500 "fake-id" noon issued later refl refl refl

abbrev world : World
world = record { users = start; service = noon }

abbrev joined : World
joined = record { users = created; service = noon }

ann_registers :
    Logic.register (repo id_of lower shown) fake_hasher ann_input 3 world ≡ (ok ann, joined)
unfolding Logic.register check field required min_len max_len fake_hash on_users create contains
    lookup insert
ann_registers = refl

abbrev ann_logs_in : FakeTokenService
ann_logs_in =
    (login (repo id_of lower shown) fake_hasher (tokens id_of lower shown) (clk id_of lower shown)
      500 "ann@pfm.org" "long enough" joined).1.service

ready : ann_logs_in.clk.initialized ≡ true
unfolding login on_users on_service find_by_email lookup create contains insert fake_verify issue
    service_now clock_now store_token
ready = refl

register-login_example :
    (token : String) × ((login
        (repo id_of lower shown)
        fake_hasher
        (tokens id_of lower shown)
        (clk id_of lower shown)
        500
        "ann@pfm.org"
        "long enough"
        joined).0
      ≡ ok (record { token = token; expires_at = 1500 }))
    × ((validate token ann_logs_in).0 ≡ answer ann.id 1500 ann_logs_in.clk.now)
register-login_example =
    register-login id_of lower shown fake_hasher fake_verify-fake_hash 500 ann_input 3 ann world
      joined joined "ann@pfm.org" ann_registers refl refl refl ann_logs_in refl ready
