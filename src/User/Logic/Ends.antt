-- ===== src/User/Logic/Ends.antt =====
-- internal/domain/user/user_logic.go: how registrations and changes of passwords end, over any
-- storage and hasher.
use pfm_go.Common.{String, true, false, ◌≡◌, [], inl, inr, Bool-cases, arith}
use pfm_go.Common.Int.{ℤ}
use pfm_go.Types.{Uuid}
use pfm_go.Message.{Error, sentinel, wrapped, Sentinel, is}
use pfm_go.Effect.{ok, err, Result-cases}
use pfm_go.Validate.Collects.{check_pass, check_fail, nil-cases}
use pfm_go.User.{User, RegisterInput, ChangePasswordInput, Repository, PasswordHasher}
use pfm_go.User.Logic.{register_result, register, passwords_result, change_password}

abbrev pub change_error : Error → Error
change_error e = wrapped "user logic: change password: %w" e

module _ {S : Type 0} (repo : Repository S) (hasher : PasswordHasher S) where
  -- A registration that succeeds has hashed the password and created the user.
  pub register-create :
      (input : RegisterInput) (caller_id : Uuid) (u : User) (s s' : S)
      → register repo hasher input caller_id s ≡ (ok u, s')
      → (hash : String) × (t : S) × (hasher.hash input.password s ≡ (ok hash, t))
        × (repo.create input hash caller_id t ≡ (ok u, s'))
  unfolding register
  register-create input caller_id u s s' registered = elim (nil-cases (register_result input)) [
    | inr violated ↦ let stop = check_fail _ s violated in absurd (ground arith)
    | inl passes ↦
        let go = check_pass _ s passes in
        let t = (hasher.hash input.password s).1 in
        elim (Result-cases (hasher.hash input.password s).0) [
          | inr (inl (e, failed)) ↦ absurd (ground arith)
          | inr (inr panicked) ↦ absurd (ground arith)
          | inl (hash, hashed) ↦ elim (Result-cases (repo.create input hash caller_id t).0) [
            | inr (inl (e, failed)) ↦ elim (Bool-cases (is e Sentinel.user_email_taken)) [
              | inl taken ↦ absurd (ground arith)
              | inr other ↦ absurd (ground arith)
            ]
            | inr (inr panicked) ↦ absurd (ground arith)
            | inl (v, created) ↦ (hash, t, ground arith, ground arith)
          ]
        ]
  ]

  module _ (id : Uuid) (input : ChangePasswordInput) (v : ℤ) (caller_id : Uuid) (s : S)
      (passes : passwords_result input ≡ []) (u : User)
      (found : repo.find_by_id id s ≡ (ok u, s)) where
    pub change_password-refuses :
        hasher.verify input.old_password u.password_hash s ≡ (ok false, s)
        → change_password repo hasher id input v caller_id s
          ≡ (err (change_error (sentinel Sentinel.login_invalid_credentials)), s)
    unfolding change_password
    change_password-refuses wrong = let go = check_pass _ s passes in ground arith

    pub change_password-writes :
        (hash : String)
        → hasher.verify input.old_password u.password_hash s ≡ (ok true, s)
        → hasher.hash input.new_password s ≡ (ok hash, s)
        → (w : User) (s' : S) → repo.change_password id hash v caller_id s ≡ (ok w, s')
        → change_password repo hasher id input v caller_id s ≡ (ok w, s')
    unfolding change_password
    change_password-writes hash right hashed w s' written =
        let go = check_pass _ s passes in ground arith

    pub change_password-fails :
        (hash : String)
        → hasher.verify input.old_password u.password_hash s ≡ (ok true, s)
        → hasher.hash input.new_password s ≡ (ok hash, s)
        → (e : Error) (s' : S) → repo.change_password id hash v caller_id s ≡ (err e, s')
        → change_password repo hasher id input v caller_id s ≡ (err (change_error e), s')
    unfolding change_password
    change_password-fails hash right hashed e s' failed =
        let go = check_pass _ s passes in ground arith
