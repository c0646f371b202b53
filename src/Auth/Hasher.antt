-- ===== src/Auth/Hasher.antt =====
-- internal/adapter/auth/fake_hasher.go: what the double of the hasher hashed, it verifies.
use Prim.Native.String
use pfm_go.Common.{String, true, ◌≡◌, sym, ap, inl, inr, ==_iff, string_eq, arith}
use pfm_go.Effect.{ok}
use pfm_go.Validate.Collects.{check_pass, check_fail, nil-cases}
use pfm_go.Auth.{password_result, validate_password, fake_hash, fake_verify}

module _ {S : Type 0} where
  fake_hash-prefix :
      (p h : String) (s s' : S) → fake_hash p s ≡ (ok h, s') → String.◌++◌ "fake:" p ≡ h
  unfolding fake_hash validate_password
  fake_hash-prefix p h s s' hashed = elim (nil-cases (password_result p)) [
    | inr violated ↦ let stop = check_fail (password_result p) s violated in absurd (ground arith)
    | inl passes ↦ let go = check_pass (password_result p) s passes in ground arith
  ]

  pub fake_verify-fake_hash :
      (p h : String) (s s' t : S) → fake_hash p s ≡ (ok h, s') → fake_verify p h t ≡ (ok true, t)
  unfolding fake_verify
  fake_verify-fake_hash p h s s' t hashed =
      let e = fake_hash-prefix p h s s' hashed in
      ap (λ b. (ok b, t)) ((==_iff h (String.◌++◌ "fake:" p)).1 (sym e))
