-- ===== src/Effect.antt =====
-- A call of a Go function that returns `(A, error)` and works on a store: a state monad whose
-- state is kept when the call fails, as writes in Go are. A runtime panic ends the call.
use pfm_go.Common.{
  String, Option, none, some, Bool, ◌≡◌, ◌≢◌, refl, arith, ◌⊎◌, inl, inr, if◌then◌else◌,
}
use pfm_go.Message.{Error, wrapped}

pub data Result (A : Type 0) : Type 0 where
  panic : Result A
  err : Error → Result A
  ok : A → Result A

-- The state comes first, so that a store can be any type.
abbrev pub Action : Type 0 → Type 0 → Type 0
Action S A = S → Result A × S

module _ {S A : Type 0} where
  abbrev pub pure : A → Action S A
  pure a s = (ok a, s)

  abbrev pub fail : Error → Action S A
  fail e s = (err e, s)

  abbrev pub gets : (S → A) → Action S A
  gets f s = (ok (f s), s)

  abbrev pub or_fail : Option A → Error → Action S A
  or_fail none e = fail e
  or_fail (some a) e = pure a

infixl 5 ◌>>=◌ ◌>>◌
abbrev pub ◌>>=◌ : {S A B : Type 0} → Action S A → (A → Action S B) → Action S B
◌>>=◌ m f s =
    let (r, s') = m s in elim r [ ok a ↦ f a s' | err e ↦ (err e, s') | panic ↦ (panic, s') ]

abbrev pub ◌>>◌ : {S A B : Type 0} → Action S A → Action S B → Action S B
m >> k = m >>= λ _. k

module _ {S : Type 0} where
  -- `if err != nil { return … }`, where the branch may look at the error
  abbrev pub on_error : {A : Type 0} → Action S A → (Error → Action S A) → Action S A
  on_error m h s =
      let (r, s') = m s in elim r [ ok a ↦ (ok a, s') | err e ↦ h e s' | panic ↦ (panic, s') ]

  -- `if err != nil { … }`, where the branch may return without an error
  abbrev pub attempt :
      {A B : Type 0} → Action S A → (Error → Action S B) → (A → Action S B) → Action S B
  attempt m h k s =
      let (r, s') = m s in elim r [ ok a ↦ k a s' | err e ↦ h e s' | panic ↦ (panic, s') ]

  -- `if err != nil { return fmt.Errorf(format, err) }`
  abbrev pub annotate : {A : Type 0} → String → Action S A → Action S A
  annotate format m = on_error m (λ e. fail (wrapped format e))

  -- `if c { return …, err }`
  abbrev pub fail_if : Bool → Error → Action S (Unit {0})
  fail_if c e s = (if c then err e else ok tt, s)

  abbrev pub modify : (S → S) → Action S (Unit {0})
  modify f s = (ok tt, f s)

pub Result-cases :
    {A : Type 0} (r : Result A) → ((a : A) × (r ≡ ok a)) ⊎ ((e : Error) × (r ≡ err e)) ⊎ (r ≡ panic)
Result-cases (ok a) = inl (a, refl)
Result-cases (err e) = inr (inl (e, refl))
Result-cases panic = inr (inr refl)

-- The context that is added to an error changes nothing of the store.
pub annotate-state :
    {S A : Type 0} (format : String) (m : Action S A) (s : S) → (annotate format m s).1 ≡ (m s).1
annotate-state format m s = ground arith

-- The call returns no value.
abbrev pub IsFailure : {A : Type 0} → Result A → Type 0
IsFailure {A} r = (a : A) → r ≢ ok a

pub annotate-IsFailure :
    {S A : Type 0} (format : String) (m : Action S A) (s : S)
    → IsFailure (m s).0
    → IsFailure (annotate format m s).0
annotate-IsFailure format m s fails a done = elim (Result-cases (m s).0) [
  | inl (b, first) ↦ absurd (fails b first)
  | inr (inl (e, failed)) ↦ ground arith
  | inr (inr panicked) ↦ ground arith
]
