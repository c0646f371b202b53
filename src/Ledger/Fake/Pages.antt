-- ===== src/Ledger/Fake/Pages.antt =====
-- The pages of a result.
use pfm_go.Common.{
  ℕ, zero, suc, ◌+◌, ◌≤◌, ◌≡◌, refl, ◌∙◌, List, [], ◌∷◌, length, take, drop, get_elem?,
  get_elem?-drop, get_elem?-take_inside, leb, ltb, ◌<◌, Bool-cases, inl, inr, arith,
}
use pfm_go.Common.Int.{ℤ, pos, negsuc}
use pfm_go.Effect.{ok}
use pfm_go.Ledger.Fake.{limited, paginate}

module _ {A : Type 0} where
  drop_all : (n : ℕ) (xs : List A) → length xs ≤ n → drop n xs ≡ []
  drop_all zero [] h = refl
  drop_all zero (x ∷ xs) h = elim h [ ]
  drop_all (suc n) [] h = refl
  drop_all (suc n) (x ∷ xs) h = drop_all n xs (omega arith)

  length-take-le : (n : ℕ) (xs : List A) → length (take n xs) ≤ n
  length-take-le zero xs = omega arith
  length-take-le (suc n) [] = omega arith
  length-take-le (suc n) (x ∷ xs) = omega (arith, length-take-le n xs)

  limited-nil : (limit : ℤ) → limited {A = A} limit [] ≡ []
  unfolding limited
  limited-nil (negsuc n) = refl
  limited-nil (pos zero) = refl
  limited-nil (pos (suc n)) = ground arith

  -- The test of the offset saves no case.
  paginate-limited :
      (o : ℕ) (limit : ℤ) (xs : List A) → paginate (pos o) limit xs ≡ ok (limited limit (drop o xs))
  unfolding paginate
  paginate-limited o limit xs = elim (Bool-cases (leb (length xs) o)) [
    | inl over ↦ rw (over, drop_all o xs (ground arith), limited-nil limit)
    | inr inside ↦ rw inside
  ]

  limited_page :
      (k : ℕ) (xs : List A)
      → ((i : ℕ) → i < suc k → get_elem? (limited (pos (suc k)) xs) i ≡ get_elem? xs i)
        × (length (limited (pos (suc k)) xs) ≤ suc k)
  unfolding limited
  limited_page k xs = elim (Bool-cases (ltb (suc k) (length xs))) [
    | inl long ↦ rw long (get_elem?-take_inside (suc k) xs, length-take-le (suc k) xs)
    | inr short ↦ rw short (λ i h. refl, ground arith)
  ]

  -- At a position below the limit a page has the item of the result that lies that many places
  -- behind the offset, and none if the result ends before; it has at most as many items as the
  -- limit. With the limit zero or a negative one the page has no limit. No page panics or fails
  -- at an offset that is not negative.
  pub paginate-items :
      (o k : ℕ) (xs : List A)
      → ((page : List A) × (paginate (pos o) (pos (suc k)) xs ≡ ok page)
          × (length page ≤ suc k)
          × ((i : ℕ) → i < suc k → get_elem? page i ≡ get_elem? xs (o + i)))
        × ((page : List A) × (paginate (pos o) (pos 0) xs ≡ ok page)
            × (paginate (pos o) (negsuc k) xs ≡ ok page)
            × ((i : ℕ) → get_elem? page i ≡ get_elem? xs (o + i)))
  unfolding limited
  paginate-items o k xs =
      let (items, bounded) = limited_page k (drop o xs) in
      (
        (
          limited (pos (suc k)) (drop o xs),
          paginate-limited o (pos (suc k)) xs,
          bounded,
          λ i h. items i h ∙ get_elem?-drop o xs i,
        ),
        (
          drop o xs,
          paginate-limited o (pos 0) xs,
          paginate-limited o (negsuc k) xs,
          λ i. get_elem?-drop o xs i,
        ),
      )
