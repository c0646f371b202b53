-- ===== src/GoMap.antt =====
-- Go maps as association lists. A range over a map visits its entries in no fixed order; here it
-- is the order of the list, so theorems about ranges do not depend on it.
pub mod Laws
use pfm_go.Common.{
  Equality, ◌==◌, Bool, true, false, Option, none, some, List, [], ◌∷◌, if◌then◌else◌,
}

abbrev pub Map {ℓ κ} : Type ℓ → Type κ → Type (ℓ ⊔ κ)
Map K V = List (K × V)

module _ {ℓ κ} {K : Type ℓ} {V : Type κ} ⦃e : Equality K⦄ where
  -- `value, ok := entries[key]`
  unfoldable pub lookup : K → Map K V → Option V
  lookup key [] = none
  lookup key (entry ∷ entries) =
      let behind = lookup key entries in if entry.0 == key then some entry.1 else behind

  -- `_, ok := entries[key]`
  unfoldable pub contains : K → Map K V → Bool
  contains key entries = elim (lookup key entries) [ none ↦ false | some _ ↦ true ]

  -- `entries[key] = value`
  unfoldable pub insert : K → V → Map K V → Map K V
  insert key value [] = (key, value) ∷ []
  insert key value (entry ∷ entries) =
      let behind = insert key value entries in
      if entry.0 == key then (key, value) ∷ entries else entry ∷ behind

  -- `delete(entries, key)`
  unfoldable pub delete : K → Map K V → Map K V
  delete key [] = []
  delete key (entry ∷ entries) =
      let behind = delete key entries in if entry.0 == key then behind else entry ∷ behind
