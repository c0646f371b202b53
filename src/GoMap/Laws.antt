-- ===== src/GoMap/Laws.antt =====
-- Laws of Go maps: what a lookup finds after a write or a delete, and that the keys stay distinct.
use pfm_go.Common.{Equality, ◌==◌, ◌≡◌, refl, false, none, some, [], ◌∷◌, arith, if◌then◌else◌}
use pfm_go.GoMap.{Map, lookup, contains, insert, delete}

module _ {ℓ κ} {K : Type ℓ} {V : Type κ} ⦃e : Equality K⦄ where
  pub lookup-insert :
      (key asked : K) (value : V) (m : Map K V)
      → lookup asked (insert key value m) ≡ (if key == asked then some value else lookup asked m)
  unfolding lookup insert
  lookup-insert key asked value [] = refl
  lookup-insert key asked value ((i, w) ∷ m) =
      let behind = lookup-insert key asked value m in
      ground (
        arith,
        behind,
        e.equals_iff key asked,
        e.equals_iff i key,
        e.equals_iff i asked,
        e.equals_iff key key,
      )

  pub lookup-delete :
      (k j : K) (m : Map K V) → lookup j (delete k m) ≡ (if k == j then none else lookup j m)
  unfolding lookup delete
  lookup-delete k j [] = ground arith
  lookup-delete k j ((i, w) ∷ m) =
      ground (arith, e.equals_iff k j, e.equals_iff i k, e.equals_iff i j, lookup-delete k j m)

  pub contains-lookup : (k : K) (m : Map K V) → contains k m ≡ false → lookup k m ≡ none
  unfolding contains
  contains-lookup k m h = ground arith

  -- No key stands twice in the list, as in a Go map.
  abbrev pub IsMap : Map K V → Type κ
  IsMap [] = Unit
  IsMap ((k, v) ∷ m) = (lookup k m ≡ none) × IsMap m

  pub insert-IsMap : (k : K) (v : V) (m : Map K V) → IsMap m → IsMap (insert k v m)
  unfolding lookup insert
  insert-IsMap k v [] h = (refl, tt)
  insert-IsMap k v ((i, w) ∷ m) h =
      ground
        (arith, e.equals_iff i k, e.equals_iff k i, lookup-insert k i v m, insert-IsMap k v m h.1)

  pub delete-IsMap : (k : K) (m : Map K V) → IsMap m → IsMap (delete k m)
  unfolding lookup delete
  delete-IsMap k [] h = tt
  delete-IsMap k ((i, w) ∷ m) h =
      ground (arith, e.equals_iff k i, lookup-delete k i m, delete-IsMap k m h.1)
