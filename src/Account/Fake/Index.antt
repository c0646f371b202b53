-- ===== src/Account/Fake/Index.antt =====
-- The index of names agrees with the accounts, and every operation keeps it so.
use pfm_go.Common.{
  ℕ, String, false, ◌≡◌, inl, inr, none, some, ◌==◌, ==_iff, nat_eq, string_eq, Bool-cases, arith,
}
use pfm_go.Types.{Uuid}
use pfm_go.GoMap.{lookup, delete}
use pfm_go.GoMap.Laws.{lookup-insert, lookup-delete}
use pfm_go.Account.{Account}
use pfm_go.Account.Fake.{FakeAccountRepository, key_of, store, put, is_taken, rename, remove}

module _ (uuid_new : ℕ → Uuid) (uuid_string : Uuid → String) (to_lower : String → String) where
  abbrev pub key : Account → String
  key = key_of uuid_new uuid_string to_lower

  -- The accounts are stored under their identifiers, each has its name in the index, and the
  -- index has no other name.
  pub record IsIndexed (f : FakeAccountRepository) : Type 0 where
    pub keyed : (id : Uuid) (a : Account) → lookup id f.by_id ≡ some a → a.id ≡ id
    pub named :
        (id : Uuid) (a : Account) → lookup id f.by_id ≡ some a → lookup (key a) f.names ≡ some id
    pub active :
        (k : String) (id : Uuid)
        → lookup k f.names ≡ some id
        → (a : Account) × (lookup id f.by_id ≡ some a) × (key a ≡ k)

  pub store-IsIndexed :
      (a : Account) (f : FakeAccountRepository)
      → IsIndexed f
      → lookup a.id f.by_id ≡ none
      → lookup (key a) f.names ≡ none
      → IsIndexed (store uuid_new uuid_string to_lower a f)
  unfolding store
  store-IsIndexed a f h new_id new_name = record {
    keyed = λ j b e. ground (arith, lookup-insert a.id j a f.by_id, ==_iff a.id j, h.keyed j b);
    named = λ j b e. ground (
      arith,
      lookup-insert a.id j a f.by_id,
      ==_iff a.id j,
      h.named j b,
      lookup-insert (key a) (key b) a.id f.names,
      ==_iff (key a) (key b),
    );
    active = λ k j e.
        let in_index = lookup-insert (key a) k a.id f.names in
        let by_id = lookup-insert a.id j a f.by_id in
        elim (Bool-cases (key a == k)) [
          | inl same ↦ (a, ground (arith, ==_iff a.id j), (==_iff (key a) k).0 same)
          | inr differs ↦
              let (b, found, key_b) = h.active k j (ground arith) in
              (b, ground (arith, ==_iff a.id j), key_b)
        ];
  }

  -- Another account holds the name exactly if the index maps it to another identifier.
  is_taken-false :
      (k : String) (id j : Uuid) (f : FakeAccountRepository)
      → is_taken uuid_new uuid_string to_lower k id f ≡ false
      → lookup k f.names ≡ some j
      → j ≡ id
  unfolding is_taken
  is_taken-false k id j f h e = ground (arith, ==_iff j id)

  pub rename-IsIndexed :
      (id : Uuid) (old new : Account) (f : FakeAccountRepository)
      → IsIndexed f
      → lookup id f.by_id ≡ some old
      → new.id ≡ old.id
      → is_taken uuid_new uuid_string to_lower (key new) id f ≡ false
      → IsIndexed (rename uuid_new uuid_string to_lower id old new f)
  unfolding rename
  rename-IsIndexed id old new f h stored same_id free = record {
    keyed = λ j b e.
        ground
          (arith, lookup-insert id j new f.by_id, ==_iff id j, h.keyed j b, h.keyed id old stored);
    named = λ j b e. ground (
      arith,
      lookup-insert id j new f.by_id,
      ==_iff id j,
      h.named j b,
      h.named id old stored,
      lookup-insert (key new) (key b) id (delete (key old) f.names),
      lookup-delete (key old) (key b) f.names,
      ==_iff (key new) (key b),
      ==_iff (key old) (key b),
      is_taken-false (key new) id j f free,
    );
    active = λ k j e.
        let in_index = lookup-insert (key new) k id (delete (key old) f.names) in
        let without_old = lookup-delete (key old) k f.names in
        let by_id = lookup-insert id j new f.by_id in
        elim (Bool-cases (key new == k)) [
          | inl same ↦ (new, ground (arith, ==_iff id j), (==_iff (key new) k).0 same)
          | inr differs ↦
              let (b, found, key_b) = h.active k j (ground arith) in
              (b, ground (arith, ==_iff id j, ==_iff (key old) k), key_b)
        ];
  }

  pub remove-IsIndexed :
      (id : Uuid) (a : Account) (f : FakeAccountRepository)
      → IsIndexed f
      → lookup id f.by_id ≡ some a
      → IsIndexed (remove uuid_new uuid_string to_lower id a f)
  unfolding remove
  remove-IsIndexed id a f h stored = record {
    keyed = λ j b e. ground (arith, lookup-delete id j f.by_id, h.keyed j b);
    named = λ j b e. ground (
      arith,
      lookup-delete id j f.by_id,
      ==_iff id j,
      h.named j b,
      h.named id a stored,
      lookup-delete (key a) (key b) f.names,
      ==_iff (key a) (key b),
    );
    active = λ k j e.
        let without = lookup-delete (key a) k f.names in
        let (b, found, key_b) = h.active k j (ground arith) in
        (b, ground (arith, lookup-delete id j f.by_id, ==_iff id j, ==_iff (key a) k), key_b);
  }

  pub put-IsIndexed :
      (id : Uuid) (old new : Account) (f : FakeAccountRepository)
      → IsIndexed f
      → lookup id f.by_id ≡ some old
      → new.id ≡ old.id
      → key new ≡ key old
      → IsIndexed (put id new f)
  unfolding put
  put-IsIndexed id old new f h stored same_id same_key = record {
    keyed = λ j b e.
        ground
          (arith, lookup-insert id j new f.by_id, ==_iff id j, h.keyed j b, h.keyed id old stored);
    named = λ j b e.
        ground
          (arith, lookup-insert id j new f.by_id, ==_iff id j, h.named j b, h.named id old stored);
    active = λ k j e.
        let (b, found, key_b) = h.active k j e in
        let by_id = lookup-insert id j new f.by_id in
        elim (Bool-cases (id == j)) [
          | inl same ↦ (new, ground arith, ground (arith, ==_iff id j))
          | inr differs ↦ (b, ground arith, key_b)
        ];
  }
